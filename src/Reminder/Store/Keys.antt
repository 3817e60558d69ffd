-- ===== src/Reminder/Store/Keys.antt =====
-- The methods of reminder/store.go that go by key: Create, GetByKey, CancelByKey, RescheduleByKey.
use wego.Prelude.{
  subst, if◌then◌else◌, trim_space-trim_space, sym, ℕ, zero, suc, ◌<◌, Bool, true, false, some,
  List, [], ◌∷◌, ◌++◌, ◌≡◌, refl, ◌≢◌, ◌&&◌, not, Text, text_beq, trim_space, get_elem?, All, arith,
  ap, ◌∙◌, text_beq_iff,
}
use wego.Action.{pure, Result, ok, err, refuse_if, ◌>>◌, >>=-ok, refuse_if-ok}
use wego.Reminder.Model.{
  state_conflict, Time, canceled, status_beq, Reminder, CreateParams, SqlError, no_rows,
  context_canceled, pg, driver, no_rows, pg, driver, Error,
}
use wego.Reminder.History.{is_open}
use wego.Reminder.Database.{stored_row, Database, Where, Lawful}
use wego.Reminder.Store.{
  yield, cancel_item, Store, create, insert_error, new_reminder, get_by_key, row_error, mutate,
  cancel_by_key,
}
use wego.Reminder.Store.Statements.{found_match, mutate-ok, Row}

-- In a table with one row more, the row with the new row's key is the new row.
only_new :
    (k : Text) (r : Reminder) (rs : List Reminder) (i : ℕ) (q : Reminder)
    → All (λ s. s.key ≢ k) rs
    → get_elem? (rs ++ r ∷ []) i ≡ some q
    → q.key ≡ k
    → q ≡ r
only_new k r [] zero q fresh at e = cc
only_new k r [] (suc i) q fresh at e = cc
only_new k r (s ∷ rs) zero q (ne, fresh) at e = absurd (ne (ground arith))
only_new k r (s ∷ rs) (suc i) q (ne, fresh) at e = only_new k r rs i q fresh at e

module _ (base : Database) (law : Lawful base) (s : Store) where
  open base use {Db, rows, insert, select_one, others}

  insert_error-ok :
      (res : Result SqlError ℕ) (r got : Reminder)
      → insert_error base res r ≡ ok got
      → (n : ℕ) × (res ≡ ok n) × (got ≡ record r { id = n })
  unfolding insert_error
  insert_error-ok (ok n) r got h = (n, refl, cc)
  insert_error-ok (err e) r got h = absurd (ground arith)

  row_error-ok :
      (res : Result SqlError Reminder) (r : Reminder) → row_error base res ≡ ok r → res ≡ ok r
  unfolding row_error
  row_error-ok (ok q) r h = cc
  row_error-ok (err no_rows) r h = cc
  row_error-ok (err context_canceled) r h = cc
  row_error-ok (err (pg code)) r h = cc
  row_error-ok (err (driver n)) r h = cc

  -- A lookup that succeeds returns a row of the table with the key, and changes nothing.
  pub get_by_key-ok :
      (key : Text) (db : Db) (r : Reminder)
      → (get_by_key base s key db).0 ≡ ok r
      → Row (rows db) r × (r.key ≡ trim_space key) × ((get_by_key base s key db).1 ≡ db)
  unfolding get_by_key
  get_by_key-ok key db r h =
      let (_, e) = refuse_if-ok _ _ _ db h in
      let (match, i, at) = law.select_one_ok _ db r (row_error-ok _ r (rw e at h)) in
      ((i, at), (text_beq_iff _ _).0 match, ap (λ p. p.1) e)

  -- Create then GetByKey: if both succeed, for keys that agree up to white space, the lookup returns
  -- the reminder that Create made of its parameters and returned, pending and with its positive id,
  -- but for the instants, which are as the database stores them and not as Create returned them.
  pub get_by_key-create :
      (now : Time) (p : CreateParams) (key : Text) (db : Db) (made got : Reminder)
      → trim_space key ≡ trim_space p.key
      → (create base s now p db).0 ≡ ok made
      → (get_by_key base s key (create base s now p db).1).0 ≡ ok got
      → (got ≡ stored_row base made)
        × (made ≡ record (new_reminder now p) { id = made.id })
        × (0 < made.id)
  unfolding create
  get_by_key-create now p key db made got same h k =
      let (_, e) = refuse_if-ok _ _ _ db h in
      let (n, res, m) = insert_error-ok _ _ made (rw e at h) in
      let (after, positive, _, fresh) = law.insert_ok _ db n res in
      let ((i, at), named, _) = get_by_key-ok key _ got k in
      let q : got ≡ stored_row base (record (new_reminder now p) { id = n }) =
        only_new (trim_space p.key) _ (rows db) i got fresh (rw (e, after) at at) (named ∙ same) in
      let made_id : made.id ≡ n = ap (λ (r : Reminder). r.id) m in
      (
        q ∙ ap (stored_row base) (sym m),
        subst (λ k. made ≡ record (new_reminder now p) { id = k }) (sym made_id) m,
        rw made_id positive,
      )

  cancel_item-ok :
      (now : Time) (key : Text) (item : Reminder) (db : Db)
      → Row (rows db) item
      → item.key ≡ key
      → (cancel_item base now key item db).0 ≡ ok tt
      → (r : Reminder) × Row (rows (cancel_item base now key item db).1) r
        × (r.key ≡ key)
        × (r.status ≡ canceled)
  unfolding cancel_item
  cancel_item-ok now key item db row named = tested (status_beq item.status canceled) refl
    where
      open_row : Where
      open_row r = text_beq r.key key && is_open r.status

      close : Reminder → Reminder
      close r = record r { status = canceled; canceled_at = some now; updated_at = now }

      m : Db → Result Error (Unit {0}) × Db
      m =
          refuse_if (not (is_open item.status)) state_conflict
            (yield base >> mutate base open_row close)

      tested :
          (b : Bool)
          → status_beq item.status canceled ≡ b
          → ((if b then pure tt else m) db).0 ≡ ok tt
          → (r : Reminder) × Row (rows ((if b then pure tt else m) db).1) r
            × (r.key ≡ key)
            × (r.status ≡ canceled)
      tested true c h = (item, row, named, ground arith)
      tested false c h =
          let (_, e) = refuse_if-ok _ _ _ db h in
          let (_, _, h1, e1) = >>=-ok _ _ db (rw e at h) in
          let (after, found) = mutate-ok base law open_row close (others db) h1 in
          let (r, _, match, (i, at)) = found_match open_row close (rows (others db)) found in
          (close r, (i, rw (e, e1, after) at), ground (arith, text_beq_iff r.key key), refl)

  -- A cancellation that succeeds leaves a canceled row of the key.
  pub cancel_by_key-ok :
      (now : Time) (key : Text) (db : Db)
      → (cancel_by_key base s now key db).0 ≡ ok tt
      → (r : Reminder) × Row (rows (cancel_by_key base s now key db).1) r
        × (r.key ≡ trim_space key)
        × (r.status ≡ canceled)
  unfolding cancel_by_key
  cancel_by_key-ok now key db h =
      let (_, e) = refuse_if-ok _ _ _ db h in
      let (item, found, h1, e1) = >>=-ok _ _ db (rw e at h) in
      let (row, named, same) = get_by_key-ok (trim_space key) db item found in
      rw (e, e1)
        (cancel_item-ok now (trim_space key) item _ (rw same row)
          (named ∙ trim_space-trim_space key) h1)
