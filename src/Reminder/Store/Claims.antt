-- ===== src/Reminder/Store/Claims.antt =====
-- `ClaimDue` of reminder/store.go: what a claim returns and what it leaves, and that no reminder is
-- claimed twice.
use wego.Prelude.{
  All-map, some, length-take, All-implies, length-map, get_elem?, ◌≢◌, ◌≤◌, All, ℕ, false, arith,
  true, length, Bool, List, [], ◌∷◌, map, ◌≡◌, refl, ◌&&◌, not, nat_beq, leb, any, keep_if, take, ℤ,
  pos_part, sym, ap, ◌∙◌,
}
use wego.Action.{Result, ok, err, >>=-ok, refuse_if-ok, map_err-ok}
use wego.Reminder.Model.{Time, pending, status_beq, Reminder, SqlError, Error, sql}
use wego.Reminder.Database.{Database, Where, set_where, order_rows, Lawful, SqlResult}
use wego.Reminder.Store.{Store, claim_due, claim_rows, finish_claim, as_claimed}
use wego.Reminder.Store.Statements.{All-selected, row_after, Row, map-set_where_none, count_if-zero}

-- The rows that a claim may take.
abbrev pub is_due : Time → Where
is_due now r = status_beq r.status pending && leb r.schedule_at now

-- The rows that the UPDATE of a claim of `items` changes.
abbrev pub taken : List Reminder → Where
taken items r = any (λ c. nat_beq c.id r.id) items && status_beq r.status pending

module _ (base : Database) (law : Lawful base) where
  open base use {Db, rows, update, select_due, commit, locked}

  finish_claim-ok :
      (items : List Reminder) (saved working : Db) (r : Result SqlError (Unit {0}))
      {got : List Reminder}
      → (finish_claim base items saved r working).0 ≡ ok got
      → (r ≡ ok tt)
        × (got ≡ items)
        × (rows (finish_claim base items saved r working).1 ≡ rows working)
  unfolding finish_claim
  finish_claim-ok items saved working (err e) h = cc
  finish_claim-ok items saved working (ok u) h =
      let (e, t) = committed (commit saved working).0 refl h in (refl, e, t)
    where
      committed :
          (c : Result SqlError (Unit {0}))
          → {got : List Reminder} → (commit saved working).0 ≡ c
          → (elim c as (λ x. Result Error (List Reminder)) [
            | ok _ ↦ ok items
            | err e ↦ err (sql e)
          ])
            ≡ ok got
          → (got ≡ items) × (rows (commit saved working).1 ≡ rows working)
      committed (ok v) e k = (cc, law.commit_ok saved working e)
      committed (err x) e k = cc

  claim_rows-ok :
      (now : Time) (items : List Reminder) (db : Db) {got : List Reminder}
      → (claim_rows base now items db).0 ≡ ok got
      → (got ≡ map (as_claimed now) items)
        × (rows (claim_rows base now items db).1
            ≡ map (set_where (taken items) (as_claimed now)) (rows db))
  unfolding claim_rows
  claim_rows-ok now [] db h =
      let (_, e, t) = finish_claim-ok [] db db (ok tt) h in
      (
        e,
        t
            ∙ sym (
                map-set_where_none (taken []) (as_claimed now) (rows db)
                  (count_if-zero _ _ (λ i q p. refl))),
      )
  claim_rows-ok now (r ∷ rs) db h =
      let (u, e, t) = finish_claim-ok _ db _ _ h in
      (e, t ∙ updated (update (taken (r ∷ rs)) (as_claimed now) db).0 refl u)
    where
      updated :
          (res : Result SqlError SqlResult)
          → (update (taken (r ∷ rs)) (as_claimed now) db).0 ≡ res
          → (elim res as (λ x. Result SqlError (Unit {0})) [ ok _ ↦ ok tt | err e ↦ err e ]) ≡ ok tt
          → rows (update (taken (r ∷ rs)) (as_claimed now) db).1
            ≡ map (set_where (taken (r ∷ rs)) (as_claimed now)) (rows db)
      updated (ok res) e k = law.update_ok _ _ db res e
      updated (err x) e k = cc

  -- A claim that succeeds: the rows that it selected, what it returns, and the table after it.
  pub claim_due-ok :
      (s : Store) (now : Time) (limit : ℤ) (db : Db) {items : List Reminder}
      → (claim_due base s now limit db).0 ≡ ok items
      → (picked : List Reminder) × (picked
          ≡ take
              (pos_part limit)
              (order_rows (keep_if (λ r. is_due now r && not (locked db r.id)) (rows db))))
        × (items ≡ map (as_claimed now) picked)
        × (rows (claim_due base s now limit db).1
            ≡ map (set_where (taken picked) (as_claimed now)) (rows db))
  unfolding claim_due
  claim_due-ok s now limit db h =
      let (_, e) = refuse_if-ok _ _ _ db h in
      let (_, _, h1, e1) = >>=-ok _ _ db (rw e at h) in
      let (picked, sel, h2, e2) = >>=-ok _ _ db h1 in
      let (got, after) = claim_rows-ok now picked db h2 in
      (
        picked,
        law.select_due_ok _ _ db picked (map_err-ok sql _ sel),
        got,
        ap (λ p. rows p.1) (e ∙ e1 ∙ e2) ∙ after,
      )

-- An item of a claim: it was a due row that no other transaction held.
pub record WasDue (base : Database) (now : Time) (db : base.Db) (c : Reminder) : Type 0 where
  pub row : Reminder
  pub in_table : Row (base.rows db) row
  pub due : is_due now row ≡ true
  pub unlocked : base.locked db row.id ≡ false
  pub claimed : c ≡ as_claimed now row

and-true : (a b : Bool) → (a && b) ≡ true → (a ≡ true) × (b ≡ true)
and-true a b h = ground arith

not-true : (a : Bool) → not a ≡ true → a ≡ false
not-true a h = ground arith

module _ (base : Database) (law : Lawful base) (s : Store) where
  open base use {Db, rows, locked}

  -- A claim that succeeds returns at most `limit` reminders. Each was a pending row whose time had
  -- come and that no other transaction held, and it is returned as processing, claimed now.
  pub claim_due-WasDue :
      (now : Time) (limit : ℤ) (db : Db) (items : List Reminder)
      → (claim_due base s now limit db).0 ≡ ok items
      → (length items ≤ pos_part limit) × All (WasDue base now db) items
  claim_due-WasDue now limit db items h =
      let (picked, sel, got, _) = claim_due-ok base law s now limit db h in
      (
        rw (got, length-map, sel) (length-take (pos_part limit) _),
        rw (got, sel)
            (All-map (as_claimed now) (WasDue base now db) _ (
              All-selected (λ r. WasDue base now db (as_claimed now r)) _ (pos_part limit) (rows db)
                λ i r at match. record {
                  row = r;
                  in_table = (i, at);
                  due = (and-true _ _ match).0;
                  unlocked = not-true _ (and-true _ _ match).1;
                  claimed = refl;
                })),
      )

pending_status : (q : Reminder) (w : Time) → is_due w q ≡ true → status_beq q.status pending ≡ true
pending_status q w h = ground arith

-- Rows that no picked row shares its id with.
any-false :
    (now : Time) (n : ℕ) (xs : List Reminder)
    → any (λ c. nat_beq c.id n) xs ≡ false
    → All (λ c. c.id ≢ n) (map (as_claimed now) xs)
unfolding as_claimed
any-false now n [] h = tt
any-false now n (x ∷ xs) h = (ground arith, any-false now n xs (ground arith))

-- After an update that takes the picked rows, a row that is still pending is none of them.
untaken :
    (now : Time) (picked rs : List Reminder) (i : ℕ) (q : Reminder)
    → get_elem? (map (set_where (taken picked) (as_claimed now)) rs) i ≡ some q
    → status_beq q.status pending ≡ true
    → any (λ c. nat_beq c.id q.id) picked ≡ false
unfolding as_claimed
untaken now picked rs i q at h =
    let (r, at0, change) = row_after (taken picked) (as_claimed now) rs i q at in ground arith

module _ (base : Database) (law : Lawful base) (s : Store) where
  open base use {Db, rows, locked}

  -- Two claims that succeed, one after the other, at any times and limits, return no reminder
  -- twice: no id of the first result is an id of the second.
  pub claim_due_exclusive :
      (now later : Time) (limit limit' : ℤ) (db : Db) (first second : List Reminder)
      → (claim_due base s now limit db).0 ≡ ok first
      → (claim_due base s later limit' (claim_due base s now limit db).1).0 ≡ ok second
      → All (λ d. All (λ c. c.id ≢ d.id) first) second
  unfolding as_claimed
  claim_due_exclusive now later limit limit' db first second h k =
      let (picked, _, got, after) = claim_due-ok base law s now limit db h in
      let (_, due) = claim_due-WasDue base law s later limit' _ second k in
      All-implies (WasDue base later (claim_due base s now limit db).1) _ second
        (λ d was.
          let (i, at) = was.in_table in
          let q = was.row in
          let fresh =
            untaken now picked (rows db) i q (rw after at at) (pending_status q later was.due) in
          rw (was.claimed, got) (any-false now q.id picked fresh))
        due
