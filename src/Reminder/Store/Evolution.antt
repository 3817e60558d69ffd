-- ===== src/Reminder/Store/Evolution.antt =====
-- Every method of the store (reminder/store.go) moves rows only along the steps of
-- `wego.Reminder.History`, on its error paths too, whatever the database answers.
use wego.Prelude.{
  ℕ, Bool, true, false, Option, none, some, List, [], ◌∷◌, ◌≡◌, refl, inl, inr, ◌&&◌, map, Text, ℤ,
  if◌then◌else◌, arith,
}
use wego.Action.{Result, ok, err, Action, refuse_if, continue, ◌>>=◌}
use wego.Reminder.Model.{
  Time, Status, pending, processing, canceled, status_beq, Reminder, CreateParams, SqlError, Error,
}
use wego.Reminder.History.{
  Step, claim, requeue, deliver, retry, fail, cancel, reschedule, Moves, here, next, Evolves, moved,
  grown, Evolves-refl, Evolves-append, Evolves-trans,
}
use wego.Reminder.Database.{Database, Where, set_where, Lawful}
use wego.Reminder.Store.{
  Store, create, get_by_key, mutate, cancel_by_key, reschedule_by_key, claim_due, claim_rows,
  finish_claim, requeue_stale_processing, mark_sent, mark_retry, mark_failed,
}

is_processing : (s : Status) → status_beq s processing ≡ true → s ≡ processing
is_processing s h = ground arith

is_pending : (s : Status) → status_beq s pending ≡ true → s ≡ pending
is_pending s h = ground arith

and-true : (a b : Bool) → (a && b) ≡ true → (a ≡ true) × (b ≡ true)
and-true a b h = ground arith

-- An UPDATE whose rows each make a step.
Evolves-set_where :
    (w : Where) (f : Reminder → Reminder)
    → ((r : Reminder) → w r ≡ true → Step r (f r))
    → (rs : List Reminder) → Evolves rs (map (set_where w f) rs)
Evolves-set_where w f step [] = grown []
Evolves-set_where w f step (r ∷ rs) =
    moved (Moves-set_where (w r) refl) (Evolves-set_where w f step rs)
  where
    Moves-set_where : (b : Bool) → w r ≡ b → Moves r (if b then f r else r)
    Moves-set_where true e = next here (step r e)
    Moves-set_where false e = here

module _ (base : Database) (law : Lawful base) where
  open base use {Db, rows, insert, update, select_one, select_due, begin, commit, others}

  -- The table after an action, also one that fails, evolves from the table before it.
  pub record Tracks {A : Type 0} (m : Action Db Error A) : Type 0 where
    pub at : (db : Db) → Evolves (rows db) (rows (m db).1)

  Evolves-of_eq : (db db' : Db) → rows db' ≡ rows db → Evolves (rows db) (rows db')
  Evolves-of_eq db db' e = rw e (Evolves-refl (rows db))

  Evolves-update :
      (w : Where) (f : Reminder → Reminder)
      → ((r : Reminder) → w r ≡ true → Step r (f r))
      → (db : Db) → Evolves (rows db) (rows (update w f db).1)
  Evolves-update w f step db = elim (law.update_rows w f db) [
    | inl e ↦ Evolves-of_eq db _ e
    | inr e ↦ rw e (Evolves-set_where w f step (rows db))
  ]

  Tracks-mutate :
      (w : Where) (f : Reminder → Reminder)
      → ((r : Reminder) → w r ≡ true → Step r (f r))
      → Tracks (mutate base w f)
  unfolding mutate
  Tracks-mutate w f step = record { at = Evolves-update w f step }

  Tracks-refuse_if :
      {A : Type 0} (b : Bool) (e : Error) (m : Action Db Error A)
      → Tracks m
      → Tracks (refuse_if b e m)
  unfolding refuse_if
  Tracks-refuse_if true e m t = record { at = λ db. Evolves-refl (rows db) }
  Tracks-refuse_if false e m t = t

  Tracks-if :
      {A : Type 0} (b : Bool) (m n : Action Db Error A)
      → Tracks m
      → Tracks n
      → Tracks (if b then m else n)
  Tracks-if true m n tm tn = tm
  Tracks-if false m n tm tn = tn

  Tracks-pure : {A : Type 0} (r : Db → Result Error A) → Tracks (λ db. (r db, db))
  Tracks-pure r = record { at = λ db. Evolves-refl (rows db) }

  Tracks-others : Tracks (λ db. (ok tt, others db))
  Tracks-others = record { at = law.others_rows }

  Evolves-continue :
      {A B : Type 0} (r : Result Error A) (f : A → Action Db Error B) {db0 : Db} (db : Db)
      → Evolves (rows db0) (rows db)
      → ((a : A) → Tracks (f a))
      → Evolves (rows db0) (rows (continue r f db).1)
  Evolves-continue (ok a) f db h tf = Evolves-trans h ((tf a).at db)
  Evolves-continue (err e) f db h tf = h

  Tracks-bind :
      {A B : Type 0} (m : Action Db Error A) (f : A → Action Db Error B)
      → Tracks m
      → ((a : A) → Tracks (f a))
      → Tracks (m >>= f)
  unfolding ◌>>=◌
  Tracks-bind m f tm tf = record { at = λ db. Evolves-continue (m db).0 f (m db).1 (tm.at db) tf }

  Tracks-get_by_key : (s : Store) (key : Text) → Tracks (get_by_key base s key)
  unfolding get_by_key
  Tracks-get_by_key s key = Tracks-refuse_if _ _ _ (Tracks-pure _)

  -- `Create` adds at most its row.
  pub Tracks-create : (s : Store) (now : Time) (p : CreateParams) → Tracks (create base s now p)
  unfolding create
  Tracks-create s now p = Tracks-refuse_if _ _ _ (record {
    at = λ db. elim (law.insert_rows _ db) [
      | inl e ↦ Evolves-of_eq db _ e
      | inr (n, e) ↦ rw e (Evolves-append (rows db) _)
    ];
  })

  pub Tracks-cancel_by_key :
      (s : Store) (now : Time) (key : Text) → Tracks (cancel_by_key base s now key)
  unfolding cancel_by_key
  Tracks-cancel_by_key s now key = Tracks-refuse_if _ _ _ (
      Tracks-bind _ _ (Tracks-get_by_key s _) λ item.
        Tracks-if (status_beq item.status canceled) _ _ (Tracks-pure _) (
          Tracks-refuse_if _ _ _ (
            Tracks-bind _ _ Tracks-others
              λ _. Tracks-mutate _ _ λ r h. cancel now (and-true _ _ h).1)))

  pub Tracks-reschedule_by_key :
      (s : Store) (now : Time) (key : Text) (at : Time)
      → Tracks (reschedule_by_key base s now key at)
  unfolding reschedule_by_key
  Tracks-reschedule_by_key s now key at = Tracks-refuse_if _ _ _ (
      Tracks-bind _ _ (Tracks-get_by_key s _) λ item. Tracks-refuse_if _ _ _ (
        Tracks-bind _ _ Tracks-others
          λ _. Tracks-mutate _ _ λ r h. reschedule at now (and-true _ _ h).1))

  pub Tracks-requeue :
      (s : Store) (now stale : Time) → Tracks (requeue_stale_processing base s now stale)
  unfolding requeue_stale_processing
  Tracks-requeue s now stale = Tracks-refuse_if _ _ _ (record {
    at = Evolves-update _ _ λ r h. requeue now (is_processing r.status (and-true _ _ h).0);
  })

  pub Tracks-mark_sent : (s : Store) (id : ℕ) (at : Time) → Tracks (mark_sent base s id at)
  unfolding mark_sent
  Tracks-mark_sent s id at =
      Tracks-refuse_if _ _ _
        (Tracks-mutate _ _ λ r h. deliver at (is_processing r.status (and-true _ _ h).1))

  pub Tracks-mark_retry :
      (s : Store) (now : Time) (item : Option Reminder) (at : Time) (message : Text)
      → Tracks (mark_retry base s now item at message)
  unfolding mark_retry
  Tracks-mark_retry s now none at message = Tracks-pure _
  Tracks-mark_retry s now (some item) at message =
      Tracks-refuse_if _ _ _ (
        Tracks-mutate _ _ λ r h. retry _ at now message (is_processing r.status (and-true _ _ h).1))

  pub Tracks-mark_failed :
      (s : Store) (now : Time) (item : Option Reminder) (message : Text)
      → Tracks (mark_failed base s now item message)
  unfolding mark_failed
  Tracks-mark_failed s now none message = Tracks-pure _
  Tracks-mark_failed s now (some item) message =
      Tracks-refuse_if _ _ _
        (Tracks-mutate _ _ λ r h. fail _ now message (is_processing r.status (and-true _ _ h).1))

  Evolves-finish_claim :
      (items : List Reminder) (saved working : Db) (r : Result SqlError (Unit {0}))
      → Evolves (rows saved) (rows working)
      → Evolves (rows saved) (rows (finish_claim base items saved r working).1)
  unfolding finish_claim
  Evolves-finish_claim items saved working (err e) h = Evolves-refl (rows saved)
  Evolves-finish_claim items saved working (ok _) h = elim (law.commit_rows saved working) [
    | inl e ↦ Evolves-of_eq saved _ e
    | inr e ↦ rw e h
  ]

  Tracks-claim_rows : (now : Time) (items : List Reminder) → Tracks (claim_rows base now items)
  unfolding claim_rows
  Tracks-claim_rows now [] = record {
    at = λ db. Evolves-finish_claim [] db db (ok tt) (Evolves-refl (rows db));
  }
  Tracks-claim_rows now (r ∷ rs) = record {
    at = λ db.
        Evolves-finish_claim _ db _ _
          (Evolves-update _ _ (λ s h. claim now (is_pending s.status (and-true _ _ h).1)) db);
  }

  pub Tracks-claim_due : (s : Store) (now : Time) (limit : ℤ) → Tracks (claim_due base s now limit)
  unfolding claim_due
  Tracks-claim_due s now limit = Tracks-refuse_if _ _ _ (
      Tracks-bind _ _ (Tracks-pure _)
        λ _. Tracks-bind _ _ (Tracks-pure _) λ items. Tracks-claim_rows now items)
