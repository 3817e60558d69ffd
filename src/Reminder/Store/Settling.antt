-- ===== src/Reminder/Store/Settling.antt =====
-- A claimed reminder is settled once: MarkSent, MarkRetry and MarkFailed of reminder/store.go.
use wego.Prelude.{
  inl, inr, ◌<◌, map, ◌≢◌, count_if, arith, List, ℕ, Bool, false, some, ◌≡◌, refl, ◌&&◌, Text,
  nat_beq,
}
use wego.Action.{refuse_if-ok, ok, Result, refuse_if}
use wego.Reminder.Model.{Time, processing, status_beq, Reminder, Error, invalid_reminder}
use wego.Reminder.Database.{set_where, Lawful, Database, Where}
use wego.Reminder.Store.Statements.{row_after, found_match, mutate-ok, count_if-zero, Row}
use wego.Reminder.Store.{Store, mutate, mark_sent, mark_retry, mark_failed}

-- The three ways to settle a claimed reminder.
pub data Outcome : Type 0 where
  as_sent : Time → Outcome
  as_retry : Time → Reminder → Time → Text → Outcome
  as_failed : Time → Reminder → Text → Outcome

-- The WHERE condition of all three.
abbrev claimed_row : ℕ → Where
claimed_row id r = nat_beq r.id id && status_beq r.status processing

-- A statement that takes the rows of `id` out of `processing`.
abbrev Settles : ℕ → (Reminder → Reminder) → Type 0
Settles id f = (r : Reminder) → ((f r).id ≡ r.id) × (status_beq (f r).status processing ≡ false)

module _ (base : Database) where
  open base use {Db, rows}

  -- The call that settles a reminder; the item of a retry or a failure carries the id.
  unfoldable pub settle : Store → ℕ → Outcome → Db → Result Error (Unit {0}) × Db
  settle s id (as_sent at) = mark_sent base s id at
  settle s id (as_retry now item at message) =
      mark_retry base s now (some (record item { id = id })) at message
  settle s id (as_failed now item message) =
      mark_failed base s now (some (record item { id = id })) message

  -- A settling call is refused for its arguments, or is one mutation.
  settle-mutate :
      (s : Store) (id : ℕ) (o : Outcome)
      → (b : Bool) × (f : Reminder → Reminder) × (settle s id o
          ≡ refuse_if b invalid_reminder (mutate base (claimed_row id) f))
        × Settles id f
  unfolding settle mark_sent mark_retry mark_failed
  settle-mutate s id (as_sent at) = (_, _, refl, λ r. (refl, refl))
  settle-mutate s id (as_retry now item at message) = (_, _, refl, λ r. (refl, refl))
  settle-mutate s id (as_failed now item message) = (_, _, refl, λ r. (refl, refl))

-- A row that a settled id matches is not claimed any more.
claimed_row-false :
    (id : ℕ) (r : Reminder) → status_beq r.status processing ≡ false → claimed_row id r ≡ false
claimed_row-false id r h = ground arith

none_claimed :
    (id : ℕ) (f : Reminder → Reminder)
    → Settles id f
    → (rs : List Reminder) → count_if (claimed_row id) (map (set_where (claimed_row id) f) rs) ≡ 0
none_claimed id f out rs = count_if-zero (claimed_row id) _ λ i q at.
    let (r, at0, change) = row_after (claimed_row id) f rs i q at in
    elim change [ inl (m, e) ↦ rw e (claimed_row-false id (f r) (out r).1) | inr (m, e) ↦ rw e m ]

module _ (base : Database) (law : Lawful base) where
  open base use {Db, rows}

  -- The update that a settling call which succeeds has made.
  settle-ok :
      (s : Store) (id : ℕ) (o : Outcome) (db : Db)
      → (settle base s id o db).0 ≡ ok tt
      → (f : Reminder → Reminder) × Settles id f
        × (rows (settle base s id o db).1 ≡ map (set_where (claimed_row id) f) (rows db))
        × (0 < count_if (claimed_row id) (rows db))
  settle-ok s id o db h =
      let (b, f, e, out) = settle-mutate base s id o in
      let (_, e1) = refuse_if-ok b invalid_reminder _ db (rw e at h) in
      let (after, found) = mutate-ok base law (claimed_row id) f db (rw (e, e1) at h) in
      (f, out, rw (e, e1) after, found)

  -- A call that settles a reminder and succeeds found it claimed, as a processing row of its id.
  pub settle-processing :
      (s : Store) (id : ℕ) (o : Outcome) (db : Db)
      → (settle base s id o db).0 ≡ ok tt
      → (r : Reminder) × Row (rows db) r × (r.id ≡ id) × (r.status ≡ processing)
  settle-processing s id o db h =
      let (f, _, _, found) = settle-ok s id o db h in
      let (r, at, match, _) = found_match (claimed_row id) f (rows db) found in
      (r, at, ground arith, ground arith)

  -- Once MarkSent, MarkRetry or MarkFailed has succeeded for a reminder, none of the three
  -- succeeds for it again before another claim.
  pub settle_once :
      (s s' : Store) (id : ℕ) (o o' : Outcome) (db : Db)
      → (settle base s id o db).0 ≡ ok tt
      → (settle base s' id o' (settle base s id o db).1).0 ≢ ok tt
  settle_once s s' id o o' db h k =
      let (f, out, after, _) = settle-ok s id o db h in
      let (_, _, _, found) = settle-ok s' id o' _ k in
      let found' : 0 < count_if (claimed_row id) (map (set_where (claimed_row id) f) (rows db)) =
        rw after at found in
      omega (arith, none_claimed id f out (rows db))
