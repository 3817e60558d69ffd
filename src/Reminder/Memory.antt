-- ===== src/Reminder/Memory.antt =====
-- A database of one table in memory, which does what `Lawful` asks of PostgreSQL: the assumptions
-- on the database can be met, and the store of reminder/store.go runs on it.
use wego.Prelude.{
  ◌*◌, ◌/◌, ap, ◌⊎◌, leb, ℕ, suc, ◌<◌, ◌≤◌, Bool, true, false, some, List, [], ◌∷◌, ◌++◌, map, ◌≡◌,
  refl, ◌≢◌, inl, inr, Text, text_beq, codes, Bool-cases, if◌then◌else◌, any, keep_if, count_if,
  take, All, All-implies, get_elem?, arith, text_beq_iff, not, ◌&&◌,
}
use wego.Action.{ok_injective, Result, ok, err}
use wego.Reminder.Model.{Time, Reminder, SqlError, no_rows, pg}
use wego.Reminder.History.{Evolves-refl}
use wego.Reminder.Database.{Database, Where, set_where, order_rows, Lawful}

abbrev pub Table : Type 0
Table = List Reminder

largest_id : Table → ℕ
largest_id [] = 0
largest_id (r ∷ rs) = let n = largest_id rs in if leb n r.id then r.id else n

ids-le-largest_id : (rs : Table) → All (λ s. s.id ≤ largest_id rs) rs
unfolding largest_id
ids-le-largest_id [] = tt
ids-le-largest_id (r ∷ rs) =
    (ground arith, All-implies _ _ rs (λ s h. ground arith) (ids-le-largest_id rs))

has_key : Text → Table → Bool
has_key k rs = any (λ r. text_beq r.key k) rs

has_key-false : (k : Text) (rs : Table) → has_key k rs ≡ false → All (λ s. s.key ≢ k) rs
unfolding has_key
has_key-false k [] h = tt
has_key-false k (r ∷ rs) h =
    (λ e. ground (arith, text_beq_iff r.key k), has_key-false k rs (ground arith))

-- PostgreSQL keeps microseconds.
abbrev to_micros : Time → Time
to_micros t = t / 1000 * 1000

abbrev in_micros : Reminder → Reminder
in_micros r = record r {
  schedule_at = to_micros r.schedule_at;
  created_at = to_micros r.created_at;
  updated_at = to_micros r.updated_at;
}

-- The row is added, with the next id, unless its key is taken.
insert_unless : Bool → Reminder → Table → Result SqlError ℕ × Table
insert_unless true r rs = (err (pg (codes "23505")), rs)
insert_unless false r rs =
    (ok (suc (largest_id rs)), rs ++ record (in_micros r) { id = suc (largest_id rs) } ∷ [])

unfoldable pub insert_row : Reminder → Table → Result SqlError ℕ × Table
unfolding has_key largest_id insert_unless
insert_row r rs = insert_unless (has_key r.key rs) r rs

unfoldable pub first_row : List Reminder → Result SqlError Reminder
first_row [] = err no_rows
first_row (r ∷ _) = ok r

abbrev pub memory : Database
memory = record {
  Db = Table;
  rows = λ db. db;
  stored = to_micros;
  insert = insert_row;
  update = λ w f db. (ok (ok (count_if w db)), map (set_where w f) db);
  select_one = λ w db. first_row (keep_if w db);
  select_page = λ w n db. ok (take n (order_rows (keep_if w db)));
  select_due = λ w n db. ok (take n (order_rows (keep_if (λ r. w r && not false) db)));
  locked = λ db n. false;
  begin = λ db. ok tt;
  commit = λ saved working. (ok tt, working);
  others = λ db. db;
}

-- The first row that is kept is a row that passes the test.
keep_if-first :
    (w : Where) (rs : Table) (r : Reminder)
    → first_row (keep_if w rs) ≡ ok r
    → (w r ≡ true) × (i : ℕ) × (get_elem? rs i ≡ some r)
unfolding keep_if first_row
keep_if-first w [] r h = cc
keep_if-first w (q ∷ rs) r h = elim (Bool-cases (w q)) [
  | inl e ↦ let same : q ≡ r = ok_injective (rw e at h) in (rw (← same) e, 0, ap some same)
  | inr e ↦ let (match, i, at) = keep_if-first w rs r (rw e at h) in (match, suc i, at)
]

first_row-no_rows : (rs : List Reminder) → first_row rs ≡ err no_rows → rs ≡ []
unfolding first_row
first_row-no_rows [] h = refl
first_row-no_rows (r ∷ rs) h = cc

insert_unless-ok :
    (b : Bool) (r : Reminder) (rs : Table) (n : ℕ)
    → has_key r.key rs ≡ b
    → (insert_unless b r rs).0 ≡ ok n
    → ((insert_unless b r rs).1 ≡ rs ++ record (in_micros r) { id = n } ∷ [])
      × (0 < n)
      × All (λ s. s.id ≢ n) rs
      × All (λ s. s.key ≢ r.key) rs
unfolding insert_unless
insert_unless-ok true r rs n e h = cc
insert_unless-ok false r rs n e h =
    let next : suc (largest_id rs) ≡ n = ok_injective h in
    (
      ap (λ (k : ℕ). rs ++ record (in_micros r) { id = k } ∷ []) next,
      omega arith,
      All-implies (λ s. s.id ≤ largest_id rs) _ rs (λ s le same. omega arith)
          (ids-le-largest_id rs),
      has_key-false r.key rs e,
    )

insert_unless-rows :
    (b : Bool) (r : Reminder) (rs : Table)
    → ((insert_unless b r rs).1 ≡ rs)
      ⊎ ((n : ℕ) × ((insert_unless b r rs).1 ≡ rs ++ record (in_micros r) { id = n } ∷ []))
unfolding insert_unless
insert_unless-rows true r rs = inl refl
insert_unless-rows false r rs = inr (suc (largest_id rs), refl)

pub memory-Lawful : Lawful memory
unfolding insert_row
memory-Lawful = record {
  insert_rows = λ r db. insert_unless-rows _ r db;
  insert_ok = λ r db n h. insert_unless-ok _ r db n refl h;
  update_rows = λ w f db. inr refl;
  update_ok = λ w f db res h. refl;
  update_count = λ w f db n h. cc;
  select_one_ok = keep_if-first;
  select_one_no_rows = λ w db h. first_row-no_rows _ h;
  select_page_ok = λ w n db items h. cc;
  select_due_ok = λ w n db items h. cc;
  commit_rows = λ saved working. inr refl;
  commit_ok = λ saved working h. refl;
  others_rows = Evolves-refl;
}
