-- ===== src/Reminder/Store/Statements.antt =====
-- What one UPDATE or SELECT of reminder/store.go tells about the table: rows by index, counts of
-- matching rows, and the selected rows.
use wego.Prelude.{
  ℕ, zero, suc, ◌<◌, Bool, true, false, some, List, [], ◌∷◌, map, ◌≡◌, refl, ◌⊎◌, inl, inr,
  if◌then◌else◌, Bool-cases, get_elem?, keep_if, count_if, take, All, arith,
}
use wego.Action.{Result, ok, err}
use wego.Reminder.Model.{Reminder, SqlError}
use wego.Reminder.Database.{
  Database, Where, set_where, insert_sorted, key_before, order_rows, Lawful, SqlResult,
}
use wego.Reminder.Store.{mutate, mutation_result}

-- A row of the table.
abbrev pub Row : List Reminder → Reminder → Type 0
Row rs r = (i : ℕ) × (get_elem? rs i ≡ some r)

-- A row that the statement changed, and what it was.
pub found_match :
    (w : Where) (f : Reminder → Reminder) (rs : List Reminder)
    → 0 < count_if w rs
    → (r : Reminder) × Row rs r × (w r ≡ true) × Row (map (set_where w f) rs) (f r)
unfolding count_if
found_match w f [] h = absurd (omega arith)
found_match w f (r ∷ rs) h = elim (Bool-cases (w r)) [
  | inl e ↦ (r, (0, refl), e, (0, rw e))
  | inr e ↦
      let (q, (i, at), match, (j, at')) = found_match w f rs (rw e at h) in
      (q, (suc i, at), match, (suc j, at'))
]

-- The rows after the statement: one that it did not match, or the change of one that it did.
pub row_after :
    (w : Where) (f : Reminder → Reminder) (rs : List Reminder) (i : ℕ) (q : Reminder)
    → get_elem? (map (set_where w f) rs) i ≡ some q
    → (r : Reminder) × (get_elem? rs i ≡ some r)
      × ((w r ≡ true) × (q ≡ f r) ⊎ (w r ≡ false) × (q ≡ r))
row_after w f [] i q h = cc
row_after w f (r ∷ rs) zero q h = (r, refl, ground arith)
row_after w f (r ∷ rs) (suc i) q h = row_after w f rs i q h

-- A statement that matches no row changes none.
pub map-set_where_none :
    (w : Where) (f : Reminder → Reminder) (rs : List Reminder)
    → count_if w rs ≡ 0
    → map (set_where w f) rs ≡ rs
unfolding count_if
map-set_where_none w f [] h = refl
map-set_where_none w f (r ∷ rs) h = ground (arith, map-set_where_none w f rs)

-- No row is counted if a matching row is impossible.
pub count_if-zero :
    (w : Where) (rs : List Reminder)
    → ((i : ℕ) (r : Reminder) → get_elem? rs i ≡ some r → w r ≡ false)
    → count_if w rs ≡ 0
unfolding count_if
count_if-zero w [] h = refl
count_if-zero w (r ∷ rs) h = ground (arith, h 0 r refl, count_if-zero w rs (λ i q e. h (suc i) q e))

module _ (P : Reminder → Type 0) where
  All-take : (n : ℕ) (rs : List Reminder) → All P rs → All P (take n rs)
  All-take zero rs h = tt
  All-take (suc n) [] h = tt
  All-take (suc n) (r ∷ rs) (p, h) = (p, All-take n rs h)

  All-insert_sorted :
      (r : Reminder) (rs : List Reminder) → P r → All P rs → All P (insert_sorted r rs)
  unfolding insert_sorted
  All-insert_sorted r [] p h = (p, tt)
  All-insert_sorted r (s ∷ rs) p (q, h) =
      All-if (key_before r s) (r ∷ s ∷ rs) (s ∷ insert_sorted r rs) (p, (q, h))
        (q, All-insert_sorted r rs p h)
    where
      All-if :
          (b : Bool) (xs ys : List Reminder) → All P xs → All P ys → All P (if b then xs else ys)
      All-if true xs ys hx hy = hx
      All-if false xs ys hx hy = hy

  All-order_rows : (rs : List Reminder) → All P rs → All P (order_rows rs)
  unfolding order_rows
  All-order_rows [] h = tt
  All-order_rows (r ∷ rs) (p, h) = All-insert_sorted r (order_rows rs) p (All-order_rows rs h)

  All-keep_if :
      (w : Where) (rs : List Reminder)
      → ((i : ℕ) (r : Reminder) → get_elem? rs i ≡ some r → w r ≡ true → P r)
      → All P (keep_if w rs)
  unfolding keep_if
  All-keep_if w [] h = tt
  All-keep_if w (r ∷ rs) h = All-head (w r) refl _ (All-keep_if w rs (λ i q e. h (suc i) q e))
    where
      All-head :
          (b : Bool) → w r ≡ b → (xs : List Reminder) → All P xs → All P (if b then r ∷ xs else xs)
      All-head true e xs hx = (h 0 r refl e, hx)
      All-head false e xs hx = hx

  -- What holds of every matching row holds of the rows that a SELECT returns.
  pub All-selected :
      (w : Where) (n : ℕ) (rs : List Reminder)
      → ((i : ℕ) (r : Reminder) → get_elem? rs i ≡ some r → w r ≡ true → P r)
      → All P (take n (order_rows (keep_if w rs)))
  All-selected w n rs h = All-take n _ (All-order_rows _ (All-keep_if w rs h))

mutation_result-ok :
    (r : Result SqlError SqlResult) → mutation_result r ≡ ok tt → (n : ℕ) × (r ≡ ok (ok (suc n)))
unfolding mutation_result
mutation_result-ok (err e) h = cc
mutation_result-ok (ok (err e)) h = cc
mutation_result-ok (ok (ok zero)) h = cc
mutation_result-ok (ok (ok (suc n))) h = (n, refl)

module _ (base : Database) (law : Lawful base) where
  open base use {Db, rows, update}

  -- A mutation that succeeds has changed a row.
  pub mutate-ok :
      (w : Where) (f : Reminder → Reminder) (db : Db)
      → (mutate base w f db).0 ≡ ok tt
      → (rows (mutate base w f db).1 ≡ map (set_where w f) (rows db)) × (0 < count_if w (rows db))
  unfolding mutate
  mutate-ok w f db h =
      let (n, e) = mutation_result-ok _ h in
      (law.update_ok w f db _ e, omega (arith, law.update_count w f db (suc n) e))

  -- So there was a matching row, and its change is in the table.
  pub mutate-changed :
      (w : Where) (f : Reminder → Reminder) (db : Db)
      → (mutate base w f db).0 ≡ ok tt
      → (r : Reminder) × Row (rows db) r × (w r ≡ true) × Row (rows (mutate base w f db).1) (f r)
  mutate-changed w f db h =
      let (after, found) = mutate-ok w f db h in
      let (r, row, match, (i, at)) = found_match w f (rows db) found in
      (r, row, match, (i, rw after at))
