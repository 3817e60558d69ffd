-- ===== src/Reminder/Database.antt =====
-- PostgreSQL and the bun query builder, which reminder/store.go and reminder/migrate.go call: the
-- statements that the store uses, and what they document. The rest of reminder/ takes a `Database`.
use wego.Prelude.{
  ℕ, Bool, true, some, List, [], ◌∷◌, ◌++◌, ◌≡◌, ◌⊎◌, map, ◌<◌, ◌&&◌, ◌||◌, not, ltb, nat_beq,
  if◌then◌else◌, keep_if, count_if, take, All, ◌≢◌, get_elem?,
}
use wego.Action.{Result, ok, err}
use wego.Reminder.Model.{Time, Reminder, SqlError, no_rows}
use wego.Reminder.History.{Evolves}

abbrev pub Where : Type 0
Where = Reminder → Bool

-- SET … WHERE …, row by row.
abbrev pub set_where : Where → (Reminder → Reminder) → Reminder → Reminder
set_where w f r = if w r then f r else r

-- (schedule_at, id) as a tuple, in SQL's order of tuples.
abbrev pub key_before : Reminder → Reminder → Bool
key_before a b =
    ltb a.schedule_at b.schedule_at || nat_beq a.schedule_at b.schedule_at && ltb a.id b.id

unfoldable pub insert_sorted : Reminder → List Reminder → List Reminder
insert_sorted r [] = r ∷ []
insert_sorted r (s ∷ rs) =
    let rest = insert_sorted r rs in if key_before r s then r ∷ s ∷ rs else s ∷ rest

-- ORDER BY schedule_at ASC, id ASC
unfoldable pub order_rows : List Reminder → List Reminder
unfolding insert_sorted
order_rows [] = []
order_rows (r ∷ rs) = insert_sorted r (order_rows rs)

-- sql.Result; it may fail to tell the number of rows.
abbrev pub SqlResult : Type 0
SqlResult = Result SqlError ℕ

pub record Database : Type 1 where
  pub Db : Type 0
  -- The table, by the order of insertion.
  pub rows : Db → List Reminder
  -- An instant as a column of the type TIMESTAMPTZ keeps it.
  pub stored : Time → Time
  pub insert : Reminder → Db → Result SqlError ℕ × Db
  pub update : Where → (Reminder → Reminder) → Db → Result SqlError SqlResult × Db
  pub select_one : Where → Db → Result SqlError Reminder
  pub select_page : Where → ℕ → Db → Result SqlError (List Reminder)
  -- SELECT … FOR UPDATE SKIP LOCKED, and the rows that it skips.
  pub select_due : Where → ℕ → Db → Result SqlError (List Reminder)
  pub locked : Db → ℕ → Bool
  pub begin : Db → Result SqlError (Unit {0})
  -- COMMIT of a transaction that began at the first table and has come to the second.
  pub commit : Db → Db → Result SqlError (Unit {0}) × Db
  -- What other processes do between two statements.
  pub others : Db → Db

module _ (base : Database) where
  open base use {Db, rows, stored, insert, update, select_one, select_page, select_due}
  open base use {locked, commit, others}

  -- The row that an INSERT makes of a reminder that has no instants but these three.
  abbrev pub stored_row : Reminder → Reminder
  stored_row r = record r {
    schedule_at = stored r.schedule_at;
    created_at = stored r.created_at;
    updated_at = stored r.updated_at;
  }

  -- What the server documents. A statement that fails has been applied, or has not.
  pub record Lawful : Type 0 where
    pub insert_rows :
        (r : Reminder) (db : Db)
        → (rows (insert r db).1 ≡ rows db)
          ⊎ ((n : ℕ) × (rows (insert r db).1 ≡ rows db ++ record (stored_row r) { id = n } ∷ []))
    pub insert_ok :
        (r : Reminder) (db : Db) (n : ℕ)
        → (insert r db).0 ≡ ok n
        → (rows (insert r db).1 ≡ rows db ++ record (stored_row r) { id = n } ∷ [])
          × (0 < n)
          × All (λ s. s.id ≢ n) (rows db)
          × All (λ s. s.key ≢ r.key) (rows db)
    pub update_rows :
        (w : Where) (f : Reminder → Reminder) (db : Db)
        → (rows (update w f db).1 ≡ rows db)
          ⊎ (rows (update w f db).1 ≡ map (set_where w f) (rows db))
    pub update_ok :
        (w : Where) (f : Reminder → Reminder) (db : Db) (res : SqlResult)
        → (update w f db).0 ≡ ok res
        → rows (update w f db).1 ≡ map (set_where w f) (rows db)
    pub update_count :
        (w : Where) (f : Reminder → Reminder) (db : Db) (n : ℕ)
        → (update w f db).0 ≡ ok (ok n)
        → n ≡ count_if w (rows db)
    pub select_one_ok :
        (w : Where) (db : Db) (r : Reminder)
        → select_one w db ≡ ok r
        → (w r ≡ true) × (i : ℕ) × (get_elem? (rows db) i ≡ some r)
    pub select_one_no_rows :
        (w : Where) (db : Db) → select_one w db ≡ err no_rows → keep_if w (rows db) ≡ []
    pub select_page_ok :
        (w : Where) (n : ℕ) (db : Db) (items : List Reminder)
        → select_page w n db ≡ ok items
        → items ≡ take n (order_rows (keep_if w (rows db)))
    pub select_due_ok :
        (w : Where) (n : ℕ) (db : Db) (items : List Reminder)
        → select_due w n db ≡ ok items
        → items ≡ take n (order_rows (keep_if (λ r. w r && not (locked db r.id)) (rows db)))
    pub commit_rows :
        (saved working : Db)
        → (rows (commit saved working).1 ≡ rows saved)
          ⊎ (rows (commit saved working).1 ≡ rows working)
    pub commit_ok :
        (saved working : Db)
        → (commit saved working).0 ≡ ok tt
        → rows (commit saved working).1 ≡ rows working
    -- Other processes run this store too.
    pub others_rows : (db : Db) → Evolves (rows db) (rows (others db))
