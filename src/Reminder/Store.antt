-- ===== src/Reminder/Store.antt =====
-- reminder/store.go: the methods of `Store`, each an action on the database. `time.Now()` is the
-- argument `now`. The proofs are in the modules below.
pub mod Evolution
pub mod Calls
pub mod Statements
pub mod Claims
pub mod Settling
pub mod Keys
use wego.Prelude.{
  is_blank, ℕ, zero, suc, ◌+◌, Bool, true, false, Option, none, some, List, [], ◌∷◌, map, ◌&&◌,
  ◌||◌, not, Text, text_beq, trim_space, is_empty, leb, ltb, nat_beq, if◌then◌else◌, ℤ, pos,
  pos_part, is_pos, length, take, get_last_or, any, all,
}
use wego.Action.{Result, ok, err, Action, pure, raise, lift, refuse_if, map_err, ◌>>=◌, ◌>>◌}
use wego.Reminder.Model.{
  Time, is_zero, Status, pending, processing, sent, failed, canceled, other, status_beq, Reminder,
  CreateParams, ListParams, ListResult, SqlError, no_rows, Error, invalid_reminder, not_found,
  already_exists, state_conflict, sql, is_unique_violation,
}
use wego.Reminder.History.{is_open}
use wego.Reminder.Database.{Database, Where, SqlResult}

-- The receiver `s *Store`: `s == nil`, `s.db == nil`, or a store with its database.
pub data Store : Type 0 where
  no_store no_db connected : Store

abbrev pub is_nil : Store → Bool
is_nil connected = false
is_nil _ = true

unfoldable pub valid_status : Status → Bool
valid_status (other _) = false
valid_status _ = true

-- The cursor of a page, and its encoding: JSON in base 64, of the standard library.
pub record ListCursor : Type 0 where
  pub schedule_at : Time
  pub id : ℤ

pub record CursorCodec : Type 0 where
  pub encode : ListCursor → Text
  pub decode : Text → Option ListCursor

-- mutationResult
unfoldable pub mutation_result : Result SqlError SqlResult → Result Error (Unit {0})
mutation_result (err e) = err (sql e)
mutation_result (ok (err e)) = err (sql e)
mutation_result (ok (ok zero)) = err state_conflict
mutation_result (ok (ok (suc _))) = ok tt

-- The reminder that `Create` inserts; the database numbers it.
unfoldable pub new_reminder : Time → CreateParams → Reminder
new_reminder now p = record {
  id = 0;
  key = trim_space p.key;
  user_id = trim_space p.user_id;
  channel = trim_space p.channel;
  payload = p.payload;
  schedule_at = p.schedule_at;
  status = pending;
  retry_count = 0;
  max_retry = if is_pos p.max_retry then pos_part p.max_retry else 3;
  last_error = [];
  sent_at = none;
  canceled_at = none;
  created_at = now;
  updated_at = now;
}

unfoldable pub is_invalid : CreateParams → Bool
is_invalid p =
    is_blank p.key
    || is_blank p.user_id
    || is_blank p.channel
    || is_blank p.payload
    || is_zero p.schedule_at

-- The limit of a page: 50 by default, at most 200.
unfoldable pub page_limit : ℤ → ℕ
page_limit n =
    let limit = if is_pos n then pos_part n else 50 in if ltb 200 limit then 200 else limit

-- (schedule_at, id) > (cursor.ScheduleAt, cursor.ID)
unfoldable pub after_cursor : ListCursor → Where
after_cursor c r =
    ltb c.schedule_at r.schedule_at
    || nat_beq c.schedule_at r.schedule_at && ltb (pos_part c.id) r.id

unfoldable pub decode_cursor : CursorCodec → Text → Result Error ListCursor
decode_cursor codec raw = elim (codec.decode raw) [
  | none ↦ err invalid_reminder
  | some c ↦ if is_zero c.schedule_at || not (is_pos c.id) then err invalid_reminder else ok c
]

-- The WHERE conditions of `List` but the cursor's.
unfoldable pub list_filter : ListParams → Where
list_filter p r =
    (is_blank p.user_id || text_beq r.user_id (trim_space p.user_id))
    && (is_blank p.channel || text_beq r.channel (trim_space p.channel))
    && (is_empty p.statuses || any (λ s. status_beq r.status s) p.statuses)
    && (is_zero p.schedule_from || leb p.schedule_from r.schedule_at)
    && (is_zero p.schedule_to || leb r.schedule_at p.schedule_to)

-- The cursor's condition.
unfoldable pub cursor_filter : CursorCodec → Text → Result Error Where
unfolding decode_cursor after_cursor
cursor_filter codec [] = ok (λ r. true)
cursor_filter codec (c ∷ raw) = elim (decode_cursor codec (c ∷ raw)) [
  | ok cur ↦ ok (after_cursor cur)
  | err e ↦ err e
]

-- The conditions of `List`, which refuses an unknown status and a bad cursor.
unfoldable pub list_where : CursorCodec → ListParams → Result Error Where
unfolding list_filter cursor_filter valid_status
list_where codec p =
    if all valid_status p.statuses
    then elim (cursor_filter codec p.cursor) [
      | ok w ↦ ok (λ r. list_filter p r && w r)
      | err e ↦ err e
    ]
    else err invalid_reminder

-- The page: one row more than the limit shows that there is a next one.
next_page : CursorCodec → List Reminder → Reminder → ListResult
next_page codec page last = record {
  items = page;
  next_cursor = codec.encode (record { schedule_at = last.schedule_at; id = pos last.id });
}

unfoldable pub page_of : CursorCodec → ℕ → List Reminder → ListResult
unfolding next_page
page_of codec limit [] = record { items = []; next_cursor = [] }
page_of codec limit (r ∷ rs) =
    let page = take limit (r ∷ rs) in
    if ltb limit (length (r ∷ rs))
    then next_page codec page (get_last_or r page)
    else record { items = r ∷ rs; next_cursor = [] }

-- What a claim does to a row, and to the item that it returns.
unfoldable pub as_claimed : Time → Reminder → Reminder
as_claimed now r = record r { status = processing; updated_at = now }

module _ (base : Database) where
  open base use {Db, insert, update, select_one, select_page, select_due, begin, commit, others}

  abbrev read : {A : Type 0} → (Db → Result SqlError A) → Action Db Error A
  read q db = (map_err sql (q db), db)

  insert_error : Result SqlError ℕ → Reminder → Result Error Reminder
  insert_error (ok n) r = ok (record r { id = n })
  insert_error (err e) r = if is_unique_violation e then err already_exists else err (sql e)

  unfoldable pub create : Store → Time → CreateParams → Action Db Error Reminder
  unfolding insert_error is_invalid new_reminder
  create s now p =
      refuse_if (is_nil s || is_invalid p) invalid_reminder λ db.
        let r = new_reminder now p in let done = insert r db in (insert_error done.0 r, done.1)

  row_error : Result SqlError Reminder → Result Error Reminder
  row_error (ok r) = ok r
  row_error (err no_rows) = err not_found
  row_error (err e) = err (sql e)

  unfoldable pub get_by_key : Store → Text → Action Db Error Reminder
  unfolding row_error
  get_by_key s key =
      refuse_if (is_nil s || is_blank key) invalid_reminder
        λ db. (row_error (select_one (λ r. text_beq r.key (trim_space key)) db), db)

  unfoldable pub list : CursorCodec → Store → ListParams → Action Db Error ListResult
  unfolding list_where page_limit page_of
  list codec s p = refuse_if (is_nil s) invalid_reminder (do
    w ← lift (list_where codec p)
    items ← read (select_page w (page_limit p.limit + 1))
    pure (page_of codec (page_limit p.limit) items))

  -- An UPDATE statement and `mutationResult`.
  unfoldable pub mutate : Where → (Reminder → Reminder) → Action Db Error (Unit {0})
  unfolding mutation_result
  mutate w f db = let done = update w f db in (mutation_result done.0, done.1)

  -- Between two statements other processes may run.
  abbrev yield : Action Db Error (Unit {0})
  yield db = (ok tt, others db)

  -- The rest of `CancelByKey`, once the reminder is read.
  unfoldable pub cancel_item : Time → Text → Reminder → Action Db Error (Unit {0})
  unfolding mutate
  cancel_item now key item =
      if status_beq item.status canceled
      then pure tt
      else refuse_if (not (is_open item.status)) state_conflict (do
        yield
        mutate (λ r. text_beq r.key key && is_open r.status)
            λ r. record r { status = canceled; canceled_at = some now; updated_at = now })

  unfoldable pub cancel_by_key : Store → Time → Text → Action Db Error (Unit {0})
  unfolding get_by_key cancel_item
  cancel_by_key s now raw =
      let key = trim_space raw in
      refuse_if (is_nil s || is_empty key) invalid_reminder
        (do item ← get_by_key s key; cancel_item now key item)

  unfoldable pub reschedule_by_key : Store → Time → Text → Time → Action Db Error (Unit {0})
  unfolding get_by_key mutate
  reschedule_by_key s now raw schedule_at =
      let key = trim_space raw in
      refuse_if (is_nil s || is_empty key || is_zero schedule_at) invalid_reminder (do
        item ← get_by_key s key
        refuse_if (not (is_open item.status)) state_conflict (do
          yield
          mutate (λ r. text_beq r.key key && is_open r.status)
              λ r. record r {
                schedule_at = schedule_at;
                status = pending;
                retry_count = 0;
                last_error = [];
                sent_at = none;
                canceled_at = none;
                updated_at = now;
              }))

  -- The end of `ClaimDue`: the items are returned if the transaction that began at `saved` is
  -- committed. What fails before the commit is rolled back.
  finish_claim : List Reminder → Db → Result SqlError (Unit {0}) → Action Db Error (List Reminder)
  finish_claim items saved (err e) db = (err (sql e), saved)
  finish_claim items saved (ok _) db =
      let done = commit saved db in (elim done.0 [ ok _ ↦ ok items | err e ↦ err (sql e) ], done.1)

  -- The transaction, once the rows are selected.
  claim_rows : Time → List Reminder → Action Db Error (List Reminder)
  unfolding finish_claim as_claimed
  claim_rows now [] db = finish_claim [] db (ok tt) db
  claim_rows now (r ∷ rs) db =
      let items = r ∷ rs in
      let done =
        update (λ s. any (λ c. nat_beq c.id s.id) items && status_beq s.status pending)
          (as_claimed now) db in
      finish_claim (map (as_claimed now) items) db (elim done.0 [ ok _ ↦ ok tt | err e ↦ err e ])
        done.1

  unfoldable pub claim_due : Store → Time → ℤ → Action Db Error (List Reminder)
  unfolding claim_rows
  claim_due s now limit = refuse_if (is_nil s || not (is_pos limit)) invalid_reminder (do
    read begin
    items ←
        read
          (select_due (λ r. status_beq r.status pending && leb r.schedule_at now) (pos_part limit))
    claim_rows now items)

  rows_affected : Result SqlError SqlResult → Result Error ℕ
  rows_affected (err e) = err (sql e)
  rows_affected (ok (err e)) = err (sql e)
  rows_affected (ok (ok n)) = ok n

  unfoldable pub requeue_stale_processing : Store → Time → Time → Action Db Error ℕ
  unfolding rows_affected
  requeue_stale_processing s now stale_before =
      refuse_if (is_nil s || is_zero stale_before) invalid_reminder λ db.
        let done =
          update (λ r. status_beq r.status processing && leb r.updated_at stale_before)
            (λ r. record r { status = pending; updated_at = now }) db in
        (rows_affected done.0, done.1)

  unfoldable pub mark_sent : Store → ℕ → Time → Action Db Error (Unit {0})
  unfolding mutate
  mark_sent s id at = refuse_if (is_nil s || nat_beq id 0 || is_zero at) invalid_reminder (
      mutate (λ r. nat_beq r.id id && status_beq r.status processing)
        λ r. record r { status = sent; sent_at = some at; updated_at = at })

  -- The item is a pointer that may be nil.
  unfoldable pub mark_retry :
      Store → Time → Option Reminder → Time → Text → Action Db Error (Unit {0})
  unfolding mutate
  mark_retry s now none at last_error = raise invalid_reminder
  mark_retry s now (some item) at last_error =
      refuse_if (is_nil s || nat_beq item.id 0 || is_zero at) invalid_reminder (
        mutate (λ r. nat_beq r.id item.id && status_beq r.status processing)
          λ r. record r {
            status = pending;
            retry_count = item.retry_count + 1;
            schedule_at = at;
            last_error = last_error;
            updated_at = now;
          })

  unfoldable pub mark_failed : Store → Time → Option Reminder → Text → Action Db Error (Unit {0})
  unfolding mutate
  mark_failed s now none last_error = raise invalid_reminder
  mark_failed s now (some item) last_error =
      refuse_if (is_nil s || nat_beq item.id 0) invalid_reminder (
        mutate (λ r. nat_beq r.id item.id && status_beq r.status processing)
          λ r. record r {
            status = failed;
            retry_count = item.retry_count + 1;
            last_error = last_error;
            updated_at = now;
          })
