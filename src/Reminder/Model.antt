-- ===== src/Reminder/Model.antt =====
-- reminder/model.go and the errors of reminder/store.go: the rows of the table `reminders`.
-- An instant is the number of nanoseconds since Go's zero time, so `IsZero` is `0`.
use wego.Prelude.{ℕ, Bool, true, false, Option, List, Text, text_beq, codes, nat_beq, ℤ}

abbrev pub Time : Type 0
Time = ℕ

-- time.Time.IsZero
abbrev pub is_zero : Time → Bool
is_zero t = nat_beq t 0

-- A status is a string in the program: the five constants, or another string.
pub data Status : Type 0 where
  pending processing sent failed canceled : Status
  other : Text → Status

abbrev pub status_beq : Status → Status → Bool
status_beq pending pending = true
status_beq processing processing = true
status_beq sent sent = true
status_beq failed failed = true
status_beq canceled canceled = true
status_beq (other a) (other b) = text_beq a b
status_beq _ _ = false

pub record Reminder : Type 0 where
  pub id : ℕ
  pub key : Text
  pub user_id : Text
  pub channel : Text
  pub payload : Text
  pub schedule_at : Time
  pub status : Status
  pub retry_count : ℕ
  pub max_retry : ℕ
  pub last_error : Text
  pub sent_at : Option Time
  pub canceled_at : Option Time
  pub created_at : Time
  pub updated_at : Time

pub record CreateParams : Type 0 where
  pub key : Text
  pub user_id : Text
  pub channel : Text
  pub payload : Text
  pub schedule_at : Time
  pub max_retry : ℤ

pub record ListParams : Type 0 where
  pub user_id : Text
  pub channel : Text
  pub statuses : List Status
  pub schedule_from : Time
  pub schedule_to : Time
  pub limit : ℤ
  pub cursor : Text

pub record ListResult : Type 0 where
  pub items : List Reminder
  pub next_cursor : Text

-- An error of the database driver: no row, a canceled context, a PostgreSQL error with its
-- SQLSTATE, or any other.
pub data SqlError : Type 0 where
  no_rows context_canceled : SqlError
  pg : Text → SqlError
  driver : ℕ → SqlError

pub data Error : Type 0 where
  invalid_reminder not_found already_exists state_conflict : Error
  sql : SqlError → Error

-- isUniqueViolation
abbrev pub is_unique_violation : SqlError → Bool
is_unique_violation (pg code) = text_beq code (codes "23505")
is_unique_violation _ = false

-- errors.Is(err, context.Canceled)
abbrev pub is_canceled : Error → Bool
is_canceled (sql context_canceled) = true
is_canceled _ = false
