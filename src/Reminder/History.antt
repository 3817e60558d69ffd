-- ===== src/Reminder/History.antt =====
-- What may happen to a row of `reminders` (reminder/store.go, the UPDATE statements), and how a
-- table grows: the specification that the statements are held to.
use wego.Prelude.{
  ℕ, zero, suc, Bool, true, false, none, some, List, [], ◌∷◌, ◌++◌, ◌≡◌, refl, Text, get_elem?,
  ◌||◌, arith,
}
use wego.Reminder.Model.{
  Time, Status, pending, processing, sent, failed, canceled, status_beq, Reminder,
}

-- StatusPending or StatusFailed, from which a reminder may be canceled or scheduled anew.
abbrev pub is_open : Status → Bool
is_open s = status_beq s pending || status_beq s failed

-- One UPDATE of a row.
pub data Step (r : Reminder) : Reminder → Type 0 where
  claim :
      (now : Time)
      → r.status ≡ pending
      → Step r (record r { status = processing; updated_at = now })
  requeue :
      (now : Time)
      → r.status ≡ processing
      → Step r (record r { status = pending; updated_at = now })
  deliver :
      (at : Time)
      → r.status ≡ processing
      → Step r (record r { status = sent; sent_at = some at; updated_at = at })
  retry :
      (count : ℕ) (at now : Time) (message : Text)
      → r.status ≡ processing
      → Step r (record r {
        status = pending;
        retry_count = count;
        schedule_at = at;
        last_error = message;
        updated_at = now;
      })
  fail :
      (count : ℕ) (now : Time) (message : Text)
      → r.status ≡ processing
      → Step r (record r {
        status = failed;
        retry_count = count;
        last_error = message;
        updated_at = now;
      })
  cancel :
      (now : Time)
      → is_open r.status ≡ true
      → Step r (record r { status = canceled; canceled_at = some now; updated_at = now })
  reschedule :
      (at now : Time)
      → is_open r.status ≡ true
      → Step r (record r {
        schedule_at = at;
        status = pending;
        retry_count = 0;
        last_error = [];
        sent_at = none;
        canceled_at = none;
        updated_at = now;
      })

-- Any number of updates of a row.
pub data Moves (r : Reminder) : Reminder → Type 0 where
  here : Moves r r
  next : {s t : Reminder} → Moves r s → Step s t → Moves r t

pub Moves-trans : {r s t : Reminder} → Moves r s → Moves s t → Moves r t
Moves-trans m here = m
Moves-trans m (next n st) = next (Moves-trans m n) st

-- What a row says of its reminder: no update changes it.
pub record SameReminder (r s : Reminder) : Type 0 where
  pub id : s.id ≡ r.id
  pub key : s.key ≡ r.key
  pub user_id : s.user_id ≡ r.user_id
  pub channel : s.channel ≡ r.channel
  pub payload : s.payload ≡ r.payload
  pub max_retry : s.max_retry ≡ r.max_retry
  pub created_at : s.created_at ≡ r.created_at

SameReminder-refl : (r : Reminder) → SameReminder r r
SameReminder-refl r = ground arith

Step-SameReminder : {r s t : Reminder} → SameReminder r s → Step s t → SameReminder r t
Step-SameReminder h (claim now p) = ground arith
Step-SameReminder h (requeue now p) = ground arith
Step-SameReminder h (deliver at p) = ground arith
Step-SameReminder h (retry count at now message p) = ground arith
Step-SameReminder h (fail count now message p) = ground arith
Step-SameReminder h (cancel now p) = ground arith
Step-SameReminder h (reschedule at now p) = ground arith

pub Moves-SameReminder : {r s : Reminder} → Moves r s → SameReminder r s
Moves-SameReminder {r} here = SameReminder-refl r
Moves-SameReminder (next m st) = Step-SameReminder (Moves-SameReminder m) st

abbrev pub is_settled : Status → Bool
is_settled sent = true
is_settled canceled = true
is_settled _ = false

Step-unsettled : {r s : Reminder} → Step r s → is_settled r.status ≡ false
Step-unsettled (claim now p) = ground arith
Step-unsettled (requeue now p) = ground arith
Step-unsettled (deliver at p) = ground arith
Step-unsettled (retry count at now message p) = ground arith
Step-unsettled (fail count now message p) = ground arith
Step-unsettled (cancel now p) = ground arith
Step-unsettled (reschedule at now p) = ground arith

-- A reminder that was sent or canceled stays as it is.
pub Moves-settled : {r s : Reminder} → Moves r s → is_settled r.status ≡ true → s ≡ r
Moves-settled here h = refl
Moves-settled (next {s = u} m st) h = let e : u ≡ _ = Moves-settled m h in cc (e, Step-unsettled st)

-- A table after another: each row has moved, and rows have been added behind them.
pub data Evolves : List Reminder → List Reminder → Type 0 where
  grown : (new : List Reminder) → Evolves [] new
  moved :
      {r s : Reminder} {rs ss : List Reminder}
      → Moves r s
      → Evolves rs ss
      → Evolves (r ∷ rs) (s ∷ ss)

pub Evolves-refl : (rs : List Reminder) → Evolves rs rs
Evolves-refl [] = grown []
Evolves-refl (r ∷ rs) = moved here (Evolves-refl rs)

pub Evolves-append : (rs new : List Reminder) → Evolves rs (rs ++ new)
Evolves-append [] new = grown new
Evolves-append (r ∷ rs) new = moved here (Evolves-append rs new)

pub Evolves-trans : {rs ss ts : List Reminder} → Evolves rs ss → Evolves ss ts → Evolves rs ts
Evolves-trans (grown new) e = grown _
Evolves-trans (moved m d) (moved n e) = moved (Moves-trans m n) (Evolves-trans d e)

-- The row at an index is there later, and has moved.
pub Evolves-get_elem? :
    {rs ss : List Reminder} (i : ℕ) (r : Reminder)
    → Evolves rs ss
    → get_elem? rs i ≡ some r
    → (s : Reminder) × (get_elem? ss i ≡ some s) × Moves r s
Evolves-get_elem? i r (grown new) h = cc
Evolves-get_elem? zero r (moved {r = q} {s = s} m e) h = let p : q ≡ r = cc in (s, refl, rw (← p) m)
Evolves-get_elem? (suc i) r (moved m e) h = Evolves-get_elem? i r e h
