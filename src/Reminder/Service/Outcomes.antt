-- ===== src/Reminder/Service/Outcomes.antt =====
-- What the outcomes of `dispatch` in reminder/service.go mean for the row of the reminder.
use wego.Prelude.{
  ltb, ◌+◌, Bool, true, false, Option, none, some, ◌≡◌, refl, Text, pos, if◌then◌else◌, arith,
  nat_beq, ◌&&◌, ◌∙◌,
}
use wego.Action.{ok, refuse_if-ok}
use wego.Reminder.Model.{Time, Status, processing, pending, status_beq, Reminder}
use wego.Reminder.Database.{Database, Lawful}
use wego.Reminder.Store.{Store, mutate, mark_sent, mark_failed, mark_retry}
use wego.Reminder.Store.Statements.{mutate-changed, Row}
use wego.Reminder.Options.{Options}
use wego.Reminder.Service.{
  Environment, Outcome, sent, error, failed, retry, is_last_attempt, retry_delay, add_duration,
}

-- What becomes of a reminder whose notification is answered so.
unfoldable pub expected : Reminder → Option Text → Outcome
expected item none = sent
expected item (some message) = if ltb (item.retry_count + 1) item.max_retry then retry else failed

pub expected-is_last_attempt :
    (item : Reminder) (message : Text)
    → expected item (some message) ≡ (if is_last_attempt item then failed else retry)
unfolding expected is_last_attempt
expected-is_last_attempt item message = ground arith

abbrev status_of : Outcome → Status
status_of sent = Status.sent
status_of error = processing
status_of failed = Status.failed
status_of retry = pending

-- Whether the attempt is counted as a failed one.
abbrev counts : Outcome → Bool
counts failed = true
counts retry = true
counts _ = false

abbrev is_retry : Outcome → Bool
is_retry retry = true
is_retry _ = false

-- The row before and after a dispatch of `item` that came out so, `at` the time of the answer: a
-- claimed row of the item's id, its new status, and the retry count and schedule it is left with.
pub record SettledAs (o : Options) (item : Reminder) (out : Outcome) (at : Time)
    (before after : Reminder) : Type 0 where
  pub same_id : after.id ≡ item.id
  pub found_id : before.id ≡ item.id
  pub was_claimed : before.status ≡ processing
  pub status_after : after.status ≡ status_of out
  pub count_after :
      after.retry_count ≡ (if counts out then item.retry_count + 1 else before.retry_count)
  pub schedule_after : after.schedule_at ≡ (
      if is_retry out
      then add_duration at (retry_delay o.retry_delays (pos (item.retry_count + 1)))
      else before.schedule_at)

claimed_item :
    (r item : Reminder)
    → (nat_beq r.id item.id && status_beq r.status processing) ≡ true
    → (r.id ≡ item.id) × (r.status ≡ processing)
claimed_item r item h = ground arith

module _ (base : Database) (law : Lawful base) (env : Environment) (o : Options) (s : Store) where
  open base use {Db, rows, others}

  -- A row of the table before, and what it is in the table after.
  pub record Changed (item : Reminder) (out : Outcome) (at : Time) (db db' : Db) : Type 0 where
    pub before : Reminder
    pub in_before : Row (rows db) before
    pub after : Reminder
    pub in_after : Row (rows db') after
    pub settled : SettledAs o item out at before after

  -- An update of the claimed rows of the item's id.
  mutate-Changed :
      (item : Reminder) (out : Outcome) (at : Time) (f : Reminder → Reminder)
      → ((r : Reminder) → r.id ≡ item.id → r.status ≡ processing → SettledAs o item out at r (f r))
      → (db : Db)
      → let m = mutate base (λ r. nat_beq r.id item.id && status_beq r.status processing) f in
        (m db).0 ≡ ok tt → Changed item out at db (m db).1
  mutate-Changed item out at f settles db h =
      let (r, row, match, row') = mutate-changed base law _ f db h in
      let (same, claimed) = claimed_item r item match in
      record {
        before = r;
        in_before = row;
        after = f r;
        in_after = row';
        settled = settles r same claimed;
      }

  -- The fields that an outcome leaves, all but the id by computation.
  settled_fields :
      (item : Reminder) (out : Outcome) (at : Time) (r r' : Reminder)
      → r.id ≡ item.id
      → r.status ≡ processing
      → r'.id ≡ r.id
      → r'.status ≡ status_of out
      → r'.retry_count ≡ (if counts out then item.retry_count + 1 else r.retry_count)
      → r'.schedule_at ≡ (
          if is_retry out
          then add_duration at (retry_delay o.retry_delays (pos (item.retry_count + 1)))
          else r.schedule_at)
      → SettledAs o item out at r r'
  settled_fields item out at r r' same claimed kept st count sched = record {
    same_id = kept ∙ same;
    found_id = same;
    was_claimed = claimed;
    status_after = st;
    count_after = count;
    schedule_after = sched;
  }

  pub mark_sent-Changed :
      (item : Reminder) (at : Time) (db : Db)
      → (mark_sent base s item.id at db).0 ≡ ok tt
      → Changed item sent at db (mark_sent base s item.id at db).1
  unfolding mark_sent
  mark_sent-Changed item at db h =
      let (_, e) = refuse_if-ok _ _ _ db h in
      rw e (
        mutate-Changed item sent at _
          (λ r same st. settled_fields item sent at r _ same st refl refl refl refl) db (rw e at h))

  pub mark_failed-Changed :
      (item : Reminder) (at now : Time) (m : Text) (db : Db)
      → (mark_failed base s now (some item) m db).0 ≡ ok tt
      → Changed item failed at db (mark_failed base s now (some item) m db).1
  unfolding mark_failed
  mark_failed-Changed item at now m db h =
      let (_, e) = refuse_if-ok _ _ _ db h in
      rw e (
        mutate-Changed item failed at _
          (λ r same st. settled_fields item failed at r _ same st refl refl refl refl) db
          (rw e at h))

  pub mark_retry-Changed :
      (item : Reminder) (at now : Time) (m : Text) (db : Db)
      → let next = add_duration at (retry_delay o.retry_delays (pos (item.retry_count + 1))) in
        (mark_retry base s now (some item) next m db).0 ≡ ok tt
        → Changed item retry at db (mark_retry base s now (some item) next m db).1
  unfolding mark_retry
  mark_retry-Changed item at now m db h =
      let (_, e) = refuse_if-ok _ _ _ db h in
      rw e (
        mutate-Changed item retry at _
          (λ r same st. settled_fields item retry at r _ same st refl refl refl refl) db
          (rw e at h))
