-- ===== src/PubSub/Service.antt =====
-- pubsub/service.go, handleEntry and retryDelay, with the store's methods Ack, MoveToDLQ and
-- ScheduleRetry: how one entry of a stream is settled. Redis, the handler and the clock are the
-- argument `Environment`; the commands that Redis is sent are kept in a log. Metrics, spans and log
-- lines are left out.
pub mod Settling
pub mod Entries
pub mod Rounds
pub mod Ending
pub mod Finishing
pub mod DeadLetters
use wego.Action.{Result, ok, err}
use wego.PubSub.Publishing.{Printer, itoa}
use wego.PubSub.{
  marshal_error, Envelope, Error, Message, Delivery, Entry, RetryPolicy, Subscription, Options,
  normalize_topic, normalize_group, stream_key, dlq_key, retry_key, effective_retry,
  redis_not_configured, invalid_message, redis_error,
}
use wego.PubSub.Decoding.{field, Codec, decode_entry}
use wego.Prelude.{
  ℕ, zero, suc, ◌-◌, ◌/◌, Bool, true, false, Option, none, some, List, [], ◌∷◌, ◌++◌, Text, codes,
  Unicode, ℤ, pos, negsuc, is_pos, ltb, ltb_ℤ, leb_ℤ, add_int, sub_ℕ, nat_beq, length, get_or,
  get_last_or, GoMap, if◌then◌else◌, ◌&&◌, ◌||◌, not, All, ◌+◌, ◌*◌, ◌%◌, ◌^◌, ◌≤◌, ◌<◌, ◌≡◌, refl,
  ap, ◌∙◌, sym, subst, map, is_empty, leb, arith, append_assoc, append_nil,
}
use wego.Reminder.Model.{Time}
use wego.Reminder.Service.{add_duration}

-- What Redis is sent: XACK, and the two scripts, each of which acknowledges the entry.
pub data Command : Type 0 where
  ack : (stream group : Text) (ids : List Text) → Command
  -- dlqAndAckScript, with the values of the dead letter
  dead_letter : (dlq stream group id : Text) → (values : GoMap Text Text) → Command
  -- retryAndAckScript, with its score in milliseconds and the JSON of the retry
  schedule_retry : (retries stream : Text) → (due : ℤ) → (payload group id : Text) → Command

pub record Environment : Type 1 where
  pub State : Type 0
  pub exec : Command → State → Option Text × State
  pub handle : Delivery → State → Option Text × State
  pub now : State → Time × State
  -- The standard library's RFC 3339 and JSON
  pub printer : Printer
  pub marshal : Envelope → Result Text Text

pub record World (E : Environment) : Type 0 where
  pub env : E.State
  pub commands : List Command

-- The Unix epoch, in milliseconds from the zero time.
abbrev pub epoch_ms : ℕ
epoch_ms = 62_135_596_800_000

-- t.UnixMilli()
abbrev pub unix_milli : Time → ℤ
unix_milli t = sub_ℕ (t / 1_000_000) epoch_ms

-- The delay before an attempt, for a backoff that is not empty.
abbrev pub delay_of : ℤ → List ℤ → ℤ → ℤ
delay_of d ds (negsuc n) = pos 0
delay_of d ds (pos zero) = pos 0
delay_of d ds (pos (suc zero)) = pos 0
delay_of d ds (pos (suc (suc index))) =
    if ltb index (length (d ∷ ds)) then get_or d (d ∷ ds) index else get_last_or d ds

-- retryDelay: none before the first attempt, then the backoff's steps, the last one for all later
-- attempts.
unfoldable pub retry_delay : RetryPolicy → ℤ → ℤ
retry_delay policy attempt = elim policy.backoff [ [] ↦ pos 0 | d ∷ ds ↦ delay_of d ds attempt ]

-- An error of a command, or nil.
abbrev pub as_error : Option Text → Option Error
as_error none = none
as_error (some e) = some (redis_error e)

-- The limit of a delivery: its own, or the policy's.
unfoldable pub limited : RetryPolicy → Delivery → Delivery
limited retry d =
    if is_pos d.message.max_deliver
    then d
    else record d { message = record d.message { max_deliver = retry.max_deliver } }

abbrev pub envelope_of : ⦃u : Unicode⦄ → Text → Delivery → ℤ → Envelope
envelope_of topic d attempt = record {
  topic = normalize_topic topic;
  group = normalize_group d.group;
  message = d.message;
  attempt = attempt;
  published_at = d.published_at;
}

-- The values of a dead letter.
unfoldable pub dead_letter_values : Printer → Delivery → (reason : Text) → GoMap Text Text
unfolding field itoa
dead_letter_values printer d reason =
    (codes "key", d.message.key)
    ∷ (codes "type", d.message.message_type)
    ∷ (codes "data", d.message.data_bytes)
    ∷ (codes "headers", field (codes "headers") d.raw)
    ∷ (codes "published_at", printer.format_time d.published_at)
    ∷ (codes "max_deliver", itoa d.message.max_deliver)
    ∷ (codes "attempt", itoa d.attempt)
    ∷ (codes "reason", reason)
    ∷ (codes "source_id", d.id)
    ∷ (codes "source_group", d.group)
    ∷ []

-- `nextAttempt <= 0 || dueAt.IsZero()` does not hold.
unfoldable pub is_schedulable : Time → ℤ → Bool
is_schedulable due attempt = is_pos attempt && not (nat_beq due 0)

module _ ⦃u : Unicode⦄ {E : Environment} (o : Options) where
  -- A command, where the store has a client.
  unfoldable pub send : Command → World E → Option Error × World E
  send command w =
      let outcome = E.exec command w.env in
      let sent = record w { env = outcome.1; commands = w.commands ++ command ∷ [] } in
      if o.connected then (as_error (outcome.0), sent) else (some redis_not_configured, w)

  -- Store.Ack
  unfoldable pub ack_ids : Text → Text → List Text → World E → Option Error × World E
  unfolding send
  ack_ids topic group [] w = if o.connected then (none, w) else (some redis_not_configured, w)
  ack_ids topic group (id ∷ ids) w = send (ack (stream_key o topic) group (id ∷ ids)) w

  -- Store.MoveToDLQ
  unfoldable pub move_to_dlq : Text → Delivery → Text → World E → Option Error × World E
  unfolding send dead_letter_values
  move_to_dlq topic d reason w =
      send
        (dead_letter (dlq_key o topic) (stream_key o topic) d.group d.id
          (dead_letter_values E.printer d reason))
        w

  -- With the JSON of the envelope, or json.Marshal's error.
  abbrev pub schedule_payload :
      Text → Delivery → Time → Result Text Text → World E → Option Error × World E
  schedule_payload topic d due (err e) w = (some (marshal_error e), w)
  schedule_payload topic d due (ok payload) w =
      send
        (schedule_retry (retry_key o topic d.group) (stream_key o topic) (unix_milli due) payload
          d.group d.id)
        w

  -- Store.ScheduleRetry
  unfoldable pub schedule : Text → Delivery → Time → ℤ → World E → Option Error × World E
  unfolding send is_schedulable
  schedule topic d due attempt w =
      let sent = schedule_payload topic d due (E.marshal (envelope_of topic d attempt)) w in
      if not o.connected
      then (some redis_not_configured, w)
      else if is_schedulable due attempt
      then sent
      else (some invalid_message, w)

  -- After the handler's error.
  unfoldable pub after_failure : Subscription → RetryPolicy → Delivery → World E → World E
  unfolding move_to_dlq ack_ids schedule retry_delay
  after_failure sub retry d w =
      let next = add_int d.attempt (pos 1) in
      let clock = E.now w.env in
      let later = record w { env = clock.1 } in
      if ltb_ℤ d.message.max_deliver next
      then if o.dlq_enabled
        then (move_to_dlq sub.topic d (codes "max delivery exceeded") w).1
        else (ack_ids sub.topic sub.group (d.id ∷ []) w).1
      else (schedule sub.topic d (add_duration (clock.0) (retry_delay retry next)) next later).1

  -- By what the handler returned.
  abbrev pub after_handler : Subscription → RetryPolicy → Delivery → Option Text → World E → World E
  after_handler sub retry d none w = (ack_ids sub.topic sub.group (d.id ∷ []) w).1
  after_handler sub retry d (some e) w = after_failure sub retry d w

  -- A decoded delivery with its limit.
  unfoldable pub handle_delivery : Subscription → RetryPolicy → Delivery → World E → World E
  unfolding move_to_dlq ack_ids after_failure
  handle_delivery sub retry d w =
      let handled = E.handle d w.env in
      if ltb_ℤ d.message.max_deliver d.attempt && o.dlq_enabled
      then (move_to_dlq sub.topic d (codes "max delivery exceeded") w).1
      else after_handler sub retry d (handled.0) (record w { env = handled.1 })

  abbrev pub handle_decoded : Subscription → Entry → Option Delivery → World E → World E
  handle_decoded sub entry none w = (ack_ids sub.topic sub.group (entry.id ∷ []) w).1
  handle_decoded sub entry (some d) w =
      let retry = effective_retry sub o.retry in handle_delivery sub retry (limited retry d) w

  -- handleEntry
  unfoldable pub handle_entry : Codec → Subscription → Text → Entry → World E → World E
  unfolding ack_ids handle_delivery limited decode_entry
  handle_entry codec sub consumer entry w =
      handle_decoded sub entry (decode_entry codec sub.topic sub.group consumer entry) w
