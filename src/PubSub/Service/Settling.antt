-- ===== src/PubSub/Service/Settling.antt =====
-- pubsub/service.go, handleEntry: every entry is settled by one command.
use wego.Action.{Result, ok, err}
use wego.PubSub.Publishing.{Printer}
use wego.PubSub.{
  Envelope, invalid_message, redis_not_configured, Delivery, RetryPolicy, Subscription, Options,
  stream_key, dlq_key, retry_key,
}
use wego.PubSub.Service.{
  dead_letter_values, schedule_payload, Environment, World, Command, ack, dead_letter,
  schedule_retry, send, ack_ids, move_to_dlq, schedule, after_failure, after_handler,
  handle_delivery, envelope_of, is_schedulable, retry_delay, unix_milli,
}
use wego.Prelude.{
  append_nil, ◌≡◌, refl, sym, Bool, true, false, Option, none, some, List, [], ◌∷◌, ◌++◌, Text,
  codes, Unicode, ℤ, pos, ltb_ℤ, add_int, if◌then◌else◌, ◌&&◌, not,
}
use wego.Reminder.Model.{Time}
use wego.Reminder.Service.{add_duration}

abbrev pub issued : Option Command → List Command
issued none = []
issued (some c) = c ∷ []

-- The delivery has more attempts than its limit, and the dead letters are enabled.
abbrev pub is_exhausted : Options → Delivery → Bool
is_exhausted o d = ltb_ℤ d.message.max_deliver d.attempt && o.dlq_enabled

module _ ⦃u : Unicode⦄ (o : Options) (sub : Subscription) where
  abbrev pub dead_letter_of : Printer → Delivery → Command
  dead_letter_of printer d =
      dead_letter (dlq_key o sub.topic) (stream_key o sub.topic) d.group d.id
        (dead_letter_values printer d (codes "max delivery exceeded"))

  abbrev pub ack_of : Text → Command
  ack_of id = ack (stream_key o sub.topic) sub.group (id ∷ [])

  -- The retry of a delivery.
  abbrev pub next_of : Delivery → Envelope
  next_of d = envelope_of sub.topic d (add_int d.attempt (pos 1))

  abbrev pub retry_of : Delivery → Time → Text → Command
  retry_of d due payload =
      schedule_retry (retry_key o sub.topic d.group) (stream_key o sub.topic) (unix_milli due)
        payload d.group d.id

module _ ⦃u : Unicode⦄ (E : Environment) (o : Options) (sub : Subscription)
    (retry : RetryPolicy) where
  abbrev pub due_of : Delivery → E.State → Time
  due_of d env = add_duration ((E.now env).0) (retry_delay retry (add_int d.attempt (pos 1)))

  -- How a delivery is settled, by what the handler returned and by the attempts that are left.
  pub data Settled (d : Delivery) (env : E.State) : Option Command → Type 0 where
    -- More attempts than allowed: the handler is not called.
    exhausted : is_exhausted o d ≡ true → Settled d env (some (dead_letter_of o sub E.printer d))
    handled :
        is_exhausted o d ≡ false
        → (E.handle d env).0 ≡ none
        → Settled d env (some (ack_of o sub d.id))
    retried :
        (e : Text)
        → is_exhausted o d ≡ false
        → (E.handle d env).0 ≡ some e
        → ltb_ℤ d.message.max_deliver (add_int d.attempt (pos 1)) ≡ false
        → is_schedulable (due_of d ((E.handle d env).1)) (add_int d.attempt (pos 1)) ≡ true
        → (payload : Text) → E.marshal (next_of o sub d) ≡ ok payload
        → Settled d env (some (retry_of o sub d (due_of d ((E.handle d env).1)) payload))
    -- The handler failed in the last attempt.
    dead :
        (e : Text)
        → is_exhausted o d ≡ false
        → (E.handle d env).0 ≡ some e
        → ltb_ℤ d.message.max_deliver (add_int d.attempt (pos 1)) ≡ true
        → o.dlq_enabled ≡ true
        → Settled d env (some (dead_letter_of o sub E.printer d))
    dropped :
        (e : Text)
        → is_exhausted o d ≡ false
        → (E.handle d env).0 ≡ some e
        → ltb_ℤ d.message.max_deliver (add_int d.attempt (pos 1)) ≡ true
        → o.dlq_enabled ≡ false
        → Settled d env (some (ack_of o sub d.id))
    -- The retry cannot be scheduled: its attempt has wrapped around, or its time is zero.
    pending :
        (e : Text)
        → is_exhausted o d ≡ false
        → (E.handle d env).0 ≡ some e
        → ltb_ℤ d.message.max_deliver (add_int d.attempt (pos 1)) ≡ false
        → is_schedulable (due_of d ((E.handle d env).1)) (add_int d.attempt (pos 1)) ≡ false
        → Settled d env none
    -- The envelope of the retry cannot be written.
    unwritten :
        (e : Text)
        → is_exhausted o d ≡ false
        → (E.handle d env).0 ≡ some e
        → ltb_ℤ d.message.max_deliver (add_int d.attempt (pos 1)) ≡ false
        → (f : Text) → E.marshal (next_of o sub d) ≡ err f
        → Settled d env none

  pub record Settles (d : Delivery) (w last : World E) : Type 0 where
    pub command : Option Command
    pub settled : Settled d w.env command
    pub log : last.commands ≡ w.commands ++ issued command

  pub send-commands :
      (c : Command) (w : World E)
      → o.connected ≡ true
      → (send o c w).1.commands ≡ w.commands ++ c ∷ []
  unfolding send
  send-commands c w h = rw h refl

  after_failure-Settles :
      (d : Delivery) (w : World E) (e : Text)
      → o.connected ≡ true
      → is_exhausted o d ≡ false
      → (E.handle d w.env).0 ≡ some e
      → Settles d w (after_failure o sub retry d (record w { env = (E.handle d w.env).1 }))
  unfolding after_failure move_to_dlq ack_ids schedule
  after_failure-Settles d w e h left fails =
      by_limit (ltb_ℤ d.message.max_deliver next) o.dlq_enabled (is_schedulable due next) refl refl
        refl
    where
      next : ℤ
      next = add_int d.attempt (pos 1)

      later : World E
      later = record w { env = (E.handle d w.env).1 }

      due : Time
      due = due_of d later.env

      clocked : World E
      clocked = record later { env = (E.now later.env).1 }

      dead_lettered : World E
      dead_lettered = (send o (dead_letter_of o sub E.printer d) later).1

      acknowledged : World E
      acknowledged = (send o (ack_of o sub d.id) later).1

      marshaled : Result Text Text
      marshaled = E.marshal (next_of o sub d)

      retried_Settles :
          (b : Bool) (r : Result Text Text)
          → ltb_ℤ d.message.max_deliver next ≡ false
          → is_schedulable due next ≡ b
          → marshaled ≡ r
          → Settles d w (
              (if not o.connected
                then (some redis_not_configured, clocked)
                else if b
                then schedule_payload o sub.topic d due r clocked
                else (some invalid_message, clocked)).1)
      retried_Settles true (ok payload) few ready written = record {
        command = some (retry_of o sub d due payload);
        settled = retried e left fails few ready payload written;
        log = rw h refl;
      }
      retried_Settles true (err f) few ready written = record {
        command = none;
        settled = unwritten e left fails few f written;
        log = rw h (sym (append_nil w.commands));
      }
      retried_Settles false r few ready written = record {
        command = none;
        settled = pending e left fails few ready;
        log = rw h (sym (append_nil w.commands));
      }

      by_limit :
          (a b c : Bool)
          → ltb_ℤ d.message.max_deliver next ≡ a
          → o.dlq_enabled ≡ b
          → is_schedulable due next ≡ c
          → Settles d w (
              if a
              then (if b then dead_lettered else acknowledged)
              else (if not o.connected
                  then (some redis_not_configured, clocked)
                  else if c
                  then schedule_payload o sub.topic d due marshaled clocked
                  else (some invalid_message, clocked)).1)
      by_limit true true c over enabled ready = record {
        command = some (dead_letter_of o sub E.printer d);
        settled = dead e left fails over enabled;
        log = send-commands (dead_letter_of o sub E.printer d) later h;
      }
      by_limit true false c over disabled ready = record {
        command = some (ack_of o sub d.id);
        settled = dropped e left fails over disabled;
        log = send-commands (ack_of o sub d.id) later h;
      }
      by_limit false b c over enabled ready = retried_Settles c marshaled over ready refl

  -- The handler is called.
  after_handler-Settles :
      (d : Delivery) (w : World E) (answer : Option Text)
      → o.connected ≡ true
      → is_exhausted o d ≡ false
      → (E.handle d w.env).0 ≡ answer
      → Settles d w (after_handler o sub retry d answer (record w { env = (E.handle d w.env).1 }))
  unfolding ack_ids
  after_handler-Settles d w none h left succeeds = record {
    command = some (ack_of o sub d.id);
    settled = handled left succeeds;
    log = send-commands (ack_of o sub d.id) (record w { env = (E.handle d w.env).1 }) h;
  }
  after_handler-Settles d w (some e) h left fails = after_failure-Settles d w e h left fails

  -- A delivery, whatever its limit.
  pub handle_delivery-Settles :
      (d : Delivery) (w : World E)
      → o.connected ≡ true
      → Settles d w (handle_delivery o sub retry d w)
  unfolding handle_delivery move_to_dlq
  handle_delivery-Settles d w h = by_test (is_exhausted o d) refl
    where
      handled_delivery : World E
      handled_delivery =
          after_handler o sub retry d ((E.handle d w.env).0)
            (record w { env = (E.handle d w.env).1 })

      by_test :
          (b : Bool)
          → is_exhausted o d ≡ b
          → Settles d w
              (if b then (send o (dead_letter_of o sub E.printer d) w).1 else handled_delivery)
      by_test true over = record {
        command = some (dead_letter_of o sub E.printer d);
        settled = exhausted over;
        log = send-commands (dead_letter_of o sub E.printer d) w h;
      }
      by_test false left = after_handler-Settles d w ((E.handle d w.env).0) h left refl
