-- ===== src/PubSub/Promotion.antt =====
-- pubsub/store.go: retryPromoteScript and PromoteDueRetries, which move the retries that are due
-- from their sorted set to the stream of the topic. What Lua writes of a value is the argument
-- `Lua`; the sorted set and the stream are the argument `Retries`. A retry is the envelope that its
-- JSON text reads as.
pub mod Sending
use wego.Prelude.{
  GoMap, ◌≡◌, All, ℕ, zero, suc, ◌+◌, ◌-◌, ◌*◌, ◌/◌, ◌%◌, ◌^◌, ◌≤◌, ◌<◌, refl, ap, ◌∙◌, sym, subst,
  Bool, true, false, Option, none, some, List, [], ◌∷◌, ◌++◌, map, Text, codes, Unicode, is_empty,
  ltb, leb, ℤ, pos, negsuc, is_pos, if◌then◌else◌, ◌&&◌, ◌||◌, not, arith, append_assoc, append_nil,
}
use wego.Action.{Result, ok, err}
use wego.Reminder.Model.{Time}
use wego.PubSub.{Error, redis_not_configured, redis_error, Options, stream_key, retry_key, Envelope}
use wego.PubSub.Service.{unix_milli}
use wego.PubSub.Publishing.{Printer, entry_fields}

-- cjson: the header's JSON and the instant's, the text of a number in an argument, and the reading
-- of a retry's JSON.
pub record Lua : Type 0 where
  pub printer : Printer
  pub number : ℤ → Text
  pub decode : Text → Option Envelope

pub data ScriptCommand : Type 0 where
  -- XADD KEYS[2] "*" …
  add_entry : (stream : Text) → GoMap Text Text → ScriptCommand
  -- ZREM KEYS[1] raw
  remove_retry : (retries : Text) → Envelope → ScriptCommand

-- redis.Nil, and other errors by their message.
pub data Failure : Type 0 where
  missing : Failure
  failure : Text → Failure

pub record Retries : Type 1 where
  pub State : Type 0
  -- ZRANGEBYSCORE key -inf max LIMIT 0 count
  pub range_by_score :
      (key : Text) → (max count : ℤ) → State → Result Failure (List Envelope) × State
  pub call : ScriptCommand → State → Option Failure × State

pub record Queue (K : Retries) : Type 0 where
  pub state : K.State
  pub commands : List ScriptCommand

unfoldable pub promoted_fields : Lua → Envelope → GoMap Text Text
promoted_fields lua e =
    entry_fields e.message.key e.message.message_type e.message.data_bytes
      (lua.printer.marshal_headers e.message.headers) (lua.printer.format_time e.published_at)
      (lua.number e.message.max_deliver) (lua.number e.attempt)

-- `err != nil`: redis.Nil counts as no retry.
abbrev pub promoted_result : Result Failure ℕ → Result Error ℕ
promoted_result (ok n) = ok n
promoted_result (err missing) = ok 0
promoted_result (err (failure e)) = err (redis_error e)

abbrev pub one_more : Result Failure ℕ → Result Failure ℕ
one_more (ok n) = ok (suc n)
one_more (err e) = err e

-- `if limit <= 0 { limit = 1 }`
abbrev pub at_least : ℤ → ℤ
at_least limit = if is_pos limit then limit else pos 1

module _ (K : Retries) (lua : Lua) where
  unfoldable pub redis_call : ScriptCommand → Queue K → Option Failure × Queue K
  redis_call c q =
      let outcome = K.call c q.state in
      (outcome.0, record { state = outcome.1; commands = q.commands ++ c ∷ [] })

  -- An error of a command ends the script.
  abbrev pub unless_failed :
      Option Failure × Queue K → Result Failure ℕ × Queue K → Result Failure ℕ × Queue K
  unless_failed (some e, q) rest = (err e, q)
  unless_failed (none, q) rest = rest

  -- The script's loop, and how many it has promoted.
  unfoldable pub promote_items :
      (retries stream : Text) → List Envelope → Queue K → Result Failure ℕ × Queue K
  unfolding redis_call promoted_fields
  promote_items retries stream [] q = (ok 0, q)
  promote_items retries stream (e ∷ es) q =
      let added = redis_call (add_entry stream (promoted_fields lua e)) q in
      let removed = redis_call (remove_retry retries e) (added.1) in
      let rest = promote_items retries stream es (removed.1) in
      unless_failed added (unless_failed removed (one_more (rest.0), rest.1))

  abbrev pub promote_found :
      (retries stream : Text)
      → Result Failure (List Envelope)
      → Queue K
      → Result Failure ℕ × Queue K
  promote_found retries stream (err e) q = (err e, q)
  promote_found retries stream (ok items) q = promote_items retries stream items q

  -- Store.PromoteDueRetries
  unfoldable pub promote_due_retries :
      ⦃u : Unicode⦄
      → Options
      → (topic group : Text) → (limit : ℤ) → Time
      → Queue K
      → Result Error ℕ × Queue K
  unfolding promote_items
  promote_due_retries o topic group limit now q =
      let found =
        K.range_by_score (retry_key o topic group) (unix_milli now) (at_least limit) q.state in
      let promoted =
        promote_found (retry_key o topic group) (stream_key o topic) (found.0)
          (record q { state = found.1 }) in
      if o.connected
      then (promoted_result (promoted.0), promoted.1)
      else (err redis_not_configured, q)
