-- ===== src/PubSub/Service/Ending.antt =====
-- pubsub/service.go and pubsub/store.go: the attempts at a message, from one round to the next.
use wego.PubSub.Service.Entries.{limited_same}
use wego.PubSub.Decoding.{parse_headers, field, Codec, decode_entry, is_nil}
use wego.PubSub.Decoding.Fields.{IsOf, decode_entry-IsOf}
use wego.Action.{Result, ok}
use wego.PubSub.{
  Envelope, Message, Delivery, Entry, RetryPolicy, Subscription, Options, effective_retry,
}
use wego.PubSub.Service.Settling.{next_of}
use wego.Prelude.{
  text_key, lookup, ◌≡◌, ltb_ℤ, add_int, add_int-one, ℕ, ◌+◌, ◌^◌, ◌≤◌, ◌<◌, refl, ap, ◌∙◌, false,
  some, Text, Unicode, ltb, ℤ, pos, arith, sym, Bool, true, codes, is_pos, if◌then◌else◌,
}
use wego.PubSub.Publishing.{itoa}
use wego.PubSub.Publishing.RoundTrip.{Agrees, decode_entry-entry_fields, delivery_from}
use wego.PubSub.Promotion.{Lua, promoted_fields}
use wego.PubSub.Service.{limited}
use wego.PubSub.Service.Rounds.{promoted_entry}

-- A retry with the same message, the values of whose headers are the same.
pub record SameRetry (e f : Envelope) : Type 0 where
  pub key : f.message.key ≡ e.message.key
  pub message_type : f.message.message_type ≡ e.message.message_type
  pub data_bytes : f.message.data_bytes ≡ e.message.data_bytes
  pub headers : (k : Text) → lookup k f.message.headers ≡ lookup k e.message.headers
  pub max_deliver : f.message.max_deliver ≡ e.message.max_deliver
  pub attempt : f.attempt ≡ e.attempt

-- A message whose texts are all of some kind.
pub record HasTexts (valid : Text → Bool) (m : Message) : Type 0 where
  pub key : valid m.key ≡ true
  pub message_type : valid m.message_type ≡ true
  pub data_bytes : valid m.data_bytes ≡ true
  pub headers : (k v : Text) → lookup k m.headers ≡ some v → (valid k ≡ true) × (valid v ≡ true)

-- What Lua writes, decodeEntry reads; a number below 2 ^ 53 is written in its digits; and Lua reads
-- the JSON that `marshal` writes of a retry, whose texts are in UTF-8: other bytes are lost.
pub record LuaAgrees (codec : Codec) (lua : Lua) (marshal : Envelope → Result Text Text)
    : Type 0 where
  pub agrees : Agrees codec lua.printer
  pub numbers : (n : ℕ) → n < 2 ^ 53 → lua.number (pos n) ≡ itoa (pos n)
  pub is_utf8 : Text → Bool
  pub reads :
      (e : Envelope) (payload : Text)
      → HasTexts is_utf8 e.message
      → marshal e ≡ ok payload
      → (f : Envelope) × (lua.decode payload ≡ some f) × SameRetry e f

module _ (codec : Codec) (lua : Lua) (marshal : Envelope → Result Text Text)
    (laws : LuaAgrees codec lua marshal) where
  -- A promoted entry is decoded to the message of its retry.
  pub decode_entry-promoted_entry :
      (topic group consumer id : Text) (e : Envelope) (n a : ℕ)
      → is_nil id ≡ false
      → e.message.max_deliver ≡ pos n
      → n < 2 ^ 53
      → e.attempt ≡ pos a
      → 0 < a
      → a < 2 ^ 53
      → decode_entry codec topic group consumer (promoted_entry lua id e)
        ≡ some (
            delivery_from topic group consumer id
              (pos a)
              (pos n)
              e.published_at
              (laws.agrees.read_headers e.message.headers)
              (promoted_fields lua e)
              e.message)
  unfolding promoted_fields field lookup
  decode_entry-promoted_entry topic group consumer id e n a named limit small tries positive few =
      rw (limit, tries, laws.numbers n small, laws.numbers a few)
        (decode_entry-entry_fields codec topic group consumer id e.message.key
          e.message.message_type e.message.data_bytes n a e.published_at _ _
          (laws.agrees.read_headers e.message.headers) named (omega (arith, small)) positive
          (omega (arith, few)) (laws.agrees.parses e.published_at)
          (laws.agrees.unmarshals e.message.headers))

-- The attempts that are left, where one more does not wrap.
pub add_int-left :
    (limit attempt : ℤ) (n a : ℕ)
    → limit ≡ pos n
    → attempt ≡ pos a
    → a < 2 ^ 53
    → ltb_ℤ limit (add_int attempt (pos 1)) ≡ ltb n (a + 1)
add_int-left limit attempt n a e f small =
    rw (e, f, add_int-one a (omega (arith, small))) (ground arith)

limited_of_pos :
    (retry : RetryPolicy) (d : Delivery) (n : ℕ)
    → d.message.max_deliver ≡ pos n
    → 0 < n
    → limited retry d ≡ d
unfolding limited
limited_of_pos retry d n e h = rw e (ground (arith, h))

-- A limit changes neither the fields nor the headers.
limited_headers :
    (retry : RetryPolicy) (d : Delivery)
    → ((limited retry d).raw ≡ d.raw) × ((limited retry d).message.headers ≡ d.message.headers)
unfolding limited
limited_headers retry d = tested (is_pos d.message.max_deliver)
  where
    with_limit : Delivery
    with_limit = record d { message = record d.message { max_deliver = retry.max_deliver } }

    tested :
        (b : Bool)
        → ((if b then d else with_limit).raw ≡ d.raw)
          × ((if b then d else with_limit).message.headers ≡ d.message.headers)
    tested true = (refl, refl)
    tested false = (refl, refl)

module _ ⦃u : Unicode⦄ (o : Options) (codec : Codec) (sub : Subscription) (consumer : Text) where
  -- The delivery that is handled, with its limit.
  abbrev pub taken : Delivery → Delivery
  taken d = limited (effective_retry sub o.retry) d

  -- An entry of a message, in an attempt and with a limit of attempts.
  pub record Attempts (entry : Entry) (limit attempt : ℕ) (m : Message) : Type 0 where
    pub delivery : Delivery
    pub decodes : decode_entry codec sub.topic sub.group consumer entry ≡ some delivery
    pub has_limit : (taken delivery).message.max_deliver ≡ pos limit
    pub has_attempt : (taken delivery).attempt ≡ pos attempt
    pub same_key : (taken delivery).message.key ≡ m.key
    pub same_type : (taken delivery).message.message_type ≡ m.message_type
    pub same_data : (taken delivery).message.data_bytes ≡ m.data_bytes
    pub same_headers : (k : Text) → lookup k (taken delivery).message.headers ≡ lookup k m.headers

  pub Attempts-group :
      (entry : Entry) (n a : ℕ) (m : Message) (at : Attempts entry n a m)
      → (taken at.delivery).group ≡ sub.group
  Attempts-group entry n a m at =
      (limited_same (effective_retry sub o.retry) at.delivery).1
      ∙ (decode_entry-IsOf codec _ _ _ _ at.delivery at.decodes).same_group

  -- The headers of the delivery are read from its raw header.
  pub Attempts-headers :
      (entry : Entry) (n a : ℕ) (m : Message) (at : Attempts entry n a m)
      → parse_headers codec (field (codes "headers") (taken at.delivery).raw)
        ≡ some (taken at.delivery).message.headers
  Attempts-headers entry n a m at =
      ap (λ r. parse_headers codec (field (codes "headers") r)) (same.0 ∙ is_of.same_raw)
      ∙ is_of.reads_headers
      ∙ ap some (sym (same.1))
    where
      same :
          ((taken at.delivery).raw ≡ at.delivery.raw)
          × ((taken at.delivery).message.headers ≡ at.delivery.message.headers)
      same = limited_headers (effective_retry sub o.retry) at.delivery

      is_of : IsOf codec sub.topic sub.group consumer entry at.delivery
      is_of = decode_entry-IsOf codec _ _ _ _ at.delivery at.decodes

  -- The delivery of an attempt has the texts of its message.
  pub Attempts-HasTexts :
      (valid : Text → Bool) (entry : Entry) (n a : ℕ) (m : Message) (at : Attempts entry n a m)
      → HasTexts valid m
      → HasTexts valid (taken at.delivery).message
  Attempts-HasTexts valid entry n a m at h = record {
    key = ap valid at.same_key ∙ h.key;
    message_type = ap valid at.same_type ∙ h.message_type;
    data_bytes = ap valid at.same_data ∙ h.data_bytes;
    headers = λ k v found. h.headers k v (sym (at.same_headers k) ∙ found);
  }

  -- What Lua reads of the retry of an attempt is promoted to the next attempt at the same message.
  pub retry_Attempts :
      (lua : Lua) (marshal : Envelope → Result Text Text) (laws : LuaAgrees codec lua marshal)
      (entry : Entry) (n a : ℕ) (m : Message) (id : Text) (at : Attempts entry n a m)
      (retry : Envelope)
      → SameRetry (next_of o sub (taken at.delivery)) retry
      → is_nil id ≡ false
      → n < 2 ^ 53
      → a + 1 ≤ n
      → Attempts (promoted_entry lua id retry) n (a + 1) m
  retry_Attempts lua marshal laws entry n a m id at retry read named small left = record {
    delivery = next;
    decodes =
        decode_entry-promoted_entry codec lua marshal laws sub.topic sub.group consumer id retry n
          (a + 1) named (read.max_deliver ∙ at.has_limit) small
          (read.attempt ∙ ap (λ x. add_int x (pos 1)) at.has_attempt ∙ add_int-one a (omega arith))
          (omega arith) (omega arith);
    has_limit = ap (λ d. d.message.max_deliver) same;
    has_attempt = ap (λ d. d.attempt) same;
    same_key = ap (λ d. d.message.key) same ∙ read.key ∙ at.same_key;
    same_type = ap (λ d. d.message.message_type) same ∙ read.message_type ∙ at.same_type;
    same_data = ap (λ d. d.message.data_bytes) same ∙ read.data_bytes ∙ at.same_data;
    same_headers = λ k.
        ap (λ d. lookup k d.message.headers) same
        ∙ laws.agrees.same_headers retry.message.headers k
        ∙ read.headers k
        ∙ at.same_headers k;
  }
    where
      next : Delivery
      next =
          delivery_from sub.topic sub.group consumer id (pos (a + 1)) (pos n) retry.published_at
            (laws.agrees.read_headers retry.message.headers) (promoted_fields lua retry)
            retry.message

      same : taken next ≡ next
      same = limited_of_pos (effective_retry sub o.retry) next n refl (omega arith)
