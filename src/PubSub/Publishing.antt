-- ===== src/PubSub/Publishing.antt =====
-- pubsub/message.go and pubsub/store.go: publishing. The instants and headers of an entry are
-- written by the argument `Printer`, RFC 3339 and JSON; Redis and the clock are the argument
-- `Broker`.
pub mod RoundTrip
use wego.Prelude.{
  refl, ◌∙◌, ap, ltb, ◌%◌, arith, ◌/◌, zero, suc, negsuc, ◌*◌, ◌^◌, ◌<◌, ◌≡◌, ℕ, ◌+◌, Bool, true,
  false, Option, none, some, [], ◌∷◌, Text, codes, Unicode, is_empty, ℤ, pos, is_pos, GoMap,
  if◌then◌else◌, not, All, ◌-◌, ◌≤◌, sym, subst, List, ◌++◌, map, leb, ◌&&◌, ◌||◌, append_assoc,
  append_nil,
}
use wego.Action.{Result, ok, err}
use wego.Reminder.Model.{Time}
use wego.PubSub.{
  Error, Message, Options, normalize_topic, stream_key, or_default, redis_not_configured,
  invalid_message, invalid_topic, redis_error, Envelope,
}
use wego.PubSub.Decoding.{parse_digits, is_valid}

pub record Printer : Type 0 where
  pub format_time : Time → Text
  pub marshal_headers : GoMap Text Text → Text

-- The decimal digits of a number with at most `fuel` digits, before those written already.
unfoldable pub digits : (fuel : ℕ) → ℕ → Text → Text
digits zero n written = written
digits (suc fuel) n written =
    let rest = digits fuel (n / 10) ((48 + n % 10) ∷ written) in
    if ltb n 10 then (48 + n) ∷ written else rest

-- strconv.Itoa, of a 64-bit integer, which has at most 19 digits
unfoldable pub itoa : ℤ → Text
unfolding digits
itoa (pos n) = digits 19 n []
itoa (negsuc n) = 45 ∷ digits 19 (suc n) []

-- One digit is read.
parse_digits-digit :
    (acc d : ℕ) (s : Text)
    → d < 10
    → parse_digits acc ((48 + d) ∷ s) ≡ parse_digits (10 * acc + d) s
unfolding parse_digits
parse_digits-digit acc d s h = ground arith

-- A natural number with at most the given number of digits, written in decimal digits and read back,
-- is the number that was written, whatever follows it.
pub parse_digits-digits :
    (fuel n : ℕ) (s : Text) → n < 10 ^ fuel → parse_digits 0 (digits fuel n s) ≡ parse_digits n s
unfolding digits
parse_digits-digits zero n s h = ap (λ k. parse_digits k s) (omega (arith, h))
parse_digits-digits (suc fuel) n s h =
    by_size (ltb n 10) refl
      (λ big. parse_digits-digits fuel (n / 10) ((48 + n % 10) ∷ s) (omega (arith, h)))
  where
    by_size :
        (b : Bool)
        → ltb n 10 ≡ b
        → (ltb n 10 ≡ false
            → parse_digits 0 (digits fuel (n / 10) ((48 + n % 10) ∷ s))
              ≡ parse_digits (n / 10) ((48 + n % 10) ∷ s))
        → parse_digits 0 (if b then (48 + n) ∷ s else digits fuel (n / 10) ((48 + n % 10) ∷ s))
          ≡ parse_digits n s
    by_size true e rest =
        parse_digits-digit 0 n s (ground arith) ∙ ap (λ k. parse_digits k s) (omega arith)
    by_size false e rest =
        rest e
        ∙ parse_digits-digit (n / 10) (n % 10) s (omega arith)
        ∙ ap (λ k. parse_digits k s) (omega arith)

-- The fields of an entry, by name.
abbrev pub entry_fields :
    (key message_type content headers published_at max_deliver attempt : Text) → GoMap Text Text
entry_fields key message_type content headers published_at max_deliver attempt =
    (codes "key", key)
    ∷ (codes "type", message_type)
    ∷ (codes "data", content)
    ∷ (codes "headers", headers)
    ∷ (codes "published_at", published_at)
    ∷ (codes "max_deliver", max_deliver)
    ∷ (codes "attempt", attempt)
    ∷ []

-- messageFieldsWithAttempt
unfoldable pub message_fields : Printer → Message → Time → ℤ → ℤ → Result Error (GoMap Text Text)
unfolding is_valid
message_fields printer m published_at default_max_deliver attempt =
    let fields =
      entry_fields m.key m.message_type m.data_bytes (printer.marshal_headers m.headers)
        (printer.format_time published_at) (itoa (or_default m.max_deliver default_max_deliver))
        (itoa attempt) in
    if not (is_valid m)
    then err invalid_message
    else if is_pos attempt
    then ok fields
    else err invalid_message

-- XADD of an entry, with the length to trim to, if any, and whether this is approximate
pub record Addition : Type 0 where
  pub stream : Text
  pub trim : Option (ℤ × Bool)
  pub fields : GoMap Text Text

pub record Broker : Type 1 where
  pub State : Type 0
  pub xadd : Addition → State → Result Text Text × State
  pub now : State → Time × State
  -- The propagator's changes of the headers
  pub inject : GoMap Text Text → GoMap Text Text

abbrev pub sent_result : Result Text Text → Result Error Text
sent_result (ok id) = ok id
sent_result (err e) = err (redis_error e)

module _ ⦃u : Unicode⦄ (K : Broker) (printer : Printer) (o : Options) where
  abbrev pub addition_of : Text → GoMap Text Text → Addition
  addition_of topic fields = record {
    stream = stream_key o topic;
    trim = if is_pos o.max_len then some (o.max_len, o.approx_max_len) else none;
    fields = fields;
  }

  -- With the fields or their error.
  abbrev pub add_fields :
      Text → Result Error (GoMap Text Text) → K.State → Result Error Text × K.State
  add_fields topic (err e) s = (err e, s)
  add_fields topic (ok fields) s =
      let added = K.xadd (addition_of topic fields) s in (sent_result (added.0), added.1)

  -- Store.publishAttempt
  unfoldable pub publish_attempt : Text → Message → ℤ → K.State → Result Error Text × K.State
  unfolding message_fields
  publish_attempt topic m attempt s =
      let clock = K.now s in
      let fields = message_fields printer m (clock.0) o.retry.max_deliver attempt in
      let added = add_fields topic fields (clock.1) in
      if o.connected then added else (err redis_not_configured, s)

  -- Service.Publish, with Store.Publish
  unfoldable pub publish : Text → Message → K.State → Result Error Text × K.State
  unfolding publish_attempt
  publish topic m s =
      let injected = record m { headers = K.inject m.headers } in
      let added = publish_attempt topic injected (pos 1) s in
      if is_empty (normalize_topic topic) then (err invalid_topic, s) else added

  -- Store.PublishRetry
  unfoldable pub publish_retry : Envelope → K.State → Result Error Text × K.State
  unfolding publish_attempt
  publish_retry envelope s =
      publish_attempt envelope.topic (record envelope.message { scheduled_at = 0 }) envelope.attempt
        s

  -- What a publication that returned an id has done: one XADD, to the stream of the topic, of the
  -- fields of a valid message with its headers injected, as its first attempt.
  pub record Published (topic : Text) (m : Message) (s : K.State) (id : Text) : Type 0 where
    pub has_topic : is_empty (normalize_topic topic) ≡ false
    pub valid : is_valid (record m { headers = K.inject m.headers }) ≡ true
    pub fields : GoMap Text Text
    pub are_fields :
        message_fields printer
          (record m { headers = K.inject m.headers })
          ((K.now s).0)
          o.retry.max_deliver
          (pos 1)
        ≡ ok fields
    pub added : (K.xadd (addition_of topic fields) ((K.now s).1)).0 ≡ ok id

  message_fields-valid :
      (m : Message) (t : Time) (d a : ℤ) (fields : GoMap Text Text)
      → message_fields printer m t d a ≡ ok fields
      → is_valid m ≡ true
  unfolding message_fields
  message_fields-valid m t d a fields h = tested (is_valid m) _ refl h
    where
      tested :
          (b : Bool) (rest : Result Error (GoMap Text Text))
          → is_valid m ≡ b
          → (if not b then err invalid_message else rest) ≡ ok fields
          → is_valid m ≡ true
      tested true rest e h = e
      tested false rest e h = cc

  sent_result-ok : (r : Result Text Text) (id : Text) → sent_result r ≡ ok id → r ≡ ok id
  sent_result-ok (ok a) id h = cc
  sent_result-ok (err e) id h = cc

  -- Publish returns an id only if the topic is not blank and the message is valid, and then the id
  -- is the answer of Redis to one XADD of the message's fields, with its first attempt, to the stream of the
  -- topic.
  pub publish-Published :
      (topic : Text) (m : Message) (s : K.State) (id : Text)
      → (publish topic m s).0 ≡ ok id
      → Published topic m s id
  unfolding publish
  publish-Published topic m s id h = by_topic (is_empty (normalize_topic topic)) o.connected refl h
    where
      injected : Message
      injected = record m { headers = K.inject m.headers }

      fields_of : Result Error (GoMap Text Text)
      fields_of = message_fields printer injected ((K.now s).0) o.retry.max_deliver (pos 1)

      by_fields :
          (r : Result Error (GoMap Text Text))
          → fields_of ≡ r
          → is_empty (normalize_topic topic) ≡ false
          → (add_fields topic r ((K.now s).1)).0 ≡ ok id
          → Published topic m s id
      by_fields (err e) same named h = cc
      by_fields (ok fields) same named h = record {
        has_topic = named;
        valid = message_fields-valid injected ((K.now s).0) o.retry.max_deliver (pos 1) fields same;
        fields = fields;
        are_fields = same;
        added = sent_result-ok ((K.xadd (addition_of topic fields) ((K.now s).1)).0) id h;
      }

      by_topic :
          (a b : Bool)
          → is_empty (normalize_topic topic) ≡ a
          → (if a
              then (err invalid_topic, s)
              else if b
              then add_fields topic fields_of ((K.now s).1)
              else (err redis_not_configured, s)).0
            ≡ ok id
          → Published topic m s id
      by_topic true b e h = cc
      by_topic false true e h = by_fields fields_of refl e h
      by_topic false false e h = cc
