-- ===== src/PubSub/Decoding/Fields.antt =====
-- pubsub/message.go, decodeEntry: what a decoded delivery looks like.
use wego.Prelude.{
  is_blank, some_injective, subst, ◌≡◌, refl, ap, ◌∙◌, sym, Bool, true, false, Option, none, some,
  Text, codes, GoMap, ℤ, pos, is_pos, is_neg, trim_space, if◌then◌else◌, arith,
}
use wego.Reminder.Model.{Time}
use wego.PubSub.{Delivery, Entry}
use wego.PubSub.Decoding.{
  at_least_one, is_nil, not_negative, ◌>>=◌, Codec, decode_entry, delivery_of, field, parse_attempt,
  parse_max_deliver, parse_headers, atoi,
}

-- A block that returns has read its first field.
record Read {A B : Type 0} (m : Option A) (f : A → Option B) (b : B) : Type 0 where
  value : A
  reads : m ≡ some value
  continues : f value ≡ some b

>>=-some :
    {A B : Type 0} (m : Option A) (f : A → Option B) {b : B} → (m >>= f) ≡ some b → Read m f b
unfolding ◌>>=◌
>>=-some none f h = ground arith
>>=-some (some a) f h = record { value = a; reads = refl; continues = h }

at_least_one-is_pos : (m : Option ℤ) (n : ℤ) → at_least_one m ≡ some n → is_pos n ≡ true
at_least_one-is_pos none n h = cc
at_least_one-is_pos (some a) n h = tested (is_pos a) refl h
  where
    tested : (b : Bool) → is_pos a ≡ b → (if b then some a else none) ≡ some n → is_pos n ≡ true
    tested true e h = ap is_pos (sym (some_injective a n h)) ∙ e
    tested false e h = cc

not_negative-is_neg : (m : Option ℤ) (n : ℤ) → not_negative m ≡ some n → is_neg n ≡ false
not_negative-is_neg none n h = cc
not_negative-is_neg (some a) n h = tested (is_neg a) refl h
  where
    tested : (b : Bool) → is_neg a ≡ b → (if b then none else some a) ≡ some n → is_neg n ≡ false
    tested false e h = ap is_neg (sym (some_injective a n h)) ∙ e
    tested true e h = cc

parse_max_deliver-is_neg : (s : Text) (n : ℤ) → parse_max_deliver s ≡ some n → is_neg n ≡ false
unfolding parse_max_deliver
parse_max_deliver-is_neg s n h = not_negative-is_neg (atoi (trim_space s)) n h

parse_attempt-is_pos : (s : Text) (n : ℤ) → parse_attempt s ≡ some n → is_pos n ≡ true
unfolding parse_attempt
parse_attempt-is_pos s n h = blank (is_blank s) h
  where
    blank :
        (b : Bool)
        → (if b then some (pos 1) else at_least_one (atoi (trim_space s))) ≡ some n
        → is_pos n ≡ true
    blank true h = ap is_pos (sym (some_injective (pos 1) n h))
    blank false h = at_least_one-is_pos (atoi (trim_space s)) n h

-- What decodeEntry says of a delivery: it is of the entry and of the subscription, its attempt is
-- at least 1 and its limit is not negative.
pub record IsOf (codec : Codec) (topic group consumer : Text) (entry : Entry) (d : Delivery)
    : Type 0 where
  pub same_id : d.id ≡ entry.id
  pub has_id : is_nil entry.id ≡ false
  pub same_topic : d.topic ≡ topic
  pub same_group : d.group ≡ group
  pub same_consumer : d.consumer ≡ consumer
  pub attempt_is_pos : is_pos d.attempt ≡ true
  pub max_deliver_is_neg : is_neg d.message.max_deliver ≡ false
  pub same_data : d.message.data_bytes ≡ field (codes "data") entry.values
  pub same_raw : d.raw ≡ entry.values
  pub reads_headers :
      parse_headers codec (field (codes "headers") entry.values) ≡ some d.message.headers

-- decodeEntry returns only deliveries that name the entry, the topic, the group and the consumer
-- that it was given, that keep the entry's fields and data, whose attempt is at least 1, whose limit of
-- deliveries is not negative and whose headers are read from the entry's, whatever the decoders of instants and headers do.
pub decode_entry-IsOf :
    (codec : Codec) (topic group consumer : Text) (entry : Entry) (d : Delivery)
    → decode_entry codec topic group consumer entry ≡ some d
    → IsOf codec topic group consumer entry d
unfolding decode_entry
decode_entry-IsOf codec topic group consumer entry d h = by_id (is_nil entry.id) refl h
  where
    limit : Option ℤ
    limit = parse_max_deliver (field (codes "max_deliver") entry.values)

    tries : Option ℤ
    tries = parse_attempt (field (codes "attempt") entry.values)

    time : Option Time
    time = codec.parse_time (trim_space (field (codes "published_at") entry.values))

    headers : Option (GoMap Text Text)
    headers = parse_headers codec (field (codes "headers") entry.values)

    decoded : Option Delivery
    decoded = limit >>= λ n. tries >>= λ a.
        time >>= λ t. headers >>= λ hs. some (delivery_of topic group consumer entry n a t hs)

    from_fields :
        decoded ≡ some d → is_nil entry.id ≡ false → IsOf codec topic group consumer entry d
    from_fields h named =
        let r1 = >>=-some limit _ h in
        let r2 = >>=-some tries _ r1.continues in
        let r3 = >>=-some time _ r2.continues in
        let r4 = >>=-some headers _ r3.continues in
        subst (λ x. IsOf codec topic group consumer entry x) (some_injective _ d r4.continues)
          (record {
            same_id = refl;
            has_id = named;
            same_topic = refl;
            same_group = refl;
            same_consumer = refl;
            attempt_is_pos = parse_attempt-is_pos _ _ r2.reads;
            max_deliver_is_neg = parse_max_deliver-is_neg _ _ r1.reads;
            same_data = refl;
            same_raw = refl;
            reads_headers = r4.reads;
          })

    by_id :
        (b : Bool)
        → is_nil entry.id ≡ b
        → (if b then none else decoded) ≡ some d
        → IsOf codec topic group consumer entry d
    by_id true e h = cc
    by_id false e h = from_fields h e
