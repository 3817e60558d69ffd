-- ===== src/PubSub/Publishing/RoundTrip.antt =====
-- pubsub/message.go: what messageFieldsWithAttempt writes is what decodeEntry reads.
use wego.Prelude.{
  is_pos, Bool, subst, arith, ℤ, pos, ◌<◌, ◌^◌, false, some, ℕ, trim_space, ◌≡◌, refl, ap, ◌∙◌,
  GoMap, Text, lookup, text_key, sym, true, if◌then◌else◌, not,
}
use wego.Action.{ok, err, ok_injective}
use wego.Reminder.Model.{Time}
use wego.PubSub.{invalid_message, or_default, Message, Delivery}
use wego.PubSub.Decoding.{
  Codec, decode_entry, field, delivery_of, ◌>>=◌, parse_headers, parse_attempt, parse_max_deliver,
  is_nil, is_valid,
}
use wego.PubSub.Publishing.{Printer, entry_fields, message_fields, itoa}
use wego.PubSub.Numbers.{atoi-itoa, trim_space-itoa, itoa-is_empty}

-- time.Parse reads what Format writes, and Unmarshal reads a map with the values of the one that
-- Marshal wrote.
pub record Agrees (codec : Codec) (printer : Printer) : Type 0 where
  pub parses : (t : Time) → codec.parse_time (trim_space (printer.format_time t)) ≡ some t
  pub read_headers : GoMap Text Text → GoMap Text Text
  pub unmarshals :
      (hs : GoMap Text Text)
      → parse_headers codec (printer.marshal_headers hs) ≡ some (read_headers hs)
  pub same_headers : (hs : GoMap Text Text) (k : Text) → lookup k (read_headers hs) ≡ lookup k hs

pub parse_attempt-itoa : (n : ℕ) → 0 < n → n < 2 ^ 63 → parse_attempt (itoa (pos n)) ≡ some (pos n)
unfolding parse_attempt
parse_attempt-itoa n positive small =
    rw (trim_space-itoa n small, itoa-is_empty n small, atoi-itoa n small)
      (ground (arith, positive))

parse_max_deliver-itoa : (n : ℕ) → n < 2 ^ 63 → parse_max_deliver (itoa (pos n)) ≡ some (pos n)
unfolding parse_max_deliver
parse_max_deliver-itoa n small = rw (trim_space-itoa n small, atoi-itoa n small) refl

-- An entry with the seven fields, where each field can be read.
pub decode_entry-entry_fields :
    (codec : Codec) (topic group consumer id key message_type content : Text) (n a : ℕ) (t : Time)
    (written_headers written_time : Text) (hs : GoMap Text Text)
    → is_nil id ≡ false
    → n < 2 ^ 63
    → 0 < a
    → a < 2 ^ 63
    → codec.parse_time (trim_space written_time) ≡ some t
    → parse_headers codec written_headers ≡ some hs
    → decode_entry codec topic group consumer (record {
      id = id;
      values =
          entry_fields key message_type content written_headers written_time
            (itoa (pos n))
            (itoa (pos a));
    })
      ≡ some (
          delivery_of topic group consumer
            (record {
              id = id;
              values =
                  entry_fields key message_type content written_headers written_time
                    (itoa (pos n))
                    (itoa (pos a));
            })
            (pos n)
            (pos a)
            t
            hs)
unfolding decode_entry field lookup ◌>>=◌
decode_entry-entry_fields codec topic group consumer id key message_type content n a t wh wt hs
      named limit positive small time headers =
    rw (named, parse_max_deliver-itoa n limit, parse_attempt-itoa a positive small, time, headers)
      refl

-- The delivery that a subscription of the topic gets of a message.
abbrev pub delivery_from :
    (topic group consumer id : Text) (attempt limit : ℤ)
    → Time
    → GoMap Text Text
    → GoMap Text Text
    → Message
    → Delivery
delivery_from topic group consumer id attempt limit t headers fields m = record {
  id = id;
  topic = topic;
  group = group;
  consumer = consumer;
  attempt = attempt;
  published_at = t;
  message = record m { headers = headers; max_deliver = limit; scheduled_at = 0 };
  raw = fields;
}

-- The fields that a publication writes are decoded to the message that was published: with its key,
-- type, data and the values of its headers, the instant and the attempt that were written, and its
-- limit of deliveries or else the default one. Formatted instants and headers are assumed to be read
-- back, and the limit and the attempt to be 64-bit integers that are not negative.
pub decode_entry-message_fields :
    (codec : Codec) (printer : Printer) (agrees : Agrees codec printer)
    (topic group consumer id : Text) (m : Message) (t : Time) (default_limit : ℤ) (n a : ℕ)
    (fields : GoMap Text Text)
    → is_nil id ≡ false
    → or_default m.max_deliver default_limit ≡ pos n
    → n < 2 ^ 63
    → a < 2 ^ 63
    → message_fields printer m t default_limit (pos a) ≡ ok fields
    → decode_entry codec topic group consumer (record { id = id; values = fields })
      ≡ some (
          delivery_from topic group consumer id
            (pos a)
            (pos n)
            t
            (agrees.read_headers m.headers)
            fields
            m)
unfolding message_fields field lookup
decode_entry-message_fields codec printer agrees topic group consumer id m t default_limit n a
      fields named limit small_limit small written =
    by_tests (is_valid m) (is_pos (pos a)) refl written
  where
    printed : Text → GoMap Text Text
    printed max_deliver =
        entry_fields m.key m.message_type m.data_bytes (printer.marshal_headers m.headers)
          (printer.format_time t) max_deliver (itoa (pos a))

    decodes :
        0 < a
        → (fs : GoMap Text Text) → printed (itoa (pos n)) ≡ fs
        → decode_entry codec topic group consumer (record { id = id; values = fs })
          ≡ some (
              delivery_from topic group consumer id
                (pos a)
                (pos n)
                t
                (agrees.read_headers m.headers)
                fs
                m)
    decodes positive fs same =
        subst
          (λ fs.
            decode_entry codec topic group consumer (record { id = id; values = fs })
            ≡ some (
                delivery_from topic group consumer id (pos a) (pos n) t
                  (agrees.read_headers m.headers) fs m))
          same
          (decode_entry-entry_fields codec topic group consumer id m.key m.message_type m.data_bytes
            n a t _ _ (agrees.read_headers m.headers) named small_limit positive small
            (agrees.parses t) (agrees.unmarshals m.headers))

    by_tests :
        (valid positive : Bool)
        → is_pos (pos a) ≡ positive
        → (if not valid
            then err invalid_message
            else if positive
            then ok (printed (itoa (or_default m.max_deliver default_limit)))
            else err invalid_message)
          ≡ ok fields
        → decode_entry codec topic group consumer (record { id = id; values = fields })
          ≡ some (
              delivery_from topic group consumer id
                (pos a)
                (pos n)
                t
                (agrees.read_headers m.headers)
                fields
                m)
    by_tests false positive e h = cc
    by_tests true false e h = cc
    by_tests true true e h =
        decodes (ground arith) fields (ap (λ l. printed (itoa l)) (sym limit) ∙ ok_injective h)
