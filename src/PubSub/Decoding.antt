-- ===== src/PubSub/Decoding.antt =====
-- pubsub/message.go: the validation of a message, and the decoding of a stream's entry. The decimal
-- numbers are strconv's; RFC 3339 instants and JSON headers are read by the argument `Codec`.
pub mod Fields
use wego.Prelude.{
  is_blank, zero, ℕ, ◌+◌, ◌-◌, ◌*◌, ◌^◌, ◌≤◌, suc, Bool, true, false, Option, none, some, List, [],
  ◌∷◌, Text, codes, trim_space, is_empty, ℤ, pos, negsuc, is_pos, is_neg, ltb, leb, nat_beq, GoMap,
  lookup, text_key, if◌then◌else◌, ◌&&◌, ◌||◌, not,
}
use wego.Reminder.Model.{Time}
use wego.PubSub.{Message, Delivery, Entry}

-- time.Parse of RFC 3339, and json.Unmarshal into a map of strings.
pub record Codec : Type 0 where
  pub parse_time : Text → Option Time
  pub unmarshal_headers : Text → Option (GoMap Text Text)

-- `len(s) == 0`
abbrev pub is_nil : Text → Bool
is_nil [] = true
is_nil (c ∷ s) = false

-- Message.Validate: is the message valid?
unfoldable pub is_valid : Message → Bool
is_valid m =
    not (is_blank m.message_type && is_nil m.data_bytes)
    && not (is_neg m.max_deliver)
    && nat_beq m.scheduled_at 0

abbrev pub or_empty : Option Text → Text
or_empty (some v) = v
or_empty none = []

-- values[field], "" where it is missing
unfoldable pub field : Text → GoMap Text Text → Text
field name values = or_empty (lookup name values)

abbrev is_digit : ℕ → Bool
is_digit c = leb 48 c && leb c 57

-- The digits of a number, after those read already.
unfoldable pub parse_digits : ℕ → Text → Option ℕ
parse_digits acc [] = some acc
parse_digits acc (c ∷ s) =
    let rest = parse_digits (10 * acc + (c - 48)) s in if is_digit c then rest else none

unfoldable pub parse_nat : Text → Option ℕ
unfolding parse_digits
parse_nat [] = none
parse_nat (c ∷ s) = parse_digits 0 (c ∷ s)

-- A number and its sign, in the range of a 64-bit integer.
abbrev pub in_range : Bool → Option ℕ → Option ℤ
in_range negative none = none
in_range false (some n) = if ltb n (2 ^ 63) then some (pos n) else none
in_range true (some zero) = some (pos 0)
in_range true (some (suc n)) = if ltb n (2 ^ 63) then some (negsuc n) else none

-- strconv.Atoi
unfoldable pub atoi : Text → Option ℤ
unfolding parse_nat
atoi [] = none
atoi (c ∷ s) =
    if nat_beq c 45
    then in_range true (parse_nat s)
    else if nat_beq c 43
    then in_range false (parse_nat s)
    else in_range false (parse_nat (c ∷ s))

-- `err != nil || n <= 0`
abbrev pub at_least_one : Option ℤ → Option ℤ
at_least_one none = none
at_least_one (some n) = if is_pos n then some n else none

-- `err != nil || n < 0`
abbrev pub not_negative : Option ℤ → Option ℤ
not_negative none = none
not_negative (some n) = if is_neg n then none else some n

-- `attempt`, 1 where the field is missing or blank
unfoldable pub parse_attempt : Text → Option ℤ
unfolding atoi
parse_attempt text = if is_blank text then some (pos 1) else at_least_one (atoi (trim_space text))

-- `max_deliver`
unfoldable pub parse_max_deliver : Text → Option ℤ
unfolding atoi
parse_max_deliver text = not_negative (atoi (trim_space text))

-- `headers`, an empty map where the field is missing or blank
unfoldable pub parse_headers : Codec → Text → Option (GoMap Text Text)
parse_headers codec text =
    if is_blank text then some [] else codec.unmarshal_headers (trim_space text)

-- `if err != nil { return nil, ErrInvalidMessage }`
infixl 5 ◌>>=◌
unfoldable pub ◌>>=◌ {ℓ κ} : {A : Type ℓ} {B : Type κ} → Option A → (A → Option B) → Option B
none >>= f = none
some a >>= f = f a

-- The delivery of an entry whose fields are read.
abbrev pub delivery_of : Text → Text → Text → Entry → ℤ → ℤ → Time → GoMap Text Text → Delivery
delivery_of topic group consumer entry max_deliver attempt published_at headers = record {
  id = entry.id;
  topic = topic;
  group = group;
  consumer = consumer;
  attempt = attempt;
  published_at = published_at;
  message = record {
    key = field (codes "key") entry.values;
    message_type = field (codes "type") entry.values;
    data_bytes = field (codes "data") entry.values;
    headers = headers;
    max_deliver = max_deliver;
    scheduled_at = 0;
  };
  raw = entry.values;
}

-- decodeEntry; none is ErrInvalidMessage.
unfoldable pub decode_entry : Codec → Text → Text → Text → Entry → Option Delivery
unfolding field parse_max_deliver parse_attempt parse_headers ◌>>=◌
decode_entry codec topic group consumer entry = if is_nil entry.id then none else do
  max_deliver ← parse_max_deliver (field (codes "max_deliver") entry.values)
  attempt ← parse_attempt (field (codes "attempt") entry.values)
  published_at ← codec.parse_time (trim_space (field (codes "published_at") entry.values))
  headers ← parse_headers codec (field (codes "headers") entry.values)
  some (delivery_of topic group consumer entry max_deliver attempt published_at headers)
