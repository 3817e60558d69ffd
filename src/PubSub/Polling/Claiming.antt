-- ===== src/PubSub/Polling/Claiming.antt =====
-- pubsub/store.go, AutoClaim: the attempt of an entry that is claimed.
use wego.Prelude.{
  text_beq, ◌≡◌, GoMap, insert, lookup, lookup-insert, text_key, trim_space, some_injective, ℕ, ◌^◌,
  ◌<◌, refl, ap, ◌∙◌, Bool, true, false, Option, none, some, List, ◌∷◌, Text, codes, ltb, ℤ, pos,
  if◌then◌else◌, arith,
}
use wego.Action.{ok}
use wego.Reminder.Model.{Time}
use wego.PubSub.{Delivery, Entry}
use wego.PubSub.Decoding.{
  Codec, decode_entry, or_empty, field, delivery_of, ◌>>=◌, parse_attempt, parse_max_deliver,
  parse_headers, is_nil,
}
use wego.PubSub.Publishing.{itoa}
use wego.PubSub.Publishing.RoundTrip.{parse_attempt-itoa}
use wego.PubSub.Polling.{with_attempt}

-- Another field does not change.
field_of_other :
    (name value : Text) (values : GoMap Text Text)
    → text_beq (codes "attempt") name ≡ false
    → field name (insert (codes "attempt") value values) ≡ field name values
unfolding field
field_of_other name value values other =
    ap or_empty (lookup-insert (codes "attempt") name value values)
    ∙ kept (text_beq (codes "attempt") name) other
  where
    kept :
        (b : Bool)
        → b ≡ false
        → or_empty (if b then some value else lookup name values) ≡ or_empty (lookup name values)
    kept true h = cc
    kept false h = refl

field_of_attempt :
    (value : Text) (values : GoMap Text Text)
    → field (codes "attempt") (insert (codes "attempt") value values) ≡ value
unfolding field
field_of_attempt value values =
    ap or_empty (lookup-insert (codes "attempt") (codes "attempt") value values)

-- Another attempt leads to the same delivery with that attempt.
redecoded :
    (limit tries later : Option ℤ) (time : Option Time) (headers : Option (GoMap Text Text))
    (f g : ℤ → ℤ → Time → GoMap Text Text → Delivery) (x : ℤ) (d : Delivery)
    (h : Delivery → Delivery)
    → ((n a : ℤ) (t : Time) (hs : GoMap Text Text) → g n x t hs ≡ h (f n a t hs))
    → (limit >>= λ n. tries >>= λ a. time >>= λ t. headers >>= λ hs. some (f n a t hs)) ≡ some d
    → later ≡ some x
    → (limit >>= λ n. later >>= λ a. time >>= λ t. headers >>= λ hs. some (g n a t hs)) ≡ some (h d)
unfolding ◌>>=◌
redecoded none tries later time headers f g x d h same e l = cc
redecoded (some n) none later time headers f g x d h same e l = cc
redecoded (some n) (some a) later none headers f g x d h same e l = cc
redecoded (some n) (some a) later (some t) none f g x d h same e l = cc
redecoded (some n) (some a) later (some t) (some hs) f g x d h same e l =
    rw l (ap some (same n a t hs ∙ ap h (some_injective (f n a t hs) d e)))

with_attempt_of_pos :
    (n : ℕ) (ns : List ℕ) (entry : Entry)
    → 0 < n
    → with_attempt (ok (n ∷ ns)) entry
      ≡ record entry { values = insert (codes "attempt") (itoa (pos n)) entry.values }
unfolding with_attempt
with_attempt_of_pos n ns entry positive = counted (ltb 0 n) (ground (arith, positive))
  where
    counted :
        (b : Bool)
        → b ≡ true
        → (if b
            then record entry { values = insert (codes "attempt") (itoa (pos n)) entry.values }
            else entry)
          ≡ record entry { values = insert (codes "attempt") (itoa (pos n)) entry.values }
    counted true h = refl
    counted false h = cc

-- An entry that AutoClaim gets, and of which Redis has counted n deliveries, is decoded to the
-- delivery that it would be decoded to otherwise, except that its attempt is n, whatever attempt
-- the entry was written with.
pub decode_entry-with_attempt :
    (codec : Codec) (topic group consumer : Text) (entry : Entry) (d : Delivery) (n : ℕ)
    (ns : List ℕ)
    → 0 < n
    → n < 2 ^ 63
    → decode_entry codec topic group consumer entry ≡ some d
    → decode_entry codec topic group consumer (with_attempt (ok (n ∷ ns)) entry)
      ≡ some
          (record d { attempt = pos n; raw = insert (codes "attempt") (itoa (pos n)) entry.values })
unfolding decode_entry
decode_entry-with_attempt codec topic group consumer entry d n ns positive small decoded =
    ap (decode_entry codec topic group consumer) (with_attempt_of_pos n ns entry positive)
    ∙ by_id (is_nil entry.id) decoded
  where
    values : GoMap Text Text
    values = insert (codes "attempt") (itoa (pos n)) entry.values

    claimed : Entry
    claimed = record entry { values = values }

    other :
        (name : Text)
        → text_beq (codes "attempt") name ≡ false
        → field name values ≡ field name entry.values
    other name = field_of_other name (itoa (pos n)) entry.values

    fields_of : GoMap Text Text → (ℤ → ℤ → Time → GoMap Text Text → Delivery) → Option Delivery
    fields_of vs f = parse_max_deliver (field (codes "max_deliver") vs) >>= λ m.
        parse_attempt (field (codes "attempt") vs) >>= λ a.
        codec.parse_time (trim_space (field (codes "published_at") vs)) >>= λ t.
        parse_headers codec (field (codes "headers") vs) >>= λ hs. some (f m a t hs)

    delivery_from_claimed :
        (m a : ℤ) (t : Time) (hs : GoMap Text Text)
        → delivery_of topic group consumer claimed m (pos n) t hs
          ≡ record (delivery_of topic group consumer entry m a t hs) {
            attempt = pos n;
            raw = values;
          }
    delivery_from_claimed m a t hs =
        rw (other (codes "key") refl, other (codes "type") refl, other (codes "data") refl) refl

    by_id :
        (c : Bool)
        → (if c then none else fields_of entry.values (delivery_of topic group consumer entry))
          ≡ some d
        → (if c then none else fields_of values (delivery_of topic group consumer claimed))
          ≡ some (record d { attempt = pos n; raw = values })
    by_id true e = cc
    by_id false e =
        rw
          (
            other (codes "max_deliver") refl,
            other (codes "published_at") refl,
            other (codes "headers") refl,
          )
          (redecoded _ _ _ _ _ _ _ (pos n) d (λ x. record x { attempt = pos n; raw = values })
            delivery_from_claimed e
            (ap parse_attempt (field_of_attempt (itoa (pos n)) entry.values)
              ∙ parse_attempt-itoa n positive small))
