-- ===== src/PubSub/Numbers.antt =====
-- pubsub/message.go: the decimal numbers of a stream's fields, strconv.Itoa and strconv.Atoi with
-- strings.TrimSpace between them.
use wego.Prelude.{
  All, ℕ, zero, suc, ◌+◌, ◌/◌, ◌%◌, ◌^◌, ◌≤◌, ◌<◌, ◌≡◌, refl, ap, ◌∙◌, Bool, true, false, some, [],
  ◌∷◌, Text, is_empty, is_space, trim_left, trim_right, trim_space, ltb, pos, if◌then◌else◌, arith,
}
use wego.PubSub.Decoding.{atoi, parse_nat, parse_digits, in_range}
use wego.PubSub.Publishing.{digits, itoa, parse_digits-digits}

abbrev Digit : ℕ → Type 0
Digit c = (48 ≤ c) × (c ≤ 57)

digits-Digit : (fuel n : ℕ) (s : Text) → All Digit s → All Digit (digits fuel n s)
unfolding digits
digits-Digit zero n s h = h
digits-Digit (suc fuel) n s h =
    by_size (ltb n 10) refl (digits-Digit fuel (n / 10) _ ((omega arith, omega arith), h))
  where
    by_size :
        (b : Bool)
        → ltb n 10 ≡ b
        → All Digit (digits fuel (n / 10) ((48 + n % 10) ∷ s))
        → All Digit (if b then (48 + n) ∷ s else digits fuel (n / 10) ((48 + n % 10) ∷ s))
    by_size true e rest = ((omega arith, ground arith), h)
    by_size false e rest = rest

digits-is_empty : (fuel n c : ℕ) (s : Text) → is_empty (digits fuel n (c ∷ s)) ≡ false
unfolding digits
digits-is_empty zero n c s = refl
digits-is_empty (suc fuel) n c s =
    ground (arith, digits-is_empty fuel (n / 10) (48 + n % 10) (c ∷ s))

Digit-is_space : (c : ℕ) → Digit c → is_space c ≡ false
unfolding is_space
Digit-is_space c h = ground arith

trim_right_of_Digit : (s : Text) → All Digit s → trim_right s ≡ s
unfolding trim_right
trim_right_of_Digit [] h = refl
trim_right_of_Digit (c ∷ s) (d, h) = rw (Digit-is_space c d, trim_right_of_Digit s h) refl

trim_space_of_Digit : (s : Text) → All Digit s → trim_space s ≡ s
unfolding trim_space trim_left
trim_space_of_Digit [] h = trim_right_of_Digit [] h
trim_space_of_Digit (c ∷ s) (d, h) = rw (Digit-is_space c d) (trim_right_of_Digit (c ∷ s) (d, h))

-- A text of digits has no sign.
atoi_of_Digit :
    (s : Text) → All Digit s → is_empty s ≡ false → atoi s ≡ in_range false (parse_digits 0 s)
unfolding atoi parse_nat
atoi_of_Digit [] h e = cc
atoi_of_Digit (c ∷ s) (d, h) e = ground arith

module _ (n : ℕ) (small : n < 2 ^ 63) where
  itoa-Digit : All Digit (itoa (pos n))
  unfolding itoa
  itoa-Digit = digits-Digit 19 n [] tt

  pub itoa-is_empty : is_empty (itoa (pos n)) ≡ false
  unfolding itoa digits
  itoa-is_empty = ground (arith, digits-is_empty 18 (n / 10) (48 + n % 10) [])

  pub trim_space-itoa : trim_space (itoa (pos n)) ≡ itoa (pos n)
  trim_space-itoa = trim_space_of_Digit (itoa (pos n)) itoa-Digit

  -- A natural number of 64 bits that strconv.Itoa writes and strconv.Atoi reads is the same number.
  pub atoi-itoa : atoi (itoa (pos n)) ≡ some (pos n)
  unfolding itoa parse_digits
  atoi-itoa =
      atoi_of_Digit (itoa (pos n)) itoa-Digit itoa-is_empty
      ∙ ap (in_range false) (parse_digits-digits 19 n [] (omega (arith, small)))
      ∙ ground (arith, small)
