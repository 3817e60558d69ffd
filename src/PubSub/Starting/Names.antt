-- ===== src/PubSub/Starting/Names.antt =====
-- pubsub/service.go, Start: the names of a subscription's workers.
use wego.Prelude.{
  ltb_ℤ, length, ◌≡◌, ◌≢◌, pos_part, some_injective, All, ℕ, zero, suc, ◌+◌, ◌^◌, ◌<◌, refl, ap,
  ◌∙◌, sym, Bool, true, false, List, [], ◌∷◌, ◌++◌, Text, codes, ℤ, pos, if◌then◌else◌, arith,
}
use wego.PubSub.Decoding.{atoi}
use wego.PubSub.Publishing.{itoa}
use wego.PubSub.Numbers.{atoi-itoa}
use wego.PubSub.Starting.{worker_name, worker_names, names_from}

-- No element stands twice.
abbrev pub Distinct : List Text → Type 0
Distinct [] = Unit
Distinct (x ∷ xs) = All (λ y. x ≢ y) xs × Distinct xs

abbrev tail_of : Text → Text
tail_of [] = []
tail_of (c ∷ s) = s

append-cancel : (s x y : Text) → s ++ x ≡ s ++ y → x ≡ y
append-cancel [] x y h = h
append-cancel (c ∷ s) x y h = append-cancel s x y (ap tail_of h)

itoa-injective : (i j : ℕ) → i < 2 ^ 63 → j < 2 ^ 63 → itoa (pos i) ≡ itoa (pos j) → i ≡ j
itoa-injective i j hi hj h =
    ap pos_part (some_injective (pos i) (pos j) (sym (atoi-itoa i hi) ∙ ap atoi h ∙ atoi-itoa j hj))

module _ (consumer : Text) (n : ℕ) where
  abbrev named : ℕ → Text
  named i = worker_name consumer (pos (suc (suc n))) i

  named_with_index : (i : ℕ) → named i ≡ consumer ++ codes "-" ++ itoa (pos (i + 1))
  unfolding worker_name
  named_with_index i = numbered (ltb_ℤ (pos 1) (pos (suc (suc n)))) (ground arith)
    where
      numbered :
          (b : Bool)
          → b ≡ true
          → (if b then consumer ++ codes "-" ++ itoa (pos (i + 1)) else consumer)
            ≡ consumer ++ codes "-" ++ itoa (pos (i + 1))
      numbered true h = refl
      numbered false h = cc

  named-injective : (i j : ℕ) → i + 1 < 2 ^ 63 → j + 1 < 2 ^ 63 → named i ≡ named j → i ≡ j
  named-injective i j hi hj h = omega (
    arith,
    itoa-injective (i + 1) (j + 1) hi hj (
        append-cancel (consumer ++ codes "-") (itoa (pos (i + 1))) (itoa (pos (j + 1)))
          (sym (named_with_index i) ∙ h ∙ named_with_index j)),
  )

  names_from-later :
      (i j count : ℕ)
      → i < j
      → j + count < 2 ^ 63
      → All (λ y. named i ≢ y) (names_from consumer (pos (suc (suc n))) j count)
  names_from-later i j zero h k = tt
  names_from-later i j (suc count) h k = (
    (λ e. omega (arith, h, named-injective i j (omega (arith, h, k)) (omega (arith, k)) e)),
    names_from-later i (j + 1) count (omega (arith, h)) (omega (arith, k)),
  )

  names_from-Distinct :
      (i count : ℕ)
      → i + count < 2 ^ 63
      → Distinct (names_from consumer (pos (suc (suc n))) i count)
  names_from-Distinct i zero k = tt
  names_from-Distinct i (suc count) k = (
    names_from-later i (i + 1) count (omega arith) (omega (arith, k)),
    names_from-Distinct (i + 1) count (omega (arith, k)),
  )

-- The workers of a subscription, of which there are as many as its concurrency, have different
-- consumer names.
pub worker_names-Distinct :
    (consumer : Text) (n : ℕ)
    → n < 2 ^ 63
    → Distinct (worker_names consumer (pos n)) × (length (worker_names consumer (pos n)) ≡ n)
unfolding worker_names
worker_names-Distinct consumer n h = (distinct n h, counted (pos n) 0 n)
  where
    distinct : (n : ℕ) → n < 2 ^ 63 → Distinct (names_from consumer (pos n) 0 n)
    distinct zero h = tt
    distinct (suc zero) h = (tt, tt)
    distinct (suc (suc n)) h = names_from-Distinct consumer n 0 (suc (suc n)) (omega (arith, h))

    counted : (c : ℤ) (i count : ℕ) → length (names_from consumer c i count) ≡ count
    counted c i zero = refl
    counted c i (suc count) = omega (arith, counted c (i + 1) count)
