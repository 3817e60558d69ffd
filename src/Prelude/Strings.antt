-- ===== src/Prelude/Strings.antt =====
-- Go's strings as lists of code points, with `strings.TrimSpace` and `strings.ToLower`. The white
-- space is Unicode's; the table of lower-case letters is the argument `Unicode`.
use Prim.Native.Nat.{ℕ}
use Prim.Native.Char.{code}
use Prim.Native.String.{String}
use mathlib.Core.Path.{◌≡◌, refl}
use mathlib.Core.Bool.{Bool, true, false, ◌&&◌, ◌||◌}
use mathlib.Core.Logic.{◌↔◌}
use mathlib.Core.List.{List, [], ◌∷◌}
use native.Mathlib.Omega.{arith}
use wego.Prelude.Tests.{leb, nat_beq, if◌then◌else◌}
use wego.Prelude.Lists.{is_empty}
use wego.Prelude.Maps.{Key}

abbrev pub Text : Type 0
Text = List ℕ

abbrev pub codes : String → Text
codes String.[] = []
codes (String.◌∷◌ c s) = code c ∷ codes s

abbrev pub text_beq : Text → Text → Bool
text_beq [] [] = true
text_beq (a ∷ s) (b ∷ t) = let rest = text_beq s t in if nat_beq a b then rest else false
text_beq _ _ = false

pub text_beq_iff : (s t : Text) → (text_beq s t ≡ true) ↔ (s ≡ t)
text_beq_iff [] [] = ground arith
text_beq_iff [] (b ∷ t) = ground arith
text_beq_iff (a ∷ s) [] = ground arith
text_beq_iff (a ∷ s) (b ∷ t) = ground (arith, text_beq_iff s t)

pub text_beq_refl : (s : Text) → text_beq s s ≡ true
text_beq_refl s = (text_beq_iff s s).1 refl

pub text_beq_sound : (s t : Text) → text_beq s t ≡ true → s ≡ t
text_beq_sound s t h = (text_beq_iff s t).0 h

instance abbrev pub text_key : Key Text
text_key = record { same = text_beq; same_refl = text_beq_refl; same_sound = text_beq_sound }

-- unicode.IsSpace
unfoldable pub is_space : ℕ → Bool
is_space c =
    leb 9 c && leb c 13
    || nat_beq c 32
    || nat_beq c 0x85
    || nat_beq c 0xa0
    || nat_beq c 0x1680
    || leb 0x2000 c && leb c 0x200a
    || nat_beq c 0x2028
    || nat_beq c 0x2029
    || nat_beq c 0x202f
    || nat_beq c 0x205f
    || nat_beq c 0x3000

unfoldable pub trim_left : Text → Text
trim_left [] = []
trim_left (c ∷ s) = let rest = trim_left s in if is_space c then rest else c ∷ s

unfoldable pub trim_right : Text → Text
trim_right [] = []
trim_right (c ∷ s) = let rest = trim_right s in if is_space c && is_empty rest then [] else c ∷ rest

-- strings.TrimSpace
unfoldable pub trim_space : Text → Text
unfolding trim_left trim_right
trim_space s = trim_right (trim_left s)

-- strings.TrimSpace(s) == ""
abbrev pub is_blank : Text → Bool
is_blank s = is_empty (trim_space s)

trim_right-trim_right : (s : Text) → trim_right (trim_right s) ≡ trim_right s
unfolding trim_right
trim_right-trim_right [] = refl
trim_right-trim_right (c ∷ s) = ground (arith, trim_right-trim_right s)

-- A text that does not begin with white space.
abbrev NoLead : Text → Type 0
NoLead [] = Unit
NoLead (c ∷ _) = is_space c ≡ false

trim_left-NoLead : (s : Text) → NoLead (trim_left s)
unfolding trim_left
trim_left-NoLead [] = tt
trim_left-NoLead (c ∷ s) = ground (arith, trim_left-NoLead s)

trim_right-NoLead : (s : Text) → NoLead s → NoLead (trim_right s)
unfolding trim_right
trim_right-NoLead [] h = tt
trim_right-NoLead (c ∷ s) h = ground arith

trim_left_of_NoLead : (s : Text) → NoLead s → trim_left s ≡ s
unfolding trim_left
trim_left_of_NoLead [] h = refl
trim_left_of_NoLead (c ∷ s) h = ground arith

pub trim_space-trim_space : (s : Text) → trim_space (trim_space s) ≡ trim_space s
unfolding trim_space
trim_space-trim_space s =
    rw (trim_left_of_NoLead _ (trim_right-NoLead _ (trim_left-NoLead s)))
      (trim_right-trim_right (trim_left s))

-- unicode.ToLower, code point by code point; a letter is not taken to white space, nor back.
pub record Unicode : Type 0 where
  pub lower : ℕ → ℕ
  pub lower-lower : (c : ℕ) → lower (lower c) ≡ lower c
  pub is_space-lower : (c : ℕ) → is_space (lower c) ≡ is_space c

module _ ⦃u : Unicode⦄ where
  -- strings.ToLower
  unfoldable pub to_lower : Text → Text
  to_lower [] = []
  to_lower (c ∷ s) = u.lower c ∷ to_lower s

  pub to_lower-to_lower : (s : Text) → to_lower (to_lower s) ≡ to_lower s
  unfolding to_lower
  to_lower-to_lower [] = refl
  to_lower-to_lower (c ∷ s) = cc (u.lower-lower c, to_lower-to_lower s)

  trim_left-to_lower : (s : Text) → trim_left (to_lower s) ≡ to_lower (trim_left s)
  unfolding trim_left to_lower
  trim_left-to_lower [] = refl
  trim_left-to_lower (c ∷ s) = ground (arith, u.is_space-lower c, trim_left-to_lower s)

  trim_right-to_lower : (s : Text) → trim_right (to_lower s) ≡ to_lower (trim_right s)
  unfolding trim_right to_lower
  trim_right-to_lower [] = refl
  trim_right-to_lower (c ∷ s) = ground (arith, u.is_space-lower c, trim_right-to_lower s)

  pub trim_space-to_lower : (s : Text) → trim_space (to_lower s) ≡ to_lower (trim_space s)
  unfolding trim_space
  trim_space-to_lower s = rw trim_left-to_lower (trim_right-to_lower (trim_left s))
