-- ===== src/Micro/Examples.antt =====
-- Nodes for a user, and the test vectors of FNV-1a.
use wego.Prelude.{ap, sym, ◌∙◌, arith, ◌≡◌, refl, none, some, List, [], ◌∷◌, codes, inl, inr, ◌⊎◌}
use wego.Micro.Hash.{fnv64a, bytes}
use wego.Micro.Selector.{Node, score, hrw_pick}
use wego.Micro.Selector.Best.{IsFirstBest, hrw_pick-IsFirstBest}
use wego.Micro.Selector.Stability.{In, Separates, hrw_pick-keeps}

hashes_a : fnv64a (bytes (codes "a")) ≡ 0xaf63dc4c8601ec8c
unfolding fnv64a bytes
hashes_a = refl

hashes_foobar : fnv64a (bytes (codes "foobar")) ≡ 0x85944171f73967e8
unfolding fnv64a bytes
hashes_foobar = refl

abbrev one : Node
one = record { handle = 1; id = codes "n1" }

abbrev two : Node
two = record { handle = 2; id = codes "n2" }

abbrev cluster : List Node
cluster = one ∷ two ∷ []

picked_example : hrw_pick (codes "alice") cluster ≡ some two
unfolding hrw_pick
picked_example = refl

differ : score (codes "alice") one ≡ score (codes "alice") two → ⊥
unfolding score
differ h = omega (arith, h)

cluster-Separates : Separates (codes "alice") cluster
cluster-Separates a b (inl e) (inl f) h = e ∙ sym f
cluster-Separates a b (inl e) (inr (inl f)) h =
    absurd
      (differ (ap (λ x. score (codes "alice") x) (sym e) ∙ h ∙ ap (λ x. score (codes "alice") x) f))
cluster-Separates a b (inr (inl e)) (inl f) h = absurd (
    differ
      (ap (λ x. score (codes "alice") x) (sym f) ∙ sym h ∙ ap (λ x. score (codes "alice") x) e))
cluster-Separates a b (inr (inl e)) (inr (inl f)) h = e ∙ sym f
cluster-Separates a b i (inr (inr f)) h = absurd f
cluster-Separates a b (inr (inr e)) j h = absurd e

fewer : (m : Node) → In m (two ∷ []) → In m cluster
fewer m i = inr i

hrw_pick-keeps_example : hrw_pick (codes "alice") (two ∷ []) ≡ some two
hrw_pick-keeps_example =
    hrw_pick-keeps (codes "alice") cluster (two ∷ []) two cluster-Separates picked_example
      (inl refl) fewer

hrw_pick-IsFirstBest_example :
    (cluster ≡ []) × (hrw_pick (codes "bob") cluster ≡ none)
    ⊎ (n : Node) × (hrw_pick (codes "bob") cluster ≡ some n) × IsFirstBest (codes "bob") cluster n
hrw_pick-IsFirstBest_example = hrw_pick-IsFirstBest (codes "bob") cluster
