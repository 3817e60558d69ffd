-- ===== src/Micro/Selector/Best.antt =====
-- transport/micro/selector.go, hrwPick: the node is the first of those with the highest score.
use wego.Prelude.{
  ◌⊎◌, subst, append_nil, ◌≡◌, refl, ap, ◌∙◌, sym, ◌≤◌, ◌<◌, Bool, true, false, Option, none, some,
  List, [], ◌∷◌, ◌++◌, Text, All, append_assoc, ltb, if◌then◌else◌, arith, inl, inr,
}
use wego.Micro.Selector.{Node, score, pick_loop, hrw_pick}

-- `n` is the first of the nodes with the highest score.
pub record IsFirstBest (key : Text) (nodes : List Node) (n : Node) : Type 0 where
  pub before : List Node
  pub after : List Node
  pub splits : nodes ≡ before ++ n ∷ after
  pub lower : All (λ m. score key m < score key n) before
  pub upper : All (λ m. score key m ≤ score key n) after

All-append : {A : Type 0} (P : A → Type 0) (xs ys : List A) → All P xs → All P ys → All P (xs ++ ys)
All-append P [] ys h k = k
All-append P (x ∷ xs) ys (p, h) k = (p, All-append P xs ys h k)

-- The node picked, with the claim that it is the first best.
record Picks (key : Text) (nodes : List Node) (picked : Option Node) : Type 0 where
  node : Node
  is_node : picked ≡ some node
  best : IsFirstBest key nodes node

All-lower :
    (key : Text) (b m : Node) (xs : List Node)
    → score key b < score key m
    → All (λ x. score key x ≤ score key b) xs
    → All (λ x. score key x < score key m) xs
All-lower key b m [] lt h = tt
All-lower key b m (x ∷ xs) lt (p, h) = (omega (arith, lt, p), All-lower key b m xs lt h)

All-lower_lt :
    (key : Text) (b m : Node) (xs : List Node)
    → score key b < score key m
    → All (λ x. score key x < score key b) xs
    → All (λ x. score key x < score key m) xs
All-lower_lt key b m [] lt h = tt
All-lower_lt key b m (x ∷ xs) lt (p, h) = (omega (arith, lt, p), All-lower_lt key b m xs lt h)

-- The loop, with what it has seen: `b` is the best of `pre ++ b ∷ mid`.
pick_loop-Picks :
    (key : Text) (b : Node) (pre mid nodes : List Node)
    → All (λ m. score key m < score key b) pre
    → All (λ m. score key m ≤ score key b) mid
    → Picks key ((pre ++ b ∷ mid) ++ nodes) (pick_loop key (some b) (score key b) nodes)
unfolding pick_loop
pick_loop-Picks key b pre mid [] lower upper = record {
  node = b;
  is_node = refl;
  best = record {
    before = pre;
    after = mid;
    splits = append_nil (pre ++ b ∷ mid);
    lower = lower;
    upper = upper;
  };
}
pick_loop-Picks key b pre mid (m ∷ nodes) lower upper =
    by_test (ltb (score key b) (score key m)) refl
      (λ gt.
        subst (λ l. Picks key l (pick_loop key (some m) (score key m) nodes))
          (append_assoc seen (m ∷ []) nodes) (pick_loop-Picks key m seen [] nodes (All-seen gt) tt))
      (λ le.
        subst (λ l. Picks key l (pick_loop key (some b) (score key b) nodes)) (moved le)
          (pick_loop-Picks key b pre (mid ++ m ∷ []) nodes lower
            (All-append _ mid (m ∷ []) upper (le, tt))))
  where
    seen : List Node
    seen = pre ++ b ∷ mid

    All-seen : score key b < score key m → All (λ x. score key x < score key m) seen
    All-seen gt =
        All-append _ pre (b ∷ mid) (All-lower_lt key b m pre gt lower)
          (gt, All-lower key b m mid gt upper)

    moved : score key m ≤ score key b → (pre ++ b ∷ (mid ++ m ∷ [])) ++ nodes ≡ seen ++ m ∷ nodes
    moved le =
        ap (λ l. l ++ nodes) (sym (append_assoc pre (b ∷ mid) (m ∷ [])))
        ∙ append_assoc seen (m ∷ []) nodes

    by_test :
        (t : Bool)
        → ltb (score key b) (score key m) ≡ t
        → (score key b < score key m
            → Picks key (seen ++ m ∷ nodes) (pick_loop key (some m) (score key m) nodes))
        → (score key m ≤ score key b
            → Picks key (seen ++ m ∷ nodes) (pick_loop key (some b) (score key b) nodes))
        → Picks key (seen ++ m ∷ nodes) (
            if t
            then pick_loop key (some m) (score key m) nodes
            else pick_loop key (some b) (score key b) nodes)
    by_test true e better worse = better (ground arith)
    by_test false e better worse = worse (ground arith)

-- hrwPick returns no node exactly if there is none, and otherwise the first of the nodes with the
-- highest score for the key: the nodes before it score less, and those after it not more.
pub hrw_pick-IsFirstBest :
    (key : Text) (nodes : List Node)
    → (nodes ≡ []) × (hrw_pick key nodes ≡ none)
      ⊎ (n : Node) × (hrw_pick key nodes ≡ some n) × IsFirstBest key nodes n
unfolding hrw_pick pick_loop
hrw_pick-IsFirstBest key [] = inl (refl, refl)
hrw_pick-IsFirstBest key (n ∷ nodes) =
    let p = pick_loop-Picks key n [] [] nodes tt tt in inr (p.node, p.is_node, p.best)
