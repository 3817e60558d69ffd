-- ===== src/Micro/Selector/Stability.antt =====
-- transport/micro/selector.go: a user keeps its node while that node is there.
use wego.Prelude.{
  subst, ◌≡◌, refl, ap, ◌∙◌, sym, ◌≤◌, ◌<◌, none, some, List, [], ◌∷◌, ◌++◌, ◌⊎◌, inl, inr, Text,
  All, arith, some_injective,
}
use wego.Micro.Selector.{Node, score, hrw_pick}
use wego.Micro.Selector.Best.{IsFirstBest, hrw_pick-IsFirstBest}

-- A place of a node in a list.
abbrev pub In : Node → List Node → Type 0
In n [] = ⊥
In n (m ∷ nodes) = (n ≡ m) ⊎ In n nodes

In-middle : (before after : List Node) (n : Node) → In n (before ++ n ∷ after)
In-middle [] after n = inl refl
In-middle (m ∷ before) after n = inr (In-middle before after n)

le_after :
    (key : Text) (after : List Node) (n m : Node)
    → All (λ x. score key x ≤ score key n) after
    → In m after
    → score key m ≤ score key n
le_after key [] n m upper i = absurd i
le_after key (a ∷ after) n m (p, upper) (inl e) = omega (arith, p, ap (λ x. score key x) e)
le_after key (a ∷ after) n m (p, upper) (inr i) = le_after key after n m upper i

-- Every node scores at most as much as the best.
le_best :
    (key : Text) (before after : List Node) (n m : Node)
    → All (λ x. score key x < score key n) before
    → All (λ x. score key x ≤ score key n) after
    → In m (before ++ n ∷ after)
    → score key m ≤ score key n
le_best key [] after n m lower upper (inl e) = omega (arith, ap (λ x. score key x) e)
le_best key [] after n m lower upper (inr i) = le_after key after n m upper i
le_best key (b ∷ before) after n m (p, lower) upper (inl e) =
    omega (arith, p, ap (λ x. score key x) e)
le_best key (b ∷ before) after n m (p, lower) upper (inr i) =
    le_best key before after n m lower upper i

-- What a pick says: the node is one of the nodes and has the highest score.
pub record IsBest (key : Text) (nodes : List Node) (n : Node) : Type 0 where
  pub is_in : In n nodes
  pub highest : (m : Node) → In m nodes → score key m ≤ score key n

IsFirstBest-IsBest :
    (key : Text) (nodes : List Node) (n : Node) → IsFirstBest key nodes n → IsBest key nodes n
IsFirstBest-IsBest key nodes n b =
    subst (λ l. IsBest key l n) (sym b.splits)
      (record {
        is_in = In-middle b.before b.after n;
        highest = λ m i. le_best key b.before b.after n m b.lower b.upper i;
      })

pub hrw_pick-IsBest :
    (key : Text) (nodes : List Node) (n : Node) → hrw_pick key nodes ≡ some n → IsBest key nodes n
hrw_pick-IsBest key nodes n h = by_pick (hrw_pick-IsFirstBest key nodes)
  where
    by_pick :
        (nodes ≡ []) × (hrw_pick key nodes ≡ none)
          ⊎ (m : Node) × (hrw_pick key nodes ≡ some m) × IsFirstBest key nodes m
        → IsBest key nodes n
    by_pick (inl (e, f)) = ground (arith, f, h)
    by_pick (inr (m, f, b)) =
        subst (λ x. IsBest key nodes x) (some_injective m n (sym f ∙ h))
          (IsFirstBest-IsBest key nodes m b)

-- No two of the nodes score the same for the key.
abbrev pub Separates : Text → List Node → Type 0
Separates key nodes = (a b : Node) → In a nodes → In b nodes → score key a ≡ score key b → a ≡ b

-- A key whose scores tell the nodes apart keeps its node when nodes come and go: if the node that is
-- picked from some nodes is among others, all of which are among the first, it is picked
-- from those too, in whatever order they stand. So a change of the order, or the loss of
-- any other node, moves no user.
pub hrw_pick-keeps :
    (key : Text) (nodes others : List Node) (n : Node)
    → Separates key nodes
    → hrw_pick key nodes ≡ some n
    → In n others
    → ((m : Node) → In m others → In m nodes)
    → hrw_pick key others ≡ some n
hrw_pick-keeps key nodes others n apart h here fewer = by_pick (hrw_pick-IsFirstBest key others)
  where
    first : IsBest key nodes n
    first = hrw_pick-IsBest key nodes n h

    by_pick :
        (others ≡ []) × (hrw_pick key others ≡ none)
          ⊎ (m : Node) × (hrw_pick key others ≡ some m) × IsFirstBest key others m
        → hrw_pick key others ≡ some n
    by_pick (inl (e, f)) = absurd (subst (λ l. In n l) e here)
    by_pick (inr (m, f, b)) =
        let second = IsFirstBest-IsBest key others m b in
        let inside = fewer m second.is_in in
        f
        ∙ ap (λ x. some x)
            (apart m n inside first.is_in
              (omega (arith, first.highest m inside, second.highest n here)))
