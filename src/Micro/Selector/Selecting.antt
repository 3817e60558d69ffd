-- ===== src/Micro/Selector/Selecting.antt =====
-- transport/micro/selector.go, Select: which node or strategy a call gets.
use wego.Prelude.{
  ◌≡◌, refl, none, some, List, [], ◌∷◌, ◌⊎◌, inl, inr, Text, GoMap, true, false, Bool,
}
use wego.Action.{Result, ok, err}
use wego.Micro.Selector.{
  Node, Service, SelectError, CacheError, Next, not_found, none_available, registry_error, missing,
  other, sticky, by_strategy, hrw_pick, user_of, apply_filters, all_nodes, pick_or_strategy,
  select_filtered, select,
}
use wego.Micro.Selector.Best.{hrw_pick-IsFirstBest, IsFirstBest}
use wego.Micro.Selector.Stability.{IsBest, hrw_pick-IsBest}

abbrev pub has_user : Text → Bool
has_user [] = false
has_user (c ∷ s) = true

abbrev pub has_node : List Node → Bool
has_node [] = false
has_node (n ∷ nodes) = true

-- What Select may return for the services that the filters leave.
pub data Selected (services : List Service) (md : GoMap Text Text) (r : Result SelectError Next)
    : Type 0 where
  nothing_left : services ≡ [] → r ≡ err none_available → Selected services md r
  -- No user, or no node: the strategy chooses.
  fallback :
      (has_user (user_of md) ≡ false) ⊎ (has_node (all_nodes services) ≡ false)
      → r ≡ ok (by_strategy services)
      → Selected services md r
  picked :
      (n : Node)
      → has_user (user_of md) ≡ true
      → IsBest (user_of md) (all_nodes services) n
      → r ≡ ok (sticky n)
      → Selected services md r

-- A user and at least one node: the pick.
pick-sticky :
    (key : Text) (nodes : List Node) (services : List Service)
    → has_user key ≡ true
    → has_node nodes ≡ true
    → (n : Node) × IsBest key nodes n × (pick_or_strategy key nodes services ≡ ok (sticky n))
pick-sticky [] nodes services h k = cc
pick-sticky (c ∷ s) [] services h k = cc
pick-sticky (c ∷ s) (m ∷ nodes) services h k = by_pick (hrw_pick-IsFirstBest (c ∷ s) (m ∷ nodes))
  where
    by_pick :
        (m ∷ nodes ≡ []) × (hrw_pick (c ∷ s) (m ∷ nodes) ≡ none)
          ⊎ (n : Node) × (hrw_pick (c ∷ s) (m ∷ nodes) ≡ some n) × IsFirstBest (c ∷ s) (m ∷ nodes) n
        → (n : Node) × IsBest (c ∷ s) (m ∷ nodes) n
          × (pick_or_strategy (c ∷ s) (m ∷ nodes) services ≡ ok (sticky n))
    by_pick (inl (e, f)) = cc
    by_pick (inr (n, f, b)) = (n, hrw_pick-IsBest (c ∷ s) (m ∷ nodes) n f, rw f refl)

no_user :
    (key : Text) (nodes : List Node) (services : List Service)
    → has_user key ≡ false
    → pick_or_strategy key nodes services ≡ ok (by_strategy services)
no_user [] nodes services h = refl
no_user (c ∷ s) nodes services h = cc

no_node :
    (key : Text) (nodes : List Node) (services : List Service)
    → has_node nodes ≡ false
    → pick_or_strategy key nodes services ≡ ok (by_strategy services)
no_node [] nodes services h = refl
no_node (c ∷ s) [] services h = refl
no_node (c ∷ s) (n ∷ nodes) services h = cc

select_filtered-Selected :
    (services : List Service) (md : GoMap Text Text)
    → Selected services md (select_filtered md services)
select_filtered-Selected [] md = nothing_left refl refl
select_filtered-Selected (s ∷ services) md =
    by_tests (has_user (user_of md)) (has_node (all_nodes (s ∷ services))) refl refl
  where
    by_tests :
        (a b : Bool)
        → has_user (user_of md) ≡ a
        → has_node (all_nodes (s ∷ services)) ≡ b
        → Selected (s ∷ services) md (select_filtered md (s ∷ services))
    by_tests false b e f = fallback (inl e) (no_user (user_of md) _ _ e)
    by_tests true false e f = fallback (inr f) (no_node (user_of md) _ _ f)
    by_tests true true e f =
        let p = pick-sticky (user_of md) (all_nodes (s ∷ services)) (s ∷ services) e f in
        picked (p.0) e (p.1) (p.2)

-- Select returns the registry's error if there is one. Otherwise, of the services that the filters
-- leave, it returns a `Next` that always yields a node with the highest score for the user of the
-- call, if the call has a user and the services a node; else the choice of the strategy, or the
-- error that none is available if no service is left.
pub select-Selected :
    (found : Result CacheError (List Service)) (filters : List (List Service → List Service))
    (md : GoMap Text Text)
    → ((found ≡ err missing) × (select found filters md ≡ err not_found))
      ⊎ ((e : Text) × (found ≡ err (other e)) × (select found filters md ≡ err (registry_error e)))
      ⊎ ((services : List Service) × (found ≡ ok services)
          × Selected (apply_filters filters services) md (select found filters md))
unfolding select
select-Selected (err missing) filters md = inl (refl, refl)
select-Selected (err (other e)) filters md = inr (inl (e, refl, refl))
select-Selected (ok services) filters md =
    inr (inr (services, refl, select_filtered-Selected (apply_filters filters services) md))
