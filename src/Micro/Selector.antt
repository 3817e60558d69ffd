-- ===== src/Micro/Selector.antt =====
-- transport/micro/selector.go: Select and hrwPick, rendezvous hashing of a user to a node. The
-- registry's cache, the filters and the fallback strategy are go-micro's, and are arguments.
pub mod Best
pub mod Stability
pub mod Selecting
use wego.Prelude.{
  ℕ, Bool, true, false, Option, none, some, List, [], ◌∷◌, ◌++◌, Text, codes, GoMap, lookup,
  text_key, ltb, if◌then◌else◌, ◌||◌,
}
use wego.Action.{Result, ok, err}
use wego.Micro.Hash.{bytes, fnv64a}

-- registry.Node, a pointer, with the field that is read
pub record Node : Type 0 where
  pub handle : ℕ
  pub id : Text

-- registry.Service
pub record Service : Type 0 where
  pub name : Text
  pub nodes : List Node

pub data SelectError : Type 0 where
  not_found none_available : SelectError
  registry_error : Text → SelectError

-- The error of the cache: registry.ErrNotFound, or another.
pub data CacheError : Type 0 where
  missing : CacheError
  other : Text → CacheError

-- The `Next` that Select returns: always this node, or the strategy's of these services.
pub data Next : Type 0 where
  sticky : Node → Next
  by_strategy : List Service → Next

-- score = FNV64a(key + "\\x00" + nodeID)
unfoldable pub score : Text → Node → ℕ
unfolding bytes fnv64a
score key n = fnv64a (bytes key ++ 0 ∷ [] ++ bytes n.id)

abbrev pub is_nil : Option Node → Bool
is_nil none = true
is_nil (some n) = false

-- The loop of `hrwPick`.
unfoldable pub pick_loop : Text → Option Node → ℕ → List Node → Option Node
unfolding score
pick_loop key best best_score [] = best
pick_loop key best best_score (n ∷ nodes) =
    let better = pick_loop key (some n) (score key n) nodes in
    let same = pick_loop key best best_score nodes in
    if is_nil best || ltb best_score (score key n) then better else same

-- hrwPick
unfoldable pub hrw_pick : Text → List Node → Option Node
unfolding pick_loop
hrw_pick key nodes = pick_loop key none 0 nodes

-- firstNonEmpty
unfoldable pub first_non_empty : List Text → Text
first_non_empty [] = []
first_non_empty ([] ∷ vals) = first_non_empty vals
first_non_empty ((c ∷ s) ∷ vals) = c ∷ s

-- md[key], "" where it is missing
abbrev pub metadata_value : Text → GoMap Text Text → Text
metadata_value key md = elim (lookup key md) [ some v ↦ v | none ↦ [] ]

-- The user of a call.
unfoldable pub user_of : GoMap Text Text → Text
unfolding first_non_empty
user_of md = first_non_empty (
    metadata_value (codes "uid") md
    ∷ metadata_value (codes "Uid") md
    ∷ metadata_value (codes "user-id") md
    ∷ metadata_value (codes "x-uid") md
    ∷ [])

-- The filters, in their order.
unfoldable pub apply_filters : List (List Service → List Service) → List Service → List Service
apply_filters [] services = services
apply_filters (filter ∷ filters) services = apply_filters filters (filter services)

-- The nodes of all services.
unfoldable pub all_nodes : List Service → List Node
all_nodes [] = []
all_nodes (s ∷ services) = s.nodes ++ all_nodes services

-- `if chosen == nil`
abbrev pub chosen_or_none : Option Node → Result SelectError Next
chosen_or_none none = err none_available
chosen_or_none (some n) = ok (sticky n)

-- `if key != "" && len(nodes) > 0`
abbrev pub pick_or_strategy : Text → List Node → List Service → Result SelectError Next
pick_or_strategy [] nodes services = ok (by_strategy services)
pick_or_strategy (c ∷ s) [] services = ok (by_strategy services)
pick_or_strategy (c ∷ s) (n ∷ nodes) services = chosen_or_none (hrw_pick (c ∷ s) (n ∷ nodes))

-- `if len(services) == 0`
abbrev pub select_filtered : GoMap Text Text → List Service → Result SelectError Next
select_filtered md [] = err none_available
select_filtered md (s ∷ services) =
    pick_or_strategy (user_of md) (all_nodes (s ∷ services)) (s ∷ services)

-- Select, with the cache's answer for the service and the metadata of the context.
unfoldable pub select :
    Result CacheError (List Service)
    → List (List Service → List Service)
    → GoMap Text Text
    → Result SelectError Next
unfolding hrw_pick user_of apply_filters all_nodes
select (err missing) filters md = err not_found
select (err (other e)) filters md = err (registry_error e)
select (ok services) filters md = select_filtered md (apply_filters filters services)
