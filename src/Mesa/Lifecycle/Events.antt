-- ===== src/Mesa/Lifecycle/Events.antt =====
-- mesa.go, the log of the calls that the runtime makes: what stopping a list of items, starting
-- one and closing the clients add to it.
use wego.Prelude.{
  append_assoc, append_nil, sym, ◌∙◌, ap, Bool, true, false, List, [], ◌∷◌, ◌++◌, ◌≡◌, refl,
  if◌then◌else◌, arith,
}
use wego.Mesa.{Behaviour, Mesa, Item, Event, Resource, stop, close, cancel, etcd, redis, postgres}
use wego.Mesa.Lifecycle.{
  component_items, items_to_stop, backwards, server_items, World, background, stop_item, stop_items,
  close_one, close_resources, cancel_runtime, log_event,
}

-- The items that Run starts, in its order.
unfoldable pub items_to_start : Mesa → List Item
items_to_start m = server_items m.servers ++ component_items m.components

backwards-append :
    {A : Type 0} (xs ys : List A) → backwards (xs ++ ys) ≡ backwards ys ++ backwards xs
unfolding backwards
backwards-append [] ys = sym (append_nil (backwards ys))
backwards-append (x ∷ xs) ys =
    ap (λ t. t ++ x ∷ []) (backwards-append xs ys)
    ∙ append_assoc (backwards ys) (backwards xs) (x ∷ [])

-- Shutdown stops the items in the opposite order of their start.
pub items_to_stop-items_to_start : (m : Mesa) → items_to_stop m ≡ backwards (items_to_start m)
unfolding items_to_stop items_to_start
items_to_stop-items_to_start m =
    sym (backwards-append (server_items m.servers) (component_items m.components))

-- What three steps add together.
pub three_steps :
    {A : Type 0} (w0 x y z : List A) {w1 w2 w3 : List A}
    → w1 ≡ w0 ++ x
    → w2 ≡ w1 ++ y
    → w3 ≡ w2 ++ z
    → w3 ≡ w0 ++ (x ++ y ++ z)
three_steps w0 x y z first second third =
    third
    ∙ ap (λ t. t ++ z) (second ∙ ap (λ t. t ++ y) first ∙ append_assoc w0 x y)
    ∙ append_assoc w0 (x ++ y) z

-- The stops of the items that have a method Stop.
unfoldable pub stops_of : (Item → Bool) → List Item → List Event
stops_of is_stopper [] = []
stops_of is_stopper (item ∷ items) =
    let rest = stops_of is_stopper items in if is_stopper item then stop item ∷ rest else rest

stops_of-cons :
    (is_stopper : Item → Bool) (item : Item) (items : List Item)
    → stops_of is_stopper (item ∷ items)
      ≡ stops_of is_stopper (item ∷ []) ++ stops_of is_stopper items
unfolding stops_of
stops_of-cons is_stopper item items = ground arith

module _ {B : Behaviour} where
  -- What one turn adds, which leaves the runtime's own state alone.
  stop_item-events :
      (item : Item) (w : World B)
      → ((stop_item item w).1.events ≡ w.events ++ stops_of B.is_stopper (item ∷ []))
        × ((stop_item item w).1.mesa ≡ w.mesa)
  unfolding stop_item stops_of
  stop_item-events item w = by_kind (B.is_stopper item) refl
    where
      by_kind :
          (b : Bool)
          → B.is_stopper item ≡ b
          → ((stop_item item w).1.events ≡ w.events ++ stops_of B.is_stopper (item ∷ []))
            × ((stop_item item w).1.mesa ≡ w.mesa)
      by_kind true h = ground arith
      by_kind false h = ground (arith, append_nil w.events)

  -- The turn of the first item, then the others.
  joined :
      (item : Item) (items : List Item) (w : World B) (next last : World B)
      → (last.events ≡ next.events ++ stops_of B.is_stopper items) × (last.mesa ≡ next.mesa)
      → (next.events ≡ w.events ++ stops_of B.is_stopper (item ∷ [])) × (next.mesa ≡ w.mesa)
      → (last.events ≡ w.events ++ stops_of B.is_stopper (item ∷ items)) × (last.mesa ≡ w.mesa)
  joined item items w next last others first = (
    others.0
        ∙ ap (λ t. t ++ stops_of B.is_stopper items) (first.0)
        ∙ append_assoc w.events (stops_of B.is_stopper (item ∷ [])) (stops_of B.is_stopper items)
        ∙ ap (λ t. w.events ++ t) (sym (stops_of-cons B.is_stopper item items)),
    others.1 ∙ first.1,
  )

  pub stop_items-events :
      (items : List Item) (w : World B)
      → ((stop_items (background B) items w).1.events ≡ w.events ++ stops_of B.is_stopper items)
        × ((stop_items (background B) items w).1.mesa ≡ w.mesa)
  unfolding stop_items stops_of
  stop_items-events [] w = (sym (append_nil w.events), refl)
  stop_items-events (item ∷ items) w =
      joined item items w ((stop_item item w).1)
        ((stop_items (background B) items ((stop_item item w).1)).1)
        (stop_items-events items ((stop_item item w).1)) (stop_item-events item w)

-- The closing of the clients that the runtime has.
unfoldable pub closes_of : (has_etcd has_redis has_postgres : Bool) → List Event
closes_of has_etcd has_redis has_postgres =
    (if has_etcd then close etcd ∷ [] else [])
    ++ (if has_redis then close redis ∷ [] else [])
    ++ (if has_postgres then close postgres ∷ [] else [])

-- The runtime without its clients.
abbrev pub without_clients : Mesa → Mesa
without_clients m = record m { has_etcd = false; has_redis = false; has_postgres = false }

-- The call of the runtime's cancel function, where it has one.
unfoldable pub cancels_of : Bool → List Event
cancels_of has_cancel = if has_cancel then cancel ∷ [] else []

module _ {B : Behaviour} where
  pub close_one-events :
      (has : Bool) (resource : Resource) (w : World B)
      → ((close_one has resource w).1.events
          ≡ w.events ++ (if has then close resource ∷ [] else []))
        × ((close_one has resource w).1.mesa ≡ w.mesa)
  unfolding close_one
  close_one-events true resource w = (refl, refl)
  close_one-events false resource w = (sym (append_nil w.events), refl)

  pub cancel_runtime-events :
      (w : World B)
      → ((cancel_runtime w).events ≡ w.events ++ cancels_of w.mesa.has_cancel)
        × ((cancel_runtime w).mesa ≡ w.mesa)
  unfolding cancel_runtime log_event cancels_of
  cancel_runtime-events w = by_presence w.mesa.has_cancel
    where
      by_presence :
          (b : Bool)
          → ((if b then log_event cancel w else w).events ≡ w.events ++ cancels_of b)
            × ((if b then log_event cancel w else w).mesa ≡ w.mesa)
      by_presence true = (refl, refl)
      by_presence false = (sym (append_nil w.events), refl)

  pub close_resources-events :
      (w : World B)
      → ((close_resources w).1.events
          ≡ w.events ++ closes_of w.mesa.has_etcd w.mesa.has_redis w.mesa.has_postgres)
        × ((close_resources w).1.mesa ≡ without_clients w.mesa)
  unfolding close_resources closes_of
  close_resources-events w = (
    three_steps w.events _ _ _ ((close_one-events w.mesa.has_etcd etcd w).0)
        ((close_one-events w.mesa.has_redis redis after_etcd).0)
        ((close_one-events w.mesa.has_postgres postgres after_redis).0),
    refl,
  )
    where
      after_etcd : World B
      after_etcd = (close_one w.mesa.has_etcd etcd w).1

      after_redis : World B
      after_redis = (close_one w.mesa.has_redis redis after_etcd).1
