-- ===== src/Mesa.antt =====
-- mesa.go, component.go: the runtime of an application. Its servers and components are the caller's;
-- what their methods return is the argument `Behaviour`. A mutex section is one step; the runtime's
-- calls are kept in a log.
pub mod Lifecycle
pub mod Registry
mod Examples
use wego.Prelude.{
  ℕ, zero, suc, Bool, true, false, Option, none, some, List, [], ◌∷◌, ◌++◌, Text, codes, trim_space,
  is_empty, GoMap, lookup, insert, text_key, text_beq, if◌then◌else◌, is_some, nat_beq, map, ◌||◌,
  ◌&&◌, not,
}
use wego.Action.{Result, ok, err}

pub data RuntimeState : Type 0 where
  -- The zero value "" of a literal `&Mesa{}`.
  unset : RuntimeState
  new starting running stopping stopped : RuntimeState

-- `m.state == "" || m.state == StateNew`
abbrev pub is_new : RuntimeState → Bool
is_new unset = true
is_new new = true
is_new _ = false

abbrev pub is_running : RuntimeState → Bool
is_running running = true
is_running _ = false

-- A transport.Server and a Component, by a handle that stands for the value behind the interface.
pub record Server : Type 0 where
  pub handle : ℕ
  pub net_type : ℕ

pub record Component : Type 0 where
  pub handle : ℕ
  pub name : Text
  -- The dynamic type, which a type assertion tests.
  pub type_tag : ℕ

pub data Item : Type 0 where
  server : Server → Item
  component : Component → Item

-- The clients that the runtime owns.
pub data Resource : Type 0 where
  etcd redis postgres telemetry : Resource

pub data Event : Type 0 where
  start stop : Item → Event
  close : Resource → Event
  -- runtimeCancel()
  cancel : Event

pub data MesaError : Type 0 where
  runtime_started component_nil component_name_empty : MesaError
  component_exists component_not_found : Text → MesaError
  start_server : ℕ → Text → MesaError
  start_component : Text → Text → MesaError
  -- Joined errors of a shutdown.
  shutdown_errors : List Text → MesaError
  -- ctx.Err()
  context_error : Text → MesaError

-- What the servers, the components and the clients do: their own state, and the error that each
-- call returns. An item is a `stopper` if it has a method Stop.
pub record Behaviour : Type 1 where
  pub State : Type 0
  pub start_item : Item → State → Option Text × State
  pub stop_item : Item → State → Option Text × State
  pub close_resource : Resource → State → Option Text × State
  pub is_stopper : Item → Bool

pub record Mesa : Type 0 where
  pub state : RuntimeState
  pub components : List Component
  pub component_index : GoMap Text Component
  pub servers : List Server
  pub has_etcd : Bool
  pub has_redis : Bool
  pub has_postgres : Bool
  -- runtimeCancel was set, and was called.
  pub has_cancel : Bool
  -- shutdownDone is closed.
  pub shutdown_done : Bool
  pub shutdown_err : List Text

-- normalizeComponentName
abbrev pub normalize_component_name : Text → Text
normalize_component_name name = trim_space name

-- The loop of `RegisterComponent`; what was registered before an error stays registered.
unfoldable pub register_items : List (Option Component) → Mesa → Option MesaError × Mesa
register_items [] m = (none, m)
register_items (none ∷ items) m = (some component_nil, m)
register_items (some c ∷ items) m =
    let name = normalize_component_name c.name in
    let rest = register_items items (record m {
      components = m.components ++ c ∷ [];
      component_index = insert name c m.component_index;
    }) in
    if is_empty name
    then (some component_name_empty, m)
    else if is_some (lookup name m.component_index)
    then (some (component_exists name), m)
    else rest

unfoldable pub register_component : List (Option Component) → Mesa → Option MesaError × Mesa
unfolding register_items
register_component items m =
    if is_new m.state then register_items items m else (some runtime_started, m)

-- GetComponent, on a `*Mesa` that may be nil.
unfoldable pub get_component : Option Mesa → Text → Option Component
get_component none name = none
get_component (some m) name = lookup (normalize_component_name name) m.component_index

abbrev pub has_type : ℕ → Option Component → Option Component
has_type t none = none
has_type t (some c) = if nat_beq c.type_tag t then some c else none

-- GetComponentAs
unfoldable pub get_component_as : ℕ → Option Mesa → Text → Option Component
unfolding get_component
get_component_as t m name = has_type t (get_component m name)

abbrev pub or_panic : Text → Option Component → Result MesaError Component
or_panic name none = err (component_not_found name)
or_panic name (some c) = ok c

-- MustGetComponent, whose panic is the error
unfoldable pub must_get_component : Option Mesa → Text → Result MesaError Component
unfolding get_component
must_get_component m name = or_panic name (get_component m name)

-- MustGetComponentAs, whose panic is the error
unfoldable pub must_get_component_as : ℕ → Option Mesa → Text → Result MesaError Component
unfolding get_component_as
must_get_component_as t m name = or_panic name (get_component_as t m name)

-- Components
unfoldable pub components_of : Option Mesa → List Component
components_of none = []
components_of (some m) = m.components

-- GetServerByType
unfoldable pub get_server_by_type : ℕ → List Server → Option Server
get_server_by_type typ [] = none
get_server_by_type typ (s ∷ servers) =
    if nat_beq s.net_type typ then some s else get_server_by_type typ servers
