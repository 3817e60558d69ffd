-- ===== src/Mesa/Examples.antt =====
-- A small runtime: two servers and two components.
use wego.Prelude.{
  if◌then◌else◌, lookup, String, ℕ, true, false, none, some, List, [], ◌∷◌, ◌≡◌, refl, nat_beq,
  codes, not,
}
use wego.Mesa.{
  suc, normalize_component_name, get_component, is_some, Behaviour, Mesa, Item, Component, server,
  component, new, register_component,
}
use wego.Mesa.Lifecycle.{start_items, panics, World, run, shutdown, background}
use wego.Mesa.Registry.{IsIndexed, find_component, register_component-IsIndexed}
use wego.Mesa.Lifecycle.Events.{items_to_start}
use wego.Mesa.Lifecycle.Startup.{IsQuiet, RollsBack, run-RollsBack, loops}
use wego.Mesa.Lifecycle.Shutdown.{IsShutDown, shutdown-IsShutDown, is_active}
use wego.Mesa.Lifecycle.Endings.{run-RunsThrough, run-panics, RunsThrough}

abbrev handle_of : Item → ℕ
handle_of (server s) = s.handle
handle_of (component c) = c.handle

-- Item 9 does not start, stopping item 7 fails, and item 5 has no method Stop.
abbrev small : Behaviour
small = record {
  State = ℕ;
  start_item = λ item n. (if nat_beq (handle_of item) 9 then some (codes "busy") else none, suc n);
  stop_item = λ item n. (if nat_beq (handle_of item) 7 then some (codes "late") else none, suc n);
  close_resource = λ resource n. (none, suc n);
  is_stopper = λ item. not (nat_beq (handle_of item) 5);
}

abbrev named : ℕ → String → Component
named n name = record { handle = n; name = codes name; type_tag = n }

abbrev fresh : List Component → Mesa
fresh components = record {
  state = new;
  components = components;
  component_index = [];
  servers = record { handle = 1; net_type = 0 } ∷ [];
  has_etcd = false;
  has_redis = true;
  has_postgres = true;
  has_cancel = false;
  shutdown_done = false;
  shutdown_err = [];
}

abbrev at_rest : Mesa → World small
at_rest m = record { mesa = m; env = 0; events = [] }

abbrev good : World small
good = at_rest (fresh (named 5 "pubsub" ∷ named 7 "reminder" ∷ []))

abbrev bad : World small
bad = at_rest (fresh (named 5 "pubsub" ∷ named 9 "reminder" ∷ named 7 "other" ∷ []))

abbrev idle : World small → World small
idle w = w

idle-IsQuiet : IsQuiet idle
idle-IsQuiet = record { same = λ w. refl; log = λ w. refl }

fresh-IsIndexed : IsIndexed (fresh [])
unfolding find_component lookup
fresh-IsIndexed = record { agrees = λ n. refl }

good_starts : (loops good).0 ≡ none
unfolding start_items items_to_start
good_starts = refl

bad_fails : is_some ((loops bad).0) ≡ true
unfolding start_items items_to_start
bad_fails = refl

good_active : is_active good.mesa.state ≡ true
unfolding is_active
good_active = refl

run-RunsThrough_example : RunsThrough good ((run idle idle good).0) ((run idle idle good).1)
run-RunsThrough_example =
    run-RunsThrough idle idle good idle-IsQuiet idle-IsQuiet refl refl good_starts

run-RollsBack_example : RollsBack bad ((run idle idle bad).0) ((run idle idle bad).1)
run-RollsBack_example = run-RollsBack idle idle bad idle-IsQuiet refl bad_fails

run-panics_example : (run (λ v. (shutdown (background small) v).1) (λ v. v) good).0 ≡ panics
run-panics_example = run-panics good refl refl good_starts

shutdown-IsShutDown_example :
    IsShutDown good ((shutdown (background small) good).0) ((shutdown (background small) good).1)
shutdown-IsShutDown_example = shutdown-IsShutDown good good_active refl

register_component-IsIndexed_example :
    IsIndexed ((register_component (some (named 7 "b") ∷ none ∷ []) (fresh [])).1)
    × (get_component
          (some ((register_component (some (named 7 "b") ∷ none ∷ []) (fresh [])).1))
          (codes " b ")
        ≡ find_component
            (normalize_component_name (codes " b "))
            ((register_component (some (named 7 "b") ∷ none ∷ []) (fresh [])).1.components))
register_component-IsIndexed_example =
    register_component-IsIndexed (some (named 7 "b") ∷ none ∷ []) (fresh []) (codes " b ")
      fresh-IsIndexed
