-- ===== src/Mesa/Lifecycle.antt =====
-- mesa.go, Run, Shutdown, stopItems, finishStopped, closeResources, State, Liveness, Readiness: the
-- life of the runtime. A mutex section is one step, and the calls of the caller's servers,
-- components and clients stand in the log `events`, in the order in which they are made.
pub mod Events
pub mod Startup
pub mod Endings
pub mod Shutdown
use wego.Prelude.{
  ℕ, all, ◌≡◌, Bool, true, false, Option, none, some, List, [], ◌∷◌, ◌++◌, map, Text, if◌then◌else◌,
  is_some, not, ◌&&◌,
}
use wego.Mesa.{
  start_component, runtime_started, unset, new, starting, running, start_server, postgres, redis,
  close, cancel, start, stop, stopping, etcd, component, server, telemetry, stopped, Behaviour,
  RuntimeState, Mesa, Item, Server, Component, Event, Resource, MesaError, is_new, is_running,
}

-- What a goroutine sees between two of its sections.
pub record World (B : Behaviour) : Type 0 where
  pub mesa : Mesa
  pub env : B.State
  pub events : List Event

-- A context, by what its Err returns now.
abbrev pub Context : Behaviour → Type 0
Context B = B.State → Option Text

-- errors.Join of one more error, nil or not.
abbrev pub join : Option Text → List Text → List Text
join none errors = errors
join (some e) errors = e ∷ errors

-- How a call of Shutdown begins: the runtime is stopped, stops in another goroutine, or stops here,
-- these items first.
pub data Entry : Type 0 where
  already_stopped : List Text → Entry
  must_wait : Entry
  stop_now : List Item → Entry

-- How a call of Run or Shutdown ends. `close` of a closed channel panics.
pub data Exit : Type 0 where
  returned : List Text → Exit
  failed : MesaError → Exit
  waits : Exit
  panics : Exit

abbrev pub server_items : List Server → List Item
server_items servers = map server servers

abbrev pub component_items : List Component → List Item
component_items components = map component components

unfoldable pub backwards {ℓ} : {A : Type ℓ} → List A → List A
backwards [] = []
backwards (a ∷ rest) = backwards rest ++ a ∷ []

-- The items in the order in which Shutdown stops them.
unfoldable pub items_to_stop : Mesa → List Item
unfolding backwards
items_to_stop m = backwards (component_items m.components) ++ backwards (server_items m.servers)

-- context.Background()
abbrev pub background : (B : Behaviour) → Context B
background B env = none

abbrev pub with_state : RuntimeState → Mesa → Mesa
with_state state m = record m { state = state }

-- The error of a server or a component that does not start.
abbrev pub start_error : Item → Text → MesaError
start_error (server s) e = start_server s.net_type e
start_error (component c) e = start_component c.name e

module _ {B : Behaviour} where
  unfoldable pub log_event : Event → World B → World B
  log_event e w = record w { events = w.events ++ e ∷ [] }

  -- item.Start(m.runtimeCtx)
  unfoldable pub start_item : Item → World B → Option Text × World B
  start_item item w =
      let outcome = B.start_item item w.env in
      (outcome.0, record w { env = outcome.1; events = w.events ++ start item ∷ [] })

  -- s.Stop(ctx), where the item has a method Stop
  unfoldable pub stop_item : Item → World B → Option Text × World B
  stop_item item w =
      let outcome = B.stop_item item w.env in
      if B.is_stopper item
      then (outcome.0, record w { env = outcome.1; events = w.events ++ stop item ∷ [] })
      else (none, w)

  -- Close of a client that the runtime has.
  unfoldable pub close_one : Bool → Resource → World B → Option Text × World B
  close_one has resource w =
      let outcome = B.close_resource resource w.env in
      if has
      then (outcome.0, record w { env = outcome.1; events = w.events ++ close resource ∷ [] })
      else (none, w)

  -- stopItems
  unfoldable pub stop_items : Context B → List Item → World B → List Text × World B
  unfolding stop_item
  stop_items ctx [] w = ([], w)
  stop_items ctx (item ∷ items) w =
      let outcome = stop_item item w in
      let rest = stop_items ctx items (outcome.1) in
      elim (ctx w.env) [ some e ↦ (e ∷ [], w) | none ↦ (join (outcome.0) (rest.0), rest.1) ]

  -- closeResourcesLocked, with closeRedis and closeDB
  unfoldable pub close_resources : World B → List Text × World B
  unfolding close_one
  close_resources w =
      let after_etcd = close_one w.mesa.has_etcd etcd w in
      let after_redis = close_one w.mesa.has_redis redis (after_etcd.1) in
      let after_db = close_one w.mesa.has_postgres postgres (after_redis.1) in
      let closed = record w.mesa { has_etcd = false; has_redis = false; has_postgres = false } in
      (join (after_redis.0) (join (after_db.0) []), record (after_db.1) { mesa = closed })

  -- runtimeCancel(), where Run has set it
  unfoldable pub cancel_runtime : World B → World B
  unfolding log_event
  cancel_runtime w = if w.mesa.has_cancel then log_event cancel w else w

  -- The first section of `Shutdown`.
  unfoldable pub enter_shutdown : World B → Entry × World B
  unfolding items_to_stop cancel_runtime
  enter_shutdown w =
      let entered = cancel_runtime (record w { mesa = with_state stopping w.mesa }) in
      elim w.mesa.state [
        | stopped ↦ (already_stopped w.mesa.shutdown_err, w)
        | stopping ↦ (must_wait, w)
        | unset ↦ (stop_now (items_to_stop w.mesa), entered)
        | new ↦ (stop_now (items_to_stop w.mesa), entered)
        | starting ↦ (stop_now (items_to_stop w.mesa), entered)
        | running ↦ (stop_now (items_to_stop w.mesa), entered)
      ]

  -- What `Shutdown` does between its sections.
  unfoldable pub stop_everything : Context B → List Item → World B → List Text × World B
  unfolding stop_items close_resources close_one
  stop_everything ctx items w =
      let after_items = stop_items ctx items w in
      let after_clients = close_resources (after_items.1) in
      let after_telemetry = close_one true telemetry (after_clients.1) in
      (after_items.0 ++ after_clients.0 ++ join (after_telemetry.0) [], after_telemetry.1)

  -- The last section of `Shutdown`, which closes shutdownDone.
  unfoldable pub leave_shutdown : List Text → World B → Exit × World B
  leave_shutdown errors w =
      let m = w.mesa in
      let left = record m { shutdown_err = errors; state = stopped; shutdown_done = true } in
      (if m.shutdown_done then panics else returned errors, record w { mesa = left })

  -- The goroutine that stops the runtime, from its first section to its last.
  unfoldable pub finish_shutdown : Context B → Entry → World B → Exit × World B
  unfolding stop_everything leave_shutdown
  finish_shutdown ctx (already_stopped errors) w = (returned errors, w)
  finish_shutdown ctx must_wait w = (waits, w)
  finish_shutdown ctx (stop_now items) w =
      let outcome = stop_everything ctx items w in leave_shutdown (outcome.0) (outcome.1)

  -- Shutdown. In the state `stopping` it waits, `Wakes` says for what.
  unfoldable pub shutdown : Context B → World B → Exit × World B
  unfolding enter_shutdown finish_shutdown
  shutdown ctx w = let entry = enter_shutdown w in finish_shutdown ctx (entry.0) (entry.1)

  -- How a waiting call of `Shutdown` returns: either case of its select that is ready.
  pub data Wakes : Context B → World B → List Text → Type 0 where
    by_done :
        {ctx : Context B} {w : World B}
        → w.mesa.shutdown_done ≡ true
        → Wakes ctx w w.mesa.shutdown_err
    by_context :
        {ctx : Context B} {w : World B} {e : Text} → ctx w.env ≡ some e → Wakes ctx w (e ∷ [])

  -- finishStopped
  unfoldable pub finish_stopped : World B → World B
  unfolding close_resources
  finish_stopped w =
      let m = record w.mesa { state = stopped; shutdown_done = true } in
      (close_resources (record w { mesa = m })).1

  -- The first section of `Run`: the context and its cancel function are made.
  unfoldable pub begin_run : World B → World B
  begin_run w = record w { mesa = record w.mesa { state = starting; has_cancel = true } }

  -- `if err := item.Start(m.runtimeCtx); err != nil`, in the loops of `Run`
  abbrev pub after_start :
      List Item
      → Item
      → World B
      → Option Text
      → Option (Item × Text) × List Item × World B
      → Option (Item × Text) × List Item × World B
  after_start started item next (some e) rest = (some (item, e), started, next)
  after_start started item next none rest = rest

  -- The loops of `Run` over the copied servers and components: the item that fails and its error,
  -- and what was started before it.
  unfoldable pub start_items :
      List Item → List Item → World B → Option (Item × Text) × List Item × World B
  unfolding start_item
  start_items started [] w = (none, started, w)
  start_items started (item ∷ items) w =
      let outcome = start_item item w in
      let rest = start_items (started ++ item ∷ []) items (outcome.1) in
      after_start started item (outcome.1) (outcome.0) rest

  -- After an item failed to start.
  unfoldable pub roll_back : List Item → World B → World B
  unfolding cancel_runtime stop_items finish_stopped
  roll_back started w = finish_stopped ((stop_items (background B) started (cancel_runtime w)).1)

  -- The section of `Run` after its loops.
  unfoldable pub mark_running : World B → World B
  mark_running w = record w { mesa = with_state running w.mesa }

  -- `Run` after its loops, by their error.
  abbrev pub after_loops : Option (Item × Text) → World B → Exit × World B → Exit × World B
  after_loops (some (item, e)) rolled ended = (failed (start_error item e), rolled)
  after_loops none rolled ended = ended

  -- Run. Other goroutines take the steps `before` from the last start of the loops to the next
  -- section, whether an item failed or not, and the steps `until`
  -- from the section that sets the state to running until the runtime's context is done.
  unfoldable pub run : (before until : World B → World B) → World B → Exit × World B
  unfolding begin_run start_items roll_back mark_running shutdown
  run before until w =
      let m = w.mesa in
      let items = server_items m.servers ++ component_items m.components in
      let outcome = start_items [] items (begin_run w) in
      let goes_on = before (outcome.2) in
      let rolled = roll_back (outcome.1) goes_on in
      let ended = shutdown (background B) (until (mark_running goes_on)) in
      if is_new m.state then after_loops (outcome.0) rolled ended else (failed runtime_started, w)

-- Liveness().OK
unfoldable pub is_live : Mesa → Bool
is_live m = elim m.state [
  | unset ↦ true
  | new ↦ true
  | starting ↦ true
  | running ↦ true
  | stopping ↦ false
  | stopped ↦ false
]

-- The answer of /livez and /readyz.
abbrev pub http_status : Bool → ℕ
http_status healthy = if healthy then 200 else 503

-- One check of `Readiness`, for a client that the runtime has: its name and the error of its ping.
abbrev pub check : Bool → Resource → Option Text → List (Resource × Option Text)
check has resource outcome = if has then (resource, outcome) ∷ [] else []

-- Readiness: OK and the checks, where `ping` is what the clients answer.
unfoldable pub readiness : (Resource → Option Text) → Mesa → Bool × List (Resource × Option Text)
readiness ping m =
    let checks =
      check m.has_postgres postgres (ping postgres)
      ++ check m.has_redis redis (ping redis)
      ++ check m.has_etcd etcd (ping etcd) in
    (is_running m.state && all (λ c. not (is_some (c.1))) checks, checks)
