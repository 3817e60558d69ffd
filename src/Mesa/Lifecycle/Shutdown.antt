-- ===== src/Mesa/Lifecycle/Shutdown.antt =====
-- mesa.go, Shutdown: what one call does from the first section to the last, and what later calls
-- do.
use wego.Prelude.{
  append_assoc, subst, sym, arith, ap, ◌∙◌, Bool, true, false, List, [], ◌∷◌, ◌++◌, ◌≡◌, refl, Text,
}
use wego.Mesa.{
  Behaviour, Mesa, Item, Event, RuntimeState, close, telemetry, unset, new, starting, running,
  stopping, stopped,
}
use wego.Mesa.Lifecycle.{
  backwards, World, Context, Exit, background, returned, panics, stop_now, items_to_stop,
  enter_shutdown, stop_everything, leave_shutdown, finish_shutdown, shutdown, with_state,
  cancel_runtime, stop_items, close_resources,
}
use wego.Mesa.Lifecycle.Events.{
  items_to_stop-items_to_start, items_to_start, stops_of, closes_of, cancels_of, without_clients,
  stop_items-events, close_resources-events, cancel_runtime-events, three_steps,
}

-- The runtime is neither stopping nor stopped.
unfoldable pub is_active : RuntimeState → Bool
is_active stopping = false
is_active stopped = false
is_active unset = true
is_active new = true
is_active starting = true
is_active running = true

-- What a complete call of Shutdown adds to the log.
unfoldable pub shutdown_events : (Item → Bool) → Mesa → List Event
shutdown_events is_stopper m =
    cancels_of m.has_cancel
    ++ (stops_of is_stopper (backwards (items_to_start m))
        ++ closes_of m.has_etcd m.has_redis m.has_postgres
        ++ close telemetry ∷ [])

module _ {B : Behaviour} where
  enter_shutdown-active :
      (w : World B)
      → is_active w.mesa.state ≡ true
      → enter_shutdown w ≡ (
        stop_now (items_to_stop w.mesa),
        cancel_runtime (record w { mesa = with_state stopping w.mesa }),
      )
  unfolding enter_shutdown is_active
  enter_shutdown-active w h = by_state w.mesa.state refl h
    where
      entered : World B
      entered = cancel_runtime (record w { mesa = with_state stopping w.mesa })

      by_state :
          (s : RuntimeState)
          → w.mesa.state ≡ s
          → is_active s ≡ true
          → enter_shutdown w ≡ (stop_now (items_to_stop w.mesa), entered)
      by_state stopping e h = ground arith
      by_state stopped e h = ground arith
      by_state unset e h = rw e refl
      by_state new e h = rw e refl
      by_state starting e h = rw e refl
      by_state running e h = rw e refl

  stop_everything-events :
      (items : List Item) (w : World B)
      → ((stop_everything (background B) items w).1.events
          ≡ w.events
            ++ (stops_of B.is_stopper items
                ++ closes_of w.mesa.has_etcd w.mesa.has_redis w.mesa.has_postgres
                ++ close telemetry ∷ []))
        × ((stop_everything (background B) items w).1.mesa ≡ without_clients w.mesa)
  unfolding stop_everything
  stop_everything-events items w = (
    three_steps w.events _ _ _ (stops.0) (closes.0 ∙ ap closes_in (stops.1)) refl,
    closes.1 ∙ ap (λ m. without_clients m) (stops.1),
  )
    where
      after : World B
      after = (stop_items (background B) items w).1

      closes_in : Mesa → List Event
      closes_in m = after.events ++ closes_of m.has_etcd m.has_redis m.has_postgres

      stops : (after.events ≡ w.events ++ stops_of B.is_stopper items) × (after.mesa ≡ w.mesa)
      stops = stop_items-events items w

      closes :
          ((close_resources after).1.events ≡ closes_in after.mesa)
          × ((close_resources after).1.mesa ≡ without_clients after.mesa)
      closes = close_resources-events after

  -- A complete call of Shutdown, as the goroutine sees it: the world it leaves.
  pub record IsShutDown (w : World B) (exit : Exit) (last : World B) : Type 0 where
    -- Every component and server with a method Stop is stopped exactly once, the last that was
    -- registered first, then the clients close, then the telemetry.
    pub once : last.events ≡ w.events ++ shutdown_events B.is_stopper w.mesa
    pub is_stopped : last.mesa.state ≡ stopped
    pub is_closed : last.mesa.shutdown_done ≡ true
    pub returns : exit ≡ returned last.mesa.shutdown_err
    -- A later call, with any context, returns the same error and changes nothing.
    pub again : (ctx : Context B) → shutdown ctx last ≡ (exit, last)

  shutdown-active :
      (w : World B)
      → is_active w.mesa.state ≡ true
      → shutdown (background B) w
        ≡ finish_shutdown
            (background B)
            (stop_now (items_to_stop w.mesa))
            (cancel_runtime (record w { mesa = with_state stopping w.mesa }))
  unfolding shutdown
  shutdown-active w h =
      ap (λ e. finish_shutdown (background B) (e.0) (e.1)) (enter_shutdown-active w h)

  -- The last section, where the channel is open.
  leave_shutdown-IsShutDown :
      (w last : World B) (errors : List Text)
      → last.mesa.shutdown_done ≡ false
      → last.events ≡ w.events ++ shutdown_events B.is_stopper w.mesa
      → IsShutDown w ((leave_shutdown errors last).0) ((leave_shutdown errors last).1)
  unfolding leave_shutdown shutdown enter_shutdown finish_shutdown
  leave_shutdown-IsShutDown w last errors open_channel log = record {
    once = log;
    is_stopped = refl;
    is_closed = refl;
    returns = exits;
    again = λ ctx. ap (λ e. (e, (leave_shutdown errors last).1)) (sym exits);
  }
    where
      exits : (leave_shutdown errors last).0 ≡ returned errors
      exits = rw open_channel refl

  finish-IsShutDown :
      (w entered : World B)
      → w.mesa.shutdown_done ≡ false
      → entered.events ≡ w.events ++ cancels_of w.mesa.has_cancel
      → entered.mesa ≡ with_state stopping w.mesa
      → IsShutDown w
          ((finish_shutdown (background B) (stop_now (items_to_stop w.mesa)) entered).0)
          ((finish_shutdown (background B) (stop_now (items_to_stop w.mesa)) entered).1)
  unfolding finish_shutdown shutdown_events
  finish-IsShutDown w entered open_channel cancels same =
      leave_shutdown-IsShutDown w (outcome.1) (outcome.0)
        (ap (λ m. m.shutdown_done) (work.1 ∙ ap (λ m. without_clients m) same) ∙ open_channel)
        (work.0
          ∙ ap log_of same
          ∙ ap (λ t. t ++ rest) cancels
          ∙ append_assoc w.events _ rest
          ∙ ap in_order (items_to_stop-items_to_start w.mesa))
    where
      in_order : List Item → List Event
      in_order items =
          w.events
          ++ (cancels_of w.mesa.has_cancel
              ++ (stops_of B.is_stopper items
                  ++ closes_of w.mesa.has_etcd w.mesa.has_redis w.mesa.has_postgres
                  ++ close telemetry ∷ []))

      outcome : List Text × World B
      outcome = stop_everything (background B) (items_to_stop w.mesa) entered

      rest_of : Mesa → List Event
      rest_of m =
          stops_of B.is_stopper (items_to_stop w.mesa)
          ++ closes_of m.has_etcd m.has_redis m.has_postgres
          ++ close telemetry ∷ []

      rest : List Event
      rest = rest_of w.mesa

      log_of : Mesa → List Event
      log_of m = entered.events ++ rest_of m

      work :
          (outcome.1.events ≡ log_of entered.mesa) × (outcome.1.mesa ≡ without_clients entered.mesa)
      work = stop_everything-events (items_to_stop w.mesa) entered

  -- Shutdown of a runtime that is neither stopping nor stopped, whose channel is still open and
  -- with a context that does not end, runs to its end: it cancels the runtime's context if there
  -- is one, stops every component and then every server that has a method Stop exactly once, the
  -- last registered first, and closes each client that the runtime has and the telemetry, whatever
  -- errors these return. It leaves the runtime stopped, returns the stored error, and every later
  -- call, with any context, returns the same error and does nothing.
  pub shutdown-IsShutDown :
      (w : World B)
      → is_active w.mesa.state ≡ true
      → w.mesa.shutdown_done ≡ false
      → IsShutDown w ((shutdown (background B) w).0) ((shutdown (background B) w).1)
  shutdown-IsShutDown w active open_channel =
      subst (λ r. IsShutDown w (r.0) (r.1)) (sym (shutdown-active w active))
        (finish-IsShutDown w _ open_channel (entered.0) (entered.1))
    where
      entered :
          ((cancel_runtime (record w { mesa = with_state stopping w.mesa })).events
            ≡ w.events ++ cancels_of w.mesa.has_cancel)
          × ((cancel_runtime (record w { mesa = with_state stopping w.mesa })).mesa
              ≡ with_state stopping w.mesa)
      entered = cancel_runtime-events (record w { mesa = with_state stopping w.mesa })

  -- Where the channel is closed already, the last section panics.
  pub shutdown-panics :
      (w : World B)
      → is_active w.mesa.state ≡ true
      → w.mesa.shutdown_done ≡ true
      → (shutdown (background B) w).0 ≡ panics
  unfolding finish_shutdown leave_shutdown
  shutdown-panics w active closed =
      ap (λ r. r.0) (shutdown-active w active) ∙ rw (still_closed) refl
    where
      entered : World B
      entered = cancel_runtime (record w { mesa = with_state stopping w.mesa })

      still_closed :
          (stop_everything (background B) (items_to_stop w.mesa) entered).1.mesa.shutdown_done
          ≡ true
      still_closed =
          ap (λ m. m.shutdown_done)
            ((stop_everything-events (items_to_stop w.mesa) entered).1
              ∙ ap (λ m. without_clients m)
                  ((cancel_runtime-events (record w { mesa = with_state stopping w.mesa })).1))
          ∙ closed
