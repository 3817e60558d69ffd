-- ===== src/Mesa/Lifecycle/Endings.antt =====
-- mesa.go, Run: how a call ends whose servers and components all start.
use wego.Prelude.{sym, subst, ap, ◌∙◌, true, false, none, ◌++◌, ◌≡◌, refl}
use wego.Mesa.{[], Behaviour, Mesa, is_new, running, stopped}
use wego.Mesa.Lifecycle.{
  World, Exit, background, begin_run, mark_running, run, shutdown, panics, returned, with_state,
}
use wego.Mesa.Lifecycle.Events.{items_to_start}
use wego.Mesa.Lifecycle.Startup.{starts_of, loops, loops-AllStart, run-new, AllStart, IsQuiet}
use wego.Mesa.Lifecycle.Shutdown.{
  shutdown_events, IsShutDown, shutdown-IsShutDown, shutdown-panics, is_active,
}

-- The runtime that Run leaves running.
abbrev pub as_running : Mesa → Mesa
as_running m = record m { state = running; has_cancel = true }

module _ {B : Behaviour} where
  pub record RunsThrough (w : World B) (exit : Exit) (last : World B) : Type 0 where
    pub log :
        last.events
        ≡ w.events
          ++ starts_of (items_to_start w.mesa)
          ++ shutdown_events B.is_stopper (as_running w.mesa)
    pub is_stopped : last.mesa.state ≡ stopped
    pub exits : exit ≡ returned last.mesa.shutdown_err

  -- Run of a new runtime whose items all start, and which no other goroutine shuts down, starts
  -- every server and then every component in the order in which they were registered, and once the
  -- runtime's context is done it stops and closes everything as Shutdown does, the items in
  -- the opposite order; it leaves the runtime stopped and returns the shutdown's error.
  pub run-RunsThrough :
      (before until : World B → World B) (w : World B)
      → IsQuiet before
      → IsQuiet until
      → is_new w.mesa.state ≡ true
      → w.mesa.shutdown_done ≡ false
      → (loops w).0 ≡ none
      → RunsThrough w ((run before until w).0) ((run before until w).1)
  unfolding begin_run mark_running is_active
  run-RunsThrough before until w b u new_state open_channel starts =
      subst (λ r. RunsThrough w (r.0) (r.1)) (sym (run-new before until w new_state none starts))
        (record {
          log =
              ended.once
              ∙ ap (λ m. begun.events ++ shutdown_events B.is_stopper m) same
              ∙ ap (λ t. t ++ shutdown_events B.is_stopper (as_running w.mesa)) log;
          is_stopped = ended.is_stopped;
          exits = ended.returns;
        })
    where
      started : World B
      started = (loops w).2

      begun : World B
      begun = until (mark_running (before started))

      a : AllStart [] (items_to_start w.mesa) (begin_run w) (loops w)
      a = loops-AllStart w starts

      same : begun.mesa ≡ as_running w.mesa
      same = u.same _ ∙ ap (λ m. with_state running m) (b.same started ∙ a.same)

      log : begun.events ≡ w.events ++ starts_of (items_to_start w.mesa)
      log = u.log _ ∙ b.log started ∙ a.log

      ended :
          IsShutDown begun ((shutdown (background B) begun).0) ((shutdown (background B) begun).1)
      ended =
          shutdown-IsShutDown begun (ap (λ m. is_active m.state) same)
            (ap (λ m. m.shutdown_done) same ∙ open_channel)

  -- A call of Shutdown that comes while Run of a new runtime starts its items runs to its end, and
  -- then Run, all of whose items start, sets the state to running, shuts down again, and
  -- panics when it closes the channel a second time.
  pub run-panics :
      (w : World B)
      → is_new w.mesa.state ≡ true
      → w.mesa.shutdown_done ≡ false
      → (loops w).0 ≡ none
      → (run (λ v. (shutdown (background B) v).1) (λ v. v) w).0 ≡ panics
  unfolding begin_run mark_running is_active
  run-panics w new_state open_channel starts =
      ap (λ r. r.0) (run-new _ _ w new_state none starts)
      ∙ shutdown-panics (mark_running ((shutdown (background B) started).1)) refl other.is_closed
    where
      started : World B
      started = (loops w).2

      a : AllStart [] (items_to_start w.mesa) (begin_run w) (loops w)
      a = loops-AllStart w starts

      other :
          IsShutDown started
            ((shutdown (background B) started).0)
            ((shutdown (background B) started).1)
      other =
          shutdown-IsShutDown started (ap (λ m. is_active m.state) a.same)
            (ap (λ m. m.shutdown_done) a.same ∙ open_channel)
