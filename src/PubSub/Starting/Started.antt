-- ===== src/PubSub/Starting/Started.antt =====
-- pubsub/service.go, Start: what a start has started.
use wego.Prelude.{
  ◌≡◌, is_blank, trim_space, refl, ◌∙◌, sym, Bool, true, false, Option, none, some, List, [], ◌∷◌,
  ◌++◌, Text, Unicode, if◌then◌else◌, not, append_assoc, append_nil,
}
use wego.PubSub.{Error, redis_not_configured, service_started, Subscription, Options}
use wego.PubSub.Router.{list, freeze}
use wego.PubSub.Starting.{
  Groups, Goroutine, Service, loops_of, consumer_of, ensure_group, start_loops, unless_error,
  start_all, start,
}

-- The subscription as its goroutines have it, and their consumer's name, in a state of the namer:
-- the trimmed name that the subscription has, or the namer's answer; and the state after it.
pub record Serves (K : Groups) (sub : Subscription) (s : K.State) (served : Subscription)
    (consumer : Text) (next : K.State) : Type 0 where
  pub own :
      is_blank sub.consumer ≡ false
      → (consumer ≡ trim_space sub.consumer) × (served ≡ sub) × (next ≡ s)
  pub given :
      is_blank sub.consumer ≡ true
      → (consumer ≡ (K.consumer_name s).0)
        × (served ≡ record sub { consumer = consumer })
        × (next ≡ (K.consumer_name s).1)

consumer_of-Serves :
    (K : Groups) (sub : Subscription) (s : K.State)
    → Serves K sub s
        (((consumer_of K sub s).0).1)
        (((consumer_of K sub s).0).0)
        ((consumer_of K sub s).1)
consumer_of-Serves K sub s = by_name (is_blank sub.consumer) refl
  where
    by_name :
        (b : Bool)
        → is_blank sub.consumer ≡ b
        → (let c : (Text × Subscription) × K.State =
              if b
              then (
                ((K.consumer_name s).0, record sub { consumer = (K.consumer_name s).0 }),
                (K.consumer_name s).1,
              )
              else ((trim_space sub.consumer, sub), s) in
            Serves K sub s ((c.0).1) ((c.0).0) (c.1))
    by_name true e = record { own = λ f. cc; given = λ f. (refl, refl, refl) }
    by_name false e = record { own = λ f. (refl, refl, refl); given = λ f. cc }

module _ ⦃u : Unicode⦄ (K : Groups) (o : Options) where
  -- A start over some subscriptions from a state: the goroutines that it starts, the state after it
  -- and its error, if any.
  pub data Spawns
      : List Subscription → K.State → List Goroutine → K.State → Option Error → Type 0 where
    none_left : (s : K.State) → Spawns [] s [] s none
    -- The group of the next subscription cannot be created, and no further one is tried.
    refused :
        (sub : Subscription) (subs : List Subscription) (s : K.State) (e : Error)
        → (ensure_group K o sub.topic sub.group s).0 ≡ some e
        → Spawns (sub ∷ subs) s [] ((ensure_group K o sub.topic sub.group s).1) (some e)
    spawn :
        (sub served : Subscription) (consumer : Text) (subs : List Subscription)
        (loops : List Goroutine) (s next last : K.State) (e : Option Error)
        → (ensure_group K o sub.topic sub.group s).0 ≡ none
        → Serves K sub ((ensure_group K o sub.topic sub.group s).1) served consumer next
        → Spawns subs next loops last e
        → Spawns (sub ∷ subs) s (loops_of served consumer ++ loops) last e

  -- What a start over some subscriptions does to the service.
  pub record Starts (subs : List Subscription) (w last : Service K) (e : Option Error)
      : Type 0 where
    pub loops : List Goroutine
    pub spawns : Spawns subs w.state loops last.state e
    pub log : last.goroutines ≡ w.goroutines ++ loops
    pub same_router : last.router ≡ w.router
    pub same_started : last.started ≡ w.started

  start_all-Starts :
      (subs : List Subscription) (w : Service K)
      → Starts subs w ((start_all K o subs w).1) ((start_all K o subs w).0)
  unfolding start_all
  start_all-Starts [] w = record {
    loops = [];
    spawns = none_left w.state;
    log = sym (append_nil w.goroutines);
    same_router = refl;
    same_started = refl;
  }
  start_all-Starts (sub ∷ subs) w =
      by_group ((ensure_group K o sub.topic sub.group w.state).0) refl
        (start_all-Starts subs (start_loops K o sub next))
    where
      next : Service K
      next = record w { state = (ensure_group K o sub.topic sub.group w.state).1 }

      named : (Text × Subscription) × K.State
      named = consumer_of K sub next.state

      by_group :
          (e : Option Error)
          → (ensure_group K o sub.topic sub.group w.state).0 ≡ e
          → Starts subs
              (start_loops K o sub next)
              ((start_all K o subs (start_loops K o sub next)).1)
              ((start_all K o subs (start_loops K o sub next)).0)
          → (let r = unless_error K o e next (start_all K o subs (start_loops K o sub next)) in
              Starts (sub ∷ subs) w (r.1) (r.0))
      by_group (some e) h s = record {
        loops = [];
        spawns = refused sub subs w.state e h;
        log = sym (append_nil w.goroutines);
        same_router = refl;
        same_started = refl;
      }
      by_group none h s = record {
        loops = loops_of ((named.0).1) ((named.0).0) ++ s.loops;
        spawns =
            spawn sub ((named.0).1) ((named.0).0) subs s.loops w.state (named.1) _ _ h
              (consumer_of-Serves K sub next.state) s.spawns;
        log = s.log ∙ append_assoc w.goroutines _ s.loops;
        same_router = s.same_router;
        same_started = s.same_started;
      }

  -- Start of a service with a client, which has not started before, freezes the router and marks the
  -- service as started, also where it fails. It comes to the subscriptions in their order: where the
  -- group of one can be created, it starts its loops, with the consumer that the subscription names
  -- or else the namer's answer; the first one whose group cannot be created ends it with that error,
  -- and without one it returns no error and has started the loops of all.
  pub start-Starts :
      (w : Service K)
      → o.connected ≡ true
      → w.started ≡ false
      → Starts
          (list (freeze w.router))
          (record w { started = true; router = freeze w.router })
          ((start K o w).1)
          ((start K o w).0)
  unfolding start
  start-Starts w connected fresh = by_tests o.connected w.started connected fresh
    where
      frozen : Service K
      frozen = record w { started = true; router = freeze w.router }

      by_tests :
          (a b : Bool)
          → a ≡ true
          → b ≡ false
          → (let r : Option Error × Service K =
                if not a
                then (some redis_not_configured, w)
                else if b
                then (some service_started, w)
                else start_all K o (list frozen.router) frozen in
              Starts (list frozen.router) frozen (r.1) (r.0))
      by_tests true false h k = start_all-Starts (list frozen.router) frozen
      by_tests true true h k = cc
      by_tests false b h k = cc
