-- ===== src/PubSub/Starting.antt =====
-- pubsub/service.go, Start, with EnsureGroup of pubsub/store.go: the goroutines of a service. The
-- creation of a group and the namer of consumers are the argument `Groups`.
pub mod Names
pub mod Started
use wego.Prelude.{
  nat_beq, ◌≡◌, ltb_ℤ, is_blank, trim_space, All, ℕ, zero, suc, ◌+◌, ◌-◌, ◌*◌, ◌/◌, ◌%◌, ◌^◌, ◌≤◌,
  ◌<◌, refl, ap, ◌∙◌, sym, subst, Bool, true, false, Option, none, some, List, [], ◌∷◌, ◌++◌, map,
  Text, codes, Unicode, is_empty, ltb, leb, ℤ, pos, negsuc, is_pos, if◌then◌else◌, ◌&&◌, ◌||◌, not,
  arith, append_assoc, append_nil,
}
use wego.PubSub.{
  Error, redis_not_configured, service_started, redis_error, Subscription, Options, stream_key,
}
use wego.PubSub.Router.{Router, list, freeze}
use wego.PubSub.Publishing.{itoa}

pub record Groups : Type 1 where
  pub State : Type 0
  -- XGROUP CREATE stream group 0 MKSTREAM, and its error's message
  pub create_group : (stream group : Text) → State → Option Text × State
  pub consumer_name : State → Text × State

-- `go s.consumeLoop(…)`, `go s.claimLoop(…)` and `go s.retryLoop(…)`
pub data Goroutine : Type 0 where
  consume_loop claim_loop : Subscription → (consumer : Text) → Goroutine
  retry_loop : Subscription → Goroutine

pub record Service (K : Groups) : Type 0 where
  pub started : Bool
  pub router : Router
  pub goroutines : List Goroutine
  pub state : K.State

abbrev starts_with : Text → Text → Bool
starts_with [] s = true
starts_with (c ∷ p) [] = false
starts_with (c ∷ p) (d ∷ s) = let rest = starts_with p s in nat_beq c d && rest

-- strings.Contains(s, part)
unfoldable pub contains : (part s : Text) → Bool
contains part [] = starts_with part []
contains part (c ∷ s) = let rest = contains part s in starts_with part (c ∷ s) || rest

-- The error of XGroupCreateMkStream, where an existing group is none.
abbrev pub group_error : Option Text → Option Error
group_error none = none
group_error (some e) = if contains (codes "BUSYGROUP") e then none else some (redis_error e)

-- The name of a subscription's worker.
unfoldable pub worker_name : Text → ℤ → ℕ → Text
worker_name consumer concurrency index =
    if ltb_ℤ (pos 1) concurrency then consumer ++ codes "-" ++ itoa (pos (index + 1)) else consumer

-- The names of the workers from an index on.
abbrev names_from : Text → ℤ → (index count : ℕ) → List Text
names_from consumer concurrency index zero = []
names_from consumer concurrency index (suc count) =
    worker_name consumer concurrency index ∷ names_from consumer concurrency (index + 1) count

unfoldable pub worker_names : Text → ℤ → List Text
unfolding worker_name
worker_names consumer (pos n) = names_from consumer (pos n) 0 n
worker_names consumer (negsuc n) = []

abbrev pub worker_loops : Subscription → List Text → List Goroutine
worker_loops sub [] = []
worker_loops sub (name ∷ names) =
    consume_loop sub name ∷ claim_loop sub name ∷ worker_loops sub names

-- The goroutines of a subscription whose group is there.
unfoldable pub loops_of : Subscription → Text → List Goroutine
unfolding worker_names
loops_of sub consumer =
    worker_loops sub (worker_names consumer sub.concurrency) ++ retry_loop sub ∷ []

-- `consumer := strings.TrimSpace(sub.Consumer)`, or else a name of the namer, which the
-- subscription then has as its consumer.
abbrev pub consumer_of : (K : Groups) → Subscription → K.State → (Text × Subscription) × K.State
consumer_of K sub s =
    let named = K.consumer_name s in
    if is_blank sub.consumer
    then ((named.0, record sub { consumer = named.0 }), named.1)
    else ((trim_space sub.consumer, sub), s)

module _ ⦃u : Unicode⦄ (K : Groups) (o : Options) where
  -- Store.EnsureGroup
  unfoldable pub ensure_group : (topic group : Text) → K.State → Option Error × K.State
  unfolding contains
  ensure_group topic group s =
      let created = K.create_group (stream_key o topic) group s in
      if o.connected then (group_error (created.0), created.1) else (some redis_not_configured, s)

  -- The goroutines of a subscription are started.
  abbrev pub start_loops : Subscription → Service K → Service K
  start_loops sub w =
      let consumer = consumer_of K sub w.state in
      record w {
        goroutines = w.goroutines ++ loops_of ((consumer.0).1) ((consumer.0).0);
        state = consumer.1;
      }

  abbrev pub unless_error :
      Option Error → Service K → Option Error × Service K → Option Error × Service K
  unless_error (some e) w rest = (some e, w)
  unless_error none w rest = rest

  -- The loop of Start, over the subscriptions.
  unfoldable pub start_all : List Subscription → Service K → Option Error × Service K
  unfolding ensure_group loops_of
  start_all [] w = (none, w)
  start_all (sub ∷ subs) w =
      let ensured = ensure_group sub.topic sub.group w.state in
      let next = record w { state = ensured.1 } in
      let rest = start_all subs (start_loops sub next) in unless_error (ensured.0) next rest

  -- Service.Start
  unfoldable pub start : Service K → Option Error × Service K
  unfolding start_all freeze list
  start w =
      let frozen = record w { started = true; router = freeze w.router } in
      let all = start_all (list frozen.router) frozen in
      if not o.connected
      then (some redis_not_configured, w)
      else if w.started
      then (some service_started, w)
      else all
