-- ===== src/PubSub/Router.antt =====
-- pubsub/router.go: the subscriptions of a service, by topic and group.
pub mod Adding
use wego.Prelude.{
  is_blank, ℕ, ◌≡◌, refl, Bool, true, false, Option, none, some, List, [], ◌∷◌, Text, is_empty,
  trim_space, Unicode, ℤ, pos, is_pos, GoMap, lookup, insert, lookup-insert, text_key, text_beq,
  if◌then◌else◌, ◌||◌, not, is_some, arith, map,
}
use wego.Action.{Result, ok, err, Action, ◌>>=◌, refuse_if}
use wego.PubSub.{
  Error, Subscription, normalize_topic, normalize_group, subscription_key, service_started,
  invalid_subscription, handler_required, duplicate_subscription,
}

pub record Router : Type 0 where
  pub started : Bool
  pub subs : GoMap Text Subscription

unfoldable pub new_router : Router
new_router = record { started = false; subs = [] }

module _ ⦃u : Unicode⦄ where
  -- The subscription as the router keeps it.
  unfoldable pub kept : Subscription → Subscription
  unfolding normalize_topic normalize_group
  kept sub = record sub {
    concurrency = if is_pos sub.concurrency then sub.concurrency else pos 1;
    consumer = if is_blank sub.consumer then [] else sub.consumer;
    topic = normalize_topic sub.topic;
    group = normalize_group sub.group;
  }

  -- Subscription.Validate
  unfoldable pub validate : Subscription → Option Error
  unfolding normalize_topic normalize_group
  validate sub =
      if is_empty (normalize_topic sub.topic) || is_empty (normalize_group sub.group)
      then some invalid_subscription
      else if not sub.has_handler
      then some handler_required
      else none

  -- The section of `Router.Add` under the lock.
  unfoldable pub add_valid : Subscription → Router → Option Error × Router
  unfolding subscription_key kept
  add_valid sub r =
      let key = subscription_key sub.topic sub.group in
      if r.started
      then (some service_started, r)
      else if is_some (lookup key r.subs)
      then (some (duplicate_subscription key), r)
      else (none, record r { subs = insert key (kept sub) r.subs })

  -- Router.Add
  unfoldable pub add : Subscription → Router → Option Error × Router
  unfolding validate add_valid
  add sub r = elim (validate sub) [ some e ↦ (some e, r) | none ↦ add_valid sub r ]

  -- Service.Subscribe, of a service that has started or not; MustSubscribe panics on its error
  unfoldable pub subscribe : (started : Bool) → Subscription → Router → Option Error × Router
  unfolding add
  subscribe started sub r = if started then (some service_started, r) else add sub r

  -- Router.Freeze
  unfoldable pub freeze : Router → Router
  freeze r = record r { started = true }

  -- Router.List, in an order that the map does not fix
  unfoldable pub list : Router → List Subscription
  list r = map (λ entry. entry.1) r.subs

  -- What a router holds under a key: at most one subscription, with the normalized topic and group
  -- of the key, at least one worker, and a handler.
  pub record IsUsable (key : Text) (sub : Subscription) : Type 0 where
    pub same_key : subscription_key sub.topic sub.group ≡ key
    pub normal_topic : normalize_topic sub.topic ≡ sub.topic
    pub normal_group : normalize_group sub.group ≡ sub.group
    pub has_workers : is_pos sub.concurrency ≡ true
    pub has_handler : sub.has_handler ≡ true
