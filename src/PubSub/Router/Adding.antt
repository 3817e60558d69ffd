-- ===== src/PubSub/Router/Adding.antt =====
-- pubsub/router.go, Add: what the router holds.
use wego.Prelude.{
  some_injective, inr, subst, inl, ◌⊎◌, ◌≡◌, refl, Bool, true, false, Option, none, some, Text,
  Unicode, ap, ◌∙◌, sym, lookup, insert, lookup-insert, text_key, text_beq, text_beq_sound,
  if◌then◌else◌, arith, trim_space, trim_space-trim_space, to_lower, to_lower-to_lower,
  trim_space-to_lower, is_some,
}
use wego.PubSub.{
  duplicate_subscription, service_started, Error, Subscription, normalize_topic, normalize_group,
  subscription_key,
}
use wego.PubSub.Router.{Router, IsUsable, add, add_valid, validate, kept}

module _ ⦃u : Unicode⦄ where
  normalize_topic-normalize_topic :
      (t : Text) → normalize_topic (normalize_topic t) ≡ normalize_topic t
  unfolding normalize_topic
  normalize_topic-normalize_topic t =
      ap (λ s. trim_space s) (sym (trim_space-to_lower (to_lower t)))
      ∙ trim_space-trim_space (to_lower (to_lower t))
      ∙ ap (λ s. trim_space s) (to_lower-to_lower t)

  subscription_key-kept :
      (sub : Subscription)
      → subscription_key (kept sub).topic (kept sub).group ≡ subscription_key sub.topic sub.group
  unfolding kept subscription_key normalize_group
  subscription_key-kept sub =
      rw (normalize_topic-normalize_topic sub.topic, normalize_topic-normalize_topic sub.group) refl

  -- Every subscription of the router is usable.
  pub record AllUsable (r : Router) : Type 0 where
    pub usable : (key : Text) (sub : Subscription) → lookup key r.subs ≡ some sub → IsUsable key sub

  -- What a successful Add has done.
  pub record Added (sub : Subscription) (r last : Router) : Type 0 where
    pub was_open : r.started ≡ false
    pub was_free : lookup (subscription_key sub.topic sub.group) r.subs ≡ none
    pub is_valid : validate sub ≡ none
    pub adds :
        (key : Text)
        → lookup key last.subs ≡ (
            if text_beq (subscription_key sub.topic sub.group) key
            then some (kept sub)
            else lookup key r.subs)

  -- The two ways in which Add ends.
  abbrev pub AddEnds : Subscription → Router → Option Error × Router → Type 0
  AddEnds sub r outcome =
      (is_some (outcome.0) ≡ true) × (outcome.1 ≡ r) ⊎ (outcome.0 ≡ none) × Added sub r (outcome.1)

  is_some-false : {A : Type 0} (o : Option A) → is_some o ≡ false → o ≡ none
  is_some-false o h = ground arith

  add_valid-AddEnds :
      (sub : Subscription) (r : Router) → validate sub ≡ none → AddEnds sub r (add_valid sub r)
  unfolding add_valid
  add_valid-AddEnds sub r valid = by_tests r.started (is_some (lookup key r.subs)) refl refl
    where
      key : Text
      key = subscription_key sub.topic sub.group

      by_tests :
          (a b : Bool)
          → r.started ≡ a
          → is_some (lookup key r.subs) ≡ b
          → AddEnds sub r (
              if a
              then (some service_started, r)
              else if b
              then (some (duplicate_subscription key), r)
              else (none, record r { subs = insert key (kept sub) r.subs }))
      by_tests true b e f = inl (refl, refl)
      by_tests false true e f = inl (refl, refl)
      by_tests false false e f = inr (
        refl,
        record {
          was_open = e;
          was_free = is_some-false (lookup key r.subs) f;
          is_valid = valid;
          adds = λ j. lookup-insert key j (kept sub) r.subs;
        },
      )

  -- Add either returns an error and leaves the router as it was, or has added the subscription,
  -- which is valid, to a router that is not frozen, under a key that was free.
  pub add-AddEnds : (sub : Subscription) (r : Router) → AddEnds sub r (add sub r)
  unfolding add
  add-AddEnds sub r = by_validation (validate sub) refl
    where
      by_validation :
          (v : Option Error)
          → validate sub ≡ v
          → AddEnds sub r (elim v [ some e ↦ (some e, r) | none ↦ add_valid sub r ])
      by_validation (some e) h = inl (refl, refl)
      by_validation none h = add_valid-AddEnds sub r h

  validate-has_handler : (sub : Subscription) → validate sub ≡ none → sub.has_handler ≡ true
  unfolding validate
  validate-has_handler sub h = ground arith

  kept-IsUsable :
      (sub : Subscription)
      → validate sub ≡ none
      → IsUsable (subscription_key sub.topic sub.group) (kept sub)
  unfolding kept normalize_group
  kept-IsUsable sub valid = record {
    same_key = subscription_key-kept sub;
    normal_topic = normalize_topic-normalize_topic sub.topic;
    normal_group = normalize_topic-normalize_topic sub.group;
    has_workers = ground arith;
    has_handler = validate-has_handler sub valid;
  }

  Added-AllUsable :
      (sub : Subscription) (r last : Router) → AllUsable r → Added sub r last → AllUsable last
  Added-AllUsable sub r last h added = record {
    usable = λ key s found. at_key key s (text_beq new_key key) refl (sym (added.adds key) ∙ found);
  }
    where
      new_key : Text
      new_key = subscription_key sub.topic sub.group

      at_key :
          (key : Text) (s : Subscription) (b : Bool)
          → text_beq new_key key ≡ b
          → (if b then some (kept sub) else lookup key r.subs) ≡ some s
          → IsUsable key s
      at_key key s true e found =
          subst (λ k. IsUsable k s) (text_beq_sound new_key key e)
            (subst (λ t. IsUsable new_key t) (some_injective (kept sub) s found)
              (kept-IsUsable sub added.is_valid))
      at_key key s false e found = h.usable key s found

  -- Whatever subscriptions are added, every subscription that the router holds has the normalized
  -- topic and group of its key, at least one worker, and a handler.
  pub add-AllUsable : (sub : Subscription) (r : Router) → AllUsable r → AllUsable (add sub r).1
  add-AllUsable sub r h = by_end (add sub r) (add-AddEnds sub r)
    where
      by_end : (outcome : Option Error × Router) → AddEnds sub r outcome → AllUsable (outcome.1)
      by_end outcome (inl (e, same)) = subst (λ s. AllUsable s) (sym same) h
      by_end outcome (inr (e, added)) = Added-AllUsable sub r (outcome.1) h added
