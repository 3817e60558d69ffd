-- ===== src/Config/Validation/Clients.antt =====
-- config.go: the clients and the notifier that an accepted configuration names.
use wego.Prelude.{
  text_key, ◌≡◌, refl, ℕ, Bool, true, false, List, [], ◌∷◌, ◌++◌, Text, is_blank, trim_space, ◌&&◌,
  not, arith,
}
use wego.Action.{ok}
use wego.Config.Components.{is_set, is_given}
use wego.Config.Options.{Opt}
use wego.Config.Validation.{
  invalid_settings, pub_sub_component, reminder_notifier, reminder_component, Config, Field,
  invalid_if, invalid_components, validate, options, accept,
}

pub append-nil : {A : Type 0} (xs ys : List A) → xs ++ ys ≡ [] → (xs ≡ []) × (ys ≡ [])
append-nil [] ys h = (refl, h)
append-nil (x ∷ xs) ys h = cc

pub invalid_if-nil : (b : Bool) (f : Field) → invalid_if b f ≡ [] → b ≡ false
invalid_if-nil true f h = cc
invalid_if-nil false f h = refl

pub accept-ok :
    (fields : List Field) (opts : List Opt) {r : List Opt} → accept fields opts ≡ ok r → fields ≡ []
accept-ok [] opts h = refl
accept-ok (f ∷ fields) opts h = cc

-- What an accepted configuration says of its components.
pub record HasClients (c : Config) : Type 0 where
  pub redis_of : c.components.pub_sub.enabled ≡ true → is_set c.redis.addr ≡ true
  pub db_of : c.components.reminder.enabled ≡ true → is_set c.postgres_dsn ≡ true
  pub notifier_of :
      c.components.reminder.enabled ≡ true → is_given c.components.reminder.notifier ≡ true

pub is_set-is_blank : (s : Text) → is_blank s ≡ false → is_set s ≡ true
unfolding trim_space
is_set-is_blank [] h = cc
is_set-is_blank (c ∷ s) h = refl

invalid_components-HasClients : (c : Config) → invalid_components c ≡ [] → HasClients c
invalid_components-HasClients c h = record {
  redis_of = λ on. ground (arith, on, no_redis);
  db_of = λ on. is_set-is_blank c.postgres_dsn (ground (arith, on, no_db));
  notifier_of = λ on. ground (arith, on, no_notifier);
}
  where
    rest : List Field
    rest =
        invalid_if (c.components.reminder.enabled && is_blank c.postgres_dsn) reminder_component
        ++ invalid_if
            (c.components.reminder.enabled && not (is_given c.components.reminder.notifier))
            reminder_notifier

    rest_nil : rest ≡ []
    rest_nil =
        (append-nil
          (invalid_if (c.components.pub_sub.enabled && not (is_set c.redis.addr)) pub_sub_component)
          rest h).1

    no_redis : (c.components.pub_sub.enabled && not (is_set c.redis.addr)) ≡ false
    no_redis = invalid_if-nil _ pub_sub_component ((append-nil _ rest h).0)

    no_db : (c.components.reminder.enabled && is_blank c.postgres_dsn) ≡ false
    no_db =
        invalid_if-nil (c.components.reminder.enabled && is_blank c.postgres_dsn) reminder_component
          ((append-nil
            (invalid_if (c.components.reminder.enabled && is_blank c.postgres_dsn)
              reminder_component)
            (invalid_if
              (c.components.reminder.enabled && not (is_given c.components.reminder.notifier))
              reminder_notifier)
            rest_nil).0)

    no_notifier :
        (c.components.reminder.enabled && not (is_given c.components.reminder.notifier)) ≡ false
    no_notifier =
        invalid_if-nil
          (c.components.reminder.enabled && not (is_given c.components.reminder.notifier))
          reminder_notifier
          ((append-nil
            (invalid_if (c.components.reminder.enabled && is_blank c.postgres_dsn)
              reminder_component)
            (invalid_if
              (c.components.reminder.enabled && not (is_given c.components.reminder.notifier))
              reminder_notifier)
            rest_nil).1)

-- Config.Options accepts only a configuration whose components have their clients: pub/sub is enabled
-- only with a Redis address, and reminders only with a PostgreSQL DSN that is not blank and a
-- notifier.
pub options-HasClients :
    (is_host_port : Text → Bool) (parse_level : Text → ℕ) (c : Config) (opts : List Opt)
    → options is_host_port parse_level c ≡ ok opts
    → HasClients c
unfolding options validate
options-HasClients is_host_port parse_level c opts h =
    invalid_components-HasClients c
      ((append-nil (invalid_settings is_host_port c) (invalid_components c) (accept-ok _ _ h)).1)
