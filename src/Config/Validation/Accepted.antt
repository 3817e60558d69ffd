-- ===== src/Config/Validation/Accepted.antt =====
-- config.go and default_components.go: what a configuration that is accepted leads to.
use wego.Prelude.{
  subst, text_key, lookup, is_some, ◌≡◌, refl, ap, ◌∙◌, ℕ, Bool, true, false, Option, none, some,
  List, [], ◌∷◌, Text, is_empty, if◌then◌else◌, not, arith, pos,
}
use wego.Action.{ok_injective, ok}
use wego.Mesa.{
  normalize_component_name, Mesa, Component, MesaError, Server, register_component, register_items,
  is_new,
}
use wego.Config.Validation.Clients.{HasClients, options-HasClients}
use wego.Config.Components.{merge_components, or_before, is_given, unset_components}
use wego.Config.Options.{Options, Opt, apply_all, units}
use wego.Config.Validation.{
  pub_sub_name, component_named, Config, Field, validate, options, accept, options_of, DefaultError,
  refused, refused_or_nil, register_pub_sub, register_reminder, then_reminder,
  register_default_components, connected,
}

-- `options{}`
unfoldable pub zero_options : Options
unfolding unset_components
zero_options = record {
  log_level = 0;
  telemetry = record {
    enabled = false;
    service_name = [];
    otlp_endpoint = [];
    insecure = false;
    trace_sample_ratio = units (pos 0);
  };
  http_port = pos 0;
  http = record {
    port = pos 0;
    read_header_timeout = pos 0;
    read_timeout = pos 0;
    write_timeout = pos 0;
    idle_timeout = pos 0;
    max_header_bytes = pos 0;
    max_body_bytes = pos 0;
    request_timeout = pos 0;
  };
  etcd = record { endpoints = []; username = []; password = [] };
  dsn = [];
  redis = record { addr = []; password = []; db = pos 0 };
  servers = [];
  components = unset_components;
  service_scheme = [];
  profile = [];
}

-- Whether an error of the registration is none of those that a client is missing.
abbrev pub is_configured : Option DefaultError → Bool
is_configured none = true
is_configured (some (refused e)) = true
is_configured (some _) = false

refused_or_nil-is_configured :
    (r : Option MesaError × Mesa) → is_configured ((refused_or_nil r).0) ≡ true
refused_or_nil-is_configured (none, m) = refl
refused_or_nil-is_configured (some e, m) = refl

-- A claim about the runtime that a test leaves.
if-Mesa :
    {A : Type 0} (P : Mesa → Type 0) (b : Bool) (x y : A × Mesa)
    → P (x.1)
    → P (y.1)
    → P ((if b then x else y).1)
if-Mesa P true x y p q = p
if-Mesa P false x y p q = q

-- A claim about the error that a test leaves.
if-error :
    {A : Type 0} (P : A → Type 0) (b : Bool) (x y : A × Mesa)
    → (b ≡ true → P (x.0))
    → (b ≡ false → P (y.0))
    → P ((if b then x else y).0)
if-error P true x y p q = p refl
if-error P false x y p q = q refl

register_one-has_postgres :
    (c : Component) (m : Mesa)
    → (register_component (some c ∷ []) m).1.has_postgres ≡ m.has_postgres
unfolding register_component register_items
register_one-has_postgres c m =
    if-Mesa (λ n. n.has_postgres ≡ m.has_postgres) (is_new m.state) _ _
      (if-Mesa (λ n. n.has_postgres ≡ m.has_postgres) (is_empty (normalize_component_name c.name)) _
        _ refl
        (if-Mesa (λ n. n.has_postgres ≡ m.has_postgres)
          (is_some (lookup (normalize_component_name c.name) m.component_index)) _ _ refl refl))
      refl

refused_or_nil-same : (r : Option MesaError × Mesa) → (refused_or_nil r).1 ≡ r.1
refused_or_nil-same (none, m) = refl
refused_or_nil-same (some e, m) = refl

register_pub_sub-has_postgres :
    (o : Options) (m : Mesa) → (register_pub_sub o m).1.has_postgres ≡ m.has_postgres
unfolding register_pub_sub
register_pub_sub-has_postgres o m =
    if-Mesa (λ n. n.has_postgres ≡ m.has_postgres) (not o.components.pub_sub.enabled) _ _ refl
      (if-Mesa (λ n. n.has_postgres ≡ m.has_postgres) m.has_redis _ _
        (ap (λ n. n.has_postgres) (refused_or_nil-same (register_component (some service ∷ []) m))
          ∙ register_one-has_postgres service m)
        refl)
  where
    service : Component
    service = component_named 1 (pub_sub_name o.components.pub_sub)

register_pub_sub-is_configured :
    (o : Options) (m : Mesa)
    → (o.components.pub_sub.enabled ≡ true → m.has_redis ≡ true)
    → is_configured ((register_pub_sub o m).0) ≡ true
unfolding register_pub_sub
register_pub_sub-is_configured o m h =
    if-error (λ e. is_configured e ≡ true) (not o.components.pub_sub.enabled) _ _ (λ off. refl)
      (λ on.
        if-error (λ e. is_configured e ≡ true) m.has_redis _ _
          (λ has. refused_or_nil-is_configured _) (λ lacks. ground (arith, on, lacks, h)))

register_reminder-is_configured :
    (o : Options) (m : Mesa)
    → (o.components.reminder.enabled ≡ true → m.has_postgres ≡ true)
    → (o.components.reminder.enabled ≡ true → is_given o.components.reminder.notifier ≡ true)
    → is_configured ((register_reminder o m).0) ≡ true
unfolding register_reminder
register_reminder-is_configured o m h k =
    if-error (λ e. is_configured e ≡ true) (not o.components.reminder.enabled) _ _ (λ off. refl)
      (λ on.
        if-error (λ e. is_configured e ≡ true) (not m.has_postgres) _ _
          (λ lacks. ground (arith, on, lacks, h))
          (λ has.
            if-error (λ e. is_configured e ≡ true) (is_given o.components.reminder.notifier) _ _
              (λ given. refused_or_nil-is_configured _) (λ lacks. ground (arith, on, lacks, k))))

then_reminder-is_configured :
    (o : Options) (r : Option DefaultError × Mesa)
    → is_configured (r.0) ≡ true
    → is_configured ((register_reminder o (r.1)).0) ≡ true
    → is_configured ((then_reminder o r).0) ≡ true
then_reminder-is_configured o (none, m) h k = k
then_reminder-is_configured o (some e, m) h k = h

pub accept-options :
    (fields : List Field) (opts r : List Opt) → accept fields opts ≡ ok r → opts ≡ r
accept-options [] opts r h = ok_injective h
accept-options (f ∷ fields) opts r h = cc

enabled_same : (b : Bool) → (if b then true else false) ≡ true → b ≡ true
enabled_same true h = refl
enabled_same false h = h

given_same : (n : Option ℕ) → is_given n ≡ true → is_given (or_before n none) ≡ true
given_same none h = h
given_same (some a) h = refl

-- The runtime of the options that an accepted configuration makes.
made-is_configured :
    (parse_level : Text → ℕ) (c : Config) (own : List Server)
    → HasClients c
    → (let o = apply_all (options_of parse_level c) zero_options in
        is_configured ((register_default_components o (connected own o)).0) ≡ true)
unfolding register_default_components apply_all connected merge_components unset_components
    zero_options
made-is_configured parse_level c own has =
    then_reminder-is_configured o (register_pub_sub o m)
      (register_pub_sub-is_configured o m (λ on. has.redis_of (enabled_same _ on)))
      (register_reminder-is_configured o ((register_pub_sub o m).1)
        (λ on. register_pub_sub-has_postgres o m ∙ has.db_of (enabled_same _ on))
        (λ on. given_same _ (has.notifier_of (enabled_same _ on))))
  where
    o : Options
    o = apply_all (options_of parse_level c) zero_options

    m : Mesa
    m = connected own o

-- A runtime whose options come from a configuration that Config.Options accepts, and whose clients
-- all connect, never refuses its default components for want of Redis, a database or a notifier:
-- the only errors that are left come from RegisterComponent.
pub options-is_configured :
    (is_host_port : Text → Bool) (parse_level : Text → ℕ) (c : Config) (opts : List Opt)
    (own : List Server)
    → options is_host_port parse_level c ≡ ok opts
    → (let o = apply_all opts zero_options in
        is_configured ((register_default_components o (connected own o)).0) ≡ true)
unfolding options
options-is_configured is_host_port parse_level c opts own h =
    subst
      (λ os.
        is_configured (
          (register_default_components (apply_all os zero_options)
            (connected own (apply_all os zero_options))).0)
        ≡ true)
      (accept-options (validate is_host_port c) (options_of parse_level c) opts h)
      (made-is_configured parse_level c own (options-HasClients is_host_port parse_level c opts h))
