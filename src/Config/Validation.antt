-- ===== src/Config/Validation.antt =====
-- config.go: Config.Validate and Config.Options, and default_components.go: the default components
-- of the runtime that New makes of these options. net.SplitHostPort is the argument `is_host_port`.
pub mod Clients
pub mod Accepted
use wego.Prelude.{
  is_blank, ◌≡◌, ℕ, zero, suc, ◌^◌, Bool, true, false, Option, none, some, List, [], ◌∷◌, ◌++◌,
  Text, codes, is_empty, trim_space, ℤ, pos, is_pos, is_neg, pos_part, ltb, if◌then◌else◌, ◌&&◌,
  ◌||◌, not,
}
use wego.Action.{Result, ok, err}
use wego.Mesa.{Mesa, Component, MesaError, Server, RuntimeState, new, register_component}
use wego.PubSub.Settings as PubSubSettings
use wego.Reminder.Options as ReminderOptions
use wego.Config.{PubSubConfig, ReminderConfig, ComponentsConfig}
use wego.Config.Components.{is_set, is_given, build_pub_sub, build_reminder}
use wego.Config.Options.{
  HttpConfig, RedisConfig, EtcdConfig, TelemetryConfig, Float, nan, negative_infinity, infinity,
  units, Options, Opt, with_profile, with_log_level, with_telemetry, with_http_config, with_dsn,
  with_redis_config, with_etcd_config, with_components,
}

pub record Config : Type 0 where
  pub profile : Text
  pub log_level : Text
  pub telemetry : TelemetryConfig
  pub http : HttpConfig
  pub postgres_dsn : Text
  pub redis : RedisConfig
  pub etcd : EtcdConfig
  pub components : ComponentsConfig

-- ConfigError, by its field.
pub data Field : Type 0 where
  http_port trace_sample_ratio service_name otlp_endpoint : Field
  read_header_timeout read_timeout write_timeout idle_timeout request_timeout : Field
  max_header_bytes max_body_bytes redis_addr redis_db : Field
  etcd_endpoint : ℕ → Field
  etcd_auth pub_sub_component reminder_component reminder_notifier : Field

-- `ratio < 0 || ratio > 1`
abbrev pub out_of_unit : Float → Bool
out_of_unit nan = false
out_of_unit negative_infinity = true
out_of_unit infinity = true
out_of_unit (units n) = is_neg n || ltb (2 ^ 1074) (pos_part n)

-- `if test { invalid(field, …) }`
abbrev pub invalid_if : Bool → Field → List Field
invalid_if test field = if test then field ∷ [] else []

-- `for i, endpoint := range c.Etcd.Endpoints`
unfoldable pub invalid_endpoints : ℕ → List Text → List Field
invalid_endpoints i [] = []
invalid_endpoints i (e ∷ endpoints) =
    invalid_if (is_blank e) (etcd_endpoint i) ++ invalid_endpoints (suc i) endpoints

-- The fields of a client that is configured.
abbrev pub invalid_redis : (Text → Bool) → RedisConfig → List Field
invalid_redis is_host_port redis =
    if is_set redis.addr
    then invalid_if (not (is_host_port redis.addr)) redis_addr
      ++ invalid_if (is_neg redis.db) redis_db
    else []

abbrev pub invalid_telemetry : Text → TelemetryConfig → List Field
invalid_telemetry profile t =
    if t.enabled
    then invalid_if (is_blank t.service_name && is_blank profile) service_name
      ++ invalid_if (is_blank t.otlp_endpoint) otlp_endpoint
    else []

-- The map of timeouts is ranged over in any order; here in the order of the source.
abbrev pub invalid_http : HttpConfig → List Field
invalid_http h =
    invalid_if (is_neg h.read_header_timeout) read_header_timeout
    ++ (invalid_if (is_neg h.read_timeout) read_timeout
        ++ (invalid_if (is_neg h.write_timeout) write_timeout
            ++ (invalid_if (is_neg h.idle_timeout) idle_timeout
                ++ (invalid_if (is_neg h.request_timeout) request_timeout
                    ++ (invalid_if (is_neg h.max_header_bytes) max_header_bytes
                        ++ invalid_if (is_neg h.max_body_bytes) max_body_bytes)))))

-- `(username == "") != (password == "")`
abbrev pub half_auth : EtcdConfig → Bool
half_auth e =
    is_set e.username && not (is_set e.password) || not (is_set e.username) && is_set e.password

abbrev pub invalid_components : Config → List Field
invalid_components c =
    invalid_if (c.components.pub_sub.enabled && not (is_set c.redis.addr)) pub_sub_component
    ++ (invalid_if (c.components.reminder.enabled && is_blank c.postgres_dsn) reminder_component
        ++ invalid_if
            (c.components.reminder.enabled && not (is_given c.components.reminder.notifier))
            reminder_notifier)

-- The fields outside the components.
abbrev pub invalid_settings : (Text → Bool) → Config → List Field
invalid_settings is_host_port c =
    invalid_if (is_neg c.http.port || ltb 65535 (pos_part c.http.port)) http_port
    ++ (invalid_if (out_of_unit c.telemetry.trace_sample_ratio) trace_sample_ratio
        ++ (invalid_telemetry c.profile c.telemetry
            ++ (invalid_http c.http
                ++ (invalid_redis is_host_port c.redis
                    ++ (invalid_endpoints 0 c.etcd.endpoints
                        ++ invalid_if (half_auth c.etcd) etcd_auth)))))

-- Config.Validate: the invalid fields.
unfoldable pub validate : (Text → Bool) → Config → List Field
unfolding invalid_endpoints
validate is_host_port c = invalid_settings is_host_port c ++ invalid_components c

-- The service's name, the profile's where it is blank.
abbrev pub named_telemetry : Text → TelemetryConfig → TelemetryConfig
named_telemetry profile t =
    if is_blank t.service_name then record t { service_name = trim_space profile } else t

-- logger.ParseLevel is an argument.
abbrev pub options_of : (Text → ℕ) → Config → List Opt
options_of parse_level c =
    with_profile c.profile
    ∷ with_log_level (parse_level c.log_level)
    ∷ with_telemetry (named_telemetry c.profile c.telemetry)
    ∷ with_http_config c.http
    ∷ with_dsn c.postgres_dsn
    ∷ with_redis_config c.redis
    ∷ with_etcd_config c.etcd
    ∷ with_components c.components
    ∷ []

abbrev pub accept : List Field → List Opt → Result (List Field) (List Opt)
accept [] opts = ok opts
accept (f ∷ fields) opts = err (f ∷ fields)

-- Config.Options
unfoldable pub options : (Text → Bool) → (Text → ℕ) → Config → Result (List Field) (List Opt)
unfolding validate
options is_host_port parse_level c = accept (validate is_host_port c) (options_of parse_level c)

-- default_components.go

pub data DefaultError : Type 0 where
  redis_not_configured reminder_db_not_configured notifier_not_configured : DefaultError
  refused : MesaError → DefaultError

-- `return m.RegisterComponent(service)`
abbrev pub refused_or_nil : Option MesaError × Mesa → Option DefaultError × Mesa
refused_or_nil (none, m) = (none, m)
refused_or_nil (some e, m) = (some (refused e), m)

unfoldable pub pub_sub_name : PubSubConfig → Text
pub_sub_name cfg =
    (PubSubSettings.apply_all (build_pub_sub cfg) (PubSubSettings.default_options true)).name

unfoldable pub reminder_name : ReminderConfig → Text
reminder_name cfg =
    (ReminderOptions.apply_all (build_reminder cfg) ReminderOptions.default_options).name

abbrev pub component_named : ℕ → Text → Component
component_named tag name = record { handle = tag; name = name; type_tag = tag }

-- The registrar "pubsub", where it is enabled.
unfoldable pub register_pub_sub : Options → Mesa → Option DefaultError × Mesa
register_pub_sub o m =
    let service = component_named 1 (pub_sub_name o.components.pub_sub) in
    let registered = refused_or_nil (register_component (some service ∷ []) m) in
    if not o.components.pub_sub.enabled
    then (none, m)
    else if m.has_redis
    then registered
    else (some redis_not_configured, m)

-- The registrar "reminder", where it is enabled.
unfoldable pub register_reminder : Options → Mesa → Option DefaultError × Mesa
register_reminder o m =
    let service = component_named 2 (reminder_name o.components.reminder) in
    let registered = refused_or_nil (register_component (some service ∷ []) m) in
    if not o.components.reminder.enabled
    then (none, m)
    else if not m.has_postgres
    then (some reminder_db_not_configured, m)
    else if is_given o.components.reminder.notifier
    then registered
    else (some notifier_not_configured, m)

abbrev pub then_reminder : Options → Option DefaultError × Mesa → Option DefaultError × Mesa
then_reminder o (some e, m) = (some e, m)
then_reminder o (none, m) = register_reminder o m

-- registerDefaultComponents
unfoldable pub register_default_components : Options → Mesa → Option DefaultError × Mesa
unfolding register_pub_sub register_reminder
register_default_components o m = then_reminder o (register_pub_sub o m)

abbrev pub has_endpoints : List Text → Bool
has_endpoints [] = false
has_endpoints (e ∷ endpoints) = true

-- The runtime that New makes before it registers components, if every client connects.
unfoldable pub connected : List Server → Options → Mesa
connected own o = record {
  state = new;
  components = [];
  component_index = [];
  servers = own ++ o.servers;
  has_etcd = has_endpoints o.etcd.endpoints;
  has_redis = is_set o.redis.addr;
  has_postgres = is_set o.dsn;
  has_cancel = false;
  shutdown_done = false;
  shutdown_err = [];
}
