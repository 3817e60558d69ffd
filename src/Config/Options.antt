-- ===== src/Config/Options.antt =====
-- options.go: the functional options of a runtime, as data, and what they set.
pub mod LastSet
use wego.Prelude.{ℕ, Bool, true, Option, List, [], ◌∷◌, Text, ℤ, is_pos, if◌then◌else◌}
use wego.Mesa.{Server}
use wego.PubSub.Settings as PubSubSettings
use wego.Reminder.Options as ReminderOptions
use wego.Config.{ComponentsConfig}
use wego.Config.Components.{merge_components, unset_components}

pub record HttpConfig : Type 0 where
  pub port : ℤ
  pub read_header_timeout : ℤ
  pub read_timeout : ℤ
  pub write_timeout : ℤ
  pub idle_timeout : ℤ
  pub max_header_bytes : ℤ
  pub max_body_bytes : ℤ
  pub request_timeout : ℤ

pub record RedisConfig : Type 0 where
  pub addr : Text
  pub password : Text
  pub db : ℤ

-- clientv3.Config, with the fields that are read
pub record EtcdConfig : Type 0 where
  pub endpoints : List Text
  pub username : Text
  pub password : Text

-- A float64 that is compared with 0 and 1: not a number, infinite, or a multiple of 2 ^ -1074.
pub data Float : Type 0 where
  nan negative_infinity infinity : Float
  units : ℤ → Float

-- telemetry.Config
pub record TelemetryConfig : Type 0 where
  pub enabled : Bool
  pub service_name : Text
  pub otlp_endpoint : Text
  pub insecure : Bool
  pub trace_sample_ratio : Float

-- options
pub record Options : Type 0 where
  pub log_level : ℕ
  pub telemetry : TelemetryConfig
  pub http_port : ℤ
  pub http : HttpConfig
  pub etcd : EtcdConfig
  pub dsn : Text
  pub redis : RedisConfig
  pub servers : List Server
  pub components : ComponentsConfig
  -- The name of the service scheme.
  pub service_scheme : Text
  pub profile : Text

pub data Opt : Type 0 where
  with_profile with_service_scheme with_dsn : Text → Opt
  with_telemetry : TelemetryConfig → Opt
  with_http_port : ℤ → Opt
  with_http_config : HttpConfig → Opt
  with_log_level : ℕ → Opt
  with_servers : List Server → Opt
  with_etcd_config : EtcdConfig → Opt
  with_redis_config : RedisConfig → Opt
  with_components : ComponentsConfig → Opt
  with_pub_sub : List PubSubSettings.Opt → Opt
  with_reminder : Option ℕ → List ReminderOptions.Opt → Opt

-- The configuration that WithPubSub merges.
unfoldable pub pub_sub_only : List PubSubSettings.Opt → ComponentsConfig
unfolding unset_components
pub_sub_only opts = record unset_components {
  pub_sub = record unset_components.pub_sub { enabled = true; options = opts };
}

-- The configuration that WithReminder merges.
unfoldable pub reminder_only : Option ℕ → List ReminderOptions.Opt → ComponentsConfig
unfolding unset_components
reminder_only notifier opts = record unset_components {
  reminder = record unset_components.reminder {
    enabled = true;
    notifier = notifier;
    options = opts;
  };
}

unfoldable pub apply : Opt → Options → Options
unfolding merge_components pub_sub_only reminder_only
apply (with_profile p) o = record o { profile = p }
apply (with_telemetry cfg) o = record o { telemetry = cfg }
apply (with_service_scheme scheme) o = record o { service_scheme = scheme }
apply (with_dsn dsn) o = record o { dsn = dsn }
apply (with_http_port port) o = record o { http_port = port }
apply (with_http_config cfg) o = record o {
  http = cfg;
  http_port = if is_pos cfg.port then cfg.port else o.http_port;
}
apply (with_log_level level) o = record o { log_level = level }
apply (with_servers servers) o = record o { servers = servers }
apply (with_etcd_config config) o = record o { etcd = config }
apply (with_redis_config cfg) o = record o { redis = cfg }
apply (with_components cfg) o = record o { components = merge_components o.components cfg }
apply (with_pub_sub opts) o = record o {
  components = merge_components o.components (pub_sub_only opts);
}
apply (with_reminder notifier opts) o = record o {
  components = merge_components o.components (reminder_only notifier opts);
}

-- `for _, opt := range opts { opt(&o) }`
unfoldable pub apply_all : List Opt → Options → Options
unfolding apply
apply_all [] o = o
apply_all (opt ∷ opts) o = apply_all opts (apply opt o)
