-- ===== src/Config/Examples.antt =====
-- A configuration with pub/sub and reminders.
use wego.Prelude.{
  is_space, trim_space, ◌≡◌, refl, ℕ, Bool, true, false, none, some, [], Text, codes, pos, ◌∷◌,
}
use wego.Action.{ok}
use wego.PubSub.Settings.{default_options, apply_all as apply_settings}
use wego.Config.{PubSubConfig, ReminderConfig, ComponentsConfig}
use wego.Config.Components.{build_pub_sub, unset_components}
use wego.Config.Components.Building.{settings_over, build_pub_sub-settings_over}
use wego.Config.Options.LastSet.{IsMerged, with_components-IsMerged}
use wego.Config.Options.{with_components, Options, apply_all, units}
use wego.Config.Telemetry.{check_telemetry, telemetry_of, options-check_telemetry}
use wego.Config.Validation.{Config, options, options_of, register_default_components, connected}
use wego.Config.Validation.Accepted.{zero_options, is_configured, options-is_configured}

abbrev pub_sub : PubSubConfig
pub_sub = record {
  enabled = true;
  name = codes " events ";
  retry_policy = none;
  stream_prefix = [];
  stream_max_len = pos 0;
  stream_approx_max_len = none;
  stream_block = pos 0;
  stream_read_count = pos 64;
  dead_letter_enabled = none;
  dead_letter_suffix = codes ":dead";
  options = [];
}

abbrev reminder : ReminderConfig
reminder = record {
  enabled = true;
  notifier = some 4;
  name = [];
  poll_interval = pos 0;
  batch_size = pos 8;
  processing_ttl = pos 0;
  retry_delays = [];
  options = [];
}

abbrev components : ComponentsConfig
components = record { pub_sub = pub_sub; reminder = reminder }

build_pub_sub-settings_over_example :
    apply_settings (build_pub_sub pub_sub) (default_options true)
    ≡ settings_over pub_sub (apply_settings pub_sub.options (default_options true))
build_pub_sub-settings_over_example = build_pub_sub-settings_over pub_sub (default_options true)

-- Another batch and another prefix.
abbrev more : ComponentsConfig
more = record unset_components {
  pub_sub = record unset_components.pub_sub { stream_prefix = codes "shop:" };
  reminder = record unset_components.reminder { batch_size = pos 16 };
}

with_components-IsMerged_example :
    IsMerged zero_options.components
      (components ∷ more ∷ [])
      (apply_all (with_components components ∷ with_components more ∷ []) zero_options).components
with_components-IsMerged_example = with_components-IsMerged (components ∷ more ∷ []) zero_options

abbrev config : Config
config = record {
  profile = codes "shop";
  log_level = codes "info";
  telemetry = record {
    enabled = true;
    service_name = [];
    otlp_endpoint = codes "c:4317";
    insecure = false;
    trace_sample_ratio = units (pos 0);
  };
  http = record {
    port = pos 8080;
    read_header_timeout = pos 0;
    read_timeout = pos 0;
    write_timeout = pos 0;
    idle_timeout = pos 0;
    max_header_bytes = pos 0;
    max_body_bytes = pos 0;
    request_timeout = pos 0;
  };
  postgres_dsn = codes "postgres:";
  redis = record { addr = codes "r:6379"; password = []; db = pos 0 };
  etcd = record { endpoints = []; username = []; password = [] };
  components = components;
}

abbrev host_port : Text → Bool
host_port s = true

abbrev level : Text → ℕ
level s = 1

accepted : options host_port level config ≡ ok (options_of level config)
unfolding options trim_space is_space
accepted = refl

options-is_configured_example :
    is_configured (
      (register_default_components
        (apply_all (options_of level config) zero_options)
        (connected [] (apply_all (options_of level config) zero_options))).0)
    ≡ true
options-is_configured_example =
    options-is_configured host_port level config (options_of level config) [] accepted

abbrev made : Options
made = apply_all (options_of level config) zero_options

options-check_telemetry_example :
    (check_telemetry (telemetry_of made) ≡ none) × (telemetry_of made ≡ made.telemetry)
options-check_telemetry_example =
    options-check_telemetry host_port level config (options_of level config) accepted
