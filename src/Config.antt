-- ===== src/Config.antt =====
-- options.go: the options of a runtime, and the configuration of the default components. Loggers,
-- the TLS configuration and the etcd client's other settings are not settings of the model.
pub mod Components
pub mod Options
pub mod Validation
pub mod Runtime
pub mod Telemetry
mod Examples
use wego.Prelude.{ℕ, Bool, Option, List, Text, ℤ}
use wego.PubSub.{RetryPolicy}
use wego.PubSub.Settings as PubSubSettings
use wego.Reminder.Options as ReminderOptions

pub record PubSubConfig : Type 0 where
  pub enabled : Bool
  pub name : Text
  pub retry_policy : Option RetryPolicy
  pub stream_prefix : Text
  pub stream_max_len : ℤ
  pub stream_approx_max_len : Option Bool
  pub stream_block : ℤ
  pub stream_read_count : ℤ
  pub dead_letter_enabled : Option Bool
  pub dead_letter_suffix : Text
  pub options : List PubSubSettings.Opt

-- A notifier by a handle.
pub record ReminderConfig : Type 0 where
  pub enabled : Bool
  pub notifier : Option ℕ
  pub name : Text
  pub poll_interval : ℤ
  pub batch_size : ℤ
  pub processing_ttl : ℤ
  pub retry_delays : List ℤ
  pub options : List ReminderOptions.Opt

pub record ComponentsConfig : Type 0 where
  pub pub_sub : PubSubConfig
  pub reminder : ReminderConfig
