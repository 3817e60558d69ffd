-- ===== src/Config/Components.antt =====
-- options.go: mergePubSubComponentConfig, mergeReminderComponentConfig and the two buildOptions.
pub mod Building
use wego.Prelude.{
  Bool, true, false, Option, none, some, List, [], ◌∷◌, ◌++◌, Text, ℤ, pos, is_pos, if◌then◌else◌,
  ◌||◌,
}
use wego.PubSub.{or_default, or_default_list, or_default_text, RetryPolicy}
use wego.PubSub.Settings.{with_name, with_retry_policy, with_stream_policy, with_dead_letters}
use wego.PubSub.Settings as PubSubSettings
use wego.Reminder.Options as ReminderOptions
use wego.Config.{PubSubConfig, ReminderConfig, ComponentsConfig}

-- A pointer that is set, or the one from before.
abbrev pub or_before {ℓ} : {A : Type ℓ} → Option A → Option A → Option A
or_before none before = before
or_before (some a) before = some a

-- A list that is not empty, or the one from before.
abbrev pub list_or_before {ℓ} : {A : Type ℓ} → List A → List A → List A
list_or_before [] before = before
list_or_before (a ∷ rest) before = a ∷ rest

-- mergePubSubComponentConfig
unfoldable pub merge_pub_sub : PubSubConfig → PubSubConfig → PubSubConfig
merge_pub_sub current incoming = record {
  enabled = if incoming.enabled then true else current.enabled;
  name = or_default_text incoming.name current.name;
  retry_policy = or_before incoming.retry_policy current.retry_policy;
  stream_prefix = or_default_text incoming.stream_prefix current.stream_prefix;
  stream_max_len = or_default incoming.stream_max_len current.stream_max_len;
  stream_approx_max_len = or_before incoming.stream_approx_max_len current.stream_approx_max_len;
  stream_block = or_default incoming.stream_block current.stream_block;
  stream_read_count = or_default incoming.stream_read_count current.stream_read_count;
  dead_letter_enabled = or_before incoming.dead_letter_enabled current.dead_letter_enabled;
  dead_letter_suffix = or_default_text incoming.dead_letter_suffix current.dead_letter_suffix;
  options = list_or_before incoming.options current.options;
}

-- mergeReminderComponentConfig
unfoldable pub merge_reminder : ReminderConfig → ReminderConfig → ReminderConfig
merge_reminder current incoming = record {
  enabled = if incoming.enabled then true else current.enabled;
  notifier = or_before incoming.notifier current.notifier;
  name = or_default_text incoming.name current.name;
  poll_interval = or_default incoming.poll_interval current.poll_interval;
  batch_size = or_default incoming.batch_size current.batch_size;
  processing_ttl = or_default incoming.processing_ttl current.processing_ttl;
  retry_delays = list_or_before incoming.retry_delays current.retry_delays;
  options = list_or_before incoming.options current.options;
}

-- The configuration in which nothing is set.
unfoldable pub unset_components : ComponentsConfig
unset_components = record {
  pub_sub = record {
    enabled = false;
    name = [];
    retry_policy = none;
    stream_prefix = [];
    stream_max_len = pos 0;
    stream_approx_max_len = none;
    stream_block = pos 0;
    stream_read_count = pos 0;
    dead_letter_enabled = none;
    dead_letter_suffix = [];
    options = [];
  };
  reminder = record {
    enabled = false;
    notifier = none;
    name = [];
    poll_interval = pos 0;
    batch_size = pos 0;
    processing_ttl = pos 0;
    retry_delays = [];
    options = [];
  };
}

-- WithComponents
unfoldable pub merge_components : ComponentsConfig → ComponentsConfig → ComponentsConfig
unfolding merge_pub_sub merge_reminder
merge_components current incoming = record {
  pub_sub = merge_pub_sub current.pub_sub incoming.pub_sub;
  reminder = merge_reminder current.reminder incoming.reminder;
}

-- `s != ""`
abbrev pub is_set : Text → Bool
is_set [] = false
is_set (c ∷ s) = true

abbrev pub is_given {ℓ} : {A : Type ℓ} → Option A → Bool
is_given none = false
is_given (some a) = true

-- `value := false; if p != nil { value = *p }`
abbrev pub value_or_false : Option Bool → Bool
value_or_false none = false
value_or_false (some b) = b

-- A positive value, or 0.
abbrev pub pos_or_zero : ℤ → ℤ
pos_or_zero n = if is_pos n then n else pos 0

abbrev pub has_stream_policy : PubSubConfig → Bool
has_stream_policy cfg =
    is_set cfg.stream_prefix
    || is_pos cfg.stream_max_len
    || is_given cfg.stream_approx_max_len
    || is_pos cfg.stream_block
    || is_pos cfg.stream_read_count

abbrev pub has_dead_letter_policy : PubSubConfig → Bool
has_dead_letter_policy cfg = is_given cfg.dead_letter_enabled || is_set cfg.dead_letter_suffix

-- `if test { options = append(options, opt) }`
abbrev pub option_if {ℓ} : {A : Type ℓ} → Bool → A → List A
option_if test opt = if test then opt ∷ [] else []

abbrev pub retry_option : Option RetryPolicy → List PubSubSettings.Opt
retry_option none = []
retry_option (some policy) = with_retry_policy policy ∷ []

abbrev pub stream_option : PubSubConfig → PubSubSettings.Opt
stream_option cfg =
    with_stream_policy cfg.stream_prefix (pos_or_zero cfg.stream_max_len)
      (value_or_false cfg.stream_approx_max_len) (pos_or_zero cfg.stream_block)
      (pos_or_zero cfg.stream_read_count)

-- PubSubComponentConfig.buildOptions
unfoldable pub build_pub_sub : PubSubConfig → List PubSubSettings.Opt
build_pub_sub cfg =
    cfg.options
    ++ (option_if (is_set cfg.name) (with_name cfg.name)
        ++ (retry_option cfg.retry_policy
            ++ (option_if (has_stream_policy cfg) (stream_option cfg)
                ++ option_if (has_dead_letter_policy cfg) (
                    with_dead_letters (value_or_false cfg.dead_letter_enabled)
                      cfg.dead_letter_suffix))))

abbrev pub has_delays : List ℤ → Bool
has_delays [] = false
has_delays (d ∷ ds) = true

-- ReminderComponentConfig.buildOptions
unfoldable pub build_reminder : ReminderConfig → List ReminderOptions.Opt
build_reminder cfg =
    cfg.options
    ++ (option_if (is_set cfg.name) (ReminderOptions.with_name cfg.name)
        ++ (option_if (is_pos cfg.poll_interval)
              (ReminderOptions.with_poll_interval cfg.poll_interval)
            ++ (option_if (is_pos cfg.batch_size) (ReminderOptions.with_batch_size cfg.batch_size)
                ++ (option_if (is_pos cfg.processing_ttl)
                      (ReminderOptions.with_processing_ttl cfg.processing_ttl)
                    ++ option_if (has_delays cfg.retry_delays)
                        (ReminderOptions.with_retry_delays cfg.retry_delays)))))
