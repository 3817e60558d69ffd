-- ===== src/PubSub/Settings.antt =====
-- pubsub/options.go: the settings, their defaults, and the functional options, which keep what was
-- set where a value makes no sense.
use wego.Prelude.{
  is_blank, ◌≡◌, ◌*◌, Bool, true, false, List, [], ◌∷◌, Text, codes, trim_space, ℤ, pos, is_pos,
  if◌then◌else◌, arith,
}
use wego.Reminder.Options.{second}
use wego.PubSub.Decoding.{is_nil}
use wego.PubSub.{RetryPolicy, Options, or_default, or_default_list, or_default_text}

-- defaultOptions, for a service with or without a Redis client.
unfoldable pub default_options : Bool → Options
default_options connected = record {
  connected = connected;
  name = codes "pubsub";
  retry = record {
    max_deliver = pos 3;
    backoff = pos second ∷ pos (5 * second) ∷ pos (30 * second) ∷ [];
    idle_timeout = pos (30 * second);
    claim_interval = pos second;
  };
  prefix = codes "wego:pubsub";
  max_len = pos 10_000;
  approx_max_len = true;
  block = pos second;
  read_count = pos 16;
  dlq_enabled = true;
  dlq_suffix = codes ":dlq";
}

-- The functional options, as data.
pub data Opt : Type 0 where
  with_name : Text → Opt
  with_retry_policy : RetryPolicy → Opt
  with_stream_policy :
      (prefix : Text) → (max_len : ℤ) → (approx_max_len : Bool) → (block read_count : ℤ) → Opt
  with_dead_letters : (enabled : Bool) → (suffix : Text) → Opt

-- A name that is not blank, trimmed, or what was set.
abbrev pub named_or : Text → Text → Text
named_or name set = if is_blank name then set else trim_space name

unfoldable pub apply : Opt → Options → Options
apply (with_name name) o = record o { name = named_or name o.name }
apply (with_retry_policy policy) o = record o {
  retry = record {
    max_deliver = or_default policy.max_deliver o.retry.max_deliver;
    backoff = or_default_list policy.backoff o.retry.backoff;
    idle_timeout = or_default policy.idle_timeout o.retry.idle_timeout;
    claim_interval = or_default policy.claim_interval o.retry.claim_interval;
  };
}
apply (with_stream_policy prefix max_len approx_max_len block read_count) o = record o {
  prefix = named_or prefix o.prefix;
  max_len = or_default max_len o.max_len;
  approx_max_len = approx_max_len;
  block = or_default block o.block;
  read_count = or_default read_count o.read_count;
}
apply (with_dead_letters enabled suffix) o = record o {
  dlq_enabled = enabled;
  dlq_suffix = or_default_text suffix o.dlq_suffix;
}

-- `for _, opt := range opts { opt(&options) }`
unfoldable pub apply_all : List Opt → Options → Options
unfolding apply
apply_all [] o = o
apply_all (opt ∷ opts) o = apply_all opts (apply opt o)

-- The settings that the loops can run with.
pub record IsRunnable (o : Options) : Type 0 where
  pub delivers : is_pos o.retry.max_deliver ≡ true
  pub idles : is_pos o.retry.idle_timeout ≡ true
  pub claims : is_pos o.retry.claim_interval ≡ true
  pub bounded : is_pos o.max_len ≡ true
  pub blocks : is_pos o.block ≡ true
  pub reads : is_pos o.read_count ≡ true
  pub suffixed : is_nil o.dlq_suffix ≡ false

default_options-IsRunnable : (connected : Bool) → IsRunnable (default_options connected)
unfolding default_options
default_options-IsRunnable connected = ground arith

apply-IsRunnable : (opt : Opt) (o : Options) → IsRunnable o → IsRunnable (apply opt o)
unfolding apply
apply-IsRunnable (with_name name) o h = ground arith
apply-IsRunnable (with_retry_policy policy) o h = ground arith
apply-IsRunnable (with_stream_policy prefix max_len approx block read_count) o h = ground arith
apply-IsRunnable (with_dead_letters enabled []) o h = ground arith
apply-IsRunnable (with_dead_letters enabled (c ∷ s)) o h = ground arith

apply_all-IsRunnable :
    (opts : List Opt) (o : Options) → IsRunnable o → IsRunnable (apply_all opts o)
unfolding apply_all
apply_all-IsRunnable [] o h = h
apply_all-IsRunnable (opt ∷ opts) o h = apply_all-IsRunnable opts _ (apply-IsRunnable opt o h)

-- Whatever options are given, the settings of a pub/sub service are usable: the limit of
-- deliveries, the idle timeout, the claim interval, the length of a stream, the block time and the
-- read count are positive, and the suffix of the dead-letter streams is not empty.
pub settings-IsRunnable :
    (opts : List Opt) (connected : Bool) → IsRunnable (apply_all opts (default_options connected))
settings-IsRunnable opts connected =
    apply_all-IsRunnable opts (default_options connected) (default_options-IsRunnable connected)
