-- ===== src/Reminder/Options.antt =====
-- reminder/options.go: the worker's settings, their defaults, and the functional options, which
-- ignore a value that makes no sense. A `time.Duration` is a number of nanoseconds. The logger, the
-- telemetry and the clock are not settings of the model.
use wego.Prelude.{
  All-keep_if, ℕ, ◌*◌, true, false, List, [], ◌∷◌, Text, codes, is_empty, ℤ, pos, is_pos,
  if◌then◌else◌, All, ◌≡◌, arith, keep_if,
}

abbrev pub second : ℕ
second = 1_000_000_000

abbrev pub minute : ℕ
minute = 60_000_000_000

pub record Options : Type 0 where
  pub name : Text
  pub poll_interval : ℤ
  pub batch_size : ℤ
  pub processing_ttl : ℤ
  pub retry_delays : List ℤ

unfoldable pub default_options : Options
default_options = record {
  name = codes "reminder";
  poll_interval = pos second;
  batch_size = pos 32;
  processing_ttl = pos (2 * minute);
  retry_delays = pos minute ∷ pos (5 * minute) ∷ pos (30 * minute) ∷ [];
}

-- The functional options, as data: each is a change of the settings.
pub data Opt : Type 0 where
  with_name : Text → Opt
  with_poll_interval : ℤ → Opt
  with_batch_size : ℤ → Opt
  with_processing_ttl : ℤ → Opt
  with_retry_delays : List ℤ → Opt

unfoldable pub apply : Opt → Options → Options
apply (with_name name) o = if is_empty name then o else record o { name = name }
apply (with_poll_interval interval) o =
    if is_pos interval then record o { poll_interval = interval } else o
apply (with_batch_size size) o = if is_pos size then record o { batch_size = size } else o
apply (with_processing_ttl ttl) o = if is_pos ttl then record o { processing_ttl = ttl } else o
apply (with_retry_delays delays) o =
    let filtered = keep_if is_pos delays in
    if is_empty filtered then o else record o { retry_delays = filtered }

-- `for _, opt := range opts { opt(&options) }`
unfoldable pub apply_all : List Opt → Options → Options
unfolding apply
apply_all [] o = o
apply_all (opt ∷ opts) o = apply_all opts (apply opt o)

-- The settings that a worker can run with.
pub record IsUsable (o : Options) : Type 0 where
  pub named : is_empty o.name ≡ false
  pub polls : is_pos o.poll_interval ≡ true
  pub takes : is_pos o.batch_size ≡ true
  pub expires : is_pos o.processing_ttl ≡ true
  pub delays : is_empty o.retry_delays ≡ false
  pub waits : All (λ d. is_pos d ≡ true) o.retry_delays

default_options-IsUsable : IsUsable default_options
unfolding default_options
default_options-IsUsable = ground arith

apply-IsUsable : (opt : Opt) (o : Options) → IsUsable o → IsUsable (apply opt o)
unfolding apply
apply-IsUsable (with_name name) o h = ground arith
apply-IsUsable (with_poll_interval interval) o h = ground arith
apply-IsUsable (with_batch_size size) o h = ground arith
apply-IsUsable (with_processing_ttl ttl) o h = ground arith
apply-IsUsable (with_retry_delays delays) o h = ground (arith, All-keep_if is_pos delays)

apply_all-IsUsable : (opts : List Opt) (o : Options) → IsUsable o → IsUsable (apply_all opts o)
unfolding apply_all
apply_all-IsUsable [] o h = h
apply_all-IsUsable (opt ∷ opts) o h = apply_all-IsUsable opts _ (apply-IsUsable opt o h)

-- Whatever options are given, the settings of a service are usable: the name is not empty, the
-- poll interval, the batch size and the processing TTL are positive, and there is a retry delay,
-- all of which are positive.
pub options-IsUsable : (opts : List Opt) → IsUsable (apply_all opts default_options)
options-IsUsable opts = apply_all-IsUsable opts default_options default_options-IsUsable
