-- ===== src/Config/Components/Building.antt =====
-- options.go, buildOptions: the settings that a component runs with.
use wego.Prelude.{
  trim_space, ◌||◌, ◌≡◌, refl, ap, ◌∙◌, Bool, true, false, Option, none, some, List, [], ◌∷◌, ◌++◌,
  Text, ℤ, is_pos, if◌then◌else◌, arith,
}
use wego.PubSub.{Options, or_default, or_default_text, RetryPolicy, or_default_list}
use wego.PubSub.Settings.{Opt, apply, apply_all, named_or}
use wego.Config.{PubSubConfig}
use wego.Config.Components.{
  with_name, pos_or_zero, with_dead_letters, is_set, retry_option, build_pub_sub, option_if,
  has_stream_policy, has_dead_letter_policy, value_or_false, stream_option,
}

apply_all-append :
    (xs ys : List Opt) (o : Options) → apply_all (xs ++ ys) o ≡ apply_all ys (apply_all xs o)
unfolding apply_all
apply_all-append [] ys o = refl
apply_all-append (x ∷ xs) ys o = apply_all-append xs ys (apply x o)

-- The retry policy, where one is configured.
abbrev pub retry_or : Option RetryPolicy → RetryPolicy → RetryPolicy
retry_or none set = set
retry_or (some policy) set = record {
  max_deliver = or_default policy.max_deliver set.max_deliver;
  backoff = or_default_list policy.backoff set.backoff;
  idle_timeout = or_default policy.idle_timeout set.idle_timeout;
  claim_interval = or_default policy.claim_interval set.claim_interval;
}

-- The settings of a configuration over those of its own options.
unfoldable pub settings_over : PubSubConfig → Options → Options
settings_over cfg o = record o {
  name = named_or cfg.name o.name;
  retry = retry_or cfg.retry_policy o.retry;
  prefix = named_or cfg.stream_prefix o.prefix;
  max_len = or_default cfg.stream_max_len o.max_len;
  approx_max_len =
      if has_stream_policy cfg then value_or_false cfg.stream_approx_max_len else o.approx_max_len;
  block = or_default cfg.stream_block o.block;
  read_count = or_default cfg.stream_read_count o.read_count;
  dlq_enabled =
      if has_dead_letter_policy cfg then value_or_false cfg.dead_letter_enabled else o.dlq_enabled;
  dlq_suffix = or_default_text cfg.dead_letter_suffix o.dlq_suffix;
}

or_default-pos_or_zero : (m d : ℤ) → or_default (pos_or_zero m) d ≡ or_default m d
or_default-pos_or_zero m d = ground arith

or_default_unset : (m d : ℤ) → is_pos m ≡ false → or_default m d ≡ d
or_default_unset m d h = rw h refl

named_or_unset : (s d : Text) → is_set s ≡ false → named_or s d ≡ d
unfolding trim_space
named_or_unset [] d h = refl
named_or_unset (c ∷ s) d h = cc

text_unset : (s d : Text) → is_set s ≡ false → or_default_text s d ≡ d
text_unset [] d h = refl
text_unset (c ∷ s) d h = cc

or-false : (a b : Bool) → (a || b) ≡ false → (a ≡ false) × (b ≡ false)
or-false false b h = (refl, h)
or-false true b h = cc

-- The name.
name-settings :
    (name : Text) (b : Options)
    → apply_all (option_if (is_set name) (with_name name)) b
      ≡ record b { name = named_or name b.name }
unfolding apply_all apply trim_space
name-settings [] b = refl
name-settings (c ∷ s) b = refl

retry-settings :
    (policy : Option RetryPolicy) (b : Options)
    → apply_all (retry_option policy) b ≡ record b { retry = retry_or policy b.retry }
unfolding apply_all apply
retry-settings none b = refl
retry-settings (some policy) b = refl

-- The stream policy, with its test.
stream-settings :
    (cfg : PubSubConfig) (b : Options) (test : Bool)
    → has_stream_policy cfg ≡ test
    → apply_all (option_if test (stream_option cfg)) b ≡ record b {
      prefix = named_or cfg.stream_prefix b.prefix;
      max_len = or_default cfg.stream_max_len b.max_len;
      approx_max_len = if test then value_or_false cfg.stream_approx_max_len else b.approx_max_len;
      block = or_default cfg.stream_block b.block;
      read_count = or_default cfg.stream_read_count b.read_count;
    }
unfolding apply_all apply
stream-settings cfg b true h =
    rw
      (
        or_default-pos_or_zero cfg.stream_max_len b.max_len,
        or_default-pos_or_zero cfg.stream_block b.block,
        or_default-pos_or_zero cfg.stream_read_count b.read_count,
      )
      refl
stream-settings cfg b false h =
    let (abcd, e) = or-false _ _ h in
    let (abc, d) = or-false _ _ abcd in
    let (ab, c) = or-false _ _ abc in
    let (a, b') = or-false _ _ ab in
    rw
      (
        named_or_unset cfg.stream_prefix b.prefix a,
        or_default_unset cfg.stream_max_len b.max_len b',
        or_default_unset cfg.stream_block b.block d,
        or_default_unset cfg.stream_read_count b.read_count e,
      )
      refl

dead_letter-settings :
    (cfg : PubSubConfig) (b : Options) (test : Bool)
    → has_dead_letter_policy cfg ≡ test
    → apply_all
        (option_if test
          (with_dead_letters (value_or_false cfg.dead_letter_enabled) cfg.dead_letter_suffix))
        b
      ≡ record b {
        dlq_enabled = if test then value_or_false cfg.dead_letter_enabled else b.dlq_enabled;
        dlq_suffix = or_default_text cfg.dead_letter_suffix b.dlq_suffix;
      }
unfolding apply_all apply
dead_letter-settings cfg b true h = refl
dead_letter-settings cfg b false h =
    let (a, c) = or-false _ _ h in rw (text_unset cfg.dead_letter_suffix b.dlq_suffix c) refl

-- A pub/sub service that is built from a configuration runs with the configuration's values where
-- they are set, over the settings of its own options and the defaults: a name and a stream prefix
-- that are not blank, positive numbers, and a suffix that is not empty. The approximate
-- trimming is off, unless it is configured, as soon as any value of the stream is; and the dead
-- letters are off, unless they are configured, as soon as their suffix is.
pub build_pub_sub-settings_over :
    (cfg : PubSubConfig) (o : Options)
    → apply_all (build_pub_sub cfg) o ≡ settings_over cfg (apply_all cfg.options o)
unfolding build_pub_sub settings_over
build_pub_sub-settings_over cfg o =
    apply_all-append cfg.options _ o
    ∙ apply_all-append (option_if (is_set cfg.name) (with_name cfg.name)) _ b0
    ∙ ap (apply_all _) (name-settings cfg.name b0)
    ∙ apply_all-append (retry_option cfg.retry_policy) _ b1
    ∙ ap (apply_all _) (retry-settings cfg.retry_policy b1)
    ∙ apply_all-append (option_if (has_stream_policy cfg) (stream_option cfg)) _ b2
    ∙ ap (apply_all _) (stream-settings cfg b2 (has_stream_policy cfg) refl)
    ∙ dead_letter-settings cfg _ (has_dead_letter_policy cfg) refl
  where
    b0 : Options
    b0 = apply_all cfg.options o

    b1 : Options
    b1 = record b0 { name = named_or cfg.name b0.name }

    b2 : Options
    b2 = record b1 { retry = retry_or cfg.retry_policy b1.retry }

-- A configuration that sets the suffix of the dead-letter streams, and does not say whether dead
-- letters are enabled, disables them, whatever the settings before said.
pub build_pub_sub-disables :
    (cfg : PubSubConfig) (o : Options)
    → cfg.dead_letter_enabled ≡ none
    → is_set cfg.dead_letter_suffix ≡ true
    → (apply_all (build_pub_sub cfg) o).dlq_enabled ≡ false
unfolding settings_over
build_pub_sub-disables cfg o unsaid suffixed =
    ap (λ s. s.dlq_enabled) (build_pub_sub-settings_over cfg o) ∙ rw (unsaid, suffixed) refl
