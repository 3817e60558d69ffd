-- ===== src/Config/Options/LastSet.antt =====
-- options.go, WithComponents: any number of these options, by what each field is set to last.
use wego.Prelude.{
  ◌≡◌, refl, ap, ◌∙◌, Bool, true, false, Option, none, some, List, [], ◌∷◌, map, Text, ℤ, is_pos,
  if◌then◌else◌,
}
use wego.PubSub.{or_default, or_default_text}
use wego.Config.{ComponentsConfig}
use wego.Config.Components.{or_before, list_or_before, merge_components, is_set, is_given}
use wego.Config.Options.{Options, apply, apply_all, with_components}

-- The last of some values that is set, or else the one from before.
unfoldable pub last_set {ℓ} : {A : Type ℓ} → (A → Bool) → A → List A → A
last_set sets before [] = before
last_set sets before (a ∷ xs) = last_set sets (if sets a then a else before) xs

-- `len(list) > 0`
abbrev pub has_items {ℓ} : {A : Type ℓ} → List A → Bool
has_items [] = false
has_items (a ∷ xs) = true

enabled-last : (b before : Bool) → (if b then true else before) ≡ (if b then b else before)
enabled-last true before = refl
enabled-last false before = refl

or_default-last : (a before : ℤ) → or_default a before ≡ (if is_pos a then a else before)
or_default-last a before = refl

or_default_text-last :
    (a before : Text) → or_default_text a before ≡ (if is_set a then a else before)
or_default_text-last [] before = refl
or_default_text-last (c ∷ s) before = refl

or_before-last {ℓ} :
    {A : Type ℓ} (a before : Option A) → or_before a before ≡ (if is_given a then a else before)
or_before-last none before = refl
or_before-last (some a) before = refl

list_or_before-last {ℓ} :
    {A : Type ℓ} (a before : List A) → list_or_before a before ≡ (if has_items a then a else before)
list_or_before-last [] before = refl
list_or_before-last (a ∷ xs) before = refl

-- A field of a configuration that has been merged from others, in their order.
abbrev pub LastOf :
    {A : Type 0}
    → (A → Bool)
    → (ComponentsConfig → A)
    → ComponentsConfig
    → List ComponentsConfig
    → ComponentsConfig
    → Type 0
LastOf sets get before cfgs merged = get merged ≡ last_set sets (get before) (map get cfgs)

-- Each field has the last value that sets it, or else the one from before.
pub record IsMerged (before : ComponentsConfig) (cfgs : List ComponentsConfig)
    (merged : ComponentsConfig) : Type 0 where
  pub pub_sub_enabled : LastOf (λ b. b) (λ c. c.pub_sub.enabled) before cfgs merged
  pub pub_sub_name : LastOf (is_set) (λ c. c.pub_sub.name) before cfgs merged
  pub pub_sub_retry_policy : LastOf (is_given) (λ c. c.pub_sub.retry_policy) before cfgs merged
  pub pub_sub_stream_prefix : LastOf (is_set) (λ c. c.pub_sub.stream_prefix) before cfgs merged
  pub pub_sub_stream_max_len : LastOf (is_pos) (λ c. c.pub_sub.stream_max_len) before cfgs merged
  pub pub_sub_stream_approx_max_len :
      LastOf (is_given) (λ c. c.pub_sub.stream_approx_max_len) before cfgs merged
  pub pub_sub_stream_block : LastOf (is_pos) (λ c. c.pub_sub.stream_block) before cfgs merged
  pub pub_sub_stream_read_count :
      LastOf (is_pos) (λ c. c.pub_sub.stream_read_count) before cfgs merged
  pub pub_sub_dead_letter_enabled :
      LastOf (is_given) (λ c. c.pub_sub.dead_letter_enabled) before cfgs merged
  pub pub_sub_dead_letter_suffix :
      LastOf (is_set) (λ c. c.pub_sub.dead_letter_suffix) before cfgs merged
  pub pub_sub_options : LastOf (has_items) (λ c. c.pub_sub.options) before cfgs merged
  pub reminder_enabled : LastOf (λ b. b) (λ c. c.reminder.enabled) before cfgs merged
  pub reminder_notifier : LastOf (is_given) (λ c. c.reminder.notifier) before cfgs merged
  pub reminder_name : LastOf (is_set) (λ c. c.reminder.name) before cfgs merged
  pub reminder_poll_interval : LastOf (is_pos) (λ c. c.reminder.poll_interval) before cfgs merged
  pub reminder_batch_size : LastOf (is_pos) (λ c. c.reminder.batch_size) before cfgs merged
  pub reminder_processing_ttl : LastOf (is_pos) (λ c. c.reminder.processing_ttl) before cfgs merged
  pub reminder_retry_delays : LastOf (has_items) (λ c. c.reminder.retry_delays) before cfgs merged
  pub reminder_options : LastOf (has_items) (λ c. c.reminder.options) before cfgs merged

module _ (before c : ComponentsConfig) (cfgs : List ComponentsConfig)
    (merged : ComponentsConfig) where
  -- A field of one more configuration before the others.
  step :
      {A : Type 0} (sets : A → Bool) (get : ComponentsConfig → A)
      → LastOf sets get (merge_components before c) cfgs merged
      → get (merge_components before c) ≡ (if sets (get c) then get c else get before)
      → LastOf sets get before (c ∷ cfgs) merged
  unfolding last_set
  step sets get h e = h ∙ ap (λ z. last_set sets z (map get cfgs)) e

  add-IsMerged :
      IsMerged (merge_components before c) cfgs merged → IsMerged before (c ∷ cfgs) merged
  unfolding merge_components
  add-IsMerged h = record {
    pub_sub_enabled =
        step (λ b. b) (λ c. c.pub_sub.enabled) h.pub_sub_enabled
          (enabled-last c.pub_sub.enabled before.pub_sub.enabled);
    pub_sub_name =
        step (is_set) (λ c. c.pub_sub.name) h.pub_sub_name
          (or_default_text-last c.pub_sub.name before.pub_sub.name);
    pub_sub_retry_policy =
        step (is_given) (λ c. c.pub_sub.retry_policy) h.pub_sub_retry_policy
          (or_before-last c.pub_sub.retry_policy before.pub_sub.retry_policy);
    pub_sub_stream_prefix =
        step (is_set) (λ c. c.pub_sub.stream_prefix) h.pub_sub_stream_prefix
          (or_default_text-last c.pub_sub.stream_prefix before.pub_sub.stream_prefix);
    pub_sub_stream_max_len =
        step (is_pos) (λ c. c.pub_sub.stream_max_len) h.pub_sub_stream_max_len
          (or_default-last c.pub_sub.stream_max_len before.pub_sub.stream_max_len);
    pub_sub_stream_approx_max_len =
        step (is_given) (λ c. c.pub_sub.stream_approx_max_len) h.pub_sub_stream_approx_max_len
          (or_before-last c.pub_sub.stream_approx_max_len before.pub_sub.stream_approx_max_len);
    pub_sub_stream_block =
        step (is_pos) (λ c. c.pub_sub.stream_block) h.pub_sub_stream_block
          (or_default-last c.pub_sub.stream_block before.pub_sub.stream_block);
    pub_sub_stream_read_count =
        step (is_pos) (λ c. c.pub_sub.stream_read_count) h.pub_sub_stream_read_count
          (or_default-last c.pub_sub.stream_read_count before.pub_sub.stream_read_count);
    pub_sub_dead_letter_enabled =
        step (is_given) (λ c. c.pub_sub.dead_letter_enabled) h.pub_sub_dead_letter_enabled
          (or_before-last c.pub_sub.dead_letter_enabled before.pub_sub.dead_letter_enabled);
    pub_sub_dead_letter_suffix =
        step (is_set) (λ c. c.pub_sub.dead_letter_suffix) h.pub_sub_dead_letter_suffix
          (or_default_text-last c.pub_sub.dead_letter_suffix before.pub_sub.dead_letter_suffix);
    pub_sub_options =
        step (has_items) (λ c. c.pub_sub.options) h.pub_sub_options
          (list_or_before-last c.pub_sub.options before.pub_sub.options);
    reminder_enabled =
        step (λ b. b) (λ c. c.reminder.enabled) h.reminder_enabled
          (enabled-last c.reminder.enabled before.reminder.enabled);
    reminder_notifier =
        step (is_given) (λ c. c.reminder.notifier) h.reminder_notifier
          (or_before-last c.reminder.notifier before.reminder.notifier);
    reminder_name =
        step (is_set) (λ c. c.reminder.name) h.reminder_name
          (or_default_text-last c.reminder.name before.reminder.name);
    reminder_poll_interval =
        step (is_pos) (λ c. c.reminder.poll_interval) h.reminder_poll_interval
          (or_default-last c.reminder.poll_interval before.reminder.poll_interval);
    reminder_batch_size =
        step (is_pos) (λ c. c.reminder.batch_size) h.reminder_batch_size
          (or_default-last c.reminder.batch_size before.reminder.batch_size);
    reminder_processing_ttl =
        step (is_pos) (λ c. c.reminder.processing_ttl) h.reminder_processing_ttl
          (or_default-last c.reminder.processing_ttl before.reminder.processing_ttl);
    reminder_retry_delays =
        step (has_items) (λ c. c.reminder.retry_delays) h.reminder_retry_delays
          (list_or_before-last c.reminder.retry_delays before.reminder.retry_delays);
    reminder_options =
        step (has_items) (λ c. c.reminder.options) h.reminder_options
          (list_or_before-last c.reminder.options before.reminder.options);
  }

-- Any number of WithComponents, one after the other, leave each field of the components'
-- configuration at the last value that sets it, or else xs it was: a text that is not empty, a number
-- that is positive, a pointer that is not nil, a list that has items; and a component is enabled
-- where it was, or where one of them enables it.
pub with_components-IsMerged :
    (cfgs : List ComponentsConfig) (o : Options)
    → IsMerged o.components cfgs (apply_all (map (λ c. with_components c) cfgs) o).components
unfolding apply_all last_set
with_components-IsMerged [] o = record {
  pub_sub_enabled = refl;
  pub_sub_name = refl;
  pub_sub_retry_policy = refl;
  pub_sub_stream_prefix = refl;
  pub_sub_stream_max_len = refl;
  pub_sub_stream_approx_max_len = refl;
  pub_sub_stream_block = refl;
  pub_sub_stream_read_count = refl;
  pub_sub_dead_letter_enabled = refl;
  pub_sub_dead_letter_suffix = refl;
  pub_sub_options = refl;
  reminder_enabled = refl;
  reminder_notifier = refl;
  reminder_name = refl;
  reminder_poll_interval = refl;
  reminder_batch_size = refl;
  reminder_processing_ttl = refl;
  reminder_retry_delays = refl;
  reminder_options = refl;
}
with_components-IsMerged (c ∷ cfgs) o =
    add-IsMerged o.components c cfgs _ (with_components-IsMerged cfgs (apply (with_components c) o))
