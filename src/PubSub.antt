-- ===== src/PubSub.antt =====
-- pubsub/: messages on Redis streams. The types of message.go, router.go and options.go, and the
-- keys of store.go.
pub mod Decoding
pub mod Settings
pub mod Router
pub mod Service
pub mod Publishing
pub mod Numbers
pub mod Polling
pub mod Starting
pub mod Promotion
mod Examples
mod CodecExamples
mod RetryExamples
mod WorkerExamples
use wego.Prelude.{
  ℕ, ◌≡◌, Bool, List, [], ◌∷◌, ◌++◌, Text, codes, trim_space, to_lower, Unicode, ℤ, pos, is_pos,
  GoMap, if◌then◌else◌,
}
use wego.Reminder.Model.{Time}

pub data Error : Type 0 where
  redis_not_configured service_started invalid_topic invalid_message : Error
  invalid_subscription handler_required : Error
  duplicate_subscription : Text → Error
  -- An error of Redis, by its message.
  redis_error : Text → Error
  -- An error of json.Marshal.
  marshal_error : Text → Error

pub record Message : Type 0 where
  pub key : Text
  pub message_type : Text
  pub data_bytes : Text
  pub headers : GoMap Text Text
  pub max_deliver : ℤ
  pub scheduled_at : Time

pub record Delivery : Type 0 where
  pub id : Text
  pub topic : Text
  pub group : Text
  pub consumer : Text
  pub attempt : ℤ
  pub published_at : Time
  pub message : Message
  pub raw : GoMap Text Text

pub record Entry : Type 0 where
  pub id : Text
  pub values : GoMap Text Text

-- retryEnvelope
pub record Envelope : Type 0 where
  pub topic : Text
  pub group : Text
  pub message : Message
  pub attempt : ℤ
  pub published_at : Time

pub record RetryPolicy : Type 0 where
  pub max_deliver : ℤ
  pub backoff : List ℤ
  pub idle_timeout : ℤ
  pub claim_interval : ℤ

-- A Subscription without its handler, which is the environment's.
pub record Subscription : Type 0 where
  pub topic : Text
  pub group : Text
  pub consumer : Text
  pub concurrency : ℤ
  pub has_handler : Bool
  pub retry : RetryPolicy

-- The settings, and whether the store has a Redis client. The logger, the telemetry, the clock and
-- the namer of consumers are not settings of the model.
pub record Options : Type 0 where
  pub connected : Bool
  pub name : Text
  pub retry : RetryPolicy
  pub prefix : Text
  pub max_len : ℤ
  pub approx_max_len : Bool
  pub block : ℤ
  pub read_count : ℤ
  pub dlq_enabled : Bool
  pub dlq_suffix : Text

module _ ⦃u : Unicode⦄ where
  unfoldable pub normalize_topic : Text → Text
  normalize_topic topic = trim_space (to_lower topic)

  unfoldable pub normalize_group : Text → Text
  normalize_group group = trim_space (to_lower group)

  -- The key of a router's map.
  unfoldable pub subscription_key : Text → Text → Text
  unfolding normalize_topic normalize_group
  subscription_key topic group = normalize_topic topic ++ codes "::" ++ normalize_group group

  unfoldable pub stream_key : Options → Text → Text
  unfolding normalize_topic
  stream_key o topic = o.prefix ++ codes ":" ++ normalize_topic topic

  unfoldable pub dlq_key : Options → Text → Text
  unfolding stream_key
  dlq_key o topic = stream_key o topic ++ o.dlq_suffix

  unfoldable pub retry_key : Options → Text → Text → Text
  unfolding stream_key normalize_group
  retry_key o topic group = stream_key o topic ++ codes ":retry:" ++ normalize_group group

-- A value that is set, or the default.
abbrev pub or_default : ℤ → ℤ → ℤ
or_default value default_value = if is_pos value then value else default_value

abbrev pub or_default_list : List ℤ → List ℤ → List ℤ
or_default_list [] default_list = default_list
or_default_list (d ∷ ds) default_list = d ∷ ds

-- `if s != "" { … = s }`
abbrev pub or_default_text : Text → Text → Text
or_default_text [] default_text = default_text
or_default_text (c ∷ s) default_text = c ∷ s

-- effectiveRetry: the subscription's policy where it sets a value, the service's elsewhere.
unfoldable pub effective_retry : Subscription → RetryPolicy → RetryPolicy
effective_retry sub defaults = record {
  max_deliver = or_default sub.retry.max_deliver defaults.max_deliver;
  backoff = or_default_list sub.retry.backoff defaults.backoff;
  idle_timeout = or_default sub.retry.idle_timeout defaults.idle_timeout;
  claim_interval = or_default sub.retry.claim_interval defaults.claim_interval;
}
