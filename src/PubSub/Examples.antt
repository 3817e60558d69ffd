-- ===== src/PubSub/Examples.antt =====
-- A subscription, a frozen clock, and a handler that refuses everything.
use wego.Prelude.{
  to_lower, Unicode, trim_space, is_space, lookup, ◌≡◌, refl, ℕ, ◌+◌, true, false, none, some, [],
  ◌∷◌, codes, pos, ascii,
}
use wego.PubSub.{normalize_topic, Message, Entry, RetryPolicy, Subscription, Options}
use wego.PubSub.Decoding.{Codec}
use wego.PubSub.Settings.{
  IsRunnable, with_name, with_dead_letters, apply_all, default_options, settings-IsRunnable,
}
use wego.Action.{ok}
use wego.PubSub.Publishing.{Broker, Printer, publish, Published, publish-Published}
use wego.PubSub.Router.{Router, add}
use wego.PubSub.Router.Adding.{AddEnds, add-AddEnds, AllUsable, add-AllUsable}
use wego.PubSub.Service.{Environment, World}

instance abbrev letters : Unicode
letters = ascii

abbrev policy : RetryPolicy
policy = record {
  max_deliver = pos 3;
  backoff = pos 1_000_000_000 ∷ pos 5_000_000_000 ∷ [];
  idle_timeout = pos 30_000_000_000;
  claim_interval = pos 1_000_000_000;
}

abbrev options : Options
options = record {
  connected = true;
  retry = policy;
  name = codes "pubsub";
  prefix = codes "wego:pubsub";
  max_len = pos 10_000;
  approx_max_len = true;
  block = pos 1_000_000_000;
  read_count = pos 16;
  dlq_enabled = true;
  dlq_suffix = codes ":dlq";
}

abbrev printer : Printer
printer = record { format_time = λ t. codes "noon"; marshal_headers = λ headers. codes "{}" }

abbrev refusing : Environment
refusing = record {
  State = ℕ;
  exec = λ c n. (none, n + 1);
  handle = λ d n. (some (codes "no"), n + 1);
  now = λ n. (1_000, n);
  printer = printer;
  marshal = λ e. ok [];
}

abbrev orders : Subscription
orders = record {
  topic = codes " Orders";
  group = codes "billing ";
  consumer = codes "c";
  concurrency = pos 0;
  has_handler = true;
  retry = policy;
}

abbrev entry : Entry
entry = record {
  id = codes "1-0";
  values =
      (codes "data", codes "x")
      ∷ (codes "max_deliver", codes "3")
      ∷ (codes "attempt", codes " 2 ")
      ∷ (codes "published_at", codes "noon")
      ∷ [];
}

abbrev codec : Codec
codec = record { parse_time = λ s. some 7; unmarshal_headers = λ s. none }

abbrev empty : Router
empty = record { started = false; subs = [] }

abbrev idle : World refusing
idle = record { env = 0; commands = [] }

add-AddEnds_example : AddEnds orders empty (add orders empty)
add-AddEnds_example = add-AddEnds orders empty

empty-AllUsable : AllUsable empty
unfolding lookup
empty-AllUsable = record { usable = λ key sub found. cc }

add-AllUsable_example : AllUsable (add orders empty).1
add-AllUsable_example = add-AllUsable orders empty empty-AllUsable

settings-IsRunnable_example :
    IsRunnable
      (apply_all (with_name (codes "  ") ∷ with_dead_letters false [] ∷ []) (default_options true))
settings-IsRunnable_example =
    settings-IsRunnable (with_name (codes "  ") ∷ with_dead_letters false [] ∷ []) true

abbrev broker : Broker
broker = record {
  State = ℕ;
  xadd = λ addition n. (ok (codes "7-0"), n + 1);
  now = λ n. (9, n);
  inject = λ headers. headers;
}

abbrev message : Message
message = record {
  key = codes "k";
  message_type = codes "paid";
  data_bytes = codes "x";
  headers = [];
  max_deliver = pos 0;
  scheduled_at = 0;
}

publish_example : (publish broker printer options (codes "orders") message 0).0 ≡ ok (codes "7-0")
unfolding publish normalize_topic trim_space to_lower is_space
publish_example = refl

publish-Published_example :
    Published broker printer options (codes "orders") message 0 (codes "7-0")
publish-Published_example =
    publish-Published broker printer options (codes "orders") message 0 (codes "7-0")
      publish_example
