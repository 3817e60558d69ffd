-- ===== src/PubSub/RetryExamples.antt =====
-- A handler that refuses everything.
use wego.PubSub.CodecExamples.{
  message-HasTexts, write_retry, write_map, codec, printer, printer-Agrees, lua, lua-LuaAgrees,
}
use wego.Prelude.{
  nat_beq, ◌≡◌, GoMap, text_key, trim_space, trim_right, trim_left, is_space, ascii, ℕ, ◌+◌, refl,
  true, false, none, some, [], ◌∷◌, Text, codes, Unicode, pos, arith,
}
use wego.PubSub.{
  stream_key, retry_key, Message, Delivery, Entry, RetryPolicy, Subscription, Options,
  effective_retry, Envelope,
}
use wego.PubSub.Decoding.{decode_entry}
use wego.PubSub.Publishing.{itoa, message_fields, entry_fields}
use wego.PubSub.Publishing.RoundTrip.{decode_entry-message_fields, delivery_from}
use wego.PubSub.Service.Settling.{due_of}
use wego.PubSub.Service.{retry_delay, Environment}
use wego.PubSub.Service.Finishing.{Ends, rounds-Ends}
use wego.PubSub.Service.DeadLetters.{EndsDead, rounds-EndsDead}
use wego.Action.{ok}
use wego.PubSub.Promotion.{Retries, promote_due_retries}
use wego.PubSub.Promotion.Sending.{promote_due_retries-Promotes, Promotes}
use wego.PubSub.Service.Ending.{Attempts}

instance abbrev pub letters : Unicode
letters = ascii

abbrev message : Message
message = record {
  key = codes "k";
  message_type = codes "paid";
  data_bytes = codes "x";
  headers = (codes "trace", codes "7") ∷ [];
  max_deliver = pos 3;
  scheduled_at = 0;
}

abbrev fields : GoMap Text Text
fields =
    entry_fields (codes "k") (codes "paid") (codes "x") (65 ∷ write_map message.headers)
      (65 ∷ 7 ∷ 65 ∷ []) (codes "3") (codes "1")

written : message_fields printer message 7 (pos 5) (pos 1) ≡ ok fields
unfolding message_fields trim_space trim_left trim_right is_space itoa
written = refl

decode_entry-message_fields_example :
    decode_entry codec
      (codes "orders")
      (codes "billing")
      (codes "c")
      (record { id = codes "1-0"; values = fields })
    ≡ some (
        delivery_from
          (codes "orders")
          (codes "billing")
          (codes "c")
          (codes "1-0")
          (pos 1)
          (pos 3)
          7
          (printer-Agrees.read_headers message.headers)
          fields
          message)
decode_entry-message_fields_example =
    decode_entry-message_fields codec printer printer-Agrees (codes "orders") (codes "billing")
      (codes "c") (codes "1-0") message 7 (pos 5) 3 1 fields refl refl (omega arith) (omega arith)
      written

abbrev pub policy : RetryPolicy
policy = record {
  max_deliver = pos 5;
  backoff = [];
  idle_timeout = pos 30_000_000_000;
  claim_interval = pos 1_000_000_000;
}

abbrev pub settings : Options
settings = record {
  connected = true;
  retry = policy;
  name = codes "pubsub";
  prefix = codes "wego:pubsub";
  max_len = pos 10_000;
  approx_max_len = true;
  block = pos 1_000_000_000;
  read_count = pos 16;
  dlq_enabled = true;
  dlq_suffix = codes ":dlq";
}

abbrev pub orders : Subscription
orders = record {
  topic = codes "orders";
  group = codes "billing";
  consumer = codes "c";
  concurrency = pos 1;
  has_handler = true;
  retry = policy;
}

abbrev pub refusing : Environment
refusing = record {
  State = ℕ;
  exec = λ c n. (none, n + 1);
  handle = λ d n. (some (codes "no"), n + 1);
  now = λ n. (1_000, n);
  printer = printer;
  marshal = write_retry;
}

abbrev first_entry : Entry
first_entry = record { id = codes "1-0"; values = fields }

first-Attempts : Attempts settings codec orders (codes "c") first_entry 3 1 message
unfolding wego.PubSub.Service.limited
first-Attempts = record {
  delivery =
      delivery_from (codes "orders") (codes "billing") (codes "c") (codes "1-0") (pos 1) (pos 3) 7
        (printer-Agrees.read_headers message.headers) fields message;
  decodes = decode_entry-message_fields_example;
  has_limit = refl;
  has_attempt = refl;
  same_key = refl;
  same_type = refl;
  same_data = refl;
  same_headers = λ k. printer-Agrees.same_headers message.headers k;
}

rounds-Ends_example :
    Ends refusing settings codec lua lua-LuaAgrees orders
      (codes "c")
      (λ s. (codes "9-0", s))
      refl
      (λ k. refl)
      3
      first_entry
      0
rounds-Ends_example =
    rounds-Ends refusing settings codec lua lua-LuaAgrees orders (codes "c") (λ s. (codes "9-0", s))
      refl (λ k. refl) 2 3 1 message first_entry 0 first-Attempts (message-HasTexts message)
      (omega arith) (omega arith) (omega arith)

never_zero :
    (d : Delivery) (env : ℕ)
    → nat_beq (due_of refusing settings orders (effective_retry orders policy) d env) 0 ≡ false
unfolding effective_retry retry_delay
never_zero d env = refl

rounds-EndsDead_example :
    EndsDead refusing settings codec lua lua-LuaAgrees orders
      (codes "c")
      (λ s. (codes "9-0", s))
      refl
      (λ k. refl)
      3
      3
      message
      first_entry
      0
rounds-EndsDead_example =
    rounds-EndsDead refusing settings codec lua lua-LuaAgrees orders (codes "c")
      (λ s. (codes "9-0", s)) refl (λ k. refl) refl (λ d env. (codes "no", refl)) never_zero
      (λ e. (_, refl)) 2 3 1 message first_entry 0 first-Attempts (message-HasTexts message)
      (omega arith) refl

abbrev queued : Envelope
queued = record {
  topic = codes "orders";
  group = codes "billing";
  message = message;
  attempt = pos 2;
  published_at = 7;
}

abbrev one_due : Retries
one_due = record {
  State = ℕ;
  range_by_score = λ key limit count n. (ok (queued ∷ []), n);
  call = λ c n. (none, n + 1);
}

promote_due_retries-Promotes_example :
    Promotes one_due lua
      (retry_key settings (codes "orders") (codes "billing"))
      (stream_key settings (codes "orders"))
      (queued ∷ [])
      (record { state = 0; commands = [] })
      ((promote_due_retries one_due lua settings
        (codes "orders")
        (codes "billing")
        (pos 16)
        9
        (record { state = 0; commands = [] })).1)
      ((promote_due_retries one_due lua settings
        (codes "orders")
        (codes "billing")
        (pos 16)
        9
        (record { state = 0; commands = [] })).0)
promote_due_retries-Promotes_example =
    promote_due_retries-Promotes one_due lua settings (codes "orders") (codes "billing") (pos 16) 9
      (record { state = 0; commands = [] }) (queued ∷ []) refl refl
