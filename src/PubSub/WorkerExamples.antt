-- ===== src/PubSub/WorkerExamples.antt =====
-- A service with two subscriptions, a group that is there already, and a worker's two loops.
use wego.Prelude.{
  trim_space, lookup, is_space, ◌≡◌, insert, text_key, ℕ, ◌+◌, refl, true, false, none, some, [],
  ◌∷◌, codes, pos, arith,
}
use wego.Action.{ok}
use wego.PubSub.{Delivery, Entry}
use wego.PubSub.Decoding.{Codec, decode_entry}
use wego.PubSub.Publishing.{itoa}
use wego.PubSub.Router.{list, freeze}
use wego.PubSub.Service.{World}
use wego.PubSub.Starting.{Groups, Service, start}
use wego.PubSub.Starting.Started.{Starts, start-Starts}
use wego.PubSub.Polling.{Poller, with_attempt}
use wego.PubSub.Polling.Claiming.{decode_entry-with_attempt}
use wego.PubSub.RetryExamples.{letters, settings, orders, refusing}

abbrev groups : Groups
groups = record {
  State = ℕ;
  create_group = λ stream group n. (some (codes "BUSYGROUP Consumer Group name already exists"), n);
  consumer_name = λ n. (codes "consumer-7", n + 1);
}

abbrev fresh : Service groups
fresh = record {
  started = false;
  router = record {
    started = false;
    subs =
        (codes "orders::billing", orders)
        ∷ (codes "orders::audit", record orders { consumer = [] })
        ∷ [];
  };
  goroutines = [];
  state = 0;
}

start-Starts_example :
    Starts groups settings
      (list (freeze fresh.router))
      (record fresh { started = true; router = freeze fresh.router })
      ((start groups settings fresh).1)
      ((start groups settings fresh).0)
start-Starts_example = start-Starts groups settings fresh refl refl

abbrev codec : Codec
codec = record { parse_time = λ s. some 7; unmarshal_headers = λ s. none }

-- An entry in its third attempt.
abbrev third : Entry
third = record {
  id = codes "5-0";
  values =
      (codes "data", codes "x")
      ∷ (codes "max_deliver", codes "3")
      ∷ (codes "attempt", codes "3")
      ∷ (codes "published_at", 65 ∷ 7 ∷ 65 ∷ [])
      ∷ [];
}

abbrev third_delivery : Delivery
third_delivery = record {
  id = codes "5-0";
  topic = codes "orders";
  group = codes "billing";
  consumer = codes "c";
  attempt = pos 3;
  published_at = 7;
  message = record {
    key = [];
    message_type = [];
    data_bytes = codes "x";
    headers = [];
    max_deliver = pos 3;
    scheduled_at = 0;
  };
  raw = third.values;
}

third_decoded :
    decode_entry codec (codes "orders") (codes "billing") (codes "c") third ≡ some third_delivery
unfolding decode_entry trim_space lookup is_space
third_decoded = refl

-- It is claimed after its first delivery.
decode_entry-with_attempt_example :
    decode_entry codec
      (codes "orders")
      (codes "billing")
      (codes "c")
      (with_attempt (ok (1 ∷ [])) third)
    ≡ some (record third_delivery {
      attempt = pos 1;
      raw = insert (codes "attempt") (itoa (pos 1)) third.values;
    })
decode_entry-with_attempt_example =
    decode_entry-with_attempt codec (codes "orders") (codes "billing") (codes "c") third
      third_delivery 1 [] (omega arith) (omega arith) third_decoded

abbrev poller : Poller ℕ
poller = record {
  read_streams = λ request n. (ok ((third ∷ []) ∷ []), n + 1);
  claim_entries = λ request n. (ok (third ∷ [], codes "0-0"), n + 1);
  pending = λ stream group id n. (ok (1 ∷ []), n);
  is_canceled = λ message. true;
  is_done = λ n. (false, n);
}

abbrev idle : World refusing
idle = record { env = 0; commands = [] }
