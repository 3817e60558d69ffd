-- ===== src/Reminder/Examples.antt =====
-- Runs of reminder/store.go and reminder/service.go on a table in memory: the theorems at inputs
-- that meet their hypotheses.
use wego.Prelude.{
  false, true, ◌<◌, ◌≤◌, none, some, List, [], ◌∷◌, ◌≡◌, refl, ◌≢◌, codes, pos, negsuc, All,
  get_elem?, trim_space, keep_if, count_if, is_space,
}
use wego.Action.{ok, refuse_if, ◌>>=◌}
use wego.Reminder.Model.{Reminder, CreateParams, pending, processing, sent}
use wego.Reminder.History.{Moves, SameReminder}
use wego.Reminder.Database.{stored_row, order_rows}
use wego.Reminder.Memory.{first_row, insert_row, memory, memory-Lawful}
use wego.Reminder.Lifecycle.{ServiceCall, Service, starts, stops, worker_count, worker_count_bound}
use wego.Reminder.Store.{
  connected, create, get_by_key, claim_due, mark_sent, new_reminder, as_claimed,
}
use wego.Reminder.Store.Calls.{Call, perform_all, row_history, settled_stays}
use wego.Reminder.Store.Claims.{WasDue, claim_due-WasDue, claim_due_exclusive}
use wego.Reminder.Store.Settling.{as_sent, as_failed, settle, settle_once}
use wego.Reminder.Store.Keys.{get_by_key-create}

abbrev first : Reminder
first = record {
  id = 1;
  key = codes "a";
  user_id = codes "u";
  channel = codes "mail";
  payload = codes "{}";
  schedule_at = 10;
  status = pending;
  retry_count = 0;
  max_retry = 3;
  last_error = [];
  sent_at = none;
  canceled_at = none;
  created_at = 1;
  updated_at = 1;
}

abbrev second_row : Reminder
second_row = record first { id = 2; key = codes "b"; schedule_at = 5 }

abbrev sent_row : Reminder
sent_row = record first { id = 3; key = codes "c"; status = sent; sent_at = some 8 }

abbrev table : List Reminder
table = first ∷ second_row ∷ sent_row ∷ []

abbrev calls : List Call
calls =
    Call.claim_due 20 (pos 5)
    ∷ Call.mark_sent 2 21
    ∷ Call.cancel_by_key 22 (codes "b")
    ∷ Call.mark_failed 23 (some first) (codes "no")
    ∷ []

row_history_example :
    (r' : Reminder) × (get_elem? (perform_all memory connected calls table) 0 ≡ some r')
    × SameReminder first r'
    × Moves first r'
row_history_example = row_history memory memory-Lawful connected calls table 0 first refl

settled_stays_example : get_elem? (perform_all memory connected calls table) 2 ≡ some sent_row
settled_stays_example =
    settled_stays memory memory-Lawful connected calls table 2 sent_row refl refl

claim_due-WasDue_example :
    (1 ≤ 1)
    × All (WasDue memory 20 table) (record second_row { status = processing; updated_at = 20 } ∷ [])
claim_due-WasDue_example =
    claim_due-WasDue memory memory-Lawful connected 20 (pos 1) table
      (record second_row { status = processing; updated_at = 20 } ∷ [])
      (unfold claim_due refuse_if ◌>>=◌ order_rows keep_if count_if as_claimed in refl)

abbrev taken_second : Reminder
taken_second = record second_row { status = processing; updated_at = 20 }

abbrev taken_first : Reminder
taken_first = record first { status = processing; updated_at = 30 }

claim_due_exclusive_example :
    All (λ d. All (λ c. c.id ≢ d.id) (taken_second ∷ [])) (taken_first ∷ [])
unfolding claim_due refuse_if ◌>>=◌ order_rows keep_if as_claimed
claim_due_exclusive_example =
    claim_due_exclusive memory memory-Lawful connected 20 30 (pos 1) (pos 4) table
      (taken_second ∷ []) (taken_first ∷ []) refl refl

abbrev claimed_table : List Reminder
claimed_table = first ∷ taken_second ∷ sent_row ∷ []

settle_once_example :
    (settle memory connected 2
      (as_failed 41 taken_second (codes "no"))
      (settle memory connected 2 (as_sent 40) claimed_table).1).0
    ≢ ok tt
unfolding settle mark_sent refuse_if count_if
settle_once_example =
    settle_once memory memory-Lawful connected connected 2 (as_sent 40)
      (as_failed 41 taken_second (codes "no")) claimed_table refl

abbrev params : CreateParams
params = record {
  key = codes " d ";
  user_id = codes "u";
  channel = codes "mail";
  payload = codes "{}";
  schedule_at = 50_020;
  max_retry = negsuc 0;
}

abbrev made : Reminder
made = record {
  id = 4;
  key = codes "d";
  user_id = codes "u";
  channel = codes "mail";
  payload = codes "{}";
  schedule_at = 50_020;
  status = pending;
  retry_count = 0;
  max_retry = 3;
  last_error = [];
  sent_at = none;
  canceled_at = none;
  created_at = 45_007;
  updated_at = 45_007;
}

-- In microseconds.
abbrev found : Reminder
found = record made { schedule_at = 50_000; created_at = 45_000; updated_at = 45_000 }

get_by_key-create_example :
    (found ≡ stored_row memory made)
    × (made ≡ record (new_reminder 45_007 params) { id = 4 })
    × (0 < 4)
unfolding create get_by_key refuse_if trim_space is_space insert_row first_row keep_if
get_by_key-create_example =
    get_by_key-create memory memory-Lawful connected 45_007 params (codes "d") table made found refl
      refl refl

abbrev fresh_service : Service
fresh_service = record {
  has_store = true;
  has_notifier = true;
  started = false;
  has_worker = false;
  canceled = false;
}

abbrev service_calls : List ServiceCall
service_calls = starts (some (codes "down")) ∷ starts none ∷ stops ∷ starts none ∷ []

worker_count_bound_example : worker_count service_calls fresh_service ≤ 1
worker_count_bound_example = worker_count_bound service_calls fresh_service
