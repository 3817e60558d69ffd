-- ===== src/Reminder/Service/Examples.antt =====
-- A worker of reminder/service.go on a table in memory, with a notifier that refuses the first
-- two notifications and two clocks that tick at each reading.
use wego.Prelude.{
  arith, ℕ, ◌+◌, true, none, some, [], ◌∷◌, ◌≡◌, refl, codes, ltb, pos, if◌then◌else◌, get_elem?,
  count_if,
}
use wego.Action.{refuse_if}
use wego.Reminder.Model.{Reminder, processing, sent}
use wego.Reminder.History.{Moves, SameReminder, is_settled}
use wego.Reminder.Memory.{memory, memory-Lawful}
use wego.Reminder.Store.{connected, mark_retry}
use wego.Reminder.Options.{default_options}
use wego.Reminder.Service.{Environment, World, dispatch, loop, retry_delay}
use wego.Reminder.Service.Dispatch.{Dispatched, dispatch-Dispatched}
use wego.Reminder.Service.Outcomes.{expected}
use wego.Reminder.Service.Delays.{retry_delay-get_or, retry_delay-get_last_or}
use wego.Reminder.Service.Worker.{loop-history}

abbrev flaky : Environment
flaky = record {
  State = ℕ;
  notify = λ item n. (if ltb n 2 then some (codes " busy ") else none, n + 1);
  now = λ n. (100 + n, n + 1);
  wall = λ n. (100 + n, n + 1);
}

abbrev item : Reminder
item = record {
  id = 1;
  key = codes "a";
  user_id = codes "u";
  channel = codes "mail";
  payload = codes "{}";
  schedule_at = 10;
  status = processing;
  retry_count = 1;
  max_retry = 3;
  last_error = [];
  sent_at = none;
  canceled_at = none;
  created_at = 1;
  updated_at = 50;
}

abbrev sent_item : Reminder
sent_item = record item { id = 2; key = codes "b"; status = sent; sent_at = some 9 }

abbrev world : World memory flaky
world = record { db = item ∷ sent_item ∷ []; state = 0; dispatches = [] }

dispatch-Dispatched_example :
    Dispatched memory memory-Lawful flaky default_options connected item
      (expected item (some (codes " busy ")))
      101
      (record world { state = 1 })
      (dispatch memory flaky default_options connected item world).1
unfolding dispatch refuse_if count_if mark_retry default_options
dispatch-Dispatched_example =
    dispatch-Dispatched memory memory-Lawful flaky default_options connected item world refl

loop-history_example :
    (r' : Reminder) × (get_elem? (loop memory flaky default_options connected 3 world).db 1
      ≡ some r')
    × SameReminder sent_item r'
    × Moves sent_item r'
    × (is_settled sent_item.status ≡ true → r' ≡ sent_item)
loop-history_example =
    loop-history memory memory-Lawful flaky default_options connected 3 world 1 sent_item refl

retry_delay-get_or_example : retry_delay (pos 5 ∷ pos 7 ∷ []) (pos 2) ≡ pos 7
retry_delay-get_or_example = retry_delay-get_or (pos 5) (pos 7 ∷ []) 1 (omega arith)

retry_delay-get_last_or_example : retry_delay (pos 5 ∷ pos 7 ∷ []) (pos 9) ≡ pos 7
retry_delay-get_last_or_example = retry_delay-get_last_or (pos 5) (pos 7 ∷ []) 8 (omega arith)
