-- ===== src/Reminder/Service.antt =====
-- reminder/service.go: the worker that claims due reminders, notifies, and settles them. The
-- notifier (reminder/notifier.go) and the clocks are the caller's: `Environment`.
pub mod Delays
pub mod Worker
pub mod Outcomes
mod Examples
pub mod Dispatch
use wego.Prelude.{
  ℕ, zero, suc, ◌+◌, ◌-◌, Bool, true, false, Option, none, some, List, [], ◌∷◌, ◌++◌, ◌||◌, ◌&&◌,
  not, Text, codes, trim_space, is_empty, ltb, leb, ℤ, pos, negsuc, pos_part, is_pos, is_neg,
  length, get_or, get_last_or, if◌then◌else◌, sub_ℕ,
}
use wego.Action.{Result, ok, err, Action, pure, raise, lift, refuse_if, ◌>>=◌, ◌>>◌}
use wego.Reminder.Model.{Time, Reminder, Error, is_canceled}
use wego.Reminder.Database.{Database}
use wego.Reminder.Store.{
  Store, is_nil, claim_due, requeue_stale_processing, mark_sent, mark_retry, mark_failed,
}
use wego.Reminder.Options.{Options, minute}

-- retryDelay: the delay before the given attempt, the last one for all later attempts.
unfoldable pub retry_delay : List ℤ → ℤ → ℤ
retry_delay delays (negsuc n) = pos minute
retry_delay delays (pos zero) = pos minute
retry_delay [] (pos (suc n)) = pos minute
retry_delay (d ∷ ds) (pos (suc n)) =
    if ltb (length (d ∷ ds)) (suc n) then get_last_or d ds else get_or d (d ∷ ds) n

-- t.Add(d), for an instant that does not pass the zero time.
abbrev pub add_duration : Time → ℤ → Time
add_duration t (pos n) = t + n
add_duration t (negsuc n) = t - suc n

abbrev pub negate : ℤ → ℤ
negate (pos zero) = pos 0
negate (pos (suc n)) = negsuc n
negate (negsuc n) = pos (suc n)

-- What the service does not implement: the notifier, whose error is its message, the clock of the
-- options, and the wall clock. They share a state of their own.
pub record Environment : Type 1 where
  pub State : Type 0
  pub notify : Reminder → State → Option Text × State
  pub now : State → Time × State
  pub wall : State → Time × State

-- How a dispatch ended: the label `result` of the metric.
pub data Outcome : Type 0 where
  sent error failed retry : Outcome

pub data DispatchError : Type 0 where
  -- The notification went out, and the store did not take it.
  mark_error : Error → DispatchError
  -- notify: …; mark failed: …, or mark retry: …
  notify_error : Text → Error → DispatchError

abbrev pub message_of : Text → Text
message_of m = if is_empty (trim_space m) then codes "notify failed" else trim_space m

-- Whether the attempt that failed was the last one.
unfoldable pub is_last_attempt : Reminder → Bool
is_last_attempt item = leb item.max_retry (item.retry_count + 1)

module _ (base : Database) (env : Environment) where
  open base use {Db, others}
  open env use {State, notify, now, wall}

  -- The database, the environment, and the recorded dispatches: channel and result.
  pub record World : Type 0 where
    pub db : Db
    pub state : State
    pub dispatches : List (Text × Outcome)

  abbrev pub Run : Type 0 → Type 0
  Run A = Action World Error A

  -- A method of the store.
  abbrev pub on_db : {A : Type 0} → Action Db Error A → Run A
  on_db m w = let r = m w.db in (r.0, record w { db = r.1 })

  -- A reading of a clock.
  abbrev pub read_clock : (State → Time × State) → World → Time × World
  read_clock clock w = let r = clock w.state in (r.0, record w { state = r.1 })

  -- recordDispatch
  abbrev pub record_dispatch : Text → Outcome → World → World
  record_dispatch channel result w = record w {
    dispatches = w.dispatches ++ (channel, result) ∷ [];
  }

  -- s.notifier.Notify(ctx, item), during which other processes run.
  abbrev pub run_notifier : Reminder → World → Option Text × World
  run_notifier item w =
      let r = notify item w.state in (r.0, record w { db = others w.db; state = r.1 })

  -- `dispatch` after a notification that succeeded.
  settle_sent : Reminder → Result Error (Unit {0}) → World → Result DispatchError (Unit {0}) × World
  settle_sent item (ok _) w = (ok tt, record_dispatch item.channel sent w)
  settle_sent item (err e) w = (err (mark_error e), record_dispatch item.channel error w)

  -- `dispatch` after one that failed with a message, once the store has been told.
  settle_error :
      Reminder
      → Text
      → Outcome
      → Result Error (Unit {0})
      → World
      → Result DispatchError (Unit {0}) × World
  settle_error item message outcome (ok _) w = (ok tt, record_dispatch item.channel outcome w)
  settle_error item message outcome (err e) w = (err (notify_error message e), w)

  -- The last attempt failed.
  give_up : Store → Reminder → Text → World → Result DispatchError (Unit {0}) × World
  unfolding settle_error
  give_up s item message w =
      let (t, w1) = read_clock wall w in
      let marked = on_db (mark_failed base s t (some item) (message_of message)) w1 in
      settle_error item message failed marked.0 marked.1

  -- An earlier attempt failed.
  try_again : Options → Store → Reminder → Text → World → Result DispatchError (Unit {0}) × World
  unfolding settle_error
  try_again o s item message w =
      let (at, w1) = read_clock now w in
      let (t, w2) = read_clock wall w1 in
      let next = add_duration at (retry_delay o.retry_delays (pos (item.retry_count + 1))) in
      let marked = on_db (mark_retry base s t (some item) next (message_of message)) w2 in
      settle_error item message retry marked.0 marked.1

  after_notify :
      Options → Store → Reminder → Option Text → World → Result DispatchError (Unit {0}) × World
  unfolding settle_sent give_up try_again is_last_attempt
  after_notify o s item none w =
      let (at, w1) = read_clock now w in
      let marked = on_db (mark_sent base s item.id at) w1 in settle_sent item marked.0 marked.1
  after_notify o s item (some message) w =
      if is_last_attempt item then give_up s item message w else try_again o s item message w

  unfoldable pub dispatch :
      Options → Store → Reminder → World → Result DispatchError (Unit {0}) × World
  unfolding after_notify retry_delay
  dispatch o s item w = let told = run_notifier item w in after_notify o s item told.0 told.1

  abbrev pub failures : Result DispatchError (Unit {0}) → Text → List (Text × DispatchError)
  failures (ok _) key = []
  failures (err e) key = (key, e) ∷ []

  -- The loop of `processBatch`: every item is dispatched, and the errors are joined.
  unfoldable pub dispatch_all :
      Options → Store → List Reminder → World → List (Text × DispatchError) × World
  unfolding dispatch
  dispatch_all o s [] w = ([], w)
  dispatch_all o s (item ∷ items) w =
      let done = dispatch o s item w in
      let rest = dispatch_all o s items done.1 in (failures done.0 item.key ++ rest.0, rest.1)

  -- processBatch; an error of the claim, or the errors of the dispatches.
  dispatch_claimed :
      Options
      → Store
      → Result Error (List Reminder)
      → World
      → Result Error (List (Text × DispatchError)) × World
  dispatch_claimed o s (err e) w = (err e, w)
  dispatch_claimed o s (ok items) w = let done = dispatch_all o s items w in (ok done.0, done.1)

  unfoldable pub process_batch :
      Options → Store → World → Result Error (List (Text × DispatchError)) × World
  unfolding dispatch_claimed dispatch_all
  process_batch o s w =
      let (t, w1) = read_clock now w in
      let claimed = on_db (claim_due base s t o.batch_size) w1 in
      dispatch_claimed o s claimed.0 claimed.1

  unfoldable pub recover_stale_processing : Options → Store → Run ℕ
  recover_stale_processing o s w =
      let (t, w1) = read_clock now w in
      let (t', w2) = read_clock wall w1 in
      on_db (requeue_stale_processing base s t' (add_duration t (negate o.processing_ttl))) w2

  -- A tick of `loop`: a failed recovery ends it, unless the context was canceled.
  after_recovery : Options → Store → Result Error ℕ → World → World
  after_recovery o s (ok _) w = (process_batch o s w).1
  after_recovery o s (err e) w = if is_canceled e then (process_batch o s w).1 else w

  unfoldable pub tick : Options → Store → World → World
  unfolding after_recovery process_batch recover_stale_processing
  tick o s w = let r = recover_stale_processing o s w in after_recovery o s r.0 r.1

  -- `loop`, for as many ticks as pass before the context is done; between two ticks other
  -- processes run.
  unfoldable pub loop : Options → Store → ℕ → World → World
  unfolding tick
  loop o s zero w = w
  loop o s (suc n) w = let t = tick o s w in loop o s n (record t { db = others t.db })
