-- ===== src/Reminder/Lifecycle.antt =====
-- reminder/service.go, Start and Stop: at most one worker for a service. A section under the mutex
-- is one step; the recovery that Start runs between its sections is an argument.
use wego.Prelude.{
  inl, inr, ◌+◌, inl, ◌≤◌, ℕ, arith, ◌⊎◌, ◌≡◌, refl, Bool, true, false, Option, none, some, List,
  [], ◌∷◌, Text, if◌then◌else◌, not,
}

pub data StartError : Type 0 where
  store_not_configured notifier_not_configured already_started : StartError
  recovery_failed : Text → StartError

-- The fields of Service that Start and Stop use: how far the service has come, and its worker.
pub record Service : Type 0 where
  pub has_store : Bool
  pub has_notifier : Bool
  pub started : Bool
  -- cancel and done are set.
  pub has_worker : Bool
  -- The worker's context is canceled.
  pub canceled : Bool

-- The first section of `Start`.
unfoldable pub enter_start : Service → Option StartError × Service
enter_start s =
    if not s.has_store
    then (some store_not_configured, s)
    else if not s.has_notifier
    then (some notifier_not_configured, s)
    else if s.started
    then (some already_started, s)
    else (none, record s { started = true })

-- The second section, by the error of the recovery: the worker starts, or the service is as before.
unfoldable pub leave_start : Option Text → Service → Option StartError × Service
leave_start (some e) s = (some (recovery_failed e), record s { started = false })
leave_start none s = (none, record s { has_worker = true; canceled = false })

abbrev pub after_enter : Option Text → Option StartError × Service → Option StartError × Service
after_enter recovery (some e, s) = (some e, s)
after_enter recovery (none, s) = leave_start recovery s

-- Start
unfoldable pub start : Option Text → Service → Option StartError × Service
unfolding enter_start leave_start
start recovery s = after_enter recovery (enter_start s)

-- Stop, up to the wait for the worker: whether there is a worker to wait for.
unfoldable pub stop : Service → Bool × Service
stop s = if s.has_worker then (true, record s { canceled = true }) else (false, s)

-- A call of Start, with the error of its recovery, or of Stop.
pub data ServiceCall : Type 0 where
  starts : Option Text → ServiceCall
  stops : ServiceCall

unfoldable pub perform : ServiceCall → Service → Service
unfolding start stop
perform (starts recovery) s = (start recovery s).1
perform stops s = (stop s).1

-- A worker for a call that returns no error.
abbrev count_worker : Option StartError → ℕ
count_worker none = 1
count_worker (some e) = 0

-- Whether a call starts a worker, as a number.
unfoldable pub workers_of : ServiceCall → Service → ℕ
unfolding start
workers_of (starts recovery) s = count_worker (start recovery s).0
workers_of stops s = 0

-- The workers that the calls start, one after the other.
unfoldable pub worker_count : List ServiceCall → Service → ℕ
unfolding perform workers_of
worker_count [] s = 0
worker_count (call ∷ calls) s = workers_of call s + worker_count calls (perform call s)

perform-started :
    (call : ServiceCall) (s : Service)
    → s.started ≡ true
    → (workers_of call s ≡ 0) × ((perform call s).started ≡ true)
unfolding perform workers_of enter_start
perform-started (starts recovery) s h = by_tests s.has_store s.has_notifier s.started h
  where
    by_tests :
        (a b c : Bool)
        → c ≡ true
        → (let entered : Option StartError × Service =
              if not a
              then (some store_not_configured, s)
              else if not b
              then (some notifier_not_configured, s)
              else if c
              then (some already_started, s)
              else (none, record s { started = true }) in
            (count_worker (after_enter recovery entered).0 ≡ 0)
            × ((after_enter recovery entered).1.started ≡ true))
    by_tests false b c e = (refl, h)
    by_tests true false c e = (refl, h)
    by_tests true true true e = (refl, h)
    by_tests true true false e = cc
perform-started stops s h = (refl, by_worker s.has_worker)
  where
    by_worker :
        (b : Bool)
        → (let outcome : Bool × Service =
              if b then (true, record s { canceled = true }) else (false, s) in
            outcome.1.started ≡ true)
    by_worker true = h
    by_worker false = h

worker_count-started :
    (calls : List ServiceCall) (s : Service) → s.started ≡ true → worker_count calls s ≡ 0
unfolding worker_count
worker_count-started [] s h = refl
worker_count-started (call ∷ calls) s h =
    let (none_here, still) = perform-started call s h in
    omega (arith, none_here, worker_count-started calls (perform call s) still)

-- A call starts no worker, or one worker of a service that is started from then on.
perform-workers :
    (call : ServiceCall) (s : Service)
    → (workers_of call s ≡ 0) ⊎ (workers_of call s ≡ 1) × ((perform call s).started ≡ true)
unfolding perform workers_of enter_start leave_start
perform-workers (starts recovery) s = by_tests recovery s.has_store s.has_notifier s.started
  where
    by_tests :
        (r : Option Text) (a b c : Bool)
        → (let entered : Option StartError × Service =
              if not a
              then (some store_not_configured, s)
              else if not b
              then (some notifier_not_configured, s)
              else if c
              then (some already_started, s)
              else (none, record s { started = true }) in
            (count_worker (after_enter r entered).0 ≡ 0)
            ⊎ (count_worker (after_enter r entered).0 ≡ 1)
              × ((after_enter r entered).1.started ≡ true))
    by_tests r false b c = inl refl
    by_tests r true false c = inl refl
    by_tests r true true true = inl refl
    by_tests (some e) true true false = inl refl
    by_tests none true true false = inr (refl, refl)
perform-workers stops s = inl refl

-- However often Start and Stop are called, one call after the other, and whatever the recoveries
-- return, a service starts at most one worker.
pub worker_count_bound : (calls : List ServiceCall) (s : Service) → worker_count calls s ≤ 1
unfolding worker_count
worker_count_bound [] s = omega arith
worker_count_bound (call ∷ calls) s =
    either (perform-workers call s) (worker_count_bound calls (perform call s))
      (worker_count-started calls (perform call s))
  where
    either :
        (workers_of call s ≡ 0) ⊎ (workers_of call s ≡ 1) × ((perform call s).started ≡ true)
        → worker_count calls (perform call s) ≤ 1
        → ((perform call s).started ≡ true → worker_count calls (perform call s) ≡ 0)
        → workers_of call s + worker_count calls (perform call s) ≤ 1
    either (inl e) rest settled = omega (arith, e, rest)
    either (inr (e, on)) rest settled = omega (arith, e, settled on)
