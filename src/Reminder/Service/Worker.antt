-- ===== src/Reminder/Service/Worker.antt =====
-- The worker of reminder/service.go moves rows only along the steps of `wego.Reminder.History`.
use wego.Prelude.{
  ℕ, zero, suc, Bool, true, false, Option, none, some, List, [], ◌∷◌, ◌≡◌, Text, get_elem?,
  if◌then◌else◌,
}
use wego.Action.{Result, ok, err}
use wego.Reminder.Model.{Reminder, Error, is_canceled}
use wego.Reminder.History.{
  is_settled, Moves, Moves-settled, SameReminder, Moves-SameReminder, Evolves, Evolves-refl,
  Evolves-trans, Evolves-get_elem?,
}
use wego.Reminder.Database.{Database, Lawful}
use wego.Reminder.Store.{Store, claim_due}
use wego.Reminder.Store.Evolution.{
  Tracks-claim_due, Tracks-requeue, Tracks-mark_sent, Tracks-mark_retry, Tracks-mark_failed,
}
use wego.Reminder.Options.{Options}
use wego.Reminder.Service.{
  give_up, try_again, message_of, Environment, World, Outcome, settle_sent, settle_error,
  after_notify, is_last_attempt, dispatch, dispatch_all, dispatch_claimed, process_batch,
  recover_stale_processing, after_recovery, tick, loop,
}

module _ (base : Database) (law : Lawful base) (env : Environment) (o : Options) (s : Store) where
  open base use {Db, rows, others}

  -- From one world to another the table has evolved.
  abbrev Later : World base env → World base env → Type 0
  Later w v = Evolves (rows w.db) (rows v.db)

  settle_sent-Later :
      (item : Reminder) (r : Result Error (Unit {0})) (w : World base env)
      → Later w (settle_sent base env item r w).1
  unfolding settle_sent
  settle_sent-Later item (ok u) w = Evolves-refl (rows w.db)
  settle_sent-Later item (err e) w = Evolves-refl (rows w.db)

  settle_error-Later :
      (item : Reminder) (m : Text) (out : Outcome) (r : Result Error (Unit {0}))
      (w : World base env)
      → Later w (settle_error base env item m out r w).1
  unfolding settle_error
  settle_error-Later item m out (ok u) w = Evolves-refl (rows w.db)
  settle_error-Later item m out (err e) w = Evolves-refl (rows w.db)

  give_up-Later :
      (item : Reminder) (m : Text) (w : World base env) → Later w (give_up base env s item m w).1
  unfolding give_up
  give_up-Later item m w =
      Evolves-trans ((Tracks-mark_failed base law s _ (some item) (message_of m)).at w.db)
        (settle_error-Later item m _ _ _)

  try_again-Later :
      (item : Reminder) (m : Text) (w : World base env)
      → Later w (try_again base env o s item m w).1
  unfolding try_again
  try_again-Later item m w =
      Evolves-trans ((Tracks-mark_retry base law s _ (some item) _ (message_of m)).at w.db)
        (settle_error-Later item m _ _ _)

  after_notify-Later :
      (item : Reminder) (told : Option Text) (w : World base env)
      → Later w (after_notify base env o s item told w).1
  unfolding after_notify
  after_notify-Later item none w =
      Evolves-trans ((Tracks-mark_sent base law s item.id _).at w.db) (settle_sent-Later item _ _)
  after_notify-Later item (some m) w = last_or_not (is_last_attempt item)
    where
      last_or_not :
          (b : Bool)
          → Later w (if b then give_up base env s item m w else try_again base env o s item m w).1
      last_or_not true = give_up-Later item m w
      last_or_not false = try_again-Later item m w

  dispatch-Later : (item : Reminder) (w : World base env) → Later w (dispatch base env o s item w).1
  unfolding dispatch
  dispatch-Later item w = Evolves-trans (law.others_rows w.db) (after_notify-Later item _ _)

  dispatch_all-Later :
      (items : List Reminder) (w : World base env) → Later w (dispatch_all base env o s items w).1
  unfolding dispatch_all
  dispatch_all-Later [] w = Evolves-refl (rows w.db)
  dispatch_all-Later (item ∷ items) w =
      Evolves-trans (dispatch-Later item w)
        (dispatch_all-Later items (dispatch base env o s item w).1)

  dispatch_claimed-Later :
      (r : Result Error (List Reminder)) (w : World base env)
      → Later w (dispatch_claimed base env o s r w).1
  unfolding dispatch_claimed
  dispatch_claimed-Later (ok items) w = dispatch_all-Later items w
  dispatch_claimed-Later (err e) w = Evolves-refl (rows w.db)

  process_batch-Later : (w : World base env) → Later w (process_batch base env o s w).1
  unfolding process_batch
  process_batch-Later w =
      let (t, state) = env.now w.state in
      let claimed = claim_due base s t o.batch_size w.db in
      Evolves-trans ((Tracks-claim_due base law s t o.batch_size).at w.db)
        (dispatch_claimed-Later claimed.0 (record w { db = claimed.1; state = state }))

  after_recovery-Later :
      (r : Result Error ℕ) (w : World base env) → Later w (after_recovery base env o s r w)
  unfolding after_recovery
  after_recovery-Later (ok n) w = process_batch-Later w
  after_recovery-Later (err e) w = canceled_or_not (is_canceled e)
    where
      canceled_or_not : (b : Bool) → Later w (if b then (process_batch base env o s w).1 else w)
      canceled_or_not true = process_batch-Later w
      canceled_or_not false = Evolves-refl (rows w.db)

  tick-Later : (w : World base env) → Later w (tick base env o s w)
  unfolding tick recover_stale_processing
  tick-Later w =
      let recovered = recover_stale_processing base env o s w in
      Evolves-trans ((Tracks-requeue base law s _ _).at w.db)
        (after_recovery-Later recovered.0 recovered.1)

  loop-Later : (n : ℕ) (w : World base env) → Later w (loop base env o s n w)
  unfolding loop
  loop-Later zero w = Evolves-refl (rows w.db)
  loop-Later (suc n) w =
      Evolves-trans (tick-Later w)
        (Evolves-trans (law.others_rows (tick base env o s w).db) (loop-Later n _))

  -- However long the worker runs, whatever the notifier does and whatever the database refuses:
  -- a reminder that was sent or canceled stays as it is, and any other is still there, tells the
  -- same reminder, and has come to its state by steps of `Step`.
  pub loop-history :
      (n : ℕ) (w : World base env) (i : ℕ) (r : Reminder)
      → get_elem? (rows w.db) i ≡ some r
      → (r' : Reminder) × (get_elem? (rows (loop base env o s n w).db) i ≡ some r')
        × SameReminder r r'
        × Moves r r'
        × (is_settled r.status ≡ true → r' ≡ r)
  loop-history n w i r h =
      let (r', at, m) = Evolves-get_elem? i r (loop-Later n w) h in
      (r', at, Moves-SameReminder m, m, Moves-settled m)
