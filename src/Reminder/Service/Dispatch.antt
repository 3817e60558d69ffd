-- ===== src/Reminder/Service/Dispatch.antt =====
-- What `dispatch` of reminder/service.go does with a claimed reminder, on each of its branches.
use wego.Prelude.{
  sym, subst, Bool, true, false, Option, none, some, [], ◌∷◌, ◌++◌, ◌≡◌, refl, Text, if◌then◌else◌,
}
use wego.Action.{Result, ok, err}
use wego.Reminder.Model.{Time, Reminder, Error}
use wego.Reminder.Database.{Database, Lawful}
use wego.Reminder.Store.{Store}
use wego.Reminder.Options.{Options}
use wego.Reminder.Service.{
  record_dispatch, Environment, World, Outcome, sent, failed, retry, settle_sent, settle_error,
  after_notify, is_last_attempt, give_up, try_again, dispatch, message_of,
}
use wego.Reminder.Service.Outcomes.{
  expected-is_last_attempt, expected, Changed, mark_sent-Changed, mark_failed-Changed,
  mark_retry-Changed,
}

module _ (base : Database) (law : Lawful base) (env : Environment) (o : Options) (s : Store) where
  open base use {Db, rows, others}

  settle_sent-ok :
      (item : Reminder) (r : Result Error (Unit {0})) (w : World base env)
      → (settle_sent base env item r w).0 ≡ ok tt
      → (r ≡ ok tt)
        × (settle_sent base env item r w ≡ (ok tt, record_dispatch base env item.channel sent w))
  unfolding settle_sent
  settle_sent-ok item (ok u) w h = (refl, refl)
  settle_sent-ok item (err e) w h = cc

  settle_error-ok :
      (item : Reminder) (m : Text) (out : Outcome) (r : Result Error (Unit {0}))
      (w : World base env)
      → (settle_error base env item m out r w).0 ≡ ok tt
      → (r ≡ ok tt)
        × (settle_error base env item m out r w
            ≡ (ok tt, record_dispatch base env item.channel out w))
  unfolding settle_error
  settle_error-ok item m out (ok u) w h = (refl, refl)
  settle_error-ok item m out (err e) w h = cc

  -- A dispatch that came out so, between two worlds; `at` is the time of the answer.
  pub record Dispatched (item : Reminder) (out : Outcome) (at : Time) (w v : World base env)
      : Type 0 where
    pub recorded : v.dispatches ≡ w.dispatches ++ (item.channel, out) ∷ []
    pub changed : Changed base law env o s item out at w.db v.db

  give_up-Dispatched :
      (item : Reminder) (m : Text) (at : Time) (w : World base env)
      → (give_up base env s item m w).0 ≡ ok tt
      → Dispatched item failed at w (give_up base env s item m w).1
  unfolding give_up
  give_up-Dispatched item m at w h =
      let (marked, e) = settle_error-ok item m failed _ _ h in
      rw e (record {
        recorded = refl;
        changed = mark_failed-Changed base law env o s item at _ (message_of m) w.db marked;
      })

  try_again-Dispatched :
      (item : Reminder) (m : Text) (w : World base env)
      → (try_again base env o s item m w).0 ≡ ok tt
      → Dispatched item retry (env.now w.state).0 w (try_again base env o s item m w).1
  unfolding try_again
  try_again-Dispatched item m w h =
      let (marked, e) = settle_error-ok item m retry _ _ h in
      rw e (record {
        recorded = refl;
        changed = mark_retry-Changed base law env o s item _ _ (message_of m) w.db marked;
      })

  after_notify-Dispatched :
      (item : Reminder) (told : Option Text) (w : World base env)
      → (after_notify base env o s item told w).0 ≡ ok tt
      → Dispatched item
          (expected item told)
          (env.now w.state).0
          w
          (after_notify base env o s item told w).1
  unfolding after_notify expected
  after_notify-Dispatched item none w h =
      let (marked, e) = settle_sent-ok item _ _ h in
      rw e (record {
        recorded = refl;
        changed = mark_sent-Changed base law env o s item _ w.db marked;
      })
  after_notify-Dispatched item (some m) w h =
      subst
        (λ out.
          Dispatched item out (env.now w.state).0 w (after_notify base env o s item (some m) w).1)
        (sym (expected-is_last_attempt item m)) (last_or_not (is_last_attempt item) h)
    where
      last_or_not :
          (b : Bool)
          → (if b then give_up base env s item m w else try_again base env o s item m w).0 ≡ ok tt
          → Dispatched item
              (if b then failed else retry)
              (env.now w.state).0
              w
              (if b then give_up base env s item m w else try_again base env o s item m w).1
      last_or_not true h = give_up-Dispatched item m _ w h
      last_or_not false h = try_again-Dispatched item m w h

  -- A dispatch that returns no error has done what the notifier's answer asks for:
  -- it has recorded one result for the item's channel, and has changed a claimed row of the
  -- item's id. The row is sent if the notification went out. Otherwise it is failed if this was
  -- the last attempt, and pending again, after the delay of this attempt, if it was not; the
  -- failed attempt is counted in both cases.
  pub dispatch-Dispatched :
      (item : Reminder) (w : World base env)
      → (dispatch base env o s item w).0 ≡ ok tt
      → let (told, state) = env.notify item w.state in
        Dispatched item
          (expected item told)
          (env.now state).0
          (record w { db = others w.db; state = state })
          (dispatch base env o s item w).1
  unfolding dispatch
  dispatch-Dispatched item w h = after_notify-Dispatched item _ _ h
