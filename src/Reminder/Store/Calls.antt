-- ===== src/Reminder/Store/Calls.antt =====
-- Clients call the store's methods (reminder/store.go) in any order, with any arguments; other
-- processes change the table between the calls.
use wego.Prelude.{ℕ, true, Option, some, List, [], ◌∷◌, ◌≡◌, Text, ℤ, get_elem?}
use wego.Reminder.Model.{Time, Reminder, CreateParams}
use wego.Reminder.History.{
  is_settled, Moves, SameReminder, Moves-SameReminder, Moves-settled, Evolves, Evolves-refl,
  Evolves-trans, Evolves-get_elem?,
}
use wego.Reminder.Database.{Database, Lawful}
use wego.Reminder.Store
use wego.Reminder.Store.{Store}
use wego.Reminder.Store.Evolution.{
  Tracks-create, Tracks-cancel_by_key, Tracks-reschedule_by_key, Tracks-claim_due, Tracks-requeue,
  Tracks-mark_sent, Tracks-mark_retry, Tracks-mark_failed,
}

pub data Call : Type 0 where
  create : Time → CreateParams → Call
  cancel_by_key : Time → Text → Call
  reschedule_by_key : Time → Text → Time → Call
  claim_due : Time → ℤ → Call
  requeue_stale_processing : Time → Time → Call
  mark_sent : ℕ → Time → Call
  mark_retry : Time → Option Reminder → Time → Text → Call
  mark_failed : Time → Option Reminder → Text → Call

module _ (base : Database) (s : Store) where
  open base use {Db, rows, others}

  -- The database after a call; its result does not matter here.
  unfoldable pub perform : Call → Db → Db
  perform (create now p) db = (Store.create base s now p db).1
  perform (cancel_by_key now key) db = (Store.cancel_by_key base s now key db).1
  perform (reschedule_by_key now key at) db = (Store.reschedule_by_key base s now key at db).1
  perform (claim_due now limit) db = (Store.claim_due base s now limit db).1
  perform (requeue_stale_processing now stale) db =
      (Store.requeue_stale_processing base s now stale db).1
  perform (mark_sent id at) db = (Store.mark_sent base s id at db).1
  perform (mark_retry now item at message) db = (Store.mark_retry base s now item at message db).1
  perform (mark_failed now item message) db = (Store.mark_failed base s now item message db).1

  unfoldable pub perform_all : List Call → Db → Db
  perform_all [] db = db
  perform_all (c ∷ cs) db = perform_all cs (others (perform c db))

module _ (base : Database) (law : Lawful base) (s : Store) where
  open base use {Db, rows, others}

  perform-Evolves : (c : Call) (db : Db) → Evolves (rows db) (rows (perform base s c db))
  unfolding perform
  perform-Evolves (create now p) = (Tracks-create base law s now p).at
  perform-Evolves (cancel_by_key now key) = (Tracks-cancel_by_key base law s now key).at
  perform-Evolves (reschedule_by_key now key at) =
      (Tracks-reschedule_by_key base law s now key at).at
  perform-Evolves (claim_due now limit) = (Tracks-claim_due base law s now limit).at
  perform-Evolves (requeue_stale_processing now stale) = (Tracks-requeue base law s now stale).at
  perform-Evolves (mark_sent id at) = (Tracks-mark_sent base law s id at).at
  perform-Evolves (mark_retry now item at message) =
      (Tracks-mark_retry base law s now item at message).at
  perform-Evolves (mark_failed now item message) =
      (Tracks-mark_failed base law s now item message).at

  perform_all-Evolves :
      (cs : List Call) (db : Db) → Evolves (rows db) (rows (perform_all base s cs db))
  unfolding perform_all
  perform_all-Evolves [] db = Evolves-refl (rows db)
  perform_all-Evolves (c ∷ cs) db = Evolves-trans (perform-Evolves c db) (
      Evolves-trans (law.others_rows (perform base s c db))
        (perform_all-Evolves cs (others (perform base s c db))))

  -- After any calls, successful or not, and whatever other processes of the store do, the row at
  -- an index is still there, tells the same reminder (id, key, user, channel, payload, largest
  -- number of retries, creation), and has come to its state by steps of `Step` alone.
  pub row_history :
      (cs : List Call) (db : Db) (i : ℕ) (r : Reminder)
      → get_elem? (rows db) i ≡ some r
      → (r' : Reminder) × (get_elem? (rows (perform_all base s cs db)) i ≡ some r')
        × SameReminder r r'
        × Moves r r'
  row_history cs db i r h =
      let (r', e, m) = Evolves-get_elem? i r (perform_all-Evolves cs db) h in
      (r', e, Moves-SameReminder m, m)

  -- A reminder that was sent or canceled is never changed again, by any calls.
  pub settled_stays :
      (cs : List Call) (db : Db) (i : ℕ) (r : Reminder)
      → get_elem? (rows db) i ≡ some r
      → is_settled r.status ≡ true
      → get_elem? (rows (perform_all base s cs db)) i ≡ some r
  settled_stays cs db i r h settled =
      let (r', e, m) = Evolves-get_elem? i r (perform_all-Evolves cs db) h in
      rw (Moves-settled m settled) at e
