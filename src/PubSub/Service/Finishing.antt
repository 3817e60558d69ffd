-- ===== src/PubSub/Service/Finishing.antt =====
-- pubsub/service.go and pubsub/store.go: the last round of a message.
use wego.Action.{ok}
use wego.PubSub.Service.Settling.{
  unwritten, next_of, exhausted, handled, retried, dead, dropped, pending, Settled, issued,
}
use wego.PubSub.Service.Rounds.{follow_read, follow, next_retry, promoted_entry, round, rounds}
use wego.PubSub.Service.Ending.{
  HasTexts, SameRetry, Attempts-HasTexts, LuaAgrees, Attempts, taken, retry_Attempts, add_int-left,
}
use wego.Prelude.{
  some_injective, ◌≡◌, text_key, ℕ, zero, suc, ◌+◌, ◌^◌, ◌≤◌, ◌<◌, refl, ap, ◌∙◌, sym, subst, true,
  false, Option, none, some, [], Text, Unicode, arith,
}
use wego.PubSub.{Message, Delivery, Entry, Subscription, Options, effective_retry, Envelope}
use wego.PubSub.Decoding.{Codec, is_nil}
use wego.PubSub.Promotion.{Lua}
use wego.PubSub.Service.{Environment, World, Command}
use wego.PubSub.Service.Entries.{EntrySettled, undecodable, decoded, handle_entry-EntrySettled}

module _ ⦃u : Unicode⦄ (E : Environment) (o : Options) (codec : Codec) (lua : Lua)
    (laws : LuaAgrees codec lua E.marshal) (sub : Subscription) (consumer : Text)
    (between : E.State → Text × E.State) (connected : o.connected ≡ true)
    (named : (s : E.State) → is_nil ((between s).0) ≡ false) where
  -- A round, and the state in which the next one begins.
  abbrev pub turn_of : Entry → E.State → World E
  turn_of entry env = round E o codec lua sub consumer between entry env

  abbrev pub after_turn : Entry → E.State → Text × E.State
  after_turn entry env = between (turn_of entry env).env

  abbrev pub rounds_of : ℕ → Entry → E.State → Option (World E)
  rounds_of fuel entry env = rounds E o codec lua sub consumer between fuel entry env

  -- The command of a round of a message's entry.
  pub record Turn (entry : Entry) (d : Delivery) (env : E.State) : Type 0 where
    pub command : Option Command
    pub settled : Settled E o sub (effective_retry sub o.retry) d env command
    pub log : (turn_of entry env).commands ≡ issued command

  pub round-Turn :
      (entry : Entry) (n a : ℕ) (m : Message) (env : E.State)
      (at : Attempts o codec sub consumer entry n a m)
      → Turn entry (taken o codec sub consumer at.delivery) env
  round-Turn entry n a m env at = by_settlement (
      handle_entry-EntrySettled o sub codec consumer entry (record { env = env; commands = [] })
        connected)
    where
      by_settlement :
          EntrySettled o sub codec consumer entry
            (record { env = env; commands = [] })
            (turn_of entry env)
          → Turn entry (taken o codec sub consumer at.delivery) env
      by_settlement (undecodable bad log) = cc (bad, at.decodes)
      by_settlement (decoded d e s) =
          subst (λ d. Turn entry (taken o codec sub consumer d) env)
            (some_injective d at.delivery (sym e ∙ at.decodes))
            (record { command = s.command; settled = s.settled; log = s.log })

  -- A round without a retry is the last one.
  pub rounds-last :
      (k : ℕ) (entry : Entry) (env : E.State)
      → next_retry (turn_of entry env).commands ≡ none
      → rounds_of (suc k) entry env ≡ some (turn_of entry env)
  unfolding rounds
  rounds-last k entry env h = ap (follow lua _ _) h

  -- The rounds after a round with a retry.
  pub rounds-follow :
      (k : ℕ) (entry : Entry) (env : E.State) (payload : Text) (e : Envelope)
      → next_retry (turn_of entry env).commands ≡ some payload
      → lua.decode payload ≡ some e
      → rounds_of (suc k) entry env
        ≡ rounds_of k (promoted_entry lua ((after_turn entry env).0) e) ((after_turn entry env).1)
  unfolding rounds
  rounds-follow k entry env payload e h read = ap (follow lua _ _) h ∙ ap (follow_read _ _) read

  -- A message whose rounds end within a number of rounds, without another retry.
  pub record Ends (fuel : ℕ) (entry : Entry) (env : E.State) : Type 0 where
    pub last : World E
    pub ends : rounds_of fuel entry env ≡ some last
    pub has_no_retry : next_retry last.commands ≡ none

  -- What Lua reads of the retry of an attempt.
  pub retry_read :
      (entry : Entry) (n a : ℕ) (m : Message) (at : Attempts o codec sub consumer entry n a m)
      (payload : Text)
      → HasTexts laws.is_utf8 m
      → E.marshal (next_of o sub (taken o codec sub consumer at.delivery)) ≡ ok payload
      → (f : Envelope) × (lua.decode payload ≡ some f)
        × SameRetry (next_of o sub (taken o codec sub consumer at.delivery)) f
  retry_read entry n a m at payload texts written =
      laws.reads (next_of o sub (taken o codec sub consumer at.delivery)) payload
        (Attempts-HasTexts o codec sub consumer laws.is_utf8 entry n a m at texts) written

  by_first_round :
      (k n a : ℕ) (m : Message) (entry : Entry) (env : E.State)
      (at : Attempts o codec sub consumer entry n a m)
      → HasTexts laws.is_utf8 m
      → a < 2 ^ 53
      → ((f : Envelope)
          → a + 1 ≤ n
          → SameRetry (next_of o sub (taken o codec sub consumer at.delivery)) f
          → Ends k (promoted_entry lua ((after_turn entry env).0) f) ((after_turn entry env).1))
      → Ends (suc k) entry env
  unfolding next_retry
  by_first_round k n a m entry env at texts small rest = by_settled r.command r.settled r.log
    where
      d : Delivery
      d = taken o codec sub consumer at.delivery

      r : Turn entry d env
      r = round-Turn entry n a m env at

      stopped :
          (c : Option Command)
          → (turn_of entry env).commands ≡ issued c
          → next_retry (issued c) ≡ none
          → Ends (suc k) entry env
      stopped c log h = record {
        last = turn_of entry env;
        ends = rounds-last k entry env (ap next_retry log ∙ h);
        has_no_retry = ap next_retry log ∙ h;
      }

      by_settled :
          (c : Option Command)
          → Settled E o sub (effective_retry sub o.retry) d env c
          → (turn_of entry env).commands ≡ issued c
          → Ends (suc k) entry env
      by_settled c (exhausted over) log = stopped c log refl
      by_settled c (handled fresh accepts) log = stopped c log refl
      by_settled c (dead e fresh fails over on) log = stopped c log refl
      by_settled c (dropped e fresh fails over off) log = stopped c log refl
      by_settled c (pending e fresh fails few late) log = stopped c log refl
      by_settled c (unwritten e fresh fails few f bad) log = stopped c log refl
      by_settled c (retried e fresh fails few ready payload written) log =
          let (f, read, same) = retry_read entry n a m at payload texts written in
          let left : a + 1 ≤ n = ground (
            arith,
            few,
            add_int-left d.message.max_deliver d.attempt n a at.has_limit at.has_attempt small,
          ) in
          let last = rest f left same in
          record {
            last = last.last;
            ends = rounds-follow k entry env payload f (ap next_retry log) read ∙ last.ends;
            has_no_retry = last.has_no_retry;
          }

  -- A message in UTF-8 with a limit of n deliveries, both below 2 ^ 53, that is read in its attempt a
  -- ends in at most n - a + 1 rounds, whatever the handler returns: the last round schedules no further
  -- retry. Every command is taken to be carried out, and every promoted retry to be read by ReadGroup;
  -- an entry that AutoClaim reads again, with the attempt of its pending entry, is left aside.
  pub rounds-Ends :
      (k n a : ℕ) (m : Message) (entry : Entry) (env : E.State)
      → Attempts o codec sub consumer entry n a m
      → HasTexts laws.is_utf8 m
      → n < 2 ^ 53
      → a < 2 ^ 53
      → n ≤ a + k
      → Ends (suc k) entry env
  rounds-Ends zero n a m entry env at texts limit small enough =
      by_first_round zero n a m entry env at texts small
        (λ f left same. absurd (omega (arith, left, enough)))
  rounds-Ends (suc k) n a m entry env at texts limit small enough =
      by_first_round (suc k) n a m entry env at texts small (λ f left same.
        rounds-Ends k n (a + 1) m _ _
          (retry_Attempts o codec sub consumer lua E.marshal laws entry n a m
            ((after_turn entry env).0) at f same (named _) limit left)
          texts limit (omega (arith, left, limit)) (omega (arith, enough)))
