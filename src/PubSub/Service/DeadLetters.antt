-- ===== src/PubSub/Service/DeadLetters.antt =====
-- pubsub/service.go and pubsub/store.go: the messages that the handler refuses.
use wego.Action.{ok}
use wego.PubSub.{
  dlq_key, stream_key, Envelope, Time, Message, Delivery, Entry, Subscription, Options,
  effective_retry,
}
use wego.PubSub.Decoding.{field, parse_headers, Codec, is_nil}
use wego.PubSub.Publishing.{itoa}
use wego.PubSub.Service.{
  dead_letter, dead_letter_values, Environment, World, Command, is_schedulable,
}
use wego.PubSub.Service.Settling.{
  unwritten, next_of, exhausted, handled, retried, dead, dropped, pending, Settled, issued,
  dead_letter_of, due_of,
}
use wego.PubSub.Service.Ending.{
  HasTexts, SameRetry, Attempts-headers, Attempts-group, LuaAgrees, Attempts, taken, retry_Attempts,
  add_int-left,
}
use wego.PubSub.Service.Finishing.{
  after_turn, rounds-last, rounds-follow, retry_read, Turn, round-Turn,
}
use wego.Prelude.{
  GoMap, add_int-one, ◌≡◌, ltb_ℤ, add_int, text_key, lookup, nat_beq, ℕ, zero, suc, ◌+◌, ◌^◌, ◌≤◌,
  ◌<◌, ap, ◌∙◌, true, false, Option, some, [], ◌∷◌, Text, Unicode, ltb, ℤ, pos, arith, refl, sym,
  subst, none, codes,
}
use wego.PubSub.Promotion.{Lua}
use wego.PubSub.Service.Rounds.{next_retry, promoted_entry, round, rounds}

-- An attempt within the limit is not exhausted.
ltb_ℤ-pos :
    (limit attempt : ℤ) (n a : ℕ) → limit ≡ pos n → attempt ≡ pos a → ltb_ℤ limit attempt ≡ ltb n a
ltb_ℤ-pos limit attempt n a e f = rw (e, f) (ground arith)

is_schedulable_of_pos :
    (due : Time) (attempt : ℤ) (a : ℕ)
    → attempt ≡ pos (a + 1)
    → nat_beq due 0 ≡ false
    → is_schedulable due attempt ≡ true
unfolding is_schedulable
is_schedulable_of_pos due attempt a e h = rw (e, h) (ground arith)

module _ ⦃u : Unicode⦄ (E : Environment) (o : Options) (codec : Codec) (lua : Lua)
    (laws : LuaAgrees codec lua E.marshal) (sub : Subscription) (consumer : Text)
    (between : E.State → Text × E.State) (connected : o.connected ≡ true)
    (named : (s : E.State) → is_nil ((between s).0) ≡ false) where
  -- The values of a dead letter are those of a message, in its last attempt.
  pub record IsLetter (limit : ℕ) (m : Message) (values : GoMap Text Text) : Type 0 where
    pub key : lookup (codes "key") values ≡ some m.key
    pub message_type : lookup (codes "type") values ≡ some m.message_type
    pub data_bytes : lookup (codes "data") values ≡ some m.data_bytes
    pub read_headers : GoMap Text Text
    pub headers : parse_headers codec (field (codes "headers") values) ≡ some read_headers
    pub same_headers : (k : Text) → lookup k read_headers ≡ lookup k m.headers
    pub max_deliver : lookup (codes "max_deliver") values ≡ some (itoa (pos limit))
    pub attempt : lookup (codes "attempt") values ≡ some (itoa (pos limit))
    pub reason : lookup (codes "reason") values ≡ some (codes "max delivery exceeded")

  dead_letter_values-IsLetter :
      (entry : Entry) (n : ℕ) (m : Message) (at : Attempts o codec sub consumer entry n n m)
      → IsLetter n m (
          dead_letter_values E.printer
            (taken o codec sub consumer at.delivery)
            (codes "max delivery exceeded"))
  unfolding dead_letter_values lookup field
  dead_letter_values-IsLetter entry n m at = record {
    key = ap some at.same_key;
    message_type = ap some at.same_type;
    data_bytes = ap some at.same_data;
    read_headers = (taken o codec sub consumer at.delivery).message.headers;
    headers = Attempts-headers o codec sub consumer entry n n m at;
    same_headers = at.same_headers;
    max_deliver = ap (λ x. some (itoa x)) at.has_limit;
    attempt = ap (λ x. some (itoa x)) at.has_attempt;
    reason = refl;
  }

  -- The message's rounds, no fewer than the fuel, end with its move to the dead letters.
  pub record EndsDead (fuel limit : ℕ) (m : Message) (entry : Entry) (env : E.State) : Type 0 where
    pub last : World E
    pub ends : rounds E o codec lua sub consumer between fuel entry env ≡ some last
    pub no_fewer : (j : ℕ) → j < fuel → rounds E o codec lua sub consumer between j entry env ≡ none
    pub id : Text
    pub values : GoMap Text Text
    pub sent :
        last.commands
        ≡ dead_letter (dlq_key o sub.topic) (stream_key o sub.topic) sub.group id values ∷ []
    pub letter : IsLetter limit m values

  module _ (enabled : o.dlq_enabled ≡ true)
      (refuses : (d : Delivery) (env : E.State) → (e : Text) × ((E.handle d env).0 ≡ some e))
      (later : (d : Delivery) (env : E.State)
        → nat_beq (due_of E o sub (effective_retry sub o.retry) d env) 0 ≡ false)
      (writes : (e : Envelope) → (payload : Text) × (E.marshal e ≡ ok payload)) where
    -- The last attempt.
    in_last_attempt :
        (k n : ℕ) (m : Message) (entry : Entry) (env : E.State)
        (at : Attempts o codec sub consumer entry n n m)
        → (round E o codec lua sub consumer between entry env).commands
          ≡ dead_letter_of o sub E.printer (taken o codec sub consumer at.delivery) ∷ []
        → k ≡ 0
        → EndsDead (suc k) n m entry env
    unfolding next_retry rounds
    in_last_attempt k n m entry env at log only = record {
      last = round E o codec lua sub consumer between entry env;
      ends =
          rounds-last E o codec lua laws sub consumer between connected named k entry env
            (ap next_retry log);
      no_fewer = before;
      id = (taken o codec sub consumer at.delivery).id;
      values =
          dead_letter_values E.printer (taken o codec sub consumer at.delivery)
            (codes "max delivery exceeded");
      sent =
          log
          ∙ ap
              (λ g.
                dead_letter (dlq_key o sub.topic) (stream_key o sub.topic) g
                  (taken o codec sub consumer at.delivery).id
                  (dead_letter_values E.printer (taken o codec sub consumer at.delivery)
                    (codes "max delivery exceeded"))
                ∷ [])
              (Attempts-group o codec sub consumer entry n n m at);
      letter = dead_letter_values-IsLetter entry n m at;
    }
      where
        before : (j : ℕ) → j < suc k → rounds E o codec lua sub consumer between j entry env ≡ none
        before zero h = refl
        before (suc j) h = absurd (omega (arith, only, h))

    -- By the command of the first round.
    by_first_round :
        (k n a : ℕ) (m : Message) (entry : Entry) (env : E.State)
        (at : Attempts o codec sub consumer entry n a m)
        → HasTexts laws.is_utf8 m
        → n < 2 ^ 53
        → a + k ≡ n
        → ((f : Envelope)
            → a + 1 ≤ n
            → SameRetry (next_of o sub (taken o codec sub consumer at.delivery)) f
            → EndsDead k n m
                (promoted_entry lua
                  ((after_turn E o codec lua laws sub consumer between connected named entry env).0)
                  f)
                ((after_turn E o codec lua laws sub consumer between connected named entry env).1))
        → EndsDead (suc k) n m entry env
    unfolding next_retry rounds
    by_first_round k n a m entry env at texts small attempts rest =
        by_settled r.command r.settled r.log
      where
        d : Delivery
        d = taken o codec sub consumer at.delivery

        r : Turn E o codec lua laws sub consumer between connected named entry d env
        r = round-Turn E o codec lua laws sub consumer between connected named entry n a m env at

        left : ltb_ℤ d.message.max_deliver (add_int d.attempt (pos 1)) ≡ ltb n (a + 1)
        left =
            add_int-left d.message.max_deliver d.attempt n a at.has_limit at.has_attempt
              (omega (arith, small, attempts))

        within : ltb_ℤ d.message.max_deliver d.attempt ≡ ltb n a
        within = ltb_ℤ-pos d.message.max_deliver d.attempt n a at.has_limit at.has_attempt

        last_turn :
            (a + 1 ≤ n → ⊥)
            → (round E o codec lua sub consumer between entry env).commands
              ≡ dead_letter_of o sub E.printer d ∷ []
            → EndsDead (suc k) n m entry env
        last_turn full log = ended a (omega (arith, full, attempts)) at log
          where
            ended :
                (b : ℕ)
                → b ≡ n
                → (bt : Attempts o codec sub consumer entry n b m)
                → (round E o codec lua sub consumer between entry env).commands
                  ≡ dead_letter_of o sub E.printer (taken o codec sub consumer bt.delivery) ∷ []
                → EndsDead (suc k) n m entry env
            ended b e =
                subst
                  (λ b.
                    (bt : Attempts o codec sub consumer entry n b m)
                    → (round E o codec lua sub consumer between entry env).commands
                      ≡ dead_letter_of o sub E.printer (taken o codec sub consumer bt.delivery) ∷ []
                    → EndsDead (suc k) n m entry env)
                  (sym e)
                  (λ bt log. in_last_attempt k n m entry env bt log (omega (arith, full, attempts)))

        by_settled :
            (c : Option Command)
            → Settled E o sub (effective_retry sub o.retry) d env c
            → (round E o codec lua sub consumer between entry env).commands ≡ issued c
            → EndsDead (suc k) n m entry env
        by_settled c (exhausted over) log = absurd (ground (arith, over, within, attempts))
        by_settled c (handled fresh accepts) log = absurd (cc (accepts, (refuses d env).1))
        by_settled c (dead e fresh fails over on) log =
            last_turn (λ more. ground (arith, over, left, more)) log
        by_settled c (dropped e fresh fails over off) log = absurd (cc (off, enabled))
        by_settled c (unwritten e fresh fails few f bad) log =
            absurd (cc (bad, (writes (next_of o sub d)).1))
        by_settled c (pending e fresh fails few late) log = absurd (
            cc (
              late,
              is_schedulable_of_pos
                  (due_of E o sub (effective_retry sub o.retry) d ((E.handle d env).1))
                  (add_int d.attempt (pos 1)) a
                  (ap (λ x. add_int x (pos 1)) at.has_attempt
                    ∙ add_int-one a (omega (arith, small, attempts)))
                  (later d ((E.handle d env).1)),
            ))
        by_settled c (retried e fresh fails few ready payload written) log =
            let (f, read, same) =
              retry_read E o codec lua laws sub consumer between connected named entry n a m at
                payload texts written in
            let over = rest f (ground (arith, few, left)) same in
            let next : (j : ℕ)
                → rounds E o codec lua sub consumer between (suc j) entry env
                  ≡ rounds E o codec lua sub consumer between j
                      (promoted_entry lua
                        ((after_turn E o codec lua laws sub consumer between connected named entry
                          env).0)
                        f)
                      ((after_turn E o codec lua laws sub consumer between connected named entry
                        env).1) =
              λ j.
                rounds-follow E o codec lua laws sub consumer between connected named j entry env
                  payload f (ap next_retry log) read in
            record {
              last = over.last;
              ends = next k ∙ over.ends;
              no_fewer = before over.no_fewer next;
              id = over.id;
              values = over.values;
              sent = over.sent;
              letter = over.letter;
            }
          where
            before :
                {X : ℕ → Option (World E)}
                → ((j : ℕ) → j < k → X j ≡ none)
                → ((j : ℕ) → rounds E o codec lua sub consumer between (suc j) entry env ≡ X j)
                → (j : ℕ) → j < suc k
                → rounds E o codec lua sub consumer between j entry env ≡ none
            before fewer next zero h = refl
            before fewer next (suc j) h = next j ∙ fewer j (omega (arith, h))

    -- Where the dead letters are enabled, the handler refuses every delivery, the time of a retry is
    -- never the zero time and its JSON can be written, a message in UTF-8 with a limit of n deliveries
    -- that is read in its attempt a has exactly n - a + 1 rounds, and the last one sends the script
    -- that moves it to the dead letters, with the key, the type and the data that were published,
    -- headers that are read as those that were published, the limit n and the attempt n. Every
    -- command is taken to be carried out, and every promoted retry to be read by ReadGroup; an entry
    -- that AutoClaim reads again, with the attempt of its pending entry, is left aside.
    pub rounds-EndsDead :
        (k n a : ℕ) (m : Message) (entry : Entry) (env : E.State)
        → Attempts o codec sub consumer entry n a m
        → HasTexts laws.is_utf8 m
        → n < 2 ^ 53
        → a + k ≡ n
        → EndsDead (suc k) n m entry env
    rounds-EndsDead zero n a m entry env at texts small attempts =
        by_first_round zero n a m entry env at texts small attempts
          (λ f left same. absurd (omega (arith, left, attempts)))
    rounds-EndsDead (suc k) n a m entry env at texts small attempts =
        by_first_round (suc k) n a m entry env at texts small attempts (λ f left same.
          rounds-EndsDead k n (a + 1) m _ _
            (retry_Attempts o codec sub consumer lua E.marshal laws entry n a m
              ((after_turn E o codec lua laws sub consumer between connected named entry env).0) at
              f same (named _) small left)
            texts small (omega (arith, attempts)))
