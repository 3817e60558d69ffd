-- ===== src/PubSub/Promotion/Sending.antt =====
-- pubsub/store.go, PromoteDueRetries: the commands that the script sends.
use wego.Prelude.{
  length, ◌≡◌, ℕ, refl, ap, ◌∙◌, sym, Bool, true, Option, none, some, List, [], ◌∷◌, ◌++◌, Text,
  Unicode, ℤ, if◌then◌else◌, append_assoc, append_nil,
}
use wego.Action.{Result, ok, err}
use wego.Reminder.Model.{Time}
use wego.PubSub.{Error, redis_not_configured, Options, stream_key, retry_key, Envelope}
use wego.PubSub.Service.{unix_milli}
use wego.PubSub.Promotion.{
  Lua, ScriptCommand, add_entry, remove_retry, Failure, Retries, Queue, promoted_fields,
  promoted_result, one_more, at_least, redis_call, unless_failed, promote_items, promote_found,
  promote_due_retries,
}

-- Each retry is added to the stream, and only then removed from the set.
unfoldable pub moves : Lua → (retries stream : Text) → List Envelope → List ScriptCommand
moves lua retries stream [] = []
moves lua retries stream (e ∷ es) =
    add_entry stream (promoted_fields lua e) ∷ remove_retry retries e ∷ moves lua retries stream es

-- The answers of Redis to commands that are sent one after the other, up to one that fails, if any,
-- and the state after them.
pub data Answers (K : Retries)
    : List ScriptCommand → K.State → Option Failure → K.State → Type 0 where
  no_more : (s : K.State) → Answers K [] s none s
  fails :
      (c : ScriptCommand) (s : K.State) (f : Failure)
      → (K.call c s).0 ≡ some f
      → Answers K (c ∷ []) s (some f) ((K.call c s).1)
  goes_on :
      (c : ScriptCommand) (cs : List ScriptCommand) (s last : K.State) (f : Option Failure)
      → (K.call c s).0 ≡ none
      → Answers K cs ((K.call c s).1) f last
      → Answers K (c ∷ cs) s f last

-- The script's result is the number of the retries, or the error of the last command.
abbrev pub result_of : List Envelope → Option Failure → Result Failure ℕ
result_of es none = ok (length es)
result_of es (some f) = err f

module _ (K : Retries) (lua : Lua) (retries stream : Text) where
  -- What was sent of the moves of some retries, and what was not.
  pub record Sends (es : List Envelope) (q last : Queue K) (r : Result Failure ℕ) : Type 0 where
    pub sent : List ScriptCommand
    pub unsent : List ScriptCommand
    pub log : last.commands ≡ q.commands ++ sent
    pub in_order : sent ++ unsent ≡ moves lua retries stream es
    pub failed : Option Failure
    pub answers : Answers K sent q.state failed last.state
    pub result : r ≡ result_of es failed
    pub all_sent : failed ≡ none → unsent ≡ []

  promote_items-Sends :
      (es : List Envelope) (q : Queue K)
      → Sends es q
          ((promote_items K lua retries stream es q).1)
          ((promote_items K lua retries stream es q).0)
  unfolding promote_items moves redis_call
  promote_items-Sends [] q = record {
    sent = [];
    unsent = [];
    log = sym (append_nil q.commands);
    in_order = refl;
    failed = none;
    answers = no_more q.state;
    result = refl;
    all_sent = λ h. refl;
  }
  promote_items-Sends (e ∷ es) q =
      by_outcomes ((K.call (add_entry stream (promoted_fields lua e)) q.state).0)
        ((K.call (remove_retry retries e) removing.state).0) refl refl
        (promote_items-Sends es moved)
    where
      removing : Queue K
      removing = (redis_call K lua (add_entry stream (promoted_fields lua e)) q).1

      moved : Queue K
      moved = (redis_call K lua (remove_retry retries e) removing).1

      by_rest :
          (r : Result Failure ℕ) (last : Queue K)
          → (K.call (add_entry stream (promoted_fields lua e)) q.state).0 ≡ none
          → (K.call (remove_retry retries e) removing.state).0 ≡ none
          → Sends es moved last r
          → Sends (e ∷ es) q last (one_more r)
      by_rest r last is_added is_removed s = record {
        sent = add_entry stream (promoted_fields lua e) ∷ remove_retry retries e ∷ s.sent;
        unsent = s.unsent;
        log =
            s.log
            ∙ ap (λ xs. xs ++ s.sent) (append_assoc q.commands _ _)
            ∙ append_assoc q.commands _ s.sent;
        in_order =
            ap (λ xs. add_entry stream (promoted_fields lua e) ∷ remove_retry retries e ∷ xs)
              s.in_order;
        failed = s.failed;
        answers = goes_on _ _ _ _ _ is_added (goes_on _ _ _ _ _ is_removed s.answers);
        result = ap one_more s.result ∙ one_more-result_of s.failed;
        all_sent = s.all_sent;
      }
        where
          one_more-result_of :
              (f : Option Failure) → one_more (result_of es f) ≡ result_of (e ∷ es) f
          one_more-result_of none = refl
          one_more-result_of (some f) = refl

      by_outcomes :
          (a b : Option Failure)
          → (K.call (add_entry stream (promoted_fields lua e)) q.state).0 ≡ a
          → (K.call (remove_retry retries e) removing.state).0 ≡ b
          → Sends es moved
              ((promote_items K lua retries stream es moved).1)
              ((promote_items K lua retries stream es moved).0)
          → (let r =
                unless_failed K lua
                  (a, removing)
                  (unless_failed K lua
                    (b, moved)
                    (
                      one_more ((promote_items K lua retries stream es moved).0),
                      (promote_items K lua retries stream es moved).1,
                    )) in
              Sends (e ∷ es) q (r.1) (r.0))
      by_outcomes (some f) b ea eb s = record {
        sent = add_entry stream (promoted_fields lua e) ∷ [];
        unsent = remove_retry retries e ∷ moves lua retries stream es;
        log = refl;
        in_order = refl;
        failed = some f;
        answers = fails _ _ f ea;
        result = refl;
        all_sent = λ h. cc;
      }
      by_outcomes none (some f) ea eb s = record {
        sent = add_entry stream (promoted_fields lua e) ∷ remove_retry retries e ∷ [];
        unsent = moves lua retries stream es;
        log = append_assoc q.commands _ _;
        in_order = refl;
        failed = some f;
        answers = goes_on _ _ _ _ _ ea (fails _ _ f eb);
        result = refl;
        all_sent = λ h. cc;
      }
      by_outcomes none none ea eb s = by_rest _ _ ea eb s

-- What a promotion of some retries returns and sends.
pub record Promotes (K : Retries) (lua : Lua) (retries stream : Text) (items : List Envelope)
    (q last : Queue K) (returned : Result Error ℕ) : Type 0 where
  pub script : Result Failure ℕ
  pub returns : returned ≡ promoted_result script
  pub sends : Sends K lua retries stream items q last script

-- Where the due retries can be read, PromoteDueRetries sends, in their order, for each of them one
-- XADD of its fields to the stream of the topic, and then the ZREM that takes it off the set of its
-- group, and no other command. All commands that it sends but the last one succeed: the first one that
-- fails is the last that is sent, so that no retry is removed whose XADD failed, and its error is
-- the script's; where none fails, all are sent, and the script returns the number of the retries.
pub promote_due_retries-Promotes :
    ⦃u : Unicode⦄ (K : Retries) (lua : Lua) (o : Options) (topic group : Text) (limit : ℤ)
    (now : Time) (q : Queue K) (items : List Envelope)
    → o.connected ≡ true
    → (K.range_by_score (retry_key o topic group) (unix_milli now) (at_least limit) q.state).0
      ≡ ok items
    → Promotes K lua
        (retry_key o topic group)
        (stream_key o topic)
        items
        (record q {
          state =
              (K.range_by_score
                (retry_key o topic group)
                (unix_milli now)
                (at_least limit)
                q.state).1;
        })
        ((promote_due_retries K lua o topic group limit now q).1)
        ((promote_due_retries K lua o topic group limit now q).0)
unfolding promote_due_retries
promote_due_retries-Promotes K lua o topic group limit now q items connected found =
    by_read o.connected _ connected found
  where
    retries : Text
    retries = retry_key o topic group

    stream : Text
    stream = stream_key o topic

    read : Queue K
    read = record q {
      state = (K.range_by_score retries (unix_milli now) (at_least limit) q.state).1;
    }

    s :
        Sends K lua retries stream items read
          ((promote_items K lua retries stream items read).1)
          ((promote_items K lua retries stream items read).0)
    s = promote_items-Sends K lua retries stream items read

    moved :
        Promotes K lua retries stream items read
          ((promote_items K lua retries stream items read).1)
          (promoted_result ((promote_items K lua retries stream items read).0))
    moved = record {
      script = (promote_items K lua retries stream items read).0;
      returns = refl;
      sends = s;
    }

    by_read :
        (c : Bool) (x : Result Failure (List Envelope))
        → c ≡ true
        → x ≡ ok items
        → (let promoted = promote_found K lua retries stream x read in
            let r : Result Error ℕ × Queue K =
              if c
              then (promoted_result (promoted.0), promoted.1)
              else (err redis_not_configured, q) in
            Promotes K lua retries stream items read (r.1) (r.0))
    by_read c x ec ex = rw (ec, ex) moved
