-- ===== src/PubSub/Polling.antt =====
-- pubsub/store.go and pubsub/service.go: ReadGroup, AutoClaim and the loops that poll them. What
-- Redis answers is the argument `Poller`, in the state of the environment that handles the entries.
pub mod Claiming
use wego.Prelude.{
  ◌≡◌, GoMap, insert, text_key, All, ℕ, zero, suc, ◌+◌, ◌-◌, ◌*◌, ◌/◌, ◌%◌, ◌^◌, ◌≤◌, ◌<◌, refl, ap,
  ◌∙◌, sym, subst, Bool, true, false, Option, none, some, List, [], ◌∷◌, ◌++◌, map, Text, codes,
  Unicode, is_empty, ltb, leb, ℤ, pos, negsuc, is_pos, if◌then◌else◌, ◌&&◌, ◌||◌, not, arith,
  append_assoc, append_nil,
}
use wego.Action.{Result, ok, err}
use wego.Reminder.Model.{Time}
use wego.PubSub.{
  Error, redis_not_configured, redis_error, Entry, Subscription, Options, stream_key,
  effective_retry,
}
use wego.PubSub.Decoding.{Codec}
use wego.PubSub.Publishing.{itoa}
use wego.PubSub.Promotion.{Failure, missing, failure, Lua, Retries, Queue, promote_due_retries}
use wego.PubSub.Service.{Environment, World, handle_entry}

-- redis.XReadGroupArgs
pub record ReadRequest : Type 0 where
  pub group : Text
  pub consumer : Text
  pub stream : Text
  pub count : ℤ
  pub block : ℤ

-- redis.XAutoClaimArgs
pub record ClaimRequest : Type 0 where
  pub stream : Text
  pub group : Text
  pub consumer : Text
  pub min_idle : ℤ
  pub start : Text
  pub count : ℤ

-- The values of an entry are texts, which fmt.Sprint leaves as they are.
pub record Poller (S : Type 0) : Type 0 where
  pub read_streams : ReadRequest → S → Result Failure (List (List Entry)) × S
  pub claim_entries : ClaimRequest → S → Result Failure (List Entry × Text) × S
  -- XPENDING of one entry: the counts of its deliveries, at most one
  pub pending : (stream group id : Text) → S → Result Text (List ℕ) × S
  -- errors.Is(err, context.Canceled)
  pub is_canceled : Text → Bool
  -- Whether the context is done, when a loop looks at it.
  pub is_done : S → Bool × S

abbrev pub canceled : {S : Type 0} → Poller S → Error → Bool
canceled poller (redis_error e) = poller.is_canceled e
canceled poller _ = false

unfoldable pub flatten_entries : List (List Entry) → List Entry
flatten_entries [] = []
flatten_entries (entries ∷ streams) = entries ++ flatten_entries streams

abbrev pub read_result : Result Failure (List (List Entry)) → Result Error (List Entry)
read_result (ok streams) = ok (flatten_entries streams)
read_result (err missing) = ok []
read_result (err (failure e)) = err (redis_error e)

-- A claimed entry, with the count of its deliveries as its attempt, if there is one.
unfoldable pub with_attempt : Result Text (List ℕ) → Entry → Entry
with_attempt (err e) entry = entry
with_attempt (ok []) entry = entry
with_attempt (ok (n ∷ ns)) entry =
    if ltb 0 n
    then record entry { values = insert (codes "attempt") (itoa (pos n)) entry.values }
    else entry

-- `if start == "" { start = "0-0" }`
abbrev pub start_of : Text → Text
start_of [] = codes "0-0"
start_of (c ∷ s) = c ∷ s

-- What claimLoop starts from after a claim.
abbrev pub next_start : List Entry → Text → Text
next_start [] next = codes "0-0"
next_start (e ∷ es) next = next

module _ ⦃u : Unicode⦄ {S : Type 0} (poller : Poller S) (o : Options) where
  -- Store.ReadGroup
  unfoldable pub read_group : Subscription → Text → S → Result Error (List Entry) × S
  unfolding flatten_entries
  read_group sub consumer s =
      let request : ReadRequest = record {
        group = sub.group;
        consumer = consumer;
        stream = stream_key o sub.topic;
        count = o.read_count;
        block = o.block;
      } in
      let read = poller.read_streams request s in
      if o.connected then (read_result (read.0), read.1) else (err redis_not_configured, s)

  -- The loop of AutoClaim, with pendingRetryCount.
  unfoldable pub with_attempts : Subscription → List Entry → S → List Entry × S
  unfolding with_attempt
  with_attempts sub [] s = ([], s)
  with_attempts sub (entry ∷ entries) s =
      let counts = poller.pending (stream_key o sub.topic) sub.group entry.id s in
      let rest = with_attempts sub entries (counts.1) in
      (with_attempt (counts.0) entry ∷ rest.0, rest.1)

  abbrev pub claim_result :
      Subscription
      → Text
      → Result Failure (List Entry × Text)
      → S
      → Result Error (List Entry × Text) × S
  claim_result sub start (ok claim) s =
      let entries = with_attempts sub (claim.0) s in (ok (entries.0, claim.1), entries.1)
  claim_result sub start (err missing) s = (ok ([], start), s)
  claim_result sub start (err (failure e)) s = (err (redis_error e), s)

  -- Store.AutoClaim; the start that it returns with an error is not used.
  unfoldable pub auto_claim :
      Subscription → (consumer start : Text) → S → Result Error (List Entry × Text) × S
  unfolding with_attempts effective_retry
  auto_claim sub consumer start s =
      let request : ClaimRequest = record {
        stream = stream_key o sub.topic;
        group = sub.group;
        consumer = consumer;
        min_idle = (effective_retry sub o.retry).idle_timeout;
        start = start_of start;
        count = o.read_count;
      } in
      let claimed = poller.claim_entries request s in
      let result = claim_result sub (start_of start) (claimed.0) (claimed.1) in
      if o.connected then result else (err redis_not_configured, s)

module _ ⦃u : Unicode⦄ {E : Environment} (poller : Poller E.State) (o : Options) where
  -- The entries of a read or of a claim, in their order.
  unfoldable pub handle_entries : Codec → Subscription → Text → List Entry → World E → World E
  unfolding handle_entry
  handle_entries codec sub consumer [] w = w
  handle_entries codec sub consumer (entry ∷ entries) w =
      handle_entries codec sub consumer entries (handle_entry o codec sub consumer entry w)

  -- After a read of consumeLoop: the rest of the loop is `again`.
  abbrev pub after_read :
      Codec
      → Subscription
      → Text
      → (World E → World E)
      → Result Error (List Entry)
      → World E
      → World E
  after_read codec sub consumer again (ok entries) w =
      again (handle_entries codec sub consumer entries w)
  after_read codec sub consumer again (err e) w =
      let next = again w in if canceled poller e then w else next

  -- consumeLoop, for a number of turns
  unfoldable pub run_consume_loop : (fuel : ℕ) → Codec → Subscription → Text → World E → World E
  unfolding read_group handle_entries
  run_consume_loop zero codec sub consumer w = w
  run_consume_loop (suc fuel) codec sub consumer w =
      let looked = poller.is_done w.env in
      let read = read_group poller o sub consumer (looked.1) in
      let next =
        after_read codec sub consumer (run_consume_loop fuel codec sub consumer) (read.0)
          (record w { env = read.1 }) in
      if looked.0 then record w { env = looked.1 } else next

  -- After a claim of claimLoop.
  abbrev pub after_claim :
      Codec
      → Subscription
      → (consumer start : Text) → (Text → World E → World E)
      → Result Error (List Entry × Text)
      → World E
      → World E
  after_claim codec sub consumer start again (ok claim) w =
      again (next_start (claim.0) (claim.1)) (handle_entries codec sub consumer (claim.0) w)
  after_claim codec sub consumer start again (err e) w =
      let next = again start w in if canceled poller e then w else next

  -- claimLoop from a start, for a number of ticks
  unfoldable pub run_claim_loop :
      (fuel : ℕ) → Codec → Subscription → (consumer start : Text) → World E → World E
  unfolding auto_claim handle_entries
  run_claim_loop zero codec sub consumer start w = w
  run_claim_loop (suc fuel) codec sub consumer start w =
      let waited = poller.is_done w.env in
      let claimed = auto_claim poller o sub consumer start (waited.1) in
      let next =
        after_claim codec sub consumer start (run_claim_loop fuel codec sub consumer) (claimed.0)
          (record w { env = claimed.1 }) in
      if waited.0 then record w { env = waited.1 } else next

module _ ⦃u : Unicode⦄ (K : Retries) (lua : Lua) (o : Options) (is_canceled : Text → Bool)
    (is_done : K.State → Bool × K.State) (now : K.State → Time × K.State) where
  abbrev stops_at : Result Error ℕ → Bool
  stops_at (err (redis_error e)) = is_canceled e
  stops_at _ = false

  -- retryLoop, for a number of ticks
  unfoldable pub run_retry_loop : (fuel : ℕ) → Subscription → Queue K → Queue K
  unfolding promote_due_retries
  run_retry_loop zero sub q = q
  run_retry_loop (suc fuel) sub q =
      let waited = is_done q.state in
      let clock = now (waited.1) in
      let promoted =
        promote_due_retries K lua o sub.topic sub.group o.read_count (clock.0)
          (record q { state = clock.1 }) in
      let next = run_retry_loop fuel sub (promoted.1) in
      if waited.0
      then record q { state = waited.1 }
      else if stops_at (promoted.0)
      then promoted.1
      else next
