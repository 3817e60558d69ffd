-- ===== src/PubSub/Service/Entries.antt =====
-- pubsub/service.go, handleEntry as a whole, from the stream's entry to the command.
use wego.PubSub.Service.Settling.{
  unwritten, exhausted, handled, retried, dead, dropped, pending, Settled, Settles, issued, ack_of,
  handle_delivery-Settles, send-commands,
}
use wego.Prelude.{
  All, ◌≡◌, refl, ◌∙◌, subst, Bool, true, false, Option, none, some, [], ◌∷◌, ◌++◌, Text, Unicode,
  is_pos, if◌then◌else◌,
}
use wego.PubSub.{Delivery, Entry, RetryPolicy, Subscription, Options, stream_key, effective_retry}
use wego.PubSub.Decoding.{Codec, decode_entry}
use wego.PubSub.Decoding.Fields.{IsOf, decode_entry-IsOf}
use wego.PubSub.Service.{
  Environment, World, Command, ack, dead_letter, schedule_retry, ack_ids, handle_decoded,
  handle_entry, limited,
}

-- The stream, the group and the entry that a command acknowledges.
unfoldable pub Acknowledges : Text → Text → Text → Command → Type 0
Acknowledges stream group id (ack s g ids) = (s ≡ stream) × (g ≡ group) × (ids ≡ id ∷ [])
Acknowledges stream group id (dead_letter dlq s g i values) = (s ≡ stream) × (g ≡ group) × (i ≡ id)
Acknowledges stream group id (schedule_retry retries s due payload g i) =
    (s ≡ stream) × (g ≡ group) × (i ≡ id)

pub limited_same :
    (retry : RetryPolicy) (d : Delivery)
    → ((limited retry d).id ≡ d.id) × ((limited retry d).group ≡ d.group)
unfolding limited
limited_same retry d = tested (is_pos d.message.max_deliver)
  where
    with_limit : Delivery
    with_limit = record d { message = record d.message { max_deliver = retry.max_deliver } }

    tested :
        (b : Bool)
        → ((if b then d else with_limit).id ≡ d.id)
          × ((if b then d else with_limit).group ≡ d.group)
    tested true = (refl, refl)
    tested false = (refl, refl)

acked_Acknowledges :
    ⦃u : Unicode⦄ (o : Options) (sub : Subscription) (id : Text)
    → All (Acknowledges (stream_key o sub.topic) sub.group id) (ack_of o sub id ∷ [])
unfolding Acknowledges
acked_Acknowledges o sub id = ((refl, refl, refl), tt)

module _ ⦃u : Unicode⦄ {E : Environment} (o : Options) (sub : Subscription) where
  -- How an entry is settled: it cannot be decoded and is acknowledged, or its delivery is settled.
  pub data EntrySettled (codec : Codec) (consumer : Text) (entry : Entry) (w last : World E)
      : Type 0 where
    undecodable :
        decode_entry codec sub.topic sub.group consumer entry ≡ none
        → last.commands ≡ w.commands ++ ack_of o sub entry.id ∷ []
        → EntrySettled codec consumer entry w last
    decoded :
        (d : Delivery)
        → decode_entry codec sub.topic sub.group consumer entry ≡ some d
        → Settles E o sub
            (effective_retry sub o.retry)
            (limited (effective_retry sub o.retry) d)
            w
            last
        → EntrySettled codec consumer entry w last

  pub handle_entry-EntrySettled :
      (codec : Codec) (consumer : Text) (entry : Entry) (w : World E)
      → o.connected ≡ true
      → EntrySettled codec consumer entry w (handle_entry o codec sub consumer entry w)
  unfolding handle_entry ack_ids
  handle_entry-EntrySettled codec consumer entry w h =
      by_decoding (decode_entry codec sub.topic sub.group consumer entry) refl
    where
      by_decoding :
          (r : Option Delivery)
          → decode_entry codec sub.topic sub.group consumer entry ≡ r
          → EntrySettled codec consumer entry w (handle_decoded o sub entry r w)
      by_decoding none e =
          undecodable e
            (send-commands E o sub (effective_retry sub o.retry) (ack_of o sub entry.id) w h)
      by_decoding (some d) e = decoded d e (
          handle_delivery-Settles E o sub (effective_retry sub o.retry)
            (limited (effective_retry sub o.retry) d) w h)

  Settled-Acknowledges :
      (retry : RetryPolicy) (d : Delivery) (env : E.State) (c : Option Command)
      → Settled E o sub retry d env c
      → d.group ≡ sub.group
      → All (Acknowledges (stream_key o sub.topic) sub.group d.id) (issued c)
  unfolding Acknowledges
  Settled-Acknowledges retry d env c (exhausted over) g = ((refl, g, refl), tt)
  Settled-Acknowledges retry d env c (handled left ok) g = ((refl, refl, refl), tt)
  Settled-Acknowledges retry d env c (retried e left fails few ready payload written) g =
      ((refl, g, refl), tt)
  Settled-Acknowledges retry d env c (dead e left fails over on) g = ((refl, g, refl), tt)
  Settled-Acknowledges retry d env c (dropped e left fails over off) g = ((refl, refl, refl), tt)
  Settled-Acknowledges retry d env c (pending e left fails few late) g = tt
  Settled-Acknowledges retry d env c (unwritten e left fails few f bad) g = tt

  -- At most one command that acknowledges the entry of the world's step, and no other.
  pub record AcknowledgesOnly (entry : Entry) (w last : World E) : Type 0 where
    pub command : Option Command
    pub log : last.commands ≡ w.commands ++ issued command
    pub acknowledges :
        All (Acknowledges (stream_key o sub.topic) sub.group entry.id) (issued command)

  -- handleEntry sends Redis at most one command, and that command acknowledges the entry that was
  -- handled, in the stream of the subscription's topic and for its group, and no other entry.
  pub handle_entry-AcknowledgesOnly :
      (codec : Codec) (consumer : Text) (entry : Entry) (w : World E)
      → o.connected ≡ true
      → AcknowledgesOnly entry w (handle_entry o codec sub consumer entry w)
  handle_entry-AcknowledgesOnly codec consumer entry w h =
      by_settlement _ (handle_entry-EntrySettled codec consumer entry w h)
    where
      retry : RetryPolicy
      retry = effective_retry sub o.retry

      at_id :
          (d : Delivery) (last : World E)
          → IsOf codec sub.topic sub.group consumer entry d
          → Settles E o sub retry (limited retry d) w last
          → AcknowledgesOnly entry w last
      at_id d last is_of s = record {
        command = s.command;
        log = s.log;
        acknowledges =
            subst (λ i. All (Acknowledges (stream_key o sub.topic) sub.group i) (issued s.command))
              ((limited_same retry d).0 ∙ is_of.same_id)
              (Settled-Acknowledges retry (limited retry d) w.env s.command s.settled
                ((limited_same retry d).1 ∙ is_of.same_group));
      }

      by_settlement :
          (last : World E)
          → EntrySettled codec consumer entry w last
          → AcknowledgesOnly entry w last
      by_settlement last (undecodable bad log) = record {
        command = some (ack_of o sub entry.id);
        log = log;
        acknowledges = acked_Acknowledges o sub entry.id;
      }
      by_settlement last (decoded d e s) = at_id d last (decode_entry-IsOf codec _ _ _ _ d e) s
