-- ===== src/PubSub/Service/Rounds.antt =====
-- pubsub/service.go, handleEntry, and pubsub/store.go, retryPromoteScript: the rounds of one
-- message, which is handled, scheduled for its next attempt, promoted to the stream and read again,
-- by ReadGroup. Every command of a round is taken to be carried out. What happens between two rounds
-- is the argument `between`, with the id that the promoted entry gets.
use wego.Prelude.{ℕ, zero, suc, Option, none, some, List, [], ◌∷◌, Text, Unicode}
use wego.PubSub.{Envelope, Entry, Subscription, Options}
use wego.PubSub.Decoding.{Codec}
use wego.PubSub.Service.{
  Environment, World, Command, ack, dead_letter, schedule_retry, handle_entry,
}
use wego.PubSub.Promotion.{Lua, promoted_fields}

-- The retry that a command schedules.
unfoldable pub scheduled : Command → Option Text
scheduled (ack stream group ids) = none
scheduled (dead_letter dlq stream group id values) = none
scheduled (schedule_retry retries stream due payload group id) = some payload

unfoldable pub next_retry : List Command → Option Text
unfolding scheduled
next_retry [] = none
next_retry (c ∷ cs) = scheduled c

-- The entry that the script adds to the stream.
abbrev pub promoted_entry : Lua → Text → Envelope → Entry
promoted_entry lua id e = record { id = id; values = promoted_fields lua e }

-- cjson.decode of the retry, an error of which ends the script.
abbrev pub follow_read : {W : Type 0} → (Envelope → Option W) → W → Option Envelope → Option W
follow_read again last none = some last
follow_read again last (some e) = again e

-- After a round: the rounds of its retry, if there is one.
abbrev pub follow : {W : Type 0} → Lua → (Envelope → Option W) → W → Option Text → Option W
follow lua again last none = some last
follow lua again last (some payload) = follow_read again last (lua.decode payload)

module _ ⦃u : Unicode⦄ (E : Environment) (o : Options) (codec : Codec) (lua : Lua)
    (sub : Subscription) (consumer : Text) (between : E.State → Text × E.State) where
  -- One round, with a log of its own.
  abbrev pub round : Entry → E.State → World E
  round entry env = handle_entry o codec sub consumer entry (record { env = env; commands = [] })

  -- The last round of an entry, within a number of rounds.
  unfoldable pub rounds : (fuel : ℕ) → Entry → E.State → Option (World E)
  rounds zero entry env = none
  rounds (suc fuel) entry env =
      let last = round entry env in
      let next = between last.env in
      follow lua (λ e. rounds fuel (promoted_entry lua (next.0) e) (next.1)) last
        (next_retry last.commands)
