-- ===== src/Reminder/Dispatcher.antt =====
-- reminder/dispatcher.go: the notifier that routes a reminder by its channel and by the type in its
-- payload. A handler is a value of the caller's; the payload's JSON is decoded by the standard
-- library, so the decoder is an argument.
pub mod Routing
mod Examples
use wego.Prelude.{
  ℕ, Bool, true, false, Option, none, some, List, [], ◌∷◌, ◌≡◌, refl, ◌&&◌, ◌||◌, not, Text, codes,
  trim_space, to_lower, Unicode, is_empty, GoMap, Key, lookup, insert, text_key, text_beq,
  text_beq_refl, text_beq_sound, if◌then◌else◌, is_some, arith,
}
use wego.Action.{Result, ok, err}
use wego.Reminder.Model.{Reminder}

-- dispatchRoute
pub record DispatchRoute : Type 0 where
  pub channel : Text
  pub type_key : Text

abbrev pub route_beq : DispatchRoute → DispatchRoute → Bool
route_beq a b = text_beq a.channel b.channel && text_beq a.type_key b.type_key

pub route_beq_refl : (a : DispatchRoute) → route_beq a a ≡ true
route_beq_refl a = ground (arith, text_beq_refl a.channel, text_beq_refl a.type_key)

pub route_beq_sound : (a b : DispatchRoute) → route_beq a b ≡ true → a ≡ b
route_beq_sound a b h =
    ground (arith, text_beq_sound a.channel b.channel, text_beq_sound a.type_key b.type_key)

instance abbrev pub route_key : Key DispatchRoute
route_key = record { same = route_beq; same_refl = route_beq_refl; same_sound = route_beq_sound }

pub data DispatcherError : Type 0 where
  no_notifier_handler handler_nil route_required channel_required type_required : DispatcherError
  -- The reminder is nil.
  invalid_reminder : DispatcherError
  -- decode reminder payload: …
  bad_payload : Text → DispatcherError
  -- What the chosen handler returned.
  handler_error : Text → DispatcherError

module _ (Handler : Type 0) where
  pub record DispatcherNotifier : Type 0 where
    pub route_handlers : GoMap DispatchRoute Handler
    pub type_handlers : GoMap Text Handler
    pub channel_handlers : GoMap Text Handler
    pub fallback : Option Handler

  abbrev pub new_dispatcher_notifier : DispatcherNotifier
  new_dispatcher_notifier = record {
    route_handlers = [];
    type_handlers = [];
    channel_handlers = [];
    fallback = none;
  }

module _ ⦃u : Unicode⦄ where
  -- normalizeDispatchKey
  unfoldable pub normalize_dispatch_key : Text → Text
  normalize_dispatch_key value = to_lower (trim_space value)

  -- payloadType: the type in the payload, by a decoder of JSON that returns it or an error.
  unfoldable pub payload_type : (Text → Result Text Text) → Text → Result Text Text
  unfolding normalize_dispatch_key
  payload_type decode raw =
      let payload = trim_space raw in
      if is_empty payload
      then ok []
      else elim (decode payload) [ ok name ↦ ok (normalize_dispatch_key name) | err e ↦ err e ]

-- The error of `Notify` if no handler is found.
abbrev unrouted : Result Text Text → DispatcherError
unrouted (ok type_key) = no_notifier_handler
unrouted (err e) = bad_payload e

abbrev type_or_empty : Result Text Text → Text
type_or_empty (ok type_key) = type_key
type_or_empty (err e) = []

module _ {Handler : Type 0} where
  -- The entry of a table, if the key is not empty.
  abbrev entry_unless : {K : Type 0} ⦃key : Key K⦄ → Bool → K → GoMap K Handler → Option Handler
  entry_unless empty k m = if empty then none else lookup k m

  -- `if handler, ok := …; ok { return handler, true }`
  abbrev or_else : Option Handler → Option Handler → Option Handler
  or_else (some h) rest = some h
  or_else none rest = rest

  -- lookup
  unfoldable pub lookup_handler : DispatcherNotifier Handler → Text → Text → Option Handler
  lookup_handler d channel type_key =
      or_else
        (entry_unless (is_empty channel || is_empty type_key)
          (record { channel = channel; type_key = type_key }) d.route_handlers)
        (or_else (entry_unless (is_empty type_key) type_key d.type_handlers)
          (or_else (entry_unless (is_empty channel) channel d.channel_handlers) d.fallback))

  -- A method of a `*DispatcherNotifier`, which may be nil, that takes a handler, which may be nil.
  registering :
      (Handler
        → DispatcherNotifier Handler
        → Result DispatcherError (Unit {0}) × DispatcherNotifier Handler)
      → Option Handler
      → Option (DispatcherNotifier Handler)
      → Result DispatcherError (Unit {0}) × Option (DispatcherNotifier Handler)
  registering m h none = (err no_notifier_handler, none)
  registering m none (some d) = (err handler_nil, some d)
  registering m (some h) (some d) = let done = m h d in (done.0, some done.1)

  unfoldable pub set_fallback :
      Option Handler
      → Option (DispatcherNotifier Handler)
      → Result DispatcherError (Unit {0}) × Option (DispatcherNotifier Handler)
  unfolding registering
  set_fallback = registering λ h d. (ok tt, record d { fallback = some h })

module _ {Handler : Type 0} ⦃u : Unicode⦄ where
  unfoldable pub register :
      Text
      → Text
      → Option Handler
      → Option (DispatcherNotifier Handler)
      → Result DispatcherError (Unit {0}) × Option (DispatcherNotifier Handler)
  unfolding registering
  register channel type_key = registering λ h d.
      let key =
        let k : DispatchRoute = record {
          channel = normalize_dispatch_key channel;
          type_key = normalize_dispatch_key type_key;
        } in
        k in
      if is_empty key.channel || is_empty key.type_key
      then (err route_required, d)
      else (ok tt, record d { route_handlers = insert key h d.route_handlers })

  unfoldable pub register_channel :
      Text
      → Option Handler
      → Option (DispatcherNotifier Handler)
      → Result DispatcherError (Unit {0}) × Option (DispatcherNotifier Handler)
  unfolding registering
  register_channel raw = registering λ h d.
      let channel = normalize_dispatch_key raw in
      if is_empty channel
      then (err channel_required, d)
      else (ok tt, record d { channel_handlers = insert channel h d.channel_handlers })

  unfoldable pub register_type :
      Text
      → Option Handler
      → Option (DispatcherNotifier Handler)
      → Result DispatcherError (Unit {0}) × Option (DispatcherNotifier Handler)
  unfolding registering
  register_type raw = registering λ h d.
      let type_key = normalize_dispatch_key raw in
      if is_empty type_key
      then (err type_required, d)
      else (ok tt, record d { type_handlers = insert type_key h d.type_handlers })

  -- The handler that `Notify` calls for a reminder.
  unfoldable pub route :
      (Text → Result Text Text)
      → Option (DispatcherNotifier Handler)
      → Option Reminder
      → Result DispatcherError Handler
  route decode none r = err no_notifier_handler
  route decode (some d) none = err invalid_reminder
  route decode (some d) (some r) =
      let named = payload_type decode r.payload in
      elim (lookup_handler d (normalize_dispatch_key r.channel) (type_or_empty named)) [
        | some h ↦ ok h
        | none ↦ err (unrouted named)
      ]

  -- Notify
  unfoldable pub notify :
      (Text → Result Text Text)
      → (Handler → Reminder → Option Text)
      → Option (DispatcherNotifier Handler)
      → Reminder
      → Option DispatcherError
  unfolding route
  notify decode run d r = elim (route decode d (some r)) [
    | err e ↦ some e
    | ok h ↦ elim (run h r) [ none ↦ none | some e ↦ some (handler_error e) ]
  ]
