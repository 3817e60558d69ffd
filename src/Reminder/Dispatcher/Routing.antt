-- ===== src/Reminder/Dispatcher/Routing.antt =====
-- Which handler `lookup` of reminder/dispatcher.go finds after a registration.
use wego.Prelude.{
  text_key, trim_space-to_lower, trim_space-trim_space, to_lower-to_lower, Bool, true, false,
  Option, none, some, ◌≡◌, refl, ◌&&◌, ◌||◌, not, Text, Unicode, is_empty, lookup, insert,
  lookup-insert, text_beq, text_beq_sound, if◌then◌else◌, is_some, arith,
}
use wego.Action.{Result, ok}
use wego.Reminder.Dispatcher.{
  entry_unless, or_else, payload_type, type_or_empty, Reminder, route, route_key, DispatchRoute,
  DispatcherNotifier, lookup_handler, register, register_channel, register_type, set_fallback,
  normalize_dispatch_key,
}

module _ {Handler : Type 0} where
  -- The handler that a dispatcher has for a channel and a type, both normalized.
  abbrev pub chosen : Option (DispatcherNotifier Handler) → Text → Text → Option Handler
  chosen none c t = none
  chosen (some d) c t = lookup_handler d c t

  -- Whether a route is registered for the channel and the type.
  abbrev pub has_route : DispatcherNotifier Handler → Text → Text → Bool
  has_route d c t =
      not (is_empty c || is_empty t)
      && is_some
          (lookup {K = DispatchRoute} (record { channel = c; type_key = t }) d.route_handlers)

  -- Whether a handler is registered for the type.
  abbrev pub has_type : DispatcherNotifier Handler → Text → Bool
  has_type d t = not (is_empty t) && is_some (lookup t d.type_handlers)

-- A text that equals one which is not empty is not empty.
nonempty_of_beq : (a b : Text) → is_empty a ≡ false → text_beq a b ≡ true → is_empty b ≡ false
nonempty_of_beq a b h e = rw (← text_beq_sound a b e) h

module _ {Handler : Type 0} (h : Handler) (d : DispatcherNotifier Handler) (c t : Text) where
  lookup_handler-route :
      (k : DispatchRoute)
      → is_empty k.channel ≡ false
      → is_empty k.type_key ≡ false
      → lookup_handler (record d { route_handlers = insert k h d.route_handlers }) c t
        ≡ (if text_beq k.channel c && text_beq k.type_key t then some h else lookup_handler d c t)
  unfolding lookup_handler
  lookup_handler-route k ec et = ground (
    arith,
    lookup-insert k (record { channel = c; type_key = t }) h d.route_handlers,
    nonempty_of_beq k.channel c ec,
    nonempty_of_beq k.type_key t et,
  )

  lookup_handler-type :
      (k : Text)
      → is_empty k ≡ false
      → lookup_handler (record d { type_handlers = insert k h d.type_handlers }) c t
        ≡ (if text_beq k t && not (has_route d c t) then some h else lookup_handler d c t)
  unfolding lookup_handler
  lookup_handler-type k e =
      ground (arith, lookup-insert k t h d.type_handlers, nonempty_of_beq k t e)

  lookup_handler-channel :
      (k : Text)
      → is_empty k ≡ false
      → lookup_handler (record d { channel_handlers = insert k h d.channel_handlers }) c t ≡ (
          if text_beq k c && not (has_route d c t) && not (has_type d t)
          then some h
          else lookup_handler d c t)
  unfolding lookup_handler
  lookup_handler-channel k e =
      ground (arith, lookup-insert k c h d.channel_handlers, nonempty_of_beq k c e)

module _ {Handler : Type 0} ⦃u : Unicode⦄ where
  -- Register, with a channel and a type that are not blank, succeeds; then the reminders of that
  -- channel and type have the new handler, and all others have the handler that they had.
  pub chosen-register :
      (channel type_key : Text) (h : Handler) (d : DispatcherNotifier Handler) (c t : Text)
      → is_empty (normalize_dispatch_key channel) ≡ false
      → is_empty (normalize_dispatch_key type_key) ≡ false
      → ((register channel type_key (some h) (some d)).0 ≡ ok tt)
        × (chosen (register channel type_key (some h) (some d)).1 c t ≡ (
            if text_beq (normalize_dispatch_key channel) c
              && text_beq (normalize_dispatch_key type_key) t
            then some h
            else lookup_handler d c t))
  unfolding register
  chosen-register channel type_key h d c t ec et =
      (rw (ec, et), rw (ec, et) (lookup_handler-route h d c t _ ec et))

  -- RegisterType, with a type that is not blank, succeeds; then the reminders of that type have
  -- the new handler unless a route of theirs is registered, and all others have theirs as before.
  pub chosen-register_type :
      (type_key : Text) (h : Handler) (d : DispatcherNotifier Handler) (c t : Text)
      → is_empty (normalize_dispatch_key type_key) ≡ false
      → ((register_type type_key (some h) (some d)).0 ≡ ok tt)
        × (chosen (register_type type_key (some h) (some d)).1 c t ≡ (
            if text_beq (normalize_dispatch_key type_key) t && not (has_route d c t)
            then some h
            else lookup_handler d c t))
  unfolding register_type
  chosen-register_type type_key h d c t e = (rw e, rw e (lookup_handler-type h d c t _ e))

  -- RegisterChannel, with a channel that is not blank, succeeds; then the reminders of that channel
  -- have the new handler unless a route or the type of theirs is registered, and all others have
  -- theirs as before.
  pub chosen-register_channel :
      (channel : Text) (h : Handler) (d : DispatcherNotifier Handler) (c t : Text)
      → is_empty (normalize_dispatch_key channel) ≡ false
      → ((register_channel channel (some h) (some d)).0 ≡ ok tt)
        × (chosen (register_channel channel (some h) (some d)).1 c t ≡ (
            if text_beq (normalize_dispatch_key channel) c
              && not (has_route d c t)
              && not (has_type d t)
            then some h
            else lookup_handler d c t))
  unfolding register_channel
  chosen-register_channel channel h d c t e = (rw e, rw e (lookup_handler-channel h d c t _ e))

module _ ⦃u : Unicode⦄ where
  -- Keys are compared up to case and the white space around them: a name in upper case, or with
  -- more white space, is registered and looked up under the same key.
  pub normalize_idem :
      (key : Text)
      → normalize_dispatch_key (normalize_dispatch_key key) ≡ normalize_dispatch_key key
  unfolding normalize_dispatch_key
  normalize_idem key = simp (trim_space-to_lower, trim_space-trim_space, to_lower-to_lower)

module _ {Handler : Type 0} where
  or_else_total :
      (a b c : Option Handler) (h : Handler)
      → (x : Handler) × (or_else a (or_else b (or_else c (some h))) ≡ some x)
  or_else_total (some x) b c h = (x, refl)
  or_else_total none (some x) c h = (x, refl)
  or_else_total none none (some x) h = (x, refl)
  or_else_total none none none h = (h, refl)

  lookup_handler_total :
      (h : Handler) (d : DispatcherNotifier Handler) (c t : Text)
      → (x : Handler) × (lookup_handler (record d { fallback = some h }) c t ≡ some x)
  unfolding lookup_handler
  lookup_handler_total h d c t =
      or_else_total
        (entry_unless (is_empty c || is_empty t)
          (let k : DispatchRoute = record { channel = c; type_key = t } in k) d.route_handlers)
        (entry_unless (is_empty t) t d.type_handlers)
        (entry_unless (is_empty c) c d.channel_handlers) h

module _ {Handler : Type 0} ⦃u : Unicode⦄ where
  -- Once a fallback is set, every reminder has a handler, whatever its channel, and whether or not
  -- its payload can be decoded.
  pub route-set_fallback :
      (decode : Text → Result Text Text) (h : Handler) (d : DispatcherNotifier Handler)
      (r : Reminder)
      → (h' : Handler) × (route decode (set_fallback (some h) (some d)).1 (some r) ≡ ok h')
  unfolding route set_fallback
  route-set_fallback decode h d r =
      let named = payload_type decode r.payload in
      let (x, e) =
        lookup_handler_total h d (normalize_dispatch_key r.channel) (type_or_empty named) in
      (x, rw (e, route))
