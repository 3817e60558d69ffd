-- ===== src/Reminder/Dispatcher/Examples.antt =====
-- A dispatcher of reminder/dispatcher.go with numbers for handlers, over the letters of ASCII.
use wego.Prelude.{
  ℕ, none, some, [], ◌∷◌, ◌≡◌, refl, codes, trim_space, to_lower, is_space, ascii, if◌then◌else◌,
  text_beq, ◌&&◌, text_key,
}
use wego.Action.{ok}
use wego.Reminder.Dispatcher.{
  DispatcherNotifier, lookup_handler, normalize_dispatch_key, register, route_key,
}
use wego.Reminder.Dispatcher.Routing.{chosen, chosen-register}

abbrev routed : DispatcherNotifier ℕ
routed = record {
  route_handlers = (record { channel = codes "mail"; type_key = codes "due" }, 7) ∷ [];
  type_handlers = [];
  channel_handlers = [];
  fallback = none;
}

chosen-register_example :
    ((register ⦃u = ascii⦄ (codes " Mail") (codes "LATE") (some 8) (some routed)).0 ≡ ok tt)
    × (chosen
          (register ⦃u = ascii⦄ (codes " Mail") (codes "LATE") (some 8) (some routed)).1
          (codes "mail")
          (codes "late")
        ≡ (if text_beq (normalize_dispatch_key ⦃u = ascii⦄ (codes " Mail")) (codes "mail")
              && text_beq (normalize_dispatch_key ⦃u = ascii⦄ (codes "LATE")) (codes "late")
            then some 8
            else lookup_handler routed (codes "mail") (codes "late")))
unfolding normalize_dispatch_key trim_space to_lower is_space
chosen-register_example =
    chosen-register ⦃u = ascii⦄ (codes " Mail") (codes "LATE") 8 routed (codes "mail")
      (codes "late") refl refl
