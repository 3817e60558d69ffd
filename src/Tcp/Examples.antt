-- ===== src/Tcp/Examples.antt =====
-- A server that is started and stopped. A connection that is accepted before the shutdown and tracked
-- after its section under the lock stays open and tracked when the shutdown is done.
use wego.Prelude.{◌≡◌, ℕ, refl, true, false, none, List, [], ◌∷◌}
use wego.Tcp.{Opt, with_handler, new_server, set, register, track_conn, begin_shutdown}
use wego.Tcp.Goroutines.{
  handling, shut, System, listens, registers, accepts, tracks, closes_listener, Steps, stay, more,
  pending, accepted, listening, holding,
}
use wego.Tcp.Soundness.{IsSound, new_system-IsSound, new_system}
use wego.Tcp.Closing.{HasClosed, shut-HasClosed}

abbrev opts : List Opt
opts = with_handler true ∷ []

abbrev fresh : System
fresh = new_system opts

abbrev bound : System
bound = record fresh {
  loop = set 1 pending fresh.loop;
  open_listener = set 1 true fresh.open_listener;
}

abbrev serving : System
serving = record bound { server = (register 1 bound.server).1; loop = set 1 listening bound.loop }

abbrev at_accept : System
at_accept = record serving {
  loop = set 1 (holding 7) serving.loop;
  owner = set 7 accepted serving.owner;
  open_conn = set 7 true serving.open_conn;
}

abbrev tracked_late : System
tracked_late = record (shut at_accept) {
  server = track_conn 7 (shut at_accept).server;
  loop = set 1 listening at_accept.loop;
  owner = set 7 handling at_accept.owner;
}

abbrev done : System
done = record tracked_late {
  open_listener = set 1 false tracked_late.open_listener;
  closing_listener = none;
}

up_to_accept : Steps fresh at_accept
unfolding set register new_server
up_to_accept =
    more serving at_accept
      (more bound serving (more fresh bound stay (listens 1 refl)) (registers 1 refl refl))
      (accepts 1 7 refl refl refl)

after_shutdown : Steps (shut at_accept) done
unfolding set register begin_shutdown new_server
after_shutdown =
    more tracked_late done (more (shut at_accept) tracked_late stay (tracks 1 7 refl refl))
      (closes_listener 1 refl)

is_first : at_accept.server.is_closed ≡ false
unfolding register new_server
is_first = refl

none_tracked : (c : ℕ) → done.closing c ≡ false
unfolding register begin_shutdown new_server
none_tracked c = refl

late_connection : (done.open_conn 7 ≡ true) × (done.server.conns 7 ≡ true)
unfolding set track_conn
late_connection = (refl, refl)

new_system-IsSound_example : IsSound at_accept
new_system-IsSound_example = new_system-IsSound opts at_accept up_to_accept

shut-HasClosed_example : HasClosed at_accept done
shut-HasClosed_example =
    shut-HasClosed opts at_accept done up_to_accept is_first after_shutdown refl none_tracked
