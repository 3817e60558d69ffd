-- ===== src/Tcp/Soundness.antt =====
-- transport/tcp/server.go: who holds the listeners and the connections that are open.
use wego.Prelude.{◌≡◌, ◌⊎◌, ℕ, refl, Bool, true, false, Option, none, some, List, arith}
use wego.Tcp.{set, register, register_on, track_conn, untrack_conn, begin_shutdown, new_server, Opt}
use wego.Tcp.Goroutines.{
  unborn, pending, listening, Owner, unknown, accepted, handling, leaving, System, Step, listens,
  refuses, registers, accepts, tracks, gives_up, hangs_up, leaves, untracks, shuts, closes_listener,
  closes_conn, Steps, stay, more,
}

-- The handler's goroutine of the connection runs.
abbrev pub is_served : Owner → Bool
is_served handling = true
is_served leaving = true
is_served _ = false

-- A goroutine will close the connection.
abbrev pub will_close : Owner → Bool
will_close accepted = true
will_close handling = true
will_close _ = false

pub record IsSound (s : System) : Type 0 where
  pub tracked : (c : ℕ) → s.server.conns c ≡ is_served (s.owner c)
  pub owned : (c : ℕ) → s.open_conn c ≡ true → will_close (s.owner c) ≡ true
  pub listened :
      (l : ℕ)
      → s.open_listener l ≡ true
      → (s.loop l ≡ pending) ⊎ ((s.server.listener ≡ some l) ⊎ (s.closing_listener ≡ some l))
  pub made : (l : ℕ) → s.server.listener ≡ some l → (s.loop l ≡ unborn → ⊥)
  pub shut_once : s.server.is_closed ≡ false → s.closing_listener ≡ none

Step-IsSound : (s t : System) → Step s t → IsSound s → IsSound t
unfolding set register track_conn untrack_conn begin_shutdown
Step-IsSound s t (listens l new) h = record {
  tracked = h.tracked;
  owned = h.owned;
  listened = λ j k. ground (arith, new, k, h.listened j);
  made = λ j e v. ground (arith, new, v, h.made j e);
  shut_once = h.shut_once;
}
Step-IsSound s t (refuses l k made taken) h = record {
  tracked = h.tracked;
  owned = h.owned;
  listened = λ j e. ground (arith, made, taken, e, h.listened j);
  made = λ j e v. ground (arith, v, h.made j e);
  shut_once = h.shut_once;
}
Step-IsSound s t (registers l made free) h = registered s.server.listener free
  where
    registered :
        (x : Option ℕ)
        → x ≡ none
        → IsSound
            (record s { server = (register_on x l s.server).1; loop = set l listening s.loop })
    registered (some k) e = cc
    registered none e = record {
      tracked = h.tracked;
      owned = h.owned;
      listened = λ j k. ground (arith, made, free, k, h.listened j);
      made = λ j k v. ground (arith, v, k, h.made j);
      shut_once = h.shut_once;
    }
Step-IsSound s t (accepts l c ready is_open new) h = record {
  tracked = λ d. ground (arith, new, h.tracked d);
  owned = λ d e. ground (arith, new, e, h.owned d);
  listened = λ j e. ground (arith, ready, e, h.listened j);
  made = λ j e v. ground (arith, v, h.made j e);
  shut_once = h.shut_once;
}
Step-IsSound s t (tracks l c held own) h = record {
  tracked = λ d. ground (arith, own, h.tracked d);
  owned = λ d e. ground (arith, own, e, h.owned d);
  listened = λ j e. ground (arith, held, e, h.listened j);
  made = λ j e v. ground (arith, v, h.made j e);
  shut_once = h.shut_once;
}
Step-IsSound s t (gives_up l ready) h = record {
  tracked = h.tracked;
  owned = h.owned;
  listened = λ j e. ground (arith, ready, e, h.listened j);
  made = λ j e v. ground (arith, v, h.made j e);
  shut_once = h.shut_once;
}
Step-IsSound s t (hangs_up c own) h = record {
  tracked = h.tracked;
  owned = λ d e. ground (arith, e, h.owned d);
  listened = h.listened;
  made = h.made;
  shut_once = h.shut_once;
}
Step-IsSound s t (leaves c own) h = record {
  tracked = λ d. ground (arith, own, h.tracked d);
  owned = λ d e. ground (arith, own, e, h.owned d);
  listened = h.listened;
  made = h.made;
  shut_once = h.shut_once;
}
Step-IsSound s t (untracks c own) h = record {
  tracked = λ d. ground (arith, own, h.tracked d);
  owned = λ d e. ground (arith, own, e, h.owned d);
  listened = h.listened;
  made = h.made;
  shut_once = h.shut_once;
}
Step-IsSound s t (shuts first) h = record {
  tracked = h.tracked;
  owned = h.owned;
  listened = λ j e. ground (arith, first, h.shut_once first, e, h.listened j);
  made = λ j e v. cc;
  shut_once = λ e. cc;
}
Step-IsSound s t (closes_listener l at) h = record {
  tracked = h.tracked;
  owned = h.owned;
  listened = λ j e. ground (arith, at, e, h.listened j);
  made = h.made;
  shut_once = λ e. refl;
}
Step-IsSound s t (closes_conn c free due) h = record {
  tracked = h.tracked;
  owned = λ d e. ground (arith, e, h.owned d);
  listened = h.listened;
  made = h.made;
  shut_once = h.shut_once;
}

Steps-IsSound : (s t : System) → Steps s t → IsSound s → IsSound t
Steps-IsSound s t stay h = h
Steps-IsSound s v (more t u first last) h = Step-IsSound t u last (Steps-IsSound s t first h)

-- A new server, before its first Start.
abbrev pub new_system : List Opt → System
new_system opts = record {
  server = new_server opts;
  loop = λ l. unborn;
  owner = λ c. unknown;
  open_listener = λ l. false;
  open_conn = λ c. false;
  closing_listener = none;
  closing = λ c. false;
}

-- In every state that a new server comes to, in whatever order its goroutines run: its map holds
-- exactly the connections whose goroutine has not finished; every connection that is open is held by
-- the accept loop or by a running handler, which will close it; and every listener that is open is
-- the server's, or one that a Start has just made, or the one that the shutdown is about to close.
pub new_system-IsSound : (opts : List Opt) (t : System) → Steps (new_system opts) t → IsSound t
unfolding new_server
new_system-IsSound opts t steps = Steps-IsSound (new_system opts) t steps (record {
  tracked = λ c. refl;
  owned = λ c e. cc;
  listened = λ l e. cc;
  made = λ l e v. cc;
  shut_once = λ e. refl;
})
