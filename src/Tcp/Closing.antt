-- ===== src/Tcp/Closing.antt =====
-- transport/tcp/server.go: what a shutdown has closed when it is done.
use wego.Prelude.{◌≡◌, ◌⊎◌, inl, ℕ, refl, Bool, true, false, Option, none, some, List, arith}
use wego.Tcp.{set, register, register_on, track_conn, untrack_conn, begin_shutdown, Opt}
use wego.Tcp.Goroutines.{
  shut, unborn, listening, unknown, System, Step, listens, refuses, registers, accepts, tracks,
  gives_up, hangs_up, leaves, untracks, shuts, closes_listener, closes_conn, Steps, stay, more,
}
use wego.Tcp.Soundness.{new_system, new_system-IsSound}

-- The shutdown has begun; a connection that it must close is closed, or still to be closed; and so
-- is the listener, which no Start makes again.
pub record IsClosing (snapshot : ℕ → Bool) (listener : Option ℕ) (s : System) : Type 0 where
  pub begun : s.server.is_closed ≡ true
  pub known : (c : ℕ) → snapshot c ≡ true → (s.owner c ≡ unknown → ⊥)
  pub conns : (c : ℕ) → snapshot c ≡ true → (s.closing c ≡ true) ⊎ (s.open_conn c ≡ false)
  pub made : (l : ℕ) → listener ≡ some l → (s.loop l ≡ unborn → ⊥)
  pub listens_no_more :
      (l : ℕ) → listener ≡ some l → (s.closing_listener ≡ some l) ⊎ (s.open_listener l ≡ false)

module _ (snapshot : ℕ → Bool) (listener : Option ℕ) where
  Step-IsClosing :
      (s t : System) → Step s t → IsClosing snapshot listener s → IsClosing snapshot listener t
  unfolding set register track_conn untrack_conn begin_shutdown
  Step-IsClosing s t (listens l new) h = record {
    begun = h.begun;
    known = h.known;
    conns = h.conns;
    made = λ j e u. ground (arith, new, u, h.made j e);
    listens_no_more = λ j e. ground (arith, new, h.made j e, h.listens_no_more j e);
  }
  Step-IsClosing s t (refuses l k made taken) h = record {
    begun = h.begun;
    known = h.known;
    conns = h.conns;
    made = λ j e u. ground (arith, u, h.made j e);
    listens_no_more = λ j e. ground (arith, h.listens_no_more j e);
  }
  Step-IsClosing s t (registers l made free) h = registered s.server.listener free
    where
      registered :
          (x : Option ℕ)
          → x ≡ none
          → IsClosing snapshot listener
              (record s { server = (register_on x l s.server).1; loop = set l listening s.loop })
      registered (some k) e = cc
      registered none e = record {
        begun = h.begun;
        known = h.known;
        conns = h.conns;
        made = λ j e u. ground (arith, u, h.made j e);
        listens_no_more = h.listens_no_more;
      }
  Step-IsClosing s t (accepts l c ready is_open new) h = record {
    begun = h.begun;
    known = λ d e u. ground (arith, u, h.known d e);
    conns = λ d e. ground (arith, new, h.known d e, h.conns d e);
    made = λ j e u. ground (arith, u, h.made j e);
    listens_no_more = h.listens_no_more;
  }
  Step-IsClosing s t (tracks l c held own) h = record {
    begun = h.begun;
    known = λ d e u. ground (arith, u, h.known d e);
    conns = h.conns;
    made = λ j e u. ground (arith, u, h.made j e);
    listens_no_more = h.listens_no_more;
  }
  Step-IsClosing s t (gives_up l ready) h = record {
    begun = h.begun;
    known = h.known;
    conns = h.conns;
    made = λ j e u. ground (arith, u, h.made j e);
    listens_no_more = h.listens_no_more;
  }
  Step-IsClosing s t (hangs_up c own) h = record {
    begun = h.begun;
    known = h.known;
    conns = λ d e. ground (arith, h.conns d e);
    made = h.made;
    listens_no_more = h.listens_no_more;
  }
  Step-IsClosing s t (leaves c own) h = record {
    begun = h.begun;
    known = λ d e u. ground (arith, u, h.known d e);
    conns = λ d e. ground (arith, h.conns d e);
    made = h.made;
    listens_no_more = h.listens_no_more;
  }
  Step-IsClosing s t (untracks c own) h = record {
    begun = h.begun;
    known = λ d e u. ground (arith, u, h.known d e);
    conns = h.conns;
    made = h.made;
    listens_no_more = h.listens_no_more;
  }
  Step-IsClosing s t (shuts first) h = absurd (cc (first, h.begun))
  Step-IsClosing s t (closes_listener l at) h = record {
    begun = h.begun;
    known = h.known;
    conns = h.conns;
    made = h.made;
    listens_no_more = λ j e. ground (arith, at, h.listens_no_more j e);
  }
  Step-IsClosing s t (closes_conn c free due) h = record {
    begun = h.begun;
    known = h.known;
    conns = λ d e. ground (arith, h.conns d e);
    made = h.made;
    listens_no_more = h.listens_no_more;
  }

  Steps-IsClosing :
      (s t : System) → Steps s t → IsClosing snapshot listener s → IsClosing snapshot listener t
  Steps-IsClosing s t stay h = h
  Steps-IsClosing s v (more t u first last) h =
      Step-IsClosing t u last (Steps-IsClosing s t first h)

-- What a shutdown that began in a state has closed.
pub record HasClosed (s t : System) : Type 0 where
  pub conns : (c : ℕ) → s.server.conns c ≡ true → t.open_conn c ≡ false
  pub listener : (l : ℕ) → s.server.listener ≡ some l → t.open_listener l ≡ false
  pub stays_closed : t.server.is_closed ≡ true

-- Once the first shutdown of a server has closed all that it took, every connection that was tracked
-- when it began is closed, and so is the listener that the server had, whatever the accept loop, the
-- handlers and other calls of Start and Stop did in the meantime.
pub shut-HasClosed :
    (opts : List Opt) (s t : System)
    → Steps (new_system opts) s
    → s.server.is_closed ≡ false
    → Steps (shut s) t
    → t.closing_listener ≡ none
    → ((c : ℕ) → t.closing c ≡ false)
    → HasClosed s t
unfolding begin_shutdown
shut-HasClosed opts s t before first after no_listener no_conns =
    let sound = new_system-IsSound opts s before in
    let closing = Steps-IsClosing s.server.conns s.server.listener (shut s) t after (record {
      begun = refl;
      known = λ c e u. ground (arith, u, e, sound.tracked c);
      conns = λ c e. inl e;
      made = sound.made;
      listens_no_more = λ l e. inl e;
    }) in
    record {
      conns = λ c e. ground (arith, no_conns c, closing.conns c e);
      listener = λ l e. ground (arith, no_listener, closing.listens_no_more l e);
      stays_closed = closing.begun;
    }
