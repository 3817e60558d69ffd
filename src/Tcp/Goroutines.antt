-- ===== src/Tcp/Goroutines.antt =====
-- transport/tcp/server.go: the goroutines of a server, as steps that come in any order. A system is
-- the server with its listeners, its connections, and what the goroutines and a running shutdown hold.
use wego.Prelude.{◌≡◌, ℕ, Bool, true, false, Option, none, some}
use wego.Tcp.{Server, set, register, track_conn, untrack_conn, begin_shutdown}

-- A listener: not yet made; made by a Start that has not registered it; with an accept loop at
-- Accept, or holding a connection; given up.
pub data Loop : Type 0 where
  unborn pending listening finished : Loop
  holding : (conn : ℕ) → Loop

-- A connection: not yet accepted; accepted and not tracked; with its handler running; closed and
-- still tracked; forgotten.
pub data Owner : Type 0 where
  unknown accepted handling leaving gone : Owner

pub record System : Type 0 where
  pub server : Server
  pub loop : ℕ → Loop
  pub owner : ℕ → Owner
  pub open_listener : ℕ → Bool
  pub open_conn : ℕ → Bool
  -- What the shutdown has still to close.
  pub closing_listener : Option ℕ
  pub closing : ℕ → Bool

-- shutdown: the section under the lock
abbrev pub shut : System → System
shut s = record s {
  server = (begin_shutdown s.server).2;
  closing_listener = (begin_shutdown s.server).0;
  closing = (begin_shutdown s.server).1;
}

pub data Step (s : System) : System → Type 0 where
  -- Start: net.Listen
  listens :
      (l : ℕ)
      → s.loop l ≡ unborn
      → Step s
          (record s { loop = set l pending s.loop; open_listener = set l true s.open_listener })
  -- Start: there is a listener already, and the new one is closed.
  refuses :
      (l k : ℕ)
      → s.loop l ≡ pending
      → s.server.listener ≡ some k
      → Step s
          (record s { loop = set l finished s.loop; open_listener = set l false s.open_listener })
  -- Start: the listener is the server's, and its accept loop starts.
  registers :
      (l : ℕ)
      → s.loop l ≡ pending
      → s.server.listener ≡ none
      → Step s (record s { server = (register l s.server).1; loop = set l listening s.loop })
  -- acceptLoop: Accept returns a connection.
  accepts :
      (l c : ℕ)
      → s.loop l ≡ listening
      → s.open_listener l ≡ true
      → s.owner c ≡ unknown
      → Step s (record s {
        loop = set l (holding c) s.loop;
        owner = set c accepted s.owner;
        open_conn = set c true s.open_conn;
      })
  -- acceptLoop: the connection is tracked, and its handler starts.
  tracks :
      (l c : ℕ)
      → s.loop l ≡ holding c
      → s.owner c ≡ accepted
      → Step s (record s {
        server = track_conn c s.server;
        loop = set l listening s.loop;
        owner = set c handling s.owner;
      })
  -- acceptLoop: an error of Accept ends it.
  gives_up : (l : ℕ) → s.loop l ≡ listening → Step s (record s { loop = set l finished s.loop })
  -- The handler may close its connection.
  hangs_up :
      (c : ℕ) → s.owner c ≡ handling → Step s (record s { open_conn = set c false s.open_conn })
  -- handleConn: the handler is done, and the connection is closed …
  leaves :
      (c : ℕ)
      → s.owner c ≡ handling
      → Step s (record s { owner = set c leaving s.owner; open_conn = set c false s.open_conn })
  -- … and then no longer tracked.
  untracks :
      (c : ℕ)
      → s.owner c ≡ leaving
      → Step s (record s { server = untrack_conn c s.server; owner = set c gone s.owner })
  -- shutdown: the section under the lock
  shuts : s.server.is_closed ≡ false → Step s (shut s)
  -- shutdown: the listener is closed …
  closes_listener :
      (l : ℕ)
      → s.closing_listener ≡ some l
      → Step s (record s { open_listener = set l false s.open_listener; closing_listener = none })
  -- … and then the connections.
  closes_conn :
      (c : ℕ)
      → s.closing_listener ≡ none
      → s.closing c ≡ true
      → Step s (record s { open_conn = set c false s.open_conn; closing = set c false s.closing })

-- Any number of steps.
pub data Steps (s : System) : System → Type 0 where
  stay : Steps s s
  more : (t u : System) → Steps s t → Step t u → Steps s u
