-- ===== src/Tcp.antt =====
-- transport/tcp/: a TCP server. The data of server.go and options.go and the methods of Server, one
-- section under its mutex at a time. Handlers are known by their presence; a listener and a
-- connection are numbers.
pub mod Goroutines
pub mod Soundness
pub mod Closing
mod Examples
use wego.Prelude.{
  nat_beq, ◌≡◌, All, ℕ, zero, suc, ◌+◌, ◌-◌, ◌*◌, ◌/◌, ◌%◌, ◌^◌, ◌≤◌, ◌<◌, refl, ap, ◌∙◌, sym,
  subst, Bool, true, false, Option, none, some, List, [], ◌∷◌, ◌++◌, map, Text, codes, Unicode,
  is_empty, ltb, leb, ℤ, pos, negsuc, is_pos, if◌then◌else◌, ◌&&◌, ◌||◌, not, arith, append_assoc,
  append_nil,
}
use wego.Reminder.Model.{Time}
use wego.Reminder.Service.{add_duration}

-- A NetType other than 0, which is no transport.
pub data NetType : Type 0 where
  no_type http tcp micro_server : NetType

-- The options; the host is the text of its address, empty where none is set.
pub record Options : Type 0 where
  pub host : Text
  pub port : ℤ
  pub net_type : NetType
  pub read_timeout : ℤ
  pub write_timeout : ℤ
  pub idle_timeout : ℤ
  pub has_handler : Bool

pub data Opt : Type 0 where
  with_type : NetType → Opt
  with_host : Text → Opt
  with_port with_read_timeout with_write_timeout with_idle_timeout : ℤ → Opt
  with_handler : Bool → Opt

unfoldable pub apply : Opt → Options → Options
apply (with_type t) o = record o { net_type = t }
apply (with_host h) o = record o { host = h }
apply (with_port p) o = record o { port = p }
apply (with_read_timeout d) o = record o { read_timeout = d }
apply (with_write_timeout d) o = record o { write_timeout = d }
apply (with_idle_timeout d) o = record o { idle_timeout = d }
apply (with_handler h) o = record o { has_handler = h }

unfoldable pub apply_all : List Opt → Options → Options
unfolding apply
apply_all [] o = o
apply_all (opt ∷ opts) o = apply_all opts (apply opt o)

pub data TcpError : Type 0 where
  handler_required server_started : TcpError

-- Server: its map of connections is the set that it holds, and `is_closed` says that closeCh is
-- closed, which the once does.
pub record Server : Type 0 where
  pub opts : Options
  pub listener : Option ℕ
  pub has_handler : Bool
  pub conns : ℕ → Bool
  pub is_closed : Bool

abbrev no_options : Options
no_options = record {
  host = [];
  port = pos 0;
  net_type = tcp;
  read_timeout = pos 0;
  write_timeout = pos 0;
  idle_timeout = pos 0;
  has_handler = false;
}

-- NewTCPServer
unfoldable pub new_server : List Opt → Server
unfolding apply_all
new_server opts =
    let o = apply_all opts no_options in
    record {
      opts = o;
      listener = none;
      has_handler = o.has_handler;
      conns = λ c. false;
      is_closed = false;
    }

-- SetHandler
unfoldable pub set_handler : Bool → Server → Server
set_handler h s = record s { has_handler = h; opts = record s.opts { has_handler = h } }

-- Addr: the listener whose address it returns
unfoldable pub addr : Server → Option ℕ
addr s = s.listener

unfoldable pub get_type : Server → NetType
get_type s = s.opts.net_type

-- listenAddr, with the port's digits
unfoldable pub listen_addr : (itoa : ℤ → Text) → Options → Text
listen_addr itoa o =
    (if is_empty o.host then codes "0.0.0.0" else o.host) ++ codes ":" ++ itoa o.port

-- `if s.opts.Type == 0 { s.opts.Type = transport.TCP }`
abbrev pub or_tcp : NetType → NetType
or_tcp no_type = tcp
or_tcp t = t

-- The first part of Start: there must be a handler.
unfoldable pub check_handler : Server → Option TcpError
check_handler s = if s.has_handler then none else some handler_required

-- The section of Start under the lock, with the new listener.
abbrev pub register_on : Option ℕ → ℕ → Server → Option TcpError × Server
register_on (some k) l s = (some server_started, s)
register_on none l s = (
  none,
  record s { listener = some l; opts = record s.opts { net_type = or_tcp s.opts.net_type } },
)

unfoldable pub register : ℕ → Server → Option TcpError × Server
register l s = register_on s.listener l s

-- A map that is changed at one key.
unfoldable pub set {ℓ} : {A : Type ℓ} → ℕ → A → (ℕ → A) → ℕ → A
set k a f j = if nat_beq j k then a else f j

unfoldable pub track_conn : ℕ → Server → Server
unfolding set
track_conn c s = record s { conns = set c true s.conns }

unfoldable pub untrack_conn : ℕ → Server → Server
unfolding set
untrack_conn c s = record s { conns = set c false s.conns }

-- The start of the once in shutdown: the listener and the connections that it will close, and the
-- server without its listener.
unfoldable pub begin_shutdown : Server → Option ℕ × (ℕ → Bool) × Server
begin_shutdown s = (s.listener, s.conns, record s { listener = none; is_closed = true })

-- The deadlines of a connection.
pub data Deadline : Type 0 where
  both read write : Time → Deadline

abbrev pub deadline_if : ℤ → (Time → Deadline) → Time → List Deadline
deadline_if timeout kind now = if is_pos timeout then kind (add_duration now timeout) ∷ [] else []

-- What handleConn sets before it calls the handler, at the time of the three readings of the clock.
unfoldable pub conn_deadlines : Options → Time → Time → Time → List Deadline
conn_deadlines o t1 t2 t3 =
    deadline_if o.idle_timeout both t1
    ++ deadline_if o.read_timeout read t2
    ++ deadline_if o.write_timeout write t3

-- connWithContext.Read and Write
unfoldable pub read_deadlines : Options → Time → List Deadline
read_deadlines o now = deadline_if o.read_timeout read now

unfoldable pub write_deadlines : Options → Time → List Deadline
write_deadlines o now = deadline_if o.write_timeout write now
