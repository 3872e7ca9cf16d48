-- ===== src/Sockets.antt =====
-- helper/socket_util.py: the builders of sockets, and what making one does. What the system answers to
-- each call is a parameter. `close` is in the child.
pub mod Closing
pub mod Schedules
use summerrpc.Prelude.{
  ℕ, ◌+◌, Bool, true, false, Option, none, some, List, [], ◌∷◌, ◌++◌, ltb, if◌then◌else◌, not, ◌||◌,
  ◌&&◌, ◌==◌,
}
use summerrpc.Prelude.Int.{ℤ, pos, negsuc}
use summerrpc.Exceptions.{Class, type_error, value_error, runtime_error, socket_error}
use summerrpc.Text.{Bytes}
use summerrpc.Messages.{Outcome, ok, raised}

-- An argument as the setters see it: an int, a float by its sign and value, or something else.
pub data Arg : Type 0 where
  int : ℤ → Arg
  float : (is_negative : Bool) → ℕ → Arg
  other : Arg

-- `SocketBuilder`, with the backlog of `ServerSocketBuilder`.
pub record Builder : Type 0 where
  pub host : Option Bytes
  pub port : Option ℕ
  pub timeout : Option Arg
  pub tcp_no_delay : Bool
  pub blocking : Bool
  pub backlog : ℕ

-- `__init__`
abbrev pub init_builder : Builder
init_builder = record {
  host = none;
  port = none;
  timeout = none;
  tcp_no_delay = true;
  blocking = true;
  backlog = 128;
}

unfoldable pub with_host : Bytes → Builder → Builder
with_host host self = record self { host = some host }

unfoldable pub with_port : Arg → Builder → Outcome Builder
with_port (int (pos n)) self =
    if ltb 65535 n then raised value_error else ok (record self { port = some n })
with_port (int (negsuc n)) self = raised value_error
with_port (float is_negative n) self = raised value_error
with_port other self = raised value_error

unfoldable pub with_timeout : Arg → Builder → Outcome Builder
with_timeout (int (pos n)) self = ok (record self { timeout = some (int (pos n)) })
with_timeout (int (negsuc n)) self = raised value_error
with_timeout (float true n) self = raised value_error
with_timeout (float false n) self = ok (record self { timeout = some (float false n) })
with_timeout other self = raised value_error

unfoldable pub with_tcp_no_delay : Builder → Builder
with_tcp_no_delay self = record self { tcp_no_delay = true }

unfoldable pub with_tcp_cork : Builder → Builder
with_tcp_cork self = record self { tcp_no_delay = false }

unfoldable pub with_blocking : Builder → Builder
with_blocking self = record self { blocking = true }

unfoldable pub with_non_blocking : Builder → Builder
with_non_blocking self = record self { blocking = false }

unfoldable pub with_backlog : Arg → Builder → Outcome Builder
with_backlog (int (pos n)) self =
    if n == 0 then raised value_error else ok (record self { backlog = n })
with_backlog (int (negsuc n)) self = raised value_error
with_backlog (float is_negative n) self = raised value_error
with_backlog other self = raised value_error

-- The calls on the system's socket.
pub data Call : Type 0 where
  creates sets_no_delay : Call
  sets_blocking : Bool → Call
  sets_timeout : Option Arg → Call
  binds : Option Bytes → Option ℕ → Call
  listens : ℕ → Call
  connects : Bytes → ℕ → Call

pub data Kind : Type 0 where
  server client : Kind

-- `make_socket`
abbrev pub make_socket : Builder → List Call
make_socket builder =
    creates
    ∷ ((if builder.tcp_no_delay then sets_no_delay ∷ [] else [])
        ++ (sets_blocking builder.blocking
            ∷ (if builder.blocking then sets_timeout builder.timeout ∷ [] else [])))

-- `set_socket`; the host and the port that a client connects to.
abbrev connection : Option Bytes → Option ℕ → List Call
connection (some host) (some port) = connects host port ∷ []
connection _ _ = []

abbrev pub set_socket : Kind → Builder → List Call
set_socket server builder = binds builder.host builder.port ∷ listens builder.backlog ∷ []
set_socket client builder = connection builder.host builder.port

-- The calls that are made: up to the first that raises. The flag says whether none did.
abbrev pub perform : (Call → Bool) → List Call → List Call × Bool
perform works [] = ([], true)
perform works (c ∷ cs) =
    let (made, all) = perform works cs in if works c then (c ∷ made, all) else (c ∷ [], false)

-- What is left of a socket after `__init__`: is `self.socket` set, and `_initialized`?
pub record Socket : Type 0 where
  pub has_socket : Bool
  pub initialized : Bool
  pub calls : List Call

-- `BaseSocket.__init__`
unfoldable pub init : (Call → Bool) → Kind → Builder → Socket
init works kind builder =
    let (calls, made) = perform works (make_socket builder) in
    let (more, set) = perform works (set_socket kind builder) in
    if made
    then record { has_socket = true; initialized = set; calls = calls ++ more }
    else record { has_socket = false; initialized = false; calls = calls }

-- `build`: a server's needs a host and a port; and an `__init__` that raises gives no socket.
abbrev built : Socket → Outcome Socket
built s = if s.initialized then ok s else raised socket_error

abbrev pub is_server : Kind → Bool
is_server server = true
is_server client = false

abbrev pub is_given {ℓ} : {A : Type ℓ} → Option A → Bool
is_given none = false
is_given (some a) = true

unfoldable pub build : (Call → Bool) → Kind → Builder → Outcome Socket
unfolding init
build works kind builder =
    if is_server kind && (not (is_given builder.host) || not (is_given builder.port))
    then raised runtime_error
    else built (init works kind builder)
