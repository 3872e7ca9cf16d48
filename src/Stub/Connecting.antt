-- ===== src/Stub/Connecting.antt =====
-- stub.py: `Refer._connection_factory`, which makes a client's socket and the connection over it.
use summerrpc.Prelude.{
  ℕ, ◌≡◌, ◌≤◌, refl, Bool, true, false, Option, none, some, [], ◌∷◌, arith, ltb,
}
use summerrpc.Prelude.Int.{pos}
use summerrpc.Text.{Bytes}
use summerrpc.Messages.{Outcome, ok, and_then}
use summerrpc.AtomicInteger.{AtomicInteger}
use summerrpc.Connection.{Conn}
use summerrpc.Registry.{Remote}
use summerrpc.ReferArgument.{ReferArgument, new_connection}
use summerrpc.Sockets.{
  Arg, int, Call, client, creates, sets_no_delay, sets_blocking, sets_timeout, connects, Socket,
  init_builder, with_host, with_port, with_tcp_no_delay, with_blocking, with_timeout, build, init,
}

-- A timeout as `with_timeout` sees it: None is no number.
abbrev timeout_arg : Option ℕ → Arg
timeout_arg none = Arg.other
timeout_arg (some t) = int (pos t)

-- `_connection_factory(host, port)`; the last two arguments are the heartbeat and the numbering of
-- the connection.
unfoldable pub connection_factory :
    (Call → Bool) → Remote → ReferArgument → Option Bytes → AtomicInteger → Outcome (Socket × Conn)
connection_factory works remote argument heartbeat ids =
    and_then (with_port (int remote.port) (with_host remote.host init_builder)) λ b.
      and_then
        (with_timeout (timeout_arg argument.client_socket_timeout)
          (with_blocking (with_tcp_no_delay b)))
        λ b1.
          and_then (build works client b1)
            λ socket. ok (socket, new_connection argument heartbeat ids)

-- Where the system refuses nothing and the port and the timeout are valid, the socket is made without
-- delay and blocking, with the timeout, and connected to the remote server.
pub connection_factory-connects :
    (host : Bytes) (port timeout : ℕ) (argument : ReferArgument) (heartbeat : Option Bytes)
    (ids : AtomicInteger)
    → port ≤ 65535
    → argument.client_socket_timeout ≡ some timeout
    → connection_factory
        (λ c. true)
        (record { host = host; port = pos port })
        argument
        heartbeat
        ids
      ≡ ok (
        record {
          has_socket = true;
          initialized = true;
          calls =
              creates
              ∷ sets_no_delay
              ∷ sets_blocking true
              ∷ sets_timeout (some (int (pos timeout)))
              ∷ connects host port
              ∷ [];
        },
        new_connection argument heartbeat ids,
      )
unfolding connection_factory with_port with_host with_timeout with_blocking with_tcp_no_delay build
    init
connection_factory-connects host port timeout argument heartbeat ids valid set =
    let small : ltb 65535 port ≡ false = ground (arith, valid) in rw (small, set) refl
