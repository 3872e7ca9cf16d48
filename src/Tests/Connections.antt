-- ===== src/Tests/Connections.antt =====
-- Connections and transports: the theorems at concrete inputs.
use summerrpc.Prelude.{◌≡◌, refl, false, none, some, List, [], ◌∷◌, ◌++◌, if◌then◌else◌}
use summerrpc.Prelude.Int.{pos}
use summerrpc.AtomicInteger.{AtomicInteger}
use summerrpc.Transport
use summerrpc.Transport.Reading
use summerrpc.Transport.RoundTrip
use summerrpc.Connection
use summerrpc.Connection.Threads
use summerrpc.Connection.{Conn}
use summerrpc.Connection.Threads.{
  Event, Sending, calls_write, calls_read, calls_close, closer_runs, writer_runs,
}
use summerrpc.Connection.Futures
use summerrpc.Connection.Writes
use summerrpc.Connection.Shutdown
use summerrpc.Connection.Simple

abbrev counter : AtomicInteger
counter = record { initial = pos 0; internal = pos 0; max_integer = 1000 }

-- Two writes, the first of which is sent, and a read.
abbrev some_events : List Event
some_events =
    calls_write (1 ∷ []) none 5
    ∷ calls_write (2 ∷ []) none 6
    ∷ writer_runs 7 Sending.done
    ∷ writer_runs 8 Sending.done
    ∷ calls_read 2
    ∷ []

abbrev new_conn : Conn
new_conn = Connection.init none none none none none none counter

-- After the events the connection is closed and the write thread gone.
abbrev all_events : List Event
all_events = some_events ++ Shutdown.shutdown 9 10 Sending.done Sending.broken

abbrev simple_calls : List Simple.Call
simple_calls =
    Simple.writes (1 ∷ []) Sending.done
    ∷ Simple.reads 1 Simple.Arriving.timed_out
    ∷ Simple.closes
    ∷ []

socket_closes-run_example :
    (Simple.run (Simple.init counter) simple_calls).socket_closes
    ≡ (if (Simple.run (Simple.init counter) simple_calls).closed then 1 else 0)
socket_closes-run_example = Simple.socket_closes-run counter simple_calls

abbrev nums : Transport.Errno
nums = record { eintr = 4; ebadf = 9 }

-- The packet of the body 7, 8 with the identifier 5, and its arrival in three pieces.
abbrev packet : Transport.Bytes
packet = 0 ∷ 0 ∷ 0 ∷ 2 ∷ 0 ∷ 0 ∷ 0 ∷ 5 ∷ 7 ∷ 8 ∷ []

abbrev arriving : List Transport.Event
arriving =
    Transport.bytes (0 ∷ 0 ∷ [])
    ∷ Transport.error 4
    ∷ Transport.bytes (0 ∷ 2 ∷ 0 ∷ 0 ∷ 0 ∷ 5 ∷ 7 ∷ [])
    ∷ Transport.bytes (8 ∷ 1 ∷ 2 ∷ [])
    ∷ []

packet_made : Transport.generate_packet 5 (7 ∷ 8 ∷ []) ≡ some packet
unfolding Transport.generate_packet Transport.pack_u32
packet_made = refl

arriving-Calm : Reading.Calm nums false arriving
arriving-Calm = ((λ e. cc), (refl, ((λ e. cc), ((λ e. cc), tt))))

read-generate_packet_example :
    (rest : List Transport.Event) × (Transport.read nums false arriving
      ≡ Transport.got (5, 7 ∷ 8 ∷ []) rest)
    × Reading.Calm nums false rest
    × (Reading.payload nums rest ≡ 1 ∷ 2 ∷ [])
read-generate_packet_example =
    RoundTrip.read-generate_packet nums false 5 (7 ∷ 8 ∷ []) packet (1 ∷ 2 ∷ []) arriving
      packet_made arriving-Calm refl
