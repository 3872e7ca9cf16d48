-- ===== src/Tests/Closings.antt =====
-- Sockets, the configuration center, the Redis bucket and the reads of a connection: the theorems at
-- concrete inputs.
use summerrpc.Prelude.{
  ℕ, ◌+◌, ◌≡◌, refl, true, none, some, List, [], ◌∷◌, arith, ltb, All, Distinct, count,
}
use summerrpc.Prelude.Int.{pos}
use summerrpc.AtomicInteger.{AtomicInteger}
use summerrpc.Text.{codes}
use summerrpc.Messages.{ok, raised}
use summerrpc.Exceptions.{key_error}
use summerrpc.Sockets.Closing
use summerrpc.Sockets.Schedules
use summerrpc.ConfigurationCenter
use summerrpc.ConfigurationCenter.Keys
use summerrpc.RedisBucket
use summerrpc.Connection
use summerrpc.Connection.{Conn, reading}
use summerrpc.Connection.Threads
use summerrpc.Connection.Threads.{
  Event, Sending, Incoming, calls_write, calls_read, calls_close, closer_runs, reader_runs,
}
use summerrpc.Connection.Futures
use summerrpc.Connection.Answered

-- Two calls of `close`, the second of which waits for the lock.
abbrev turns : List ℕ
turns = 1 ∷ 2 ∷ 1 ∷ 2 ∷ 1 ∷ 1 ∷ 2 ∷ 2 ∷ []

second_back : (Closing.run (Closing.opened true) turns).at 2 ≡ Closing.back
unfolding Closing.run Closing.step Closing.close_at
second_back = refl

closes-run_example :
    ((Closing.run (Closing.opened true) turns).closed ≡ true)
    × ((Closing.run (Closing.opened true) turns).closes ≡ 1)
closes-run_example = Schedules.closes-run turns 2 second_back

-- A tree with one setting, and one in which a child cannot be read.
abbrev whole : ConfigurationCenter.Tree
whole = record { get = λ p. ok (codes "on", 3); get_children = λ p. ok (codes "debug" ∷ []) }

abbrev broken : ConfigurationCenter.Tree
broken = record { get = λ p. raised key_error; get_children = λ p. ok (codes "debug" ∷ []) }

abbrev center_events : List ConfigurationCenter.Event
center_events =
    ConfigurationCenter.starts (ok 1)
    ∷ ConfigurationCenter.state_changes true whole
    ∷ ConfigurationCenter.node_changes (codes "/base") broken
    ∷ []

get_key-run_example :
    ConfigurationCenter.get_key
      (codes "debug")
      (ConfigurationCenter.run (ConfigurationCenter.init (codes "/base")) center_events)
    ≡ ok (some (codes "on"))
get_key-run_example = Keys.get_key-run (codes "/base") center_events (codes "debug")

abbrev limiter : RedisBucket.Limiter
limiter = record { capacity = 10; rate = 3; is_there = λ set ttl now. ltb now (set + ttl) }

abbrev bucket_calls : List (ℕ × ℕ)
bucket_calls = (100, 8) ∷ (101, 8) ∷ (120, 9) ∷ []

limiter-IsPatient : RedisBucket.IsPatient limiter
limiter-IsPatient set ttl now h = ground (arith, h)

answers-forgetting_example :
    RedisBucket.answers limiter bucket_calls none
    ≡ RedisBucket.answers (RedisBucket.forgetting_nothing limiter) bucket_calls none
answers-forgetting_example =
    RedisBucket.answers-forgetting limiter bucket_calls none limiter-IsPatient

abbrev counter : AtomicInteger
counter = record { initial = pos 0; internal = pos 0; max_integer = 1000 }

abbrev new_conn : Conn
new_conn = Connection.init none none none none none none counter

-- Two reads, a response to the second of them, and the end of the connection.
abbrev read_events : List Event
read_events =
    calls_read 1
    ∷ calls_read 2
    ∷ reader_runs Incoming.failed
    ∷ reader_runs (Incoming.message 2 (5 ∷ []))
    ∷ reader_runs Incoming.failed
    ∷ reader_runs Incoming.failed
    ∷ calls_close
    ∷ closer_runs
    ∷ closer_runs
    ∷ closer_runs
    ∷ []

reads_closed : (Threads.run new_conn read_events).closed ≡ true
unfolding Connection.init Threads.run Threads.step Connection.read Threads.reader_step
    Threads.take_heartbeat Threads.deliver Connection.close Connection.close_step
reads_closed = refl

closed_reads_answered_example :
    All
      (λ f. count f (Futures.settled (Threads.run new_conn read_events).read_log) ≡ 1)
      (Answered.handed new_conn read_events)
    × Distinct (Futures.settled (Threads.run new_conn read_events).read_log)
closed_reads_answered_example =
    Answered.closed_reads_answered none none none none none none counter read_events
      (refl, (refl, (refl, (refl, (refl, (refl, (refl, (refl, (refl, (refl, tt))))))))))
      reads_closed
