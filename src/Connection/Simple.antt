-- ===== src/Connection/Simple.antt =====
-- connection.py: `SimpleBlockingConnection`, which writes and reads in the caller's thread. One thread
-- uses it, so that nothing comes between the steps of `close`. The transport's answers are arguments.
use summerrpc.Prelude.{
  ℕ, ◌+◌, ◌≡◌, refl, Bool, true, false, List, [], ◌∷◌, arith, ◌==◌, ◌||◌, if◌then◌else◌, if_cases,
}
use summerrpc.Prelude.Int.{pos, pos_part}
use summerrpc.Exceptions.{
  connection_write_timeout, connection_read_timeout, connection_abort_error, runtime_error,
}
use summerrpc.AtomicInteger.{AtomicInteger, increase}
use summerrpc.Connection.{Bytes, Settled, result_id, result, exception}
use summerrpc.Connection.Threads.{Sending, done}

pub record Simple : Type 0 where
  pub ids : AtomicInteger
  pub closing : Bool
  pub closed : Bool
  -- How often the socket was closed.
  pub socket_closes : ℕ
  -- What the transport has sent, newest first.
  pub sent : List (ℕ × Bytes)

unfoldable pub init : AtomicInteger → Simple
init ids = record { ids = ids; closing = false; closed = false; socket_closes = 0; sent = [] }

-- What `close` does between its check with the lock and its end, in its order.
abbrev shut_down : Simple → Simple
shut_down c =
    let marked = record c { closing = true } in
    let cut = record marked { socket_closes = marked.socket_closes + 1 } in
    let ended = record cut { closed = true } in record ended { closing = false }

-- `close`: the first check, then the one with the lock, which its one caller finds free.
unfoldable pub close : Simple → Simple
close c = if c.closed || c.closing then c else (if c.closed || c.closing then c else shut_down c)

-- `write`: the id is taken in any case, and the future that is returned is already set.
unfoldable pub write : Bytes → Sending → Simple → Simple × ℕ × Settled
unfolding close
write buff outcome c =
    let (ids', id) = increase (pos 1) c.ids in
    let d = record c { ids = ids' } in
    elim outcome [
      | done ↦
          (record d { sent = (pos_part id, buff) ∷ d.sent }, pos_part id, result_id (pos_part id))
      | Sending.timed_out ↦ (close d, pos_part id, exception connection_write_timeout)
      | Sending.broken ↦ (close d, pos_part id, exception connection_abort_error)
    ]

-- What the transport's `read` meets.
pub data Arriving : Type 0 where
  message : ℕ → Bytes → Arriving
  timed_out : Arriving
  broken : Arriving

-- `read`
unfoldable pub read : ℕ → Arriving → Simple → Simple × Settled
unfolding close
read id (message id' buff) c =
    if id' == id then (c, result buff) else (close c, exception runtime_error)
read id Arriving.timed_out c = (close c, exception connection_read_timeout)
read id Arriving.broken c = (close c, exception connection_abort_error)

pub data Call : Type 0 where
  writes : Bytes → Sending → Call
  reads : ℕ → Arriving → Call
  closes : Call

unfoldable pub run : Simple → List Call → Simple
run c [] = c
run c (writes buff outcome ∷ cs) = run (write buff outcome c).0 cs
run c (reads id arriving ∷ cs) = run (read id arriving c).0 cs
run c (closes ∷ cs) = run (close c) cs

-- The socket is closed once if the connection is closed, and not at all before.
abbrev IsConsistent : Simple → Type 0
IsConsistent c = (c.closing ≡ false) × (c.socket_closes ≡ (if c.closed then 1 else 0))

close-IsConsistent : (c : Simple) → IsConsistent c → IsConsistent (close c)
unfolding close
close-IsConsistent c (a, b) = (ground arith, ground arith)

write-IsConsistent :
    (buff : Bytes) (outcome : Sending) (c : Simple)
    → IsConsistent c
    → IsConsistent (write buff outcome c).0
unfolding write
write-IsConsistent buff Sending.done c h = h
write-IsConsistent buff Sending.timed_out c h = close-IsConsistent (record c { ids = _ }) h
write-IsConsistent buff Sending.broken c h = close-IsConsistent (record c { ids = _ }) h

read-IsConsistent :
    (id : ℕ) (a : Arriving) (c : Simple) → IsConsistent c → IsConsistent (read id a c).0
unfolding read
read-IsConsistent id (message id' buff) c h =
    if_cases (λ (r : Simple × Settled). IsConsistent r.0) (id' == id) h (close-IsConsistent c h)
read-IsConsistent id Arriving.timed_out c h = close-IsConsistent c h
read-IsConsistent id Arriving.broken c h = close-IsConsistent c h

run-IsConsistent : (c : Simple) (cs : List Call) → IsConsistent c → IsConsistent (run c cs)
unfolding run
run-IsConsistent c [] h = h
run-IsConsistent c (writes buff outcome ∷ cs) h =
    run-IsConsistent (write buff outcome c).0 cs (write-IsConsistent buff outcome c h)
run-IsConsistent c (reads id a ∷ cs) h =
    run-IsConsistent (read id a c).0 cs (read-IsConsistent id a c h)
run-IsConsistent c (closes ∷ cs) h = run-IsConsistent (close c) cs (close-IsConsistent c h)

-- However a single thread uses a connection, its socket is closed exactly once if the connection is closed and
-- never otherwise: failing writes, failing reads and `close` in any order close it no second time.
pub socket_closes-run :
    (ids : AtomicInteger) (cs : List Call)
    → (run (init ids) cs).socket_closes ≡ (if (run (init ids) cs).closed then 1 else 0)
unfolding init
socket_closes-run ids cs = (run-IsConsistent (init ids) cs (refl, refl)).1
