-- ===== src/Connection.antt =====
-- connection.py: `SharedBlockingConnection`, a connection that many callers share. A write thread
-- and a read thread work on it; what they do between two releases of a lock is one event, so that
-- a list of events is an interleaving. The socket and the clock answer in the events.
pub mod Threads
pub mod Stocks
pub mod Futures
pub mod Seals
pub mod Beats
pub mod Writes
pub mod Shutdown
pub mod Simple
pub mod Waiting
pub mod Reads
pub mod Answered
use summerrpc.Prelude.{
  ℕ, zero, suc, ◌+◌, ◌≤◌, ◌<◌, Bool, true, false, Option, none, some, List, [], ◌∷◌, ltb, leb, ◌==◌,
  if◌then◌else◌, length, map, reverse, ◌||◌, ◌&&◌, not,
}
use summerrpc.Prelude.Int.{pos, pos_part}
use summerrpc.Exceptions.{
  Class, connection_write_timeout, connection_abort_error, max_pending_reads_reached_error,
  list_full_error,
}
use summerrpc.AtomicInteger.{AtomicInteger, increase}
use summerrpc.Lru.{is_some}
use summerrpc.Lru.Items.{find, remove, put, kicked_out}

abbrev pub Bytes : Type 0
Bytes = List ℕ

-- An element of `_pending_writes`; a future is a number.
pub record Item : Type 0 where
  pub buff : Bytes
  pub future : ℕ
  pub transaction_id : ℕ
  pub timestamp : ℕ
  pub timeout : Option ℕ

-- What a future is given.
pub data Settled : Type 0 where
  result_id : ℕ → Settled
  result : Bytes → Settled
  exception : Class → Settled

-- Where the write thread stands: before its check, with the two flags of its loop; in its wait;
-- with an item in hand; or gone.
pub data Writer : Type 0 where
  checking : (missing wake : Bool) → Writer
  waiting : (wake : Bool) → Writer
  holding : Item → Writer
  gone : Writer

pub data Reader : Type 0 where
  checking : Reader
  waiting : Reader
  reading : Reader
  received : ℕ → Bytes → Reader
  no_heartbeat : ℕ → Bytes → Reader
  gone : Reader

-- Where `close` stands. A second thread may be in it, `again`, once the first is through.
pub data Closer : Type 0 where
  idle at_socket at_writes at_reads finished : Closer
  again_at_socket again_at_writes again_at_reads : Closer

pub record Conn : Type 0 where
  pub write_timeout : Option ℕ
  pub max_pending_writes : ℕ
  pub max_pending_reads : ℕ
  pub max_pooling_reads : ℕ
  pub heartbeat_interval : Option ℕ
  pub heartbeat_func : Option Bytes
  pub pending_writes : List Item
  pub pending_reads : List (ℕ × ℕ)
  pub pooling_reads : List (ℕ × ℕ)
  pub heartbeats : List (ℕ × ℕ)
  pub ids : AtomicInteger
  pub closing : Bool
  pub closed : Bool
  pub socket_open : Bool
  pub writer : Writer
  pub reader : Reader
  pub closer : Closer
  -- The next new future, how many were made for writes, and what futures were given, newest first:
  -- those of writes, those of reads, and those of heartbeats by their responses. The future of a
  -- heartbeat is one of a write, too, so that it can be in both of two logs; `beats` has all of them.
  pub next_future : ℕ
  pub issued : ℕ
  pub write_log : List (ℕ × Settled)
  pub read_log : List (ℕ × Settled)
  pub heartbeat_log : List (ℕ × Settled)
  pub beats : List ℕ
  -- What the transport has sent.
  pub sent : List (ℕ × Bytes)

abbrev pub max_heartbeats : ℕ
max_heartbeats = 4

-- A transaction id is its own hash code.
abbrev pub same_id : ℕ → ℕ
same_id n = n

abbrev pub or_default : Option ℕ → Option ℕ → Option ℕ
or_default none d = d
or_default (some zero) d = d
or_default (some (suc n)) d = some (suc n)

abbrev pub is_shut : Conn → Bool
is_shut c = c.closing || c.closed

-- `_update_pending_writes`: a full list raises after the id has been taken.
unfoldable pub update_pending_writes : Bytes → Option ℕ → ℕ → Conn → Conn × Option (ℕ × ℕ)
update_pending_writes buff timeout now c =
    let (ids', id) = increase (pos 1) c.ids in
    let item : Item = record {
      buff = buff;
      future = c.next_future;
      transaction_id = pos_part id;
      timestamp = now;
      timeout = timeout;
    } in
    if ltb (length c.pending_writes) c.max_pending_writes
    then (
      record c {
        ids = ids';
        pending_writes = item ∷ c.pending_writes;
        next_future = c.next_future + 1;
        issued = c.issued + 1;
      },
      some (pos_part id, c.next_future),
    )
    else (record c { ids = ids'; next_future = c.next_future + 1 }, none)

pub data Reply : Type 0 where
  written : (transaction_id future : ℕ) → Reply
  future : ℕ → Reply
  raised : Class → Reply

-- `write`; `is_full` is never true, so that the list itself refuses.
unfoldable pub write : Bytes → Option ℕ → ℕ → Conn → Conn × Reply
unfolding update_pending_writes
write buff timeout now c =
    if is_shut c
    then (c, raised connection_abort_error)
    else (let r = update_pending_writes buff (or_default timeout c.write_timeout) now c in
        elim (r.1) [ none ↦ (r.0, raised list_full_error) | some (id, f) ↦ (r.0, written id f) ])

-- `read`
unfoldable pub read : ℕ → Conn → Conn × Reply
read id c =
    if is_shut c
    then (c, raised connection_abort_error)
    else elim (find same_id id c.pooling_reads) [
      | some (_, f) ↦ (record c { pooling_reads = remove same_id id c.pooling_reads }, future f)
      | none ↦ elim (find same_id id c.pending_reads) [
        | some (k, f) ↦
            (record c { pending_reads = (k, f) ∷ remove same_id id c.pending_reads }, future f)
        | none ↦ (
          record c {
            pending_reads = put same_id c.max_pending_reads id c.next_future c.pending_reads;
            next_future = c.next_future + 1;
            read_log = elim (kicked_out c.max_pending_reads c.pending_reads) [
              | none ↦ c.read_log
              | some (_, old) ↦ (old, exception max_pending_reads_reached_error) ∷ c.read_log
            ];
          },
          future c.next_future,
        )
      ]
    ]

-- `close`: the flag is set by one caller; the rest of the work follows in steps. Here its check of
-- the two flags is not cut by another thread; `straddle` is the other case.
unfoldable pub close : Conn → Conn
close c = if is_shut c then c else record c { closing = true; closer = at_socket }

-- `_close_write` gives each pending write an exception, the newest first.
unfoldable pub abort_all : List Item → List (ℕ × Settled) → List (ℕ × Settled)
abort_all [] log = log
abort_all (i ∷ is) log = abort_all is ((i.future, exception connection_abort_error) ∷ log)

-- `_close_read` gives each pending read an exception, the oldest first, and keeps the entries.
unfoldable pub abort_reads : List (ℕ × ℕ) → List (ℕ × Settled) → List (ℕ × Settled)
abort_reads [] log = log
abort_reads ((_, f) ∷ es) log = abort_reads es ((f, exception connection_abort_error) ∷ log)

close_at : Closer → Conn → Conn
unfolding abort_all abort_reads
close_at idle c = c
close_at again_at_socket c = record c { closer = again_at_writes }
close_at again_at_writes c = record c {
  write_log = abort_all c.pending_writes c.write_log;
  pending_writes = [];
  closer = again_at_reads;
}
close_at again_at_reads c = record c {
  read_log = abort_reads (reverse c.pending_reads) c.read_log;
  pooling_reads = [];
  closed = true;
  closing = false;
  closer = finished;
}
close_at at_socket c = record c { socket_open = false; closer = at_writes }
close_at at_writes c = record c {
  write_log = abort_all c.pending_writes c.write_log;
  pending_writes = [];
  closer = at_reads;
}
close_at at_reads c = record c {
  read_log = abort_reads (reverse c.pending_reads) c.read_log;
  pooling_reads = [];
  closed = true;
  closing = false;
  closer = finished;
}
close_at finished c = c

unfoldable pub close_step : Conn → Conn
unfolding close_at
close_step c = close_at c.closer c

-- `close` in a thread that read `_closed` before another one's `close` set it, and `_closing` after
-- that cleared it: it passes the check with the lock, though the connection is closed.
unfoldable pub straddle : Conn → Conn
straddle c = elim c.closer [
  | finished ↦ record c { closing = true; closer = again_at_socket }
  | _ ↦ c
]

-- `__init__`; a size of `None` or 0 stands for 65535.
abbrev size_of : Option ℕ → ℕ
size_of none = 65535
size_of (some zero) = 65535
size_of (some (suc n)) = suc n

unfoldable pub init :
    (max_pending_writes max_pending_reads max_pooling_reads write_timeout : Option ℕ)
    (heartbeat_interval : Option ℕ) (heartbeat_func : Option Bytes) (ids : AtomicInteger)
    → Conn
init w r p t interval func ids = record {
  write_timeout = t;
  max_pending_writes = size_of w;
  max_pending_reads = size_of r;
  max_pooling_reads = size_of p;
  heartbeat_interval = interval;
  heartbeat_func = func;
  pending_writes = [];
  pending_reads = [];
  pooling_reads = [];
  heartbeats = [];
  ids = ids;
  closing = false;
  closed = false;
  socket_open = true;
  writer = Writer.checking false false;
  reader = Reader.checking;
  closer = idle;
  next_future = 0;
  issued = 0;
  write_log = [];
  read_log = [];
  heartbeat_log = [];
  beats = [];
  sent = [];
}
