-- ===== src/Connection/Threads.antt =====
-- connection.py: the two threads of `SharedBlockingConnection`, and the events that the callers and
-- the threads make.
use summerrpc.Prelude.{
  ℕ, ◌+◌, Bool, true, false, Option, none, some, List, [], ◌∷◌, ltb, leb, ◌==◌, if◌then◌else◌,
  length, ◌&&◌,
}
use summerrpc.Exceptions.{connection_write_timeout, connection_abort_error}
use summerrpc.Lru.Items.{find, remove, put}
use summerrpc.Connection.{
  Bytes, Item, Settled, Writer, Reader, Conn, max_heartbeats, same_id, is_shut,
  update_pending_writes, write, read, close, straddle, close_step, result_id, result, exception,
  holding, reading, received, no_heartbeat,
}

-- The write thread's wait is over: it may add a heartbeat, or find too many unanswered.
unfoldable pub heartbeat : Bool → ℕ → Conn → Bytes → ℕ → Conn
unfolding update_pending_writes
heartbeat wake now c buff interval =
    if ltb (length c.heartbeats) max_heartbeats
    then (let r = update_pending_writes buff (some interval) now c in
        elim (r.1) [
          | none ↦ record (r.0) { writer = Writer.gone }
          | some (id, f) ↦ record (r.0) {
            heartbeats = put same_id max_heartbeats id f c.heartbeats;
            beats = f ∷ c.beats;
            writer = Writer.checking false true;
          }
        ])
    else record c { writer = Writer.checking true wake }

unfoldable pub woken : Bool → ℕ → Conn → Conn
unfolding heartbeat
woken wake now c =
    let quiet = record c { writer = Writer.checking false wake } in
    if is_shut c then quiet else elim c.pending_writes [
      | _ ∷ _ ↦ quiet
      | [] ↦ elim c.heartbeat_func [
        | none ↦ quiet
        | some buff ↦ elim c.heartbeat_interval [
          | none ↦ quiet
          | some interval ↦ heartbeat wake now c buff interval
        ]
      ]
    ]

-- `_precheck_before_writing` up to its wait.
unfoldable pub precheck : Bool → Conn → Conn
unfolding close
precheck missing c =
    if missing
    then record (close c) { writer = Writer.gone }
    else (if is_shut c then record c { writer = Writer.gone } else elim c.pending_writes [
      | [] ↦ record c { writer = Writer.waiting false }
      | i ∷ is ↦ record c { pending_writes = is; writer = holding i }
    ])

-- What the transport's `write` meets.
pub data Sending : Type 0 where
  done timed_out broken : Sending

-- Is the item past its time?
abbrev pub is_late : Item → ℕ → Bool
is_late i now = elim i.timeout [ none ↦ false | some t ↦ leb (i.timestamp + t) now ]

abbrev pub settle_write : ℕ → Settled → Conn → Conn
settle_write f s c = record c { write_log = (f, s) ∷ c.write_log }

-- What `_async_write` does after its `transport.write`.
unfoldable pub send_outcome : Item → Sending → Conn → Conn
unfolding close
send_outcome i done c = record (settle_write i.future (result_id i.transaction_id) c) {
  sent = (i.transaction_id, i.buff) ∷ c.sent;
  writer = Writer.checking false false;
}
send_outcome i timed_out c =
    record (close (settle_write i.future (exception connection_write_timeout) c)) {
      writer = Writer.gone;
    }
send_outcome i broken c =
    record (close (settle_write i.future (exception connection_abort_error) c)) {
      writer = Writer.gone;
    }

-- The body of `_async_write` after its check.
unfoldable pub send : Item → ℕ → Sending → Conn → Conn
unfolding send_outcome
send i now outcome c =
    if is_late i now
    then record (settle_write i.future (exception connection_write_timeout) c) {
      writer = Writer.checking false false;
    }
    else send_outcome i outcome c

unfoldable pub writer_at : Writer → ℕ → Sending → Conn → Conn
unfolding precheck woken send
writer_at (Writer.checking missing wake) now outcome c = precheck missing c
writer_at (Writer.waiting wake) now outcome c = woken wake now c
writer_at (holding i) now outcome c = send i now outcome c
writer_at Writer.gone now outcome c = c

-- One step of the write thread.
unfoldable pub writer_step : ℕ → Sending → Conn → Conn
unfolding writer_at
writer_step now outcome c = writer_at c.writer now outcome c

-- What the transport's `read` meets: a message, or an error that ends the connection.
pub data Incoming : Type 0 where
  message : ℕ → Bytes → Incoming
  failed : Incoming

-- The heartbeat section of `_async_read`.
unfoldable pub take_heartbeat : ℕ → Bytes → Conn → Conn
take_heartbeat id buff c =
    if is_shut c then record c { reader = Reader.gone } else elim (find same_id id c.heartbeats) [
      | none ↦ record c { reader = no_heartbeat id buff }
      | some (_, f) ↦ record c {
        heartbeats = remove same_id id c.heartbeats;
        heartbeat_log = (f, result buff) ∷ c.heartbeat_log;
        reader = Reader.checking;
      }
    ]

-- The section for other responses: to the read that waits for it, or into the pool.
unfoldable pub deliver : ℕ → Bytes → Conn → Conn
deliver id buff c =
    if is_shut c
    then record c { reader = Reader.gone }
    else elim (find same_id id c.pending_reads) [
      | some (_, f) ↦ record c {
        pending_reads = remove same_id id c.pending_reads;
        read_log = (f, result buff) ∷ c.read_log;
        reader = Reader.checking;
      }
      | none ↦ record c {
        pooling_reads = put same_id c.max_pooling_reads id c.next_future c.pooling_reads;
        next_future = c.next_future + 1;
        read_log = (c.next_future, result buff) ∷ c.read_log;
        reader = Reader.checking;
      }
    ]

unfoldable pub reader_at : Reader → Incoming → Conn → Conn
unfolding close take_heartbeat deliver
reader_at Reader.checking incoming c =
    if is_shut c
    then record c { reader = Reader.gone }
    else (if length c.pending_reads == 0 && length c.heartbeats == 0
        then record c { reader = Reader.waiting }
        else record c { reader = reading })
reader_at Reader.waiting incoming c = record c { reader = Reader.checking }
reader_at reading (message id buff) c = record c { reader = received id buff }
reader_at reading failed c = record (close c) { reader = Reader.gone }
reader_at (received id buff) incoming c = take_heartbeat id buff c
reader_at (no_heartbeat id buff) incoming c = deliver id buff c
reader_at Reader.gone incoming c = c

-- One step of the read thread.
unfoldable pub reader_step : Incoming → Conn → Conn
unfolding reader_at
reader_step incoming c = reader_at c.reader incoming c

pub data Event : Type 0 where
  calls_write : Bytes → Option ℕ → ℕ → Event
  calls_read : ℕ → Event
  calls_close straddles_close : Event
  closer_runs : Event
  writer_runs : ℕ → Sending → Event
  reader_runs : Incoming → Event

unfoldable pub step : Conn → Event → Conn
step c (calls_write buff timeout now) = (write buff timeout now c).0
step c (calls_read id) = (read id c).0
step c calls_close = close c
step c straddles_close = straddle c
step c closer_runs = close_step c
step c (writer_runs now outcome) = writer_step now outcome c
step c (reader_runs incoming) = reader_step incoming c

unfoldable pub run : Conn → List Event → Conn
run c [] = c
run c (e ∷ es) = run (step c e) es
