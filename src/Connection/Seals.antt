-- ===== src/Connection/Seals.antt =====
-- connection.py: where `close` stands, as the flags of a shared connection tell it.
use summerrpc.Prelude.{
  ℕ, ◌≡◌, refl, sym, ◌∙◌, Bool, true, false, Option, some, List, [], ◌∷◌, arith, ltb, ◌==◌, ◌||◌,
  ◌&&◌, length, All, if_cases, if_split, option_cases, list_cases,
}
use summerrpc.Exceptions.{connection_abort_error, connection_write_timeout}
use summerrpc.Lru.Items.{find}
use summerrpc.Connection.{
  Bytes, Item, exception, Writer, holding, Conn, update_pending_writes, write, read, close,
  straddle, close_step, close_at, Closer, Reader, Reply, received, no_heartbeat, reading,
  or_default, is_shut, same_id, max_heartbeats,
}
use summerrpc.Connection.Threads.{
  heartbeat, woken, precheck, send, send_outcome, writer_at, writer_step, reader_at, Incoming,
  message, failed, Sending, reader_step, take_heartbeat, deliver, Event, step, run, is_late,
  settle_write,
}

abbrev started : Closer → Bool
started Closer.idle = false
started _ = true

-- `_close_write` is over.
abbrev pub drained : Closer → Bool
drained Closer.at_reads = true
drained Closer.finished = true
drained Closer.again_at_socket = true
drained Closer.again_at_writes = true
drained Closer.again_at_reads = true
drained _ = false

abbrev pub is_finished : Closer → Bool
is_finished Closer.finished = true
is_finished Closer.again_at_socket = true
is_finished Closer.again_at_writes = true
is_finished Closer.again_at_reads = true
is_finished _ = false

-- A second thread is in `close`.
abbrev pub is_again : Closer → Bool
is_again Closer.again_at_socket = true
is_again Closer.again_at_writes = true
is_again Closer.again_at_reads = true
is_again _ = false

abbrev pub is_straddle : Event → Bool
is_straddle Event.straddles_close = true
is_straddle _ = false

-- The flags tell where `close` stands, and nothing is pending behind `_close_write`. No second thread
-- is in `close` unless `straddled` says that one may be.
pub record Seal (straddled closing closed : Bool) (k : Closer) (items : List Item) : Type 0 where
  pub first : straddled ≡ false → is_again k ≡ false
  pub shut : (closing || closed) ≡ started k
  pub ended : closed ≡ is_finished k
  pub empty : drained k ≡ true → items ≡ []

never : (k : Closer) → started k ≡ false → drained k ≡ true → ⊥
never Closer.idle e d = cc
never Closer.at_socket e d = cc
never Closer.at_writes e d = cc
never Closer.at_reads e d = cc
never Closer.finished e d = cc
never Closer.again_at_socket e d = cc
never Closer.again_at_writes e d = cc
never Closer.again_at_reads e d = cc

module _ (straddled : Bool) where
  abbrev pub Sealed : Conn → Type 0
  Sealed c = Seal straddled c.closing c.closed c.closer c.pending_writes

  update-Sealed :
      (buff : Bytes) (timeout : Option ℕ) (now : ℕ) (c : Conn)
      → is_shut c ≡ false
      → Sealed c
      → Sealed (update_pending_writes buff timeout now c).0
  unfolding update_pending_writes
  update-Sealed buff timeout now c live s =
      if_cases (λ (r : Conn × Option (ℕ × ℕ)). Sealed (r.0))
        (ltb (length c.pending_writes) c.max_pending_writes)
        (record {
          first = s.first;
          shut = s.shut;
          ended = s.ended;
          empty = λ d. absurd (never c.closer (sym s.shut ∙ live) d);
        })
        s

  write-Sealed :
      (buff : Bytes) (timeout : Option ℕ) (now : ℕ) (c : Conn)
      → Sealed c
      → Sealed (write buff timeout now c).0
  unfolding write
  write-Sealed buff timeout now c s =
      let t = or_default timeout c.write_timeout in
      if_split (λ (r : Conn × Reply). Sealed r.0) (is_shut c) (λ e. s)
        λ live.
          let u = update-Sealed buff t now c live s in
          option_cases (λ (r : Conn × Reply). Sealed r.0) (update_pending_writes buff t now c).1 u
            (λ a. u)

  read-Sealed : (id : ℕ) (c : Conn) → Sealed c → Sealed (read id c).0
  unfolding read
  read-Sealed id c s =
      if_cases (λ (r : Conn × Reply). Sealed r.0) (is_shut c) s
        (option_cases (λ (r : Conn × Reply). Sealed r.0) (find same_id id c.pooling_reads)
          (option_cases (λ (r : Conn × Reply). Sealed r.0) (find same_id id c.pending_reads) s
            (λ a. s))
          (λ a. s))

  close-Sealed : (c : Conn) → Sealed c → Sealed (close c)
  unfolding close
  close-Sealed c s =
      if_split Sealed (is_shut c) (λ e. s)
        λ live. record {
          first = λ m. refl;
          shut = refl;
          ended = ground arith;
          empty = λ d. absurd (cc);
        }

  close_step-Sealed : (c : Conn) → Sealed c → Sealed (close_step c)
  unfolding close_step
  close_step-Sealed c s = go c.closer s
    where
      go :
          (k : Closer)
          → Seal straddled c.closing c.closed k c.pending_writes
          → Sealed (close_at k c)
      go Closer.idle t = s
      go Closer.at_socket t = record {
        first = λ m. refl;
        shut = t.shut;
        ended = t.ended;
        empty = λ d. cc;
      }
      go Closer.at_writes t = record {
        first = λ m. refl;
        shut = t.shut;
        ended = t.ended;
        empty = λ d. refl;
      }
      go Closer.at_reads t = record {
        first = λ m. refl;
        shut = refl;
        ended = refl;
        empty = λ d. t.empty refl;
      }
      go Closer.finished t = s
      go Closer.again_at_socket t = record {
        first = t.first;
        shut = t.shut;
        ended = t.ended;
        empty = λ d. t.empty refl;
      }
      go Closer.again_at_writes t = record {
        first = t.first;
        shut = t.shut;
        ended = t.ended;
        empty = λ d. refl;
      }
      go Closer.again_at_reads t = record {
        first = λ m. refl;
        shut = refl;
        ended = refl;
        empty = λ d. t.empty refl;
      }

  straddle-Sealed : (c : Conn) → straddled ≡ true → Sealed c → Sealed (straddle c)
  unfolding straddle
  straddle-Sealed c may s = go c.closer s
    where
      go :
          (k : Closer)
          → Seal straddled c.closing c.closed k c.pending_writes
          → Sealed (elim k [
            | Closer.finished ↦ record c { closing = true; closer = Closer.again_at_socket }
            | _ ↦ c
          ])
      go Closer.finished t = record {
        first = λ m. absurd (cc);
        shut = refl;
        ended = t.ended;
        empty = λ d. t.empty refl;
      }
      go Closer.idle t = s
      go Closer.at_socket t = s
      go Closer.at_writes t = s
      go Closer.at_reads t = s
      go Closer.again_at_socket t = s
      go Closer.again_at_writes t = s
      go Closer.again_at_reads t = s

  heartbeat-Sealed :
      (wake : Bool) (now : ℕ) (c : Conn) (buff : Bytes) (interval : ℕ)
      → is_shut c ≡ false
      → Sealed c
      → Sealed (heartbeat wake now c buff interval)
  unfolding heartbeat
  heartbeat-Sealed wake now c buff interval live s =
      let u = update-Sealed buff (some interval) now c live s in
      if_cases Sealed (ltb (length c.heartbeats) max_heartbeats)
        (option_cases Sealed (update_pending_writes buff (some interval) now c).1 u (λ a. u)) s

  writer_step-Sealed :
      (now : ℕ) (outcome : Sending) (c : Conn) → Sealed c → Sealed (writer_step now outcome c)
  unfolding writer_step precheck woken send
  writer_step-Sealed now outcome c s = go c.writer
    where
      shut : (d : Conn) → Sealed d → Sealed (close d)
      shut d t = close-Sealed d t

      on : (i : Item) (o : Sending) → Sealed (send_outcome i o c)
      on i Sending.done = s
      on i Sending.timed_out = shut (settle_write i.future (exception connection_write_timeout) c) s
      on i Sending.broken = shut (settle_write i.future (exception connection_abort_error) c) s

      go : (w : Writer) → Sealed (writer_at w now outcome c)
      go (Writer.checking missing wake) = if_cases Sealed missing (shut c s) (
          if_split Sealed (is_shut c) (λ e. s)
            λ live. list_cases Sealed c.pending_writes s λ i is. record {
              first = s.first;
              shut = s.shut;
              ended = s.ended;
              empty = λ d. absurd (never c.closer (sym s.shut ∙ live) d);
            })
      go (Writer.waiting wake) =
          if_split Sealed (is_shut c) (λ e. s)
            λ live.
              list_cases Sealed c.pending_writes
                (option_cases Sealed c.heartbeat_func s λ buff.
                  option_cases Sealed c.heartbeat_interval s
                    λ interval. heartbeat-Sealed wake now c buff interval live s)
                (λ i is. s)
      go (holding i) = if_cases Sealed (is_late i now) s (on i outcome)
      go Writer.gone = s

  reader_step-Sealed : (incoming : Incoming) (c : Conn) → Sealed c → Sealed (reader_step incoming c)
  unfolding reader_step take_heartbeat deliver
  reader_step-Sealed incoming c s = go c.reader incoming
    where
      go : (r : Reader) (i : Incoming) → Sealed (reader_at r i c)
      go Reader.checking i =
          if_cases Sealed (is_shut c) s
            (if_cases Sealed (length c.pending_reads == 0 && length c.heartbeats == 0) s s)
      go Reader.waiting i = s
      go reading (message id buff) = s
      go reading failed = close-Sealed c s
      go (received id buff) i =
          if_cases Sealed (is_shut c) s
            (option_cases Sealed (find same_id id c.heartbeats) s (λ a. s))
      go (no_heartbeat id buff) i =
          if_cases Sealed (is_shut c) s
            (option_cases Sealed (find same_id id c.pending_reads) s (λ a. s))
      go Reader.gone i = s

  pub step-Sealed :
      (c : Conn) (e : Event)
      → (is_straddle e ≡ true → straddled ≡ true)
      → Sealed c
      → Sealed (step c e)
  unfolding step
  step-Sealed c (Event.calls_write buff timeout now) m s = write-Sealed buff timeout now c s
  step-Sealed c (Event.calls_read id) m s = read-Sealed id c s
  step-Sealed c Event.calls_close m s = close-Sealed c s
  step-Sealed c Event.straddles_close m s = straddle-Sealed c (m refl) s
  step-Sealed c Event.closer_runs m s = close_step-Sealed c s
  step-Sealed c (Event.writer_runs now outcome) m s = writer_step-Sealed now outcome c s
  step-Sealed c (Event.reader_runs incoming) m s = reader_step-Sealed incoming c s

  pub run-Sealed :
      (c : Conn) (es : List Event)
      → All (λ e. is_straddle e ≡ true → straddled ≡ true) es
      → Sealed c
      → Sealed (run c es)
  unfolding run
  run-Sealed c [] m s = s
  run-Sealed c (e ∷ es) m s = run-Sealed (step c e) es m.1 (step-Sealed c e m.0 s)
