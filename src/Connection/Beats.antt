-- ===== src/Connection/Beats.antt =====
-- connection.py: which futures the read thread gives the responses to heartbeats.
use summerrpc.Prelude.{
  ℕ, ◌≤◌, ◌≡◌, refl, subst, sym, Bool, Option, some, List, [], ◌∷◌, arith, ltb, leb, ◌==◌, ◌&&◌,
  length, if_cases, if_split, option_cases, list_cases, option_split, All, count, one_if_self, true,
}
use summerrpc.AtomicInteger.{}
use summerrpc.Exceptions.{connection_abort_error, connection_write_timeout}
use summerrpc.Lru.Items.{find, remove, put, drop_last}
use summerrpc.Connection.{
  Bytes, Item, exception, Writer, holding, Conn, update_pending_writes, write, read, close,
  straddle, Settled, close_step, close_at, Closer, Reader, Reply, received, no_heartbeat, reading,
  or_default, is_shut, same_id, max_heartbeats,
}
use summerrpc.Connection.Futures.{settled}
use summerrpc.Connection.Waiting.{held}
use summerrpc.Connection.Threads.{
  heartbeat, woken, precheck, send, send_outcome, writer_at, writer_step, reader_at, Incoming,
  message, failed, Sending, reader_step, take_heartbeat, deliver, Event, step, run, is_late,
  settle_write,
}

All-map : (P Q : ℕ → Type 0) → ((n : ℕ) → P n → Q n) → (xs : List ℕ) → All P xs → All Q xs
All-map P Q g [] h = tt
All-map P Q g (x ∷ xs) h = (g x h.0, All-map P Q g xs h.1)

-- Every future that waits for the response to a heartbeat, or was given one, is of a heartbeat.
pub record Own (beats : List ℕ) (waiting : List (ℕ × ℕ)) (log : List (ℕ × Settled)) : Type 0 where
  pub waits : All (λ f. 1 ≤ count f beats) (held waiting)
  pub given : All (λ f. 1 ≤ count f beats) (settled log)

abbrev pub OwnBeats : Conn → Type 0
OwnBeats c = Own c.beats c.heartbeats c.heartbeat_log

module _ (P : ℕ → Type 0) where
  All-remove : (id : ℕ) (es : List (ℕ × ℕ)) → All P (held es) → All P (held (remove same_id id es))
  All-remove id [] h = tt
  All-remove id (e ∷ es) h =
      if_cases (λ l. All P (held l)) (e.0 == id) h.1 (h.0, All-remove id es h.1)

  All-drop_last : (es : List (ℕ × ℕ)) → All P (held es) → All P (held (drop_last es))
  All-drop_last [] h = tt
  All-drop_last (e ∷ []) h = tt
  All-drop_last (e ∷ f ∷ es) h = (h.0, All-drop_last (f ∷ es) h.1)

  All-put :
      (cap id f : ℕ) (es : List (ℕ × ℕ))
      → P f
      → All P (held es)
      → All P (held (put same_id cap id f es))
  All-put cap id f es p h =
      option_cases (λ l. All P (held l)) (find same_id id es)
        (if_cases (λ l. All P (held l)) (leb cap (length es)) (p, All-drop_last es h) (p, h))
        (λ a. (p, All-remove id es h))

  All-find :
      (id : ℕ) (es : List (ℕ × ℕ)) (a : ℕ × ℕ)
      → find same_id id es ≡ some a
      → All P (held es)
      → P a.1
  All-find id [] a e h = absurd (cc)
  All-find id (x ∷ es) a e h =
      if_split (λ o. o ≡ some a → P a.1) (x.0 == id)
        (λ b q. let same : x ≡ a = cc in subst (λ y. P y.1) same h.0)
        (λ b q. All-find id es a q h.1) e

update-OwnBeats :
    (buff : Bytes) (timeout : Option ℕ) (now : ℕ) (c : Conn)
    → OwnBeats c
    → OwnBeats (update_pending_writes buff timeout now c).0
unfolding update_pending_writes
update-OwnBeats buff timeout now c h =
    if_cases (λ (r : Conn × Option (ℕ × ℕ)). OwnBeats r.0)
      (ltb (length c.pending_writes) c.max_pending_writes) h h

update-heartbeat_log :
    (buff : Bytes) (timeout : Option ℕ) (now : ℕ) (c : Conn)
    → (update_pending_writes buff timeout now c).0.heartbeat_log ≡ c.heartbeat_log
unfolding update_pending_writes
update-heartbeat_log buff timeout now c =
    if_cases (λ (r : Conn × Option (ℕ × ℕ)). r.0.heartbeat_log ≡ c.heartbeat_log)
      (ltb (length c.pending_writes) c.max_pending_writes) refl refl

-- One more future of a heartbeat.
one_more :
    (f : ℕ) (beats xs : List ℕ)
    → All (λ g. 1 ≤ count g beats) xs
    → All (λ g. 1 ≤ count g (f ∷ beats)) xs
one_more f beats xs =
    All-map (λ g. 1 ≤ count g beats) (λ g. 1 ≤ count g (f ∷ beats)) (λ g l. omega (arith, l)) xs

write-OwnBeats :
    (buff : Bytes) (timeout : Option ℕ) (now : ℕ) (c : Conn)
    → OwnBeats c
    → OwnBeats (write buff timeout now c).0
unfolding write
write-OwnBeats buff timeout now c h =
    let t = or_default timeout c.write_timeout in
    let u = update-OwnBeats buff t now c h in
    if_cases (λ (r : Conn × Reply). OwnBeats r.0) (is_shut c) h
      (option_cases (λ (r : Conn × Reply). OwnBeats r.0) (update_pending_writes buff t now c).1 u
        (λ a. u))

read-OwnBeats : (id : ℕ) (c : Conn) → OwnBeats c → OwnBeats (read id c).0
unfolding read
read-OwnBeats id c h =
    if_cases (λ (r : Conn × Reply). OwnBeats r.0) (is_shut c) h
      (option_cases (λ (r : Conn × Reply). OwnBeats r.0) (find same_id id c.pooling_reads)
        (option_cases (λ (r : Conn × Reply). OwnBeats r.0) (find same_id id c.pending_reads) h
          (λ a. h))
        (λ a. h))

close-OwnBeats : (c : Conn) → OwnBeats c → OwnBeats (close c)
unfolding close
close-OwnBeats c h = if_cases OwnBeats (is_shut c) h h

close_step-OwnBeats : (c : Conn) → OwnBeats c → OwnBeats (close_step c)
unfolding close_step close_at
close_step-OwnBeats c h = go c.closer
  where
    go : (k : Closer) → OwnBeats (close_at k c)
    go Closer.idle = h
    go Closer.at_socket = h
    go Closer.at_writes = h
    go Closer.at_reads = h
    go Closer.finished = h
    go Closer.again_at_socket = h
    go Closer.again_at_writes = h
    go Closer.again_at_reads = h

straddle-OwnBeats : (c : Conn) → OwnBeats c → OwnBeats (straddle c)
unfolding straddle
straddle-OwnBeats c h = go c.closer
  where
    go :
        (k : Closer)
        → OwnBeats (elim k [
          | Closer.finished ↦ record c { closing = true; closer = Closer.again_at_socket }
          | _ ↦ c
        ])
    go Closer.finished = h
    go Closer.idle = h
    go Closer.at_socket = h
    go Closer.at_writes = h
    go Closer.at_reads = h
    go Closer.again_at_socket = h
    go Closer.again_at_writes = h
    go Closer.again_at_reads = h

heartbeat-OwnBeats :
    (wake : Bool) (now : ℕ) (c : Conn) (buff : Bytes) (interval : ℕ)
    → OwnBeats c
    → OwnBeats (heartbeat wake now c buff interval)
unfolding heartbeat
heartbeat-OwnBeats wake now c buff interval h =
    let u = update-OwnBeats buff (some interval) now c h in
    if_cases OwnBeats (ltb (length c.heartbeats) max_heartbeats)
      (option_cases OwnBeats (update_pending_writes buff (some interval) now c).1 u (λ (id, f).
        record {
          waits =
              All-put (λ g. 1 ≤ count g (f ∷ c.beats)) max_heartbeats id f c.heartbeats
                (omega (arith, one_if_self f)) (one_more f c.beats (held c.heartbeats) h.waits);
          given =
              subst (λ l. All (λ g. 1 ≤ count g (f ∷ c.beats)) (settled l))
                (sym (update-heartbeat_log buff (some interval) now c))
                (one_more f c.beats (settled c.heartbeat_log) h.given);
        }))
      h

writer_step-OwnBeats :
    (now : ℕ) (outcome : Sending) (c : Conn) → OwnBeats c → OwnBeats (writer_step now outcome c)
unfolding writer_step writer_at precheck woken send send_outcome
writer_step-OwnBeats now outcome c h = go c.writer
  where
    on : (i : Item) (o : Sending) → OwnBeats (send_outcome i o c)
    on i Sending.done = h
    on i Sending.timed_out =
        close-OwnBeats (settle_write i.future (exception connection_write_timeout) c) h
    on i Sending.broken =
        close-OwnBeats (settle_write i.future (exception connection_abort_error) c) h

    go : (w : Writer) → OwnBeats (writer_at w now outcome c)
    go (Writer.checking missing wake) =
        if_cases OwnBeats missing (close-OwnBeats c h)
          (if_cases OwnBeats (is_shut c) h (list_cases OwnBeats c.pending_writes h (λ i is. h)))
    go (Writer.waiting wake) = if_cases OwnBeats (is_shut c) h (
        list_cases OwnBeats c.pending_writes
          (option_cases OwnBeats c.heartbeat_func h λ buff.
            option_cases OwnBeats c.heartbeat_interval h
              λ interval. heartbeat-OwnBeats wake now c buff interval h)
          (λ i is. h))
    go (holding i) = if_cases OwnBeats (is_late i now) h (on i outcome)
    go Writer.gone = h

reader_step-OwnBeats :
    (incoming : Incoming) (c : Conn) → OwnBeats c → OwnBeats (reader_step incoming c)
unfolding reader_step reader_at take_heartbeat deliver
reader_step-OwnBeats incoming c h = go c.reader incoming
  where
    go : (r : Reader) (i : Incoming) → OwnBeats (reader_at r i c)
    go Reader.checking i =
        if_cases OwnBeats (is_shut c) h
          (if_cases OwnBeats (length c.pending_reads == 0 && length c.heartbeats == 0) h h)
    go Reader.waiting i = h
    go reading (message id buff) = h
    go reading failed = close-OwnBeats c h
    go (received id buff) i = if_cases OwnBeats (is_shut c) h (
        option_split OwnBeats (find same_id id c.heartbeats) (λ e. h)
          (λ a e. record {
            waits = All-remove (λ f. 1 ≤ count f c.beats) id c.heartbeats h.waits;
            given = (All-find (λ f. 1 ≤ count f c.beats) id c.heartbeats a e h.waits, h.given);
          }))
    go (no_heartbeat id buff) i =
        if_cases OwnBeats (is_shut c) h
          (option_cases OwnBeats (find same_id id c.pending_reads) h (λ a. h))
    go Reader.gone i = h

step-OwnBeats : (c : Conn) (e : Event) → OwnBeats c → OwnBeats (step c e)
unfolding step
step-OwnBeats c (Event.calls_write buff timeout now) h = write-OwnBeats buff timeout now c h
step-OwnBeats c (Event.calls_read id) h = read-OwnBeats id c h
step-OwnBeats c Event.calls_close h = close-OwnBeats c h
step-OwnBeats c Event.straddles_close h = straddle-OwnBeats c h
step-OwnBeats c Event.closer_runs h = close_step-OwnBeats c h
step-OwnBeats c (Event.writer_runs now outcome) h = writer_step-OwnBeats now outcome c h
step-OwnBeats c (Event.reader_runs incoming) h = reader_step-OwnBeats incoming c h

pub run-OwnBeats : (c : Conn) (es : List Event) → OwnBeats c → OwnBeats (run c es)
unfolding run
run-OwnBeats c [] h = h
run-OwnBeats c (e ∷ es) h = run-OwnBeats (step c e) es (step-OwnBeats c e h)
