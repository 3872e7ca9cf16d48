-- ===== src/Connection/Answered.antt =====
-- connection.py: every future that a caller of `read` was given is given something, in the end.
use summerrpc.Prelude.{
  ℕ, ◌+◌, sym, ◌∙◌, false, ◌≤◌, ◌≡◌, refl, Bool, true, Option, some, List, [], ◌∷◌, ◌++◌, arith,
  ltb, ◌==◌, ◌&&◌, length, Distinct, All, append-All, count, one_if, one_if_self, count-Distinct,
  if_cases, option_cases, option_split, list_cases,
}
use summerrpc.AtomicInteger.{AtomicInteger}
use summerrpc.Exceptions.{connection_abort_error, connection_write_timeout}
use summerrpc.Lru.Items.{find}
use summerrpc.Connection.{
  Bytes, Item, exception, Writer, holding, Conn, update_pending_writes, read, Reader, Reply, future,
  raised, received, no_heartbeat, reading, init, is_shut, same_id, max_heartbeats,
}
use summerrpc.Connection.Threads.{
  heartbeat, woken, precheck, send, send_outcome, writer_at, writer_step, reader_at, Incoming,
  message, failed, Sending, reader_step, take_heartbeat, Event, step, run, is_late, settle_write,
}
use summerrpc.Connection.Futures.{settled}
use summerrpc.Connection.Seals.{Sealed, step-Sealed, is_straddle}
use summerrpc.Connection.Waiting.{held, count-remove}
use summerrpc.Connection.Reads.{
  Kept, update-Kept, write-Kept, close-Kept, read-Kept, deliver-Kept, close_step-Kept, count-read,
}

-- No thread's check of `close` is cut by the end of another's `close`.
abbrev pub Undisturbed : List Event → Type 0
Undisturbed = All (λ e. is_straddle e ≡ false)

sealed : (c : Conn) (e : Event) → is_straddle e ≡ false → Sealed false c → Sealed false (step c e)
sealed c e u = step-Sealed false c e (λ m. sym u ∙ m)

module _ (f owed : ℕ) where
  abbrev Keeps : Conn → Type 0
  Keeps c = Kept f owed c

  heartbeat-Kept :
      (wake : Bool) (now : ℕ) (c : Conn) (buff : Bytes) (interval : ℕ)
      → Keeps c
      → Keeps (heartbeat wake now c buff interval)
  unfolding heartbeat
  heartbeat-Kept wake now c buff interval k =
      let u = update-Kept f owed buff (some interval) now c k in
      if_cases Keeps (ltb (length c.heartbeats) max_heartbeats)
        (option_cases Keeps (update_pending_writes buff (some interval) now c).1 u (λ a. u)) k

  writer_step-Kept :
      (now : ℕ) (outcome : Sending) (c : Conn) → Keeps c → Keeps (writer_step now outcome c)
  unfolding writer_step precheck woken send
  writer_step-Kept now outcome c k = go c.writer
    where
      on : (i : Item) (o : Sending) → Keeps (send_outcome i o c)
      on i Sending.done = k
      on i Sending.timed_out =
          close-Kept f owed (settle_write i.future (exception connection_write_timeout) c) k
      on i Sending.broken =
          close-Kept f owed (settle_write i.future (exception connection_abort_error) c) k

      go : (w : Writer) → Keeps (writer_at w now outcome c)
      go (Writer.checking missing wake) =
          if_cases Keeps missing (close-Kept f owed c k)
            (if_cases Keeps (is_shut c) k (list_cases Keeps c.pending_writes k (λ i is. k)))
      go (Writer.waiting wake) = if_cases Keeps (is_shut c) k (
          list_cases Keeps c.pending_writes
            (option_cases Keeps c.heartbeat_func k λ buff.
              option_cases Keeps c.heartbeat_interval k
                λ interval. heartbeat-Kept wake now c buff interval k)
            (λ i is. k))
      go (holding i) = if_cases Keeps (is_late i now) k (on i outcome)
      go Writer.gone = k

  reader_step-Kept : (incoming : Incoming) (c : Conn) → Keeps c → Keeps (reader_step incoming c)
  unfolding reader_step take_heartbeat
  reader_step-Kept incoming c k = go c.reader incoming
    where
      go : (r : Reader) (i : Incoming) → Keeps (reader_at r i c)
      go Reader.checking i =
          if_cases Keeps (is_shut c) k
            (if_cases Keeps (length c.pending_reads == 0 && length c.heartbeats == 0) k k)
      go Reader.waiting i = k
      go reading (message id buff) = k
      go reading failed = close-Kept f owed c k
      go (received id buff) i =
          if_cases Keeps (is_shut c) k
            (option_cases Keeps (find same_id id c.heartbeats) k (λ a. k))
      go (no_heartbeat id buff) i = deliver-Kept f owed id buff c k
      go Reader.gone i = k

  step-Kept :
      (c : Conn) (e : Event) → is_straddle e ≡ false → Sealed false c → Keeps c → Keeps (step c e)
  unfolding step
  step-Kept c (Event.calls_write buff timeout now) m s k = write-Kept f owed buff timeout now c k
  step-Kept c (Event.calls_read id) m s k = read-Kept f owed id c k
  step-Kept c Event.calls_close m s k = close-Kept f owed c k
  step-Kept c Event.straddles_close m s k = absurd (cc)
  step-Kept c Event.closer_runs m s k = close_step-Kept f owed c s k
  step-Kept c (Event.writer_runs now outcome) m s k = writer_step-Kept now outcome c k
  step-Kept c (Event.reader_runs incoming) m s k = reader_step-Kept incoming c k

  run-Kept :
      (c : Conn) (es : List Event) → Undisturbed es → Sealed false c → Keeps c → Keeps (run c es)
  unfolding run
  run-Kept c [] u s k = k
  run-Kept c (e ∷ es) u s k = run-Kept (step c e) es u.1 (sealed c e u.0 s) (step-Kept c e u.0 s k)

same_future : (f g : ℕ) → future g ≡ future f → one_if f g ≡ 1
same_future f g h = let e : g ≡ f = cc in rw e (one_if_self f)

-- The future that `read` returns is pending, or was given something.
read-counted :
    (f id : ℕ) (c : Conn)
    → Kept f 0 c
    → (read id c).1 ≡ future f
    → 1 ≤ count f (settled (read id c).0.read_log) + count f (held (read id c).0.pending_reads)
unfolding read
read-counted f id c k =
    let P : Conn × Reply → Type 0 =
      λ r. r.1 ≡ future f → 1 ≤ count f (settled r.0.read_log) + count f (held r.0.pending_reads) in
    if_cases P (is_shut c) (λ h. absurd (cc))
      (option_split P (find same_id id c.pooling_reads)
        (λ e.
          option_split P (find same_id id c.pending_reads)
            (λ e' h. omega (arith, count-read f 0 id c e', same_future f c.next_future h))
            (λ g e' h. omega (arith, same_future f g.1 h)))
        (λ g e h.
          omega (arith, k.from_pool, count-remove f id c.pooling_reads g e, same_future f g.1 h)))

-- The futures that an event's call of `read` returned.
abbrev returned : Reply → List ℕ
returned (future f) = f ∷ []
returned _ = []

unfoldable answered : Conn → Event → List ℕ
answered c (Event.calls_read id) = returned (read id c).1
answered c _ = []

unfoldable pub handed : Conn → List Event → List ℕ
unfolding answered
handed c [] = []
handed c (e ∷ es) = answered c e ++ handed (step c e) es

-- After the run, the future was given something exactly once.
abbrev Answered : Conn → ℕ → Type 0
Answered d f = count f (settled d.read_log) ≡ 1

run-Answered :
    (f : ℕ) (c : Conn) (es : List Event)
    → Undisturbed es
    → Sealed false c
    → Kept f 0 c
    → 1 ≤ count f (settled c.read_log) + count f (held c.pending_reads)
    → (run c es).closed ≡ true
    → Answered (run c es) f
run-Answered f c es u s k o e =
    let owed : Kept f 1 c = record {
      new = k.new;
      once = k.once;
      over = k.over;
      from_pool = k.from_pool;
      kept = o;
    } in
    let l = run-Kept f 1 c es u s owed in omega (arith, l.kept, (l.over e).0, (l.over e).1)

returned-Answered :
    (d : Conn) (r : Reply) → ((f : ℕ) → r ≡ future f → Answered d f) → All (Answered d) (returned r)
returned-Answered d (future f) h = (h f refl, tt)
returned-Answered d (raised e) h = tt
returned-Answered d (Reply.written id f) h = tt

answered-Answered :
    (c : Conn) (a : Event) (es : List Event)
    → Undisturbed es
    → Sealed false c
    → ((f : ℕ) → Kept f 0 c)
    → (run (step c a) es).closed ≡ true
    → All (Answered (run (step c a) es)) (answered c a)
unfolding answered step
answered-Answered c (Event.calls_read id) es u s k e =
    let d = (read id c).0 in
    returned-Answered (run d es) (read id c).1 λ f h.
      run-Answered f d es u (sealed c (Event.calls_read id) refl s) (read-Kept f 0 id c (k f))
        (read-counted f id c (k f) h) e
answered-Answered c (Event.calls_write buff timeout now) es u s k e = tt
answered-Answered c Event.calls_close es u s k e = tt
answered-Answered c Event.straddles_close es u s k e = tt
answered-Answered c Event.closer_runs es u s k e = tt
answered-Answered c (Event.writer_runs now outcome) es u s k e = tt
answered-Answered c (Event.reader_runs incoming) es u s k e = tt

handed-Answered :
    (c : Conn) (es : List Event)
    → Undisturbed es
    → Sealed false c
    → ((f : ℕ) → Kept f 0 c)
    → (run c es).closed ≡ true
    → All (Answered (run c es)) (handed c es)
unfolding handed run
handed-Answered c [] u s k e = tt
handed-Answered c (a ∷ es) u s k e =
    append-All (Answered (run (step c a) es)) (answered c a) (handed (step c a) es)
      (answered-Answered c a es u.1 s k e)
      (handed-Answered (step c a) es u.1 (sealed c a u.0 s) (λ f. step-Kept f 0 c a u.0 s (k f)) e)

-- In any interleaving on a new connection in which no thread's check of `close` straddles the end of
-- another's `close`, and which ends with the connection closed, every future that a call of `read`
-- returned was given something exactly once, and no future of a read was given something twice.
pub closed_reads_answered :
    (writes reads pooling write_timeout interval : Option ℕ) (func : Option Bytes)
    (ids : AtomicInteger) (es : List Event)
    → Undisturbed es
    → (run (init writes reads pooling write_timeout interval func ids) es).closed ≡ true
    → let c = init writes reads pooling write_timeout interval func ids in
      All (λ f. count f (settled (run c es).read_log) ≡ 1) (handed c es)
      × Distinct (settled (run c es).read_log)
unfolding init
closed_reads_answered writes reads pooling t interval func ids es u e =
    let c = init writes reads pooling t interval func ids in
    (
      handed-Answered c es u s k e,
      count-Distinct (settled (run c es).read_log) λ f. ((run-Kept f 0 c es u s (k f)).over e).0,
    )
  where
    s : Sealed false (init writes reads pooling t interval func ids)
    s = record { first = λ m. refl; shut = refl; ended = refl; empty = λ d. refl }

    k : (f : ℕ) → Kept f 0 (init writes reads pooling t interval func ids)
    k f = record {
      new = λ l. refl;
      once = λ h. omega arith;
      over = λ h. absurd (cc);
      from_pool = omega arith;
      kept = omega arith;
    }
