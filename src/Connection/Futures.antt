-- ===== src/Connection/Futures.antt =====
-- The future of every write, from the call to what it is given.
use summerrpc.Prelude.{
  true, ℕ, ◌+◌, ◌≡◌, refl, sym, subst, Bool, Option, some, List, [], ◌∷◌, ◌++◌, arith, ltb, ◌==◌,
  length, map, append_assoc, if_cases, option_cases, list_cases, list_split, ◌&&◌,
}
use summerrpc.Exceptions.{connection_abort_error, connection_write_timeout}
use summerrpc.Lru.Items.{find}
use summerrpc.Connection.{
  Bytes, Item, Settled, exception, Writer, holding, Conn, update_pending_writes, write, read, close,
  straddle, abort_all, close_step, close_at, Closer, result_id, Reader, Reply, received,
  no_heartbeat, reading, or_default, is_shut, same_id, max_heartbeats,
}
use summerrpc.Connection.Threads.{
  heartbeat, woken, precheck, send, send_outcome, writer_at, writer_step, reader_at, Incoming,
  message, failed, Sending, reader_step, take_heartbeat, deliver, Event, step, run, is_late,
  settle_write,
}
use summerrpc.Connection.Stocks.{Stock, Stock-weaken, Stock-insert, Stock-front}

abbrev pub settled : List (ℕ × Settled) → List ℕ
settled = map (λ e. e.0)

abbrev pub futures : List Item → List ℕ
futures = map (λ i. i.future)

abbrev pub in_hand : Writer → List ℕ
in_hand (holding i) = i.future ∷ []
in_hand _ = []

-- The futures of writes: those given something, the one in hand, and those pending.
abbrev pub stock : Conn → List ℕ
stock c = settled c.write_log ++ (in_hand c.writer ++ futures c.pending_writes)

abbrev pub Balanced : Conn → Type 0
Balanced c = Stock c.next_future c.issued (stock c)

update-Stock :
    (w : Writer) (buff : Bytes) (timeout : Option ℕ) (now : ℕ) (c : Conn)
    → Balanced (record c { writer = w })
    → Balanced (record ((update_pending_writes buff timeout now c).0) { writer = w })
unfolding update_pending_writes
update-Stock w buff timeout now c b =
    let xs = settled c.write_log in
    let ys = futures c.pending_writes in
    let h = in_hand w in
    let n = c.next_future in
    let k = c.issued in
    let b' = subst (Stock n k) (sym (append_assoc xs h ys)) b in
    if_cases (λ (r : Conn × Option (ℕ × ℕ)). Balanced (record (r.0) { writer = w }))
      (ltb (length c.pending_writes) c.max_pending_writes)
      (subst (Stock (n + 1) (k + 1)) (append_assoc xs h (n ∷ ys))
        (Stock-insert n k (xs ++ h) ys b'))
      (Stock-weaken n k (xs ++ (h ++ ys)) b)

update-writer :
    (buff : Bytes) (timeout : Option ℕ) (now : ℕ) (c : Conn)
    → (update_pending_writes buff timeout now c).0.writer ≡ c.writer
unfolding update_pending_writes
update-writer buff timeout now c = ground arith

update-Balanced :
    (buff : Bytes) (timeout : Option ℕ) (now : ℕ) (c : Conn)
    → Balanced c
    → Balanced (update_pending_writes buff timeout now c).0
update-Balanced buff timeout now c b =
    let d = (update_pending_writes buff timeout now c).0 in
    subst (λ w. Balanced (record d { writer = w })) (sym (update-writer buff timeout now c))
      (update-Stock c.writer buff timeout now c b)

settle-Balanced :
    (n k : ℕ) (log : List (ℕ × Settled)) (f : ℕ) (s : Settled) (items : List Item)
    → Stock n k (settled log ++ ((f ∷ []) ++ futures items))
    → Stock n k (settled ((f, s) ∷ log) ++ futures items)
settle-Balanced n k log f s items b = Stock-front n k (settled log) f (futures items) b

abort-Balanced :
    (n k : ℕ) (hand : List ℕ) (items : List Item) (log : List (ℕ × Settled))
    → Stock n k (settled log ++ (hand ++ futures items))
    → Stock n k (settled (abort_all items log) ++ (hand ++ []))
unfolding abort_all
abort-Balanced n k hand [] log b = b
abort-Balanced n k hand (i ∷ is) log b =
    let xs = settled log in
    let ys = futures is in
    let b' = subst (Stock n k) (sym (append_assoc xs hand (i.future ∷ ys))) b in
    let moved = Stock-front n k (xs ++ hand) i.future ys b' in
    abort-Balanced n k hand is ((i.future, exception connection_abort_error) ∷ log)
      (subst (λ t. Stock n k (i.future ∷ t)) (append_assoc xs hand ys) moved)

write-Balanced :
    (buff : Bytes) (timeout : Option ℕ) (now : ℕ) (c : Conn)
    → Balanced c
    → Balanced (write buff timeout now c).0
unfolding write
write-Balanced buff timeout now c b =
    let t = or_default timeout c.write_timeout in
    let u = update-Balanced buff t now c b in
    if_cases (λ (r : Conn × Reply). Balanced r.0) (is_shut c) b
      (option_cases (λ (r : Conn × Reply). Balanced r.0) (update_pending_writes buff t now c).1 u
        (λ a. u))

read-Balanced : (id : ℕ) (c : Conn) → Balanced c → Balanced (read id c).0
unfolding read
read-Balanced id c b =
    let w = Stock-weaken c.next_future c.issued (stock c) b in
    if_cases (λ (r : Conn × Reply). Balanced r.0) (is_shut c) b
      (option_cases (λ (r : Conn × Reply). Balanced r.0) (find same_id id c.pooling_reads)
        (option_cases (λ (r : Conn × Reply). Balanced r.0) (find same_id id c.pending_reads) w
          (λ a. b))
        (λ a. b))

close-Balanced : (c : Conn) → Balanced c → Balanced (close c)
unfolding close
close-Balanced c b = if_cases Balanced (is_shut c) b b

close_step-Balanced : (c : Conn) → Balanced c → Balanced (close_step c)
unfolding close_step
close_step-Balanced c b = go c.closer
  where
    go : (k : Closer) → Balanced (close_at k c)
    go Closer.idle = b
    go Closer.at_socket = b
    go Closer.at_writes =
        abort-Balanced c.next_future c.issued (in_hand c.writer) c.pending_writes c.write_log b
    go Closer.at_reads = b
    go Closer.finished = b
    go Closer.again_at_socket = b
    go Closer.again_at_writes =
        abort-Balanced c.next_future c.issued (in_hand c.writer) c.pending_writes c.write_log b
    go Closer.again_at_reads = b

straddle-Balanced : (c : Conn) → Balanced c → Balanced (straddle c)
unfolding straddle
straddle-Balanced c b = go c.closer
  where
    go :
        (k : Closer)
        → Balanced (elim k [
          | Closer.finished ↦ record c { closing = true; closer = Closer.again_at_socket }
          | _ ↦ c
        ])
    go Closer.finished = b
    go Closer.idle = b
    go Closer.at_socket = b
    go Closer.at_writes = b
    go Closer.at_reads = b
    go Closer.again_at_socket = b
    go Closer.again_at_writes = b
    go Closer.again_at_reads = b

-- The write thread with nothing in hand.
abbrev Idle : Conn → Type 0
Idle c = Balanced (record c { writer = Writer.gone })

heartbeat-Balanced :
    (wake : Bool) (now : ℕ) (c : Conn) (buff : Bytes) (interval : ℕ)
    → Idle c
    → Balanced (heartbeat wake now c buff interval)
unfolding heartbeat
heartbeat-Balanced wake now c buff interval b =
    let u = update-Stock Writer.gone buff (some interval) now c b in
    if_cases Balanced (ltb (length c.heartbeats) max_heartbeats)
      (option_cases Balanced (update_pending_writes buff (some interval) now c).1 u (λ a. u)) b

woken-Balanced : (wake : Bool) (now : ℕ) (c : Conn) → Idle c → Balanced (woken wake now c)
unfolding woken
woken-Balanced wake now c b = if_cases Balanced (is_shut c) b (
    list_cases Balanced c.pending_writes
      (option_cases Balanced c.heartbeat_func b
        λ buff. option_cases Balanced c.heartbeat_interval b λ interval. beat buff interval)
      (λ i is. b))
  where
    beat : (buff : Bytes) (interval : ℕ) → Balanced (heartbeat wake now c buff interval)
    beat buff interval = heartbeat-Balanced wake now c buff interval b

precheck-Balanced : (missing : Bool) (c : Conn) → Idle c → Balanced (precheck missing c)
unfolding precheck close
precheck-Balanced missing c b =
    if_cases Balanced missing
      (if_cases (λ d. Balanced (record d { writer = Writer.gone })) (is_shut c) b b)
      (if_cases Balanced (is_shut c) b (
        list_split Balanced c.pending_writes (λ e. b)
          λ i is e.
            subst (λ is'. Stock c.next_future c.issued (settled c.write_log ++ futures is')) e b))

send-Balanced :
    (i : Item) (now : ℕ) (outcome : Sending) (c : Conn)
    → Balanced (record c { writer = holding i })
    → Balanced (send i now outcome c)
unfolding send close
send-Balanced i now outcome c b =
    if_cases Balanced (is_late i now) (gave (exception connection_write_timeout)) (go outcome)
  where
    gave : (s : Settled) → Idle (settle_write i.future s c)
    gave s = settle-Balanced c.next_future c.issued c.write_log i.future s c.pending_writes b

    shut : (d : Conn) → Idle d → Idle (close d)
    shut d h = if_cases Idle (is_shut d) h h

    go : (o : Sending) → Balanced (send_outcome i o c)
    go Sending.done = gave (result_id i.transaction_id)
    go Sending.timed_out =
        shut (settle_write i.future (exception connection_write_timeout) c)
          (gave (exception connection_write_timeout))
    go Sending.broken =
        shut (settle_write i.future (exception connection_abort_error) c)
          (gave (exception connection_abort_error))

writer_step-Balanced :
    (now : ℕ) (outcome : Sending) (c : Conn) → Balanced c → Balanced (writer_step now outcome c)
unfolding writer_step
writer_step-Balanced now outcome c b = go c.writer refl
  where
    go : (w : Writer) → c.writer ≡ w → Balanced (writer_at w now outcome c)
    go (Writer.checking missing wake) e =
        precheck-Balanced missing c (subst (λ w. Balanced (record c { writer = w })) e b)
    go (Writer.waiting wake) e =
        woken-Balanced wake now c (subst (λ w. Balanced (record c { writer = w })) e b)
    go (holding i) e =
        send-Balanced i now outcome c (subst (λ w. Balanced (record c { writer = w })) e b)
    go Writer.gone e = b

reader_step-Balanced :
    (incoming : Incoming) (c : Conn) → Balanced c → Balanced (reader_step incoming c)
unfolding reader_step take_heartbeat deliver
reader_step-Balanced incoming c b = go c.reader incoming
  where
    more : Stock (c.next_future + 1) c.issued (stock c)
    more = Stock-weaken c.next_future c.issued (stock c) b

    go : (r : Reader) (incoming : Incoming) → Balanced (reader_at r incoming c)
    go Reader.checking i =
        if_cases Balanced (is_shut c) b
          (if_cases Balanced (length c.pending_reads == 0 && length c.heartbeats == 0) b b)
    go Reader.waiting i = b
    go reading (message id buff) = b
    go reading failed = if_cases (λ d. Balanced (record d { reader = Reader.gone })) (is_shut c) b b
    go (received id buff) i =
        if_cases Balanced (is_shut c) b
          (option_cases Balanced (find same_id id c.heartbeats) b (λ a. b))
    go (no_heartbeat id buff) i =
        if_cases Balanced (is_shut c) b
          (option_cases Balanced (find same_id id c.pending_reads) more (λ a. b))
    go Reader.gone i = b

step-Balanced : (c : Conn) (e : Event) → Balanced c → Balanced (step c e)
unfolding step
step-Balanced c (Event.calls_write buff timeout now) b = write-Balanced buff timeout now c b
step-Balanced c (Event.calls_read id) b = read-Balanced id c b
step-Balanced c Event.calls_close b = close-Balanced c b
step-Balanced c Event.straddles_close b = straddle-Balanced c b
step-Balanced c Event.closer_runs b = close_step-Balanced c b
step-Balanced c (Event.writer_runs now outcome) b = writer_step-Balanced now outcome c b
step-Balanced c (Event.reader_runs incoming) b = reader_step-Balanced incoming c b

-- For any connection: when the futures made for writes are exactly those in the log of writes,
-- the one in the write thread's hand and those still pending, and no future is among these twice,
-- then so it is after any interleaving.
pub run-Balanced : (c : Conn) (es : List Event) → Balanced c → Balanced (run c es)
unfolding run
run-Balanced c [] b = b
run-Balanced c (e ∷ es) b = run-Balanced (step c e) es (step-Balanced c e b)
