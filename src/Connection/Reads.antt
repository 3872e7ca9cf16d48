-- ===== src/Connection/Reads.antt =====
-- connection.py: the futures that `read` gives its callers, and what becomes of them.
use summerrpc.Prelude.{
  ℕ, ◌+◌, ◌≤◌, ◌≡◌, refl, Bool, true, false, Option, none, some, List, ◌∷◌, arith, reverse, ltb,
  length, count, one_if, if_cases, if_split, option_cases, option_split,
}
use summerrpc.Exceptions.{max_pending_reads_reached_error}
use summerrpc.Lru.Items.{find, remove, put, kicked_out}
use summerrpc.Connection.{
  Bytes, Settled, abort_reads, exception, Conn, update_pending_writes, write, read, close,
  close_step, close_at, Closer, Reply, or_default, is_shut, same_id,
}
use summerrpc.Connection.Threads.{deliver}
use summerrpc.Connection.Futures.{settled}
use summerrpc.Connection.Seals.{Seal, Sealed}
use summerrpc.Connection.Waiting.{
  held, one_of, count-remove, count-remove_le, count-put, count-put_le, count-abort_reads,
  count-reverse,
}

-- For a future `f`: how often it was given something, how often a read waits for it, and how often
-- the pool holds it. It is `owed` when a caller has it.
module _ (f owed : ℕ) where
  pub record Ledger (next given waiting pooled : ℕ) (closed : Bool) : Type 0 where
    pub new : next ≤ f → given + waiting ≡ 0
    pub once : closed ≡ false → given + waiting ≤ 1
    pub over : closed ≡ true → (given ≤ 1) × (waiting ≤ given)
    pub from_pool : pooled ≤ given
    pub kept : owed ≤ given + waiting

  abbrev pub Kept : Conn → Type 0
  Kept c =
      Ledger c.next_future (count f (settled c.read_log)) (count f (held c.pending_reads))
        (count f (held c.pooling_reads)) c.closed

  Ledger-weaken :
      (n given waiting pooled : ℕ) (closed : Bool)
      → Ledger n given waiting pooled closed
      → Ledger (n + 1) given waiting pooled closed
  Ledger-weaken n given waiting pooled closed k = record {
    new = λ l. k.new (omega (arith, l));
    once = k.once;
    over = k.over;
    from_pool = k.from_pool;
    kept = k.kept;
  }

  Kept-weaken : (c : Conn) → Kept c → Kept (record c { next_future = c.next_future + 1 })
  Kept-weaken c k =
      Ledger-weaken c.next_future (count f (settled c.read_log)) (count f (held c.pending_reads))
        (count f (held c.pooling_reads)) c.closed k

  pub update-Kept :
      (buff : Bytes) (timeout : Option ℕ) (now : ℕ) (c : Conn)
      → Kept c
      → Kept (update_pending_writes buff timeout now c).0
  unfolding update_pending_writes
  update-Kept buff timeout now c k =
      if_cases (λ (r : Conn × Option (ℕ × ℕ)). Kept r.0)
        (ltb (length c.pending_writes) c.max_pending_writes) (Kept-weaken c k) (Kept-weaken c k)

  pub write-Kept :
      (buff : Bytes) (timeout : Option ℕ) (now : ℕ) (c : Conn)
      → Kept c
      → Kept (write buff timeout now c).0
  unfolding write
  write-Kept buff timeout now c k =
      let t = or_default timeout c.write_timeout in
      let u = update-Kept buff t now c k in
      if_cases (λ (r : Conn × Reply). Kept r.0) (is_shut c) k
        (option_cases (λ (r : Conn × Reply). Kept r.0) (update_pending_writes buff t now c).1 u
          (λ a. u))

  pub close-Kept : (c : Conn) → Kept c → Kept (close c)
  unfolding close
  close-Kept c k = if_cases Kept (is_shut c) k k

  -- The flag `_closed` of a live connection is not set.
  live_open : (c : Conn) → is_shut c ≡ false → c.closed ≡ false
  live_open c live = ground (arith, live)

  -- Futures move between the log, the reads and the pool.
  Ledger-move :
      (n given waiting pooled given' waiting' pooled' : ℕ) (closed : Bool)
      → closed ≡ false
      → given' + waiting' ≡ given + waiting
      → pooled' ≤ given'
      → Ledger n given waiting pooled closed
      → Ledger n given' waiting' pooled' closed
  Ledger-move n given waiting pooled given' waiting' pooled' closed live e p k = record {
    new = λ l. omega (arith, e, k.new l);
    once = λ h. omega (arith, e, k.once h);
    over = λ h. absurd (cc);
    from_pool = p;
    kept = omega (arith, e, k.kept);
  }

  -- A new future joins.
  Ledger-join :
      (n given waiting pooled given' waiting' pooled' : ℕ) (closed : Bool)
      → closed ≡ false
      → given' + waiting' ≡ one_if f n + (given + waiting)
      → pooled' ≤ given'
      → Ledger n given waiting pooled closed
      → Ledger (n + 1) given' waiting' pooled' closed
  Ledger-join n given waiting pooled given' waiting' pooled' closed live e p k = record {
    new = λ l. (let z : given + waiting ≡ 0 = k.new (omega (arith, l)) in ground (arith, e, z, l));
    once = λ h. once_more (k.once h) k.new;
    over = λ h. absurd (cc);
    from_pool = p;
    kept = omega (arith, e, k.kept);
  }
    where
      once_more : given + waiting ≤ 1 → (n ≤ f → given + waiting ≡ 0) → given' + waiting' ≤ 1
      once_more o z = ground (arith, e, o, z)

  -- What the entry that is driven out is given.
  abbrev pub evicted : Option (ℕ × ℕ) → List (ℕ × Settled) → List (ℕ × Settled)
  evicted o log = elim o [
    | none ↦ log
    | some (_, old) ↦ (old, exception max_pending_reads_reached_error) ∷ log
  ]

  count-evicted :
      (o : Option (ℕ × ℕ)) (log : List (ℕ × Settled))
      → count f (settled (evicted o log)) ≡ one_of f o + count f (settled log)
  count-evicted none log = omega arith
  count-evicted (some e) log = refl

  -- `read` makes a new future.
  pub count-read :
      (id : ℕ) (c : Conn)
      → find same_id id c.pending_reads ≡ none
      → count f (settled (evicted (kicked_out c.max_pending_reads c.pending_reads) c.read_log))
          + count f (held (put same_id c.max_pending_reads id c.next_future c.pending_reads))
        ≡ one_if f c.next_future + (count f (settled c.read_log) + count f (held c.pending_reads))
  count-read id c h = omega (
    arith,
    count-put f c.max_pending_reads id c.next_future c.pending_reads h,
    count-evicted (kicked_out c.max_pending_reads c.pending_reads) c.read_log,
  )

  pub read-Kept : (id : ℕ) (c : Conn) → Kept c → Kept (read id c).0
  unfolding read
  read-Kept id c k =
      let n = c.next_future in
      let given = count f (settled c.read_log) in
      let waiting = count f (held c.pending_reads) in
      let pooled = count f (held c.pooling_reads) in
      let P : Conn × Reply → Type 0 = λ r. Kept r.0 in
      if_split P (is_shut c) (λ e. k)
        λ live.
          option_split P (find same_id id c.pooling_reads)
            (λ e.
              option_split P (find same_id id c.pending_reads)
                (λ h.
                  let log = evicted (kicked_out c.max_pending_reads c.pending_reads) c.read_log in
                  Ledger-join n given waiting pooled (count f (settled log))
                    (count f (held (put same_id c.max_pending_reads id n c.pending_reads))) pooled
                    c.closed (live_open c live) (count-read id c h)
                    (omega (
                      arith,
                      k.from_pool,
                      count-evicted (kicked_out c.max_pending_reads c.pending_reads) c.read_log,
                    ))
                    k)
                (λ g h.
                  Ledger-move n given waiting pooled given
                    (one_if f g.1 + count f (held (remove same_id id c.pending_reads))) pooled
                    c.closed (live_open c live)
                    (omega (arith, count-remove f id c.pending_reads g h)) k.from_pool k))
            (λ g h.
              Ledger-move n given waiting pooled given waiting
                (count f (held (remove same_id id c.pooling_reads))) c.closed (live_open c live)
                refl (omega (arith, k.from_pool, count-remove_le f id c.pooling_reads)) k)

  pub deliver-Kept : (id : ℕ) (buff : Bytes) (c : Conn) → Kept c → Kept (deliver id buff c)
  unfolding deliver
  deliver-Kept id buff c k =
      let n = c.next_future in
      let given = count f (settled c.read_log) in
      let waiting = count f (held c.pending_reads) in
      let pooled = count f (held c.pooling_reads) in
      if_split Kept (is_shut c) (λ e. k)
        λ live.
          option_split Kept (find same_id id c.pending_reads)
            (λ h.
              Ledger-join n given waiting pooled (one_if f n + given) waiting
                (count f (held (put same_id c.max_pooling_reads id n c.pooling_reads))) c.closed
                (live_open c live) (omega arith)
                (omega
                  (arith, k.from_pool, count-put_le f c.max_pooling_reads id n c.pooling_reads))
                k)
            (λ g h.
              Ledger-move n given waiting pooled (one_if f g.1 + given)
                (count f (held (remove same_id id c.pending_reads))) pooled c.closed
                (live_open c live) (omega (arith, count-remove f id c.pending_reads g h))
                (omega (arith, k.from_pool)) k)

  pub close_step-Kept : (c : Conn) → Sealed false c → Kept c → Kept (close_step c)
  unfolding close_step
  close_step-Kept c s k = go c.closer s
    where
      given : ℕ
      given = count f (settled c.read_log)

      waiting : ℕ
      waiting = count f (held c.pending_reads)

      go : (x : Closer) → Seal false c.closing c.closed x c.pending_writes → Kept (close_at x c)
      go Closer.idle t = k
      go Closer.at_socket t = k
      go Closer.at_writes t = k
      go Closer.at_reads t =
          let more : count f (settled (abort_reads (reverse c.pending_reads) c.read_log))
              ≡ waiting + given =
            omega (
              arith,
              count-abort_reads f (reverse c.pending_reads) c.read_log,
              count-reverse f c.pending_reads,
            ) in
          record {
            new = λ l. omega (arith, more, k.new l);
            once = λ h. absurd (cc);
            over = λ h. (omega (arith, more, k.once t.ended), omega (arith, more));
            from_pool = omega arith;
            kept = omega (arith, more, k.kept);
          }
      go Closer.finished t = k
      go Closer.again_at_socket t = absurd (let m = t.first refl in cc)
      go Closer.again_at_writes t = absurd (let m = t.first refl in cc)
      go Closer.again_at_reads t = absurd (let m = t.first refl in cc)
