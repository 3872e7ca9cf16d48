-- ===== src/Connection/Writes.antt =====
-- connection.py: what closing a shared connection does to its pending writes.
use summerrpc.Prelude.{ℕ, suc, ◌≤◌, ◌≡◌, refl, sym, subst, true, false, [], arith}
use summerrpc.AtomicInteger.{AtomicInteger}
use summerrpc.Connection.{Item, Writer, holding, Conn, close, Closer}
use summerrpc.Connection.Threads.{
  woken, precheck, send, send_outcome, writer_at, writer_step, Sending,
}
use summerrpc.Connection.Futures.{in_hand}

-- A new connection.
abbrev pub IsNew : Conn → Type 0
IsNew c =
    (c.write_log ≡ [])
    × (c.pending_writes ≡ [])
    × (in_hand c.writer ≡ [])
    × (c.issued ≡ 0)
    × (c.closing ≡ false)
    × (c.closed ≡ false)
    × (c.closer ≡ Closer.idle)

-- How many steps the write thread of a closed connection still makes.
abbrev pub left : Writer → ℕ
left Writer.gone = 0
left (Writer.checking missing wake) = 1
left (Writer.waiting wake) = 2
left (holding i) = 2

unfoldable pub Closed : Conn → ℕ → Type 0
Closed c n = (c.closed ≡ true) × (left c.writer ≤ n)

pub Closed-writer_step :
    (now : ℕ) (outcome : Sending) (c : Conn) (n : ℕ)
    → Closed c (suc n)
    → Closed (writer_step now outcome c) n
unfolding Closed writer_step writer_at precheck woken send send_outcome close
Closed-writer_step now outcome c n (k, l) = go c.writer refl
  where
    go : (w : Writer) → c.writer ≡ w → Closed (writer_at w now outcome c) n
    go (Writer.checking missing wake) e = ground arith
    go (Writer.waiting wake) e =
        let l' : 2 ≤ suc n = subst (λ w. left w ≤ suc n) e l in ground (arith, l')
    go (holding i) e = let l' : 2 ≤ suc n = subst (λ w. left w ≤ suc n) e l in go_on i outcome l'
      where
        go_on : (i : Item) (o : Sending) → 2 ≤ suc n → Closed (send i now o c) n
        go_on i Sending.done l' = ground (arith, l')
        go_on i Sending.timed_out l' = ground (arith, l')
        go_on i Sending.broken l' = ground (arith, l')
    go Writer.gone e = (k, subst (λ w. left w ≤ n) (sym e) (omega arith))
