-- ===== src/Sockets/Closing.antt =====
-- helper/socket_util.py: `BaseSocket.close`, called by any number of threads. What a thread does
-- between two points where another can run is one step.
use summerrpc.Prelude.{
  ℕ, suc, Bool, true, false, Option, none, some, List, [], ◌∷◌, ◌==◌, if◌then◌else◌, not, ◌||◌,
}

-- Where a call of `close` stands: before its checks; behind them, without the lock; with the lock;
-- after `socket.close()`; or back.
pub data At : Type 0 where
  outside passed inside ending back : At

pub record Socket : Type 0 where
  pub initialized : Bool
  pub closed : Bool
  -- How often `socket.close()` was called.
  pub closes : ℕ
  pub holder : Option ℕ
  pub at : ℕ → At

abbrev pub opened : Bool → Socket
opened initialized = record {
  initialized = initialized;
  closed = false;
  closes = 0;
  holder = none;
  at = λ _. outside;
}

abbrev pub moved : ℕ → At → Socket → Socket
moved i x s = record s { at = λ j. if j == i then x else s.at j }

-- One step of the call `i`; an IOError of `socket.close()` is swallowed.
unfoldable pub close_at : At → ℕ → Socket → Socket
close_at outside i s = if not s.initialized || s.closed then moved i back s else moved i passed s
close_at passed i s = elim s.holder [
  | none ↦ moved i inside (record s { holder = some i })
  | some j ↦ s
]
close_at inside i s =
    if s.closed
    then moved i back (record s { holder = none })
    else moved i ending (record s { closes = suc s.closes })
close_at ending i s = moved i back (record s { closed = true; holder = none })
close_at back i s = s

unfoldable pub step : Socket → ℕ → Socket
unfolding close_at
step s i = close_at (s.at i) i s

-- A schedule: whose turn it is.
unfoldable pub run : Socket → List ℕ → Socket
run s [] = s
run s (i ∷ is) = run (step s i) is
