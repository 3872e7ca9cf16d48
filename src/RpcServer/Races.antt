-- ===== src/RpcServer/Races.antt =====
-- rpc_server.py: `start` and `close` of `RpcServer`, called by any number of threads. A thread's step
-- is what it does between two points where another can run; the pools and the registry are in
-- RpcServer/Lifecycle.
use summerrpc.Prelude.{
  ℕ, Bool, true, false, Option, none, some, List, [], ◌∷◌, ◌==◌, if◌then◌else◌, not, ◌||◌, ◌&&◌,
}

-- Where a thread stands. In `start`: before the first check, before the lock, with the lock, making
-- the pools and registering until the loop has called `change_status`, and in the loop. In `close`, to
-- which a start goes on when its loop ends: before the first check, before the lock, with the lock,
-- and releasing what the server has. Or it is back.
pub data At : Type 0 where
  starting locking_start checking_start preparing looping : At
  closing locking_close checking_close releasing back : At

pub record Server : Type 0 where
  pub is_started : Bool
  pub is_starting : Bool
  pub is_closed : Bool
  pub is_closing : Bool
  pub holder : Option ℕ
  pub at : ℕ → At

-- A new server; the function says which threads are going to start it and which to close it.
abbrev pub init : (ℕ → Bool) → Server
init starts = record {
  is_started = false;
  is_starting = false;
  is_closed = false;
  is_closing = false;
  holder = none;
  at = λ i. if starts i then starting else closing;
}

abbrev pub can_start : Server → Bool
can_start s = not (s.is_starting || (s.is_started || s.is_closing))

abbrev pub can_close : Server → Bool
can_close s = s.is_started && not (s.is_starting || (s.is_closing || s.is_closed))

abbrev pub moved : ℕ → At → Server → Server
moved i x s = record s { at = λ j. if j == i then x else s.at j }

abbrev pub freed : Server → Server
freed s = record s { holder = none }

-- A turn of the thread `i`; the flag says whether registering works, which leaves the start if it
-- does not.
unfoldable pub step_at : At → Bool → ℕ → Server → Server
step_at starting works i s = if can_start s then moved i locking_start s else moved i back s
step_at locking_start works i s = elim s.holder [
  | none ↦ moved i checking_start (record s { holder = some i })
  | some j ↦ s
]
step_at checking_start works i s =
    if can_start s
    then moved i preparing
        (freed (record s { is_starting = true; is_started = false; is_closed = false }))
    else moved i back (freed s)
step_at preparing works i s =
    if works
    then moved i looping (record s { is_started = true; is_starting = false })
    else moved i back s
step_at looping works i s = moved i closing s
step_at closing works i s = if can_close s then moved i locking_close s else moved i back s
step_at locking_close works i s = elim s.holder [
  | none ↦ moved i checking_close (record s { holder = some i })
  | some j ↦ s
]
step_at checking_close works i s =
    if can_close s
    then moved i releasing (record s { is_closing = true; is_closed = false })
    else moved i back (freed s)
step_at releasing works i s = moved i back (
    freed
      (record s { is_closed = true; is_closing = false; is_started = false; is_starting = false }))
step_at back works i s = s

unfoldable pub step : Server → ℕ × Bool → Server
unfolding step_at
step s (i, works) = step_at (s.at i) works i s

unfoldable pub run : Server → List (ℕ × Bool) → Server
run s [] = s
run s (e ∷ es) = run (step s e) es
