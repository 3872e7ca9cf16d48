-- ===== src/Connection/Shutdown.antt =====
-- `close` of a live connection, worked off: the closer's three steps, then the write thread's last.
use summerrpc.Prelude.{ℕ, List, [], ◌∷◌}
use summerrpc.AtomicInteger.{AtomicInteger}
use summerrpc.Connection.Threads.{Sending, Event, calls_close, closer_runs, writer_runs}

-- `close` is called, its steps run, and the write thread runs twice more.
abbrev pub shutdown : (t1 t2 : ℕ) (o1 o2 : Sending) → List Event
shutdown t1 t2 o1 o2 =
    calls_close
    ∷ closer_runs
    ∷ closer_runs
    ∷ closer_runs
    ∷ writer_runs t1 o1
    ∷ writer_runs t2 o2
    ∷ []
