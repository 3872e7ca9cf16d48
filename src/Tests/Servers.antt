-- ===== src/Tests/Servers.antt =====
-- The server: the theorems at concrete inputs.
use summerrpc.Prelude.{
  Bool, ◌≡◌, ◌≤◌, refl, true, false, none, some, List, [], ◌∷◌, reverse, ℕ, length, All, arith,
}
use summerrpc.Prelude.Int.{pos}
use summerrpc.AtomicInteger.{AtomicInteger}
use summerrpc.AtomicInteger
use summerrpc.Lru.Items.{find}
use summerrpc.Connection.{same_id}
use summerrpc.RpcServer.Builder
use summerrpc.RpcServer.Builder.Sizes
use summerrpc.RpcServer.Lifecycle
use summerrpc.RpcServer.Connections
use summerrpc.RpcServer.Open
use summerrpc.RpcServer.Runner
use summerrpc.RpcServer.Races
use summerrpc.RpcServer.Exclusion

abbrev setters : List (Builder.Setter × Builder.Value)
setters =
    (Builder.Setter.server_socket, Builder.server_socket_value 1 false)
    ∷ (Builder.Setter.exporter, Builder.exporter_value 2)
    ∷ (Builder.Setter.max_connections, Builder.int_value (pos 20))
    ∷ (Builder.Setter.thread_pool_size, Builder.none_value)
    ∷ []

abbrev built : Builder.Builder
built = record (Builder.init 4 0 0 0) {
  server_socket = some 1;
  exporter = some 2;
  max_connections = 20;
  thread_pool_size = none;
}

setters_pass : Builder.set_all setters (Builder.init 4 0 0 0) ≡ Builder.ok built
unfolding Builder.set_all Builder.set Builder.with_server_socket Builder.with_exporter
    Builder.with_max_connections Builder.with_thread_pool_size Builder.more_than_0
setters_pass = refl

build_passes : Builder.build built ≡ Builder.ok built
unfolding Builder.build
build_passes = refl

build-Complete_example : Sizes.Complete built
build-Complete_example = Sizes.build-Complete 4 0 0 0 setters built built setters_pass build_passes

abbrev restarts : List Lifecycle.Event
restarts =
    Lifecycle.calls_start true
    ∷ Lifecycle.Event.loop_runs
    ∷ Lifecycle.Event.calls_close
    ∷ Lifecycle.calls_start true
    ∷ []

init-Accounted_example :
    Lifecycle.Accounted (Lifecycle.run (Lifecycle.init (some 9) (some 2) true) restarts)
init-Accounted_example = Lifecycle.init-Accounted (some 9) (some 2) true restarts

abbrev new_server : Lifecycle.Server
new_server = Lifecycle.init (some 9) none true

new_server-can_start : Lifecycle.can_start new_server ≡ true
unfolding Lifecycle.can_start Lifecycle.init
new_server-can_start = refl

new_server-registry : new_server.has_registry ≡ true
unfolding Lifecycle.init
new_server-registry = refl

new_server-queued : new_server.status_queued ≡ false
unfolding Lifecycle.init
new_server-queued = refl

failed_start_example :
    Lifecycle.run new_server (Lifecycle.calls_start false ∷ restarts)
    ≡ Lifecycle.start false new_server
failed_start_example =
    Lifecycle.failed_start new_server restarts new_server-can_start new_server-registry
      new_server-queued

abbrev counter : AtomicInteger
counter = record { initial = pos 0; internal = pos 0; max_integer = 1000 }

-- The first connection is active; the second has been idle for long.
abbrev shielding : Connections.Server
shielding = record (Connections.init 5 100 counter) {
  connections =
      (2, record { timestamp = 10; stream_closed = false })
      ∷ (1, record { timestamp = 950; stream_closed = false })
      ∷ [];
  streams = 2 ∷ 1 ∷ [];
}

close_inactive_connections-Swept_example :
    Connections.Swept
      (Connections.is_open shielding)
      1000
      shielding.max_idle_time
      (reverse shielding.connections)
      (Connections.close_inactive_connections 1000 shielding)
close_inactive_connections-Swept_example =
    Connections.close_inactive_connections-Swept 1000 shielding

abbrev requests : List Runner.Event
requests =
    Runner.turns (Runner.request 1 Runner.in_thread)
    ∷ Runner.turns (Runner.request 2 Runner.in_loop)
    ∷ Runner.turns (Runner.request 3 Runner.in_loop)
    ∷ Runner.responds 0
    ∷ []

current_concurrency-run_example :
    let r = Runner.run (Runner.init 2) requests in
    (length r.running ≤ 2) × (r.stream_closed ≡ false → r.current_concurrency ≡ length r.running)
current_concurrency-run_example = Runner.current_concurrency-run 2 requests

-- Three connections arrive where two are allowed, one leaves, and another arrives.
abbrev visits : List Open.Event
visits = Open.arrive (1 ∷ 2 ∷ 3 ∷ []) ∷ Open.leaves 0 ∷ Open.arrive (4 ∷ []) ∷ []

open_streams-run_example :
    let s = Open.run (Connections.init 2 100 (AtomicInteger.init 1000 (pos 0))) visits in
    (s.current_connections ≡ length s.streams)
    × (s.current_connections ≤ 2)
    × (length s.connections ≡ length s.streams)
    × All
        (λ id. (c : ℕ × Connections.Information) × (find same_id id s.connections ≡ some c))
        s.streams
open_streams-run_example = Open.open_streams-run 2 100 1000 visits (omega arith)

-- Two threads start a server; the first gets the lock and prepares it, and the second waits.
abbrev racing : List (ℕ × Bool)
racing = (1, true) ∷ (2, true) ∷ (1, true) ∷ (2, true) ∷ (1, true) ∷ (2, true) ∷ (2, true) ∷ []

first_busy : Exclusion.is_busy ((Races.run (Races.init (λ i. true)) racing).at 1) ≡ true
unfolding Races.run Races.step Races.step_at
first_busy = refl

is_busy-run_example : Exclusion.is_busy ((Races.run (Races.init (λ i. true)) racing).at 2) ≡ false
is_busy-run_example = Exclusion.is_busy-run (λ i. true) racing 1 2 first_busy (λ e. ground arith)
