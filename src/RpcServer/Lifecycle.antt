-- ===== src/RpcServer/Lifecycle.antt =====
-- rpc_server.py: `start` and `close` of `RpcServer`, their flags, and what they make and release.
-- The event loop runs between events.
use summerrpc.Prelude.{
  ℕ, ◌+◌, ◌≤◌, ◌≡◌, refl, ap, subst, ◌∙◌, Bool, true, false, Option, List, [], ◌∷◌, arith, ◌||◌,
  ◌&&◌, not, if◌then◌else◌, if_cases, if_split,
}
use summerrpc.Lru.{is_some}

pub record Server : Type 0 where
  pub thread_pool_size : Option ℕ
  pub process_pool_size : Option ℕ
  pub has_thread_pool : Bool
  pub has_process_pool : Bool
  pub has_registry : Bool
  pub started : Bool
  pub starting : Bool
  pub closed : Bool
  pub closing : Bool
  -- Is `change_status` queued on the event loop? Has the loop been stopped?
  pub status_queued : Bool
  pub loop_stopped : Bool
  -- How many thread and process pools were made and shut down, and how often the registry closed.
  pub pools_made : ℕ
  pub pools_shut : ℕ
  pub registry_closes : ℕ

unfoldable pub init : (thread_pool_size process_pool_size : Option ℕ) (has_registry : Bool) → Server
init threads processes registry = record {
  thread_pool_size = threads;
  process_pool_size = processes;
  has_thread_pool = false;
  has_process_pool = false;
  has_registry = registry;
  started = false;
  starting = false;
  closed = false;
  closing = false;
  status_queued = false;
  loop_stopped = false;
  pools_made = 0;
  pools_shut = 0;
  registry_closes = 0;
}

unfoldable pub can_start : Server → Bool
can_start s =
    if s.starting then false else (if s.started then false else (if s.closing then false else true))

unfoldable pub can_close : Server → Bool
can_close s =
    if not s.started
    then false
    else (if s.starting
        then false
        else (if s.closing then false else (if s.closed then false else true)))

abbrev bit : Bool → ℕ
bit true = 1
bit false = 0

-- The two pools, made where a size is given and none is there yet.
make_pools : Server → Server
make_pools s =
    let threads = is_some s.thread_pool_size && not s.has_thread_pool in
    let processes = is_some s.process_pool_size && not s.has_process_pool in
    record s {
      has_thread_pool = s.has_thread_pool || threads;
      has_process_pool = s.has_process_pool || processes;
      pools_made = s.pools_made + bit threads + bit processes;
    }

-- `start` up to `ioloop.start()`. Registering happens after the flag is set; where it raises, the
-- callback is not queued and the loop not entered.
unfoldable pub start : (is_registered : Bool) → Server → Server
unfolding can_start make_pools
start registered s =
    if can_start s
    then (let t = make_pools (record s { starting = true; started = false; closed = false }) in
        if s.has_registry && not registered then t else record t { status_queued = true })
    else s

-- The callback `change_status`.
unfoldable pub change_status : Server → Server
change_status s =
    if s.status_queued
    then record s { started = true; starting = false; status_queued = false }
    else s

-- `_close_if_necessary`, which `close` calls and `start` when the loop ends.
unfoldable pub close : Server → Server
unfolding can_close
close s =
    if can_close s
    then record s {
      has_registry = false;
      registry_closes = s.registry_closes + bit s.has_registry;
      loop_stopped = true;
      has_thread_pool = false;
      has_process_pool = false;
      pools_shut = s.pools_shut + bit s.has_thread_pool + bit s.has_process_pool;
      closed = true;
      closing = false;
      started = false;
      starting = false;
    }
    else s

pub data Event : Type 0 where
  calls_start : (is_registered : Bool) → Event
  loop_runs calls_close : Event

unfoldable pub step : Server → Event → Server
unfolding start change_status close
step s (calls_start registered) = start registered s
step s loop_runs = change_status s
step s calls_close = close s

unfoldable pub run : Server → List Event → Server
run s [] = s
run s (e ∷ es) = run (step s e) es

-- Every pool that was made is in use or was shut down; the registry is closed at most once; and
-- the flags exclude each other.
pub record Accounts (threads processes registry started starting closed closing queued : Bool)
    (made shut closes : ℕ) : Type 0 where
  pub pools : made ≡ shut + bit threads + bit processes
  pub registries : closes + bit registry ≤ 1
  pub one_flag : bit started + bit starting + bit closed ≤ 1
  pub not_closing : closing ≡ false
  pub queued_starting : bit queued ≤ bit starting

abbrev pub Accounted : Server → Type 0
Accounted s =
    Accounts s.has_thread_pool s.has_process_pool s.has_registry s.started s.starting s.closed
      s.closing s.status_queued s.pools_made s.pools_shut s.registry_closes

bit-make : (size has : Bool) → bit (has || (size && not has)) ≡ bit has + bit (size && not has)
bit-make true true = refl
bit-make true false = refl
bit-make false true = refl
bit-make false false = refl

bit-one : (b : Bool) → bit b ≤ 1
bit-one true = omega arith
bit-one false = omega arith

start-Accounted : (r : Bool) (s : Server) → Accounted s → Accounted (start r s)
unfolding start can_start make_pools
start-Accounted r s h =
    if_split Accounted (can_start s)
      (λ e.
        let t = bit-make (is_some s.thread_pool_size) s.has_thread_pool in
        let p = bit-make (is_some s.process_pool_size) s.has_process_pool in
        let l = h.pools in
        let l2 = h.queued_starting in
        if_cases Accounted (s.has_registry && not r)
          (record {
            pools = omega (arith, t, p, l);
            registries = h.registries;
            one_flag = omega arith;
            not_closing = h.not_closing;
            queued_starting = bit-one s.status_queued;
          })
          (record {
            pools = omega (arith, t, p, l);
            registries = h.registries;
            one_flag = omega arith;
            not_closing = h.not_closing;
            queued_starting = omega arith;
          }))
      (λ e. h)

change_status-Accounted : (s : Server) → Accounted s → Accounted (change_status s)
unfolding change_status
change_status-Accounted s h =
    if_split Accounted s.status_queued
      (λ e.
        let l = h.one_flag in
        let q = subst (λ b. bit b ≤ bit s.starting) e h.queued_starting in
        record {
          pools = h.pools;
          registries = h.registries;
          one_flag = omega (arith, l, q);
          not_closing = h.not_closing;
          queued_starting = omega arith;
        })
      (λ e. h)

close-Accounted : (s : Server) → Accounted s → Accounted (close s)
unfolding close can_close
close-Accounted s h =
    if_split Accounted (can_close s)
      (λ e.
        let p = h.pools in
        let r = h.registries in
        let q = h.queued_starting in
        let z : s.starting ≡ false = ground arith in
        record {
          pools = omega (arith, p);
          registries = omega (arith, r);
          one_flag = omega arith;
          not_closing = refl;
          queued_starting = subst (λ b. bit s.status_queued ≤ bit b) z q;
        })
      (λ e. h)

run-Accounted : (s : Server) (es : List Event) → Accounted s → Accounted (run s es)
unfolding run step
run-Accounted s [] h = h
run-Accounted s (calls_start r ∷ es) h = run-Accounted (start r s) es (start-Accounted r s h)
run-Accounted s (Event.loop_runs ∷ es) h =
    run-Accounted (change_status s) es (change_status-Accounted s h)
run-Accounted s (Event.calls_close ∷ es) h = run-Accounted (close s) es (close-Accounted s h)

-- In any order of calls of `start` and `close` and of the loop's callback on a new server, whether
-- registering works or not: each pool that was made is in use or has been shut down, the registry
-- is closed at most once and not while it is kept, and at most one of the flags started, starting
-- and closed is set.
pub init-Accounted :
    (threads processes : Option ℕ) (registry : Bool) (es : List Event)
    → Accounted (run (init threads processes registry) es)
unfolding init
init-Accounted threads processes registry es =
    run-Accounted (init threads processes registry) es (record {
      pools = refl;
      registries = (let l = bit-one registry in omega (arith, l));
      one_flag = omega arith;
      not_closing = refl;
      queued_starting = omega arith;
    })

-- Starting, without its callback queued.
pub record Stuck (s : Server) : Type 0 where
  pub is_starting : s.starting ≡ true
  pub not_queued : s.status_queued ≡ false

run-Stuck : (s : Server) (es : List Event) → Stuck s → run s es ≡ s
unfolding run step start can_start change_status close can_close
run-Stuck s [] h = refl
run-Stuck s (calls_start r ∷ es) h = ap (λ x. run x es) (rw (h.is_starting) refl) ∙ run-Stuck s es h
run-Stuck s (Event.loop_runs ∷ es) h =
    ap (λ x. run x es) (rw (h.not_queued) refl) ∙ run-Stuck s es h
run-Stuck s (Event.calls_close ∷ es) h = ap (λ x. run x es) (ground arith) ∙ run-Stuck s es h

-- When registering raises in the `start` of a server that can start, has a registry and has no
-- callback queued, then no later `start`, `close` or turn of the loop changes anything: the server
-- stays as that `start` left it.
pub failed_start :
    (s : Server) (es : List Event)
    → can_start s ≡ true
    → s.has_registry ≡ true
    → s.status_queued ≡ false
    → run s (calls_start false ∷ es) ≡ start false s
unfolding run step start can_start make_pools
failed_start s es e r q =
    run-Stuck (start false s) es (record { is_starting = ground arith; not_queued = ground arith })
