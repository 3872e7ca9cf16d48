-- ===== src/RpcServer/Connections.antt =====
-- rpc_server.py: the connections of `RpcServer`: accepting them, forgetting them when their streams
-- close, and closing idle ones. The cache of connections is taken as its list of entries, by
-- Lru's refinement of `LRUCache`.
use summerrpc.Prelude.{
  ℕ, ◌+◌, ◌-◌, ◌≤◌, ◌≡◌, refl, ap, Bool, true, false, none, some, List, [], ◌∷◌, ◌++◌, arith, leb,
  ◌==◌, if◌then◌else◌, count, reverse, All, if_split, option_cases,
}
use summerrpc.Prelude.Int.{pos, pos_part}
use summerrpc.AtomicInteger.{AtomicInteger, increase}
use summerrpc.Lru.Items.{put, touch, delete}
use summerrpc.Connection.{same_id}

-- connection_information.py: `ConnectionInformation`, without its stream and its condition.
pub record Information : Type 0 where
  pub timestamp : ℕ
  pub stream_closed : Bool

pub record Server : Type 0 where
  pub max_connections : ℕ
  pub max_idle_time : ℕ
  pub current_connections : ℕ
  pub connections : List (ℕ × Information)
  pub ids : AtomicInteger
  -- The ids of the streams that are open: the event loop calls back once for each.
  pub streams : List ℕ

unfoldable pub init : (max_connections max_idle_time : ℕ) → AtomicInteger → Server
init m idle ids = record {
  max_connections = m;
  max_idle_time = idle;
  current_connections = 0;
  connections = [];
  ids = ids;
  streams = [];
}

-- A connection that `accept` returns.
unfoldable pub admit : (now : ℕ) → Server → Server
admit now s =
    let (ids', id) = increase (pos 1) s.ids in
    record s {
      current_connections = s.current_connections + 1;
      connections =
          put same_id s.max_connections (pos_part id)
            (record { timestamp = now; stream_closed = false }) s.connections;
      ids = ids';
      streams = pos_part id ∷ s.streams;
    }

-- `_accept_connection`: the list holds the times at which `accept` returns a connection; where it
-- ends, `accept` would block or raises.
unfoldable pub accept_connection : List ℕ → Server → Server
unfolding admit
accept_connection [] s = s
accept_connection (now ∷ more) s =
    let rest = accept_connection more (admit now s) in
    if leb s.max_connections s.current_connections then s else rest

-- A stream's id leaves the list.
abbrev pub without : ℕ → List ℕ → List ℕ
without id [] = []
without id (x ∷ xs) = let rest = without id xs in if x == id then xs else x ∷ rest

-- `_on_connection_close`. A missing id is a KeyError after the count has gone down.
unfoldable pub on_connection_close : ℕ → Server → Server
on_connection_close id s =
    let t = record s {
      current_connections = s.current_connections - 1;
      streams = without id s.streams;
    } in
    elim (touch same_id id s.connections) [
      | none ↦ t
      | some (info, touched) ↦ elim (delete same_id id touched) [
        | none ↦ record t { connections = touched }
        | some left ↦ record t { connections = left }
      ]
    ]

-- Is a connection past its time?
abbrev pub is_idle : (now max_idle_time : ℕ) → ℕ × Information → Bool
is_idle now idle c = leb (c.1.timestamp + idle) now

-- Is the stream of this id open?
abbrev pub is_open : Server → ℕ → Bool
is_open s id = leb 1 (count id s.streams)

-- The loop of `_close_inactive_connections` over the entries, the oldest first, and the delay after
-- which it runs again; the clock stands still meanwhile.
abbrev pub sweep :
    (is_open : ℕ → Bool) (now max_idle_time : ℕ) → List (ℕ × Information) → List ℕ × ℕ
sweep is_open now idle [] = ([], idle)
sweep is_open now idle (c ∷ cs) =
    let rest = sweep is_open now idle cs in
    if is_idle now idle c
    then ((if is_open c.0 then c.0 ∷ rest.0 else rest.0), rest.1)
    else ([], c.1.timestamp + idle - now)

-- `_close_inactive_connections`: the ids whose streams it closes, and the delay.
unfoldable pub close_inactive_connections : (now : ℕ) → Server → List ℕ × ℕ
close_inactive_connections now s = sweep (is_open s) now s.max_idle_time (reverse s.connections)

abbrev EndsActive : (now idle : ℕ) → List (ℕ × Information) → Type 0
EndsActive now idle [] = Unit
EndsActive now idle (c ∷ cs) = is_idle now idle c ≡ false

-- How long until the first active connection is due.
abbrev wait : (now idle : ℕ) → List (ℕ × Information) → ℕ
wait now idle [] = idle
wait now idle (c ∷ cs) = c.1.timestamp + idle - now

-- Those of the ids whose streams are open.
abbrev pub open_ids : (is_open : ℕ → Bool) → List (ℕ × Information) → List ℕ
open_ids is_open [] = []
open_ids is_open (c ∷ cs) =
    let rest = open_ids is_open cs in if is_open c.0 then c.0 ∷ rest else rest

-- What a sweep did: it closed the open ones of the idle ones up to the first that is not idle.
pub record Swept (is_open : ℕ → Bool) (now idle : ℕ) (cs : List (ℕ × Information)) (r : List ℕ × ℕ)
    : Type 0 where
  pub before : List (ℕ × Information)
  pub after : List (ℕ × Information)
  pub split : cs ≡ before ++ after
  pub closed : r.0 ≡ open_ids is_open before
  pub all_idle : All (λ c. is_idle now idle c ≡ true) before
  pub first_active : EndsActive now idle after
  pub delay : r.1 ≡ wait now idle after

sweep-Swept :
    (is_open : ℕ → Bool) (now idle : ℕ) (cs : List (ℕ × Information))
    → Swept is_open now idle cs (sweep is_open now idle cs)
sweep-Swept is_open now idle [] = record {
  before = [];
  after = [];
  split = refl;
  closed = refl;
  all_idle = tt;
  first_active = tt;
  delay = refl;
}
sweep-Swept is_open now idle (c ∷ cs) =
    let ih = sweep-Swept is_open now idle cs in
    if_split (Swept is_open now idle (c ∷ cs)) (is_idle now idle c)
      (λ e. record {
        before = c ∷ ih.before;
        after = ih.after;
        split = ap (λ l. c ∷ l) ih.split;
        closed = ap (λ l. if is_open c.0 then c.0 ∷ l else l) ih.closed;
        all_idle = (e, ih.all_idle);
        first_active = ih.first_active;
        delay = ih.delay;
      })
      (λ e. record {
        before = [];
        after = c ∷ cs;
        split = refl;
        closed = refl;
        all_idle = tt;
        first_active = e;
        delay = refl;
      })

-- The sweep closes exactly the open connections that, in the cache's order from its old end, come
-- before the first one that is still active; those are all idle, and it runs again when that one is due, or
-- after the idle time where none is active. A connection behind an active one stays, however long it
-- has been idle.
pub close_inactive_connections-Swept :
    (now : ℕ) (s : Server)
    → Swept
        (is_open s)
        now
        s.max_idle_time
        (reverse s.connections)
        (close_inactive_connections now s)
unfolding close_inactive_connections
close_inactive_connections-Swept now s =
    sweep-Swept (is_open s) now s.max_idle_time (reverse s.connections)

pub data Event : Type 0 where
  accepts : List ℕ → Event
  closes : ℕ → Event

unfoldable pub run : Server → List Event → Server
run s [] = s
run s (accepts times ∷ es) = run (accept_connection times s) es
run s (closes id ∷ es) = run (on_connection_close id s) es

abbrev Bounded : ℕ → Server → Type 0
Bounded m s = (s.max_connections ≡ m) × (s.current_connections ≤ m)

accept-Bounded :
    (m : ℕ) (times : List ℕ) (s : Server) → Bounded m s → Bounded m (accept_connection times s)
unfolding accept_connection admit
accept-Bounded m [] s h = h
accept-Bounded m (now ∷ more) s (e, l) =
    if_split (Bounded m) (leb s.max_connections s.current_connections) (λ _. (e, l))
      λ k. accept-Bounded m more (admit now s) (e, ground (arith, e, k))

close-Bounded : (m id : ℕ) (s : Server) → Bounded m s → Bounded m (on_connection_close id s)
unfolding on_connection_close
close-Bounded m id s (e, l) =
    option_cases (Bounded m) (touch same_id id s.connections) (e, omega (arith, l))
      λ r.
        option_cases (Bounded m) (delete same_id id r.1) (e, omega (arith, l))
          λ left. (e, omega (arith, l))

run-Bounded : (m : ℕ) (s : Server) (es : List Event) → Bounded m s → Bounded m (run s es)
unfolding run
run-Bounded m s [] h = h
run-Bounded m s (accepts times ∷ es) h =
    run-Bounded m (accept_connection times s) es (accept-Bounded m times s h)
run-Bounded m s (closes id ∷ es) h =
    run-Bounded m (on_connection_close id s) es (close-Bounded m id s h)

-- However connections come and go, and however many arrive at once, a server never counts more
-- than its maximum.
pub current_connections-run :
    (m idle : ℕ) (ids : AtomicInteger) (es : List Event)
    → (run (init m idle ids) es).current_connections ≤ m
unfolding init
current_connections-run m idle ids es = (run-Bounded m (init m idle ids) es (refl, omega arith)).1
