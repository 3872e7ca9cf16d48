-- ===== src/RpcServer/Open.antt =====
-- rpc_server.py: the server's count of connections and its table of them, against the streams that are
-- open. The event loop calls back once for each stream that closes.
use summerrpc.Prelude.{
  ℕ, zero, suc, ◌+◌, ◌-◌, ◌≤◌, ◌<◌, ◌≡◌, refl, sym, ap, subst, ◌∙◌, Bool, true, false, Option, none,
  some, List, [], ◌∷◌, arith, leb, ◌==◌, if◌then◌else◌, length, map, get_elem?, count, one_if, All,
  if_split, option_split,
}
use summerrpc.Prelude.Int.{pos, pos_part}
use summerrpc.AtomicInteger.{AtomicInteger, increase}
use summerrpc.AtomicInteger
use summerrpc.Lru.Items.{find, remove, put, touch, delete}
use summerrpc.Connection.{same_id}
use summerrpc.RpcServer.Connections.{
  Information, Server, init, admit, accept_connection, on_connection_close, without,
}

abbrev Entries : Type 0
Entries = List (ℕ × Information)

abbrev ids_of : Entries → List ℕ
ids_of = map (λ c. c.0)

-- Connections arrive at some times, or the n-th open stream closes.
pub data Event : Type 0 where
  arrive : List ℕ → Event
  leaves : ℕ → Event

unfoldable pub leave : ℕ → Server → Server
leave n s = elim (get_elem? s.streams n) [ none ↦ s | some id ↦ on_connection_close id s ]

unfoldable pub run : Server → List Event → Server
unfolding leave
run s [] = s
run s (arrive times ∷ es) = run (accept_connection times s) es
run s (leaves n ∷ es) = run (leave n s) es

-- How many connections arrive.
abbrev pub arrivals : List Event → ℕ
arrivals [] = 0
arrivals (arrive times ∷ es) = length times + arrivals es
arrivals (leaves n ∷ es) = arrivals es

find-absent : (id : ℕ) (cs : Entries) → count id (ids_of cs) ≡ 0 → find same_id id cs ≡ none
find-absent id [] h = refl
find-absent id (c ∷ cs) h =
    if_split (λ o. o ≡ none) (c.0 == id) (λ e. absurd (ground (arith, e, h)))
      (λ e. find-absent id cs (ground (arith, e, h)))

find-present :
    (id : ℕ) (cs : Entries)
    → 1 ≤ count id (ids_of cs)
    → (c : ℕ × Information) × (find same_id id cs ≡ some c) × ((c.0 == id) ≡ true)
find-present id [] h = absurd (omega (arith, h))
find-present id (c ∷ cs) h =
    if_split (λ o. (d : ℕ × Information) × (o ≡ some d) × ((d.0 == id) ≡ true)) (c.0 == id)
      (λ e. (c, refl, e)) (λ e. find-present id cs (ground (arith, e, h)))

module _ (f id : ℕ) where
  count-remove :
      (cs : Entries)
      → 1 ≤ count id (ids_of cs)
      → (count f (ids_of cs) ≡ one_if f id + count f (ids_of (remove same_id id cs)))
        × (length cs ≡ suc (length (remove same_id id cs)))
  count-remove [] h = absurd (omega (arith, h))
  count-remove (c ∷ cs) h =
      if_split
        (λ x.
          (count f (ids_of (c ∷ cs)) ≡ one_if f id + count f (ids_of x))
          × (length (c ∷ cs) ≡ suc (length x)))
        (c.0 == id) (λ e. (ground (arith, e), refl))
        (λ e.
          (let (p, q) = count-remove cs (ground (arith, e, h)) in
            (omega (arith, p), omega (arith, q))))

  count-without :
      (xs : List ℕ)
      → 1 ≤ count id xs
      → (count f xs ≡ one_if f id + count f (without id xs))
        × (length xs ≡ suc (length (without id xs)))
  count-without [] h = absurd (omega (arith, h))
  count-without (x ∷ xs) h =
      if_split
        (λ y. (count f (x ∷ xs) ≡ one_if f id + count f y) × (length (x ∷ xs) ≡ suc (length y)))
        (x == id) (λ e. (ground (arith, e), refl))
        (λ e.
          (let (p, q) = count-without xs (ground (arith, e, h)) in
            (omega (arith, p), omega (arith, q))))

module _ (a : AtomicInteger) (v : ℕ) (e : a.internal ≡ pos v) (h : v < a.max_integer) where
  increase-counter : (increase (pos 1) a).0.internal ≡ pos (suc v)
  unfolding increase
  increase-counter = ground (arith, e, h)

  increase-value : (increase (pos 1) a).1 ≡ pos (suc v)
  unfolding increase
  increase-value = ground (arith, e, h)

  increase-max_integer : (increase (pos 1) a).0.max_integer ≡ a.max_integer
  unfolding increase
  increase-max_integer = ground (arith, e, h)

put-new :
    (room id : ℕ) (info : Information) (cs : Entries)
    → find same_id id cs ≡ none
    → leb room (length cs) ≡ false
    → put same_id room id info cs ≡ (id, info) ∷ cs
put-new room id info cs absent fits =
    option_split (λ x. x ≡ (id, info) ∷ cs) (find same_id id cs)
      (λ e.
        if_split (λ x. x ≡ (id, info) ∷ cs) (leb room (length cs)) (λ f. absurd (cc)) (λ f. refl))
      (λ c e. absurd (cc))

touch-present :
    (id : ℕ) (cs : Entries) (c : ℕ × Information)
    → find same_id id cs ≡ some c
    → touch same_id id cs ≡ some (c.1, c ∷ remove same_id id cs)
unfolding touch
touch-present id cs c e =
    option_split (λ o. o ≡ some (c.1, c ∷ remove same_id id cs)) (find same_id id cs)
      (λ f. absurd (cc))
      (λ d f.
        (let q : d ≡ c = cc in
          ap (λ (x : ℕ × Information). some (x.1, x ∷ remove same_id id cs)) q))

delete-front :
    (id : ℕ) (cs : Entries) (c : ℕ × Information)
    → (c.0 == id) ≡ true
    → delete same_id id (c ∷ cs) ≡ some cs
unfolding delete
delete-front id cs c e = go (c.0 == id) e
  where
    go :
        (b : Bool)
        → b ≡ true
        → elim (if b then some c else find same_id id cs) as (λ _. Option Entries) [
          | none ↦ none
          | some d ↦ some (if b then cs else c ∷ remove same_id id cs)
        ]
          ≡ some cs
    go true k = refl
    go false k = cc

-- The entry of an open stream goes.
close-present :
    (id : ℕ) (s : Server) (c : ℕ × Information)
    → find same_id id s.connections ≡ some c
    → (c.0 == id) ≡ true
    → on_connection_close id s ≡ record s {
      current_connections = s.current_connections - 1;
      streams = without id s.streams;
      connections = remove same_id id s.connections;
    }
unfolding on_connection_close
close-present id s c f e =
    ap
      (λ o. elim o as (λ _. Server) [
        | none ↦ t
        | some (info, touched) ↦ elim (delete same_id id touched) as (λ _. Server) [
          | none ↦ record t { connections = touched }
          | some left ↦ record t { connections = left }
        ]
      ])
      (touch-present id s.connections c f)
    ∙ ap
        (λ o. elim o as (λ _. Server) [
          | none ↦ record t { connections = c ∷ remove same_id id s.connections }
          | some left ↦ record t { connections = left }
        ])
        (delete-front id (remove same_id id s.connections) c e)
  where
    t : Server
    t = record s { current_connections = s.current_connections - 1; streams = without id s.streams }

-- After `next` arrivals: the count and the table are those of the open streams, whose ids are at most
-- `next`.
pub record Tidy (m next top : ℕ) (s : Server) : Type 0 where
  pub limit : s.max_connections ≡ m
  pub bounded : s.current_connections ≤ m
  pub counted : s.current_connections ≡ length s.streams
  pub listed : length s.connections ≡ length s.streams
  pub same : (f : ℕ) → count f (ids_of s.connections) ≡ count f s.streams
  pub fresh : (f : ℕ) → next < f → count f s.streams ≡ 0
  pub numbered : s.ids.internal ≡ pos next
  pub max : s.ids.max_integer ≡ top

module _ (m top : ℕ) where
  admit-Tidy :
      (now next : ℕ) (s : Server)
      → Tidy m next top s
      → next < top
      → leb s.max_connections s.current_connections ≡ false
      → Tidy m (suc next) top (admit now s)
  unfolding admit
  admit-Tidy now next s t h room =
      let less : next < s.ids.max_integer = subst (λ (k : ℕ). next < k) (sym t.max) h in
      let value = ap pos_part (increase-value s.ids next t.numbered less) in
      let id = pos_part (increase (pos 1) s.ids).1 in
      let unused : count id (ids_of s.connections) ≡ 0 =
        t.same id ∙ t.fresh id (omega (arith, value)) in
      let fits : leb s.max_connections (length s.connections) ≡ false =
        ground (arith, room, t.counted, t.listed) in
      let info : Information = record { timestamp = now; stream_closed = false } in
      let added =
        put-new s.max_connections id info s.connections (find-absent id s.connections unused)
          fits in
      record {
        limit = t.limit;
        bounded = ground (arith, room, t.limit);
        counted = omega (arith, t.counted);
        listed = ap length added ∙ ap suc t.listed;
        same = λ f. ap (λ x. count f (ids_of x)) added ∙ ap (λ (k : ℕ). one_if f id + k) (t.same f);
        fresh = λ f l. (let z = t.fresh f (omega (arith, l)) in ground (arith, z, l, value));
        numbered = increase-counter s.ids next t.numbered less;
        max = increase-max_integer s.ids next t.numbered less ∙ t.max;
      }

  close-Tidy :
      (id next : ℕ) (s : Server)
      → 1 ≤ count id s.streams
      → Tidy m next top s
      → Tidy m next top (on_connection_close id s)
  close-Tidy id next s h t =
      let there : 1 ≤ count id (ids_of s.connections) = omega (arith, h, t.same id) in
      let (c, found, e) = find-present id s.connections there in
      let less = (count-without id id s.streams h).1 in
      subst (Tidy m next top) (sym (close-present id s c found e)) (record {
        limit = t.limit;
        bounded = omega (arith, t.bounded);
        counted = omega (arith, t.counted, less);
        listed = omega (arith, t.listed, less, (count-remove id id s.connections there).1);
        same = λ f. omega (
          arith,
          t.same f,
          (count-without f id s.streams h).0,
          (count-remove f id s.connections there).0,
        );
        fresh = λ f l. omega (arith, t.fresh f l, (count-without f id s.streams h).0);
        numbered = t.numbered;
        max = t.max;
      })

  -- An element of a list stands in it.
  count-get_elem? : (xs : List ℕ) (n id : ℕ) → get_elem? xs n ≡ some id → 1 ≤ count id xs
  count-get_elem? [] n id h = absurd (cc)
  count-get_elem? (x ∷ xs) zero id h = let q : x ≡ id = cc in ground (arith, q)
  count-get_elem? (x ∷ xs) (suc n) id h = omega (arith, count-get_elem? xs n id h)

  leave-Tidy : (n next : ℕ) (s : Server) → Tidy m next top s → Tidy m next top (leave n s)
  unfolding leave
  leave-Tidy n next s t =
      option_split (Tidy m next top) (get_elem? s.streams n) (λ e. t)
        (λ id e. close-Tidy id next s (count-get_elem? s.streams n id e) t)

  -- How far the numbering has got.
  abbrev Reached : ℕ → Server → Type 0
  Reached bound s = (next : ℕ) × (next ≤ bound) × Tidy m next top s

  accept-Tidy :
      (times : List ℕ) (next : ℕ) (s : Server)
      → next + length times ≤ top
      → Tidy m next top s
      → Reached (next + length times) (accept_connection times s)
  unfolding accept_connection
  accept-Tidy [] next s l t = (next, omega arith, t)
  accept-Tidy (now ∷ more) next s l t =
      if_split (Reached (next + length (now ∷ more))) (leb s.max_connections s.current_connections)
        (λ e. (next, omega arith, t))
        (λ e.
          (let (k, b, u) =
              accept-Tidy more (suc next) (admit now s) (omega (arith, l))
                (admit-Tidy now next s t (omega (arith, l)) e) in
            (k, omega (arith, b), u)))

  run-Tidy :
      (es : List Event) (next : ℕ) (s : Server)
      → next + arrivals es ≤ top
      → Tidy m next top s
      → Reached (next + arrivals es) (run s es)
  unfolding run
  run-Tidy [] next s l t = (next, omega arith, t)
  run-Tidy (arrive times ∷ es) next s l t =
      let (k, b, u) = accept-Tidy times next s (omega (arith, l)) t in
      let (j, c, v) = run-Tidy es k (accept_connection times s) (omega (arith, b, l)) u in
      (j, omega (arith, b, c), v)
  run-Tidy (leaves n ∷ es) next s l t = run-Tidy es next (leave n s) l (leave-Tidy n next s t)

-- On a new server on which at most `top`, the greatest integer, connections arrive, however they come
-- and go: the count is the number of open streams and at most the maximum, the table has as many
-- entries, and an entry stands under the id of each open stream, so that closing one finds its entry.
pub open_streams-run :
    (m idle top : ℕ) (es : List Event)
    → arrivals es ≤ top
    → let s = run (init m idle (AtomicInteger.init top (pos 0))) es in
      (s.current_connections ≡ length s.streams)
      × (s.current_connections ≤ m)
      × (length s.connections ≡ length s.streams)
      × All (λ id. (c : ℕ × Information) × (find same_id id s.connections ≡ some c)) s.streams
unfolding init AtomicInteger.init
open_streams-run m idle top es l =
    let s0 = init m idle (AtomicInteger.init top (pos 0)) in
    let s = run s0 es in
    let (next, b, t) = run-Tidy m top es 0 s0 (omega (arith, l)) (record {
      limit = refl;
      bounded = omega arith;
      counted = refl;
      listed = refl;
      same = λ f. refl;
      fresh = λ f k. refl;
      numbered = refl;
      max = refl;
    }) in
    (
      t.counted,
      t.bounded,
      t.listed,
      found s.connections s.streams (λ id h. omega (arith, t.same id, h)),
    )
  where
    found :
        (cs : Entries) (xs : List ℕ)
        → ((id : ℕ) → 1 ≤ count id xs → 1 ≤ count id (ids_of cs))
        → All (λ id. (c : ℕ × Information) × (find same_id id cs ≡ some c)) xs
    found cs [] h = tt
    found cs (x ∷ xs) h =
        let (c, e, k) = find-present x cs (h x (ground arith)) in
        ((c, e), found cs xs (λ id l. h id (omega (arith, l))))
