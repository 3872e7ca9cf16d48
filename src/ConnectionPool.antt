-- ===== src/ConnectionPool.antt =====
-- connection_pool.py: `LRUConnectionPool` over what its two subclasses do with a container, and
-- the subclasses. A connection is the number of the factory's call that made it; containers are
-- shared objects, kept in a store. One caller at a time is modelled.
pub mod Closing
pub mod Choosing
use summerrpc.Prelude.{
  ℕ, zero, suc, ◌+◌, ◌==◌, Bool, true, false, Option, none, some, List, [], ◌∷◌, ◌++◌,
  if◌then◌else◌, length, reverse,
}
use summerrpc.Exceptions.{
  Class, no_available_connection_error, connection_pool_already_closed_error,
  create_connection_error, runtime_error,
}
use summerrpc.Lru.{is_some}
use summerrpc.Lru.Items.{find, put, touch, kicked_out}
use summerrpc.Iterator.{
  Iterator, init, append, rewind, has_next, next, remove, remove_element, choose,
}

-- `waits` is a call that waits until another thread puts a connection back, for ever if none does.
pub data Outcome (A : Type 0) : Type 0 where
  ok : A → Outcome A
  raise : Class → Outcome A
  waits : Outcome A

-- The methods that `LRUConnectionPool` leaves to its subclasses. `close_connections` gives the
-- connections that it closes, in order.
pub record Methods (Box : Type 0) : Type 0 where
  pub get_connection_container : Box
  pub add_connection_to_container : ℕ → Box → Box
  pub close_connections : Box → List ℕ × Box
  pub choice_connection_from_container : Box → Outcome (ℕ × Box)
  pub remove_connection_from_container : ℕ → Box → Box
  pub release_connection_to_container : ℕ → Box → Box

-- `DedicateLRUConnectionPool`: a `Queue`, the oldest connection first. `endless` is a `get` that
-- blocks and has no timeout; another one ends with the error in time.
abbrev pub queue_choice : (endless : Bool) → List ℕ → Outcome (ℕ × List ℕ)
queue_choice endless [] = if endless then waits else raise no_available_connection_error
queue_choice endless (c ∷ cs) = ok (c, cs)

unfoldable pub dedicate : (endless : Bool) → Methods (List ℕ)
dedicate endless = record {
  get_connection_container = [];
  add_connection_to_container = λ c q. q ++ c ∷ [];
  close_connections = λ q. (q, []);
  choice_connection_from_container = queue_choice endless;
  remove_connection_from_container = λ c q. q;
  release_connection_to_container = λ c q. q ++ c ∷ [];
}

-- The loop of `SharedLRUConnectionPool._close_connections`; the fuel is the length of the list.
unfoldable pub close_loop : ℕ → Iterator ℕ → List ℕ × Iterator ℕ
close_loop zero s = ([], s)
close_loop (suc n) s =
    let (x, t) = next s in
    let rest = close_loop n (remove t).1 in
    if has_next s then elim x [ none ↦ rest | some c ↦ (c ∷ rest.0, rest.1) ] else ([], s)

unfoldable pub close_shared : Iterator ℕ → List ℕ × Iterator ℕ
close_shared s = close_loop (length s.it) (rewind s)

abbrev pub shared_choice : Iterator ℕ → Outcome (ℕ × Iterator ℕ)
shared_choice s =
    let (x, t) = choose s in elim x [ none ↦ raise runtime_error | some c ↦ ok (c, t) ]

abbrev pub shared_remove : ℕ → Iterator ℕ → Iterator ℕ
shared_remove c s = elim (remove_element c s) [ none ↦ s | some t ↦ t ]

unfoldable pub shared : Methods (Iterator ℕ)
shared = record {
  get_connection_container = init [];
  add_connection_to_container = append;
  close_connections = close_shared;
  choice_connection_from_container = shared_choice;
  remove_connection_from_container = shared_remove;
  release_connection_to_container = λ c s. s;
}

pub record Pool (K Box : Type 0) : Type 0 where
  pub pool : List (K × ℕ)
  pub connection_pool_size : ℕ
  pub connections_per_key : ℕ
  pub closed : Bool
  pub boxes : ℕ → Box
  pub next_box : ℕ

-- How often factories were called, and the connections that are closed or closing.
pub record World : Type 0 where
  pub made : ℕ
  pub shut : List ℕ

abbrev pub is_in : ℕ → List ℕ → Bool
is_in x [] = false
is_in x (y ∷ ys) = let rest = is_in x ys in if x == y then true else rest

module _ {Box : Type 0} (m : Methods Box) (factory : ℕ → Bool) where
  -- One call of the factory: `none` is the CreateConnectionError.
  unfoldable pub make : World → Option ℕ × World
  make w = (if factory w.made then some w.made else none, record w { made = w.made + 1 })

  -- `_initialize_connections`, `n` connections being missing.
  unfoldable pub initialize_connections : ℕ → Box → World → Option Box × World
  unfolding make
  initialize_connections zero b w = (some b, w)
  initialize_connections (suc n) b w =
      let rest =
        initialize_connections n (m.add_connection_to_container w.made b)
          (record w { made = w.made + 1 }) in
      elim ((make w).0) [ none ↦ (none, (make w).1) | some c ↦ rest ]

module _ {K Box : Type 0} (hash : K → ℕ) (m : Methods Box) (factory : ℕ → Bool) where
  abbrev pub set_box : ℕ → Box → Pool K Box → Pool K Box
  set_box i b p = record p { boxes = λ j. if j == i then b else p.boxes j }

  unfoldable pub new_pool : (size per_key : ℕ) → Pool K Box
  new_pool size per_key = record {
    pool = [];
    connection_pool_size = size;
    connections_per_key = per_key;
    closed = false;
    boxes = λ _. m.get_connection_container;
    next_box = 0;
  }

  unfoldable pub close_box : ℕ → Pool K Box → World → Pool K Box × World
  close_box i p w =
      let (cs, b) = m.close_connections (p.boxes i) in
      (set_box i b p, record w { shut = w.shut ++ cs })

  -- A full pool closes the connections of the container that is about to leave.
  unfoldable pub evict : Pool K Box → World → Pool K Box × World
  unfolding close_box
  evict p w = elim (kicked_out p.connection_pool_size p.pool) [
    | none ↦ (p, w)
    | some (_, old) ↦ close_box old p w
  ]

  -- `_create_connections_if_necessary`: the container of the key.
  unfoldable pub create_connections_if_necessary :
      K → Pool K Box → World → Outcome ℕ × Pool K Box × World
  unfolding initialize_connections evict
  create_connections_if_necessary k p w =
      if p.closed
      then (raise connection_pool_already_closed_error, p, w)
      else elim (touch hash k p.pool) [
        | some (i, used) ↦ (ok i, record p { pool = used }, w)
        | none ↦
            (let (made, v) =
                initialize_connections m factory p.connections_per_key m.get_connection_container
                  w in
              elim made [
                | none ↦ (raise create_connection_error, p, v)
                | some b ↦
                    (let (q, u) = evict p v in
                      (
                        ok q.next_box,
                        record (set_box q.next_box b q) {
                          pool = put hash q.connection_pool_size k q.next_box q.pool;
                          next_box = q.next_box + 1;
                        },
                        u,
                      ))
              ])
      ]

  -- The loop of `get_connection`; `none` where the fuel ends it.
  unfoldable pub choice_loop : ℕ → ℕ → Pool K Box → World → Option (Outcome ℕ) × Pool K Box × World
  unfolding make
  choice_loop zero i p w = (none, p, w)
  choice_loop (suc fuel) i p w = elim (m.choice_connection_from_container (p.boxes i)) [
    | raise e ↦ (some (raise e), p, w)
    | waits ↦ (some waits, p, w)
    | ok (c, b) ↦
        if is_in c w.shut
        then (let dropped = set_box i (m.remove_connection_from_container c b) p in
            let added =
              set_box i
                (m.add_connection_to_container w.made (m.remove_connection_from_container c b)) p in
            let rest = choice_loop fuel i added (make m factory w).1 in
            elim ((make m factory w).0) [
              | none ↦ (some (raise create_connection_error), dropped, (make m factory w).1)
              | some d ↦ rest
            ])
        else (some (ok c), set_box i b p, w)
  ]

  unfoldable pub get_connection :
      ℕ → K → Pool K Box → World → Option (Outcome ℕ) × Pool K Box × World
  unfolding create_connections_if_necessary choice_loop
  get_connection fuel k p w =
      let (r, q, v) = create_connections_if_necessary k p w in
      elim r [
        | raise e ↦ (some (raise e), q, v)
        | waits ↦ (some waits, q, v)
        | ok i ↦ choice_loop fuel i q v
      ]

  -- `release_connection`
  unfoldable pub release_connection : K → ℕ → Pool K Box → Pool K Box
  release_connection k c p = if p.closed then p else elim (touch hash k p.pool) [
    | none ↦ p
    | some (i, used) ↦
        set_box i (m.release_connection_to_container c (p.boxes i)) (record p { pool = used })
  ]

  -- `close`: the containers in the cache's order, the oldest first.
  unfoldable pub close_boxes : List (K × ℕ) → Pool K Box → World → Pool K Box × World
  unfolding close_box
  close_boxes [] p w = (p, w)
  close_boxes ((_, i) ∷ es) p w = let (q, v) = close_box i p w in close_boxes es q v

  unfoldable pub close : Pool K Box → World → Pool K Box × World
  unfolding close_boxes
  close p w =
      if p.closed
      then (p, w)
      else (let (q, v) = close_boxes (reverse p.pool) p w in (record q { closed = true }, v))
