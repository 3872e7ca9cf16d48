-- ===== src/StaticList.antt =====
-- helper/list.py: `StaticList`, a stack threaded through an array of nodes, with a free list in
-- the same array. A method that raises leaves the state as it was.
pub mod Chain
pub mod Refines
pub mod Full
use summerrpc.Prelude.{
  ℕ, zero, suc, ◌+◌, ◌-◌, Bool, false, Option, none, some, List, [], ◌∷◌, leb, if◌then◌else◌,
  length, get_elem?, set,
}
use summerrpc.Prelude.Int.{ℤ, pos, negsuc, py_index}

pub data Error : Type 0 where
  list_full list_empty index_error not_implemented : Error

pub record Node (A : Type 0) : Type 0 where
  pub element : Option A
  pub next : ℤ

pub record StaticList (A : Type 0) : Type 0 where
  pub nodes : List (Node A)
  pub head : Node A
  pub space : Node A
  pub current_size : ℕ

-- What a call leaves: the state after it, and the value returned or the exception raised.
pub data Outcome (A R : Type 0) : Type 0 where
  ok : StaticList A → R → Outcome A R
  raise : StaticList A → Error → Outcome A R

-- The test `node_index == -1`.
abbrev pub is_end : ℤ → Bool
is_end (negsuc zero) = Bool.true
is_end _ = false

-- `self._space.next is None`: the field always holds an int.
abbrev pub is_none : ℤ → Bool
is_none (pos n) = false
is_none (negsuc n) = false

module _ {A : Type 0} where
  -- `Node()`
  abbrev pub new_node : Node A
  new_node = record { element = none; next = negsuc 0 }

  -- The nodes `i`, ..., of an array whose last node is the `left`-th from here.
  unfoldable pub free_nodes : ℕ → ℕ → List (Node A)
  free_nodes zero i = []
  free_nodes (suc zero) i = new_node ∷ []
  free_nodes (suc (suc left)) i =
      record { element = none; next = pos (i + 1) } ∷ free_nodes (suc left) (i + 1)

  -- `__init__`, for a `max_size` that passes its assertion.
  unfoldable pub init : ℕ → StaticList A
  unfolding free_nodes
  init max_size = record {
    nodes = free_nodes max_size 0;
    head = new_node;
    space = record new_node { next = pos 0 };
    current_size = 0;
  }

  -- `self._nodes[i]`
  abbrev pub node_at : List (Node A) → ℤ → Option (ℕ × Node A)
  node_at ns i = elim (py_index (length ns) i) [
    | none ↦ none
    | some k ↦ elim (get_elem? ns k) [ none ↦ none | some n ↦ some (k, n) ]
  ]

  unfoldable pub insert_left : A → StaticList A → Outcome A (Unit {0})
  insert_left e s =
      if is_end s.space.next then raise s list_full else elim (node_at s.nodes s.space.next) [
        | none ↦ raise s index_error
        | some (k, node) ↦
            ok
              (record s {
                nodes = set s.nodes k (record { element = some e; next = s.head.next });
                head = record (s.head) { next = s.space.next };
                space = record (s.space) { next = node.next };
                current_size = s.current_size + 1;
              })
              tt
      ]

  -- The element is returned before the `finally` block recycles its node.
  unfoldable pub pop_left : StaticList A → Outcome A (Option A)
  pop_left s =
      if leb s.current_size 0 then raise s list_empty else elim (node_at s.nodes s.head.next) [
        | none ↦ raise s index_error
        | some (k, node) ↦
            ok
              (record s {
                nodes = set s.nodes k (record node { next = s.space.next });
                head = record (s.head) { next = node.next };
                space = record (s.space) { next = s.head.next };
                current_size = s.current_size - 1;
              })
              node.element
      ]

  unfoldable pub peek_left : StaticList A → Outcome A (Option A)
  peek_left s =
      if leb s.current_size 0 then raise s list_empty else elim (node_at s.nodes s.head.next) [
        | none ↦ raise s index_error
        | some (k, node) ↦ ok s node.element
      ]

  unfoldable pub pop_right : StaticList A → Outcome A (Option A)
  pop_right s = raise s not_implemented

  unfoldable pub append : A → StaticList A → Outcome A (Unit {0})
  append e s = raise s not_implemented

  unfoldable pub size : StaticList A → ℕ
  size s = s.current_size

  unfoldable pub is_full : StaticList A → Bool
  is_full s = is_none s.space.next
