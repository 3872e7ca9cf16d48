-- ===== src/Lru.antt =====
-- helper/lru_cache.py: `LRUCache`, entries in a circular doubly linked list around a head entry,
-- and a dictionary from hash codes to entries. An object is an address in a heap; address 0 is
-- the head. `hash` is Python's, and the head's key and value, None, are parameters.
pub mod Ring
pub mod Entries
pub mod Codes
pub mod Items
pub mod Refines
pub mod Writes
pub mod Reads
pub mod Runs
pub mod Collisions
use summerrpc.Prelude.{
  ℕ, zero, suc, ◌+◌, ◌-◌, ◌==◌, leb, ltb, max, Bool, true, false, Option, none, some, List, [], ◌∷◌,
  if◌then◌else◌, ◌||◌,
}

pub record Entry (K V : Type 0) : Type 0 where
  pub key : K
  pub value : V
  pub prev : ℕ
  pub next : ℕ

-- A dictionary of addresses: what is stored under a hash code, and `len`.
pub record Dict : Type 0 where
  pub get : ℕ → Option ℕ
  pub size : ℕ

pub record Cache (K V : Type 0) : Type 0 where
  pub max_size : ℕ
  pub heap : ℕ → Entry K V
  pub fresh : ℕ
  pub dict : Dict

abbrev pub head : ℕ
head = 0

pub data Result (A : Type 0) : Type 0 where
  ok : A → Result A
  key_error : Result A

abbrev pub update {ℓ} : {A : Type ℓ} → (ℕ → A) → ℕ → A → ℕ → A
update f a x b = if a == b then x else f b

abbrev pub is_some {ℓ} : {A : Type ℓ} → Option A → Bool
is_some none = false
is_some (some x) = true

-- `d[h] = a` and `d.pop(h)`; `pop` of an absent code is handled by its caller.
abbrev pub dict_set : Dict → ℕ → ℕ → Dict
dict_set d h a = record {
  get = update d.get h (some a);
  size = if is_some (d.get h) then d.size else d.size + 1;
}

abbrev pub dict_pop : Dict → ℕ → Dict
dict_pop d h = record {
  get = update d.get h none;
  size = if is_some (d.get h) then d.size - 1 else d.size;
}

abbrev pub Heap : Type 0 → Type 0 → Type 0
Heap K V = ℕ → Entry K V

module _ {K V : Type 0} where
  abbrev pub set_next : Heap K V → ℕ → ℕ → Heap K V
  set_next h a b = update h a (record (h a) { next = b })

  abbrev pub set_prev : Heap K V → ℕ → ℕ → Heap K V
  set_prev h a b = update h a (record (h a) { prev = b })

  abbrev pub set_pair : Heap K V → ℕ → K → V → Heap K V
  set_pair h a k v = update h a (record (h a) { key = k; value = v })

  -- The two assignments that take an entry out of the ring.
  pub unlink : Heap K V → ℕ → Heap K V
  unlink h a = let g = set_next h (h a).prev (h a).next in set_prev g (g a).next (g a).prev

  -- The four assignments that put an entry behind the head.
  pub link_front : Heap K V → ℕ → Heap K V
  link_front h a =
      let g1 = set_prev h a head in
      let g2 = set_next g1 a (g1 head).next in
      let g3 = set_prev g2 (g2 head).next a in set_next g3 head a

  pub change_pointer : Heap K V → ℕ → Heap K V
  change_pointer h a = link_front (unlink h a) a

module _ {K V : Type 0} (no_key : K) (no_value : V) where
  -- `__init__`; `None` and 0 for the size stand for 65535.
  pub init : Option ℕ → Cache K V
  init max_size = record {
    max_size = max (elim max_size [ none ↦ 65535 | some n ↦ if n == 0 then 65535 else n ]) 1;
    heap = λ _. record { key = no_key; value = no_value; prev = head; next = head };
    fresh = 1;
    dict = record { get = λ _. none; size = 0 };
  }

module _ {K V : Type 0} (hash : K → ℕ) where
  -- `__setitem__`, in its three branches.
  pub set_item : K → V → Cache K V → Result (Cache K V)
  set_item k v c = elim (c.dict.get (hash k)) [
    | some a ↦ ok (record c { heap = change_pointer (set_pair c.heap a k v) a })
    | none ↦
        if leb c.max_size c.dict.size
        then (let a = (c.heap head).prev in
            let old = hash (c.heap a).key in
            elim (c.dict.get old) [
              | none ↦ key_error
              | some _ ↦ ok (record c {
                heap = change_pointer (set_pair c.heap a k v) a;
                dict = dict_set (dict_pop c.dict old) (hash k) a;
              })
            ])
        else (let a = c.fresh in
            let new : Entry K V = record { key = k; value = v; prev = a; next = a } in
            ok (record c {
              heap = link_front (update c.heap a new) a;
              fresh = c.fresh + 1;
              dict = dict_set c.dict (hash k) a;
            }))
  ]

  pub get_item : K → Cache K V → Result (Cache K V × V)
  get_item k c = elim (c.dict.get (hash k)) [
    | none ↦ key_error
    | some a ↦ let g = change_pointer c.heap a in ok (record c { heap = g }, (g a).value)
  ]

  pub del_item : K → Cache K V → Result (Cache K V)
  del_item k c = elim (c.dict.get (hash k)) [
    | none ↦ key_error
    | some a ↦ ok (record c { heap = unlink c.heap a; dict = dict_pop c.dict (hash k) })
  ]

  pub contains : K → Cache K V → Bool
  contains k c = is_some (c.dict.get (hash k))

module _ {K V : Type 0} where
  pub clear : Cache K V → Cache K V
  clear c = record c {
    heap = set_prev (set_next c.heap head head) head head;
    dict = record { get = λ _. none; size = 0 };
  }

  pub current_size : Cache K V → ℕ
  current_size c = c.dict.size

  -- The entry at the old end of a full cache.
  pub will_be_kicked_out : Cache K V → Option (K × V)
  will_be_kicked_out c =
      if ltb c.dict.size c.max_size
      then none
      else (let e = c.heap (c.heap head).prev in some (e.key, e.value))

  -- `iteritems`, from the old end. `none` means that the fuel ran out.
  pub iter_from : ℕ → Heap K V → ℕ → Option (List (K × V))
  iter_from zero h a = none
  iter_from (suc f) h a =
      let rest = iter_from f h (h a).prev in
      if a == head
      then some []
      else elim rest [ none ↦ none | some l ↦ some (((h a).key, (h a).value) ∷ l) ]

  pub iteritems : Cache K V → Option (List (K × V))
  unfolding iter_from
  iteritems c = iter_from (c.dict.size + 1) c.heap (c.heap head).prev
