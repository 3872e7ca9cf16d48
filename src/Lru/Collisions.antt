-- ===== src/Lru/Collisions.antt =====
-- What a cache answers under a key that has the hash code of another.
use summerrpc.Prelude.{ℕ, ◌≡◌, some, List, ◌∷◌, arith, leb, length, if_cases, option_cases}
use summerrpc.Lru.{Cache, ok, set_item, get_item}
use summerrpc.Lru.Items.{find, remove, put, drop_last}
use summerrpc.Lru.Refines.{Rep}
use summerrpc.Lru.Writes.{set_item-put}
use summerrpc.Lru.Reads.{get_item-hit}

module _ {K V : Type 0} (hash : K → ℕ) where
  find-put :
      (cap : ℕ) (k k' : K) (v : V) (es : List (K × V))
      → hash k ≡ hash k'
      → find hash (hash k') (put hash cap k v es) ≡ some (k, v)
  find-put cap k k' v es e =
      option_cases (λ l. find hash (hash k') l ≡ some (k, v)) (find hash (hash k) es)
        (if_cases (λ l. find hash (hash k') l ≡ some (k, v)) (leb cap (length es))
          (here (drop_last es)) (here es))
        (λ a. here (remove hash (hash k) es))
    where
      here : (l : List (K × V)) → find hash (hash k') ((k, v) ∷ l) ≡ some (k, v)
      here l = ground (arith, e)

  -- For a cache that holds entries, and two keys of one hash code: after a value is stored under
  -- one of them, a read under the other returns that value, whether the keys are equal or not.
  pub get_item-set_item :
      (c : Cache K V) (es : List (K × V)) (k k' : K) (v : V)
      → Rep hash c es
      → hash k ≡ hash k'
      → (c' : Cache K V) × (c'' : Cache K V) × (set_item hash k v c ≡ ok c')
        × (get_item hash k' c' ≡ ok (c'', v))
  get_item-set_item c es k k' v r e =
      let (c', p, r', m) = set_item-put hash c k v es r in
      let (c'', q, r'', m') =
        get_item-hit hash c' k' (put hash c.max_size k v es) (k, v) r'
          (find-put c.max_size k k' v es e) in
      (c', c'', p, q)
