-- ===== src/Lru/Items.antt =====
-- What a cache promises: entries in order of use, the most recent first, told apart by hash code.
use summerrpc.Prelude.{ℕ, ◌==◌, leb, ltb, Option, none, some, List, [], ◌∷◌, if◌then◌else◌, length}

module _ {K V : Type 0} (hash : K → ℕ) where
  -- The entry under a hash code, and the entries without it.
  abbrev pub find : ℕ → List (K × V) → Option (K × V)
  find h [] = none
  find h (e ∷ es) = if hash e.0 == h then some e else find h es

  abbrev pub remove : ℕ → List (K × V) → List (K × V)
  remove h [] = []
  remove h (e ∷ es) = if hash e.0 == h then es else e ∷ remove h es

abbrev pub drop_last {ℓ} : {A : Type ℓ} → List A → List A
drop_last [] = []
drop_last (x ∷ []) = []
drop_last (x ∷ y ∷ ys) = x ∷ drop_last (y ∷ ys)

abbrev pub last {ℓ} : {A : Type ℓ} → List A → Option A
last [] = none
last (x ∷ []) = some x
last (x ∷ y ∷ ys) = last (y ∷ ys)

module _ {K V : Type 0} (hash : K → ℕ) where
  -- `put` moves a known code to the front under the new key and value; a new code drives out the
  -- oldest entry when `cap` entries are there.
  abbrev pub put : ℕ → K → V → List (K × V) → List (K × V)
  put cap k v es = elim (find hash (hash k) es) [
    | some _ ↦ (k, v) ∷ remove hash (hash k) es
    | none ↦ if leb cap (length es) then (k, v) ∷ drop_last es else (k, v) ∷ es
  ]

  -- Reading moves the entry to the front, under the key it was stored with.
  unfoldable pub touch : K → List (K × V) → Option (V × List (K × V))
  touch k es = elim (find hash (hash k) es) [
    | none ↦ none
    | some e ↦ some (e.1, e ∷ remove hash (hash k) es)
  ]

  unfoldable pub delete : K → List (K × V) → Option (List (K × V))
  delete k es = elim (find hash (hash k) es) [
    | none ↦ none
    | some _ ↦ some (remove hash (hash k) es)
  ]

module _ {K V : Type 0} where
  abbrev pub kicked_out : ℕ → List (K × V) → Option (K × V)
  kicked_out cap es = if ltb (length es) cap then none else last es
