-- ===== src/Lru/Entries.antt =====
-- The pointer writes of a cache, on the ring and on the keys and values.
use mathlib.Core.Path.{fun_ext}
use summerrpc.Prelude.{
  ℕ, ◌≡◌, ◌≢◌, ◌∙◌, List, ◌∷◌, ◌++◌, arith, Fresh, Distinct, Distinct-middle, append-Fresh,
}
use summerrpc.Lru.{Entry, Heap, update, head, set_pair, unlink, link_front, change_pointer}
use summerrpc.Lru.Ring.{
  Linked, unlink-Linked, link_front-Linked, Linked-eq, Linked-next, Linked-prev,
}

module _ {K V : Type 0} where
  abbrev nexts : Heap K V → ℕ → ℕ
  nexts h a = (h a).next

  abbrev prevs : Heap K V → ℕ → ℕ
  prevs h a = (h a).prev

  -- The entries `xs` follow one another around the head, in both directions.
  abbrev pub RingOf : Heap K V → List ℕ → Type 0
  RingOf h xs = Linked (nexts h) (prevs h) head xs head

  abbrev pub pair : Heap K V → ℕ → K × V
  pair h a = ((h a).key, (h a).value)

  nexts-unlink :
      (h : Heap K V) (a : ℕ) → nexts (unlink h a) ≡ update (nexts h) (h a).prev (h a).next
  unfolding unlink
  nexts-unlink h a = fun_ext λ b. ground arith

  prevs-unlink :
      (h : Heap K V) (a : ℕ) → prevs (unlink h a) ≡ update (prevs h) (h a).next (h a).prev
  unfolding unlink
  prevs-unlink h a = fun_ext λ b. ground arith

  pub unlink-RingOf :
      (h : Heap K V) (xs : List ℕ) (a : ℕ) (ys : List ℕ)
      → RingOf h (xs ++ a ∷ ys)
      → Distinct (head ∷ xs ++ a ∷ ys)
      → RingOf (unlink h a) (xs ++ ys)
  unlink-RingOf h xs a ys l d =
      Linked-eq head (xs ++ ys) head (nexts-unlink h a) (prevs-unlink h a)
        (unlink-Linked (nexts h) (prevs h) head xs a ys l d)

  nexts-link_front :
      (h : Heap K V) (a : ℕ)
      → a ≢ head
      → nexts (link_front h a) ≡ update (update (nexts h) a (h head).next) head a
  unfolding link_front
  nexts-link_front h a f = fun_ext λ b. ground arith

  prevs-link_front :
      (h : Heap K V) (a : ℕ)
      → a ≢ head
      → prevs (link_front h a) ≡ update (update (prevs h) a head) (h head).next a
  unfolding link_front
  prevs-link_front h a f = fun_ext λ b. ground arith

  pub link_front-RingOf :
      (h : Heap K V) (a : ℕ) (xs : List ℕ)
      → RingOf h xs
      → Distinct (head ∷ xs)
      → Fresh a (head ∷ xs)
      → RingOf (link_front h a) (a ∷ xs)
  link_front-RingOf h a xs l d f =
      Linked-eq head (a ∷ xs) head (nexts-link_front h a f.0) (prevs-link_front h a f.0)
        (link_front-Linked (nexts h) (prevs h) head a xs l d f)

  pub set_pair-RingOf :
      (h : Heap K V) (a : ℕ) (k : K) (v : V) (xs : List ℕ)
      → RingOf h xs
      → RingOf (set_pair h a k v) xs
  set_pair-RingOf h a k v xs l =
      let n : nexts (set_pair h a k v) ≡ nexts h = fun_ext λ b. ground arith in
      let r : prevs (set_pair h a k v) ≡ prevs h = fun_ext λ b. ground arith in
      Linked-eq head xs head n r l

  -- No pointer write changes a key or a value.
  pub pair-unlink : (h : Heap K V) (a : ℕ) → pair (unlink h a) ≡ pair h
  unfolding unlink
  pair-unlink h a = fun_ext λ b. ground arith

  pub pair-link_front : (h : Heap K V) (a : ℕ) → pair (link_front h a) ≡ pair h
  unfolding link_front
  pair-link_front h a = fun_ext λ b. ground arith

  pub pair-change_pointer : (h : Heap K V) (a : ℕ) → pair (change_pointer h a) ≡ pair h
  unfolding change_pointer
  pair-change_pointer h a = pair-link_front (unlink h a) a ∙ pair-unlink h a

  pub pair-set_pair :
      (h : Heap K V) (a : ℕ) (k : K) (v : V) → pair (set_pair h a k v) ≡ update (pair h) a (k, v)
  pair-set_pair h a k v = fun_ext λ b. ground arith

  pub change_pointer-RingOf :
      (h : Heap K V) (xs : List ℕ) (a : ℕ) (ys : List ℕ)
      → RingOf h (xs ++ a ∷ ys)
      → Distinct (head ∷ xs ++ a ∷ ys)
      → RingOf (change_pointer h a) (a ∷ xs ++ ys)
  unfolding change_pointer
  change_pointer-RingOf h xs a ys l d =
      let (f, g, e) = Distinct-middle (head ∷ xs) a ys d in
      link_front-RingOf (unlink h a) a (xs ++ ys) (unlink-RingOf h xs a ys l d) e
        (append-Fresh a (head ∷ xs) ys f g)

  -- An entry made at an unused address, linked to itself.
  pub new-RingOf :
      (h : Heap K V) (a : ℕ) (k : K) (v : V) (xs : List ℕ)
      → a ≢ head
      → Fresh a xs
      → RingOf h xs
      → RingOf (update h a (record { key = k; value = v; prev = a; next = a })) xs
  new-RingOf h a k v xs z f l =
      let new : Entry K V = record { key = k; value = v; prev = a; next = a } in
      let n : nexts (update h a new) ≡ update (nexts h) a a = fun_ext λ b. ground arith in
      let r : prevs (update h a new) ≡ update (prevs h) a a = fun_ext λ b. ground arith in
      Linked-eq head xs head n r (
        Linked-prev _ (prevs h) a a head xs head z f
          (Linked-next (nexts h) (prevs h) a a head xs head z f l))

  pub pair-new :
      (h : Heap K V) (a : ℕ) (k : K) (v : V)
      → pair (update h a (record { key = k; value = v; prev = a; next = a }))
        ≡ update (pair h) a (k, v)
  pair-new h a k v = fun_ext λ b. ground arith
