-- ===== src/StaticList/Chain.antt =====
-- The two lists that the array of a `StaticList` holds: the stack, and the free nodes.
use summerrpc.Prelude.{
  ℕ, ◌+◌, ◌≡◌, refl, some, List, [], ◌∷◌, ◌++◌, arith, length, get_elem?, set, Fresh, Distinct,
  get_elem?-set_ne, ◌∙◌,
}
use summerrpc.Prelude.Int.{ℤ, pos, negsuc}
use summerrpc.StaticList.{Node, StaticList}

module _ {A : Type 0} where
  -- From `p` the links lead through the nodes `is`, which hold the values, to -1.
  pub data Chain (ns : List (Node A)) : ℤ → List ℕ → Type 0 where
    nil : Chain ns (negsuc 0) []
    cons :
        {i : ℕ} {is : List ℕ} {n : Node A}
        → get_elem? ns i ≡ some n
        → Chain ns n.next is
        → Chain ns (pos i) (i ∷ is)

  -- The nodes `is` hold the elements `xs`, in order.
  abbrev pub Holds : List (Node A) → List ℕ → List A → Type 0
  Holds ns [] [] = Unit
  Holds ns [] (x ∷ xs) = ⊥
  Holds ns (i ∷ is) [] = ⊥
  Holds ns (i ∷ is) (x ∷ xs) =
      ((n : Node A) × (get_elem? ns i ≡ some n) × (n.element ≡ some x)) × Holds ns is xs

  -- A write to another node keeps a chain.
  pub Chain-set :
      {ns : List (Node A)} {p : ℤ} {is : List ℕ} (i : ℕ) (n : Node A)
      → Chain ns p is
      → Fresh i is
      → Chain (set ns i n) p is
  Chain-set i n nil f = nil
  Chain-set {ns} i n (cons {i = j} e c) f =
      cons (get_elem?-set_ne ns i j n f.0 ∙ e) (Chain-set i n c f.1)

  pub Holds-set :
      (ns : List (Node A)) (is : List ℕ) (xs : List A) (i : ℕ) (n : Node A)
      → Holds ns is xs
      → Fresh i is
      → Holds (set ns i n) is xs
  Holds-set ns [] [] i n h f = tt
  Holds-set ns [] (x ∷ xs) i n h f = h
  Holds-set ns (j ∷ is) [] i n h f = h
  Holds-set ns (j ∷ is) (x ∷ xs) i n h f =
      let (m, e, v) = h.0 in
      ((m, get_elem?-set_ne ns i j n f.0 ∙ e, v), Holds-set ns is xs i n h.1 f.1)

  -- The array `s.nodes` is split into the stack `used`, which holds `xs`, and `free`.
  pub record Rep (cap : ℕ) (s : StaticList A) (xs : List A) : Type 0 where
    pub used : List ℕ
    pub free : List ℕ
    pub stack : Chain s.nodes s.head.next used
    pub spare : Chain s.nodes s.space.next free
    pub holds : Holds s.nodes used xs
    pub distinct : Distinct (used ++ free)
    pub total : length used + length free ≡ cap
    pub sized : s.current_size ≡ length used

  pub end_of_nil : {ns : List (Node A)} {p : ℤ} → Chain ns p [] → p ≡ negsuc 0
  end_of_nil nil = refl

  pub uncons :
      {ns : List (Node A)} {p : ℤ} {i : ℕ} {is : List ℕ}
      → Chain ns p (i ∷ is)
      → (n : Node A) × (p ≡ pos i) × (get_elem? ns i ≡ some n) × Chain ns n.next is
  uncons (cons {n} e c) = (n, refl, e, c)

  pub length-Holds :
      (ns : List (Node A)) (is : List ℕ) (xs : List A) → Holds ns is xs → length is ≡ length xs
  length-Holds ns [] [] h = refl
  length-Holds ns [] (x ∷ xs) h = absurd h
  length-Holds ns (i ∷ is) [] h = absurd h
  length-Holds ns (i ∷ is) (x ∷ xs) h = omega (arith, length-Holds ns is xs h.1)
