-- ===== src/Lru/Ring.antt =====
-- The ring of a cache: links in both directions, under the writes of the methods.
use summerrpc.Prelude.{
  ℕ, ◌≡◌, ◌≢◌, sym, ap, append-nil, subst, List, [], ◌∷◌, ◌++◌, arith, Fresh, Distinct,
  Fresh-append, append-Fresh, Distinct-middle,
}
use summerrpc.Lru.{update}

-- From `p` the links `n` lead through `xs` to `q`, and the links `r` lead back.
abbrev pub Linked : (ℕ → ℕ) → (ℕ → ℕ) → ℕ → List ℕ → ℕ → Type 0
Linked n r p [] q = (n p ≡ q) × (r q ≡ p)
Linked n r p (x ∷ xs) q = (n p ≡ x) × (r x ≡ p) × Linked n r x xs q

module _ (n r : ℕ → ℕ) where
  pub Linked-next :
      (b v p : ℕ) (xs : List ℕ) (q : ℕ)
      → b ≢ p
      → Fresh b xs
      → Linked n r p xs q
      → Linked (update n b v) r p xs q
  Linked-next b v p [] q h f l = (ground arith, l.1)
  Linked-next b v p (x ∷ xs) q h f l = (ground arith, l.1, Linked-next b v x xs q f.0 f.1 l.2)

  pub Linked-prev :
      (b v p : ℕ) (xs : List ℕ) (q : ℕ)
      → b ≢ q
      → Fresh b xs
      → Linked n r p xs q
      → Linked n (update r b v) p xs q
  Linked-prev b v p [] q h f l = (l.0, ground arith)
  Linked-prev b v p (x ∷ xs) q h f l = (l.0, ground arith, Linked-prev b v x xs q h f.1 l.2)

  -- The entry before the end is the start or one of the list.
  last-ne : (b p : ℕ) (xs : List ℕ) (q : ℕ) → b ≢ p → Fresh b xs → Linked n r p xs q → b ≢ r q
  last-ne b p [] q h f l = ground arith
  last-ne b p (x ∷ xs) q h f l = last-ne b x xs q f.0 f.1 l.2

  pub split :
      (p : ℕ) (xs : List ℕ) (a : ℕ) (ys : List ℕ) (q : ℕ)
      → Linked n r p (xs ++ a ∷ ys) q
      → Linked n r p xs a × Linked n r a ys q
  split p [] a ys q l = ((l.0, l.1), l.2)
  split p (x ∷ xs) a ys q l = let (u, v) = split x xs a ys q l.2 in ((l.0, l.1, u), v)

  -- The last link of a path is turned to another end.
  relink :
      (p : ℕ) (xs : List ℕ) (a c : ℕ)
      → Linked n r p xs a
      → Fresh p xs
      → Distinct xs
      → Fresh c xs
      → Linked (update n (r a) c) (update r c (r a)) p xs c
  relink p [] a c l f d g = (ground arith, ground arith)
  relink p (x ∷ xs) a c l f d g =
      let other = last-ne p x xs a f.0 f.1 l.2 in
      (ground arith, ground arith, relink x xs a c l.2 d.0 d.1 g.1)

  last-Fresh :
      (p : ℕ) (xs : List ℕ) (q : ℕ) (ys : List ℕ)
      → Linked n r p xs q
      → Distinct (p ∷ xs ++ ys)
      → Fresh (r q) ys
  last-Fresh p xs q [] l d = tt
  last-Fresh p xs q (y ∷ ys) l d =
      let (f, g, e) = Distinct-middle (p ∷ xs) y ys d in
      ((λ e. last-ne y p xs q f.0 f.1 l (sym e)), last-Fresh p xs q ys l e)

  pub last-split :
      (p x : ℕ) (xs : List ℕ) (q : ℕ)
      → Linked n r p (x ∷ xs) q
      → (us : List ℕ) × (x ∷ xs ≡ us ++ r q ∷ [])
  last-split p x [] q l = ([], ground (arith, l.2))
  last-split p x (y ∷ ys) q l = let (us, e) = last-split x y ys q l.2 in (x ∷ us, ap (◌∷◌ x) e)

join :
    (n r : ℕ → ℕ) (p : ℕ) (xs : List ℕ) (a : ℕ) (ys : List ℕ) (q : ℕ)
    → Linked n r p xs a
    → Linked n r a ys q
    → Linked n r p (xs ++ a ∷ ys) q
join n r p [] a ys q u v = (u.0, u.1, v)
join n r p (x ∷ xs) a ys q u v = (u.0, u.1, join n r x xs a ys q u.2 v)

Distinct-left {ℓ} : {A : Type ℓ} (xs ys : List A) → Distinct (xs ++ ys) → Distinct xs
Distinct-left [] ys d = tt
Distinct-left (x ∷ xs) ys d = ((Fresh-append x xs ys d.0).0, Distinct-left xs ys d.1)

module _ (n r : ℕ → ℕ) where
  -- Taking `a` out of the ring: the entries around it are joined.
  pub unlink-Linked :
      (p : ℕ) (xs : List ℕ) (a : ℕ) (ys : List ℕ)
      → Linked n r p (xs ++ a ∷ ys) p
      → Distinct (p ∷ xs ++ a ∷ ys)
      → Linked (update n (r a) (n a)) (update r (n a) (r a)) p (xs ++ ys) p
  unlink-Linked p xs a [] l d =
      let (u, v) = split n r p xs a [] p l in
      let (f, g) = Fresh-append p xs (a ∷ []) d.0 in
      rw (append-nil, v.0) (relink n r p xs a p u f (Distinct-left xs (a ∷ []) d.1) f)
  unlink-Linked p xs a (y ∷ ys) l d =
      let (u, v) = split n r p xs a (y ∷ ys) p l in
      let (f, g) = Fresh-append p xs (a ∷ y ∷ ys) d.0 in
      let (_, _, e) = Distinct-middle xs a (y ∷ ys) d.1 in
      let (fy, gy, _) = Distinct-middle xs y ys e in
      let other = last-Fresh n r p xs a (y ∷ ys) u (append-Fresh p xs (y ∷ ys) f g.1, e) in
      let front = relink n r p xs a y u f (Distinct-left xs (a ∷ y ∷ ys) d.1) fy in
      let back = Linked-next n r (r a) y y ys p other.0 other.1 v.2 in
      let back' = Linked-prev _ r y (r a) y ys p (λ h. g.1.0 (sym h)) gy back in
      rw (v.0) (join _ _ p xs y ys p front back')

  -- Putting `a` behind the start.
  pub link_front-Linked :
      (p a : ℕ) (xs : List ℕ)
      → Linked n r p xs p
      → Distinct (p ∷ xs)
      → Fresh a (p ∷ xs)
      → Linked (update (update n a (n p)) p a) (update (update r a p) (n p) a) p (a ∷ xs) p
  link_front-Linked p a [] l d f = (ground arith, ground arith, (ground arith, ground arith))
  link_front-Linked p a (x ∷ xs) l d f =
      let b1 = Linked-next n r a (n p) x xs p f.1.0 f.1.1 l.2 in
      let b2 = Linked-next _ r p a x xs p d.0.0 d.0.1 b1 in
      let b3 = Linked-prev _ r a p x xs p f.0 f.1.1 b2 in
      let b4 = Linked-prev _ _ x a x xs p (λ h. d.0.0 (sym h)) d.1.0 b3 in
      (
        ground arith,
        ground arith,
        (
          ground arith,
          ground arith,
          subst (λ t. Linked (update (update n a (n p)) p a) (update (update r a p) t a) x xs p)
              (sym (l.0)) b4,
        ),
      )

pub Linked-eq :
    {n n' r r' : ℕ → ℕ} (p : ℕ) (xs : List ℕ) (q : ℕ)
    → n' ≡ n
    → r' ≡ r
    → Linked n r p xs q
    → Linked n' r' p xs q
Linked-eq p xs q e f l = rw (e, f) l
