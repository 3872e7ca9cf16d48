-- ===== src/Lru/Codes.antt =====
-- The addresses of a ring under a function to hash codes: lookups, removals, and where they agree
-- with the entries.
use summerrpc.Prelude.{
  ℕ, ◌≡◌, ◌≢◌, refl, sym, ap, ◌∙◌, Option, none, some, List, [], ◌∷◌, ◌++◌, arith, ◌==◌,
  if◌then◌else◌, Bool-cases, inl, inr,
}

module _ (code : ℕ → ℕ) where
  abbrev pub find_addr : ℕ → List ℕ → Option ℕ
  find_addr h [] = none
  find_addr h (a ∷ cs) = if code a == h then some a else find_addr h cs

  -- No address has the code.
  abbrev pub Lacks : ℕ → List ℕ → Type 0
  Lacks h [] = Unit
  Lacks h (a ∷ cs) = (code a ≢ h) × Lacks h cs

  -- No two addresses have one code.
  abbrev pub Apart : List ℕ → Type 0
  Apart [] = Unit
  Apart (a ∷ cs) = Lacks (code a) cs × Apart cs

  pub find_addr-Lacks : (h : ℕ) (cs : List ℕ) → Lacks h cs → find_addr h cs ≡ none
  find_addr-Lacks h [] l = refl
  find_addr-Lacks h (a ∷ cs) l = ground (arith, find_addr-Lacks h cs l.1)

  pub Lacks-of_none : (h : ℕ) (cs : List ℕ) → find_addr h cs ≡ none → Lacks h cs
  Lacks-of_none h [] e = tt
  Lacks-of_none h (a ∷ cs) e = (ground arith, Lacks-of_none h cs (ground arith))

  pub Lacks-split :
      (h : ℕ) (xs : List ℕ) (a : ℕ) (ys : List ℕ)
      → Lacks h (xs ++ a ∷ ys)
      → (code a ≢ h) × Lacks h (xs ++ ys)
  Lacks-split h [] a ys l = l
  Lacks-split h (x ∷ xs) a ys l = let (p, q) = Lacks-split h xs a ys l.1 in (p, (l.0, q))

  -- The middle address stands apart from the others.
  pub Apart-middle :
      (xs : List ℕ) (a : ℕ) (ys : List ℕ)
      → Apart (xs ++ a ∷ ys)
      → Lacks (code a) (xs ++ ys) × Apart (xs ++ ys)
  Apart-middle [] a ys d = d
  Apart-middle (x ∷ xs) a ys d =
      let (p, q) = Apart-middle xs a ys d.1 in
      let (u, v) = Lacks-split (code x) xs a ys d.0 in (((λ e. u (sym e)), p), (v, q))

  -- A lookup that succeeds cuts the ring at the address found.
  pub find_addr-split :
      (h : ℕ) (cs : List ℕ) (a : ℕ)
      → find_addr h cs ≡ some a
      → (xs : List ℕ) × (ys : List ℕ) × (cs ≡ xs ++ a ∷ ys) × (code a ≡ h)
  find_addr-split h [] a e = cc
  find_addr-split h (b ∷ cs) a e = elim (Bool-cases (code b == h)) [
    | inl here ↦ let q : b ≡ a = ground arith in ([], cs, ap (λ z. z ∷ cs) q, ground arith)
    | inr there ↦
        let (xs, ys, s, c) = find_addr-split h cs a (ground arith) in (b ∷ xs, ys, ap (◌∷◌ b) s, c)
  ]

  -- What a lookup finds when the address `a` has been taken out.
  pub find_addr-out :
      (h : ℕ) (xs : List ℕ) (a : ℕ) (ys : List ℕ)
      → Apart (xs ++ a ∷ ys)
      → find_addr h (xs ++ ys) ≡ (if code a == h then none else find_addr h (xs ++ a ∷ ys))
  find_addr-out h [] a ys d = ground (arith, find_addr-Lacks (code a) ys d.0)
  find_addr-out h (x ∷ xs) a ys d =
      let (u, v) = Lacks-split (code x) xs a ys d.0 in ground (arith, find_addr-out h xs a ys d.1)

module _ (code : ℕ → ℕ) where
  -- An address of the ring is found under its own code.
  pub find_addr-in :
      (xs : List ℕ) (a : ℕ) (ys : List ℕ)
      → Apart code (xs ++ a ∷ ys)
      → find_addr code (code a) (xs ++ a ∷ ys) ≡ some a
  find_addr-in [] a ys d = ground arith
  find_addr-in (x ∷ xs) a ys d =
      let (u, v) = Lacks-split code (code x) xs a ys d.0 in ground (arith, find_addr-in xs a ys d.1)

  -- Moving an address to the front changes no lookup.
  pub find_addr-front :
      (h : ℕ) (xs : List ℕ) (a : ℕ) (ys : List ℕ)
      → Apart code (xs ++ a ∷ ys)
      → (if code a == h then some a else find_addr code h (xs ++ ys))
        ≡ find_addr code h (xs ++ a ∷ ys)
  find_addr-front h xs a ys d = elim (Bool-cases (code a == h)) [
    | inl here ↦
        let e : code a ≡ h = ground arith in
        rw here (sym (ap (λ z. find_addr code z (xs ++ a ∷ ys)) (sym e) ∙ find_addr-in xs a ys d))
    | inr there ↦ rw there (ground (arith, find_addr-out code h xs a ys d))
  ]

module _ (code code' : ℕ → ℕ) where
  -- Two code functions that agree on the ring.
  abbrev pub Agree : List ℕ → Type 0
  Agree [] = Unit
  Agree (a ∷ cs) = (code' a ≡ code a) × Agree cs

  pub find_addr-Agree :
      (h : ℕ) (cs : List ℕ) → Agree cs → find_addr code' h cs ≡ find_addr code h cs
  find_addr-Agree h [] g = refl
  find_addr-Agree h (a ∷ cs) g = rw (g.0, find_addr-Agree h cs g.1)

  pub Lacks-Agree : (h : ℕ) (cs : List ℕ) → Agree cs → Lacks code h cs → Lacks code' h cs
  Lacks-Agree h [] g l = tt
  Lacks-Agree h (a ∷ cs) g l = ((λ e. l.0 (sym (g.0) ∙ e)), Lacks-Agree h cs g.1 l.1)

  pub Apart-Agree : (cs : List ℕ) → Agree cs → Apart code cs → Apart code' cs
  Apart-Agree [] g l = tt
  Apart-Agree (a ∷ cs) g l = (rw (g.0) (Lacks-Agree (code a) cs g.1 l.0), Apart-Agree cs g.1 l.1)
