-- ===== src/ConnectionPool/Choosing.antt =====
-- connection_pool.py: the loop of `get_connection` in a pool of dedicated connections.
use summerrpc.Prelude.{
  ℕ, suc, ◌+◌, ◌<◌, ◌≡◌, refl, ap, ◌∙◌, Bool, true, false, Option, some, List, [], ◌∷◌, ◌++◌, arith,
  ◌==◌, if◌then◌else◌, length, length-append, append_assoc, All, Bool-cases, inl, inr,
}
use summerrpc.Exceptions.{no_available_connection_error, create_connection_error}
use summerrpc.ConnectionPool.{
  Outcome, ok, raise, waits, Pool, World, dedicate, make, choice_loop, set_box, is_in,
}

-- A connection above all closed ones is not among them.
is_in-above : (n : ℕ) (shut : List ℕ) → All (λ s. s < n) shut → is_in n shut ≡ false
is_in-above n [] h = refl
is_in-above n (s ∷ shut) h = let ih = is_in-above n shut h.1 in let l = h.0 in ground (arith, ih, l)

All-suc : (n : ℕ) (shut : List ℕ) → All (λ s. s < n) shut → All (λ s. s < n + 1) shut
All-suc n [] h = tt
All-suc n (s ∷ shut) h = (omega (arith, h.0), All-suc n shut h.1)

abbrev Live : List ℕ → List ℕ → Type 0
Live shut cs = All (λ c. is_in c shut ≡ false) cs

Live-append :
    (shut cs : List ℕ) (n : ℕ) → Live shut cs → is_in n shut ≡ false → Live shut (cs ++ n ∷ [])
Live-append shut [] n h e = (e, tt)
Live-append shut (c ∷ cs) n h e = (h.0, Live-append shut cs n h.1 e)

-- A connection that is handed out is not closed; a call waits only if its `get` is endless, and at
-- once, on an empty container.
abbrev pub Sound : Bool → ℕ → List ℕ → Outcome ℕ → Type 0
Sound endless size shut (ok c) = is_in c shut ≡ false
Sound endless size shut (raise e) = Unit
Sound endless size shut waits = (endless ≡ true) × (size ≡ 0)

Sound-size :
    (endless : Bool) (n m : ℕ) (shut : List ℕ) (o : Outcome ℕ)
    → 0 < n
    → Sound endless n shut o
    → Sound endless m shut o
Sound-size endless n m shut (ok c) l h = h
Sound-size endless n m shut (raise e) l h = tt
Sound-size endless n m shut waits l h = absurd (omega (arith, l, h.1))

module _ {K : Type 0} (hash : K → ℕ) (factory : ℕ → Bool) (i : ℕ) (endless : Bool) where
  -- The loop came to a result, and a connection among the results is live.
  abbrev pub Ends : ℕ → List ℕ → Option (Outcome ℕ) → Type 0
  Ends size shut r = (o : Outcome ℕ) × (r ≡ some o) × Sound endless size shut o

  abbrev loop : ℕ → Pool K (List ℕ) → World → Option (Outcome ℕ) × Pool K (List ℕ) × World
  loop fuel p w = choice_loop hash (dedicate endless) factory fuel i p w

  loop-empty :
      (fuel : ℕ) (p : Pool K (List ℕ)) (w : World)
      → p.boxes i ≡ []
      → (loop (suc fuel) p w).0
        ≡ some (if endless then waits else raise no_available_connection_error)
  unfolding choice_loop dedicate
  loop-empty fuel p w e = elim (Bool-cases endless) [
    | inl b ↦ rw (choice_loop, e, b) refl
    | inr b ↦ rw (choice_loop, e, b) refl
  ]

  loop-live :
      (fuel : ℕ) (p : Pool K (List ℕ)) (w : World) (c : ℕ) (cs : List ℕ)
      → p.boxes i ≡ c ∷ cs
      → is_in c w.shut ≡ false
      → (loop (suc fuel) p w).0 ≡ some (ok c)
  unfolding choice_loop dedicate
  loop-live fuel p w c cs e l = rw (choice_loop, e, l) refl

  loop-failed :
      (fuel : ℕ) (p : Pool K (List ℕ)) (w : World) (c : ℕ) (cs : List ℕ)
      → p.boxes i ≡ c ∷ cs
      → is_in c w.shut ≡ true
      → factory w.made ≡ false
      → (loop (suc fuel) p w).0 ≡ some (raise create_connection_error)
  unfolding choice_loop dedicate make
  loop-failed fuel p w c cs e l g = rw (choice_loop, e, l, g) refl

  loop-again :
      (fuel : ℕ) (p : Pool K (List ℕ)) (w : World) (c : ℕ) (cs : List ℕ)
      → p.boxes i ≡ c ∷ cs
      → is_in c w.shut ≡ true
      → factory w.made ≡ true
      → (loop (suc fuel) p w).0
        ≡ (loop fuel
            (set_box hash (dedicate endless) factory i (cs ++ w.made ∷ []) p)
            (record w { made = w.made + 1 })).0
  unfolding choice_loop dedicate make
  loop-again fuel p w c cs e l g = rw (choice_loop, e, l, g) refl

  -- For a container of dedicated connections, of which those in `old` may be closed and those in
  -- `fresh` are live, and a world where every closed connection was made before: with more fuel than
  -- there are connections in `old`, the loop comes to a result, whether the factory fails or not,
  -- unless the container is empty and the call waits without a timeout until another thread puts a
  -- connection back; and a connection that it hands out is not closed.
  pub choice_loop-Ends :
      (old fresh : List ℕ) (extra : ℕ) (p : Pool K (List ℕ)) (w : World)
      → p.boxes i ≡ old ++ fresh
      → Live w.shut fresh
      → All (λ s. s < w.made) w.shut
      → Ends
          (length (old ++ fresh))
          w.shut
          (choice_loop hash (dedicate endless) factory (suc (length old + extra)) i p w).0
  choice_loop-Ends [] [] extra p w e l b = elim (Bool-cases endless) [
    | inl x ↦ (
      waits,
      loop-empty _ p w e
          ∙ ap (λ (y : Bool). some (if y then waits else raise no_available_connection_error)) x,
      (x, refl),
    )
    | inr x ↦ (
      raise no_available_connection_error,
      loop-empty _ p w e
          ∙ ap (λ (y : Bool). some (if y then waits else raise no_available_connection_error)) x,
      tt,
    )
  ]
  choice_loop-Ends [] (d ∷ ds) extra p w e l b = (ok d, loop-live _ p w d ds e l.0, l.0)
  choice_loop-Ends (c ∷ old) fresh extra p w e l b = elim (Bool-cases (is_in c w.shut)) [
    | inr alive ↦ (ok c, loop-live _ p w c (old ++ fresh) e alive, alive)
    | inl dead ↦ elim (Bool-cases (factory w.made)) [
      | inr fails ↦
          (raise create_connection_error, loop-failed _ p w c (old ++ fresh) e dead fails, tt)
      | inl works ↦
          let q = set_box hash (dedicate endless) factory i ((old ++ fresh) ++ w.made ∷ []) p in
          let v : World = record w { made = w.made + 1 } in
          let f : suc (length old) + extra ≡ suc (length old + extra) = omega arith in
          let k : (i == i) ≡ true = ground arith in
          let z : q.boxes i ≡ old ++ (fresh ++ w.made ∷ []) =
            ap (λ b. if b then (old ++ fresh) ++ w.made ∷ [] else p.boxes i) k
            ∙ append_assoc old fresh (w.made ∷ []) in
          let (o, r, s) =
            choice_loop-Ends old (fresh ++ w.made ∷ []) extra q v z
              (Live-append w.shut fresh w.made l (is_in-above w.made w.shut b))
              (All-suc w.made w.shut b) in
          (
            o,
            loop-again _ p w c (old ++ fresh) e dead works ∙ ap (λ n. (loop n q v).0) f ∙ r,
            Sound-size endless (length (old ++ (fresh ++ w.made ∷ []))) _ w.shut o
                (omega (
                  arith,
                  length-append old (fresh ++ w.made ∷ []),
                  length-append fresh (w.made ∷ []),
                ))
                s,
          )
    ]
  ]
