-- ===== src/ConnectionPool/Closing.antt =====
-- Closing the containers of a pool, and creating their connections.
use summerrpc.Prelude.{
  ℕ, zero, suc, ◌+◌, ◌≡◌, refl, ap, sym, ◌∙◌, Bool, true, Option, some, List, [], ◌∷◌, ◌++◌, arith,
  ltb, length, append-nil, append_assoc,
}
use summerrpc.Prelude.Int.{pos}
use summerrpc.Iterator.{Iterator, rewind, has_next, next, remove, append}
use summerrpc.ConnectionPool.{World, close_loop, close_shared, shared, initialize_connections, make}

-- One turn of the loop.
close_turn :
    (n x : ℕ) (s t u : Iterator ℕ)
    → has_next s ≡ true
    → next s ≡ (some x, t)
    → remove t ≡ (some x, u)
    → close_loop (suc n) s ≡ (x ∷ (close_loop n u).0, (close_loop n u).1)
unfolding close_loop
close_turn n x s t u h p q =
    let z : (remove (next s).1).1 ≡ u =
      ap (λ (r : Option ℕ × Iterator ℕ). (remove r.1).1) p
      ∙ ap (λ (r : Option ℕ × Iterator ℕ). r.1) q in
    rw (h, p) (ap (λ v. (x ∷ (close_loop n v).0, (close_loop n v).1)) z)

has_next-front : (x : ℕ) (xs : List ℕ) → has_next (record { it = x ∷ xs; cursor = pos 0 }) ≡ true
unfolding has_next
has_next-front x xs = ground arith

next-front :
    (x : ℕ) (xs : List ℕ)
    → next (record { it = x ∷ xs; cursor = pos 0 })
      ≡ (some x, record { it = x ∷ xs; cursor = pos 1 })
unfolding next
next-front x xs = let a : ltb 0 (suc (length xs)) ≡ true = ground arith in rw a refl

remove-front :
    (x : ℕ) (xs : List ℕ)
    → remove (record { it = x ∷ xs; cursor = pos 1 }) ≡ (some x, record { it = xs; cursor = pos 0 })
unfolding remove
remove-front x xs = let a : ltb 0 (suc (length xs)) ≡ true = ground arith in rw (remove, a) refl

close_loop-front :
    (xs : List ℕ)
    → close_loop (length xs) (record { it = xs; cursor = pos 0 })
      ≡ (xs, record { it = []; cursor = pos 0 })
unfolding close_loop
close_loop-front [] = refl
close_loop-front (x ∷ xs) =
    close_turn (length xs) x (record { it = x ∷ xs; cursor = pos 0 })
      (record { it = x ∷ xs; cursor = pos 1 }) (record { it = xs; cursor = pos 0 })
      (has_next-front x xs) (next-front x xs) (remove-front x xs)
    ∙ ap (λ (r : List ℕ × Iterator ℕ). (x ∷ r.0, r.1)) (close_loop-front xs)

-- Wherever its cursor stands, closing a shared container closes each of its connections once, in
-- their order, and leaves it empty and rewound.
pub close_shared-all :
    (s : Iterator ℕ) → close_shared s ≡ (s.it, record { it = []; cursor = pos 0 })
unfolding close_shared rewind
close_shared-all s = close_loop-front s.it

-- The next `n` calls of the factory.
abbrev pub upto : ℕ → ℕ → List ℕ
upto zero i = []
upto (suc n) i = i ∷ upto n (i + 1)

abbrev pub AllMade : (ℕ → Bool) → ℕ → ℕ → Type 0
AllMade factory zero i = Unit
AllMade factory (suc n) i = (factory i ≡ true) × AllMade factory n (i + 1)

-- Where the factory's next `n` calls succeed, a shared container gets these `n` connections behind
-- those it holds, its cursor stays, and no connection is closed.
pub initialize_connections-upto :
    (factory : ℕ → Bool) (n : ℕ) (s : Iterator ℕ) (w : World)
    → AllMade factory n w.made
    → initialize_connections shared factory n s w
      ≡ (some (record s { it = s.it ++ upto n w.made }), record w { made = w.made + n })
unfolding initialize_connections make shared append
initialize_connections-upto factory zero s w h =
    let z : w.made + 0 ≡ w.made = omega arith in rw (append-nil s.it, z) refl
initialize_connections-upto factory (suc n) s w (e, h) =
    let ih =
      initialize_connections-upto factory n (record s { it = s.it ++ w.made ∷ [] })
        (record w { made = w.made + 1 }) h in
    let z : w.made + 1 + n ≡ w.made + suc n = omega arith in
    rw (initialize_connections, e)
      (rw (sym z, sym (append_assoc s.it (w.made ∷ []) (upto n (w.made + 1)))) ih)
