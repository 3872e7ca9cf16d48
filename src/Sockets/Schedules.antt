-- ===== src/Sockets/Schedules.antt =====
-- helper/socket_util.py: what any number of threads in `BaseSocket.close` come to.
use summerrpc.Prelude.{
  ℕ, suc, ◌+◌, ◌≤◌, ◌≡◌, refl, sym, ap, subst, ◌∙◌, Bool, true, false, none, some, List, [], ◌∷◌,
  arith, ◌==◌, not, ◌||◌, if_cases, if_split, Option-cases, inl, inr, option_split, ==_iff,
}
use summerrpc.Sockets.Closing.{
  At, outside, passed, inside, ending, back, Socket, opened, moved, close_at, step, run,
}

-- Does a call hold the lock, and is the socket being closed in it?
abbrev critical : At → Bool
critical inside = true
critical ending = true
critical _ = false

abbrev in_end : At → ℕ
in_end ending = 1
in_end _ = 0

abbrev one : Bool → ℕ
one true = 1
one false = 0

-- The holder is in the critical section; the socket was closed as often as the flag and the holder
-- say, which do not both.
abbrev Holds : ℕ → Bool → At → Type 0
Holds closes closed x =
    (critical x ≡ true) × (closes ≡ one closed + in_end x) × (one closed + in_end x ≤ 1)

record Guarded (s : Socket) : Type 0 where
  held : (i : ℕ) → critical (s.at i) ≡ true → s.holder ≡ some i
  free : s.holder ≡ none → s.closes ≡ one s.closed
  taken : (i : ℕ) → s.holder ≡ some i → Holds s.closes s.closed (s.at i)
  done : (i : ℕ) → s.at i ≡ back → s.initialized ≡ true → s.closed ≡ true

same_call : (i j : ℕ) → (j == i) ≡ true → j ≡ i
same_call i j e = (==_iff j i).0 e

other_call : (i j : ℕ) → (j == i) ≡ false → some i ≡ some j → ⊥
other_call i j e h = let q : j ≡ i = cc in let k = (==_iff j i).1 q in cc

one-bound : (b : Bool) → one b ≤ 1
one-bound true = omega arith
one-bound false = omega arith

module _ (s : Socket) (i : ℕ) (g : Guarded s) where
  -- A move outside the critical section.
  move-Guarded :
      (x : At)
      → critical (s.at i) ≡ false
      → critical x ≡ false
      → (x ≡ back → s.initialized ≡ true → s.closed ≡ true)
      → Guarded (moved i x s)
  move-Guarded x a b d = record {
    held = λ j.
        if_split (λ y. critical y ≡ true → s.holder ≡ some j) (j == i) (λ e h. absurd (cc))
          (λ e h. g.held j h);
    free = g.free;
    taken = λ j h.
        if_split (Holds s.closes s.closed) (j == i)
          (λ e.
            (let k =
                (subst (λ n. Holds s.closes s.closed (s.at n)) (same_call i j e) (g.taken j h)).0 in
              absurd (cc)))
          (λ e. g.taken j h);
    done = λ j.
        if_split (λ y. y ≡ back → s.initialized ≡ true → s.closed ≡ true) (j == i) (λ e. d)
          (λ e. g.done j);
  }

  enter-Guarded : s.holder ≡ none → Guarded (moved i inside (record s { holder = some i }))
  enter-Guarded n = record {
    held = λ j.
        if_split (λ y. critical y ≡ true → some i ≡ some j) (j == i)
          (λ e h. ap some (sym (same_call i j e))) (λ e h. (let k = g.held j h in absurd (cc)));
    free = λ h. absurd (cc);
    taken = λ j h.
        if_split (Holds s.closes s.closed) (j == i)
          (λ e. (refl, omega (arith, g.free n), omega (arith, one-bound s.closed)))
          (λ e. absurd (other_call i j e h));
    done = λ j.
        if_split (λ y. y ≡ back → s.initialized ≡ true → s.closed ≡ true) (j == i)
          (λ e h. absurd (cc)) (λ e. g.done j);
  }

  -- The holder goes back, and the flag is set.
  leave-Guarded :
      (closed : Bool)
      → s.holder ≡ some i
      → closed ≡ true
      → s.closes ≡ 1
      → Guarded (moved i back (record s { closed = closed; holder = none }))
  leave-Guarded closed h b c = record {
    held = λ j.
        if_split (λ y. critical y ≡ true → none ≡ some j) (j == i) (λ e k. absurd (cc))
          (λ e k. absurd (other_call i j e (sym h ∙ g.held j k)));
    free = λ k. rw b c;
    taken = λ j k. absurd (cc);
    done = λ j k l. b;
  }

  shut-Guarded :
      s.holder ≡ some i
      → s.closed ≡ false
      → s.closes ≡ 0
      → Guarded (moved i ending (record s { closes = suc s.closes }))
  shut-Guarded h c z = record {
    held = λ j.
        if_split (λ y. critical y ≡ true → s.holder ≡ some j) (j == i)
          (λ e k. h ∙ ap some (sym (same_call i j e))) (λ e k. g.held j k);
    free = λ k. absurd (cc);
    taken = λ j k.
        if_split (Holds (suc s.closes) s.closed) (j == i)
          (λ e. (refl, rw (c, z) refl, rw c (omega arith)))
          (λ e. absurd (other_call i j e (sym h ∙ k)));
    done = λ j.
        if_split (λ y. y ≡ back → s.initialized ≡ true → s.closed ≡ true) (j == i)
          (λ e k. absurd (cc)) (λ e. g.done j);
  }

step-Guarded : (s : Socket) (i : ℕ) → Guarded s → Guarded (step s i)
unfolding step close_at
step-Guarded s i g = go (s.at i) refl
  where
    go : (x : At) → s.at i ≡ x → Guarded (close_at x i s)
    go outside e =
        let a : critical (s.at i) ≡ false = ap critical e in
        if_split Guarded (not s.initialized || s.closed)
          (λ h. move-Guarded s i g back a refl (λ k l. ground (arith, h, l)))
          (λ h. move-Guarded s i g passed a refl (λ k. absurd (cc)))
    go passed e = option_split Guarded s.holder (λ n. enter-Guarded s i g n) (λ j n. g)
    go inside e =
        let h = g.held i (ap critical e) in
        let t = subst (Holds s.closes s.closed) e (g.taken i h) in
        if_split Guarded s.closed (λ c. leave-Guarded s i g s.closed h c (t.1 ∙ rw c refl))
          (λ c. shut-Guarded s i g h c (t.1 ∙ rw c refl))
    go ending e =
        let h = g.held i (ap critical e) in
        let t = subst (Holds s.closes s.closed) e (g.taken i h) in
        leave-Guarded s i g true h refl (omega (arith, t.1, t.2, one-bound s.closed))
    go back e = g

run-Guarded : (s : Socket) (is : List ℕ) → Guarded s → Guarded (run s is)
unfolding run
run-Guarded s [] g = g
run-Guarded s (i ∷ is) g = run-Guarded (step s i) is (step-Guarded s i g)

step-initialized : (s : Socket) (i : ℕ) → (step s i).initialized ≡ s.initialized
unfolding step close_at
step-initialized s i = go (s.at i)
  where
    P : Socket → Type 0
    P t = t.initialized ≡ s.initialized

    go : (x : At) → (close_at x i s).initialized ≡ s.initialized
    go outside = if_cases P (not s.initialized || s.closed) refl refl
    go passed = option_split P s.holder (λ n. refl) (λ j n. refl)
    go inside = if_cases P s.closed refl refl
    go ending = refl
    go back = refl

run-initialized : (s : Socket) (is : List ℕ) → (run s is).initialized ≡ s.initialized
unfolding run
run-initialized s [] = refl
run-initialized s (i ∷ is) = run-initialized (step s i) is ∙ step-initialized s i

opened-Guarded : (initialized : Bool) → Guarded (opened initialized)
opened-Guarded initialized = record {
  held = λ i h. absurd (cc);
  free = λ h. refl;
  taken = λ i h. absurd (cc);
  done = λ i h. absurd (cc);
}

-- However any number of threads take turns in `close` on a socket whose `__init__` did not raise:
-- once one of these calls is back, the system's socket has been closed exactly once.
pub closes-run :
    (is : List ℕ) (i : ℕ)
    → (run (opened true) is).at i ≡ back
    → ((run (opened true) is).closed ≡ true) × ((run (opened true) is).closes ≡ 1)
closes-run is i h =
    let s = run (opened true) is in
    let g = run-Guarded (opened true) is (opened-Guarded true) in
    let c = g.done i h (run-initialized (opened true) is) in
    (
      c,
      elim (Option-cases s.holder) [
        | inl n ↦ g.free n ∙ rw c refl
        | inr (j, n) ↦
            (let t = subst (λ b. Holds s.closes b (s.at j)) c (g.taken j n) in
              omega (arith, t.1, t.2))
      ],
    )

-- Past the first check?
abbrev past : At → Bool
past outside = false
past back = false
past _ = true

-- No call gets past its first check.
abbrev Barred : Socket → Type 0
Barred s = (s.initialized ≡ false) × (s.closes ≡ 0) × ((i : ℕ) → past (s.at i) ≡ false)

step-Barred : (s : Socket) (i : ℕ) → Barred s → Barred (step s i)
unfolding step close_at
step-Barred s i (n, z, p) = go (s.at i) (p i)
  where
    go : (x : At) → past x ≡ false → Barred (close_at x i s)
    go outside e =
        if_split Barred (not s.initialized || s.closed)
          (λ h. (n, z, λ j. if_split (λ y. past y ≡ false) (j == i) (λ k. refl) (λ k. p j)))
          (λ h. (let k : (not s.initialized || s.closed) ≡ true = rw n refl in absurd (cc)))
    go passed e = absurd (cc)
    go inside e = absurd (cc)
    go ending e = absurd (cc)
    go back e = (n, z, p)

run-Barred : (s : Socket) (is : List ℕ) → Barred s → Barred (run s is)
unfolding run
run-Barred s [] b = b
run-Barred s (i ∷ is) b = run-Barred (step s i) is (step-Barred s i b)

-- If its `__init__` raised, no call of `close` closes the system's socket.
pub closes-failed : (is : List ℕ) → (run (opened false) is).closes ≡ 0
closes-failed is = (run-Barred (opened false) is (refl, refl, λ i. refl)).1
