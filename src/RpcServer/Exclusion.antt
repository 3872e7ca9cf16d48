-- ===== src/RpcServer/Exclusion.antt =====
-- rpc_server.py: threads in `start` and `close` do not prepare and release a server at the same time.
use summerrpc.Prelude.{
  ℕ, ◌≡◌, ◌≢◌, refl, sym, ap, ◌∙◌, Bool, true, false, Option, none, some, List, [], ◌∷◌, arith,
  ◌==◌, if◌then◌else◌, ==_iff, if_split, Bool-cases, inl, inr, option_split,
}
use summerrpc.RpcServer.Races.{
  At, starting, locking_start, checking_start, preparing, looping, closing, locking_close,
  checking_close, releasing, back, Server, init, can_start, can_close, moved, freed, step_at, step,
  run,
}

-- Has the thread the lock? Does it prepare? Does it release?
abbrev has_lock : At → Bool
has_lock checking_start = true
has_lock checking_close = true
has_lock releasing = true
has_lock _ = false

-- Who has the lock is its holder; a server that is being prepared is starting, and one that is being
-- released is not; and two threads do not both prepare it.
record Apart (holder : Option ℕ) (is_starting : Bool) (at : ℕ → At) : Type 0 where
  held : (i : ℕ) → has_lock (at i) ≡ true → holder ≡ some i
  prepares : (i : ℕ) → at i ≡ preparing → is_starting ≡ true
  releases : (i : ℕ) → at i ≡ releasing → is_starting ≡ false
  alone : (i j : ℕ) → at i ≡ preparing → at j ≡ preparing → i ≡ j

abbrev Sound : Server → Type 0
Sound s = Apart s.holder s.is_starting s.at

other_thread : (i j : ℕ) → (j == i) ≡ false → i ≡ j → ⊥
other_thread i j e h = let k = (==_iff j i).1 (sym h) in absurd (cc)

-- What a move of the thread `i` to `x` has to keep: of the others, and of itself.
record Keeps (i : ℕ) (x : At) (at : ℕ → At) (holder : Option ℕ) (is_starting : Bool) : Type 0 where
  lock : (j : ℕ) → (j == i) ≡ false → has_lock (at j) ≡ true → holder ≡ some j
  own_lock : has_lock x ≡ true → holder ≡ some i
  prepare : (j : ℕ) → (j == i) ≡ false → at j ≡ preparing → (is_starting ≡ true) × (x ≢ preparing)
  own_prepare : x ≡ preparing → is_starting ≡ true
  release : (j : ℕ) → (j == i) ≡ false → at j ≡ releasing → is_starting ≡ false
  own_release : x ≡ releasing → is_starting ≡ false

move-Apart :
    (i : ℕ) (x : At) (at : ℕ → At) (h h' : Option ℕ) (b b' : Bool)
    → Apart h b at
    → Keeps i x at h' b'
    → Apart h' b' (λ j. if j == i then x else at j)
move-Apart i x at h h' b b' a k = record {
  held = λ j.
      if_split (λ y. has_lock y ≡ true → h' ≡ some j) (j == i)
        (λ e l. k.own_lock l ∙ ap some (sym ((==_iff j i).0 e))) (λ e l. k.lock j e l);
  prepares = λ j.
      if_split (λ y. y ≡ preparing → b' ≡ true) (j == i) (λ e l. k.own_prepare l)
        (λ e l. (k.prepare j e l).0);
  releases = λ j.
      if_split (λ y. y ≡ releasing → b' ≡ false) (j == i) (λ e l. k.own_release l)
        (λ e l. k.release j e l);
  alone = λ j m.
      if_split (λ y. y ≡ preparing → (if m == i then x else at m) ≡ preparing → j ≡ m) (j == i)
        (λ e l.
          if_split (λ y. y ≡ preparing → j ≡ m) (m == i)
            (λ f n. (==_iff j i).0 e ∙ sym ((==_iff m i).0 f))
            (λ f n. absurd ((k.prepare m f n).1 l)))
        (λ e l.
          if_split (λ y. y ≡ preparing → j ≡ m) (m == i) (λ f n. absurd ((k.prepare j e l).1 n))
            (λ f n. a.alone j m l n));
}

module _ (i : ℕ) (s : Server) (a : Sound s) where
  -- Another thread does not hold the lock that this one holds.
  not_held : s.holder ≡ some i → (j : ℕ) → (j == i) ≡ false → has_lock (s.at j) ≡ true → ⊥
  not_held h j e l = other_thread i j e (let q = sym h ∙ a.held j l in cc)

  -- A move to a place outside of all that matters.
  plain_move : (x : At) → has_lock x ≡ false → x ≢ preparing → x ≢ releasing → Sound (moved i x s)
  plain_move x l p r = move-Apart i x s.at s.holder s.holder s.is_starting s.is_starting a (record {
    lock = λ j e m. a.held j m;
    own_lock = λ m. absurd (cc);
    prepare = λ j e m. (a.prepares j m, p);
    own_prepare = λ m. absurd (p m);
    release = λ j e m. a.releases j m;
    own_release = λ m. absurd (r m);
  })

  acquire_move :
      (x : At)
      → s.holder ≡ none
      → x ≢ preparing
      → x ≢ releasing
      → Sound (moved i x (record s { holder = some i }))
  acquire_move x n p r =
      move-Apart i x s.at s.holder (some i) s.is_starting s.is_starting a (record {
        lock = λ j e m. (let q = a.held j m in absurd (cc));
        own_lock = λ m. refl;
        prepare = λ j e m. (a.prepares j m, p);
        own_prepare = λ m. absurd (p m);
        release = λ j e m. a.releases j m;
        own_release = λ m. absurd (r m);
      })

  free_move : s.holder ≡ some i → Sound (moved i back (freed s))
  free_move h = move-Apart i back s.at s.holder none s.is_starting s.is_starting a (record {
    lock = λ j e m. absurd (not_held h j e m);
    own_lock = λ m. absurd (cc);
    prepare = λ j e m. (a.prepares j m, λ q. cc);
    own_prepare = λ m. absurd (cc);
    release = λ j e m. a.releases j m;
    own_release = λ m. absurd (cc);
  })

  -- A start takes effect, with the lock.
  prepare_move :
      s.holder ≡ some i
      → s.is_starting ≡ false
      → Apart none true (λ j. if j == i then preparing else s.at j)
  prepare_move h n = move-Apart i preparing s.at s.holder none s.is_starting true a (record {
    lock = λ j e m. absurd (not_held h j e m);
    own_lock = λ m. absurd (cc);
    prepare = λ j e m. (let q = a.prepares j m in absurd (cc));
    own_prepare = λ m. refl;
    release = λ j e m. absurd (not_held h j e (ap has_lock m));
    own_release = λ m. absurd (cc);
  })

  -- The loop runs.
  loop_move : s.at i ≡ preparing → Apart s.holder false (λ j. if j == i then looping else s.at j)
  loop_move p = move-Apart i looping s.at s.holder s.holder s.is_starting false a (record {
    lock = λ j e m. a.held j m;
    own_lock = λ m. absurd (cc);
    prepare = λ j e m. absurd (other_thread i j e (a.alone i j p m));
    own_prepare = λ m. absurd (cc);
    release = λ j e m. refl;
    own_release = λ m. absurd (cc);
  })

  release_move :
      s.holder ≡ some i
      → s.is_starting ≡ false
      → Apart s.holder s.is_starting (λ j. if j == i then releasing else s.at j)
  release_move h n =
      move-Apart i releasing s.at s.holder s.holder s.is_starting s.is_starting a (record {
        lock = λ j e m. a.held j m;
        own_lock = λ m. h;
        prepare = λ j e m. (a.prepares j m, λ q. cc);
        own_prepare = λ m. absurd (cc);
        release = λ j e m. a.releases j m;
        own_release = λ m. n;
      })

  done_move : s.at i ≡ releasing → Apart none false (λ j. if j == i then back else s.at j)
  done_move r =
      let h = a.held i (ap has_lock r) in
      let n = a.releases i r in
      move-Apart i back s.at s.holder none s.is_starting false a (record {
        lock = λ j e m. absurd (not_held h j e m);
        own_lock = λ m. absurd (cc);
        prepare = λ j e m. (let q = a.prepares j m in absurd (cc));
        own_prepare = λ m. absurd (cc);
        release = λ j e m. refl;
        own_release = λ m. absurd (cc);
      })

step-Sound : (s : Server) (e : ℕ × Bool) → Sound s → Sound (step s e)
unfolding step step_at
step-Sound s (i, works) a = go (s.at i) refl
  where
    go : (x : At) → s.at i ≡ x → Sound (step_at x works i s)
    go starting e =
        if_split Sound (can_start s) (λ c. plain_move i s a locking_start refl (λ q. cc) (λ q. cc))
          (λ c. plain_move i s a back refl (λ q. cc) (λ q. cc))
    go locking_start e =
        option_split Sound s.holder (λ n. acquire_move i s a checking_start n (λ q. cc) (λ q. cc))
          (λ j n. a)
    go checking_start e =
        let h = a.held i (ap has_lock e) in
        if_split Sound (can_start s) (λ c. prepare_move i s a h (ground (arith, c)))
          (λ c. free_move i s a h)
    go preparing e =
        if_split Sound works (λ w. loop_move i s a e)
          (λ w. plain_move i s a back refl (λ q. cc) (λ q. cc))
    go looping e = plain_move i s a closing refl (λ q. cc) (λ q. cc)
    go closing e =
        if_split Sound (can_close s) (λ c. plain_move i s a locking_close refl (λ q. cc) (λ q. cc))
          (λ c. plain_move i s a back refl (λ q. cc) (λ q. cc))
    go locking_close e =
        option_split Sound s.holder (λ n. acquire_move i s a checking_close n (λ q. cc) (λ q. cc))
          (λ j n. a)
    go checking_close e =
        let h = a.held i (ap has_lock e) in
        if_split Sound (can_close s) (λ c. release_move i s a h (ground (arith, c)))
          (λ c. free_move i s a h)
    go releasing e = done_move i s a e
    go back e = a

run-Sound : (s : Server) (es : List (ℕ × Bool)) → Sound s → Sound (run s es)
unfolding run
run-Sound s [] a = a
run-Sound s (e ∷ es) a = run-Sound (step s e) es (step-Sound s e a)

init-Sound : (starts : ℕ → Bool) → Sound (init starts)
init-Sound starts = record {
  held = λ i.
      if_split (λ x. has_lock x ≡ true → none ≡ some i) (starts i) (λ e h. absurd (cc))
        (λ e h. absurd (cc));
  prepares = λ i.
      if_split (λ x. x ≡ preparing → false ≡ true) (starts i) (λ e h. absurd (cc))
        (λ e h. absurd (cc));
  releases = λ i h. refl;
  alone = λ i j.
      if_split (λ x. x ≡ preparing → (init starts).at j ≡ preparing → i ≡ j) (starts i)
        (λ e h. absurd (cc)) (λ e h. absurd (cc));
}

-- Does the thread prepare the server, or release what it has?
abbrev pub is_busy : At → Bool
is_busy preparing = true
is_busy releasing = true
is_busy _ = false

same_busy :
    (starts : ℕ → Bool) (es : List (ℕ × Bool)) (i j : ℕ)
    → is_busy ((run (init starts) es).at i) ≡ true
    → is_busy ((run (init starts) es).at j) ≡ true
    → i ≡ j
same_busy starts es i j b c =
    let s = run (init starts) es in
    let a = run-Sound (init starts) es (init-Sound starts) in go a (s.at i) (s.at j) refl refl b c
  where
    s : Server
    s = run (init starts) es

    go :
        Sound s → (x y : At) → s.at i ≡ x → s.at j ≡ y → is_busy x ≡ true → is_busy y ≡ true → i ≡ j
    go a preparing preparing p q b c = a.alone i j p q
    go a preparing releasing p q b c =
        let m = a.prepares i p in let n = a.releases j q in absurd (cc)
    go a releasing preparing p q b c =
        let m = a.prepares j q in let n = a.releases i p in absurd (cc)
    go a releasing releasing p q b c =
        let m = a.held i (ap has_lock p) in let n = a.held j (ap has_lock q) in cc
    go a _ _ p q b c = absurd (cc)

-- However the threads that start and close a new server take turns, and whether registering works or
-- not: while one of them prepares the server or releases what it has, no other does either.
pub is_busy-run :
    (starts : ℕ → Bool) (es : List (ℕ × Bool)) (i j : ℕ)
    → is_busy ((run (init starts) es).at i) ≡ true
    → i ≢ j
    → is_busy ((run (init starts) es).at j) ≡ false
is_busy-run starts es i j b n = elim (Bool-cases (is_busy ((run (init starts) es).at j))) [
  | inl c ↦ absurd (n (same_busy starts es i j b c))
  | inr c ↦ c
]
