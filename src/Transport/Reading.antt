-- ===== src/Transport/Reading.antt =====
-- `read_bytes` over a socket that neither fails nor ends.
use summerrpc.Prelude.{
  ℕ, zero, suc, ◌+◌, ◌-◌, ◌≤◌, ◌<◌, ◌≡◌, ◌≢◌, refl, sym, ap, ◌∙◌, Bool, true, false, List, [], ◌∷◌,
  ◌++◌, arith, ltb, length, take, drop, length-append, length-take, length-drop, append-nil,
  append_assoc, take_all, drop_all, take-append_le, take-append_ge, drop-append_le, drop-append_ge,
  Bool-cases, inl, inr, take-append, leb, leb→le,
}
use summerrpc.Transport.{
  Bytes, Event, bytes, timeout, error, Errno, got, splice, read_loop, read_bytes, zeros,
}

module _ (nums : Errno) where
  -- Everything the socket will deliver.
  abbrev pub payload : List Event → Bytes
  payload [] = []
  payload (bytes bs ∷ es) = bs ++ payload es
  payload (timeout ∷ es) = payload es
  payload (error n ∷ es) = payload es

  -- The socket delivers bytes, is interrupted, or times out when that is ignored.
  abbrev pub Calm : Bool → List Event → Type 0
  Calm ig [] = Unit
  Calm ig (bytes bs ∷ es) = (bs ≢ []) × Calm ig es
  Calm ig (timeout ∷ es) = (ig ≡ true) × Calm ig es
  Calm ig (error n ∷ es) = (n ≡ nums.eintr) × Calm ig es

  module _ (ig : Bool) (num : ℕ) where
    -- The loop returns what it had, followed by the bytes that were missing, and leaves the rest.
    abbrev Reads : Bytes → ℕ → List Event → Type 0
    Reads buff current es =
        (rest : List Event) × (read_loop nums ig num buff current es
          ≡ got (take current buff ++ take (num - current) (payload es)) rest)
        × Calm ig rest
        × (payload rest ≡ drop (num - current) (payload es))

    finished :
        (buff : Bytes) (current : ℕ) (es : List Event)
        → length buff ≡ num
        → current ≤ num
        → ltb current num ≡ false
        → (buff ≡ take current buff ++ take (num - current) (payload es))
          × (payload es ≡ drop (num - current) (payload es))
    finished buff current es len le full =
        let z : num - current ≡ 0 = ground arith in
        let t : take current buff ≡ buff = take_all current buff (ground arith) in
        (
          sym (ap (λ (k : ℕ). take current buff ++ take k (payload es)) z ∙ append-nil _ ∙ t),
          sym (ap (λ (k : ℕ). drop k (payload es)) z),
        )

    length-splice :
        (buff : Bytes) (current : ℕ) (now : Bytes)
        → length buff ≡ num
        → current + length now ≤ num
        → length (splice buff current now) ≡ num
    length-splice buff current now len le = omega (
      arith,
      length-append (take current buff) (now ++ drop (current + length now) buff),
      length-append now (drop (current + length now) buff),
      length-take current buff,
      length-drop (current + length now) buff,
    )

    take-splice :
        (buff : Bytes) (current : ℕ) (now : Bytes)
        → length buff ≡ num
        → current + length now ≤ num
        → take (current + length now) (splice buff current now) ≡ take current buff ++ now
    take-splice buff current now len le =
        let tail = drop (current + length now) buff in
        let size : length (take current buff ++ now) ≡ current + length now =
          omega (arith, length-append (take current buff) now, length-take current buff) in
        ap (take (current + length now)) (sym (append_assoc (take current buff) now tail))
        ∙ ap (λ (k : ℕ). take k ((take current buff ++ now) ++ tail)) (sym size)
        ∙ take-append (take current buff ++ now) tail

    -- A message that fits is stored whole, and what follows it is read next.
    join_short :
        (buff : Bytes) (current : ℕ) (incoming more : Bytes)
        → length buff ≡ num
        → current + length incoming ≤ num
        → (take (current + length incoming) (splice buff current incoming)
              ++ take (num - (current + length incoming)) more
            ≡ take current buff ++ take (num - current) (incoming ++ more))
          × (drop (num - (current + length incoming)) more
              ≡ drop (num - current) (incoming ++ more))
    join_short buff current incoming more len le =
        let e : num - (current + length incoming) ≡ num - current - length incoming = omega arith in
        let t = take-append_ge (num - current) incoming more (omega arith) in
        let d = drop-append_ge (num - current) incoming more (omega arith) in
        (
          ap (λ z. z ++ take (num - (current + length incoming)) more)
                (take-splice buff current incoming len le)
              ∙ append_assoc (take current buff) incoming _
              ∙ ap (λ (k : ℕ). take current buff ++ (incoming ++ take k more)) e
              ∙ ap (◌++◌ (take current buff)) (sym t),
          ap (λ (k : ℕ). drop k more) e ∙ sym d,
        )

    -- A message that is longer than what was missing fills the buffer.
    join_long :
        (buff : Bytes) (current : ℕ) (incoming more : Bytes)
        → length buff ≡ num
        → current ≤ num
        → num < current + length incoming
        → (splice buff current (take (num - current) incoming)
            ≡ take current buff ++ take (num - current) (incoming ++ more))
          × (drop (num - current) incoming ++ more ≡ drop (num - current) (incoming ++ more))
    join_long buff current incoming more len le long =
        let now = take (num - current) incoming in
        let size : current + length now ≡ num =
          omega (arith, length-take (num - current) incoming) in
        (
          sym (take_all num _ (omega (arith, length-splice buff current now len (omega arith))))
              ∙ ap (λ (k : ℕ). take k (splice buff current now)) (sym size)
              ∙ take-splice buff current now len (omega arith)
              ∙ ap (◌++◌ (take current buff))
                  (sym (take-append_le (num - current) incoming more (omega arith))),
          sym (drop-append_le (num - current) incoming more (omega arith)),
        )

    read_short :
        (buff : Bytes) (current x : ℕ) (xs : Bytes) (es : List Event)
        → ltb current num ≡ true
        → take (num - current) (x ∷ xs) ≡ x ∷ xs
        → drop (num - current) (x ∷ xs) ≡ []
        → read_loop nums ig num buff current (bytes (x ∷ xs) ∷ es)
          ≡ read_loop nums ig num (splice buff current (x ∷ xs)) (current + length (x ∷ xs)) es
    unfolding read_loop
    read_short buff current x xs es more all none_left = rw (more, none_left, all)

    read_long :
        (buff : Bytes) (current x : ℕ) (xs : Bytes) (es : List Event) (b : ℕ) (bs : Bytes)
        → ltb current num ≡ true
        → drop (num - current) (x ∷ xs) ≡ b ∷ bs
        → read_loop nums ig num buff current (bytes (x ∷ xs) ∷ es)
          ≡ got (splice buff current (take (num - current) (x ∷ xs))) (bytes (b ∷ bs) ∷ es)
    unfolding read_loop
    read_long buff current x xs es b bs more some_left = rw (more, some_left)

    -- What is left of a message that is longer than what was missing.
    leftover :
        (buff : Bytes) (current x : ℕ) (xs : Bytes) (es : List Event) (later : Bytes)
        → length buff ≡ num
        → current ≤ num
        → Calm ig es
        → ltb current num ≡ true
        → num < current + length (x ∷ xs)
        → drop (num - current) (x ∷ xs) ≡ later
        → Reads buff current (bytes (x ∷ xs) ∷ es)
    leftover buff current x xs es [] len le calm more long e =
        absurd (omega (arith, ap length e, length-drop (num - current) (x ∷ xs)))
    leftover buff current x xs es (b ∷ bs) len le calm more long e =
        let (p, q) = join_long buff current (x ∷ xs) (payload es) len le long in
        (
          bytes (b ∷ bs) ∷ es,
          read_long buff current x xs es b bs more e ∙ ap (λ z. got z (bytes (b ∷ bs) ∷ es)) p,
          ((λ z. cc), calm),
          ap (λ z. z ++ payload es) (sym e) ∙ q,
        )

    -- With enough bytes to come the loop returns what it had, followed by the bytes that were
    -- missing, and leaves the others in the socket.
    read_loop-Reads :
        (buff : Bytes) (current : ℕ) (es : List Event)
        → length buff ≡ num
        → current ≤ num
        → Calm ig es
        → num ≤ current + length (payload es)
        → Reads buff current es
    unfolding read_loop
    read_loop-Reads buff current [] len le calm enough =
        let (a, b) = finished buff current [] len le (ground arith) in
        ([], ground (arith, a), tt, b)
    read_loop-Reads buff current (timeout ∷ es) len le calm enough =
        elim (Bool-cases (ltb current num)) [
          | inr full ↦
              let (a, b) = finished buff current es len le full in
              (timeout ∷ es, rw full (ap (λ z. got z (timeout ∷ es)) a), calm, b)
          | inl more ↦
              let (rest, run, quiet, left) = read_loop-Reads buff current es len le calm.1 enough in
              (rest, rw (more, calm.0) run, quiet, left)
        ]
    read_loop-Reads buff current (error n ∷ es) len le calm enough =
        elim (Bool-cases (ltb current num)) [
          | inr full ↦
              let (a, b) = finished buff current es len le full in
              (error n ∷ es, rw full (ap (λ z. got z (error n ∷ es)) a), calm, b)
          | inl more ↦
              let (rest, run, quiet, left) = read_loop-Reads buff current es len le calm.1 enough in
              (rest, ground (arith, calm.0, run), quiet, left)
        ]
    read_loop-Reads buff current (bytes [] ∷ es) len le calm enough = absurd (calm.0 refl)
    read_loop-Reads buff current (bytes (x ∷ xs) ∷ es) len le calm enough =
        let incoming = x ∷ xs in
        elim (Bool-cases (ltb current num)) [
          | inr full ↦
              let (a, b) = finished buff current (bytes incoming ∷ es) len le full in
              (bytes incoming ∷ es, rw full (ap (λ z. got z (bytes incoming ∷ es)) a), calm, b)
          | inl more ↦ elim (Bool-cases (leb (current + length incoming) num)) [
            | inl fits ↦
                let le' : current + length incoming ≤ num = leb→le _ _ fits in
                let all = take_all (num - current) incoming (omega arith) in
                let none_left = drop_all (num - current) incoming (omega arith) in
                let (p, q) = join_short buff current incoming (payload es) len le' in
                let (rest, run, quiet, left) =
                  read_loop-Reads (splice buff current incoming) (current + length incoming) es
                    (length-splice buff current incoming len le') le' calm.1
                    (omega (arith, enough, length-append incoming (payload es))) in
                (
                  rest,
                  read_short buff current x xs es more all none_left ∙ run ∙ ap (λ z. got z rest) p,
                  quiet,
                  left ∙ q,
                )
            | inr long ↦
                leftover buff current x xs es (drop (num - current) incoming) len le calm.1 more
                  (ground arith) refl
          ]
        ]

  length-zeros : (n : ℕ) → length (zeros n) ≡ n
  length-zeros zero = refl
  length-zeros (suc n) = ap suc (length-zeros n)

  -- Reading from a calm socket returns the next `num` bytes, in whatever pieces they arrive, and
  -- leaves the bytes after them unread.
  pub read_bytes-payload :
      (ig : Bool) (num : ℕ) (es : List Event)
      → Calm ig es
      → num ≤ length (payload es)
      → (rest : List Event) × (read_bytes nums ig num es ≡ got (take num (payload es)) rest)
        × Calm ig rest
        × (payload rest ≡ drop num (payload es))
  unfolding read_bytes
  read_bytes-payload ig num es calm enough =
      let z : num - 0 ≡ num = omega arith in
      let (rest, run, quiet, left) =
        read_loop-Reads ig num (zeros num) 0 es (length-zeros num) (omega arith) calm
          (omega (arith, enough)) in
      (
        rest,
        run ∙ ap (λ (k : ℕ). got (take k (payload es)) rest) z,
        quiet,
        left ∙ ap (λ (k : ℕ). drop k (payload es)) z,
      )
