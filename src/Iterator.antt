-- ===== src/Iterator.antt =====
-- helper/iterator.py: `Iterator` and `CyclicIterator`, a list with a cursor that Python's indexing
-- reads, so that it may be negative.
use summerrpc.Prelude.{
  ℕ, zero, suc, ◌+◌, ◌*◌, ◌≡◌, refl, ap, sym, subst, ◌∙◌, Bool, true, false, Option, none, some,
  List, [], ◌∷◌, ◌++◌, arith, ◌==◌, if◌then◌else◌, length, map, get_elem?, append_assoc, append-nil,
  length-append,
}
use mathlib.Core.List.{map-append}
use summerrpc.Prelude.Int.{ℤ, pos, ltb_ℤ, ◌+ℤ◌, ◌-ℤ◌, py_index}

pub record Iterator (A : Type 0) : Type 0 where
  pub it : List A
  pub cursor : ℤ

-- `list.pop(i)`, at an index that is in range.
abbrev pub pop_at {ℓ} : {A : Type ℓ} → ℕ → List A → List A
pop_at i [] = []
pop_at zero (x ∷ xs) = xs
pop_at (suc i) (x ∷ xs) = x ∷ pop_at i xs

-- `list.index(x)`, for connections, which are compared by identity.
abbrev pub index : ℕ → List ℕ → Option ℕ
index x [] = none
index x (y ∷ ys) =
    let rest = index x ys in
    if y == x then some 0 else elim rest [ none ↦ none | some i ↦ some (suc i) ]

module _ {A : Type 0} where
  unfoldable pub init : List A → Iterator A
  init xs = record { it = xs; cursor = pos 0 }

  unfoldable pub has_next : Iterator A → Bool
  has_next s = ltb_ℤ s.cursor (pos (length s.it))

  -- The cursor moves in any case; `none` is the IndexError.
  unfoldable pub next : Iterator A → Option A × Iterator A
  next s = (
    elim (py_index (length s.it) s.cursor) [ none ↦ none | some i ↦ get_elem? s.it i ],
    record s { cursor = s.cursor +ℤ pos 1 },
  )

  unfoldable pub remove : Iterator A → Option A × Iterator A
  remove s =
      let back = s.cursor -ℤ pos 1 in
      elim (py_index (length s.it) back) [
        | none ↦ (none, record s { cursor = back })
        | some i ↦ (get_elem? s.it i, record { it = pop_at i s.it; cursor = back })
      ]

  unfoldable pub append : A → Iterator A → Iterator A
  append x s = record s { it = s.it ++ x ∷ [] }

  unfoldable pub size : Iterator A → ℕ
  size s = length s.it

  unfoldable pub rewind : Iterator A → Iterator A
  rewind s = record s { cursor = pos 0 }

  -- `CyclicIterator.cyclic_has_next`
  unfoldable pub cyclic_has_next : Iterator A → Bool × Iterator A
  unfolding has_next rewind
  cyclic_has_next s = let t = (if has_next s then s else rewind s) in (has_next t, t)

-- `none` is the ValueError.
unfoldable pub remove_element : ℕ → Iterator ℕ → Option (Iterator ℕ)
remove_element x s = elim (index x s.it) [
  | none ↦ none
  | some i ↦ some (record {
    it = pop_at i s.it;
    cursor = if ltb_ℤ (pos i) s.cursor then s.cursor -ℤ pos 1 else s.cursor;
  })
]

module _ {A : Type 0} where
  -- One choice of a cyclic iterator: the next element, where there is one.
  unfoldable pub choose : Iterator A → Option A × Iterator A
  unfolding cyclic_has_next next
  choose s = let (b, t) = cyclic_has_next s in if b then next t else (none, t)

  unfoldable pub choices : ℕ → Iterator A → List (Option A)
  choices zero s = []
  choices (suc n) s = let (x, t) = choose s in x ∷ choices n t

  get_elem?-middle :
      (xs : List A) (y : A) (ys : List A) → get_elem? (xs ++ y ∷ ys) (length xs) ≡ some y
  get_elem?-middle [] y ys = refl
  get_elem?-middle (x ∷ xs) y ys = get_elem?-middle xs y ys

  at_cursor : List A → ℕ → Iterator A
  at_cursor xs n = record { it = xs; cursor = pos n }

  -- What a choice does at the cursor that it has settled on.
  forward : Iterator A → Option A × Iterator A
  forward t = if has_next t then next t else (none, t)

  forward-live : (t : Iterator A) → has_next t ≡ true → forward t ≡ next t
  unfolding forward
  forward-live t h = ap (λ b. if b then next t else (none, t)) h

  choose-live : (s : Iterator A) → has_next s ≡ true → choose s ≡ next s
  unfolding choose cyclic_has_next forward
  choose-live s h = ap (λ b. forward (if b then s else rewind s)) h ∙ forward-live s h

  choose-back :
      (s : Iterator A)
      → has_next s ≡ false
      → has_next (rewind s) ≡ true
      → choose s ≡ next (rewind s)
  unfolding choose cyclic_has_next forward
  choose-back s h k = ap (λ b. forward (if b then s else rewind s)) h ∙ forward-live (rewind s) k

  has_next-middle :
      (xs : List A) (y : A) (ys : List A) → has_next (at_cursor (xs ++ y ∷ ys) (length xs)) ≡ true
  unfolding has_next at_cursor
  has_next-middle xs y ys = let l = length-append xs (y ∷ ys) in ground (arith, l)

  has_next-end : (xs : List A) → has_next (at_cursor xs (length xs)) ≡ false
  unfolding has_next at_cursor
  has_next-end xs = ground arith

  next-middle :
      (xs : List A) (y : A) (ys : List A)
      → next (at_cursor (xs ++ y ∷ ys) (length xs))
        ≡ (some y, at_cursor (xs ++ y ∷ ys) (length xs + 1))
  unfolding next at_cursor
  next-middle xs y ys =
      let l = length-append xs (y ∷ ys) in
      let n = length (xs ++ y ∷ ys) in
      let i : py_index n (pos (length xs)) ≡ some (length xs) = ground (arith, l) in
      let c : pos (length xs) +ℤ pos 1 ≡ pos (length xs + 1) = ground arith in
      let g = get_elem?-middle xs y ys in
      rw (i, c) (ap (λ e. (e, record { it = xs ++ y ∷ ys; cursor = pos (length xs + 1) })) g)

  choose-middle :
      (xs : List A) (y : A) (ys : List A)
      → choose (at_cursor (xs ++ y ∷ ys) (length xs))
        ≡ (some y, at_cursor (xs ++ y ∷ ys) (length xs + 1))
  choose-middle xs y ys =
      choose-live (at_cursor (xs ++ y ∷ ys) (length xs)) (has_next-middle xs y ys)
      ∙ next-middle xs y ys

  choose-end :
      (y : A) (ys : List A)
      → choose (at_cursor (y ∷ ys) (length (y ∷ ys))) ≡ (some y, at_cursor (y ∷ ys) 1)
  unfolding rewind at_cursor
  choose-end y ys =
      choose-back (at_cursor (y ∷ ys) (length (y ∷ ys))) (has_next-end (y ∷ ys))
        (has_next-middle [] y ys)
      ∙ next-middle [] y ys

  -- To the end of the list, `n` choices being left.
  choices-rest :
      (xs ys : List A) (n : ℕ)
      → choices (length ys + n) (at_cursor (xs ++ ys) (length xs))
        ≡ map some ys ++ choices n (at_cursor (xs ++ ys) (length (xs ++ ys)))
  unfolding choices
  choices-rest xs [] n = let e : 0 + n ≡ n = omega arith in rw (e, append-nil xs) refl
  choices-rest xs (y ∷ ys) n =
      let h = choose-middle xs y ys in
      let ih = choices-rest (xs ++ y ∷ []) ys n in
      let e : length (xs ++ y ∷ []) ≡ length xs + 1 = length-append xs (y ∷ []) in
      let ih' =
        subst
          (λ k.
            choices (length ys + n) (at_cursor ((xs ++ y ∷ []) ++ ys) k)
            ≡ map some ys
              ++ choices n (at_cursor ((xs ++ y ∷ []) ++ ys) (length ((xs ++ y ∷ []) ++ ys))))
          e ih in
      let ih'' =
        subst
          (λ l.
            choices (length ys + n) (at_cursor l (length xs + 1))
            ≡ map some ys ++ choices n (at_cursor l (length l)))
          (append_assoc xs (y ∷ []) ys) ih' in
      let s : length (y ∷ ys) + n ≡ suc (length ys + n) = omega arith in
      ap (λ k. choices k (at_cursor (xs ++ y ∷ ys) (length xs))) s
      ∙ ap (λ (r : Option A × Iterator A). r.0 ∷ choices (length ys + n) r.1) h
      ∙ ap (λ l. some y ∷ l) ih''

  -- `k` rounds over a list.
  abbrev pub rounds : ℕ → List A → List A
  rounds zero xs = []
  rounds (suc k) xs = xs ++ rounds k xs

  suc_mul_length :
      (k : ℕ) (ys : List A) (y : A)
      → suc k * length (y ∷ ys) ≡ suc (length ys + k * length (y ∷ ys))
  suc_mul_length k ys y = let m = length (y ∷ ys) in grind arith

  choices-rounds :
      (k : ℕ) (y : A) (ys : List A)
      → choices (k * length (y ∷ ys)) (at_cursor (y ∷ ys) (length (y ∷ ys)))
        ≡ map some (rounds k (y ∷ ys))
  unfolding choices
  choices-rounds zero y ys =
      let z : 0 * length (y ∷ ys) ≡ 0 = omega arith in
      ap (λ n. choices n (at_cursor (y ∷ ys) (length (y ∷ ys)))) z
  choices-rounds (suc k) y ys =
      let m = length (y ∷ ys) in
      let s : suc k * m ≡ suc (length ys + k * m) = suc_mul_length k ys y in
      let r = choices-rest (y ∷ []) ys (k * m) in
      ap (λ n. choices n (at_cursor (y ∷ ys) m)) s
      ∙ ap (λ (r : Option A × Iterator A). r.0 ∷ choices (length ys + k * m) r.1) (choose-end y ys)
      ∙ ap (λ l. some y ∷ l) (r ∙ ap (λ l. map some ys ++ l) (choices-rounds k y ys))
      ∙ ap (λ l. some y ∷ l) (sym (map-append some ys (rounds k (y ∷ ys))))

  -- A cyclic iterator that starts at the front of a list of at least one element takes turns: `k`
  -- times as many choices as there are elements give every element `k` times, in rounds.
  pub choices-init :
      (k : ℕ) (y : A) (ys : List A)
      → choices (k * length (y ∷ ys)) (init (y ∷ ys)) ≡ map some (rounds k (y ∷ ys))
  unfolding init at_cursor choices
  choices-init zero y ys =
      let z : 0 * length (y ∷ ys) ≡ 0 = omega arith in ap (λ n. choices n (init (y ∷ ys))) z
  choices-init (suc k) y ys =
      let m = length (y ∷ ys) in
      let s : suc k * m ≡ m + k * m = suc_mul_length k ys y ∙ omega arith in
      ap (λ n. choices n (init (y ∷ ys))) s
      ∙ choices-rest [] (y ∷ ys) (k * m)
      ∙ ap (λ l. map some (y ∷ ys) ++ l) (choices-rounds k y ys)
      ∙ sym (map-append some (y ∷ ys) (rounds k (y ∷ ys)))
