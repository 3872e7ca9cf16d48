-- ===== src/StaticList/Full.antt =====
-- helper/list.py: sequences of calls on a `StaticList` against a bounded stack, and a full list.
use summerrpc.Prelude.{
  ℕ, suc, ◌≡◌, refl, false, Option, some, List, [], ◌∷◌, arith, ltb, length, if◌then◌else◌,
  Bool-cases, inl, inr, ltb→lt, ◌≤◌,
}
use summerrpc.Prelude.Int.{ℤ, pos, negsuc}
use summerrpc.StaticList.{
  StaticList, Error, Outcome, ok, raise, list_full, list_empty, init, insert_left, pop_left,
  peek_left, is_full, is_none,
}
use summerrpc.StaticList.Chain.{Rep}
use summerrpc.StaticList.Refines.{
  insert_left-push, insert_left-full, pop_left-cons, pop_left-nil, peek_left-cons, peek_left-nil,
  init-Rep, length-used,
}

pub data Call (A : Type 0) : Type 0 where
  push : A → Call A
  pop peek : Call A

pub data Answer (A : Type 0) : Type 0 where
  done : Answer A
  value : Option A → Answer A
  failed : Error → Answer A

is_none-false : (i : ℤ) → is_none i ≡ false
is_none-false (pos n) = refl
is_none-false (negsuc n) = refl

module _ {A : Type 0} where
  abbrev returned_unit : Outcome A (Unit {0}) → StaticList A × Answer A
  returned_unit (ok s _) = (s, done)
  returned_unit (raise s e) = (s, failed e)

  abbrev returned : Outcome A (Option A) → StaticList A × Answer A
  returned (ok s v) = (s, value v)
  returned (raise s e) = (s, failed e)

  abbrev pub call : Call A → StaticList A → StaticList A × Answer A
  call (push e) s = returned_unit (insert_left e s)
  call pop s = returned (pop_left s)
  call peek s = returned (peek_left s)

  pub run : StaticList A → List (Call A) → List (Answer A)
  run s [] = []
  run s (c ∷ cs) = let r = call c s in r.1 ∷ run r.0 cs

  -- A stack of at most `cap` elements.
  abbrev pub stack_call : ℕ → Call A → List A → List A × Answer A
  stack_call cap (push e) xs =
      if ltb (length xs) cap then (e ∷ xs, done) else (xs, failed list_full)
  stack_call cap pop [] = ([], failed list_empty)
  stack_call cap pop (x ∷ xs) = (xs, value (some x))
  stack_call cap peek [] = ([], failed list_empty)
  stack_call cap peek (x ∷ xs) = (x ∷ xs, value (some x))

  pub stack_run : ℕ → List A → List (Call A) → List (Answer A)
  stack_run cap xs [] = []
  stack_run cap xs (c ∷ cs) = let r = stack_call cap c xs in r.1 ∷ stack_run cap r.0 cs

  -- The answer of a call, and a state that holds the stack after it.
  abbrev Matches : ℕ → StaticList A × Answer A → List A × Answer A → Type 0
  Matches cap r t = (r.1 ≡ t.1) × Rep cap r.0 t.0

  length-le : {cap : ℕ} {s : StaticList A} {xs : List A} → Rep cap s xs → length xs ≤ cap
  length-le {s} r = omega (arith, length-used s r, r.total)

  call-Matches :
      {cap : ℕ} {s : StaticList A} {xs : List A} (c : Call A)
      → Rep cap s xs
      → Matches cap (call c s) (stack_call cap c xs)
  call-Matches {cap} {s} {xs} (push e) r = elim (Bool-cases (ltb (length xs) cap)) [
    | inl room ↦
        let (s', p, r') = insert_left-push s e r (ltb→lt _ _ room) in rw (room, p) (refl, r')
    | inr full ↦
        let p = insert_left-full s e r (ground (arith, length-le r)) in rw (full, p) (refl, r)
  ]
  call-Matches {s} {xs = []} pop r = rw (pop_left-nil s r) (refl, r)
  call-Matches {s} {xs = x ∷ xs} pop r = let (s', p, r') = pop_left-cons s x r in rw p (refl, r')
  call-Matches {s} {xs = []} peek r = rw (peek_left-nil s r) (refl, r)
  call-Matches {s} {xs = x ∷ xs} peek r = rw (peek_left-cons s x r) (refl, r)

  run_from-stack_run :
      {cap : ℕ} {s : StaticList A} {xs : List A} (cs : List (Call A))
      → Rep cap s xs
      → run s cs ≡ stack_run cap xs cs
  unfolding run stack_run
  run_from-stack_run {cap} {s} {xs} [] r = refl
  run_from-stack_run {cap} {s} {xs} (c ∷ cs) r =
      let (p, r') = call-Matches c r in
      let rest = run_from-stack_run {s = (call c s).0} {xs = (stack_call cap c xs).0} cs r' in
      cc (p, rest)

  -- Every sequence of pushes, pops and peeks on a new list of n + 1 nodes gives, call by call, the
  -- value or the exception that a stack of at most n + 1 elements gives.
  pub run-stack_run : (n : ℕ) (cs : List (Call A)) → run (init (suc n)) cs ≡ stack_run (suc n) [] cs
  run-stack_run n cs = run_from-stack_run cs (init-Rep n)

  -- A list at its capacity answers false to `is_full`, and the insertion that follows raises.
  pub is_full-full :
      {cap : ℕ} (s : StaticList A) (xs : List A) (e : A)
      → Rep cap s xs
      → length xs ≡ cap
      → (is_full s ≡ false) × (insert_left e s ≡ raise s list_full)
  unfolding is_full
  is_full-full s xs e r h = (is_none-false s.space.next, insert_left-full s e r h)
