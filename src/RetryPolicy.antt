-- ===== src/RetryPolicy.antt =====
-- helper/retry_policy.py: `RetryPolicy.run`, and the check of the number of retries in its builder.
-- What the n-th call of the function comes to is an argument.
use summerrpc.Prelude.{
  ℕ, zero, suc, ◌+◌, ◌≡◌, refl, ap, sym, ◌∙◌, Bool, true, false, arith, leb, if◌then◌else◌,
}
use summerrpc.Prelude.Int.{ℤ, pos, negsuc}
use summerrpc.Exceptions.{Class, type_error, value_error}
use summerrpc.RpcServer.Builder.{Value, int_value, Outcome, ok, raise}

-- `caught` is an exception of `retry_exceptions`.
pub data Attempt (A : Type 0) : Type 0 where
  returns : A → Attempt A
  raises : Class → Attempt A
  caught : Attempt A

pub data Result (A : Type 0) : Type 0 where
  returned : A → Result A
  raised : Class → Result A
  max_retry_count_reached : Result A
  out_of_fuel : Result A

-- The condition of the loop; -1 stands for no limit.
unfoldable pub may_try : ℤ → ℕ → Bool
may_try (negsuc zero) k = true
may_try (negsuc (suc n)) k = false
may_try (pos n) k = leb k n

may_try-below : (max : ℤ) (i d : ℕ) → may_try max (i + d) ≡ true → may_try max i ≡ true
unfolding may_try
may_try-below (negsuc zero) i d h = refl
may_try-below (negsuc (suc n)) i d h = h
may_try-below (pos n) i d h = ground (arith, h)

module _ {A : Type 0} where
  -- The loop, which has slept as often as it counts.
  unfoldable pub loop : ℕ → ℤ → (ℕ → Attempt A) → ℕ → Result A × ℕ
  loop zero max f k = (out_of_fuel, k)
  loop (suc fuel) max f k =
      let rest = loop fuel max f (suc k) in
      if may_try max k
      then (elim (f k) [ returns a ↦ (returned a, k) | raises e ↦ (raised e, k) | caught ↦ rest ])
      else (max_retry_count_reached, k)

  -- `run`: what it comes to, and how often it slept.
  unfoldable pub run : ℕ → ℤ → (ℕ → Attempt A) → Result A × ℕ
  run fuel max f = loop fuel max f 0

  -- The `d` attempts from the `i`-th on are all caught.
  abbrev pub Caught : (ℕ → Attempt A) → ℕ → ℕ → Type 0
  Caught f zero i = Unit
  Caught f (suc d) i = (f i ≡ caught) × Caught f d (suc i)

  loop-Caught :
      (max : ℤ) (f : ℕ → Attempt A) (d fuel i : ℕ)
      → may_try max (i + d) ≡ true
      → Caught f (suc d) i
      → loop (suc d + fuel) max f i ≡ loop fuel max f (i + suc d)
  unfolding loop
  loop-Caught max f zero fuel i h (e, _) =
      let z : suc zero + fuel ≡ suc fuel = omega arith in
      let y : i + suc zero ≡ suc i = omega arith in
      let l = may_try-below max i 0 h in rw z (rw y (rw (loop, l, e) refl))
  loop-Caught max f (suc d) fuel i h (e, c) =
      let z : suc (suc d) + fuel ≡ suc (suc d + fuel) = omega arith in
      let y : i + suc (suc d) ≡ suc i + suc d = omega arith in
      let l = may_try-below max i (suc d) h in
      let w : i + suc d ≡ suc i + d = omega arith in
      let ih = loop-Caught max f d fuel (suc i) (ap (may_try max) (sym w) ∙ h) c in
      rw z (rw y (rw (loop, l, e) ih))

  -- When the attempts before the `k`-th are caught, the `k`-th returns and the policy allows it,
  -- `run` ends with its value after `k` sleeps, on any fuel above `k`.
  pub run-returns :
      (max : ℤ) (f : ℕ → Attempt A) (k extra : ℕ) (a : A)
      → may_try max k ≡ true
      → Caught f k 0
      → f k ≡ returns a
      → run (k + suc extra) max f ≡ (returned a, k)
  unfolding run loop
  run-returns max f zero extra a h c e =
      let z : 0 + suc extra ≡ suc extra = omega arith in rw z (rw (loop, h, e) refl)
  run-returns max f (suc k) extra a h c e =
      let g : may_try max k ≡ true =
        may_try-below max k 1 (let z : k + 1 ≡ suc k = omega arith in ap (may_try max) z ∙ h) in
      let q =
        loop-Caught max f k (suc extra) 0
          (let z : 0 + k ≡ k = omega arith in ap (may_try max) z ∙ g) c in
      let y : 0 + suc k ≡ suc k = omega arith in
      q ∙ ap (loop (suc extra) max f) y ∙ rw (loop, h, e) refl

  -- When every attempt is caught, a policy with `n` retries makes `n + 1` attempts, sleeps after
  -- each, the last one too, and raises MaxRetryCountReached.
  pub run-max_retry_count_reached :
      (n extra : ℕ) (f : ℕ → Attempt A)
      → Caught f (suc n) 0
      → run (suc n + suc extra) (pos n) f ≡ (max_retry_count_reached, suc n)
  unfolding run loop may_try
  run-max_retry_count_reached n extra f c =
      let g : may_try (pos n) (0 + n) ≡ true = ground arith in
      let y : 0 + suc n ≡ suc n = omega arith in
      let h : leb (suc n) n ≡ false = ground arith in
      loop-Caught (pos n) f n (suc extra) 0 g c
      ∙ ap (loop (suc extra) (pos n) f) y
      ∙ rw (loop, h) refl

-- `with_max_retry_count`
unfoldable pub with_max_retry_count : Value → Outcome ℤ
with_max_retry_count (int_value (pos n)) = ok (pos n)
with_max_retry_count (int_value (negsuc zero)) = ok (negsuc 0)
with_max_retry_count (int_value (negsuc (suc n))) = raise value_error
with_max_retry_count _ = raise type_error
