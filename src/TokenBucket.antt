-- ===== src/TokenBucket.antt =====
-- rate_limiter/token_bucket.py: `TokenBucketRateLimiter`. The two products with the rate, which
-- are rounded down from floats, are arguments: how many tokens a time in milliseconds generates,
-- and how long a number of tokens takes.
use summerrpc.Prelude.{
  ℕ, ◌+◌, ◌-◌, ◌*◌, ◌≤◌, refl, ◌≡◌, Bool, true, false, List, [], ◌∷◌, arith, leb, if◌then◌else◌,
}
use native.Mathlib.Nat.{mul-add, mul-zero, mul-le-mul_left}

pub record Bucket : Type 0 where
  pub capacity : ℕ
  pub last_refresh_time : ℕ
  pub consumed_tokens : ℕ

unfoldable pub init : ℕ → Bucket
init capacity = record { capacity = capacity; last_refresh_time = 0; consumed_tokens = 0 }

abbrev min : ℕ → ℕ → ℕ
min a b = if leb a b then a else b

module _ (tokens_of time_of : ℕ → ℕ) where
  -- The first part of `_acquire`: time that makes no whole token is kept for later. The elapsed
  -- time is at most `now`, so that the difference is not cut off.
  unfoldable pub refresh : ℕ → Bucket → Bucket
  refresh now b =
      let elapsed = now - b.last_refresh_time in
      let new = tokens_of elapsed in
      record b {
        last_refresh_time = now + time_of new - elapsed;
        consumed_tokens = min b.capacity b.consumed_tokens - new;
      }

  -- `_acquire`
  unfoldable pub acquire : ℕ → ℕ → Bucket → Bool × Bucket
  unfolding refresh
  acquire now requested b =
      let c = refresh now b in
      if leb (c.consumed_tokens + requested) c.capacity
      then (true, record c { consumed_tokens = c.consumed_tokens + requested })
      else (false, c)

  -- A run of calls, each with its time and the number it asks for: the tokens that were granted, and
  -- the bucket at the end.
  unfoldable pub run : List (ℕ × ℕ) → Bucket → ℕ × Bucket
  unfolding acquire
  run [] b = (0, b)
  run ((now, requested) ∷ calls) b =
      let (granted, c) = acquire now requested b in
      let (total, d) = run calls c in ((if granted then requested else 0) + total, d)

  -- The times of the calls are from `first` to `last`, and do not go back.
  abbrev pub Rising : (first last : ℕ) → List (ℕ × ℕ) → Type 0
  Rising first last [] = first ≤ last
  Rising first last ((now, requested) ∷ calls) = (first ≤ now) × Rising now last calls

  -- The products with the rate, rounded down: the time that the tokens of a time take is not more
  -- than that time, and each token takes `period` at least.
  pub record IsRate (period : ℕ) : Type 0 where
    pub rounds_down : (t : ℕ) → time_of (tokens_of t) ≤ t
    pub slow : (n : ℕ) → period * n ≤ time_of n

  -- In a call, what is granted comes from the room there is and from tokens whose time is over.
  acquire-bounds :
      (period now requested : ℕ) (b : Bucket)
      → IsRate period
      → b.last_refresh_time ≤ now
      → b.consumed_tokens ≤ b.capacity
      → let (granted, c) = acquire now requested b in
        (c.consumed_tokens ≤ c.capacity)
        × (c.capacity ≡ b.capacity)
        × (c.last_refresh_time ≤ now)
        × ((n : ℕ) × ((if granted then requested else 0) + b.consumed_tokens
              ≤ c.consumed_tokens + n)
            × (period * n + b.last_refresh_time ≤ c.last_refresh_time))
  unfolding acquire refresh
  acquire-bounds period now requested b rate l h =
      let e = now - b.last_refresh_time in
      let n = tokens_of e in
      let down = rate.rounds_down e in
      let slow = rate.slow n in
      let f : e ≡ now - b.last_refresh_time = refl in
      (
        ground (arith, h),
        ground (arith, h),
        ground (arith, l, down, f),
        (n, ground (arith, h), ground (arith, l, down, slow, f)),
      )

  Rising-weaken :
      (a b last : ℕ) (calls : List (ℕ × ℕ)) → a ≤ b → Rising b last calls → Rising a last calls
  Rising-weaken a b last [] l r = omega (arith, l, r)
  Rising-weaken a b last ((now, requested) ∷ calls) l r = (omega (arith, l, r.0), r.1)

  run-bounds :
      (period last : ℕ) (calls : List (ℕ × ℕ)) (b : Bucket)
      → IsRate period
      → Rising b.last_refresh_time last calls
      → b.consumed_tokens ≤ b.capacity
      → (n : ℕ) × ((run calls b).0 + b.consumed_tokens ≤ b.capacity + n)
        × (period * n + b.last_refresh_time ≤ last)
  unfolding run
  run-bounds period last [] b rate r h =
      let z : period * 0 ≡ 0 = mul-zero period in (0, omega (arith, h), omega (arith, r, z))
  run-bounds period last ((now, requested) ∷ calls) b rate (l, r) h =
      let c = (acquire now requested b).1 in
      let (k, e, u, (n, p, q)) = acquire-bounds period now requested b rate l h in
      let (m, x, y) =
        run-bounds period last calls c rate (Rising-weaken c.last_refresh_time now last calls u r)
          k in
      let both : period * (n + m) ≡ period * n + period * m = mul-add period n m in
      (n + m, omega (arith, p, x, e), omega (arith, q, y, both))

  -- When the rate gives at most a token in each `period`, and the clock does not go back: from any
  -- state of a bucket to a call at the time `last`, the tokens granted are at most its capacity and
  -- one for each period since its last refresh.
  pub granted-run :
      (period last : ℕ) (calls : List (ℕ × ℕ)) (b : Bucket)
      → IsRate period
      → Rising b.last_refresh_time last calls
      → b.consumed_tokens ≤ b.capacity
      → period * (run calls b).0 ≤ period * b.capacity + (last - b.last_refresh_time)
  granted-run period last calls b rate r h =
      let (n, p, q) = run-bounds period last calls b rate r h in
      let le : (run calls b).0 ≤ b.capacity + n = omega (arith, p) in
      let scaled : period * (run calls b).0 ≤ period * (b.capacity + n) =
        mul-le-mul_left period le in
      let both : period * (b.capacity + n) ≡ period * b.capacity + period * n =
        mul-add period b.capacity n in
      omega (arith, scaled, both, q)
