-- ===== src/RedisBucket.antt =====
-- rate_limiter/redis_token_bucket.py: `RedisTokenBucketRateLimiter` and the Lua script that it sends to
-- Redis. The script runs as one step. Numbers are natural, times are seconds, and Redis's clock shows
-- the time that the caller sends.
use summerrpc.Prelude.{
  ℕ, ◌+◌, ◌-◌, ◌*◌, ◌/◌, ◌≤◌, ◌<◌, ◌≡◌, refl, sym, ap, ◌∙◌, Bool, true, false, Option, none, some,
  List, [], ◌∷◌, arith, leb, ◌==◌, if◌then◌else◌, Bool-cases, inl, inr, ◌⊎◌, if_split,
}
use native.Mathlib.Nat.{div-add-mod', mod-lt, mul-le-mul_right, div-zero}

-- What stands under the two keys of a bucket, which are set together: the tokens, and the time.
pub record Entry : Type 0 where
  pub tokens : ℕ
  pub timestamp : ℕ

-- `RedisTokenBucketRateLimiter`; an entry that was set at one time, with its time to live, is there
-- at another or not, as Redis decides.
pub record Limiter : Type 0 where
  pub capacity : ℕ
  pub rate : ℕ
  pub is_there : (set ttl now : ℕ) → Bool

abbrev pub Store : Type 0
Store = Option Entry

-- math.floor(capacity / rate * 2)
abbrev pub ttl : Limiter → ℕ
ttl self = self.capacity * 2 / self.rate

-- `redis.call("get", key)`
abbrev pub entry_at : Limiter → ℕ → Store → Option Entry
entry_at self now none = none
entry_at self now (some e) = if self.is_there e.timestamp (ttl self) now then some e else none

abbrev pub smaller : ℕ → ℕ → ℕ
smaller a b = if leb a b then a else b

-- The tokens before the request.
abbrev pub filled_tokens : Limiter → ℕ → Option Entry → ℕ
filled_tokens self now none = smaller self.capacity (self.capacity + now * self.rate)
filled_tokens self now (some e) = smaller self.capacity (e.tokens + (now - e.timestamp) * self.rate)

abbrev taken : ℕ → ℕ → ℕ → Bool × Store
taken filled requested now =
    if leb requested filled
    then (true, some (record { tokens = filled - requested; timestamp = now }))
    else (false, some (record { tokens = filled; timestamp = now }))

-- The script, and `acquire`: `none` is the error of `setex` with a time to live of zero.
unfoldable pub acquire : Limiter → ℕ → ℕ → Store → Option (Bool × Store)
acquire self now requested store =
    if ttl self == 0
    then none
    else some (taken (filled_tokens self now (entry_at self now store)) requested now)

-- A sequence of calls, each with its time and what it asks for: their answers.
unfoldable pub answers : Limiter → List (ℕ × ℕ) → Store → List (Option Bool)
unfolding acquire
answers self [] store = []
answers self ((now, requested) ∷ calls) store = elim (acquire self now requested store) [
  | none ↦ none ∷ answers self calls store
  | some (allowed, after) ↦ some allowed ∷ answers self calls after
]

-- Redis forgets an entry only when its time to live is over.
abbrev pub IsPatient : Limiter → Type 0
IsPatient self = (set ttl now : ℕ) → self.is_there set ttl now ≡ false → set + ttl ≤ now

-- The same limiter over a store that forgets nothing.
abbrev pub forgetting_nothing : Limiter → Limiter
forgetting_nothing self = record self { is_there = λ set ttl now. true }

-- In its time to live a bucket is filled.
ttl-fills :
    (capacity rate : ℕ) → (capacity * 2 / rate == 0) ≡ false → capacity ≤ capacity * 2 / rate * rate
ttl-fills capacity rate h = elim (Nat-cases rate) [
  | inl z ↦
      let q : capacity * 2 / rate ≡ 0 =
        ap (λ (r : ℕ). capacity * 2 / r) z ∙ div-zero (capacity * 2) in
      absurd (ground (arith, q, h))
  | inr p ↦
      let t = capacity * 2 / rate in
      let positive : 1 ≤ t = ground (arith, h) in
      let whole = mul-le-mul_right rate positive in
      omega (arith, whole, div-add-mod' (capacity * 2) rate, mod-lt (capacity * 2) p)
]
  where
    Nat-cases : (n : ℕ) → (n ≡ 0) ⊎ (0 < n)
    Nat-cases n = ground arith

-- An entry that is gone would have filled the bucket.
filled-gone :
    (capacity rate tokens timestamp now : ℕ)
    → (capacity * 2 / rate == 0) ≡ false
    → timestamp + capacity * 2 / rate ≤ now
    → smaller capacity (tokens + (now - timestamp) * rate)
      ≡ smaller capacity (capacity + now * rate)
filled-gone capacity rate tokens timestamp now h old =
    let t = capacity * 2 / rate in
    let full = ttl-fills capacity rate h in
    let more =
      mul-le-mul_right {m = capacity * 2 / rate} {n = now - timestamp} rate (omega (arith, old)) in
    let enough : capacity ≤ (now - timestamp) * rate = omega (arith, full, more) in
    ground (arith, enough)

filled-forgetting :
    (self : Limiter) (now : ℕ) (store : Store)
    → IsPatient self
    → (ttl self == 0) ≡ false
    → filled_tokens self now (entry_at self now store)
      ≡ filled_tokens self now (entry_at (forgetting_nothing self) now store)
filled-forgetting self now none patient h = refl
filled-forgetting self now (some e) patient h =
    if_split (λ o. filled_tokens self now o ≡ filled_tokens self now (some e))
      (self.is_there e.timestamp (ttl self) now) (λ k. refl)
      (λ k. sym (
        filled-gone self.capacity self.rate e.tokens e.timestamp now h
          (patient e.timestamp (ttl self) now k)))

acquire-forgetting :
    (self : Limiter) (now requested : ℕ) (store : Store)
    → IsPatient self
    → acquire self now requested store ≡ acquire (forgetting_nothing self) now requested store
unfolding acquire
acquire-forgetting self now requested store patient = elim (Bool-cases (ttl self == 0)) [
  | inl z ↦ rw z refl
  | inr h ↦
      ap (λ (x : ℕ). if ttl self == 0 then none else some (taken x requested now))
        (filled-forgetting self now store patient h)
]

-- That the bucket's keys expire changes no answer: any calls are answered as by a limiter whose
-- entries stay for ever.
pub answers-forgetting :
    (self : Limiter) (calls : List (ℕ × ℕ)) (store : Store)
    → IsPatient self
    → answers self calls store ≡ answers (forgetting_nothing self) calls store
unfolding answers
answers-forgetting self [] store patient = refl
answers-forgetting self ((now, requested) ∷ calls) store patient =
    ap
      (λ o. elim o as (λ _. List (Option Bool)) [
        | none ↦ none ∷ answers self calls store
        | some r ↦ some r.0 ∷ answers self calls r.1
      ])
      (acquire-forgetting self now requested store patient)
    ∙ go (acquire (forgetting_nothing self) now requested store)
        (λ s. answers-forgetting self calls s patient)
  where
    go :
        (o : Option (Bool × Store))
        → ((s : Store) → answers self calls s ≡ answers (forgetting_nothing self) calls s)
        → elim o as (λ _. List (Option Bool)) [
          | none ↦ none ∷ answers self calls store
          | some r ↦ some r.0 ∷ answers self calls r.1
        ]
          ≡ elim o as (λ _. List (Option Bool)) [
            | none ↦ none ∷ answers (forgetting_nothing self) calls store
            | some r ↦ some r.0 ∷ answers (forgetting_nothing self) calls r.1
          ]
    go none ih = ap (λ x. none ∷ x) (ih store)
    go (some r) ih = ap (λ x. some r.0 ∷ x) (ih r.1)
