-- ===== src/AtomicInteger.antt =====
-- helper/atomic_integer.py: `AtomicInteger`. Every method runs under the lock, so that a call is
-- one step; `sys.maxint` is a parameter.
use summerrpc.Prelude.{
  ℕ, zero, suc, ◌+◌, ◌≤◌, ◌<◌, ◌≡◌, refl, ap, sym, ◌∙◌, ◌*◌, Bool, true, false, arith,
  if◌then◌else◌,
}
use summerrpc.Prelude.Int.{ℤ, pos, ltb_ℤ, eq_ℤ, ◌-ℤ◌, ◌+ℤ◌}

pub record AtomicInteger : Type 0 where
  pub initial : ℤ
  pub internal : ℤ
  pub max_integer : ℕ

unfoldable pub init : ℕ → ℤ → AtomicInteger
init max_integer initial = record {
  initial = initial;
  internal = initial;
  max_integer = max_integer;
}

unfoldable pub increase : ℤ → AtomicInteger → AtomicInteger × ℤ
increase increment a =
    let room = pos a.max_integer -ℤ a.internal -ℤ increment in
    if ltb_ℤ room (pos 0)
    then (record a { internal = a.initial }, a.initial)
    else (record a { internal = a.internal +ℤ increment }, a.internal +ℤ increment)

unfoldable pub get_value : AtomicInteger → ℤ
get_value a = a.internal

unfoldable pub compare_and_set : ℤ → ℤ → AtomicInteger → AtomicInteger × Bool
compare_and_set expect update a =
    if eq_ℤ a.internal expect then (record a { internal = update }, true) else (a, false)

-- The n-th identifier that a generator `increase(1)` over a counter from 0 has handed out last.
pub calls : ℕ → ℕ → AtomicInteger
calls m zero = init m (pos 0)
calls m (suc n) = (increase (pos 1) (calls m n)).0

calls-fields : (m n : ℕ) → ((calls m n).initial ≡ pos 0) × ((calls m n).max_integer ≡ m)
unfolding calls increase init
calls-fields m zero = (refl, refl)
calls-fields m (suc n) = let (p, q) = calls-fields m n in ground arith

increase-below :
    (a : AtomicInteger) (v : ℕ)
    → a.internal ≡ pos v
    → v < a.max_integer
    → (increase (pos 1) a).0.internal ≡ pos (suc v)
unfolding increase
increase-below a v e h = ground arith

increase-top :
    (a : AtomicInteger)
    → a.internal ≡ pos a.max_integer
    → (increase (pos 1) a).0.internal ≡ a.initial
unfolding increase
increase-top a e = ground arith

-- Identifiers count up from 0 and start again after `sys.maxint`: after k rounds of maxint + 1
-- increments and r more the counter is at r.
pub get_value-calls : (m k r : ℕ) → r ≤ m → get_value (calls m (k * suc m + r)) ≡ pos r
unfolding get_value calls init
get_value-calls m zero zero h =
    let z : zero * suc m + 0 ≡ 0 = omega arith in ap (λ (n : ℕ). (calls m n).internal) z
get_value-calls m (suc k) zero h =
    let e : suc k * suc m + 0 ≡ suc (k * suc m + m) = omega arith in
    let (p, q) = calls-fields m (k * suc m + m) in
    let full = get_value-calls m k m (omega arith) in
    ap (λ (n : ℕ). (calls m n).internal) e
    ∙ increase-top (calls m (k * suc m + m)) (full ∙ ap pos (sym q))
    ∙ p
get_value-calls m k (suc r) h =
    let e : k * suc m + suc r ≡ suc (k * suc m + r) = omega arith in
    let (p, q) = calls-fields m (k * suc m + r) in
    ap (λ (n : ℕ). (calls m n).internal) e
    ∙ increase-below (calls m (k * suc m + r)) r (get_value-calls m k r (omega arith))
        (omega (arith, q))
