-- ===== src/Prelude/Counts.antt =====
-- How often a number stands in a list.
use Prim.Native.Nat.{ℕ, ◌+◌, ◌≤◌}
use mathlib.Core.Path.{◌≡◌}
use mathlib.Core.List.{List, [], ◌∷◌}
use native.Mathlib.Omega.{arith}
use summerrpc.Prelude.Tests.{◌==◌, if◌then◌else◌}
use summerrpc.Prelude.Lists.{Fresh, Distinct}

abbrev pub one_if : ℕ → ℕ → ℕ
one_if f x = if x == f then 1 else 0

abbrev pub count : ℕ → List ℕ → ℕ
count f [] = 0
count f (x ∷ xs) = one_if f x + count f xs

pub one_if_self : (f : ℕ) → one_if f f ≡ 1
one_if_self f = ground arith

count-Fresh : (f : ℕ) (xs : List ℕ) → count f xs ≡ 0 → Fresh f xs
count-Fresh f [] h = tt
count-Fresh f (x ∷ xs) h = (ground (arith, h), count-Fresh f xs (omega (arith, h)))

-- What stands nowhere twice is distinct.
pub count-Distinct : (xs : List ℕ) → ((f : ℕ) → count f xs ≤ 1) → Distinct xs
count-Distinct [] h = tt
count-Distinct (x ∷ xs) h = (
  count-Fresh x xs (omega (arith, h x, one_if_self x)),
  count-Distinct xs λ f. omega (arith, h f),
)
