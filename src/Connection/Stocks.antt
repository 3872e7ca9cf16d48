-- ===== src/Connection/Stocks.antt =====
-- Lists of different numbers below a bound, counted.
use summerrpc.Prelude.{
  ℕ, ◌+◌, ◌<◌, ◌≡◌, List, [], ◌∷◌, ◌++◌, arith, length, All, Fresh, Distinct, length-append,
  All-append, append-All, Distinct-middle, append-Fresh, middle-Distinct,
}

-- The numbers `xs` are distinct, below `next`, and `issued` many.
pub record Stock (next issued : ℕ) (xs : List ℕ) : Type 0 where
  pub distinct : Distinct xs
  pub below : All (λ f. f < next) xs
  pub counted : issued ≡ length xs

All-weaken : (n : ℕ) (xs : List ℕ) → All (λ f. f < n) xs → All (λ f. f < n + 1) xs
All-weaken n [] h = tt
All-weaken n (x ∷ xs) h = (omega (arith, h.0), All-weaken n xs h.1)

Fresh-below : (n : ℕ) (xs : List ℕ) → All (λ f. f < n) xs → Fresh n xs
Fresh-below n [] h = tt
Fresh-below n (x ∷ xs) h = (omega (arith, h.0), Fresh-below n xs h.1)

module _ (n k : ℕ) where
  pub Stock-weaken : (xs : List ℕ) → Stock n k xs → Stock (n + 1) k xs
  Stock-weaken xs s = record {
    distinct = s.distinct;
    below = All-weaken n xs s.below;
    counted = s.counted;
  }

  -- A new number joins.
  pub Stock-insert : (xs ys : List ℕ) → Stock n k (xs ++ ys) → Stock (n + 1) (k + 1) (xs ++ n ∷ ys)
  Stock-insert xs ys s =
      let (l, r) = All-append (λ f. f < n) xs ys s.below in
      record {
        distinct = middle-Distinct xs n ys (Fresh-below n xs l) (Fresh-below n ys r) s.distinct;
        below =
            append-All (λ f. f < n + 1) xs (n ∷ ys) (All-weaken n xs l)
              (omega arith, All-weaken n ys r);
        counted = omega (arith, s.counted, length-append {0} xs ys, length-append {0} xs (n ∷ ys));
      }

  -- A number moves to the front.
  pub Stock-front :
      (xs : List ℕ) (f : ℕ) (ys : List ℕ) → Stock n k (xs ++ f ∷ ys) → Stock n k (f ∷ xs ++ ys)
  Stock-front xs f ys s =
      let (l, r) = All-append (λ g. g < n) xs (f ∷ ys) s.below in
      let (u, v, w) = Distinct-middle xs f ys s.distinct in
      record {
        distinct = (append-Fresh f xs ys u v, w);
        below = (r.0, append-All (λ g. g < n) xs ys l r.1);
        counted = omega (arith, s.counted, length-append {0} xs ys, length-append {0} xs (f ∷ ys));
      }
