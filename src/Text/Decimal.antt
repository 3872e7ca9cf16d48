-- ===== src/Text/Decimal.antt =====
-- Printing a number in decimal and reading it back.
use summerrpc.Prelude.{
  ℕ, zero, suc, ◌+◌, ◌-◌, ◌*◌, ◌/◌, ◌%◌, ◌≡◌, ◌≢◌, ◌≤◌, ◌<◌, refl, ap, ◌∙◌, true, some, [], ◌∷◌,
  ◌++◌, arith, ltb, if_cases, if_split, All, append-All,
}
use summerrpc.Prelude.Int.{pos}
use summerrpc.Text.{Bytes, digits, decimal, int, value_from, is_digit, isdigit, all_are, signed}

value_from-snoc :
    (n c : ℕ) (s : Bytes) → value_from n (s ++ c ∷ []) ≡ value_from n s * 10 + (c - 48)
value_from-snoc n c [] = refl
value_from-snoc n c (d ∷ s) = value_from-snoc (n * 10 + (d - 48)) c s

int-digits : (f n : ℕ) → n < f → int (digits f n) ≡ n
unfolding digits
int-digits zero n h = absurd (omega arith)
int-digits (suc f) n h =
    if_split (λ s. int s ≡ n) (ltb n 10) (λ e. ground (arith, e))
      λ e.
        let big : 10 ≤ n = ground (arith, e) in
        let ih = int-digits f (n / 10) (omega (arith, h, big)) in
        omega (arith, value_from-snoc 0 (48 + n % 10) (digits f (n / 10)), ih)

-- `int` reads back what `%d` prints.
pub int-decimal : (n : ℕ) → int (decimal n) ≡ n
unfolding decimal
int-decimal n = int-digits (suc n) n (omega arith)

abbrev pub Digits : Bytes → Type 0
Digits s = All (λ c. (48 ≤ c) × (c ≤ 57)) s

digits-Digits : (f n : ℕ) → Digits (digits f n)
unfolding digits
digits-Digits zero n = tt
digits-Digits (suc f) n =
    if_split Digits (ltb n 10) (λ e. ground (arith, e))
      λ e.
        append-All (λ c. (48 ≤ c) × (c ≤ 57)) (digits f (n / 10)) ((48 + n % 10) ∷ [])
          (digits-Digits f (n / 10)) (omega arith)

pub decimal-Digits : (n : ℕ) → Digits (decimal n)
unfolding decimal
decimal-Digits n = digits-Digits (suc n) n

digits-ne-nil : (f n : ℕ) → digits (suc f) n ≢ []
unfolding digits
digits-ne-nil f n = if_cases (λ s. s ≢ []) (ltb n 10) (λ e. cc) (snoc-ne-nil (digits f (n / 10)) _)
  where
    snoc-ne-nil : (s : Bytes) (c : ℕ) → s ++ c ∷ [] ≢ []
    snoc-ne-nil [] c e = cc
    snoc-ne-nil (d ∷ s) c e = cc

all_are-Digits : (s : Bytes) → Digits s → all_are is_digit s ≡ true
all_are-Digits [] h = refl
all_are-Digits (c ∷ s) h = let a = h.0 in let ih = all_are-Digits s h.1 in ground (arith, a, ih)

-- What `%d` prints passes `isdigit`.
pub isdigit-decimal : (n : ℕ) → isdigit (decimal n) ≡ true
unfolding decimal
isdigit-decimal n = go (digits (suc n) n) (digits-Digits (suc n) n) (digits-ne-nil n n)
  where
    go : (s : Bytes) → Digits s → s ≢ [] → isdigit s ≡ true
    go [] h ne = absurd (ne refl)
    go (c ∷ s) h ne = all_are-Digits (c ∷ s) h

-- `int` reads a text of digits.
signed-Digits : (s : Bytes) → Digits s → isdigit s ≡ true → signed s ≡ some (pos (int s))
unfolding signed
signed-Digits [] h e = absurd (cc)
signed-Digits (c ∷ s) h e = let a = h.0 in ground (arith, a, e)

pub signed-decimal : (n : ℕ) → signed (decimal n) ≡ some (pos n)
signed-decimal n =
    signed-Digits (decimal n) (decimal-Digits n) (isdigit-decimal n)
    ∙ ap (λ m. some (pos m)) (int-decimal n)
