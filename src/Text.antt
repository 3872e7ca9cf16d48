-- ===== src/Text.antt =====
-- Python's `str` of bytes: the methods that the program calls on texts, and `%d`.
pub mod Decimal
pub mod Laws
use Prim.Native.Char.{code}
use Prim.Native.String.{String}
use summerrpc.Prelude.Int.{ℤ, pos, negsuc}
use summerrpc.Prelude.{
  ℕ, zero, suc, ◌+◌, ◌-◌, ◌*◌, ◌/◌, ◌%◌, ltb, Bool, true, false, Option, none, some, List, [], ◌∷◌,
  ◌++◌, map, ◌&&◌, ◌||◌, leb, ◌==◌, if◌then◌else◌,
}

abbrev pub Bytes : Type 0
Bytes = List ℕ

-- The bytes of an ASCII text.
abbrev pub codes : String → Bytes
codes String.[] = []
codes (String.◌∷◌ c s) = code c ∷ codes s

abbrev pub cr : ℕ
cr = 13

abbrev pub lf : ℕ
lf = 10

abbrev pub crlf : Bytes
crlf = cr ∷ lf ∷ []

abbrev pub is_nil {ℓ} : {A : Type ℓ} → List A → Bool
is_nil [] = true
is_nil (x ∷ xs) = false

-- `==` on texts.
abbrev pub same : Bytes → Bytes → Bool
same [] [] = true
same [] (d ∷ t) = false
same (c ∷ s) [] = false
same (c ∷ s) (d ∷ t) = let rest = same s t in (c == d) && rest

-- `s in texts`
abbrev pub one_of : Bytes → List Bytes → Bool
one_of s [] = false
one_of s (t ∷ ts) = let rest = one_of s ts in same s t || rest

abbrev pub is_space : ℕ → Bool
is_space c = (c == 32) || (leb 9 c && leb c 13)

abbrev pub is_digit : ℕ → Bool
is_digit c = leb 48 c && leb c 57

abbrev pub is_upper : ℕ → Bool
is_upper c = leb 65 c && leb c 90

abbrev pub is_lower : ℕ → Bool
is_lower c = leb 97 c && leb c 122

abbrev pub all_are : (ℕ → Bool) → Bytes → Bool
all_are f [] = true
all_are f (c ∷ s) = let rest = all_are f s in f c && rest

-- `isdigit` and `isalnum`, which are false for an empty text.
abbrev pub isdigit : Bytes → Bool
isdigit [] = false
isdigit (c ∷ s) = all_are is_digit (c ∷ s)

abbrev pub isalnum : Bytes → Bool
isalnum [] = false
isalnum (c ∷ s) = all_are (λ d. is_digit d || (is_upper d || is_lower d)) (c ∷ s)

abbrev pub lower : Bytes → Bytes
lower = map (λ c. if is_upper c then c + 32 else c)

abbrev pub upper : Bytes → Bytes
upper = map (λ c. if is_lower c then c - 32 else c)

abbrev pub lstrip : Bytes → Bytes
lstrip [] = []
lstrip (c ∷ s) = let rest = lstrip s in if is_space c then rest else c ∷ s

abbrev pub rstrip : Bytes → Bytes
rstrip [] = []
rstrip (c ∷ s) = let rest = rstrip s in if is_space c && is_nil rest then [] else c ∷ rest

abbrev pub strip : Bytes → Bytes
strip s = rstrip (lstrip s)

-- `s[:-2] if s.endswith("\r\n") else s`
unfoldable pub chop_crlf : Bytes → Bytes
chop_crlf [] = []
chop_crlf (c ∷ []) = c ∷ []
chop_crlf (c ∷ d ∷ s) =
    let rest = chop_crlf (d ∷ s) in if (c == cr) && ((d == lf) && is_nil s) then [] else c ∷ rest

abbrev pub cons_front {ℓ} : {A : Type ℓ} → ℕ → Option (Bytes × A) → Option (Bytes × A)
cons_front c none = none
cons_front c (some (s, t)) = some (c ∷ s, t)

-- `split(sep, 1)`, where it gives two parts.
unfoldable pub split_once : ℕ → Bytes → Option (Bytes × Bytes)
split_once sep [] = none
split_once sep (c ∷ s) =
    let rest = split_once sep s in if c == sep then some ([], s) else cons_front c rest

-- Up to the first "\r\n", with it, and what follows.
unfoldable pub cut_line : Bytes → Option (Bytes × Bytes)
cut_line [] = none
cut_line (c ∷ []) = none
cut_line (c ∷ d ∷ s) =
    let rest = cut_line (d ∷ s) in
    if (c == cr) && (d == lf) then some (crlf, s) else cons_front c rest

-- `split()`, after the bytes `word` of the current part.
unfoldable pub words_from : Bytes → Bytes → List Bytes
words_from word [] = if is_nil word then [] else word ∷ []
words_from word (c ∷ s) =
    let new = words_from [] s in
    let more = words_from (word ++ c ∷ []) s in
    if is_space c then (if is_nil word then new else word ∷ new) else more

-- `int(s)` for a text of digits.
abbrev pub value_from : ℕ → Bytes → ℕ
value_from n [] = n
value_from n (c ∷ s) = value_from (n * 10 + (c - 48)) s

abbrev pub int : Bytes → ℕ
int s = value_from 0 s

-- `"%d" % n`, the fuel being more than `n`.
unfoldable pub digits : ℕ → ℕ → Bytes
digits zero n = []
digits (suc f) n =
    let rest = digits f (n / 10) in if ltb n 10 then (48 + n) ∷ [] else rest ++ (48 + n % 10) ∷ []

unfoldable pub decimal : ℕ → Bytes
unfolding digits
decimal n = digits (suc n) n

abbrev negate : ℕ → ℤ
negate zero = pos 0
negate (suc n) = negsuc n

-- `int(s)` for a stripped text: digits behind at most one sign, or a ValueError.
unfoldable pub signed : Bytes → Option ℤ
signed [] = none
signed (c ∷ s) =
    if c == 45
    then (if isdigit s then some (negate (int s)) else none)
    else if c == 43
    then (if isdigit s then some (pos (int s)) else none)
    else if isdigit (c ∷ s)
    then some (pos (int (c ∷ s)))
    else none

-- `split(sep)`
abbrev pub cons_first : ℕ → List Bytes → List Bytes
cons_first c [] = (c ∷ []) ∷ []
cons_first c (w ∷ ws) = (c ∷ w) ∷ ws

unfoldable pub split_all : ℕ → Bytes → List Bytes
split_all sep [] = [] ∷ []
split_all sep (c ∷ s) =
    let rest = split_all sep s in if c == sep then [] ∷ rest else cons_first c rest

-- `sep.join(texts)`
unfoldable pub join_with : ℕ → List Bytes → Bytes
join_with sep [] = []
join_with sep (w ∷ ws) = elim ws [ [] ↦ w | v ∷ vs ↦ w ++ sep ∷ join_with sep ws ]
