-- ===== src/Text/Laws.antt =====
-- Cutting and stripping texts.
use summerrpc.Prelude.{
  ℕ, ◌+◌, ◌≡◌, ◌≢◌, ◌≤◌, refl, ap, ◌∙◌, true, false, some, List, [], ◌∷◌, ◌++◌, arith, All, length,
  Option-cases, inl, inr,
}
use summerrpc.Text.{
  Bytes, cr, lf, crlf, is_space, same, lstrip, rstrip, strip, chop_crlf, split_once, cut_line,
  split_all, join_with,
}

pub same_refl : (s : Bytes) → same s s ≡ true
same_refl [] = refl
same_refl (c ∷ s) = ground (arith, same_refl s)

pub same-eq : (s t : Bytes) → same s t ≡ true → s ≡ t
same-eq [] [] e = refl
same-eq [] (d ∷ t) e = absurd (cc)
same-eq (c ∷ s) [] e = absurd (cc)
same-eq (c ∷ s) (d ∷ t) e =
    let first : c ≡ d = ground (arith, e) in
    let rest : same s t ≡ true = ground (arith, e) in
    ap (λ x. x ∷ s) first ∙ ap (λ x. d ∷ x) (same-eq s t rest)

pub chop_crlf-append : (s : Bytes) → chop_crlf (s ++ crlf) ≡ s
unfolding chop_crlf
chop_crlf-append [] = refl
chop_crlf-append (c ∷ []) = ground arith
chop_crlf-append (c ∷ d ∷ s) = let ih = chop_crlf-append (d ∷ s) in ground (arith, ih)

-- A text of which no byte is `c`.
abbrev pub Lacks : ℕ → Bytes → Type 0
Lacks c s = All (λ d. d ≢ c) s

pub split_once-append :
    (sep : ℕ) (s t : Bytes) → Lacks sep s → split_once sep (s ++ sep ∷ t) ≡ some (s, t)
unfolding split_once
split_once-append sep [] t h = ground arith
split_once-append sep (c ∷ s) t h =
    let ih = split_once-append sep s t h.1 in let ne = h.0 in ground (arith, ih, ne)

-- A line without "\r" is cut off at its end.
pub cut_line-append :
    (s t : Bytes) → Lacks cr s → cut_line (s ++ (cr ∷ lf ∷ t)) ≡ some (s ++ crlf, t)
unfolding cut_line
cut_line-append [] t h = refl
cut_line-append (c ∷ []) t h = let ne = h.0 in ground (arith, ne)
cut_line-append (c ∷ d ∷ s) t h =
    let ih = cut_line-append (d ∷ s) t h.1 in let ne = h.0 in ground (arith, ih, ne)

-- What follows the text does not change the line that is cut off.
pub cut_line-more :
    (s t line rest : Bytes)
    → cut_line s ≡ some (line, rest)
    → cut_line (s ++ t) ≡ some (line, rest ++ t)
unfolding cut_line
cut_line-more [] t line rest e = cc
cut_line-more (c ∷ []) t line rest e = cc
cut_line-more (c ∷ d ∷ s) t line rest e = elim (Option-cases (cut_line (d ∷ s))) [
  | inl n ↦ ground (arith, n, e)
  | inr ((l, r), q) ↦ let ih = cut_line-more (d ∷ s) t l r q in ground (arith, q, ih, e)
]

-- The line that is cut off takes at least two bytes.
pub length-cut_line :
    (s line rest : Bytes) → cut_line s ≡ some (line, rest) → length rest + 2 ≤ length s
unfolding cut_line
length-cut_line [] line rest e = cc
length-cut_line (c ∷ []) line rest e = cc
length-cut_line (c ∷ d ∷ s) line rest e = elim (Option-cases (cut_line (d ∷ s))) [
  | inl n ↦ ground (arith, n, e)
  | inr ((l, r), q) ↦ let ih = length-cut_line (d ∷ s) l r q in ground (arith, q, ih, e)
]

abbrev pub Solid : Bytes → Type 0
Solid s = All (λ c. is_space c ≡ false) s

pub rstrip-Solid : (s : Bytes) → Solid s → rstrip s ≡ s
rstrip-Solid [] h = refl
rstrip-Solid (c ∷ s) h = let a = h.0 in let ih = rstrip-Solid s h.1 in ground (arith, a, ih)

pub lstrip-Solid : (s : Bytes) → Solid s → lstrip s ≡ s
lstrip-Solid [] h = refl
lstrip-Solid (c ∷ s) h = let a = h.0 in ground (arith, a)

-- A space in front of a text without white space is stripped.
pub strip-space : (s : Bytes) → Solid s → strip (32 ∷ s) ≡ s
strip-space s h = ap rstrip (lstrip-Solid s h) ∙ rstrip-Solid s h

pub strip-Solid : (s : Bytes) → Solid s → strip s ≡ s
strip-Solid s h = ap rstrip (lstrip-Solid s h) ∙ rstrip-Solid s h

-- A text without the separator is one part.
split_all-Lacks : (sep : ℕ) (s : Bytes) → Lacks sep s → split_all sep s ≡ s ∷ []
unfolding split_all
split_all-Lacks sep [] h = refl
split_all-Lacks sep (c ∷ s) h =
    let ih = split_all-Lacks sep s h.1 in let ne = h.0 in ground (arith, ih, ne)

split_all-append :
    (sep : ℕ) (s t : Bytes) → Lacks sep s → split_all sep (s ++ sep ∷ t) ≡ s ∷ split_all sep t
unfolding split_all
split_all-append sep [] t h = ground arith
split_all-append sep (c ∷ s) t h =
    let ih = split_all-append sep s t h.1 in let ne = h.0 in ground (arith, ih, ne)

-- What is joined comes apart again.
pub split_all-join_with :
    (sep : ℕ) (w : Bytes) (ws : List Bytes)
    → Lacks sep w
    → All (Lacks sep) ws
    → split_all sep (join_with sep (w ∷ ws)) ≡ w ∷ ws
unfolding join_with
split_all-join_with sep w [] h g = split_all-Lacks sep w h
split_all-join_with sep w (v ∷ vs) h g =
    split_all-append sep w (join_with sep (v ∷ vs)) h
    ∙ ap (λ x. w ∷ x) (split_all-join_with sep v vs g.0 g.1)
