-- ===== src/HttpTransport/Chunks.antt =====
-- extension/http_transport.py: a parser that is fed piece by piece against one that is fed at once.
use summerrpc.Prelude.{
  ℕ, zero, suc, ◌-◌, ◌≤◌, ◌<◌, ◌≡◌, refl, sym, ap, subst, ◌∙◌, Bool, true, false, List, [], ◌∷◌,
  ◌++◌, arith, ◌⊎◌, append_assoc, append-nil, Bool-cases, inl, inr,
}
use summerrpc.Text.{Bytes}
use summerrpc.HttpTransport.Parser.{
  Stage, parse_headers, parse_content, finished, Parser, feed, Got, uncomplete, went, raised,
  get_at, get, is_finished, is_finished_at, Auto, done, failed, out_of_fuel, after, auto_loop,
  turns, weight, auto_get,
}
use summerrpc.HttpTransport.Steps.{Follows, Shrinks, get-Shrinks, get-Follows}

after-cong :
    (n : ℕ) (p : Parser) (k k' : Parser → Auto) (g : Got)
    → Shrinks n g
    → ((q : Parser) → turns q < n → k q ≡ k' q)
    → after p k g ≡ after p k' g
after-cong n p k k' uncomplete s h = refl
after-cong n p k k' (raised e) s h = refl
after-cong n p k k' (went q) s h = go (is_finished q) refl
  where
    go :
        (b : Bool)
        → is_finished q ≡ b
        → ◌≡◌ {A = Auto}
            (elim b [ true ↦ done q | false ↦ k q ])
            (elim b [ true ↦ done q | false ↦ k' q ])
    go true e = refl
    go false e = h q (s e)

one-le-weight : (st : Stage) → 1 ≤ weight st
one-le-weight Stage.parse_response_line = omega arith
one-le-weight parse_headers = omega arith
one-le-weight parse_content = omega arith
one-le-weight finished = omega arith

auto_loop-enough :
    (f g : ℕ) (p : Parser) → turns p ≤ f → turns p ≤ g → auto_loop f p ≡ auto_loop g p
unfolding auto_loop
auto_loop-enough zero g p h k = let w = one-le-weight p.stage in absurd (omega (arith, h, w))
auto_loop-enough (suc f) zero p h k = let w = one-le-weight p.stage in absurd (omega (arith, k, w))
auto_loop-enough (suc f) (suc g) p h k =
    after-cong (turns p) p (auto_loop f) (auto_loop g) (get p) (get-Shrinks p)
      λ q l. auto_loop-enough f g q (omega (arith, h, l)) (omega (arith, k, l))

-- The loop, without its fuel.
pub auto_get-after : (p : Parser) → auto_get p ≡ after p auto_get (get p)
unfolding auto_get
auto_get-after p =
    let w = one-le-weight p.stage in
    let n = turns p - 1 in
    let e : turns p ≡ suc n = omega (arith, w) in
    ap (λ f. auto_loop f p) e ∙ turn n p (omega (arith, e))
  where
    turn : (n : ℕ) (p : Parser) → turns p ≤ suc n → auto_loop (suc n) p ≡ after p auto_get (get p)
    turn n p h =
        after-cong (turns p) p (auto_loop n) auto_get (get p) (get-Shrinks p)
          λ q l. auto_loop-enough n (turns q) q (omega (arith, h, l)) (omega arith)

-- What more bytes make of the end of `auto_get`.
abbrev pub resume : Bytes → Auto → Auto
resume b (done p) = auto_get (feed b p)
resume b (failed e) = failed e
resume b out_of_fuel = out_of_fuel

get_at-finished : (st : Stage) (p : Parser) → is_finished_at st ≡ true → get_at st p ≡ went p
unfolding get_at
get_at-finished Stage.parse_response_line p e = absurd (cc)
get_at-finished parse_headers p e = absurd (cc)
get_at-finished parse_content p e = absurd (cc)
get_at-finished finished p e = refl

-- A finished parser stays as it is.
pub auto_get-finished : (p : Parser) → is_finished p ≡ true → auto_get p ≡ done p
unfolding get
auto_get-finished p e =
    auto_get-after p
    ∙ ap (after p auto_get) (get_at-finished p.stage p e)
    ∙ ap (λ (b : Bool). elim b as (λ _. Auto) [ true ↦ done p | false ↦ auto_get p ]) e

auto_get-feed :
    (n : ℕ) (b : Bytes) (p : Parser) → turns p ≤ n → resume b (auto_get p) ≡ auto_get (feed b p)
auto_get-feed zero b p h = let w = one-le-weight p.stage in absurd (omega (arith, h, w))
auto_get-feed (suc n) b p h = elim (Bool-cases (is_finished p)) [
  | inl e ↦ ap (resume b) (auto_get-finished p e)
  | inr u ↦
      ap (resume b) (auto_get-after p)
      ∙ follow (λ q l. auto_get-feed n b q (omega (arith, h, l))) (get p) (get-Shrinks p)
          (get-Follows b p u)
      ∙ sym (auto_get-after (feed b p))
]
  where
    follow :
        ((q : Parser) → turns q < turns p → resume b (auto_get q) ≡ auto_get (feed b q))
        → (g : Got) → Shrinks (turns p) g
        → Follows b g (get (feed b p))
        → resume b (after p auto_get g) ≡ after (feed b p) auto_get (get (feed b p))
    follow ih uncomplete s f = auto_get-after (feed b p)
    follow ih (raised e) s f = ap (after (feed b p) auto_get) (sym f)
    follow ih (went q) s f = on (is_finished q) refl ∙ ap (after (feed b p) auto_get) (sym f)
      where
        on :
            (d : Bool)
            → is_finished q ≡ d
            → resume b (elim d [ true ↦ done q | false ↦ auto_get q ])
              ≡ elim d [ true ↦ done (feed b q) | false ↦ auto_get (feed b q) ]
        on true e = auto_get-finished (feed b q) e
        on false e = ih q (s e)

pub resume-auto_get : (b : Bytes) (p : Parser) → resume b (auto_get p) ≡ auto_get (feed b p)
resume-auto_get b p = auto_get-feed (turns p) b p (omega arith)

-- The pieces one after the other.
abbrev pub resume_all : List Bytes → Auto → Auto
resume_all [] r = r
resume_all (b ∷ bs) r = resume_all bs (resume b r)

abbrev pub join : List Bytes → Bytes
join [] = []
join (b ∷ bs) = b ++ join bs

-- However a response is cut into pieces, feeding them one after the other, each with `auto_get`,
-- leads to the same parser or the same error as feeding them together.
pub resume_all-join :
    (bs : List Bytes) (p : Parser) → resume_all bs (auto_get p) ≡ auto_get (feed (join bs) p)
resume_all-join [] p = ap (λ x. auto_get (record p { buffer = x })) (sym (append-nil p.buffer))
resume_all-join (b ∷ bs) p =
    ap (resume_all bs) (resume-auto_get b p)
    ∙ resume_all-join bs (feed b p)
    ∙ ap (λ x. auto_get (record p { buffer = x })) (append_assoc p.buffer b (join bs))

-- An end of `auto_get`: a finished message, a parser that needs more bytes, or an error.
abbrev pub Ends : Auto → Type 0
Ends (done q) = (is_finished q ≡ true) ⊎ (get q ≡ uncomplete)
Ends (failed e) = Unit
Ends out_of_fuel = ⊥

Ends-turns : (n : ℕ) (p : Parser) → turns p ≤ n → Ends (auto_get p)
Ends-turns zero p h = let w = one-le-weight p.stage in absurd (omega (arith, h, w))
Ends-turns (suc n) p h =
    subst Ends (sym (auto_get-after p))
      (on (λ q l. Ends-turns n q (omega (arith, h, l))) (get p) refl (get-Shrinks p))
  where
    on :
        ((q : Parser) → turns q < turns p → Ends (auto_get q))
        → (g : Got) → get p ≡ g
        → Shrinks (turns p) g
        → Ends (after p auto_get g)
    on ih uncomplete e s = inr e
    on ih (raised c) e s = tt
    on ih (went q) e s = split (is_finished q) refl
      where
        split :
            (d : Bool) → is_finished q ≡ d → Ends (elim d [ true ↦ done q | false ↦ auto_get q ])
        split true k = inl k
        split false k = ih q (s k)

-- `auto_get` ends for every parser, on the fuel that it is given: with a finished message, with an
-- error, or with a parser that needs more bytes.
pub auto_get-Ends : (p : Parser) → Ends (auto_get p)
auto_get-Ends p = Ends-turns (turns p) p (omega arith)

-- A parser that `auto_get` leaves is left so again.
pub auto_get_idem : (p q : Parser) → auto_get p ≡ done q → auto_get q ≡ done q
auto_get_idem p q e = on (subst Ends e (auto_get-Ends p))
  where
    on : (is_finished q ≡ true) ⊎ (get q ≡ uncomplete) → auto_get q ≡ done q
    on (inl f) = auto_get-finished q f
    on (inr u) = auto_get-after q ∙ ap (after q auto_get) u
