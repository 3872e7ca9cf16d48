-- ===== src/HttpTransport/Steps.antt =====
-- extension/http_transport.py: one step of `HTTPResponseParser` when more bytes follow, and the
-- turns that it leaves.
use summerrpc.Prelude.{
  ℕ, ◌+◌, ◌≤◌, ◌<◌, ◌≡◌, refl, sym, ap, subst, false, Option, none, some, ◌++◌, arith, ltb, not,
  length, length-append, take-append_le, drop-append_le, Bool-cases, Option-cases, inl, inr,
  if_split, if_cases, option_cases,
}
use summerrpc.Exceptions.{invalid_packet_error}
use summerrpc.Text.{Bytes, crlf, same, isdigit, cut_line}
use summerrpc.Text.Laws.{cut_line-more, length-cut_line}
use summerrpc.HttpTransport.{get_header, content_length_name, parse_header}
use summerrpc.HttpTransport
use summerrpc.HttpTransport.Parser.{
  Stage, parse_headers, parse_content, finished, Parser, feed, Got, uncomplete, went, raised,
  take_header, take_response_line, with_line, get_at, get, is_finished, is_finished_at, turns,
  weight,
}

-- What a step of a parser is once more bytes are in its buffer.
abbrev pub Follows : Bytes → Got → Got → Type 0
Follows b uncomplete r = Unit
Follows b (went q) r = r ≡ went (feed b q)
Follows b (raised e) r = r ≡ raised e

take_header-Follows :
    (b line rest : Bytes) (p : Parser)
    → Follows b (take_header line rest p) (take_header line (rest ++ b) (feed b p))
unfolding take_header
take_header-Follows b line rest p = elim (Bool-cases (same line crlf)) [
  | inl e ↦ elim (Option-cases (get_header content_length_name p.headers)) [
    | inl n ↦ rw (e, n) refl
    | inr (text, s) ↦ elim (Bool-cases (isdigit text)) [
      | inl d ↦ rw (e, s, d) refl
      | inr d ↦ rw (e, s, d) refl
    ]
  ]
  | inr e ↦ elim (Option-cases (parse_header line)) [
    | inl n ↦ rw (e, n) refl
    | inr (h, s) ↦ rw (e, s) refl
  ]
]

take_response_line-Follows :
    (b line rest : Bytes) (p : Parser)
    → Follows b (take_response_line line rest p) (take_response_line line (rest ++ b) (feed b p))
unfolding take_response_line
take_response_line-Follows b line rest p = go (HttpTransport.parse_response_line line)
  where
    go :
        (o : Option HttpTransport.ResponseLine)
        → Follows b
            (elim o [
              | none ↦ raised invalid_packet_error
              | some l ↦ went (record p { buffer = rest; line = some l; stage = parse_headers })
            ])
            (elim o [
              | none ↦ raised invalid_packet_error
              | some l ↦
                  went (record p { buffer = rest ++ b; line = some l; stage = parse_headers })
            ])
    go none = refl
    go (some l) = refl

with_line-Follows :
    (b : Bytes) (f g : Bytes → Bytes → Got) (s : Bytes)
    → ((line rest : Bytes) → Follows b (f line rest) (g line (rest ++ b)))
    → Follows b (with_line f (cut_line s)) (with_line g (cut_line (s ++ b)))
with_line-Follows b f g s h = go (cut_line s) refl
  where
    go :
        (o : Option (Bytes × Bytes))
        → cut_line s ≡ o
        → Follows b (with_line f o) (with_line g (cut_line (s ++ b)))
    go none e = tt
    go (some (line, rest)) e =
        subst (λ o. Follows b (f line rest) (with_line g o)) (sym (cut_line-more s b line rest e))
          (h line rest)

get_at-Follows :
    (b : Bytes) (st : Stage) (p : Parser)
    → is_finished_at st ≡ false
    → Follows b (get_at st p) (get_at st (feed b p))
unfolding get_at
get_at-Follows b Stage.parse_response_line p u =
    with_line-Follows b (λ line rest. take_response_line line rest p)
      (λ line rest. take_response_line line rest (feed b p)) p.buffer
      (λ line rest. take_response_line-Follows b line rest p)
get_at-Follows b parse_headers p u =
    with_line-Follows b (λ line rest. take_header line rest p)
      (λ line rest. take_header line rest (feed b p)) p.buffer
      (λ line rest. take_header-Follows b line rest p)
get_at-Follows b parse_content p u =
    let l = length-append p.buffer b in
    if_split (λ r. Follows b r (get_at parse_content (feed b p)))
      (ltb (length p.buffer) p.content_length) (λ short. tt)
      (λ enough.
        let le : p.content_length ≤ length p.buffer = ground (arith, enough) in
        let e : ltb (length (p.buffer ++ b)) p.content_length ≡ false = ground (arith, l, le) in
        rw
          (
            e,
            take-append_le p.content_length p.buffer b le,
            drop-append_le p.content_length p.buffer b le,
          )
          refl)
get_at-Follows b finished p u = absurd (cc)

-- A step to an unfinished parser leaves fewer turns.
abbrev pub Shrinks : ℕ → Got → Type 0
Shrinks n (went q) = is_finished q ≡ false → turns q < n
Shrinks n _ = Unit

with_line-Shrinks :
    (n : ℕ) (f : Bytes → Bytes → Got) (s : Bytes)
    → ((line rest : Bytes) → length rest + 2 ≤ length s → Shrinks n (f line rest))
    → Shrinks n (with_line f (cut_line s))
with_line-Shrinks n f s h = go (cut_line s) refl
  where
    go : (o : Option (Bytes × Bytes)) → cut_line s ≡ o → Shrinks n (with_line f o)
    go none e = tt
    go (some (line, rest)) e = h line rest (length-cut_line s line rest e)

get_at-Shrinks :
    (st : Stage) (p : Parser) → p.stage ≡ st → Shrinks (length p.buffer + weight st) (get_at st p)
unfolding get_at take_header take_response_line
get_at-Shrinks Stage.parse_response_line p e =
    let n = length p.buffer + 4 in
    with_line-Shrinks n (λ line rest. take_response_line line rest p) p.buffer
      λ line rest l.
        option_cases (Shrinks n) (HttpTransport.parse_response_line line) tt
          (λ r u. omega (arith, l))
get_at-Shrinks parse_headers p e =
    let n = length p.buffer + 3 in
    let w : weight p.stage ≡ 3 = ap weight e in
    with_line-Shrinks n (λ line rest. take_header line rest p) p.buffer
      λ line rest l.
        if_cases (Shrinks n) (same line crlf)
          (option_cases (Shrinks n) (get_header content_length_name p.headers) (λ u. cc)
            λ text. if_cases (Shrinks n) (not (isdigit text)) tt (λ u. omega (arith, l)))
          (option_cases (Shrinks n) (parse_header line) tt (λ h u. omega (arith, l, w)))
get_at-Shrinks parse_content p e =
    if_cases (Shrinks (length p.buffer + 2)) (ltb (length p.buffer) p.content_length) tt (λ u. cc)
get_at-Shrinks finished p e = λ u. let w = ap is_finished_at e in absurd (cc)

pub get-Shrinks : (p : Parser) → Shrinks (turns p) (get p)
unfolding get
get-Shrinks p = get_at-Shrinks p.stage p refl

pub get-Follows :
    (b : Bytes) (p : Parser) → is_finished p ≡ false → Follows b (get p) (get (feed b p))
unfolding get
get-Follows b p u = get_at-Follows b p.stage p u
