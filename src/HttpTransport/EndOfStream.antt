-- ===== src/HttpTransport/EndOfStream.antt =====
-- extension/http_transport.py: `SimpleBlockingHTTPTransport.read` when the stream ends early, which
-- `recv` reports by an empty piece, each time that it is called.
use summerrpc.Prelude.{
  ℕ, zero, suc, ◌≡◌, refl, sym, ap, ◌∙◌, Bool, true, false, List, [], ◌∷◌, ◌++◌, append-nil,
  append_assoc, Bool-cases, inl, inr,
}
use summerrpc.Text.{Bytes}
use summerrpc.HttpTransport.Parser.{
  Parser, new_parser, feed, is_finished, Auto, done, failed, out_of_fuel, auto_get,
}
use summerrpc.HttpTransport.Chunks.{auto_get-finished, auto_get_idem, resume, resume-auto_get, join}
use summerrpc.HttpTransport.Client.{Read, waiting, message_of, received, read_loop, read}
use summerrpc.HttpTransport.RoundTrip.{auto_get-new_parser}

-- `n` times the end of the stream.
abbrev pub ends : ℕ → List Bytes
ends zero = []
ends (suc n) = [] ∷ ends n

-- One turn of the loop, for a parser that is not finished.
loop-unfinished :
    (p : Parser) (piece : Bytes) (pieces : List Bytes)
    → is_finished p ≡ false
    → read_loop p (piece ∷ pieces) ≡ received (λ q. read_loop q pieces) (auto_get (feed piece p))
unfolding read_loop
loop-unfinished p piece pieces u =
    ap
      (λ (d : Bool). elim d as (λ _. Read) [
        | true ↦ message_of p (piece ∷ pieces)
        | false ↦ received (λ q. read_loop q pieces) (auto_get (feed piece p))
      ])
      u

read_loop-ends :
    (p : Parser) (n : ℕ)
    → auto_get p ≡ done p
    → is_finished p ≡ false
    → read_loop p (ends n) ≡ waiting
unfolding read_loop
read_loop-ends p zero e u =
    ap (λ (d : Bool). elim d as (λ _. Read) [ true ↦ message_of p [] | false ↦ waiting ]) u
read_loop-ends p (suc n) e u =
    let same_parser : auto_get (feed [] p) ≡ done p =
      ap (λ b. auto_get (record p { buffer = b })) (append-nil p.buffer) ∙ e in
    loop-unfinished p [] (ends n) u
    ∙ ap (received (λ q. read_loop q (ends n))) same_parser
    ∙ read_loop-ends p n e u

module _ (q : Parser) (unfinished : is_finished q ≡ false) (n : ℕ) where
  -- A finished parser stays finished.
  not_yet : (p : Parser) (b : Bytes) → auto_get (feed b p) ≡ done q → is_finished p ≡ false
  not_yet p b e = elim (Bool-cases (is_finished p)) [
    | inr u ↦ u
    | inl f ↦
        let z : done (feed b p) ≡ done q = sym (auto_get-finished (feed b p) f) ∙ e in absurd (cc)
  ]

  loop_waits :
      (p : Parser) (pieces : List Bytes)
      → auto_get p ≡ done p
      → auto_get (feed (join pieces) p) ≡ done q
      → read_loop p (pieces ++ ends n) ≡ waiting
  loop_waits p [] e k = read_loop-ends p n e (not_yet p [] k)
  loop_waits p (piece ∷ pieces) e k =
      let z : resume (join pieces) (auto_get (feed piece p)) ≡ done q =
        resume-auto_get (join pieces) (feed piece p)
        ∙ ap (λ x. auto_get (record p { buffer = x })) (append_assoc p.buffer piece (join pieces))
        ∙ k in
      loop-unfinished p piece (pieces ++ ends n) (not_yet p (piece ++ join pieces) k)
      ∙ on (λ r. loop_waits r pieces) (auto_get (feed piece p)) refl z
    where
      on :
          ((r : Parser)
            → auto_get r ≡ done r
            → auto_get (feed (join pieces) r) ≡ done q
            → read_loop r (pieces ++ ends n) ≡ waiting)
          → (a : Auto) → auto_get (feed piece p) ≡ a
          → resume (join pieces) a ≡ done q
          → received (λ r. read_loop r (pieces ++ ends n)) a ≡ waiting
      on ih (done r) m z = ih r (auto_get_idem (feed piece p) r m) z
      on ih (failed c) m z = absurd (cc)
      on ih out_of_fuel m z = absurd (cc)

-- When the bytes that came are no whole message and the stream has ended, then reading still waits
-- after any number of further calls of `recv`.
pub read-ends :
    (pieces : List Bytes) (q : Parser) (n : ℕ)
    → auto_get (feed (join pieces) new_parser) ≡ done q
    → is_finished q ≡ false
    → read (pieces ++ ends n) ≡ waiting
unfolding read
read-ends pieces q n e u = loop_waits q u n new_parser pieces auto_get-new_parser e
