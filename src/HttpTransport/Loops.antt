-- ===== src/HttpTransport/Loops.antt =====
-- extension/http_transport.py: the loop of the blocking client's `read`, over pieces that a parser
-- turns into a finished message.
use summerrpc.Prelude.{
  ◌≡◌, refl, sym, ap, subst, ◌∙◌, Bool, true, false, List, [], ◌∷◌, ◌++◌, append-nil, append_assoc,
  Bool-cases, inl, inr,
}
use summerrpc.Text.{Bytes}
use summerrpc.HttpTransport.Parser.{Parser, feed, is_finished, Auto, done, failed, auto_get}
use summerrpc.HttpTransport.Chunks.{auto_get-finished, auto_get_idem, resume, resume-auto_get, join}
use summerrpc.HttpTransport.Client.{Read, waiting, message_of, received, read_loop}

append-nil_parts : (xs ys : Bytes) → xs ++ ys ≡ [] → (xs ≡ []) × (ys ≡ [])
append-nil_parts [] ys e = (refl, e)
append-nil_parts (x ∷ xs) ys e = cc

-- A loop over the pieces of a text that a parser turns into a finished one.
module _ (fin : Parser) where
  -- The loop ends as that parser does, and no byte is left in the pieces that it does not receive.
  abbrev pub Reads : Read → Type 0
  Reads r = (more : List Bytes) × (r ≡ message_of fin more) × (join more ≡ [])

  loop-finished :
      (q : Parser) (pieces : List Bytes)
      → is_finished q ≡ true
      → read_loop q pieces ≡ message_of q pieces
  unfolding read_loop
  loop-finished q [] f =
      ap (λ (d : Bool). elim d as (λ _. Read) [ true ↦ message_of q [] | false ↦ waiting ]) f
  loop-finished q (piece ∷ pieces) f =
      ap
        (λ (d : Bool). elim d as (λ _. Read) [
          | true ↦ message_of q (piece ∷ pieces)
          | false ↦ received (λ r. read_loop r pieces) (auto_get (feed piece q))
        ])
        f

  read_finished :
      (q : Parser) (pieces : List Bytes)
      → fin.buffer ≡ []
      → is_finished q ≡ true
      → feed (join pieces) q ≡ fin
      → Reads (read_loop q pieces)
  unfolding message_of
  read_finished q pieces b f e =
      let nothing = append-nil_parts q.buffer (join pieces) (ap (λ (x : Parser). x.buffer) e ∙ b) in
      (pieces, loop-finished q pieces f ∙ ap (λ x. message_of x pieces) e, nothing.1)

  pub read_loop-Reads :
      (p : Parser) (pieces : List Bytes)
      → fin.buffer ≡ []
      → is_finished fin ≡ true
      → auto_get p ≡ done p
      → auto_get (feed (join pieces) p) ≡ done fin
      → Reads (read_loop p pieces)
  unfolding read_loop
  read_loop-Reads p [] b f i e =
      let z : auto_get p ≡ done fin =
        ap (λ x. auto_get (record p { buffer = x })) (sym (append-nil p.buffer)) ∙ e in
      let same_end : p ≡ fin = cc in
      (
        [],
        loop-finished p [] (ap is_finished same_end ∙ f) ∙ ap (λ x. message_of x []) same_end,
        refl,
      )
  read_loop-Reads p (piece ∷ pieces) b f i e = elim (Bool-cases (is_finished p)) [
    | inl t ↦
        let z : done (feed (piece ++ join pieces) p) ≡ done fin =
          sym (auto_get-finished (feed (piece ++ join pieces) p) t) ∙ e in
        read_finished p (piece ∷ pieces) b t (cc)
    | inr u ↦
        let z : resume (join pieces) (auto_get (feed piece p)) ≡ done fin =
          resume-auto_get (join pieces) (feed piece p)
          ∙ ap (λ x. auto_get (record p { buffer = x })) (append_assoc p.buffer piece (join pieces))
          ∙ e in
        subst Reads
          (sym (
            ap
              (λ (d : Bool). elim d as (λ _. Read) [
                | true ↦ message_of p (piece ∷ pieces)
                | false ↦ received (λ r. read_loop r pieces) (auto_get (feed piece p))
              ])
              u))
          (on (λ q. read_loop-Reads q pieces b f) (auto_get (feed piece p)) refl z)
  ]
    where
      on :
          ((q : Parser)
            → auto_get q ≡ done q
            → auto_get (feed (join pieces) q) ≡ done fin
            → Reads (read_loop q pieces))
          → (a : Auto) → auto_get (feed piece p) ≡ a
          → resume (join pieces) a ≡ done fin
          → Reads (received (λ r. read_loop r pieces) a)
      on ih (done q) k z = ih q (auto_get_idem (feed piece p) q k) z
      on ih (failed c) k z = absurd (cc)
      on ih Auto.out_of_fuel k z = absurd (cc)
