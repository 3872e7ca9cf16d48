-- ===== src/HttpTransport/Packets.antt =====
-- extension/http_transport.py: the lines of a packet, as they are cut off and read.
use summerrpc.Prelude.{
  ℕ, ◌≡◌, ◌≢◌, sym, ap, ◌∙◌, some, [], ◌∷◌, ◌++◌, arith, append_assoc, append-All,
}
use summerrpc.Text.{Bytes, codes, cr, crlf, cut_line, chop_crlf, strip, decimal}
use summerrpc.Text.Laws.{
  Lacks, Solid, cut_line-append, split_once-append, chop_crlf-append, strip-space, strip-Solid,
}
use summerrpc.Text.Decimal.{Digits, decimal-Digits}
use summerrpc.HttpTransport.{number_header, parse_header}

pub Digits-Lacks : (s : Bytes) → Digits s → Lacks cr s
Digits-Lacks [] h = tt
Digits-Lacks (c ∷ s) h = (let a = h.0 in (λ e. omega (arith, a, e)), Digits-Lacks s h.1)

pub Digits-Solid : (s : Bytes) → Digits s → Solid s
Digits-Solid [] h = tt
Digits-Solid (c ∷ s) h = (let a = h.0 in ground (arith, a), Digits-Solid s h.1)

-- A name that can stand in front of a colon.
pub record IsName (name : Bytes) : Type 0 where
  pub one_line : Lacks cr name
  pub no_colon : Lacks 58 name
  pub solid : Solid name

module _ (name : Bytes) (n : ℕ) where
  -- The header without its end.
  abbrev text : Bytes
  text = name ++ (codes ": " ++ decimal n)

  number_header-crlf : number_header name n ≡ text ++ crlf
  number_header-crlf = sym (append_assoc name (codes ": " ++ decimal n) crlf)

  pub cut_line-number_header :
      (t : Bytes)
      → IsName name
      → cut_line (number_header name n ++ t) ≡ some (number_header name n, t)
  cut_line-number_header t h =
      let colon : Lacks cr (codes ": ") = (omega arith, (omega arith, tt)) in
      let lacks =
        append-All (λ d. d ≢ cr) name (codes ": " ++ decimal n) h.one_line
          (append-All (λ d. d ≢ cr) (codes ": ") (decimal n) colon
            (Digits-Lacks (decimal n) (decimal-Digits n))) in
      ap (λ l. cut_line (l ++ t)) number_header-crlf
      ∙ ap cut_line (append_assoc text crlf t)
      ∙ cut_line-append text t lacks
      ∙ ap (λ l. some (l, t)) (sym number_header-crlf)

  pub parse_header-number_header :
      IsName name → parse_header (number_header name n) ≡ some (name, decimal n)
  unfolding parse_header
  parse_header-number_header h =
      let chop = ap chop_crlf number_header-crlf ∙ chop_crlf-append text in
      let cut = split_once-append 58 name (32 ∷ decimal n) h.no_colon in
      let a = strip-Solid name h.solid in
      let b = strip-space (decimal n) (Digits-Solid (decimal n) (decimal-Digits n)) in
      rw (parse_header, chop, cut)
        (ap (λ x. some x) (ap (λ x. (x, strip (32 ∷ decimal n))) a ∙ ap (λ x. (name, x)) b))
