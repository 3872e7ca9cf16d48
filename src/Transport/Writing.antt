-- ===== src/Transport/Writing.antt =====
-- transport.py: the bytes that `write_data` sends.
use summerrpc.Prelude.{
  ℕ, zero, suc, ◌+◌, ◌≡◌, refl, sym, ap, ◌∙◌, false, List, [], ◌∷◌, ◌++◌, arith, ltb, ◌==◌, length,
  take, drop, append_assoc, drop_all, take_all, Bool-cases, inl, inr, append-nil,
}
use summerrpc.Transport.{
  Bytes, Errno, Sent, taken, failed, Write, wrote, aborted, pending, write_loop, write_data,
}

-- What went out, however the write ended.
abbrev pub out : Write → Bytes
out (wrote bs) = bs
out (aborted bs c) = bs
out (pending bs) = bs

-- The bytes that went out are the first ones of the content, and all of them if it succeeded.
abbrev pub Prefix : Bytes → Write → Type 0
Prefix content (wrote bs) = bs ≡ content
Prefix content (aborted bs c) = (later : Bytes) × (bs ++ later ≡ content)
Prefix content (pending bs) = (later : Bytes) × (bs ++ later ≡ content)

-- What a `send` takes, and what is left after it.
cut :
    (sent n : ℕ) (xs : Bytes)
    → take n (drop sent xs) ++ drop (sent + length (take n (drop sent xs))) xs ≡ drop sent xs
cut zero n xs = ap (λ (k : ℕ). take n xs ++ drop k xs) (omega (arith)) ∙ front n xs
  where
    front : (k : ℕ) (ys : Bytes) → take k ys ++ drop (length (take k ys)) ys ≡ ys
    front zero ys = refl
    front (suc k) [] = refl
    front (suc k) (y ∷ ys) = ap (◌∷◌ y) (front k ys)
cut (suc sent) n [] =
    let t : take {A = ℕ} n [] ≡ [] = take_all n [] (omega arith) in
    let d = drop_all {A = ℕ} (suc sent + length (take {A = ℕ} n [])) [] (omega arith) in rw (d, t)
cut (suc sent) n (x ∷ xs) =
    let part = take n (drop sent xs) in
    let e : suc sent + length part ≡ suc (sent + length part) = omega arith in
    ap (λ (k : ℕ). part ++ drop k (x ∷ xs)) e ∙ cut sent n xs

module _ (nums : Errno) (content : Bytes) where
  all_out :
      (out : Bytes) (sent : ℕ)
      → out ++ drop sent content ≡ content
      → ltb sent (length content) ≡ false
      → out ≡ content
  all_out out sent e full =
      sym (append-nil out) ∙ ap (◌++◌ out) (sym (drop_all sent content (ground arith))) ∙ e

  write_loop-Prefix :
      (out : Bytes) (sent : ℕ) (es : List Sent)
      → out ++ drop sent content ≡ content
      → Prefix content (write_loop nums content out sent es)
  unfolding write_loop
  write_loop-Prefix out sent [] e = elim (Bool-cases (ltb sent (length content))) [
    | inl more ↦ rw more (drop sent content, e)
    | inr full ↦ rw full (all_out out sent e full)
  ]
  write_loop-Prefix out sent (failed n ∷ es) e = elim (Bool-cases (ltb sent (length content))) [
    | inr full ↦ rw full (all_out out sent e full)
    | inl more ↦ elim (Bool-cases (n == nums.eintr)) [
      | inl again ↦ rw (more, again) (write_loop-Prefix out sent es e)
      | inr broken ↦ rw (more, broken) (drop sent content, e)
    ]
  ]
  write_loop-Prefix out sent (taken n ∷ es) e = elim (Bool-cases (ltb sent (length content))) [
    | inr full ↦ rw full (all_out out sent e full)
    | inl more ↦
        let part = take n (drop sent content) in
        let rest =
          append_assoc out part (drop (sent + length part) content)
          ∙ ap (◌++◌ out) (cut sent n content)
          ∙ e in
        rw more (write_loop-Prefix (out ++ part) (sent + length part) es rest)
  ]

  -- However the sends are cut up and interrupted, the bytes that went out are a prefix of the
  -- content, and the whole content when the write returns.
  pub write_data-Prefix : (es : List Sent) → Prefix content (write_data nums content es)
  unfolding write_data
  write_data-Prefix es = write_loop-Prefix [] 0 es refl
