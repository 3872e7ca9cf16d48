-- ===== src/Transport/RoundTrip.antt =====
-- A packet of the record protocol, read back from a blocking socket.
use summerrpc.Prelude.{
  ℕ, ◌<◌, ◌^◌, ◌≡◌, refl, sym, ap, ◌∙◌, Bool, some, List, ◌++◌, arith, length, take, drop,
  length-append, take-append, drop-append, append_assoc, ltb, ltb→lt, Bool-cases, inl, inr,
}
use summerrpc.Transport.{Bytes, Event, Errno, got, read_bytes, generate_packet, read, pack_u32}
use summerrpc.Transport.Bytes.{packed, pack_u32-packed, unpack_u32-packed, length-packed}
use summerrpc.Transport.Reading.{payload, Calm, read_bytes-payload}

pub generate_packet-packed :
    (tid : ℕ) (body : Bytes)
    → tid < 2 ^ 32
    → length body < 2 ^ 32
    → generate_packet tid body ≡ some (packed (length body) ++ (packed tid ++ body))
unfolding generate_packet
generate_packet-packed tid body h k = rw (pack_u32-packed (length body) k, pack_u32-packed tid h)

-- A packet is made only of an identifier and a length that fit in 32 bits.
pub generate_packet-bounds :
    (tid : ℕ) (body packet : Bytes)
    → generate_packet tid body ≡ some packet
    → (tid < 2 ^ 32) × (length body < 2 ^ 32)
unfolding generate_packet pack_u32
generate_packet-bounds tid body packet e = elim (Bool-cases (ltb (length body) (2 ^ 32))) [
  | inr big ↦ absurd (ground arith)
  | inl small ↦ elim (Bool-cases (ltb tid (2 ^ 32))) [
    | inr big ↦ absurd (ground arith)
    | inl fits ↦ (ltb→lt tid _ fits, ltb→lt (length body) _ small)
  ]
]

-- The first `n` bytes of a concatenation whose first part has `n`.
front :
    (n : ℕ) (xs ys : Bytes) → length xs ≡ n → (take n (xs ++ ys) ≡ xs) × (drop n (xs ++ ys) ≡ ys)
front n xs ys e = (
  ap (λ (k : ℕ). take k (xs ++ ys)) (sym e) ∙ take-append xs ys,
  ap (λ (k : ℕ). drop k (xs ++ ys)) (sym e) ∙ drop-append xs ys,
)

module _ (nums : Errno) (ig : Bool) where
  -- One read of a prefix of what the socket delivers.
  read_prefix :
      (xs ys : Bytes) (n : ℕ) (es : List Event)
      → length xs ≡ n
      → Calm nums ig es
      → payload nums es ≡ xs ++ ys
      → (rest : List Event) × (read_bytes nums ig n es ≡ got xs rest)
        × Calm nums ig rest
        × (payload nums rest ≡ ys)
  read_prefix xs ys n es len calm e =
      let (rest, run, quiet, left) =
        read_bytes-payload nums ig n es calm (omega (arith, ap length e, length-append xs ys)) in
      let (t, d) = front n xs ys len in
      (rest, run ∙ ap (λ z. got z rest) (ap (take n) e ∙ t), quiet, left ∙ ap (drop n) e ∙ d)

  -- When a packet was made and a calm socket delivers it, in whatever pieces, followed by other
  -- bytes, reading returns its identifier and body and leaves exactly the other bytes.
  pub read-generate_packet :
      (tid : ℕ) (body packet more : Bytes) (es : List Event)
      → generate_packet tid body ≡ some packet
      → Calm nums ig es
      → payload nums es ≡ packet ++ more
      → (rest : List Event) × (read nums ig es ≡ got (tid, body) rest)
        × Calm nums ig rest
        × (payload nums rest ≡ more)
  unfolding read
  read-generate_packet tid body packet more es made calm e =
      let (h, k) = generate_packet-bounds tid body packet made in
      let p : packed (length body) ++ (packed tid ++ body) ≡ packet =
        cc (generate_packet-packed tid body h k, made) in
      let q =
        e
        ∙ ap (λ z. z ++ more) (sym p)
        ∙ append_assoc (packed (length body)) (packed tid ++ body) more
        ∙ ap (◌++◌ (packed (length body))) (append_assoc (packed tid) body more) in
      let (es1, run1, calm1, left1) =
        read_prefix (packed (length body)) _ 4 es (length-packed (length body)) calm q in
      let (es2, run2, calm2, left2) =
        read_prefix (packed tid) _ 4 es1 (length-packed tid) calm1 left1 in
      let (es3, run3, calm3, left3) = read_prefix body more (length body) es2 refl calm2 left2 in
      (
        es3,
        rw (run1, unpack_u32-packed (length body) k, run2, unpack_u32-packed tid h, run3),
        calm3,
        left3,
      )
