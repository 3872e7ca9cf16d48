-- ===== src/Transport/Bytes.antt =====
-- Four-byte numbers there and back.
use summerrpc.Prelude.{ℕ, ◌+◌, ◌*◌, ◌/◌, ◌%◌, ◌^◌, ◌<◌, ◌≡◌, refl, ap, some, [], ◌∷◌, arith, length}
use summerrpc.Transport.{Bytes, pack_u32, unpack_u32}

pub packed : ℕ → Bytes
packed n = n / 2 ^ 24 ∷ n / 2 ^ 16 % 256 ∷ n / 2 ^ 8 % 256 ∷ n % 256 ∷ []

pub pack_u32-packed : (n : ℕ) → n < 2 ^ 32 → pack_u32 n ≡ some (packed n)
unfolding pack_u32 packed
pack_u32-packed n h = ground arith

pub length-packed : (n : ℕ) → length (packed n) ≡ 4
unfolding packed
length-packed n = refl

pub unpack_u32-packed : (n : ℕ) → n < 2 ^ 32 → unpack_u32 (packed n) ≡ some n
unfolding unpack_u32 packed
unpack_u32-packed n h =
    let e : ((n / 2 ^ 24 * 256 + n / 2 ^ 16 % 256) * 256 + n / 2 ^ 8 % 256) * 256 + n % 256 ≡ n =
      omega arith in
    ap some e
