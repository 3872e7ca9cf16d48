-- ===== src/Transport/Streams.antt =====
-- transport.py: `RecordTransport`, the server's end of the record protocol, over a stream of tornado.
use summerrpc.Prelude.{
  ℕ, ◌≡◌, refl, sym, ap, subst, ◌∙◌, Option, none, some, ◌++◌, length, append_assoc,
}
use summerrpc.Transport.{Bytes, head_length, transaction_id_length, unpack_u32, generate_packet}
use summerrpc.Transport.Bytes.{packed, unpack_u32-packed, length-packed}
use summerrpc.Transport.RoundTrip.{generate_packet-packed, generate_packet-bounds}
use summerrpc.HttpTransport.Server.{Stream, Answer, delivered, refused, Raised}
use summerrpc.HttpTransport.Requests.{Buffered}

-- How a read ends: the identifier, the body and the stream; an error of the stream; or the error of
-- `struct.unpack`.
pub data Read (S : Type 0) : Type 0 where
  got : ℕ → Bytes → S → Read S
  raised : Raised → Read S
  struct_error : Read S

-- `RecordTransport.write`: the bytes that `stream.write` is given; `none` is a struct.error.
unfoldable pub write : ℕ → Bytes → Option Bytes
write transaction_id buff = generate_packet transaction_id buff

module _ {S : Type 0} where
  -- `yield stream.read_bytes(n)`, then the rest.
  abbrev pub awaited : Answer S → (Bytes → S → Read S) → Read S
  awaited (delivered buff s) k = k buff s
  awaited (refused e) k = raised e

  abbrev pub unpacked : Option ℕ → (ℕ → Read S) → Read S
  unpacked none k = struct_error
  unpacked (some n) k = k n

  -- `RecordTransport.read`
  unfoldable pub read : Stream S → S → Read S
  read stream s0 = awaited (stream.read_bytes head_length s0) λ head s1.
      unpacked (unpack_u32 head) λ body_length.
        awaited (stream.read_bytes transaction_id_length s1) λ tid s2.
          unpacked (unpack_u32 tid) λ transaction_id.
            awaited (stream.read_bytes body_length s2) λ body s3. got transaction_id body s3

  -- Bytes that are there, read by a length that is theirs.
  read_front :
      (stream : Stream S) (b : Buffered S stream) (n : ℕ) (s : S) (front rest : Bytes)
      → length front ≡ n
      → b.pending s ≡ front ++ rest
      → (s1 : S) × (stream.read_bytes n s ≡ delivered front s1) × (b.pending s1 ≡ rest)
  read_front stream b n s front rest e h =
      subst (λ k. (s1 : S) × (stream.read_bytes k s ≡ delivered front s1) × (b.pending s1 ≡ rest)) e
        (b.exactly s front rest h)

  -- When a packet was made and the stream has received it, followed by other bytes, the server reads
  -- its identifier and body, and exactly the other bytes are left.
  pub read-packet :
      (stream : Stream S) (b : Buffered S stream) (tid : ℕ) (body packet more : Bytes) (s : S)
      → generate_packet tid body ≡ some packet
      → b.pending s ≡ packet ++ more
      → (s3 : S) × (read stream s ≡ got tid body s3) × (b.pending s3 ≡ more)
  unfolding read
  read-packet stream b tid body packet more s made e =
      let (h, k) = generate_packet-bounds tid body packet made in
      let p : packed (length body) ++ (packed tid ++ body) ≡ packet =
        cc (generate_packet-packed tid body h k, made) in
      let q =
        e
        ∙ ap (λ z. z ++ more) (sym p)
        ∙ append_assoc (packed (length body)) (packed tid ++ body) more
        ∙ ap (◌++◌ (packed (length body))) (append_assoc (packed tid) body more) in
      let (s1, run1, left1) =
        read_front stream b 4 s (packed (length body)) _ (length-packed (length body)) q in
      let (s2, run2, left2) = read_front stream b 4 s1 (packed tid) _ (length-packed tid) left1 in
      let (s3, run3, left3) = read_front stream b (length body) s2 body more refl left2 in
      (
        s3,
        rw (run1, unpack_u32-packed (length body) k, run2, unpack_u32-packed tid h, run3) refl,
        left3,
      )
