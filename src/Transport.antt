-- ===== src/Transport.antt =====
-- transport.py: the record protocol, and the loops over a blocking socket. A byte is a number
-- below 256. What the socket answers to `recv` and `send` is a list of events.
pub mod Bytes
pub mod Reading
pub mod Writing
pub mod RoundTrip
pub mod Streams
use summerrpc.Prelude.{
  ℕ, zero, suc, ◌+◌, ◌-◌, ◌*◌, ◌/◌, ◌%◌, ◌^◌, Bool, true, false, Option, none, some, List, [], ◌∷◌,
  ◌++◌, ltb, leb, ◌==◌, if◌then◌else◌, length, take, drop,
}
use summerrpc.Exceptions.{
  Class, socket_already_closed_error, socket_error, socket_timeout, struct_error,
}

abbrev pub Bytes : Type 0
Bytes = List ℕ

-- `struct.pack("!I", n)`: four bytes, the most significant first; too large a number is refused.
unfoldable pub pack_u32 : ℕ → Option Bytes
pack_u32 n =
    if ltb n (2 ^ 32)
    then some (n / 2 ^ 24 ∷ n / 2 ^ 16 % 256 ∷ n / 2 ^ 8 % 256 ∷ n % 256 ∷ [])
    else none

-- `struct.unpack("!I", b)[0]`
unfoldable pub unpack_u32 : Bytes → Option ℕ
unpack_u32 (a ∷ b ∷ c ∷ d ∷ []) = some (((a * 256 + b) * 256 + c) * 256 + d)
unpack_u32 _ = none

abbrev pub head_length : ℕ
head_length = 4

abbrev pub transaction_id_length : ℕ
transaction_id_length = 4

infixl 5 ◌>>=◌
abbrev ◌>>=◌ {ℓ κ} : {A : Type ℓ} {B : Type κ} → Option A → (A → Option B) → Option B
none >>= f = none
some a >>= f = f a

-- `BaseRecordTransport.generate_packet`; `none` is a struct.error.
unfoldable pub generate_packet : ℕ → Bytes → Option Bytes
generate_packet transaction_id body = do
  head ← pack_u32 (length body)
  tid ← pack_u32 transaction_id
  some (head ++ (tid ++ body))

-- What one `recv` meets: bytes (none of them is the end of the stream), a timeout, or an error
-- with its errno.
pub data Event : Type 0 where
  bytes : Bytes → Event
  timeout : Event
  error : ℕ → Event

-- The errno values are the platform's.
pub record Errno : Type 0 where
  pub eintr : ℕ
  pub ebadf : ℕ

-- How a read ends: a value and the events not yet met, an exception, or it still waits.
pub data Read (A : Type 0) : Type 0 where
  got : A → List Event → Read A
  raised : Class → Read A
  waiting : Read A

-- `buff[at: at + len(incoming)] = incoming`
abbrev pub splice : Bytes → ℕ → Bytes → Bytes
splice buff at incoming = take at buff ++ (incoming ++ drop (at + length incoming) buff)

module _ (nums : Errno) (ignore_timeout : Bool) (num : ℕ) where
  -- The `while` loop of `read_bytes`.
  unfoldable pub read_loop : Bytes → ℕ → List Event → Read Bytes
  read_loop buff current [] = if ltb current num then waiting else got buff []
  read_loop buff current (timeout ∷ es) =
      let rest = read_loop buff current es in
      if ltb current num
      then (if ignore_timeout then rest else raised socket_timeout)
      else got buff (timeout ∷ es)
  read_loop buff current (error n ∷ es) =
      let rest = read_loop buff current es in
      if ltb current num
      then (if n == nums.eintr
          then rest
          else if n == nums.ebadf
          then raised socket_already_closed_error
          else raised socket_error)
      else got buff (error n ∷ es)
  read_loop buff current (bytes incoming ∷ es) =
      let now = take (num - current) incoming in
      let later = drop (num - current) incoming in
      let rest = read_loop (splice buff current now) (current + length now) es in
      if ltb current num
      then elim incoming [
        | [] ↦ raised socket_already_closed_error
        | _ ∷ _ ↦ elim later [
          | [] ↦ rest
          | b ∷ bs ↦ got (splice buff current now) (bytes (b ∷ bs) ∷ es)
        ]
      ]
      else got buff (bytes incoming ∷ es)

abbrev pub zeros : ℕ → Bytes
zeros zero = []
zeros (suc n) = 0 ∷ zeros n

-- `BlockingSocketUtility.read_bytes`
unfoldable pub read_bytes : Errno → Bool → ℕ → List Event → Read Bytes
read_bytes nums ignore_timeout num es = read_loop nums ignore_timeout num (zeros num) 0 es

abbrev pub and_then : {A B : Type 0} → Read A → (A → List Event → Read B) → Read B
and_then (got a es) k = k a es
and_then (raised c) k = raised c
and_then waiting k = waiting

abbrev unpacked : {B : Type 0} → Option ℕ → (ℕ → Read B) → Read B
unpacked none k = raised struct_error
unpacked (some n) k = k n

-- `BlockingRecordTransport.read`
unfoldable pub read : Errno → Bool → List Event → Read (ℕ × Bytes)
read nums ignore_timeout es = and_then (read_bytes nums ignore_timeout head_length es) λ head es1.
    unpacked (unpack_u32 head) λ body_length.
      and_then (read_bytes nums ignore_timeout transaction_id_length es1) λ tid es2.
        unpacked (unpack_u32 tid) λ transaction_id.
          and_then (read_bytes nums ignore_timeout body_length es2)
            λ body es3. got (transaction_id, body) es3

-- What one `send` meets: some bytes are taken, or an error.
pub data Sent : Type 0 where
  taken : ℕ → Sent
  failed : ℕ → Sent

-- How a write ends: with the bytes that went out.
pub data Write : Type 0 where
  wrote : Bytes → Write
  aborted : Bytes → Class → Write
  pending : Bytes → Write

module _ (nums : Errno) (content : Bytes) where
  -- The `while` loop of `write_data`; `out` is what the socket has taken. `send` takes no more
  -- than it is given.
  unfoldable pub write_loop : Bytes → ℕ → List Sent → Write
  write_loop out send_bytes [] = if ltb send_bytes (length content) then pending out else wrote out
  write_loop out send_bytes (failed n ∷ es) =
      let rest = write_loop out send_bytes es in
      if ltb send_bytes (length content)
      then (if n == nums.eintr then rest else aborted out socket_error)
      else wrote out
  write_loop out send_bytes (taken n ∷ es) =
      let part = take n (drop send_bytes content) in
      let rest = write_loop (out ++ part) (send_bytes + length part) es in
      if ltb send_bytes (length content) then rest else wrote out

-- `BlockingSocketUtility.write_data`
unfoldable pub write_data : Errno → Bytes → List Sent → Write
unfolding write_loop
write_data nums content es = write_loop nums content [] 0 es

-- `BlockingRecordTransport.write`
unfoldable pub write : Errno → ℕ → Bytes → List Sent → Write
write nums transaction_id buff es = elim (generate_packet transaction_id buff) [
  | none ↦ aborted [] struct_error
  | some packet ↦ write_data nums packet es
]
