-- ===== src/HttpTransport/Server.antt =====
-- extension/http_transport.py: `HTTPTransport.read`. The stream is tornado's; its two methods are
-- parameters over a state of any type.
use summerrpc.Prelude.{
  ℕ, zero, suc, true, false, Option, none, some, List, [], ◌∷◌, ltb, not, if◌then◌else◌, ◌||◌,
}
use summerrpc.Text.{Bytes, crlf, is_nil, same, isdigit, isalnum, int}
use summerrpc.HttpTransport.{
  parse_request_line, parse_header, Headers, get_header, transaction_id_name, content_length_name,
}

-- What a read raises; the stream has errors of its own.
pub data Raised : Type 0 where
  unsatisfiable_read_error value_error : Raised
  of_stream : ℕ → Raised

pub data Answer (S : Type 0) : Type 0 where
  delivered : Bytes → S → Answer S
  refused : Raised → Answer S

-- `IOStream`: `read_until("\r\n", max_bytes)` and `read_bytes(n)`.
pub record Stream (S : Type 0) : Type 0 where
  pub read_until : ℕ → S → Answer S
  pub read_bytes : ℕ → S → Answer S

-- `HTTPTransport`, and the methods that tornado supports.
pub record Settings : Type 0 where
  pub max_request_line_length : ℕ
  pub max_header_length : ℕ
  pub max_header_count : ℕ
  pub supported_methods : List Bytes

pub data Read (S : Type 0) : Type 0 where
  got : ℕ → Option Bytes → S → Read S
  raised : Raised → Read S

pub data ReadHeaders (S : Type 0) : Type 0 where
  all_headers : Headers → S → ReadHeaders S
  stopped : Raised → ReadHeaders S

-- A header that cannot be parsed is passed over.
abbrev pub add_header : Bytes → Headers → Headers
add_header text headers = elim (parse_header text) [
  | none ↦ headers
  | some header ↦ header ∷ headers
]

-- `isalnum()` guards the call of `int()`, which takes digits only.
unfoldable pub number_of : {S : Type 0} → Option Bytes → (ℕ → Read S) → Read S
number_of none k = raised unsatisfiable_read_error
number_of (some text) k =
    if is_nil text || not (isalnum text)
    then raised unsatisfiable_read_error
    else if isdigit text
    then k (int text)
    else raised value_error

module _ {S : Type 0} (stream : Stream S) (max_header_length : ℕ) where
  -- The `for` loop over the headers.
  unfoldable pub read_headers : ℕ → Headers → S → ReadHeaders S
  read_headers zero headers s = stopped unsatisfiable_read_error
  read_headers (suc n) headers s = elim (stream.read_until max_header_length s) [
    | refused e ↦ stopped e
    | delivered header s1 ↦ elim (same header crlf) [
      | true ↦ all_headers headers s1
      | false ↦ read_headers n (add_header header headers) s1
    ]
  ]

abbrev pub body_of : {S : Type 0} → ℕ → Answer S → Read S
body_of transaction_id (refused e) = raised e
body_of transaction_id (delivered body s) = got transaction_id (some body) s

-- What follows the headers.
unfoldable pub read_rest : {S : Type 0} → Stream S → ReadHeaders S → Read S
unfolding number_of
read_rest stream (stopped e) = raised e
read_rest stream (all_headers headers s) =
    number_of (get_header transaction_id_name headers) λ transaction_id.
      number_of (get_header content_length_name headers) λ content_length.
        if ltb 0 content_length
        then body_of transaction_id (stream.read_bytes content_length s)
        else got transaction_id none s

-- What follows the request line.
unfoldable pub read_lines : {S : Type 0} → Stream S → Settings → Answer S → Read S
unfolding read_headers read_rest
read_lines stream self (refused e) = raised e
read_lines stream self (delivered request_line s) =
    elim (parse_request_line self.supported_methods request_line) [
      | none ↦ raised unsatisfiable_read_error
      | some request ↦
          read_rest stream (read_headers stream self.max_header_length self.max_header_count [] s)
    ]

-- `HTTPTransport.read`
unfoldable pub read : {S : Type 0} → Stream S → Settings → S → Read S
unfolding read_lines
read stream self s = read_lines stream self (stream.read_until self.max_request_line_length s)
