-- ===== src/HttpTransport/Client.antt =====
-- extension/http_transport.py: `SimpleBlockingHTTPTransport`. What `recv` returns is a list of
-- pieces; an empty piece is the end of the stream.
use summerrpc.Prelude.{ℕ, true, false, none, some, List, [], ◌∷◌}
use summerrpc.Prelude.Int.{ℤ}
use summerrpc.Exceptions.{Class, invalid_packet_error, value_error}
use summerrpc.Text.{Bytes, signed}
use summerrpc.Transport.{Errno, Sent, Write, write_data}
use summerrpc.HttpTransport.{get_header, transaction_id_name, request_packet}
use summerrpc.HttpTransport.Parser.{
  Parser, new_parser, feed, is_finished, Auto, done, failed, auto_get,
}

-- How a read ends: a message and the pieces that were not received, an error, or it still waits.
pub data Read : Type 0 where
  got : ℤ → Bytes → List Bytes → Read
  raised : Class → Read
  waiting : Read
  out_of_fuel : Read

-- The end of `read`, with a finished parser.
unfoldable pub message_of : Parser → List Bytes → Read
message_of p more = elim (get_header transaction_id_name p.headers) [
  | none ↦ raised invalid_packet_error
  | some text ↦ elim p.content [
    | none ↦ raised invalid_packet_error
    | some body ↦ elim (signed text) [ none ↦ raised value_error | some id ↦ got id body more ]
  ]
]

abbrev pub received : (Parser → Read) → Auto → Read
received k (done p) = k p
received k (failed e) = raised e
received k Auto.out_of_fuel = Read.out_of_fuel

-- The `while` loop of `read`.
unfoldable pub read_loop : Parser → List Bytes → Read
unfolding message_of
read_loop p [] = elim (is_finished p) [ true ↦ message_of p [] | false ↦ waiting ]
read_loop p (piece ∷ pieces) = elim (is_finished p) [
  | true ↦ message_of p (piece ∷ pieces)
  | false ↦ received (λ q. read_loop q pieces) (auto_get (feed piece p))
]

unfoldable pub read : List Bytes → Read
unfolding read_loop new_parser
read pieces = read_loop new_parser pieces

-- `write`
unfoldable pub write : Errno → ℕ → Bytes → List Sent → Write
write nums transaction_id buff es = write_data nums (request_packet transaction_id buff) es
