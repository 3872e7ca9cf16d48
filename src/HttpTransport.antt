-- ===== src/HttpTransport.antt =====
-- extension/http_transport.py: what both ends of the HTTP transport share, the lines and headers of
-- a message and the packets.
pub mod Parser
pub mod Client
pub mod Server
pub mod Steps
pub mod Chunks
pub mod Packets
pub mod Loops
pub mod RoundTrip
pub mod Requests
pub mod EndOfStream
use summerrpc.Prelude.{
  ℕ, zero, suc, Bool, true, ◌==◌, Option, none, some, List, [], ◌∷◌, ◌++◌, not, if◌then◌else◌,
  length,
}
use summerrpc.Text.{
  Bytes, codes, crlf, same, one_of, isdigit, lower, upper, strip, chop_crlf, split_once, words_from,
  int, decimal,
}

pub data Version : Type 0 where
  v0_9 v1_0 v1_1 : Version

-- `float(v)` for the three versions that are known.
unfoldable pub known_version : Bytes → Option Version
known_version v =
    if same v (codes "0.9")
    then some v0_9
    else if same v (codes "1.0")
    then some v1_0
    else if same v (codes "1.1")
    then some v1_1
    else none

-- `HTTPRequest`, without its headers and its body.
pub record RequestLine : Type 0 where
  pub request_method : Bytes
  pub request_uri : Bytes
  pub http_version : Version

-- `supported_methods` is `RequestHandler.SUPPORTED_METHODS` of tornado.
unfoldable pub parse_request_line : List Bytes → Bytes → Option RequestLine
unfolding chop_crlf split_once known_version
parse_request_line supported_methods request_line = elim (split_once 32 (chop_crlf request_line)) [
  | none ↦ none
  | some (verb, others) ↦ elim (split_once 32 others) [
    | none ↦ none
    | some (uri, version) ↦
        if not (one_of verb supported_methods) then none else elim (split_once 47 version) [
          | none ↦ none
          | some (protocol, number) ↦
              if not (same (lower protocol) (codes "http"))
              then none
              else elim (known_version number) [
                | none ↦ none
                | some v ↦
                    some (record { request_method = verb; request_uri = uri; http_version = v })
              ]
        ]
  ]
]

unfoldable pub parse_header : Bytes → Option (Bytes × Bytes)
unfolding chop_crlf split_once
parse_header header_string = elim (split_once 58 (chop_crlf header_string)) [
  | none ↦ none
  | some (name, value) ↦ some (strip name, strip value)
]

pub record ResponseLine : Type 0 where
  pub protocol : Bytes
  pub version : Version
  pub status : ℕ
  pub message : Bytes

-- The tests on the three words of a response line.
unfoldable pub response_words : Bytes → Bytes → Bytes → Option ResponseLine
unfolding split_once known_version
response_words protocol_and_version status message = elim (split_once 47 protocol_and_version) [
  | none ↦ none
  | some (protocol, number) ↦ elim (split_once 47 number) [
    | some more ↦ none
    | none ↦
        if not (same (upper protocol) (codes "HTTP")) then none else elim (known_version number) [
          | none ↦ none
          | some v ↦
              if not (isdigit status)
              then none
              else some (record {
                protocol = protocol;
                version = v;
                status = int status;
                message = message;
              })
        ]
  ]
]

abbrev three_words : List Bytes → Option ResponseLine
three_words (a ∷ b ∷ c ∷ []) = response_words a b c
three_words _ = none

unfoldable pub parse_response_line : Bytes → Option ResponseLine
unfolding chop_crlf words_from response_words
parse_response_line response_line = three_words (words_from [] (chop_crlf response_line))

-- Headers, the newest first; the first under a name counts.
abbrev pub Headers : Type 0
Headers = List (Bytes × Bytes)

abbrev pub get_header : Bytes → Headers → Option Bytes
get_header name [] = none
get_header name ((n, v) ∷ hs) =
    let rest = get_header name hs in if same n name then some v else rest

abbrev pub transaction_id_name : Bytes
transaction_id_name = codes "Transaction-Id"

abbrev pub content_length_name : Bytes
content_length_name = codes "Content-Length"

-- `"Name: %d\r\n" % n`
abbrev pub number_header : Bytes → ℕ → Bytes
number_header name n = name ++ (codes ": " ++ (decimal n ++ crlf))

-- `HTTPTransport.generate_packet`
unfoldable pub response_packet : ℕ → Bytes → Bytes
unfolding decimal
response_packet transaction_id buff =
    (codes "HTTP/1.1 200 OK" ++ crlf)
    ++ (number_header transaction_id_name transaction_id
        ++ (number_header content_length_name (length buff) ++ (crlf ++ buff)))

abbrev pub user_agent : Bytes
user_agent = codes "User-Agent: SimpleBlockingHTTPTransport"

-- `SimpleBlockingHTTPTransport.generate_packet`
unfoldable pub request_packet : ℕ → Bytes → Bytes
unfolding decimal
request_packet transaction_id buff =
    (codes "GET / HTTP/1.1" ++ crlf)
    ++ (number_header transaction_id_name transaction_id
        ++ (number_header content_length_name (length buff)
            ++ ((user_agent ++ crlf) ++ (crlf ++ buff))))
