-- ===== src/HttpTransport/Parser.antt =====
-- extension/http_transport.py: `HTTPResponseParser`, which is fed bytes and takes a message from
-- them, line by line.
use summerrpc.Prelude.{
  ℕ, zero, suc, ◌+◌, Bool, true, false, Option, none, some, [], ◌∷◌, ◌++◌, ltb, not, if◌then◌else◌,
  length, take, drop,
}
use summerrpc.Exceptions.{Class, invalid_packet_error}
use summerrpc.Text.{Bytes, crlf, same, isdigit, cut_line, int}
use summerrpc.HttpTransport
use summerrpc.HttpTransport.{ResponseLine, Headers, get_header, content_length_name, parse_header}

pub data Stage : Type 0 where
  parse_response_line parse_headers parse_content finished : Stage

pub record Parser : Type 0 where
  pub buffer : Bytes
  pub stage : Stage
  pub line : Option ResponseLine
  pub headers : Headers
  pub content_length : ℕ
  pub content : Option Bytes

-- `__init__`, and `reset_states`, which keeps the buffer.
unfoldable pub with_buffer : Bytes → Parser
with_buffer buffer = record {
  buffer = buffer;
  stage = Stage.parse_response_line;
  line = none;
  headers = [];
  content_length = 0;
  content = none;
}

unfoldable pub new_parser : Parser
unfolding with_buffer
new_parser = with_buffer []

unfoldable pub reset_states : Parser → Parser
unfolding with_buffer
reset_states p = with_buffer p.buffer

abbrev pub feed : Bytes → Parser → Parser
feed data_ p = record p { buffer = p.buffer ++ data_ }

-- What `get` comes to: it needs more bytes, or it went on, or it raised.
pub data Got : Type 0 where
  uncomplete : Got
  went : Parser → Got
  raised : Class → Got

-- The line is over: the headers end, or there is one more.
unfoldable pub take_header : Bytes → Bytes → Parser → Got
take_header line rest p =
    if same line crlf
    then (elim (get_header content_length_name p.headers) [
      | none ↦ went (record p { buffer = rest; stage = finished })
      | some text ↦
          if not (isdigit text)
          then raised invalid_packet_error
          else went (record p { buffer = rest; content_length = int text; stage = parse_content })
    ])
    else (elim (parse_header line) [
      | none ↦ raised invalid_packet_error
      | some header ↦ went (record p { buffer = rest; headers = header ∷ p.headers })
    ])

unfoldable pub take_response_line : Bytes → Bytes → Parser → Got
take_response_line line rest p = elim (HttpTransport.parse_response_line line) [
  | none ↦ raised invalid_packet_error
  | some l ↦ went (record p { buffer = rest; line = some l; stage = parse_headers })
]

-- With no whole line in the buffer, more bytes are needed.
abbrev pub with_line : (Bytes → Bytes → Got) → Option (Bytes × Bytes) → Got
with_line f none = uncomplete
with_line f (some (line, rest)) = f line rest

unfoldable pub get_at : Stage → Parser → Got
unfolding take_header take_response_line
get_at Stage.parse_response_line p =
    with_line (λ line rest. take_response_line line rest p) (cut_line p.buffer)
get_at parse_headers p = with_line (λ line rest. take_header line rest p) (cut_line p.buffer)
get_at parse_content p =
    if ltb (length p.buffer) p.content_length
    then uncomplete
    else went (record p {
      buffer = drop p.content_length p.buffer;
      content = some (take p.content_length p.buffer);
      stage = finished;
    })
get_at finished p = went p

-- `get`
unfoldable pub get : Parser → Got
unfolding get_at
get p = get_at p.stage p

abbrev pub is_finished_at : Stage → Bool
is_finished_at finished = true
is_finished_at _ = false

abbrev pub is_finished : Parser → Bool
is_finished p = is_finished_at p.stage

-- How `auto_get` ends.
pub data Auto : Type 0 where
  done : Parser → Auto
  failed : Class → Auto
  out_of_fuel : Auto

-- What follows a call of `get`.
abbrev pub after : Parser → (Parser → Auto) → Got → Auto
after p k uncomplete = done p
after p k (raised e) = failed e
after p k (went q) = elim (is_finished q) [ true ↦ done q | false ↦ k q ]

unfoldable pub auto_loop : ℕ → Parser → Auto
auto_loop zero p = out_of_fuel
auto_loop (suc fuel) p = after p (auto_loop fuel) (get p)

-- Each turn takes a line or goes to a later stage.
abbrev pub weight : Stage → ℕ
weight Stage.parse_response_line = 4
weight parse_headers = 3
weight parse_content = 2
weight finished = 1

abbrev pub turns : Parser → ℕ
turns p = length p.buffer + weight p.stage

unfoldable pub auto_get : Parser → Auto
unfolding auto_loop
auto_get p = auto_loop (turns p) p
