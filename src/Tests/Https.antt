-- ===== src/Tests/Https.antt =====
-- The HTTP transport: the theorems at concrete inputs.
use summerrpc.Prelude.{
  ℕ, ◌≡◌, refl, ap, ◌∙◌, Bool, true, false, Option, none, some, List, [], ◌∷◌, ◌++◌, if◌then◌else◌,
  leb, arith, length, take, drop, take-append, drop-append,
}
use summerrpc.Prelude.Int.{pos}
use summerrpc.Text.{Bytes, codes, crlf, cut_line, decimal, digits}
use summerrpc.HttpTransport.{request_packet, response_packet}
use summerrpc.HttpTransport.Parser.{
  Parser, feed, new_parser, with_buffer, auto_get, auto_loop, get, get_at, done, is_finished,
}
use summerrpc.HttpTransport.Chunks
use summerrpc.HttpTransport.Client
use summerrpc.HttpTransport.RoundTrip
use summerrpc.HttpTransport.EndOfStream
use summerrpc.HttpTransport.Server
use summerrpc.HttpTransport.Requests

abbrev two_lines : List Bytes
two_lines = codes "HTTP/1.1 2" ∷ (codes "00 OK" ++ crlf) ∷ codes "Content-Length: 3" ∷ crlf ∷ []

resume_all-join_example :
    Chunks.resume_all two_lines (auto_get new_parser)
    ≡ auto_get (feed (Chunks.join two_lines) new_parser)
resume_all-join_example = Chunks.resume_all-join two_lines new_parser

auto_get-Ends_example : Chunks.Ends (auto_get (feed (codes "HTTP/1.1 200 OK" ++ crlf) new_parser))
auto_get-Ends_example = Chunks.auto_get-Ends (feed (codes "HTTP/1.1 200 OK" ++ crlf) new_parser)

abbrev answer : List Bytes
answer =
    codes "HTTP/1.1 2"
    ∷ (codes "00 OK" ++ (crlf ++ codes "Transaction-Id: 7"))
    ∷ (crlf ++ (codes "Content-Length: 2" ++ crlf))
    ∷ (crlf ++ codes "hi")
    ∷ []

answer_whole : Chunks.join answer ≡ response_packet 7 (codes "hi")
unfolding response_packet decimal digits
answer_whole = refl

read-response_packet_example :
    (more : List Bytes) × (Client.read answer ≡ Client.got (pos 7) (codes "hi") more)
    × (Chunks.join more ≡ [])
read-response_packet_example = RoundTrip.read-response_packet 7 (codes "hi") answer answer_whole

abbrev half : Parser
half = with_buffer (codes "HTTP")

half_read : auto_get (feed (Chunks.join (codes "HTTP" ∷ [])) new_parser) ≡ done half
unfolding auto_get auto_loop get get_at new_parser with_buffer cut_line
half_read = refl

half_unfinished : is_finished half ≡ false
unfolding with_buffer
half_unfinished = refl

read-ends_example : Client.read ((codes "HTTP" ∷ []) ++ EndOfStream.ends 3) ≡ Client.waiting
read-ends_example = EndOfStream.read-ends (codes "HTTP" ∷ []) half 3 half_read half_unfinished

-- A stream that has received everything.
abbrev until_of : ℕ → Option (Bytes × Bytes) → Server.Answer Bytes
until_of n none = Server.refused (Server.of_stream 1)
until_of n (some (line, rest)) =
    if leb (length line) n
    then Server.delivered line rest
    else Server.refused Server.unsatisfiable_read_error

abbrev pub in_memory : Server.Stream Bytes
in_memory = record {
  read_until = λ n s. until_of n (cut_line s);
  read_bytes = λ n s. Server.delivered (take n s) (drop n s);
}

pub in_memory-Buffered : Requests.Buffered Bytes in_memory
in_memory-Buffered = record {
  pending = λ s. s;
  until_line = λ n s line rest e l.
      let short : leb (length line) n ≡ true = ground (arith, l) in
      (
        rest,
        ap (until_of n) e
            ∙ ap
                (λ (b : Bool).
                  if b
                  then Server.delivered line rest
                  else Server.refused Server.unsatisfiable_read_error)
                short,
        refl,
      );
  exactly = λ s front rest e. (
    rest,
    ap (λ x. Server.delivered (take (length front) x) (drop (length front) x)) e
        ∙ ap (λ x. Server.delivered x (drop (length front) (front ++ rest)))
            (take-append front rest)
        ∙ ap (Server.delivered front) (drop-append front rest),
    refl,
  );
}

pub pending_lem : (s : Bytes) → in_memory-Buffered.pending s ≡ s
unfolding in_memory-Buffered
pending_lem s = refl

abbrev settings : Server.Settings
settings = record {
  max_request_line_length = 2048;
  max_header_length = 1024;
  max_header_count = 128;
  supported_methods = codes "GET" ∷ codes "POST" ∷ [];
}

fits : Requests.Fits in_memory in_memory-Buffered settings 7 (codes "hi") []
unfolding decimal digits
fits = record {
  get_supported = refl;
  line_fits = omega arith;
  id_fits = omega arith;
  length_fits = omega arith;
  agent_fits = omega arith;
}

abbrev request_bytes : Bytes
request_bytes = request_packet 7 (codes "hi") ++ []

read-request_packet_example :
    (s1 : Bytes) × (Server.read in_memory settings request_bytes
      ≡ Server.got 7 (Requests.optional (codes "hi")) s1)
    × (s1 ≡ [])
unfolding in_memory-Buffered
read-request_packet_example =
    Requests.read-request_packet in_memory in_memory-Buffered settings 7 (codes "hi") []
      request_bytes fits (omega arith) refl
