-- ===== src/HttpTransport/RoundTrip.antt =====
-- extension/http_transport.py: a packet of the server, read by the blocking client.
use summerrpc.Prelude.{
  ℕ, ◌≡◌, refl, ap, ◌∙◌, Bool, true, false, none, some, List, [], ◌∷◌, ◌++◌, arith, length,
  take_all, drop_all, ltb,
}
use summerrpc.Prelude.Int.{pos}
use summerrpc.Text.{Bytes, codes, crlf, cut_line, split_once, chop_crlf, words_from, decimal}
use summerrpc.Text.Decimal.{int-decimal, isdigit-decimal, signed-decimal}
use summerrpc.HttpTransport.{
  v1_1, Headers, get_header, number_header, transaction_id_name, content_length_name,
  response_packet, parse_header, ResponseLine, known_version, response_words,
}
use summerrpc.HttpTransport
use summerrpc.HttpTransport.Packets.{IsName, cut_line-number_header, parse_header-number_header}
use summerrpc.HttpTransport.Parser.{
  parse_headers, parse_content, finished, Parser, with_buffer, new_parser, feed, uncomplete, went,
  take_header, take_response_line, with_line, get_at, get, is_finished, Auto, done, after, auto_get,
}
use summerrpc.HttpTransport.Chunks.{auto_get-after, join}
use summerrpc.HttpTransport.Loops.{read_loop-Reads}
use summerrpc.HttpTransport.Client.{got, message_of, read}

step_on : (p q : Parser) → get p ≡ went q → is_finished q ≡ false → auto_get p ≡ auto_get q
step_on p q e u =
    auto_get-after p
    ∙ ap (after p auto_get) e
    ∙ ap (λ (b : Bool). elim b as (λ _. Auto) [ true ↦ done q | false ↦ auto_get q ]) u

step_last : (p q : Parser) → get p ≡ went q → is_finished q ≡ true → auto_get p ≡ done q
step_last p q e u =
    auto_get-after p
    ∙ ap (after p auto_get) e
    ∙ ap (λ (b : Bool). elim b as (λ _. Auto) [ true ↦ done q | false ↦ auto_get q ]) u

pub transaction_id-IsName : IsName transaction_id_name
transaction_id-IsName = record {
  one_line = omega arith;
  no_colon = omega arith;
  solid = ground arith;
}

pub content_length-IsName : IsName content_length_name
content_length-IsName = record {
  one_line = omega arith;
  no_colon = omega arith;
  solid = ground arith;
}

abbrev ok_line : ResponseLine
ok_line = record { protocol = codes "HTTP"; version = v1_1; status = 200; message = codes "OK" }

module _ (id : ℕ) (buff : Bytes) where
  abbrev after_length : Bytes
  after_length = crlf ++ buff

  abbrev after_id : Bytes
  after_id = number_header content_length_name (length buff) ++ after_length

  abbrev after_line : Bytes
  after_line = number_header transaction_id_name id ++ after_id

  -- The parser after the response line, after each header, after their end, and at the end.
  abbrev in_headers : Bytes → Headers → Parser
  in_headers buffer headers = record {
    buffer = buffer;
    stage = parse_headers;
    line = some ok_line;
    headers = headers;
    content_length = 0;
    content = none;
  }

  abbrev id_header : Bytes × Bytes
  id_header = (transaction_id_name, decimal id)

  abbrev all_headers : Headers
  all_headers = (content_length_name, decimal (length buff)) ∷ id_header ∷ []

  abbrev pub whole : Parser
  whole = record {
    buffer = [];
    stage = finished;
    line = some ok_line;
    headers = all_headers;
    content_length = length buff;
    content = some buff;
  }

  get_line : get (with_buffer (response_packet id buff)) ≡ went (in_headers after_line [])
  unfolding get get_at take_response_line with_buffer response_packet cut_line
      HttpTransport.parse_response_line chop_crlf words_from response_words split_once known_version
  get_line = refl

  get_id : get (in_headers after_line []) ≡ went (in_headers after_id (id_header ∷ []))
  unfolding get get_at take_header
  get_id =
      let c = cut_line-number_header transaction_id_name id after_id transaction_id-IsName in
      let h = parse_header-number_header transaction_id_name id transaction_id-IsName in
      ap (with_line (λ line rest. take_header line rest (in_headers after_line []))) c ∙ rw h refl

  get_length :
      get (in_headers after_id (id_header ∷ [])) ≡ went (in_headers after_length all_headers)
  unfolding get get_at take_header
  get_length =
      let c =
        cut_line-number_header content_length_name (length buff) after_length
          content_length-IsName in
      let h = parse_header-number_header content_length_name (length buff) content_length-IsName in
      ap (with_line (λ line rest. take_header line rest (in_headers after_id (id_header ∷ [])))) c
      ∙ rw h refl

  abbrev in_content : Parser
  in_content = record {
    buffer = buff;
    stage = parse_content;
    line = some ok_line;
    headers = all_headers;
    content_length = length buff;
    content = none;
  }

  get_end : get (in_headers after_length all_headers) ≡ went in_content
  unfolding get get_at take_header cut_line
  get_end = rw (isdigit-decimal (length buff), int-decimal (length buff)) refl

  get_content : get in_content ≡ went whole
  unfolding get get_at
  get_content =
      let n = length buff in
      let e : ltb n n ≡ false = ground arith in
      let t = take_all n buff (omega arith) in
      let d = drop_all n buff (omega arith) in rw (e, t, d) refl

  -- A packet that is fed at once is parsed to its end, with nothing left.
  pub auto_get-response_packet : auto_get (feed (response_packet id buff) new_parser) ≡ done whole
  unfolding new_parser with_buffer
  auto_get-response_packet =
      step_on (with_buffer (response_packet id buff)) (in_headers after_line []) get_line refl
      ∙ step_on (in_headers after_line []) (in_headers after_id (id_header ∷ [])) get_id refl
      ∙ step_on (in_headers after_id (id_header ∷ [])) (in_headers after_length all_headers)
          get_length refl
      ∙ step_on (in_headers after_length all_headers) in_content get_end refl
      ∙ step_last in_content whole get_content refl

message_of-whole :
    (id : ℕ) (buff : Bytes) (more : List Bytes)
    → message_of (whole id buff) more ≡ got (pos id) buff more
unfolding message_of
message_of-whole id buff more = rw (message_of, signed-decimal id) refl

get-new_parser : get new_parser ≡ uncomplete
unfolding get get_at cut_line new_parser with_buffer
get-new_parser = refl

pub auto_get-new_parser : auto_get new_parser ≡ done new_parser
auto_get-new_parser = auto_get-after new_parser ∙ ap (after new_parser auto_get) get-new_parser

-- When the pieces that a client receives are those of a packet of the server, cut anywhere, then
-- reading returns the packet's identifier and its body, and what it does not receive is empty.
pub read-response_packet :
    (id : ℕ) (buff : Bytes) (pieces : List Bytes)
    → join pieces ≡ response_packet id buff
    → (more : List Bytes) × (read pieces ≡ got (pos id) buff more) × (join more ≡ [])
unfolding read
read-response_packet id buff pieces e =
    let whole_end = ap (λ x. auto_get (feed x new_parser)) e ∙ auto_get-response_packet id buff in
    let (more, r, nothing) =
      read_loop-Reads (whole id buff) new_parser pieces refl refl auto_get-new_parser whole_end in
    (more, r ∙ message_of-whole id buff more, nothing)
