-- ===== src/HttpTransport/Requests.antt =====
-- extension/http_transport.py: a packet of the blocking client, read by the server.
use summerrpc.Prelude.{
  ℕ, suc, ◌-◌, ◌≡◌, ◌≤◌, refl, ap, ◌∙◌, true, false, Option, none, some, List, [], ◌∷◌, ◌++◌, arith,
  length, append_assoc, ◌||◌, ltb, if◌then◌else◌,
}
use summerrpc.Text.{
  Bytes, codes, crlf, same, one_of, cut_line, split_once, chop_crlf, decimal, int, isdigit, isalnum,
  all_are, is_digit, is_upper, is_lower,
}
use summerrpc.Text.Decimal.{int-decimal, isdigit-decimal}
use summerrpc.HttpTransport.{
  v1_1, Headers, number_header, transaction_id_name, content_length_name, request_packet,
  user_agent, parse_header, parse_request_line, known_version,
}
use summerrpc.HttpTransport.Packets.{cut_line-number_header, parse_header-number_header}
use summerrpc.HttpTransport.RoundTrip.{transaction_id-IsName, content_length-IsName}
use summerrpc.HttpTransport.Server.{
  delivered, Stream, Settings, Read, got, all_headers, read_headers, number_of, read_rest,
  read_lines, read, body_of, add_header,
}

-- What a stream with a buffer does, `pending` being the bytes that it has received and not yet
-- given: a line that is short enough is given whole, and so are bytes that are there.
pub record Buffered (S : Type 0) (stream : Stream S) : Type 0 where
  pub pending : S → Bytes
  pub until_line :
      (n : ℕ) (s : S) (line rest : Bytes)
      → cut_line (pending s) ≡ some (line, rest)
      → length line ≤ n
      → (s1 : S) × (stream.read_until n s ≡ delivered line s1) × (pending s1 ≡ rest)
  pub exactly :
      (s : S) (front rest : Bytes)
      → pending s ≡ front ++ rest
      → (s1 : S) × (stream.read_bytes (length front) s ≡ delivered front s1) × (pending s1 ≡ rest)

all_are-weaken :
    (s : Bytes)
    → all_are is_digit s ≡ true
    → all_are (λ d. is_digit d || (is_upper d || is_lower d)) s ≡ true
all_are-weaken [] e = refl
all_are-weaken (c ∷ s) e = let ih = all_are-weaken s in ground (arith, e, ih)

isalnum-isdigit : (s : Bytes) → isdigit s ≡ true → isalnum s ≡ true
isalnum-isdigit [] e = absurd (cc)
isalnum-isdigit (c ∷ s) e = all_are-weaken (c ∷ s) e

number_of-isdigit :
    {S : Type 0}
    → (s : Bytes) (k : ℕ → Read S) → isdigit s ≡ true
    → number_of (some s) k ≡ k (int s)
unfolding number_of
number_of-isdigit [] k e = absurd (cc)
number_of-isdigit (c ∷ s) k e = let a = isalnum-isdigit (c ∷ s) e in rw (a, e) refl

number_of-decimal : {S : Type 0} → (n : ℕ) (k : ℕ → Read S) → number_of (some (decimal n)) k ≡ k n
number_of-decimal n k = number_of-isdigit (decimal n) k (isdigit-decimal n) ∙ ap k (int-decimal n)

abbrev request_line : Bytes
request_line = codes "GET / HTTP/1.1" ++ crlf

abbrev agent_line : Bytes
agent_line = user_agent ++ crlf

-- The body that the server hands on: none when it is empty.
abbrev pub optional : Bytes → Option Bytes
optional [] = none
optional (c ∷ s) = some (c ∷ s)

abbrev client_headers : ℕ → Bytes → Headers
client_headers id buff =
    (codes "User-Agent", codes "SimpleBlockingHTTPTransport")
    ∷ (content_length_name, decimal (length buff))
    ∷ (transaction_id_name, decimal id)
    ∷ []

append_assoc_four : (a b c d e : Bytes) → (a ++ (b ++ (c ++ d))) ++ e ≡ a ++ (b ++ (c ++ (d ++ e)))
append_assoc_four a b c d e =
    append_assoc a (b ++ (c ++ d)) e
    ∙ ap (λ x. a ++ x) (append_assoc b (c ++ d) e ∙ ap (λ x. b ++ x) (append_assoc c d e))

request_packet-lines :
    (id : ℕ) (buff more : Bytes)
    → request_packet id buff ++ more
      ≡ request_line
        ++ (number_header transaction_id_name id
            ++ (number_header content_length_name (length buff)
                ++ (agent_line ++ (crlf ++ (buff ++ more)))))
unfolding request_packet
request_packet-lines id buff more =
    append_assoc_four request_line (number_header transaction_id_name id)
      (number_header content_length_name (length buff)) (agent_line ++ (crlf ++ buff)) more

parse_request_line-request_line :
    (methods : List Bytes)
    → one_of (codes "GET") methods ≡ true
    → parse_request_line methods request_line
      ≡ some (record { request_method = codes "GET"; request_uri = codes "/"; http_version = v1_1 })
unfolding parse_request_line chop_crlf split_once known_version
parse_request_line-request_line methods e = rw e refl

cut_crlf : (rest : Bytes) → cut_line (crlf ++ rest) ≡ some (crlf, rest)
unfolding cut_line
cut_crlf rest = refl

module _ {S : Type 0} (stream : Stream S) (io : Buffered S stream) where
  -- A line that waits in the buffer is the next header.
  next_header :
      (max n : ℕ) (headers : Headers) (s : S) (line rest : Bytes) (header : Bytes × Bytes)
      → io.pending s ≡ line ++ rest
      → cut_line (line ++ rest) ≡ some (line, rest)
      → length line ≤ max
      → same line crlf ≡ false
      → parse_header line ≡ some header
      → (s1 : S) × (read_headers stream max (suc n) headers s
          ≡ read_headers stream max n (header ∷ headers) s1)
        × (io.pending s1 ≡ rest)
  unfolding read_headers
  next_header max n headers s line rest header p c l u h =
      let (s1, e, q) = io.until_line max s line rest (ap cut_line p ∙ c) l in
      let added : add_header line headers ≡ header ∷ headers = rw (add_header, h) refl in
      (s1, rw (read_headers, e, u) (ap (λ hs. read_headers stream max n hs s1) added), q)

  end_of_headers :
      (max n : ℕ) (headers : Headers) (s : S) (rest : Bytes)
      → io.pending s ≡ crlf ++ rest
      → 2 ≤ max
      → (s1 : S) × (read_headers stream max (suc n) headers s ≡ all_headers headers s1)
        × (io.pending s1 ≡ rest)
  unfolding read_headers
  end_of_headers max n headers s rest p l =
      let (s1, e, q) = io.until_line max s crlf rest (ap cut_line p ∙ cut_crlf rest) l in
      (s1, rw (read_headers, e) refl, q)

  take_body :
      (id : ℕ) (buff more : Bytes) (s : S)
      → io.pending s ≡ buff ++ more
      → (s1 : S) × ((if ltb 0 (length buff)
            then body_of id (stream.read_bytes (length buff) s)
            else got id none s)
          ≡ got id (optional buff) s1)
        × (io.pending s1 ≡ more)
  take_body id [] more s p = (s, refl, p)
  take_body id (c ∷ cs) more s p =
      let (s1, e, q) = io.exactly s (c ∷ cs) more p in
      let some_bytes : ltb 0 (length (c ∷ cs)) ≡ true = ground arith in
      (s1, rw (some_bytes, e) refl, q)

  module _ (self : Settings) (id : ℕ) (buff more : Bytes) where
    -- The packet's lines are no longer than the server allows.
    pub record Fits : Type 0 where
      pub get_supported : one_of (codes "GET") self.supported_methods ≡ true
      pub line_fits : length request_line ≤ self.max_request_line_length
      pub id_fits : length (number_header transaction_id_name id) ≤ self.max_header_length
      pub length_fits :
          length (number_header content_length_name (length buff)) ≤ self.max_header_length
      pub agent_fits : length agent_line ≤ self.max_header_length

    all_lines :
        (n : ℕ) (s : S)
        → Fits
        → io.pending s
          ≡ number_header transaction_id_name id
            ++ (number_header content_length_name (length buff)
                ++ (agent_line ++ (crlf ++ (buff ++ more))))
        → (s1 : S) × (read_headers stream self.max_header_length (suc (suc (suc (suc n)))) [] s
            ≡ all_headers (client_headers id buff) s1)
          × (io.pending s1 ≡ buff ++ more)
    unfolding cut_line parse_header chop_crlf split_once
    all_lines n s f p =
        let max = self.max_header_length in
        let two : 2 ≤ max = omega (arith, f.agent_fits) in
        let (s1, e1, p1) =
          next_header max (suc (suc (suc n))) [] s (number_header transaction_id_name id) _
            (transaction_id_name, decimal id) p
            (cut_line-number_header transaction_id_name id _ transaction_id-IsName) f.id_fits refl
            (parse_header-number_header transaction_id_name id transaction_id-IsName) in
        let (s2, e2, p2) =
          next_header max (suc (suc n)) _ s1 (number_header content_length_name (length buff)) _
            (content_length_name, decimal (length buff)) p1
            (cut_line-number_header content_length_name (length buff) _ content_length-IsName)
            f.length_fits refl
            (parse_header-number_header content_length_name (length buff) content_length-IsName) in
        let (s3, e3, p3) =
          next_header max (suc n) _ s2 agent_line _
            (codes "User-Agent", codes "SimpleBlockingHTTPTransport") p2 refl f.agent_fits refl
            refl in
        let (s4, e4, p4) = end_of_headers max n _ s3 (buff ++ more) p3 two in
        (s4, e1 ∙ e2 ∙ e3 ∙ e4, p4)

    -- What is left to do once both numbers are read.
    abbrev with_numbers : S → ℕ → ℕ → Read S
    with_numbers s transaction_id content_length =
        if ltb 0 content_length
        then body_of transaction_id (stream.read_bytes content_length s)
        else got transaction_id none s

    numbers :
        (s : S)
        → read_rest stream (all_headers (client_headers id buff) s)
          ≡ with_numbers s id (length buff)
    unfolding read_rest
    numbers s =
        number_of-decimal id (λ t. number_of (some (decimal (length buff))) λ l. with_numbers s t l)
        ∙ number_of-decimal (length buff) (λ l. with_numbers s id l)

    after_request_line :
        (s : S)
        → Fits
        → read_lines stream self (delivered request_line s)
          ≡ read_rest stream (read_headers stream self.max_header_length self.max_header_count [] s)
    unfolding read_lines
    after_request_line s f =
        let e = parse_request_line-request_line self.supported_methods f.get_supported in
        rw (read_lines, e) refl

    -- A server whose stream holds a packet of the blocking client, whatever follows it, reads the
    -- packet's identifier and its body (none when it is empty), and leaves what follows in the
    -- stream, when the packet's lines and their number are within the server's limits.
    pub read-request_packet :
        (s : S)
        → Fits
        → 4 ≤ self.max_header_count
        → io.pending s ≡ request_packet id buff ++ more
        → (s1 : S) × (read stream self s ≡ got id (optional buff) s1) × (io.pending s1 ≡ more)
    unfolding read cut_line
    read-request_packet s f c p =
        let (s1, e, q) =
          io.until_line self.max_request_line_length s request_line _
            (ap cut_line (p ∙ request_packet-lines id buff more) ∙ refl) f.line_fits in
        let (s2, h, r) = all_lines (self.max_header_count - 4) s1 f q in
        let (s3, t, u) = take_body id buff more s2 r in
        let four : self.max_header_count ≡ suc (suc (suc (suc (self.max_header_count - 4)))) =
          omega (arith, c) in
        let rest =
          λ (n : ℕ). read_rest stream (read_headers stream self.max_header_length n [] s1) in
        let run : read stream self s ≡ got id (optional buff) s3 =
          ap (read_lines stream self) e
          ∙ after_request_line s1 f
          ∙ ap rest four
          ∙ ap (read_rest stream) h
          ∙ numbers s2
          ∙ t in
        (s3, run, u)
