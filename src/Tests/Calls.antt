-- ===== src/Tests/Calls.antt =====
-- A whole call: the theorems at concrete inputs.
use summerrpc.Prelude.{
  ℕ, zero, suc, ◌≡◌, refl, sym, ap, ◌∙◌, true, false, none, some, List, [], ◌∷◌, ◌++◌, length, take,
  drop, take-append, drop-append,
}
use summerrpc.Exceptions.{type_error, value_error}
use summerrpc.Text.{Bytes, codes, same}
use summerrpc.Messages.{
  Value, nothing, bool, text, sequence, dict, no_values, Pairs, no_pairs, pair, Outcome, ok, raised,
}
use summerrpc.Messages
use summerrpc.Serializer.{Format, dumps}
use summerrpc.Serializer
use summerrpc.Serializer.RoundTrip.{IsFaithful}
use summerrpc.Serializer.RoundTrip
use summerrpc.Serializer.Types
use summerrpc.Exporter.{Attribute, Cls, Method, Exporter, empty}
use summerrpc.Exporter
use summerrpc.Transport
use summerrpc.Transport.Reading
use summerrpc.Transport.Streams
use summerrpc.ReferArgument.{defaults}
use summerrpc.Stub
use summerrpc.Stub.Naming
use summerrpc.Calls
use summerrpc.Calls.Trip
use summerrpc.Calls.Whole

-- Texts one after the other, each behind its length.
abbrev encode : List Bytes → Bytes
encode [] = []
encode (t ∷ ts) = length t ∷ (t ++ encode ts)

abbrev decode : ℕ → Bytes → List Bytes
decode zero s = []
decode (suc n) [] = []
decode (suc n) (l ∷ s) = take l s ∷ decode n (drop l s)

decode-encode : (ts : List Bytes) → decode (length ts) (encode ts) ≡ ts
decode-encode [] = refl
decode-encode (t ∷ ts) =
    rw (take-append t (encode ts), drop-append t (encode ts), decode-encode ts) refl

-- A format for the dicts of requests without arguments, of results that are texts, and of exceptions.
abbrev call_dict : List Bytes → Value
call_dict (a ∷ c ∷ b ∷ m ∷ e ∷ f ∷ g ∷ h ∷ []) = dict (
    pair a (text c) (
      pair b (text m) (
        pair e (sequence no_values)
          (pair f (dict no_pairs) (pair g nothing (pair h (bool true) no_pairs))))))
call_dict _ = nothing

abbrev text_dict : List Bytes → Value
text_dict (a ∷ t ∷ b ∷ c ∷ d ∷ []) =
    dict (pair a (text t) (pair b nothing (pair c nothing (pair d (bool false) no_pairs))))
text_dict _ = nothing

abbrev dumps_tagged : Pairs → Outcome Bytes
dumps_tagged
      (pair a (text c) (
        pair b (text m) (
          pair e
            (sequence no_values)
            (pair f (dict no_pairs) (pair g nothing (pair h (bool true) no_pairs)))))) =
    ok (0 ∷ encode (a ∷ c ∷ b ∷ m ∷ e ∷ f ∷ g ∷ h ∷ []))
dumps_tagged (pair a (text t) (pair b nothing (pair c nothing (pair d (bool false) no_pairs)))) =
    ok (1 ∷ encode (a ∷ t ∷ b ∷ c ∷ d ∷ []))
dumps_tagged _ = raised type_error

abbrev loads_tagged : Bytes → Outcome Value
loads_tagged (zero ∷ s) = ok (call_dict (decode 8 s))
loads_tagged (suc n ∷ s) = ok (text_dict (decode 5 s))
loads_tagged _ = raised value_error

abbrev own_text : Value → Bytes
own_text (text s) = s
own_text _ = []

abbrev tagged : Format
tagged = record { dumps_dict = dumps_tagged; loads_value = loads_tagged; str = own_text }

call_back :
    (ts : List Bytes) (buff : Bytes)
    → length ts ≡ 8
    → ◌≡◌ {A = Outcome Bytes} (ok (0 ∷ encode ts)) (ok buff)
    → loads_tagged buff ≡ ok (call_dict ts)
call_back ts buff l k =
    let e : 0 ∷ encode ts ≡ buff = cc in
    ap loads_tagged (sym e)
    ∙ ap (λ n. ok (call_dict (decode n (encode ts)))) (sym l)
    ∙ ap (λ x. ok (call_dict x)) (decode-encode ts)

text_back :
    (ts : List Bytes) (buff : Bytes)
    → length ts ≡ 5
    → ◌≡◌ {A = Outcome Bytes} (ok (1 ∷ encode ts)) (ok buff)
    → loads_tagged buff ≡ ok (text_dict ts)
text_back ts buff l k =
    let e : 1 ∷ encode ts ≡ buff = cc in
    ap loads_tagged (sym e)
    ∙ ap (λ n. ok (text_dict (decode n (encode ts)))) (sym l)
    ∙ ap (λ x. ok (text_dict x)) (decode-encode ts)

tagged_reads_back :
    (d : Pairs) (buff : Bytes) → dumps_tagged d ≡ ok buff → loads_tagged buff ≡ ok (dict d)
tagged_reads_back
      (pair a (text c) (
        pair b (text m) (
          pair e
            (sequence no_values)
            (pair f (dict no_pairs) (pair g nothing (pair h (bool true) no_pairs))))))
      buff k =
    call_back (a ∷ c ∷ b ∷ m ∷ e ∷ f ∷ g ∷ h ∷ []) buff refl k
tagged_reads_back (pair a (text t) (pair b nothing (pair c nothing (pair d (bool false) no_pairs))))
      buff k =
    text_back (a ∷ t ∷ b ∷ c ∷ d ∷ []) buff refl k
tagged_reads_back _ buff k = absurd (cc)

tagged-IsFaithful : IsFaithful tagged
tagged-IsFaithful = record {
  reads_back = λ d buff p. tagged_reads_back d buff;
  str-text = λ s. refl;
}

-- A class with a method that is provided under another name, and one that is private.
abbrev echo_class : Cls
echo_class = record {
  name = codes "Echo";
  exported_as = some (codes "echo");
  attributes =
      record {
        attr_name = codes "say";
        is_method = true;
        provided = some (record { name = codes "speak"; filtered = false });
        in_subprocess = none;
      }
      ∷ record { attr_name = codes "_say"; is_method = true; provided = none; in_subprocess = none }
      ∷ [];
}

abbrev echo : Stub.ClassObject
echo = record { cls = echo_class; getattr = λ n. Naming.own_attribute n echo_class.attributes }

abbrev stub : Stub.Stub Value
stub = record {
  transport = some (codes "record");
  serializer = some (record { name = codes "tagged"; format = tagged });
  cluster = some (record { get_remote = λ c m t s. none; closed = false });
  protocol = some (record { filters = []; invoker = none });
}

abbrev echo_refer : Stub.Refer Value
echo_refer = record {
  class_object = echo;
  transport = codes "record";
  serializer = record { name = codes "tagged"; format = tagged };
  cluster = record { get_remote = λ c m t s. none; closed = false };
  protocol = record { filters = []; invoker = none };
  refer_argument = defaults;
  is_pool_closed = false;
  class_name = codes "echo";
}

echo_referred : Stub.refer (some echo) none stub ≡ ok echo_refer
unfolding Stub.refer
echo_referred = refl

say_found : Stub.getattr (codes "say") echo_refer ≡ ok (Stub.proxy (codes "speak"))
unfolding Stub.getattr Exporter.get_provide
say_found = refl

-- Methods give their own name; those named `slow` run in a process.
abbrev run : Calls.Ways
run = record {
  run = λ m args kwargs. Calls.returned (text m.attr_name);
  in_process = λ m. same m.attr_name (codes "slow");
  text_class = codes "unicode";
}

abbrev request_bytes : Bytes
request_bytes =
    0
    ∷ encode (
        codes "class_name"
        ∷ codes "echo"
        ∷ codes "method_name"
        ∷ codes "speak"
        ∷ codes "args"
        ∷ codes "kwargs"
        ∷ codes "meta"
        ∷ codes "is_request"
        ∷ [])

request_written :
    dumps tagged (Messages.request (Stub.request_of (codes "speak") no_values no_pairs echo_refer))
    ≡ ok request_bytes
unfolding Serializer.dumps Serializer.to_dict
request_written = refl

request-Plain :
    RoundTrip.Plain
      (Messages.request (Stub.request_of (codes "speak") no_values no_pairs echo_refer))
unfolding Serializer.to_dict
request-Plain = refl

abbrev response_bytes : Bytes
response_bytes =
    1 ∷ encode (codes "result" ∷ codes "say" ∷ codes "exc" ∷ codes "meta" ∷ codes "is_request" ∷ [])

response_written :
    dumps tagged (Messages.result (Calls.response_of nothing (Calls.returned (text (codes "say")))))
    ≡ ok response_bytes
unfolding Serializer.dumps Serializer.to_dict
response_written = refl

response-Plain :
    RoundTrip.Plain
      (Messages.result (Calls.response_of nothing (Calls.returned (text (codes "say")))))
unfolding Serializer.to_dict
response-Plain = refl

abbrev packet_of : Bytes → Bytes
packet_of body = 0 ∷ 0 ∷ 0 ∷ length body ∷ 0 ∷ 0 ∷ 0 ∷ 7 ∷ body

response_packed : Transport.generate_packet 7 response_bytes ≡ some (packet_of response_bytes)
unfolding Transport.generate_packet Transport.pack_u32
response_packed = refl

proxy-runs_example :
    (Calls.serve tagged run (Exporter.export (some echo_class) false empty) 7 request_bytes
      ≡ Calls.answered (packet_of response_bytes))
    × (Calls.receive tagged response_bytes ≡ Trip.outcome_of (Calls.returned (text (codes "say"))))
proxy-runs_example =
    Whole.proxy-runs tagged run echo none stub echo_refer false empty (codes "say") (codes "speak")
      no_values no_pairs 7 request_bytes response_bytes (packet_of response_bytes) tagged-IsFaithful
      echo_referred refl refl ((λ e. refl), ((λ e. absurd (cc)), tt)) refl say_found refl
      request-Plain request_written response-Plain response_written response_packed

abbrev exported : Exporter
exported = Exporter.export (some echo_class) false empty

abbrev nums : Transport.Errno
nums = record { eintr = 4; ebadf = 9 }

-- The response's packet arrives in two pieces, and a byte more.
abbrev arriving : List Transport.Event
arriving =
    Transport.bytes (take 5 (packet_of response_bytes))
    ∷ Transport.error 4
    ∷ Transport.bytes (drop 5 (packet_of response_bytes) ++ 1 ∷ [])
    ∷ []

request_loaded :
    Serializer.loads tagged request_bytes
    ≡ ok (Messages.request (Trip.call (codes "echo") (codes "speak") no_values no_pairs))
unfolding Serializer.loads Serializer.load_value Serializer.load_request
request_loaded = refl

loads-WellTyped_example :
    Types.WellTyped (Messages.request (Trip.call (codes "echo") (codes "speak") no_values no_pairs))
loads-WellTyped_example = Types.loads-WellTyped tagged request_bytes _ request_loaded
