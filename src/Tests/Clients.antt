-- ===== src/Tests/Clients.antt =====
-- The client: the theorems at concrete inputs.
use summerrpc.Prelude.{
  ◌≡◌, refl, subst, true, false, some, List, [], ◌∷◌, ◌++◌, length, take, drop, take-append,
  drop-append,
}
use summerrpc.Prelude.Int.{ℤ, pos, negsuc}
use summerrpc.Exceptions.{type_error, value_error}
use summerrpc.Text.{Bytes, codes}
use summerrpc.Messages.{
  Value, nothing, bool, int, text, Pairs, no_pairs, pair, Request, new_request, Exc, Result, Object,
  Outcome, ok, raised,
}
use summerrpc.Messages
use summerrpc.Serializer
use summerrpc.Serializer.RoundTrip
use summerrpc.Invoker
use summerrpc.Invoker.Order
use summerrpc.Invoker.Answers
use summerrpc.Protocol
use summerrpc.Protocol.Sorting

-- A format for the dicts of results that carry an exception only.
abbrev dumps_exc : Pairs → Outcome Bytes
dumps_exc (pair a nothing (pair b (text e) (pair c nothing (pair d (bool false) no_pairs)))) =
    ok (length a ∷ length b ∷ length e ∷ length c ∷ (a ++ (b ++ (e ++ (c ++ d)))))
dumps_exc _ = raised type_error

abbrev exc_dict : Bytes → Bytes → Bytes → Bytes → Bytes → Value
exc_dict a b e c d =
    Value.dict (pair a nothing (pair b (text e) (pair c nothing (pair d (bool false) no_pairs))))

abbrev loads_exc : Bytes → Outcome Value
loads_exc (a ∷ b ∷ e ∷ c ∷ s) =
    let s1 = drop a s in
    let s2 = drop b s1 in
    let s3 = drop e s2 in ok (exc_dict (take a s) (take b s1) (take e s2) (take c s3) (drop c s3))
loads_exc _ = raised value_error

abbrev exc_text : Value → Bytes
exc_text (text s) = s
exc_text _ = []

abbrev exc_format : Serializer.Format
exc_format = record { dumps_dict = dumps_exc; loads_value = loads_exc; str = exc_text }

exc_reads_back :
    (d : Pairs) (buff : Bytes) → dumps_exc d ≡ ok buff → loads_exc buff ≡ ok (Value.dict d)
exc_reads_back (pair a nothing (pair b (text e) (pair c nothing (pair d (bool false) no_pairs))))
      buff h =
    subst (λ x. loads_exc x ≡ ok (exc_dict a b e c d)) (out h) (whole)
  where
    out :
        ok (length a ∷ length b ∷ length e ∷ length c ∷ (a ++ (b ++ (e ++ (c ++ d))))) ≡ ok buff
        → length a ∷ length b ∷ length e ∷ length c ∷ (a ++ (b ++ (e ++ (c ++ d)))) ≡ buff
    out h = cc

    whole :
        loads_exc (length a ∷ length b ∷ length e ∷ length c ∷ (a ++ (b ++ (e ++ (c ++ d)))))
        ≡ ok (exc_dict a b e c d)
    whole =
        rw
          (
            take-append a (b ++ (e ++ (c ++ d))),
            drop-append a (b ++ (e ++ (c ++ d))),
            take-append b (e ++ (c ++ d)),
            drop-append b (e ++ (c ++ d)),
            take-append e (c ++ d),
            drop-append e (c ++ d),
            take-append c d,
            drop-append c d,
          )
          refl
exc_reads_back _ buff h = absurd (cc)

exc_format-IsFaithful : RoundTrip.IsFaithful exc_format
exc_format-IsFaithful = record {
  reads_back = λ d buff p. exc_reads_back d buff;
  str-text = λ s. refl;
}

abbrev failure : Result
failure = record {
  result = nothing;
  exc = some (record { class_name = codes "KeyError"; message = codes "x" });
  meta = nothing;
}

abbrev failure_bytes : Bytes
failure_bytes =
    6
    ∷ 3
    ∷ 11
    ∷ 4
    ∷ (codes "result"
        ++ (codes "exc" ++ (codes "KeyError: x" ++ (codes "meta" ++ codes "is_request"))))

failure_written : Serializer.dumps exc_format (Messages.result failure) ≡ ok failure_bytes
unfolding Serializer.dumps Serializer.to_dict
failure_written = refl

failure-Plain : RoundTrip.Plain (Messages.result failure)
unfolding Serializer.to_dict
failure-Plain = refl

loads-dumps_example :
    Serializer.loads exc_format failure_bytes ≡ RoundTrip.received (Messages.result failure)
loads-dumps_example =
    RoundTrip.loads-dumps exc_format (Messages.result failure) failure_bytes exc_format-IsFaithful
      failure-Plain failure_written

-- A world in which all goes well, until the response that carries an exception.
abbrev world : Invoker.World
world = record {
  dumps = λ r. ok (codes "request");
  get_connection = ok 4;
  write = λ c b. ok 9;
  write_result = λ t. Invoker.given tt;
  read = λ c t. ok tt;
  read_result = λ t. Invoker.given failure_bytes;
  loads = Serializer.loads exc_format;
}

invoke-InOrder_example : Order.InOrder world.get_connection (Invoker.invoke world new_request)
invoke-InOrder_example = Order.invoke-InOrder world new_request

request_written :
    (Invoker.with_connection world (Invoker.use_connection world (codes "request"))).1
    ≡ Invoker.returned 9
unfolding Invoker.with_connection Invoker.use_connection
request_written = refl

invoke-dumps_example : (Invoker.invoke world new_request).1 ≡ Answers.end_of failure
invoke-dumps_example =
    Answers.invoke-dumps world new_request exc_format failure (codes "request") failure_bytes 9
      exc_format-IsFaithful failure-Plain refl request_written refl refl failure_written

abbrev filter_of : ℤ → Value → Protocol.Filter
filter_of order meta = record { filter = λ r. ok (record r { meta = meta }); get_order = order }

abbrev filters : List Protocol.Filter
filters =
    filter_of (pos 1) nothing
    ∷ filter_of (negsuc 0) (bool true)
    ∷ filter_of (pos 1) (bool false)
    ∷ filter_of (pos 5) nothing
    ∷ []

abbrev protocol : Protocol.Protocol Request
protocol = record { filters = filters; invoker = some (λ r. ok r) }

invoke-Descending_example :
    Sorting.Runs
      (Protocol.sorted filters)
      (λ r. ok r)
      new_request
      (Protocol.invoke protocol new_request)
invoke-Descending_example =
    Sorting.invoke-Descending protocol (Protocol.sorted filters) (λ r. ok r) new_request refl
      (Sorting.Descending-sorted filters) (λ k. Sorting.with_order-sorted k filters)
