-- ===== src/Calls.antt =====
-- rpc_server.py, with what it calls: what a server makes of one request, from the bytes it reads to
-- the bytes it answers, and what the caller makes of these (invoker.py). How a method is run (in the
-- event loop, a thread or a process) is a parameter.
pub mod Trip
pub mod Whole
use summerrpc.Prelude.{ℕ, Bool, true, false, Option, none, some, List, [], ◌∷◌, ◌++◌, if◌then◌else◌}
use summerrpc.Exceptions.{Class, is_subclass, deserialization_error, struct_error}
use summerrpc.Text.{Bytes, codes}
use summerrpc.Messages.{
  Value, nothing, text, Request, Exc, Result, Object, request, result, foreign, Outcome, ok, raised,
}
use summerrpc.Serializer.{Format, loads, dumps}
use summerrpc.Exporter.{Method, Exporter, get_method}
use summerrpc.Transport.{generate_packet}
use summerrpc.Invoker.{Run, and_then, of_outcome, result_of}

-- What the future of a method is given.
pub data Finished : Type 0 where
  returned : Value → Finished
  failed : Exc → Finished

-- How a server runs methods: what running one gives, the errors of a missing pool and of submitting
-- included; whether a method is run in a process; and the class of the texts that its serializer
-- reads, unicode of json and str of msgpack.
pub record Ways : Type 0 where
  pub run : Method → Value → Value → Finished
  pub in_process : Method → Bool
  pub text_class : Bytes

-- `exporter.get_method(class_name, method_name)`: the names under which methods stand are texts.
abbrev pub find_method : Value → Value → Exporter → Option Method
find_method (text class_name) (text method_name) exporter =
    get_method class_name method_name exporter
find_method _ _ exporter = none

-- `BaseError.__str__`: the class of what an error carries, and its text.
abbrev pub carrying : Bytes → Bytes → Bytes
carrying class_name message = class_name ++ (codes ": " ++ message)

-- The text of a name in the message of a LookupMethodError.
abbrev pub name_in : Value → Bytes
name_in (text s) = s
name_in _ = []

abbrev pub lookup_error : Ways → Request → Exc
lookup_error ways r = record {
  class_name = codes "LookupMethodError";
  message = carrying ways.text_class (
      codes "the requested method:("
      ++ (name_in r.class_name
          ++ (codes ", " ++ (name_in r.method_name ++ codes ") is not exported"))));
}

-- In a process, `WRAPPER` looks the requested name up on the object, not the method that was found.
abbrev pub looked_up : Ways → Request → Method → Method
looked_up ways r method =
    if ways.in_process method then record method { attr_name = name_in r.method_name } else method

abbrev pub invoked : Ways → Request → Option Method → Finished
invoked ways r none = failed (lookup_error ways r)
invoked ways r (some method) = ways.run (looked_up ways r method) r.args r.kwargs

-- `_invoke`: what the request's future is given.
unfoldable pub invoke : Ways → Exporter → Request → Finished
invoke ways exporter r = invoked ways r (find_method r.class_name r.method_name exporter)

-- `MethodExecutionError(future.exception())`
abbrev pub method_execution_error : Exc → Exc
method_execution_error e = record {
  class_name = codes "MethodExecutionError";
  message = carrying e.class_name e.message;
}

-- The `Result` of `_send_response`.
abbrev pub response_of : Value → Finished → Result
response_of meta (returned v) = record { result = v; exc = none; meta = meta }
response_of meta (failed e) = record {
  result = nothing;
  exc = some (method_execution_error e);
  meta = meta;
}

-- What becomes of a request: an answer, none with the error of `_send_response`, the stream's end, or
-- an error that nothing catches.
pub data Served : Type 0 where
  answered : Bytes → Served
  unanswered : Class → Served
  closes : Served
  stops : Class → Served

abbrev packed_as : Option Bytes → Served
packed_as none = unanswered struct_error
packed_as (some packet) = answered packet

abbrev pub sent_as : ℕ → Outcome Bytes → Served
sent_as transaction_id (raised c) = unanswered c
sent_as transaction_id (ok buff) = packed_as (generate_packet transaction_id buff)

-- `_send_response`, the stream being open.
unfoldable pub send_response : Format → ℕ → Value → Finished → Served
send_response f transaction_id meta finished =
    sent_as transaction_id (dumps f (result (response_of meta finished)))

module _ (f : Format) (ways : Ways) (exporter : Exporter) (id : ℕ) where
  abbrev pub serve_loaded : Outcome Object → Served
  serve_loaded (raised c) = if is_subclass c deserialization_error then closes else stops c
  serve_loaded (ok (result r)) = closes
  serve_loaded (ok (foreign n)) = closes
  serve_loaded (ok (request r)) = send_response f id r.meta (invoke ways exporter r)

  -- The body of `_run` after its read of a packet of this identifier.
  unfoldable pub serve : Bytes → Served
  serve buff = serve_loaded (loads f buff)

-- What the caller makes of a response: `RpcInvoker.invoke` after `read_future.result`.
unfoldable pub receive : Format → Bytes → Run Value
receive f response = and_then (of_outcome (loads f response)) result_of
