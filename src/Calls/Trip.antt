-- ===== src/Calls/Trip.antt =====
-- The way of a call over the record transport: transport.py, base_serializer.py, rpc_server.py and
-- invoker.py together.
use summerrpc.Prelude.{ℕ, ◌≡◌, refl, ap, ◌∙◌, some, [], ◌++◌}
use summerrpc.Text.{codes}
use summerrpc.Text
use summerrpc.Messages.{
  Value, Values, Pairs, nothing, text, sequence, dict, Request, request, result, ok, new_request,
}
use summerrpc.Serializer.{Format, dumps}
use summerrpc.Serializer.RoundTrip.{IsFaithful, Plain, received, loads-dumps}
use summerrpc.Exporter.{Exporter}
use summerrpc.Transport.{Bytes, generate_packet}
use summerrpc.Transport
use summerrpc.Transport.Streams
use summerrpc.Invoker.{Run, returned, reraised, result_of}
use summerrpc.Calls.{
  Ways, Finished, failed, invoke, response_of, serve, send_response, answered, receive, sent_as,
  serve_loaded,
}

-- The request of a call, as the client makes it.
abbrev pub call : Text.Bytes → Text.Bytes → Values → Pairs → Request
call class_name method_name args kwargs = record new_request {
  class_name = text class_name;
  method_name = text method_name;
  args = sequence args;
  kwargs = dict kwargs;
}

-- What the caller is to get: the method's value, or its exception as a RuntimeError.
abbrev pub outcome_of : Finished → Run Value
outcome_of (Finished.returned v) = ([], returned v)
outcome_of (failed e) = (
  [],
  reraised (record {
    class_name = codes "RuntimeError";
    message =
        codes "MethodExecutionError" ++ (codes ": " ++ (e.class_name ++ (codes ": " ++ e.message)));
  }),
)

module _ (f : Format) (faithful : IsFaithful f) where
  -- When `dumps` writes the result, the caller gets what the method gave.
  pub receive-response :
      (finished : Finished) (response : Bytes)
      → Plain (result (response_of nothing finished))
      → dumps f (result (response_of nothing finished)) ≡ ok response
      → receive f response ≡ outcome_of finished
  unfolding receive received result_of
  receive-response (Finished.returned v) response p h =
      rw (loads-dumps f (result (response_of nothing (Finished.returned v))) response faithful p h)
        refl
  receive-response (failed e) response p h =
      rw (loads-dumps f (result (response_of nothing (failed e))) response faithful p h) refl

  pub serve-call :
      (run : Ways) (server : Exporter) (tid : ℕ) (c m : Text.Bytes) (args : Values) (kwargs : Pairs)
      (buff response reply : Bytes)
      → Plain (request (call c m args kwargs))
      → dumps f (request (call c m args kwargs)) ≡ ok buff
      → dumps f (result (response_of nothing (invoke run server (call c m args kwargs))))
        ≡ ok response
      → generate_packet tid response ≡ some reply
      → serve f run server tid buff ≡ answered reply
  unfolding serve send_response received
  serve-call run server tid c m args kwargs buff response reply p sent wrote packed =
      ap (serve_loaded f run server tid)
        (loads-dumps f (request (call c m args kwargs)) buff faithful p sent)
      ∙ ap (sent_as tid) wrote
      ∙ rw packed refl
