-- ===== src/Calls/Whole.antt =====
-- A call from the reference to a class to the instance of the class on a server: stub.py, exporter.py
-- and what lies between them.
use summerrpc.Prelude.{◌≡◌, ap, if◌then◌else◌, false, Bool, true, ℕ, Option, some, ◌∙◌}
use summerrpc.Text
use summerrpc.Messages.{Values, Pairs, nothing, sequence, dict, request, result, ok}
use summerrpc.Serializer.{Format, dumps}
use summerrpc.Serializer.RoundTrip.{IsFaithful, Plain}
use summerrpc.Exporter.{is_private, Method, Exporter, export, get_method}
use summerrpc.Exporter.Names.{is_taken}
use summerrpc.Transport.{Bytes, generate_packet}
use summerrpc.ReferArgument.{ReferArgument}
use summerrpc.Stub.{ClassObject, Refer, Stub, proxy, getattr, refer, request_of}
use summerrpc.Stub.Naming.{IsPlain, Only, proxy-get_method}
use summerrpc.Calls.{Ways, Finished, invoke, invoked, response_of, serve, answered, receive}
use summerrpc.Calls.Trip.{call, outcome_of, receive-response, serve-call}

-- A request whose names find a method runs that method with its arguments.
invoke-get_method :
    (run : Ways) (server : Exporter) (c m : Text.Bytes) (args : Values) (kwargs : Pairs)
    (method : Method)
    → get_method c m server ≡ some method
    → run.in_process method ≡ false
    → invoke run server (call c m args kwargs) ≡ run.run method (sequence args) (dict kwargs)
unfolding invoke
invoke-get_method run server c m args kwargs method h e =
    ap (invoked run (call c m args kwargs)) h
    ∙ ap
        (λ (b : Bool).
          run.run (if b then record method { attr_name = m } else method) (sequence args)
            (dict kwargs))
        e

module _ (f : Format) (run : Ways) where
  -- What the method `name` of the next instance that a server makes gives.
  abbrev pub finished_by : Exporter → Text.Bytes → Values → Pairs → Finished
  finished_by server name args kwargs =
      run.run (record { instance_ = server.instances; attr_name = name }) (sequence args)
        (dict kwargs)

  -- Let a reference be made to a class, and a server have taken the same class. When `getattr` finds
  -- the public attribute `name` among the class's own, it is a proxy that sends `m`, by which no other
  -- method goes, the server does not run it in a process, and both ends can write and pack what they
  -- send, which is plain, then the server answers the request of the proxy by running
  -- the method `name` of its instance of the class with the arguments of the call, and the caller
  -- gets from the answer that method's value, or its exception as a RuntimeError of the same text.
  pub proxy-runs :
      {A : Type 0}
      → (c : ClassObject) (argument : Option ReferArgument) (stub : Stub A) (r : Refer A)
        (cover : Bool) (server : Exporter) (name m : Text.Bytes) (args : Values) (kwargs : Pairs)
        (tid : ℕ) (buff response reply : Bytes)
      → IsFaithful f
      → refer (some c) argument stub ≡ ok r
      → is_taken c.cls cover server ≡ true
      → IsPlain c name
      → Only m name c.cls.attributes
      → is_private name ≡ false
      → getattr name r ≡ ok (proxy m)
      → run.in_process (record { instance_ = server.instances; attr_name = name }) ≡ false
      → Plain (request (request_of m args kwargs r))
      → dumps f (request (request_of m args kwargs r)) ≡ ok buff
      → Plain (result (response_of nothing (finished_by server name args kwargs)))
      → dumps f (result (response_of nothing (finished_by server name args kwargs))) ≡ ok response
      → generate_packet tid response ≡ some reply
      → (serve f run (export (some c.cls) cover server) tid buff ≡ answered reply)
        × (receive f response ≡ outcome_of (finished_by server name args kwargs))
  proxy-runs c argument stub r cover server name m args kwargs tid buff response reply faithful made
        taken plain only public found inside fine sent fine' wrote packed =
      let exported = export (some c.cls) cover server in
      let ran =
        invoke-get_method run exported r.class_name m args kwargs
          (record { instance_ = server.instances; attr_name = name })
          (proxy-get_method c argument stub r cover server name m made taken plain only public
            found)
          inside in
      (
        serve-call f faithful run exported tid r.class_name m args kwargs buff response reply fine
            sent (ap (λ x. dumps f (result (response_of nothing x))) ran ∙ wrote) packed,
        receive-response f faithful (finished_by server name args kwargs) response fine' wrote,
      )
