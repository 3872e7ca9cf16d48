-- ===== src/Invoker/Answers.antt =====
-- invoker.py with extension/base_serializer.py: what a caller gets of what the server's method did.
use summerrpc.Prelude.{ℕ, ◌≡◌, refl, ap, ◌∙◌, Option, none, some, []}
use summerrpc.Exceptions.{connection_read_timeout}
use summerrpc.Text.{Bytes}
use summerrpc.Messages.{Value, Request, Exc, Result, result, ok}
use summerrpc.Serializer.{Format, dumps, loads}
use summerrpc.Serializer.RoundTrip.{IsFaithful, Plain, received, reraised, loads-dumps}
use summerrpc.Invoker.{
  World, Run, End, returned, raised, and_then, of_outcome, of_answer, given, result_of, invoke,
  send_and_await, use_connection, with_connection, await_response,
}
use summerrpc.Invoker

-- How an invocation ends whose method returned a value or raised an exception.
pub end_of : Result → End Value
end_of r = elim (reraised r.exc) [ none ↦ returned r.result | some e ↦ Invoker.reraised e ]

result_of-received :
    (r : Result) → (result_of (result (record r { exc = reraised r.exc }))).1 ≡ end_of r
unfolding result_of end_of
result_of-received r = go (reraised r.exc)
  where
    go :
        (e : Option Exc)
        → (elim e as (λ _. Run Value) [
          | none ↦ ([], returned r.result)
          | some x ↦ ([], Invoker.reraised x)
        ]).1
          ≡ elim e [ none ↦ returned r.result | some x ↦ Invoker.reraised x ]
    go none = refl
    go (some x) = refl

and_then-returned :
    {A B : Type 0} (x : Run A) (k : A → Run B) (a : A)
    → x.1 ≡ returned a
    → (and_then x k).1 ≡ (k a).1
and_then-returned (log, returned b) k a e = ap (λ x. (k x).1) (cc)
and_then-returned (log, raised c) k a e = absurd (cc)
and_then-returned (log, Invoker.reraised c) k a e = absurd (cc)

-- When the request is written, and the response is what the server's serializer wrote of a result,
-- of plain values in a format that reads back what it writes of these, then the caller gets the method's value, or, when the
-- method raised, a RuntimeError with the name and the text of its exception.
pub invoke-dumps :
    (w : World) (req : Request) (self : Format) (r : Result) (sent answer : Bytes) (id : ℕ)
    → IsFaithful self
    → Plain (result r)
    → w.dumps req ≡ ok sent
    → (with_connection w (use_connection w sent)).1 ≡ returned id
    → w.read_result id ≡ given answer
    → w.loads ≡ loads self
    → dumps self (result r) ≡ ok answer
    → (invoke w req).1 ≡ end_of r
unfolding invoke received
invoke-dumps w req self r sent answer id f p d c a l b =
    let loaded : w.loads answer ≡ ok (result (record r { exc = reraised r.exc })) =
      ap (λ g. g answer) l ∙ loads-dumps self (result r) answer f p b in
    ap (λ o. (and_then (of_outcome o) (send_and_await w)).1) d
    ∙ and_then-returned (with_connection w (use_connection w sent)) (await_response w) id c
    ∙ ap
        (λ o.
          (and_then (of_answer connection_read_timeout o)
            λ response. and_then (of_outcome (w.loads response)) result_of).1)
        a
    ∙ ap (λ o. (and_then (of_outcome o) result_of).1) loaded
    ∙ result_of-received r
