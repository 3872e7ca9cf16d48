-- ===== src/Invoker.antt =====
-- invoker.py: `RpcInvoker.invoke`, and `get_connection_from_pool` of connection_pool.py, whose
-- connection it uses. What the pool, the connection, its futures and the serializer answer is a
-- record of answers; the log holds what is asked of them, in order.
pub mod Order
pub mod Answers
use summerrpc.Prelude.{ℕ, Bool, true, false, Option, none, some, List, [], ◌∷◌, ◌++◌}
use summerrpc.Exceptions.{
  Class, connection_write_timeout, connection_read_timeout, invalid_response_error,
}
use summerrpc.Text.{Bytes}
use summerrpc.Messages.{Value, Request, Exc, Result, Object, request, result, foreign, Outcome, ok}
use summerrpc.Messages

-- What `future.result(timeout)` does.
pub data Answer (A : Type 0) : Type 0 where
  given : A → Answer A
  timed_out : Answer A
  failed : Class → Answer A

pub record World : Type 0 where
  pub dumps : Request → Outcome Bytes
  pub get_connection : Outcome ℕ
  pub write : ℕ → Bytes → Outcome ℕ
  pub write_result : ℕ → Answer Unit
  pub read : ℕ → ℕ → Outcome Unit
  pub read_result : ℕ → Answer Bytes
  pub loads : Bytes → Outcome Object

pub data Act : Type 0 where
  gets_connection : Act
  writes : ℕ → Bytes → Act
  awaits_write : ℕ → Act
  reads : ℕ → ℕ → Act
  releases_connection : ℕ → Act
  awaits_response : ℕ → Act

-- How an invocation ends; `reraised` is the exception that the result carries.
pub data End (A : Type 0) : Type 0 where
  returned : A → End A
  raised : Class → End A
  reraised : Exc → End A

abbrev pub Run : Type 0 → Type 0
Run A = List Act × End A

abbrev pub raise : {A : Type 0} → Class → Run A
raise c = ([], raised c)

-- An act, then the rest.
abbrev pub act : {A : Type 0} → Act → Run A → Run A
act a (log, end) = (a ∷ log, end)

abbrev pub and_then : {A B : Type 0} → Run A → (A → Run B) → Run B
and_then (log, returned a) k = (log ++ (k a).0, (k a).1)
and_then (log, raised c) k = (log, raised c)
and_then (log, reraised e) k = (log, reraised e)

abbrev pub of_outcome : {A : Type 0} → Outcome A → Run A
of_outcome (ok a) = ([], returned a)
of_outcome (Outcome.raised c) = raise c

-- A timeout is the error that is named.
abbrev pub of_answer : {A : Type 0} → Class → Answer A → Run A
of_answer e (given a) = ([], returned a)
of_answer e timed_out = raise e
of_answer e (failed c) = raise c

-- `finally: pool.release_connection(key, connection)`
abbrev pub finally : {A : Type 0} → Act → Run A → Run A
finally a (log, end) = (log ++ a ∷ [], end)

abbrev pub start_reading : World → ℕ → ℕ → Run ℕ
start_reading w connection transaction_id = act (reads connection transaction_id) (
    and_then (of_outcome (w.read connection transaction_id))
      λ started. ([], returned transaction_id))

abbrev pub await_write : World → ℕ → ℕ → Run ℕ
await_write w connection transaction_id = act (awaits_write transaction_id) (
    and_then (of_answer connection_write_timeout (w.write_result transaction_id))
      λ done. start_reading w connection transaction_id)

-- What is done with the connection: the identifier of the packet.
unfoldable pub use_connection : World → Bytes → ℕ → Run ℕ
use_connection w buff connection =
    act (writes connection buff)
      (and_then (of_outcome (w.write connection buff)) (await_write w connection))

-- The `with` statement over `get_connection_from_pool`.
unfoldable pub with_connection : {A : Type 0} → World → (ℕ → Run A) → Run A
with_connection w body = act gets_connection (
    and_then (of_outcome w.get_connection)
      λ connection. finally (releases_connection connection) (body connection))

unfoldable pub result_of : Object → Run Value
result_of (result r) = elim r.exc [ none ↦ ([], returned r.result) | some e ↦ ([], reraised e) ]
result_of (request r) = raise invalid_response_error
result_of (foreign n) = raise invalid_response_error

abbrev pub await_response : World → ℕ → Run Value
await_response w transaction_id = act (awaits_response transaction_id) (
    and_then (of_answer connection_read_timeout (w.read_result transaction_id))
      λ response. and_then (of_outcome (w.loads response)) result_of)

abbrev pub send_and_await : World → Bytes → Run Value
send_and_await w buff = and_then (with_connection w (use_connection w buff)) (await_response w)

-- `RpcInvoker.invoke`
unfoldable pub invoke : World → Request → Run Value
unfolding use_connection with_connection result_of
invoke w req = and_then (of_outcome (w.dumps req)) (send_and_await w)
