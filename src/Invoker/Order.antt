-- ===== src/Invoker/Order.antt =====
-- invoker.py: the order of what an invocation asks of the pool and the connection.
use summerrpc.Prelude.{
  ℕ, ◌≡◌, refl, ap, ◌∙◌, Bool, true, false, Option, none, some, List, [], ◌∷◌, ◌++◌, ◌==◌, arith,
}
use summerrpc.Text.{Bytes}
use summerrpc.Exceptions.{
  Class, connection_error, connection_write_timeout, connection_read_timeout,
}
use summerrpc.Messages.{Value, Request, Exc, Object, request, result, foreign, Outcome, ok}
use summerrpc.Invoker.{
  Answer, given, timed_out, failed, World, Act, gets_connection, writes, awaits_write, reads,
  releases_connection, awaits_response, invoke, use_connection, with_connection, result_of,
  start_reading, await_write, await_response, send_and_await, of_answer, of_outcome, returned,
  raised, and_then, Run, reraised, act, finally,
}

-- Where an invocation is, with the connection that it holds.
pub data Phase : Type 0 where
  fresh : Phase
  refused : Phase
  holding : ℕ → Phase
  released : Phase

-- The phase when the connection in hand is the one that is meant, or none.
abbrev on_same : ℕ → ℕ → Phase → Option Phase
on_same c d p = elim (c == d) [ true ↦ some p | false ↦ none ]

-- What asking the pool leads to: its connection is in hand, or there is none.
abbrev pub asked : Outcome ℕ → Phase
asked (ok c) = holding c
asked (Outcome.raised e) = refused

module _ (pool : Outcome ℕ) where
  -- The phase after an act, given what the pool answers; none is an act out of order. Only the
  -- connection that the pool gave may be used and released.
  abbrev pub step : Phase → Act → Option Phase
  step fresh gets_connection = some (asked pool)
  step (holding c) (writes d buff) = on_same c d (holding c)
  step (holding c) (awaits_write t) = some (holding c)
  step (holding c) (reads d t) = on_same c d (holding c)
  step (holding c) (releases_connection d) = on_same c d released
  step released (awaits_response t) = some released
  step _ _ = none

  abbrev pub steps : Option Phase → List Act → Option Phase
  steps p [] = p
  steps p (a ∷ acts) = steps (elim p [ none ↦ none | some q ↦ step q a ]) acts

  abbrev pub lets_go : Phase → Bool
  lets_go (holding c) = false
  lets_go _ = true

  steps-append : (xs ys : List Act) (p : Option Phase) → steps p (xs ++ ys) ≡ steps (steps p xs) ys
  steps-append [] ys p = refl
  steps-append (x ∷ xs) ys p = steps-append xs ys _

  -- The acts are in order, and no connection is left in hand.
  abbrev pub InOrder {ℓ} : {A : Type ℓ} → List Act × A → Type 0
  InOrder r = (q : Phase) × (steps (some fresh) r.0 ≡ some q) × (lets_go q ≡ true)

  -- The acts follow one another from p, and the rest may be a release.
  abbrev Releases : ℕ → Phase → Run ℕ → Type 0
  Releases c p r = steps (some p) (r.0 ++ releases_connection c ∷ []) ≡ some released

  after_outcome :
      {A : Type 0} (c : ℕ) (p : Phase) (o : Outcome A) (k : A → Run ℕ)
      → Releases c p ([], raised connection_error)
      → ((a : A) → Releases c p (k a))
      → Releases c p (and_then (of_outcome o) k)
  after_outcome c p (ok a) k h g = g a
  after_outcome c p (Outcome.raised e) k h g = h

  after_answer :
      {A : Type 0} (c : ℕ) (p : Phase) (e : Class) (o : Answer A) (k : A → Run ℕ)
      → Releases c p ([], raised connection_error)
      → ((a : A) → Releases c p (k a))
      → Releases c p (and_then (of_answer e o) k)
  after_answer c p e (given a) k h g = g a
  after_answer c p e timed_out k h g = h
  after_answer c p e (failed d) k h g = h

  -- However its use ends, the connection is released after it.
  use_connection-Releases :
      (w : World) (buff : Bytes) (c : ℕ) → Releases c (holding c) (use_connection w buff c)
  unfolding use_connection
  use_connection-Releases w buff c =
      let own : (c == c) ≡ true = ground arith in
      let free : steps (some (holding c)) (releases_connection c ∷ []) ≡ some released =
        ap (λ (b : Bool). elim b as (λ _. Option Phase) [ true ↦ some released | false ↦ none ])
          own in
      let reading : (t : ℕ) → Releases c (holding c) (start_reading w c t) = λ t.
        ap
          (λ q. steps q (
            (and_then (of_outcome (w.read c t)) λ started. ([], returned t)).0
            ++ releases_connection c ∷ []))
          (ap
            (λ (b : Bool). elim b as (λ _. Option Phase) [ true ↦ some (holding c) | false ↦ none ])
            own)
        ∙ after_outcome c (holding c) (w.read c t) _ free (λ u. free) in
      let awaiting : (t : ℕ) → Releases c (holding c) (await_write w c t) = λ t.
        after_answer c (holding c) connection_write_timeout (w.write_result t) _ free
          (λ u. reading t) in
      ap
        (λ q. steps q (
          (and_then (of_outcome (w.write c buff)) (await_write w c)).0
          ++ releases_connection c ∷ []))
        (ap (λ (b : Bool). elim b as (λ _. Option Phase) [ true ↦ some (holding c) | false ↦ none ])
          own)
      ∙ after_outcome c (holding c) (w.write c buff) _ free awaiting

InOrder-with_connection :
    (w : World) (buff : Bytes)
    → InOrder w.get_connection (with_connection w (use_connection w buff))
unfolding with_connection
InOrder-with_connection w buff = on w.get_connection
  where
    on :
        (o : Outcome ℕ)
        → InOrder o (
            act gets_connection (
              and_then
                (of_outcome o)
                λ c. finally (releases_connection c) (use_connection w buff c)))
    on (ok c) = (released, use_connection-Releases (ok c) w buff c, refl)
    on (Outcome.raised e) = (refused, refl, refl)

-- The connection has been let go when its use was a success.
with_connection-returned :
    (w : World) (buff : Bytes) (t : ℕ)
    → (with_connection w (use_connection w buff)).1 ≡ returned t
    → steps w.get_connection (some fresh) (with_connection w (use_connection w buff)).0
      ≡ some released
unfolding with_connection
with_connection-returned w buff t = on w.get_connection
  where
    run : Outcome ℕ → Run ℕ
    run o =
        act gets_connection
          (and_then (of_outcome o) λ c. finally (releases_connection c) (use_connection w buff c))

    on : (o : Outcome ℕ) → (run o).1 ≡ returned t → steps o (some fresh) (run o).0 ≡ some released
    on (ok c) e = use_connection-Releases (ok c) w buff c
    on (Outcome.raised c) e = absurd (cc)

result_of-log : (obj : Object) → (result_of obj).0 ≡ []
unfolding result_of
result_of-log (request r) = refl
result_of-log (foreign n) = refl
result_of-log (result r) = go r.exc
  where
    go :
        (e : Option Exc)
        → (elim e as (λ _. Run Value) [
          | none ↦ ([], returned r.result)
          | some x ↦ ([], reraised x)
        ]).0
          ≡ []
    go none = refl
    go (some x) = refl

-- What follows once the connection is let go asks for nothing but the response.
await_response-steps :
    (w : World) (t : ℕ)
    → steps w.get_connection (some released) (await_response w t).0 ≡ some released
unfolding result_of
await_response-steps w t = on (w.read_result t)
  where
    last :
        (o : Outcome Object)
        → steps w.get_connection (some released) (and_then (of_outcome o) result_of).0
          ≡ some released
    last (ok obj) = ap (steps w.get_connection (some released)) (result_of-log obj)
    last (Outcome.raised c) = refl

    on :
        (a : Answer Bytes)
        → steps w.get_connection
            (some released)
            (act (awaits_response t) (
              and_then
                (of_answer connection_read_timeout a)
                λ response. and_then (of_outcome (w.loads response)) result_of)).0
          ≡ some released
    on (given b) = last (w.loads b)
    on timed_out = refl
    on (failed c) = refl

InOrder-send_and_await :
    (w : World) (buff : Bytes) → InOrder w.get_connection (send_and_await w buff)
InOrder-send_and_await w buff =
    on (with_connection w (use_connection w buff)) (InOrder-with_connection w buff)
      (with_connection-returned w buff)
  where
    on :
        (r : Run ℕ)
        → InOrder w.get_connection r
        → ((t : ℕ) → r.1 ≡ returned t → steps w.get_connection (some fresh) r.0 ≡ some released)
        → InOrder w.get_connection (and_then r (await_response w))
    on (log, returned t) h g = (
      released,
      steps-append w.get_connection log (await_response w t).0 (some fresh)
          ∙ ap (λ q. steps w.get_connection q (await_response w t).0) (g t refl)
          ∙ await_response-steps w t,
      refl,
    )
    on (log, raised c) h g = h
    on (log, reraised e) h g = h

-- Whatever the pool, the connection and the serializer answer, an invocation asks the pool for at
-- most one connection, uses only the one that the pool gives, releases just that one in any case, and
-- waits for the response only once it is released.
pub invoke-InOrder : (w : World) (req : Request) → InOrder w.get_connection (invoke w req)
unfolding invoke
invoke-InOrder w req = on (w.dumps req)
  where
    on : (o : Outcome Bytes) → InOrder w.get_connection (and_then (of_outcome o) (send_and_await w))
    on (ok buff) = InOrder-send_and_await w buff
    on (Outcome.raised c) = (fresh, refl, refl)
