-- ===== src/RpcServer/Runner.antt =====
-- rpc_server.py: `Runner`, the coroutine that reads the requests of one connection, runs them and
-- sends their responses. What the transport, the serializer and the methods do is in the events.
use summerrpc.Prelude.{
  ℕ, zero, suc, ◌+◌, ◌-◌, ◌≤◌, ◌≡◌, ◌↔◌, refl, sym, ap, length, get_elem?, if_cases, if_split,
  option_split, Bool, true, false, Option, none, some, List, [], ◌∷◌, arith, leb, ◌||◌, ◌&&◌,
  if◌then◌else◌,
}
use summerrpc.Exceptions.{
  Class, lookup_method_error, submit_task_to_process_pool_error, concurrency_error,
}

-- What the exporter says of a method: is it a coroutine, and does it want a process?
pub record Method : Type 0 where
  pub is_coroutine : Bool
  pub run_in_subprocess : Option Bool

-- Where a request runs, or the error that its future is given at once.
pub data Place : Type 0 where
  in_loop in_process in_thread : Place
  refused : Class → Place

abbrev pub wants_process : Method → Bool
wants_process m = elim m.run_in_subprocess [ none ↦ false | some b ↦ b ]

-- `_invoke` up to the future; the flags say which pools there are and whether submitting to the
-- process pool works.
unfoldable pub invoke : (has_processes has_threads can_submit : Bool) → Option Method → Place
invoke processes threads submits none = refused lookup_method_error
invoke processes threads submits (some m) =
    if m.is_coroutine
    then in_loop
    else (if wants_process m && processes
        then (if submits then in_process else refused submit_task_to_process_pool_error)
        else (if threads then in_thread else refused concurrency_error))

pub record Runner : Type 0 where
  pub concurrent_request_per_connection : ℕ
  pub current_concurrency : ℕ
  pub stream_closed : Bool
  pub is_waiting : Bool
  pub has_ended : Bool
  -- Requests that run, by transaction id, and responses that were sent, newest first.
  pub running : List (ℕ × Place)
  pub answered : ℕ

unfoldable pub init : ℕ → Runner
init limit = record {
  concurrent_request_per_connection = limit;
  current_concurrency = 0;
  stream_closed = false;
  is_waiting = false;
  has_ended = false;
  running = [];
  answered = 0;
}

-- What reading a request comes to. All errors but the closed stream close it.
pub data Reading : Type 0 where
  request : (transaction_id : ℕ) → Place → Reading
  unsatisfiable closed_stream undecodable not_a_request : Reading

read_one : Reading → Runner → Runner
read_one (request id place) r = record r {
  current_concurrency = r.current_concurrency + 1;
  running = (id, place) ∷ r.running;
}
read_one unsatisfiable r = record r { stream_closed = true; has_ended = true }
read_one closed_stream r = record r { has_ended = true }
read_one undecodable r = record r { stream_closed = true; has_ended = true }
read_one not_a_request r = record r { stream_closed = true; has_ended = true }

-- One turn of the loop of `_run`.
unfoldable pub turn : Reading → Runner → Runner
unfolding read_one
turn reading r =
    if r.has_ended || r.is_waiting
    then r
    else (if r.stream_closed
        then record r { has_ended = true }
        else (if leb r.concurrent_request_per_connection r.current_concurrency
            then record r { is_waiting = true }
            else read_one reading r))

-- Removes the first running request of a transaction id.
abbrev pub finish : ℕ → List (ℕ × Place) → List (ℕ × Place)
finish id [] = []
finish id (p ∷ ps) = if leb p.0 id && leb id p.0 then ps else p ∷ finish id ps

-- `_send_response`: on a closed stream it returns before the count goes down.
unfoldable pub send_response : ℕ → Runner → Runner
send_response id r =
    if r.stream_closed then record r { running = finish id r.running } else record r {
      current_concurrency = r.current_concurrency - 1;
      running = finish id r.running;
      is_waiting = false;
      answered = r.answered + 1;
    }

-- The server's `_on_connection_close` of this connection.
unfoldable pub close_stream : Runner → Runner
close_stream r = record r { stream_closed = true; is_waiting = false }

-- A turn of the loop, the end of the n-th of the requests that run, or of the stream.
pub data Event : Type 0 where
  turns : Reading → Event
  responds : ℕ → Event
  closes : Event

unfoldable pub step : Runner → Event → Runner
unfolding turn send_response close_stream
step r (turns reading) = turn reading r
step r (responds n) = elim (get_elem? r.running n) [ none ↦ r | some p ↦ send_response p.0 r ]
step r closes = close_stream r

unfoldable pub run : Runner → List Event → Runner
run r [] = r
run r (e ∷ es) = run (step r e) es

-- The limit is `n`; not more than that run; and while the stream is open, the count is theirs.
record Limited (n : ℕ) (r : Runner) : Type 0 where
  limit : r.concurrent_request_per_connection ≡ n
  most : length r.running ≤ n
  counted : r.stream_closed ≡ false → r.current_concurrency ≡ length r.running

length-finish :
    (ps : List (ℕ × Place)) (k : ℕ) (p : ℕ × Place)
    → get_elem? ps k ≡ some p
    → length ps ≡ suc (length (finish p.0 ps))
length-finish [] k p e = absurd (cc)
length-finish (q ∷ qs) zero p e =
    let own : q.0 ≡ p.0 = cc in
    let same : (leb q.0 p.0 && leb p.0 q.0) ≡ true = ground (arith, own) in
    ap suc (sym (ap (λ b. length (if b then qs else q ∷ finish p.0 qs)) same))
length-finish (q ∷ qs) (suc k) p e =
    if_cases (λ l. length (q ∷ qs) ≡ suc (length l)) (leb q.0 p.0 && leb p.0 q.0) refl
      (ap suc (length-finish qs k p e))

turn-Limited : (n : ℕ) (reading : Reading) (r : Runner) → Limited n r → Limited n (turn reading r)
unfolding turn read_one
turn-Limited n reading r h = if_cases (Limited n) (r.has_ended || r.is_waiting) h (
    if_split (Limited n) r.stream_closed
      (λ c. record { limit = h.limit; most = h.most; counted = λ o. absurd (cc) })
      λ live.
        if_split (Limited n) (leb r.concurrent_request_per_connection r.current_concurrency)
          (λ full. record { limit = h.limit; most = h.most; counted = h.counted })
          λ room. one reading live room)
  where
    one :
        (x : Reading)
        → r.stream_closed ≡ false
        → leb r.concurrent_request_per_connection r.current_concurrency ≡ false
        → Limited n (read_one x r)
    one (request id place) o room =
        let c = h.counted o in
        let l = h.limit in
        record { limit = l; most = ground (arith, c, l, room); counted = λ o'. omega (arith, c) }
    one Reading.unsatisfiable o room = record {
      limit = h.limit;
      most = h.most;
      counted = λ c. absurd (cc);
    }
    one Reading.closed_stream o room = record {
      limit = h.limit;
      most = h.most;
      counted = h.counted;
    }
    one Reading.undecodable o room = record {
      limit = h.limit;
      most = h.most;
      counted = λ c. absurd (cc);
    }
    one Reading.not_a_request o room = record {
      limit = h.limit;
      most = h.most;
      counted = λ c. absurd (cc);
    }

send_response-Limited :
    (n k : ℕ) (r : Runner) (p : ℕ × Place)
    → get_elem? r.running k ≡ some p
    → Limited n r
    → Limited n (send_response p.0 r)
unfolding send_response
send_response-Limited n k r p e h =
    let l = length-finish r.running k p e in
    let m = h.most in
    if_split (Limited n) r.stream_closed
      (λ c. record { limit = h.limit; most = omega (arith, l, m); counted = λ o. absurd (cc) })
      (λ o.
        let same = h.counted o in
        record {
          limit = h.limit;
          most = omega (arith, l, m);
          counted = λ o'. omega (arith, l, same);
        })

step-Limited : (n : ℕ) (r : Runner) (e : Event) → Limited n r → Limited n (step r e)
unfolding step close_stream
step-Limited n r (turns reading) h = turn-Limited n reading r h
step-Limited n r (responds k) h =
    option_split (Limited n) (get_elem? r.running k) (λ e. h)
      (λ p e. send_response-Limited n k r p e h)
step-Limited n r Event.closes h = record {
  limit = h.limit;
  most = h.most;
  counted = λ o. absurd (cc);
}

run-Limited : (n : ℕ) (r : Runner) (es : List Event) → Limited n r → Limited n (run r es)
unfolding run
run-Limited n r [] h = h
run-Limited n r (e ∷ es) h = run-Limited n (step r e) es (step-Limited n r e h)

-- However requests arrive and finish, and whenever the stream closes: never more requests of a
-- runner run than its limit, and while the stream is open, its count is the number of those that do.
pub current_concurrency-run :
    (n : ℕ) (es : List Event)
    → let r = run (init n) es in
      (length r.running ≤ n) × (r.stream_closed ≡ false → r.current_concurrency ≡ length r.running)
unfolding init
current_concurrency-run n es =
    let h =
      run-Limited n (init n) es
        (record { limit = refl; most = omega arith; counted = λ o. refl }) in
    (h.most, h.counted)

-- A request of an exported method runs in a process exactly if the method is no coroutine and asks
-- for a process, there is a process pool and the pool takes it.
pub invoke-in_process :
    (processes threads submits : Bool) (m : Method)
    → (invoke processes threads submits (some m) ≡ in_process)
      ↔ (m.is_coroutine ≡ false) × (wants_process m ≡ true) × (processes ≡ true) × (submits ≡ true)
unfolding invoke
invoke-in_process processes threads submits m = (
  λ e. (ground (arith, e), ground (arith, e), ground (arith, e), ground (arith, e)),
  λ (a, b, c, d). ground (arith, a, b, c, d),
)
