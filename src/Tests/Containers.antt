-- ===== src/Tests/Containers.antt =====
-- Lists, caches, pools, counters and errors: the theorems at concrete inputs.
use summerrpc.Prelude.{
  ℕ, zero, suc, ◌+◌, ◌-◌, ◌*◌, ◌%◌, ◌/◌, ◌≤◌, ◌≡◌, refl, false, true, some, List, [], ◌∷◌, arith,
}
use summerrpc.Prelude.Int.{pos}
use summerrpc.StaticList as Stack
use summerrpc.StaticList.Full as StackFull
use summerrpc.Lru
use summerrpc.Lru.Runs
use summerrpc.Iterator
use summerrpc.ConnectionPool.{World, initialize_connections, shared, close_shared}
use summerrpc.ConnectionPool
use summerrpc.ConnectionPool.Choosing
use summerrpc.ConnectionPool.Closing
use summerrpc.RetryPolicy
use summerrpc.TokenBucket

-- Keys whose hash code is their last digit.
abbrev hash : ℕ → ℕ
hash k = k % 10

abbrev cache_calls : List (Runs.Call ℕ ℕ)
cache_calls =
    Runs.store 1 11
    ∷ Runs.store 2 22
    ∷ Runs.read 1
    ∷ Runs.store 3 33
    ∷ Runs.read 2
    ∷ Runs.items
    ∷ []

abbrev empty_cache : Lru.Cache ℕ ℕ
empty_cache = Lru.init 0 0 (some 2)

run-list_run_example :
    Runs.run hash empty_cache cache_calls ≡ Runs.list_run hash empty_cache.max_size [] cache_calls
run-list_run_example = Runs.run-list_run hash 0 0 (some 2) cache_calls

abbrev stack_calls : List (StackFull.Call ℕ)
stack_calls =
    StackFull.push 1
    ∷ StackFull.push 2
    ∷ StackFull.push 3
    ∷ StackFull.pop
    ∷ StackFull.push 4
    ∷ StackFull.pop
    ∷ StackFull.pop
    ∷ StackFull.pop
    ∷ []

run-stack_run_example :
    StackFull.run (Stack.init 2) stack_calls ≡ StackFull.stack_run 2 [] stack_calls
run-stack_run_example = StackFull.run-stack_run 1 stack_calls

abbrev two_connections : Iterator.Iterator ℕ
two_connections = record { it = 4 ∷ 6 ∷ []; cursor = pos 1 }

close_shared-all_example :
    close_shared two_connections ≡ (4 ∷ 6 ∷ [], record { it = []; cursor = pos 0 })
close_shared-all_example = Closing.close_shared-all two_connections

abbrev new_world : World
new_world = record { made = 10; shut = [] }

-- The first two attempts fail.
abbrev third_time : ℕ → RetryPolicy.Attempt ℕ
third_time zero = RetryPolicy.caught
third_time (suc zero) = RetryPolicy.caught
third_time (suc (suc n)) = RetryPolicy.returns 42

may_try_2 : RetryPolicy.may_try (pos 2) 2 ≡ true
unfolding RetryPolicy.may_try
may_try_2 = refl

run-returns_example : RetryPolicy.run (2 + 1) (pos 2) third_time ≡ (RetryPolicy.returned 42, 2)
run-returns_example =
    RetryPolicy.run-returns (pos 2) third_time 2 0 42 may_try_2 (refl, (refl, tt)) refl

-- A token each ten milliseconds.
abbrev bucket_calls : List (ℕ × ℕ)
bucket_calls = (20, 1) ∷ (21, 4) ∷ (55, 2) ∷ []

abbrev bucket : TokenBucket.Bucket
bucket = record { capacity = 4; last_refresh_time = 18; consumed_tokens = 3 }

ten_ms : TokenBucket.IsRate (λ t. t / 10) (λ n. n * 10) 10
ten_ms = record { rounds_down = λ t. omega arith; slow = λ n. omega arith }

granted-run_example :
    10 * (TokenBucket.run (λ t. t / 10) (λ n. n * 10) bucket_calls bucket).0 ≤ 10 * 4 + (60 - 18)
granted-run_example =
    TokenBucket.granted-run (λ t. t / 10) (λ n. n * 10) 10 60 bucket_calls bucket ten_ms
      (omega arith, (omega arith, (omega arith, omega arith))) (omega arith)

-- A container of the closed connection 3.
abbrev one_closed : ConnectionPool.Pool ℕ (List ℕ)
one_closed = record {
  pool = (1, 0) ∷ [];
  connection_pool_size = 2;
  connections_per_key = 1;
  closed = false;
  boxes = λ _. 3 ∷ [];
  next_box = 1;
}

abbrev old_world : World
old_world = record { made = 5; shut = 3 ∷ [] }

choice_loop-Ends_example :
    (o : ConnectionPool.Outcome ℕ) × ((ConnectionPool.choice_loop hash
        (ConnectionPool.dedicate true)
        (λ _. true)
        2
        0
        one_closed
        old_world).0
      ≡ some o)
    × Choosing.Sound true 1 (3 ∷ []) o
choice_loop-Ends_example =
    Choosing.choice_loop-Ends hash (λ _. true) 0 true (3 ∷ []) [] 0 one_closed old_world refl tt
      (omega arith, tt)
