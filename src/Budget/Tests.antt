-- ===== src/Budget/Tests.antt =====
-- Runs of `CommandBudget`, and its theorems at concrete inputs.
use Prim.Native.Nat.{ℕ, ◌+◌, ◌-◌, ◌*◌, ◌≤◌}
use beta.Base.{true, false, none, List, [], ◌∷◌, ◌++◌, length, ◌≡◌, refl, arith}
use beta.Command.{Command, flood_cost, supersedes, send_message, set_muted, request_file_list}
use beta.Budget.{
  CommandBudget, full_capacity, new, take_ready, enqueue, drain_ready, Op, enqueues, takes,
  degrades, run, step, replace_superseded,
}
use beta.Budget.Invariant.{IsValid, run-new-IsValid}
use beta.Budget.Rate.{total_cost, run-new-rate}
use beta.Budget.Order.{Enqueued, enqueue-Enqueued, drain_ready_lem}
use beta.Budget.Merge.{file_list_lost}

abbrev hello : Command
hello = send_message 2 0 (104 ∷ 105 ∷ [])

abbrev seconds : ℕ → ℕ
seconds n = n * 1_000_000_000

-- Five messages at once: four fit the burst of 8 tokens, the fifth waits for two thirds of a second.
abbrev burst : List Op
burst =
    enqueues hello
    ∷ enqueues hello
    ∷ enqueues hello
    ∷ enqueues hello
    ∷ enqueues hello
    ∷ takes 0
    ∷ takes 0
    ∷ takes 0
    ∷ takes 0
    ∷ takes 0
    ∷ takes (seconds 1)
    ∷ []

run-burst : length (run (new 0) burst).1 ≡ 5
unfolding run step new enqueue replace_superseded take_ready flood_cost supersedes
run-burst = refl

run-new-rate_example : total_cost (run (new 0) burst).1 ≤ full_capacity + 6 * (seconds 1 - 0)
run-new-rate_example = run-new-rate 0 (seconds 1) burst (omega arith) (omega arith)

run-new-IsValid_example : IsValid (run (new 0) (degrades 5 ∷ burst)).0
run-new-IsValid_example = run-new-IsValid 0 (degrades 5 ∷ burst)

abbrev muted_twice : CommandBudget
muted_twice = record {
  tokens = 0;
  capacity = full_capacity;
  refill_rate = 6;
  last_refill = 0;
  degraded_until = none;
  queue = set_muted true false ∷ hello ∷ [];
  dropped = 0;
}

enqueue-Enqueued_example :
    Enqueued (set_muted true true) muted_twice (enqueue muted_twice (set_muted true true))
enqueue-Enqueued_example = enqueue-Enqueued muted_twice (set_muted true true)

enqueue-muted_twice :
    (enqueue muted_twice (set_muted true true)).queue ≡ set_muted true true ∷ hello ∷ []
unfolding enqueue replace_superseded supersedes
enqueue-muted_twice = refl

-- After a quarter of a second there is enough for the cheap command only.
drain_ready_lem_example :
    ((drain_ready muted_twice 250_000_000).1 ++ (drain_ready muted_twice 250_000_000).0.queue
      ≡ set_muted true false ∷ hello ∷ [])
    × ((take_ready (drain_ready muted_twice 250_000_000).0 250_000_000).1 ≡ none)
drain_ready_lem_example = drain_ready_lem muted_twice 250_000_000

drain_ready-muted_twice : (drain_ready muted_twice 250_000_000).1 ≡ set_muted true false ∷ []
unfolding drain_ready take_ready flood_cost
drain_ready-muted_twice = refl

file_list_lost_example :
    enqueue
      (enqueue muted_twice (request_file_list 1 3 [] (47 ∷ [])))
      (request_file_list 2 4 [] (47 ∷ []))
    ≡ record muted_twice {
      queue = set_muted true false ∷ hello ∷ request_file_list 2 4 [] (47 ∷ []) ∷ [];
    }
unfolding supersedes
file_list_lost_example =
    file_list_lost muted_twice 1 2 3 4 [] [] (47 ∷ []) (47 ∷ []) (refl, (refl, tt)) (omega arith)
