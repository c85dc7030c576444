-- ===== src/Budget/Progress.antt =====
-- `CommandBudget`: a command that waits is released.
use Prim.Native.Nat.{ℕ, ◌+◌, ◌≤◌}
use beta.Base.{none, some, List, [], ◌∷◌, ◌≡◌, arith}
use beta.Command.{Command, flood_cost}
use beta.Budget.{
  CommandBudget, degraded_capacity, leave_degraded, credit, refill, take_front, take_ready, enqueue,
  replace_superseded, push_back, drain, drain_ready,
}
use beta.Budget.Invariant.{IsValid, enqueue-IsValid}

-- No command costs more than the capacity of the degraded mode.
flood_cost-le : (c : Command) → flood_cost c ≤ degraded_capacity
unfolding flood_cost
flood_cost-le c = ground arith

-- After four seconds the balance pays for any command, in either mode.
refill_affords :
    (b : CommandBudget) (now : ℕ)
    → IsValid b
    → b.last_refill + 4_000_000_000 ≤ now
    → degraded_capacity ≤ (refill b now).tokens
unfolding refill leave_degraded credit
refill_affords b now v h = ground arith

queue-refill : (b : CommandBudget) (now : ℕ) → (refill b now).queue ≡ b.queue
unfolding refill leave_degraded credit
queue-refill b now = ground arith

-- Four seconds after the last refill the command at the front is released, whatever it costs and
-- also in the degraded mode, and the commands behind it stay.
take_ready_progress :
    (b : CommandBudget) (now : ℕ) (c : Command) (rest : List Command)
    → IsValid b
    → b.queue ≡ c ∷ rest
    → b.last_refill + 4_000_000_000 ≤ now
    → ((take_ready b now).1 ≡ some c) × ((take_ready b now).0.queue ≡ rest)
unfolding take_ready take_front
take_ready_progress b now c rest v e h =
    ground (arith, flood_cost-le c, refill_affords b now v h, queue-refill b now)

take_ready-empty : (b : CommandBudget) (now : ℕ) → b.queue ≡ [] → (take_ready b now).1 ≡ none
unfolding take_ready take_front
take_ready-empty b now e = ground (arith, queue-refill b now)

enqueue-empty :
    (b : CommandBudget) (c : Command)
    → b.queue ≡ []
    → ((enqueue b c).queue ≡ c ∷ []) × ((enqueue b c).last_refill ≡ b.last_refill)
unfolding enqueue replace_superseded push_back
enqueue-empty b c e = ground arith

-- A command that comes when none waits, and four seconds after the last refill, is released at once.
pub drain_ready-enqueue :
    (b : CommandBudget) (now : ℕ) (c : Command)
    → IsValid b
    → b.queue ≡ []
    → b.last_refill + 4_000_000_000 ≤ now
    → (drain_ready (enqueue b c) now).1 ≡ c ∷ []
unfolding drain_ready drain
drain_ready-enqueue b now c v e h =
    let (waits, refilled) = enqueue-empty b c e in
    let (taken, left) =
      take_ready_progress (enqueue b c) now c [] (enqueue-IsValid b c v) waits
        (omega (arith, refilled)) in
    let rest = take_ready-empty (take_ready (enqueue b c) now).0 now left in
    ground (arith, waits, taken, rest)
