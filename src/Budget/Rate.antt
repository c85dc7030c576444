-- ===== src/Budget/Rate.antt =====
-- `CommandBudget`: how fast commands can leave it.
use Prim.Native.Nat.{ℕ, ◌+◌, ◌-◌, ◌*◌, ◌≤◌}
use beta.Base.{List, [], ◌∷◌, ◌++◌, ◌≡◌, refl, arith, none, some}
use beta.Command.{Command, flood_cost}
use beta.Budget.{
  CommandBudget, full_capacity, new, enter_degraded, leave_degraded, credit, refill, make_room,
  push_back, enqueue, take_front, take_ready, Op, enqueues, takes, degrades, step, run,
}
use beta.Budget.Invariant.{IsValid, new-IsValid, leave_degraded-IsValid, step-IsValid}

-- The tokens that a list of commands costs.
abbrev pub total_cost : List Command → ℕ
total_cost [] = 0
total_cost (c ∷ cs) = flood_cost c + total_cost cs

pub total_cost-append :
    (cs ds : List Command) → total_cost (cs ++ ds) ≡ total_cost cs + total_cost ds
total_cost-append [] ds = omega arith
total_cost-append (c ∷ cs) ds = omega (arith, total_cost-append cs ds)

-- No operation after the time `t`.
abbrev pub Before : ℕ → List Op → Type 0
Before t [] = Unit {0}
Before t (enqueues c ∷ ops) = Before t ops
Before t (takes now ∷ ops) = (now ≤ t) × Before t ops
Before t (degrades now ∷ ops) = (now ≤ t) × Before t ops

-- From `b` to `a` commands of cost `spent` were released: the tokens that came in are at most six
-- units for each nanosecond of the time that the refills cover.
record Paid (b a : CommandBudget) (spent : ℕ) : Type 0 where
  covers : b.last_refill ≤ a.last_refill
  funded : spent + a.tokens + 6 * b.last_refill ≤ b.tokens + 6 * a.last_refill

leave_degraded-Paid : (b : CommandBudget) (now : ℕ) → Paid b (leave_degraded b now) 0
unfolding leave_degraded
leave_degraded-Paid b now = ground arith

mul_le : (x rate : ℕ) → rate ≤ 6 → x * rate ≤ 6 * x
mul_le x rate h = grind arith

credit-Paid : (b : CommandBudget) (now : ℕ) → b.refill_rate ≤ 6 → Paid b (credit b now) 0
unfolding credit
credit-Paid b now h = ground (arith, mul_le (now - b.last_refill) b.refill_rate)

refill-Paid : (b : CommandBudget) (now : ℕ) → IsValid b → Paid b (refill b now) 0
unfolding refill
refill-Paid b now v = ground (
  arith,
  leave_degraded-Paid b now,
  leave_degraded-IsValid b now v,
  credit-Paid (leave_degraded b now) now,
)

take_front-Paid :
    (b : CommandBudget)
    → Paid b (take_front b).0 (elim (take_front b).1 [ none ↦ 0 | some c ↦ flood_cost c ])
unfolding take_front
take_front-Paid b = ground arith

step-Paid :
    (b : CommandBudget) (op : Op) → IsValid b → Paid b (step b op).0 (total_cost (step b op).1)
unfolding step take_ready
step-Paid b (enqueues c) v = unfold enqueue make_room push_back in ground arith
step-Paid b (takes now) v = ground (arith, refill-Paid b now v, take_front-Paid (refill b now))
step-Paid b (degrades now) v = unfold enter_degraded in ground arith

run-Paid :
    (b : CommandBudget) (ops : List Op)
    → IsValid b
    → Paid b (run b ops).0 (total_cost (run b ops).1)
unfolding run
run-Paid b [] v = omega arith
run-Paid b (op ∷ ops) v = omega (
  arith,
  step-Paid b op v,
  run-Paid (step b op).0 ops (step-IsValid b op v),
  total_cost-append (step b op).1 (run (step b op).0 ops).1,
)

last_refill-step :
    (t : ℕ) (b : CommandBudget) (op : Op) (ops : List Op)
    → Before t (op ∷ ops)
    → b.last_refill ≤ t
    → ((step b op).0.last_refill ≤ t) × Before t ops
unfolding step
last_refill-step t b (enqueues c) ops h l = unfold enqueue make_room push_back in ground arith
last_refill-step t b (takes now) ops h l =
    unfold take_ready take_front refill leave_degraded credit in ground arith
last_refill-step t b (degrades now) ops h l = unfold enter_degraded in ground arith

last_refill-run :
    (t : ℕ) (b : CommandBudget) (ops : List Op)
    → Before t ops
    → b.last_refill ≤ t
    → (run b ops).0.last_refill ≤ t
unfolding run
last_refill-run t b [] h l = l
last_refill-run t b (op ∷ ops) h l =
    let (l', h') = last_refill-step t b op ops h l in last_refill-run t (step b op).0 ops h' l'

new_starts : (now : ℕ) → ((new now).last_refill ≡ now) × ((new now).tokens ≡ full_capacity)
unfolding new
new_starts now = (refl, refl)

-- Whatever is queued and whenever the server complains, the commands that a new budget releases
-- up to a time `t` cost at most 8 tokens and 3 tokens more for each second since it was made.
pub run-new-rate :
    (now t : ℕ) (ops : List Op)
    → now ≤ t
    → Before t ops
    → total_cost (run (new now) ops).1 ≤ full_capacity + 6 * (t - now)
run-new-rate now t ops h before = omega (
  arith,
  run-Paid (new now) ops (new-IsValid now),
  last_refill-run t (new now) ops before (unfold new in h),
  new_starts now,
)
