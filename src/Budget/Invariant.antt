-- ===== src/Budget/Invariant.antt =====
-- `CommandBudget`: what holds of a budget between any two of its operations.
use Prim.Native.Nat.{ℕ, ◌+◌, ◌≤◌}
use beta.Base.{
  Option, none, some, List, [], ◌∷◌, ◌++◌, length, length-append, ◌≡◌, arith, inl, inr,
  Option-cases,
}
use beta.Command.{Command}
use beta.Budget.{
  CommandBudget, full_capacity, full_refill, degraded_capacity, degraded_refill, max_queue, new,
  enter_degraded, leave_degraded, credit, refill, replace_superseded, make_room, enqueue,
  take_front, take_ready, Op, enqueues, takes, degrades, step, run,
}

-- The settings are those of the mode that the budget is in.
abbrev pub SettingsFit : Option ℕ → ℕ → ℕ → Type 0
SettingsFit none capacity rate = (capacity ≡ full_capacity) × (rate ≡ full_refill)
SettingsFit (some until) capacity rate = (capacity ≡ degraded_capacity) × (rate ≡ degraded_refill)

pub record IsValid (b : CommandBudget) : Type 0 where
  pub settings : SettingsFit b.degraded_until b.capacity b.refill_rate
  pub balance : b.tokens ≤ b.capacity
  pub bounded : length b.queue ≤ max_queue

pub new-IsValid : (now : ℕ) → IsValid (new now)
unfolding new
new-IsValid now = ground arith

pub enter_degraded-IsValid :
    (b : CommandBudget) (now : ℕ) → IsValid b → IsValid (enter_degraded b now)
unfolding enter_degraded
enter_degraded-IsValid b now v = ground arith

pub leave_degraded-IsValid :
    (b : CommandBudget) (now : ℕ) → IsValid b → IsValid (leave_degraded b now)
unfolding leave_degraded
leave_degraded-IsValid b now v = ground arith

credit-IsValid : (b : CommandBudget) (now : ℕ) → IsValid b → IsValid (credit b now)
unfolding credit
credit-IsValid b now v = ground arith

pub refill-IsValid : (b : CommandBudget) (now : ℕ) → IsValid b → IsValid (refill b now)
unfolding refill
refill-IsValid b now v = credit-IsValid _ now (leave_degraded-IsValid b now v)

pub length-replace_superseded :
    (c : Command) (qs r : List Command) → replace_superseded c qs ≡ some r → length r ≡ length qs
unfolding replace_superseded
length-replace_superseded c [] r e = ground arith
length-replace_superseded c (q ∷ qs) [] e = ground arith
length-replace_superseded c (q ∷ qs) (x ∷ r) e = ground (arith, length-replace_superseded c qs r)

pub enqueue-IsValid : (b : CommandBudget) (c : Command) → IsValid b → IsValid (enqueue b c)
unfolding enqueue
enqueue-IsValid b c v = elim (Option-cases (replace_superseded c b.queue)) [
  | inl e ↦ ground (arith, e, roomy (make_room b))
  | inr (r, e) ↦ ground (arith, e, length-replace_superseded c b.queue r)
]
  where
    roomy : (a : CommandBudget) → length (a.queue ++ c ∷ []) ≡ length a.queue + 1
    roomy a = omega (arith, length-append a.queue (c ∷ []))

take_front-IsValid : (b : CommandBudget) → IsValid b → IsValid (take_front b).0
unfolding take_front
take_front-IsValid b v = ground arith

pub take_ready-IsValid : (b : CommandBudget) (now : ℕ) → IsValid b → IsValid (take_ready b now).0
unfolding take_ready
take_ready-IsValid b now v = take_front-IsValid (refill b now) (refill-IsValid b now v)

pub step-IsValid : (b : CommandBudget) (op : Op) → IsValid b → IsValid (step b op).0
unfolding step
step-IsValid b (enqueues c) v = enqueue-IsValid b c v
step-IsValid b (takes now) v = ground (arith, take_ready-IsValid b now v)
step-IsValid b (degrades now) v = enter_degraded-IsValid b now v

run-IsValid : (b : CommandBudget) (ops : List Op) → IsValid b → IsValid (run b ops).0
unfolding run
run-IsValid b [] v = v
run-IsValid b (op ∷ ops) v = run-IsValid (step b op).0 ops (step-IsValid b op v)

-- After any sequence of operations on a new budget the balance is within the capacity, the capacity
-- and the refill rate are those of the mode that the budget is in, and at most 32 commands wait.
pub run-new-IsValid : (now : ℕ) (ops : List Op) → IsValid (run (new now) ops).0
run-new-IsValid now ops = run-IsValid (new now) ops (new-IsValid now)
