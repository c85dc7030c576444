-- ===== src/Budget/Runs.antt =====
-- Runs of `CommandBudget` as a relation between budgets, with the operations left out of sight: how
-- what the event loop does with the budget of a session composes.
use Prim.Native.Nat.{ℕ, zero, suc, ◌≤◌}
use mathlib.Core.List.{append_assoc, append-nil}
use beta.Base.{List, [], ◌∷◌, ◌++◌, length, ◌≡◌, refl, ap, subst, arith, inl, inr, Option-cases}
use beta.Command.{Command}
use beta.Budget.{
  CommandBudget, Op, enqueues, takes, degrades, step, run, enter_degraded, enqueue, take_ready,
  drain, drain_ready,
}
use beta.Budget.Rate.{Before}

-- Operations up to the time `t` that take a budget to another one and release commands.
pub record Runs (t : ℕ) (b : CommandBudget) (cs : List Command) (b' : CommandBudget) : Type 0 where
  pub ops : List Op
  pub before : Before t ops
  pub ran : run b ops ≡ (b', cs)

Before-append : (t : ℕ) (xs ys : List Op) → Before t xs → Before t ys → Before t (xs ++ ys)
Before-append t [] ys h k = k
Before-append t (enqueues c ∷ xs) ys h k = Before-append t xs ys h k
Before-append t (takes now ∷ xs) ys h k = (h.0, Before-append t xs ys h.1 k)
Before-append t (degrades now ∷ xs) ys h k = (h.0, Before-append t xs ys h.1 k)

run-append :
    (b : CommandBudget) (xs ys : List Op)
    → run b (xs ++ ys) ≡ ((run (run b xs).0 ys).0, (run b xs).1 ++ (run (run b xs).0 ys).1)
unfolding run
run-append b [] ys = refl
run-append b (x ∷ xs) ys = ground (
  arith,
  run-append (step b x).0 xs ys,
  append_assoc (step b x).1 (run (step b x).0 xs).1 (run (run (step b x).0 xs).0 ys).1,
)

module _ (t : ℕ) where
  pub Runs-none : (b : CommandBudget) → Runs t b [] b
  unfolding run
  Runs-none b = record { ops = []; before = tt; ran = refl }

  pub Runs-append :
      {b b' b'' : CommandBudget} {cs ds : List Command}
      → Runs t b cs b'
      → Runs t b' ds b''
      → Runs t b (cs ++ ds) b''
  Runs-append {b} r s = record {
    ops = r.ops ++ s.ops;
    before = Before-append t r.ops s.ops r.before s.before;
    ran = ground (arith, run-append b r.ops s.ops, r.ran, s.ran);
  }

  pub Runs-step :
      (b : CommandBudget) (op : Op) → Before t (op ∷ []) → Runs t b (step b op).1 (step b op).0
  unfolding run
  Runs-step b op h = record {
    ops = op ∷ [];
    before = h;
    ran = ap (λ cs. ((step b op).0, cs)) (append-nil (step b op).1);
  }

  pub Runs-enqueue : (b : CommandBudget) (c : Command) → Runs t b [] (enqueue b c)
  unfolding step
  Runs-enqueue b c = Runs-step b (enqueues c) tt

  pub Runs-enter_degraded :
      (b : CommandBudget) (now : ℕ) → now ≤ t → Runs t b [] (enter_degraded b now)
  unfolding step
  Runs-enter_degraded b now h = Runs-step b (degrades now) (h, tt)

  Runs-take_ready :
      (b : CommandBudget) (now : ℕ) → now ≤ t → Runs t b (step b (takes now)).1 (take_ready b now).0
  unfolding step
  Runs-take_ready b now h =
      subst (λ b'. Runs t b (step b (takes now)).1 b') (ground arith)
        (Runs-step b (takes now) (h, tt))

  Runs-drain :
      (fuel : ℕ) (b : CommandBudget) (now : ℕ)
      → now ≤ t
      → Runs t b (drain fuel b now).1 (drain fuel b now).0
  unfolding drain step
  Runs-drain zero b now h = Runs-none b
  Runs-drain (suc fuel) b now h = elim (Option-cases (take_ready b now).1) [
    | inl done ↦
        rw (done, drain)
          (subst (λ cs. Runs t b cs (take_ready b now).0) (ground (arith, done))
            (Runs-take_ready b now h))
    | inr (c, taken) ↦
        rw (taken, drain)
          (Runs-append {cs = c ∷ []}
            (subst (λ cs. Runs t b cs (take_ready b now).0) (ground (arith, taken))
              (Runs-take_ready b now h))
            (Runs-drain fuel (take_ready b now).0 now h))
  ]

  pub Runs-drain_ready :
      (b : CommandBudget) (now : ℕ) → now ≤ t → Runs t b (drain_ready b now).1 (drain_ready b now).0
  unfolding drain_ready
  Runs-drain_ready b now h = Runs-drain (suc (length b.queue)) b now h
