-- ===== src/Budget/Order.antt =====
-- `CommandBudget`: which command leaves, and what becomes of the others.
use Prim.Native.Nat.{ℕ, zero, suc, ◌+◌, ◌%◌, ◌^◌, ◌≤◌, ◌<◌}
use beta.Base.{
  true, false, none, some, List, [], ◌∷◌, ◌++◌, length, All, ◌≡◌, refl, ap, ◌∙◌, arith, ◌⊎◌, inl,
  inr, Option-cases, Bool-cases, leb,
}
use beta.Command.{Command, supersedes}
use beta.Budget.{
  CommandBudget, max_queue, leave_degraded, credit, refill, replace_superseded, make_room,
  push_back, enqueue, take_front, take_ready, drain, drain_ready,
}

-- What `enqueue c` does to a budget: one of three things.
pub data Enqueued (c : Command) (b a : CommandBudget) : Type 0 where
  replaced :
      (before : List Command) (old : Command) (after : List Command)
      → All (λ q. supersedes c q ≡ false) before
      → supersedes c old ≡ true
      → b.queue ≡ before ++ old ∷ after
      → a ≡ record b { queue = before ++ c ∷ after }
      → Enqueued c b a
  appended :
      All (λ q. supersedes c q ≡ false) b.queue
      → length b.queue < max_queue
      → a ≡ record b { queue = b.queue ++ c ∷ [] }
      → Enqueued c b a
  dropped_oldest :
      (oldest : Command) (rest : List Command)
      → All (λ q. supersedes c q ≡ false) b.queue
      → max_queue ≤ length b.queue
      → b.queue ≡ oldest ∷ rest
      → a ≡ record b { queue = rest ++ c ∷ []; dropped = (b.dropped + 1) % 2 ^ 64 }
      → Enqueued c b a

replace_superseded-none :
    (c : Command) (qs : List Command)
    → replace_superseded c qs ≡ none
    → All (λ q. supersedes c q ≡ false) qs
unfolding replace_superseded
replace_superseded-none c [] e = tt
replace_superseded-none c (q ∷ qs) e = ground (arith, replace_superseded-none c qs)

-- The first command that `c` supersedes gives its place to `c`.
abbrev Replaced : Command → List Command → List Command → Type 0
Replaced c qs r =
    (before : List Command) × (old : Command) × (after : List Command) × All
      (λ q. supersedes c q ≡ false) before
    × (supersedes c old ≡ true)
    × (qs ≡ before ++ old ∷ after)
    × (r ≡ before ++ c ∷ after)

replace_superseded-some :
    (c : Command) (qs r : List Command) → replace_superseded c qs ≡ some r → Replaced c qs r
unfolding replace_superseded
replace_superseded-some c [] r e = ground arith
replace_superseded-some c (q ∷ qs) r e = elim (Bool-cases (supersedes c q)) [
  | inl hit ↦ ([], q, qs, tt, hit, refl, ground arith)
  | inr miss ↦ behind miss (replace_superseded-some c qs) (Option-cases (replace_superseded c qs))
]
  where
    behind :
        supersedes c q ≡ false
        → ((r' : List Command) → replace_superseded c qs ≡ some r' → Replaced c qs r')
        → (replace_superseded c qs ≡ none)
          ⊎ ((r' : List Command) × (replace_superseded c qs ≡ some r'))
        → Replaced c (q ∷ qs) r
    behind miss deeper (inl e') = ground arith
    behind miss deeper (inr (r', e')) =
        let (before, old, after, apart, hit, p, p') = deeper r' e' in
        (q ∷ before, old, after, (miss, apart), hit, ap (λ xs. q ∷ xs) p, ground arith)

unmerged :
    (b : CommandBudget) (c : Command)
    → replace_superseded c b.queue ≡ none
    → (leb max_queue (length b.queue) ≡ true) ⊎ (leb max_queue (length b.queue) ≡ false)
    → (qs : List Command) → b.queue ≡ qs
    → Enqueued c b (enqueue b c)
unfolding enqueue make_room push_back
unmerged b c e (inl full) [] p = absurd (ground arith)
unmerged b c e (inl full) (oldest ∷ rest) p =
    dropped_oldest oldest rest (replace_superseded-none c b.queue e) (ground arith) p (ground arith)
unmerged b c e (inr free) qs p =
    appended (replace_superseded-none c b.queue e) (ground arith) (ground arith)

-- `enqueue` replaces the first command that the new one supersedes; if it supersedes none, the
-- command goes to the end, and if 32 commands wait the oldest is taken out and counted as dropped.
pub enqueue-Enqueued : (b : CommandBudget) (c : Command) → Enqueued c b (enqueue b c)
unfolding enqueue
enqueue-Enqueued b c = elim (Option-cases (replace_superseded c b.queue)) [
  | inl e ↦ unmerged b c e (Bool-cases (leb max_queue (length b.queue))) b.queue refl
  | inr (r, e) ↦
      let (before, old, after, apart, hit, p, p') = replace_superseded-some c b.queue r e in
      replaced before old after apart hit p (ground arith)
]

queue-refill : (b : CommandBudget) (now : ℕ) → (refill b now).queue ≡ b.queue
unfolding refill leave_degraded credit
queue-refill b now = ground arith

take_front-queue :
    (b : CommandBudget)
    → elim (take_front b).1 [ none ↦ (take_front b).0.queue | some c ↦ c ∷ (take_front b).0.queue ]
      ≡ b.queue
unfolding take_front
take_front-queue b = ground arith

take_ready-queue :
    (b : CommandBudget) (now : ℕ)
    → elim (take_ready b now).1 [
      | none ↦ (take_ready b now).0.queue
      | some c ↦ c ∷ (take_ready b now).0.queue
    ]
      ≡ b.queue
unfolding take_ready
take_ready-queue b now = take_front-queue (refill b now) ∙ queue-refill b now

drain-queue :
    (fuel : ℕ) (b : CommandBudget) (now : ℕ)
    → (drain fuel b now).1 ++ (drain fuel b now).0.queue ≡ b.queue
unfolding drain
drain-queue zero b now = refl
drain-queue (suc fuel) b now =
    ground (arith, take_ready-queue b now, drain-queue fuel (take_ready b now).0 now)

refill-refill : (b : CommandBudget) (now : ℕ) → refill (refill b now) now ≡ refill b now
unfolding refill leave_degraded credit
refill-refill b now = ground arith

-- Once there is nothing to release, asking again at the same time does not help.
take_ready_again :
    (b : CommandBudget) (now : ℕ)
    → (take_ready b now).1 ≡ none
    → (take_ready (take_ready b now).0 now).1 ≡ none
unfolding take_ready take_front
take_ready_again b now e = ground (arith, refill-refill b now)

drain-stops :
    (fuel : ℕ) (b : CommandBudget) (now : ℕ)
    → length b.queue < fuel
    → (take_ready (drain fuel b now).0 now).1 ≡ none
unfolding drain
drain-stops zero b now h = absurd (omega arith)
drain-stops (suc fuel) b now h = elim (Option-cases (take_ready b now).1) [
  | inl e ↦ rw (e, drain) (take_ready_again b now e)
  | inr (c, e) ↦
      rw (e, drain)
        (drain-stops fuel (take_ready b now).0 now
          (ground (arith, e, ap length (take_ready-queue b now))))
]

-- The drain of the event loop releases a first part of the queue in its order and leaves the rest,
-- and stops only when `take_ready` has no command to give.
pub drain_ready_lem :
    (b : CommandBudget) (now : ℕ)
    → ((drain_ready b now).1 ++ (drain_ready b now).0.queue ≡ b.queue)
      × ((take_ready (drain_ready b now).0 now).1 ≡ none)
unfolding drain_ready
drain_ready_lem b now = (
  drain-queue (suc (length b.queue)) b now,
  drain-stops (suc (length b.queue)) b now (omega arith),
)
