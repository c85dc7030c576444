-- ===== src/Budget.antt =====
-- native/src/lib.rs, `CommandBudget`: a token bucket with a bounded queue of commands. An `Instant`
-- is a number of nanoseconds; a balance of tokens is exact, in units of half a billionth of a token,
-- where the source rounds to `f32`.
pub mod Invariant
pub mod Rate
pub mod Order
pub mod Progress
pub mod Merge
pub mod Runs
mod Tests
use Prim.Native.Nat.{ℕ, zero, suc, ◌+◌, ◌-◌, ◌*◌, ◌%◌, ◌^◌, min}
use beta.Base.{
  Bool, true, false, Option, none, some, List, [], ◌∷◌, ◌++◌, length, ltb, leb, ◌==◌, if◌then◌else◌,
}
use beta.Command.{Command, flood_cost, supersedes, half_token}

pub record CommandBudget : Type 0 where
  pub tokens : ℕ
  pub capacity : ℕ
  pub refill_rate : ℕ
  pub last_refill : ℕ
  pub degraded_until : Option ℕ
  pub queue : List Command
  pub dropped : ℕ

-- 8 tokens, and 3 tokens a second: 6 units a nanosecond.
abbrev pub full_capacity : ℕ
full_capacity = 16 * half_token

abbrev pub full_refill : ℕ
full_refill = 6

-- 2 tokens, and half a token a second.
abbrev pub degraded_capacity : ℕ
degraded_capacity = 4 * half_token

abbrev pub degraded_refill : ℕ
degraded_refill = 1

-- 30 seconds.
abbrev pub degraded_duration : ℕ
degraded_duration = 30_000_000_000

abbrev pub max_queue : ℕ
max_queue = 32

unfoldable pub new : ℕ → CommandBudget
new now = record {
  tokens = full_capacity;
  capacity = full_capacity;
  refill_rate = full_refill;
  last_refill = now;
  degraded_until = none;
  queue = [];
  dropped = 0;
}

pub pending : CommandBudget → ℕ
pending b = length b.queue

pub is_degraded : CommandBudget → Bool
is_degraded b = elim b.degraded_until [ none ↦ false | some _ ↦ true ]

pub enter_degraded : CommandBudget → ℕ → CommandBudget
enter_degraded b now = record b {
  degraded_until = some (now + degraded_duration);
  capacity = degraded_capacity;
  refill_rate = degraded_refill;
  tokens = 0;
}

-- The first statement of `refill`: leave the degraded mode once its time is over.
pub leave_degraded : CommandBudget → ℕ → CommandBudget
leave_degraded b now = elim b.degraded_until [
  | none ↦ b
  | some until ↦
      if leb until now
      then record b { degraded_until = none; capacity = full_capacity; refill_rate = full_refill }
      else b
]

-- The rest: credit the time since the last refill, up to the capacity.
pub credit : CommandBudget → ℕ → CommandBudget
credit b now = if (now - b.last_refill) == 0 then b else record b {
  last_refill = now;
  tokens = min (b.tokens + (now - b.last_refill) * b.refill_rate) b.capacity;
}

pub refill : CommandBudget → ℕ → CommandBudget
unfolding leave_degraded credit
refill b now = credit (leave_degraded b now) now

-- The queue with the first superseded command replaced, if there is one.
pub replace_superseded : Command → List Command → Option (List Command)
replace_superseded c [] = none
replace_superseded c (q ∷ qs) =
    if supersedes c q
    then some (c ∷ qs)
    else elim (replace_superseded c qs) [ none ↦ none | some r ↦ some (q ∷ r) ]

-- `pop_front` of a full queue, which counts the loss.
pub make_room : CommandBudget → CommandBudget
make_room b = elim b.queue [
  | [] ↦ b
  | q ∷ qs ↦ record b { queue = qs; dropped = (b.dropped + 1) % 2 ^ 64 }
]

pub push_back : CommandBudget → Command → CommandBudget
push_back b c = record b { queue = b.queue ++ c ∷ [] }

pub enqueue : CommandBudget → Command → CommandBudget
unfolding replace_superseded make_room push_back
enqueue b c = elim (replace_superseded c b.queue) [
  | some r ↦ record b { queue = r }
  | none ↦ if leb max_queue (length b.queue) then push_back (make_room b) c else push_back b c
]

-- `take_ready` after the refill.
pub take_front : CommandBudget → CommandBudget × Option Command
take_front b = elim b.queue [
  | [] ↦ (b, none)
  | q ∷ qs ↦
      if ltb b.tokens (flood_cost q)
      then (b, none)
      else (record b { tokens = b.tokens - flood_cost q; queue = qs }, some q)
]

pub take_ready : CommandBudget → ℕ → CommandBudget × Option Command
unfolding refill take_front
take_ready b now = take_front (refill b now)

-- `while let Some(cmd) = budget.take_ready(now)` of the event loop, on fuel.
pub drain : ℕ → CommandBudget → ℕ → CommandBudget × List Command
drain zero b now = (b, [])
drain (suc fuel) b now = elim (take_ready b now).1 [
  | none ↦ ((take_ready b now).0, [])
  | some c ↦ ((drain fuel (take_ready b now).0 now).0, c ∷ (drain fuel (take_ready b now).0 now).1)
]

-- Each round takes a command, so one round more than there are commands is enough.
pub drain_ready : CommandBudget → ℕ → CommandBudget × List Command
unfolding drain
drain_ready b now = drain (suc (length b.queue)) b now

-- The operations of the budget, as the event loop and the message handler call them.
pub data Op : Type 0 where
  enqueues : Command → Op
  takes : (now : ℕ) → Op
  degrades : (now : ℕ) → Op

-- One operation, with the commands that it releases.
pub step : CommandBudget → Op → CommandBudget × List Command
step b (enqueues c) = (enqueue b c, [])
step b (takes now) = elim (take_ready b now).1 [
  | none ↦ ((take_ready b now).0, [])
  | some c ↦ ((take_ready b now).0, c ∷ [])
]
step b (degrades now) = (enter_degraded b now, [])

pub run : CommandBudget → List Op → CommandBudget × List Command
run b [] = (b, [])
run b (op ∷ ops) = ((run (step b op).0 ops).0, (step b op).1 ++ (run (step b op).0 ops).1)
