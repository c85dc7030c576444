-- ===== src/Requests/Queue.antt =====
-- native/src/api.rs: `queue_command`, and what the entry points share.
pub mod Laws
use Prim.Native.Nat.{ℕ}
use beta.Base.{Bool, not, Option, none, some, nat_equal, ◌==◌, if◌then◌else◌}
use beta.Base.Map
use beta.Command.{Command}
use beta.Engine.{Engine, Session, update}

-- An integer that a caller uses as a truth value.
abbrev pub nonzero : ℕ → Bool
nonzero x = not (x == 0)

-- `bool::then_some`.
abbrev pub then_some {ℓ} : {A : Type ℓ} → Bool → A → Option A
then_some b a = if b then some a else none

-- `return 0`.
abbrev pub reject : {Tx : Type 0} → Engine Tx → Engine Tx × ℕ
reject e = (e, 0)

-- `let Some(x) = option else { return 0; };`
abbrev pub let_some {ℓ} :
    {Tx : Type 0} {A : Type ℓ} → Engine Tx → Option A → (A → Engine Tx × ℕ) → Engine Tx × ℕ
let_some e none rest = reject e
let_some e (some a) rest = rest a

-- `send` is the channel of tokio: it takes a command, or fails once the receiver is gone.
module _ {Tx : Type 0} (send : Tx → Command → Option Tx) where
  -- `tx.send(command)` of the session's sender.
  unfoldable pub send_to : Session Tx → Command → Option Tx
  send_to s c = elim s.command_tx [ none ↦ none | some tx ↦ send tx c ]

  unfoldable pub queue_command : Engine Tx → ℕ → Command → Engine Tx × ℕ
  unfolding send_to
  queue_command e conn_id c = elim (Map.get conn_id e.sessions) [
    | none ↦ reject e
    | some s ↦ elim (send_to s c) [
      | none ↦ reject e
      | some tx ↦ (update e conn_id (λ s'. record s' { command_tx = some tx }), 1)
    ]
  ]
