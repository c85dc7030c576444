-- ===== src/Requests/Queue/Laws.antt =====
-- `queue_command` on a session that is there.
use Prim.Native.Nat.{ℕ}
use beta.Base.{some, nat_equal, Option, ◌≡◌, ◌⊎◌, inl, inr, Option-cases}
use beta.Base.Map
use beta.Command.{Command}
use beta.Engine.{Engine, Session, update}
use beta.Requests.Queue.{queue_command, send_to}

module _ {Tx : Type 0} (send : Tx → Command → Option Tx) (e : Engine Tx) (conn_id : ℕ) where
  -- The queue either refuses and nothing changes, or the session's channel has the command.
  pub queue_command-cases :
      (s : Session Tx) (c : Command)
      → Map.get conn_id e.sessions ≡ some s
      → (queue_command send e conn_id c ≡ (e, 0))
        ⊎ ((tx : Tx) × (send_to send s c ≡ some tx)
            × (queue_command send e conn_id c
                ≡ (update e conn_id (λ s'. record s' { command_tx = some tx }), 1)))
  unfolding queue_command
  queue_command-cases s c there = elim (Option-cases (send_to send s c)) [
    | inl closed ↦ inl (rw (there, closed, queue_command))
    | inr (tx, sent) ↦ inr (tx, sent, rw (there, sent, queue_command))
  ]
