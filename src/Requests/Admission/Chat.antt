-- ===== src/Requests/Admission/Chat.antt =====
-- The entry points of messages and moves refuse, or send one allowed command.
use Prim.Native.Nat.{ℕ}
use beta.Base.{
  ◌||◌, not, Option, none, some, is_empty, ltb, ◌==◌, ◌≡◌, ◌≢◌, ◌≤◌, ◌⊎◌, refl, arith, inl, inr,
  length_pos,
}
use beta.Base.Word.{as_u16, u16_max}
use beta.Text.{CString, non_empty}
use beta.Command.{Command, send_message, move_channel}
use beta.Engine.{Engine, is_connected, own_client_id}
use beta.Requests.Chat.{
  enqueue_text_message, ts_send_channel_message, ts_send_private_message, ts_send_server_message,
  ts_move_to_channel,
}
use beta.Requests.Admission.{Effect, refuse, refuse_if, queue_command-Effect}

module _ {Tx : Type 0} (send : Tx → Command → Option Tx) (e : Engine Tx) (conn_id : ℕ) where
  -- A message to channel or server, or to one client.
  abbrev IsTarget : ℕ → ℕ → Type 0
  IsTarget target_mode target_cid =
      (target_mode ≡ 1) × (target_cid ≢ 0) × (target_cid ≤ u16_max)
      ⊎ (target_mode ≡ 2) × (target_cid ≡ 0)
      ⊎ (target_mode ≡ 3) × (target_cid ≡ 0)

  enqueue_text_message-Effect :
      (target_mode target_cid : ℕ) (msg : CString)
      → IsTarget target_mode target_cid
      → Effect send e conn_id (enqueue_text_message send e conn_id target_mode target_cid msg)
  unfolding enqueue_text_message
  enqueue_text_message-Effect mode cid none t = refuse send e conn_id
  enqueue_text_message-Effect mode cid (some message) t =
      refuse_if send e conn_id (not (is_connected e conn_id)) λ on.
        refuse_if send e conn_id (is_empty message) λ given.
          queue_command-Effect send e conn_id (send_message mode cid message) on
            (length_pos message given, t)

  pub ts_send_channel_message-Effect :
      (cid : ℕ) (msg : CString)
      → Effect send e conn_id (ts_send_channel_message send e conn_id cid msg)
  unfolding ts_send_channel_message
  ts_send_channel_message-Effect cid msg =
      enqueue_text_message-Effect 2 0 msg (inr (inl (refl, refl)))

  pub ts_send_private_message-Effect :
      (client_id : ℕ) (msg : CString)
      → Effect send e conn_id (ts_send_private_message send e conn_id client_id msg)
  unfolding ts_send_private_message
  ts_send_private_message-Effect client_id msg =
      refuse_if send e conn_id (client_id == 0 || ltb u16_max client_id) λ in_range.
        enqueue_text_message-Effect 1 client_id msg (inl (refl, ground arith, ground arith))

  pub ts_send_server_message-Effect :
      (msg : CString) → Effect send e conn_id (ts_send_server_message send e conn_id msg)
  unfolding ts_send_server_message
  ts_send_server_message-Effect msg = enqueue_text_message-Effect 3 0 msg (inr (inr (refl, refl)))

  pub ts_move_to_channel-Effect :
      (cid : ℕ) (password : CString)
      → Effect send e conn_id (ts_move_to_channel send e conn_id cid password)
  unfolding ts_move_to_channel
  ts_move_to_channel-Effect cid password =
      refuse_if send e conn_id (not (is_connected e conn_id)) λ on.
        queue_command-Effect send e conn_id
          (move_channel (as_u16 (own_client_id e conn_id)) cid (non_empty password)) on (inl refl)
