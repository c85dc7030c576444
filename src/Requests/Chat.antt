-- ===== src/Requests/Chat.antt =====
-- native/src/api.rs: text messages and the move of the own client to a channel.
use Prim.Native.Nat.{ℕ}
use beta.Base.{◌||◌, not, Option, none, some, is_empty, ltb, ◌==◌, if◌then◌else◌}
use beta.Base.Word.{as_u16, u16_max}
use beta.Text.{CString, non_empty}
use beta.Command.{Command, send_message, move_channel}
use beta.Engine.{Engine, is_connected, own_client_id}
use beta.Requests.Queue.{reject, queue_command}

module _ {Tx : Type 0} (send : Tx → Command → Option Tx) (e : Engine Tx) (conn_id : ℕ) where
  unfoldable pub enqueue_text_message : ℕ → ℕ → CString → Engine Tx × ℕ
  enqueue_text_message target_mode target_cid none = reject e
  enqueue_text_message target_mode target_cid (some message) =
      if not (is_connected e conn_id)
      then reject e
      else if is_empty message
      then reject e
      else queue_command send e conn_id (send_message target_mode target_cid message)

  unfoldable pub ts_send_channel_message : ℕ → CString → Engine Tx × ℕ
  unfolding enqueue_text_message
  ts_send_channel_message cid msg = enqueue_text_message 2 0 msg

  unfoldable pub ts_send_private_message : ℕ → CString → Engine Tx × ℕ
  unfolding enqueue_text_message
  ts_send_private_message client_id msg =
      if client_id == 0 || ltb u16_max client_id
      then reject e
      else enqueue_text_message 1 client_id msg

  unfoldable pub ts_send_server_message : CString → Engine Tx × ℕ
  unfolding enqueue_text_message
  ts_send_server_message msg = enqueue_text_message 3 0 msg

  unfoldable pub ts_move_to_channel : ℕ → CString → Engine Tx × ℕ
  ts_move_to_channel cid password =
      if not (is_connected e conn_id)
      then reject e
      else queue_command send e conn_id
          (move_channel (as_u16 (own_client_id e conn_id)) cid (non_empty password))
