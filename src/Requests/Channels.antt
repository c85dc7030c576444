-- ===== src/Requests/Channels.antt =====
-- native/src/api.rs: channel administration, subscriptions and descriptions.
use Prim.Native.Nat.{ℕ}
use beta.Base.{true, false, ◌||◌, not, Option, ltb, ◌==◌, if◌then◌else◌}
use beta.Base.Word.{Signed, is_positive, is_nonnegative, is_nonzero}
use beta.Text.{CString, opt_cstr}
use beta.Command.{
  Command, create_channel, edit_channel, delete_channel, move_channel_tree, subscribe_channel,
  channel_description,
}
use beta.Engine.{Engine, is_connected}
use beta.Requests.Queue.{reject, let_some, queue_command, nonzero, then_some}

-- CHANNEL_NAME_MAX, CHANNEL_TEXT_MAX, and the cap of a channel's password.
abbrev pub channel_name_max : ℕ
channel_name_max = 40

abbrev pub channel_text_max : ℕ
channel_text_max = 2000

abbrev pub password_max : ℕ
password_max = 64

module _ {Tx : Type 0} (send : Tx → Command → Option Tx) (e : Engine Tx) (conn_id : ℕ) where
  unfoldable pub ts_create_channel :
      (parent_id : ℕ) (name topic description password : CString) (max_clients : Signed)
      (permanent semi_permanent : ℕ)
      → Engine Tx × ℕ
  ts_create_channel parent_id name topic description password max_clients permanent semi_permanent =
      if not (is_connected e conn_id)
      then reject e
      else let_some e (opt_cstr name channel_name_max) λ n. queue_command send e conn_id (
          create_channel parent_id n (opt_cstr topic channel_text_max)
            (opt_cstr description channel_text_max) (opt_cstr password password_max)
            (then_some (is_positive max_clients) max_clients) (nonzero permanent)
            (nonzero semi_permanent))

  unfoldable pub ts_edit_channel :
      (channel_id : ℕ) (name topic description password : CString)
      (has_password max_clients permanent semi_permanent : Signed)
      → Engine Tx × ℕ
  ts_edit_channel channel_id name topic description password has_password max_clients permanent
        semi_permanent =
      if not (is_connected e conn_id) || channel_id == 0
      then reject e
      else queue_command send e conn_id (
          edit_channel channel_id (opt_cstr name channel_name_max) (opt_cstr topic channel_text_max)
            (opt_cstr description channel_text_max) (opt_cstr password password_max)
            (then_some (is_nonnegative has_password) (is_nonzero has_password))
            (then_some (is_positive max_clients) max_clients)
            (then_some (is_nonnegative permanent) (is_nonzero permanent))
            (then_some (is_nonnegative semi_permanent) (is_nonzero semi_permanent)))

  unfoldable pub ts_delete_channel : (channel_id force : ℕ) → Engine Tx × ℕ
  ts_delete_channel channel_id force =
      if not (is_connected e conn_id) || channel_id == 0
      then reject e
      else queue_command send e conn_id (delete_channel channel_id (nonzero force))

  unfoldable pub ts_move_channel_tree : (channel_id parent_id order : ℕ) → Engine Tx × ℕ
  ts_move_channel_tree channel_id parent_id order =
      if not (is_connected e conn_id) || channel_id == 0
      then reject e
      else queue_command send e conn_id
          (move_channel_tree channel_id parent_id (then_some (ltb 0 order) order))

  unfoldable pub ts_subscribe_channel : (channel_id : ℕ) → Engine Tx × ℕ
  ts_subscribe_channel channel_id =
      if not (is_connected e conn_id) || channel_id == 0
      then reject e
      else queue_command send e conn_id (subscribe_channel channel_id false)

  unfoldable pub ts_unsubscribe_channel : (channel_id : ℕ) → Engine Tx × ℕ
  ts_unsubscribe_channel channel_id =
      if not (is_connected e conn_id) || channel_id == 0
      then reject e
      else queue_command send e conn_id (subscribe_channel channel_id true)

  unfoldable pub ts_channel_description : (channel_id : ℕ) → Engine Tx × ℕ
  ts_channel_description channel_id =
      if not (is_connected e conn_id) || channel_id == 0
      then reject e
      else queue_command send e conn_id (channel_description channel_id)
