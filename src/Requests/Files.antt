-- ===== src/Requests/Files.antt =====
-- native/src/api.rs: file management without an answer to wait for, and privilege keys.
use Prim.Native.Nat.{ℕ}
use beta.Base.{◌||◌, not, Option, none, some, is_empty, ltb, if◌then◌else◌}
use beta.Text.{CString, trim, non_empty, or_empty}
use beta.Command.{Command, delete_file, create_directory, rename_file, use_token}
use beta.Engine.{Engine, is_connected}
use beta.Requests.Queue.{reject, queue_command, then_some}

module _ {Tx : Type 0} (send : Tx → Command → Option Tx) (e : Engine Tx) (conn_id : ℕ) where
  unfoldable pub ts_delete_file : (channel_id : ℕ) (path channel_password : CString) → Engine Tx × ℕ
  ts_delete_file channel_id none channel_password = reject e
  ts_delete_file channel_id (some path) channel_password =
      if not (is_connected e conn_id)
      then reject e
      else if is_empty (trim path)
      then reject e
      else queue_command send e conn_id
          (delete_file channel_id (or_empty channel_password) (trim path))

  unfoldable pub ts_create_directory :
      (channel_id : ℕ) (path channel_password : CString) → Engine Tx × ℕ
  ts_create_directory channel_id none channel_password = reject e
  ts_create_directory channel_id (some path) channel_password =
      if not (is_connected e conn_id)
      then reject e
      else if is_empty (trim path)
      then reject e
      else queue_command send e conn_id
          (create_directory channel_id (or_empty channel_password) (trim path))

  unfoldable pub ts_rename_file :
      (channel_id : ℕ) (old_name new_name channel_password : CString) (target_channel_id : ℕ)
      (target_channel_password : CString)
      → Engine Tx × ℕ
  ts_rename_file channel_id none new_name password target target_password = reject e
  ts_rename_file channel_id (some old_name) none password target target_password = reject e
  ts_rename_file channel_id (some old_name) (some new_name) password target target_password =
      if not (is_connected e conn_id)
      then reject e
      else if is_empty (trim old_name) || is_empty (trim new_name)
      then reject e
      else queue_command send e conn_id (
          rename_file channel_id (or_empty password) (then_some (ltb 0 target) target)
            (non_empty target_password) (trim old_name) (trim new_name))

  unfoldable pub ts_use_token : (token : CString) → Engine Tx × ℕ
  ts_use_token none = reject e
  ts_use_token (some token) =
      if not (is_connected e conn_id)
      then reject e
      else if is_empty (trim token)
      then reject e
      else queue_command send e conn_id (use_token (trim token))
