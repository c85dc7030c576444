-- ===== src/Requests/Admission/Files.antt =====
-- The entry points of file management refuse, or send one allowed command.
use Prim.Native.Nat.{ℕ}
use beta.Base.{Bool, false, ◌||◌, not, Option, none, some, is_empty, ltb, ◌≡◌, arith, length_pos}
use beta.Text.{CString, trim, non_empty, or_empty}
use beta.Command.{Command, delete_file, create_directory, rename_file, use_token}
use beta.Requests.Queue.{then_some}
use beta.Engine.{Engine, is_connected}
use beta.Requests.Files.{ts_delete_file, ts_create_directory, ts_rename_file, ts_use_token}
use beta.Requests.Admission.{NonzeroOption, Effect, refuse, refuse_if, queue_command-Effect}

both_false : (a b : Bool) → (a || b) ≡ false → (a ≡ false) × (b ≡ false)
both_false a b h = ground arith

nonzero_target : (n : ℕ) → NonzeroOption (then_some (ltb 0 n) n)
nonzero_target n = ground arith

module _ {Tx : Type 0} (send : Tx → Command → Option Tx) (e : Engine Tx) (conn_id : ℕ) where
  pub ts_delete_file-Effect :
      (channel_id : ℕ) (path channel_password : CString)
      → Effect send e conn_id (ts_delete_file send e conn_id channel_id path channel_password)
  unfolding ts_delete_file
  ts_delete_file-Effect channel_id none channel_password = refuse send e conn_id
  ts_delete_file-Effect channel_id (some path) channel_password =
      refuse_if send e conn_id (not (is_connected e conn_id)) λ on.
        refuse_if send e conn_id (is_empty (trim path)) λ g.
          queue_command-Effect send e conn_id
            (delete_file channel_id (or_empty channel_password) (trim path)) on
            (length_pos (trim path) g)

  pub ts_create_directory-Effect :
      (channel_id : ℕ) (path channel_password : CString)
      → Effect send e conn_id (ts_create_directory send e conn_id channel_id path channel_password)
  unfolding ts_create_directory
  ts_create_directory-Effect channel_id none channel_password = refuse send e conn_id
  ts_create_directory-Effect channel_id (some path) channel_password =
      refuse_if send e conn_id (not (is_connected e conn_id)) λ on.
        refuse_if send e conn_id (is_empty (trim path)) λ g.
          queue_command-Effect send e conn_id
            (create_directory channel_id (or_empty channel_password) (trim path)) on
            (length_pos (trim path) g)

  pub ts_rename_file-Effect :
      (channel_id : ℕ) (old_name new_name password : CString) (target : ℕ)
      (target_password : CString)
      → Effect send e conn_id (
          ts_rename_file send e conn_id channel_id old_name new_name password target
            target_password)
  unfolding ts_rename_file
  ts_rename_file-Effect channel_id none new_name password target target_password =
      refuse send e conn_id
  ts_rename_file-Effect channel_id (some old_name) none password target target_password =
      refuse send e conn_id
  ts_rename_file-Effect channel_id (some old_name) (some new_name) password target target_password =
      refuse_if send e conn_id (not (is_connected e conn_id)) λ on.
        refuse_if send e conn_id (is_empty (trim old_name) || is_empty (trim new_name)) λ h.
          let (old_given, new_given) =
            both_false (is_empty (trim old_name)) (is_empty (trim new_name)) h in
          queue_command-Effect send e conn_id
            (rename_file channel_id (or_empty password) (then_some (ltb 0 target) target)
              (non_empty target_password) (trim old_name) (trim new_name))
            on
            (
              nonzero_target target,
              length_pos (trim old_name) old_given,
              length_pos (trim new_name) new_given,
            )

  pub ts_use_token-Effect :
      (token : CString) → Effect send e conn_id (ts_use_token send e conn_id token)
  unfolding ts_use_token
  ts_use_token-Effect none = refuse send e conn_id
  ts_use_token-Effect (some token) = refuse_if send e conn_id (not (is_connected e conn_id)) λ on.
      refuse_if send e conn_id (is_empty (trim token)) λ g.
        queue_command-Effect send e conn_id (use_token (trim token)) on (length_pos (trim token) g)
