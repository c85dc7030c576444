-- ===== src/Command.antt =====
-- native/src/lib.rs, the command queue: `Command`, `flood_cost` and `supersedes`.
use Prim.Native.Nat.{ℕ, ◌*◌}
use beta.Base.{Bool, true, false, Option, List, Text}
use beta.Base.Word.{Signed}

-- Integers are numbers, an `f32` is its bit pattern.
pub data Command : Type 0 where
  send_message : (target_mode target_cid : ℕ) (message : Text) → Command
  move_channel : (client_id channel_id : ℕ) (channel_password : Option Text) → Command
  set_muted : (input output : Bool) → Command
  set_away : (away : Bool) (message : Option Text) → Command
  set_nickname : (name : Text) → Command
  kick_client : (client_id : ℕ) (from_server : Bool) (reason : Option Text) → Command
  ban_client : (client_id seconds : ℕ) (reason : Option Text) → Command
  ban_uid : (uid : Text) (seconds : ℕ) (reason : Option Text) → Command
  ban_address : (ip name : Option Text) (seconds : ℕ) (reason : Option Text) → Command
  ban_delete : (ban_id : ℕ) → Command
  list_bans : Command
  subscribe_channel : (channel_id : ℕ) (unsubscribe : Bool) → Command
  channel_description : (channel_id : ℕ) → Command
  add_client_to_group : (db_id group_id : ℕ) → Command
  remove_client_from_group : (db_id group_id : ℕ) → Command
  complain_add : (db_id : ℕ) (message : Text) → Command
  set_talker : (client_id : ℕ) (talk_power_granted : Bool) → Command
  download_file : (transfer_id channel_id : ℕ) (channel_password remote_path : Text) → Command
  upload_file :
      (transfer_id channel_id : ℕ) (channel_password remote_path source_path : Text) (size : ℕ)
      (overwrite : Bool)
      → Command
  request_file_list : (request_id channel_id : ℕ) (channel_password path : Text) → Command
  delete_file : (channel_id : ℕ) (channel_password path : Text) → Command
  create_directory : (channel_id : ℕ) (channel_password path : Text) → Command
  rename_file :
      (channel_id : ℕ) (channel_password : Text) (target_channel_id : Option ℕ)
      (target_channel_password : Option Text) (old_name new_name : Text)
      → Command
  file_info_request : (request_id channel_id : ℕ) (channel_password name : Text) → Command
  use_token : (token : Text) → Command
  create_channel :
      (parent_id : ℕ) (name : Text) (topic description password : Option Text)
      (max_clients : Option Signed) (permanent semi_permanent : Bool)
      → Command
  edit_channel :
      (channel_id : ℕ) (name topic description password : Option Text) (has_password : Option Bool)
      (max_clients : Option Signed) (permanent semi_permanent : Option Bool)
      → Command
  delete_channel : (channel_id : ℕ) (force : Bool) → Command
  move_channel_tree : (channel_id parent_id : ℕ) (order : Option ℕ) → Command
  poke_client : (client_id : ℕ) (message : Text) → Command
  set_channel_commander : (enabled : Bool) → Command
  disconnect : Command
  send_audio : (samples : List ℕ) → Command

-- Tokens are counted in units of half a billionth, so that a cost is a multiple of half a token
-- and one nanosecond of refill is a whole number of units.
abbrev pub half_token : ℕ
half_token = 1_000_000_000

unfoldable pub flood_cost : Command → ℕ
flood_cost (send_message _ _ _) = 4 * half_token
flood_cost (move_channel _ _ _) = 3 * half_token
flood_cost (set_muted _ _) = half_token
flood_cost (set_away _ _) = half_token
flood_cost (set_channel_commander _) = half_token
flood_cost (set_nickname _) = 4 * half_token
flood_cost (kick_client _ _ _) = 4 * half_token
flood_cost (ban_client _ _ _) = 4 * half_token
flood_cost (ban_uid _ _ _) = 4 * half_token
flood_cost (ban_address _ _ _ _) = 4 * half_token
flood_cost (ban_delete _) = 4 * half_token
flood_cost (add_client_to_group _ _) = 4 * half_token
flood_cost (remove_client_from_group _ _) = 4 * half_token
flood_cost (complain_add _ _) = 4 * half_token
flood_cost (set_talker _ _) = 4 * half_token
flood_cost list_bans = 2 * half_token
flood_cost (subscribe_channel _ _) = 2 * half_token
flood_cost (channel_description _) = 2 * half_token
flood_cost (poke_client _ _) = 4 * half_token
flood_cost (download_file _ _ _ _) = 2 * half_token
flood_cost (upload_file _ _ _ _ _ _ _) = 2 * half_token
flood_cost (request_file_list _ _ _ _) = 2 * half_token
flood_cost (delete_file _ _ _) = 2 * half_token
flood_cost (create_directory _ _ _) = 2 * half_token
flood_cost (rename_file _ _ _ _ _ _) = 2 * half_token
flood_cost (file_info_request _ _ _ _) = 2 * half_token
flood_cost (use_token _) = 2 * half_token
flood_cost (create_channel _ _ _ _ _ _ _ _) = 4 * half_token
flood_cost (edit_channel _ _ _ _ _ _ _ _ _) = 4 * half_token
flood_cost (delete_channel _ _) = 4 * half_token
flood_cost (move_channel_tree _ _ _) = 4 * half_token
flood_cost (send_audio _) = 0
flood_cost disconnect = 0

-- Whether the first command may take the place of the second in the queue.
unfoldable pub supersedes : Command → Command → Bool
supersedes (move_channel _ _ _) (move_channel _ _ _) = true
supersedes (set_muted _ _) (set_muted _ _) = true
supersedes (set_away _ _) (set_away _ _) = true
supersedes (set_nickname _) (set_nickname _) = true
supersedes (request_file_list _ _ _ _) (request_file_list _ _ _ _) = true
supersedes (file_info_request _ _ _ _) (file_info_request _ _ _ _) = true
supersedes (set_channel_commander _) (set_channel_commander _) = true
supersedes (subscribe_channel _ _) (subscribe_channel _ _) = true
supersedes list_bans list_bans = true
supersedes (set_talker _ _) (set_talker _ _) = true
supersedes _ _ = false
