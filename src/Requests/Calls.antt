-- ===== src/Requests/Calls.antt =====
-- native/src/api.rs: the entry points that queue one command, as one type of calls.
use Prim.Native.Nat.{ℕ}
use beta.Base.{Bool, Option, List, Text}
use beta.Base.Word.{Signed}
use beta.Text.{CString}
use beta.Command.{Command}
use beta.Engine.{Engine}
use beta.Requests.Chat.{
  ts_send_channel_message, ts_send_private_message, ts_send_server_message, ts_move_to_channel,
}
use beta.Requests.Channels.{
  ts_create_channel, ts_edit_channel, ts_delete_channel, ts_move_channel_tree, ts_subscribe_channel,
  ts_unsubscribe_channel, ts_channel_description,
}
use beta.Requests.Moderation.{
  ts_kick_client, ts_ban_client, ts_ban_uid, ts_ban_address, ts_ban_delete, ts_list_bans,
  ts_add_client_to_group, ts_remove_client_from_group, ts_complain_add, ts_set_talker,
  ts_poke_client, ts_move_client,
}
use beta.Requests.Status.{
  ts_set_away, ts_set_nickname, ts_set_channel_commander, ts_set_muted, ts_send_audio,
}
use beta.Requests.Files.{ts_delete_file, ts_create_directory, ts_rename_file, ts_use_token}

pub data Request : Type 0 where
  channel_message : (cid : ℕ) (msg : CString) → Request
  private_message : (client_id : ℕ) (msg : CString) → Request
  server_message : (msg : CString) → Request
  move_to_channel : (cid : ℕ) (password : CString) → Request
  creates_channel :
      (parent_id : ℕ) (name topic description password : CString) (max_clients : Signed)
      (permanent semi_permanent : ℕ)
      → Request
  edits_channel :
      (channel_id : ℕ) (name topic description password : CString)
      (has_password max_clients permanent semi_permanent : Signed)
      → Request
  deletes_channel : (channel_id force : ℕ) → Request
  moves_channel_tree : (channel_id parent_id order : ℕ) → Request
  subscribes : (channel_id : ℕ) → Request
  unsubscribes : (channel_id : ℕ) → Request
  describes : (channel_id : ℕ) → Request
  kicks : (client_id from_server : ℕ) (reason : CString) → Request
  bans : (client_id seconds : ℕ) (reason : CString) → Request
  bans_uid : (uid : CString) (seconds : ℕ) (reason : CString) → Request
  bans_address : (ip name : CString) (seconds : ℕ) (reason : CString) → Request
  deletes_ban : (ban_id : ℕ) → Request
  lists_bans : Request
  adds_to_group : (client_id group_id : ℕ) → Request
  removes_from_group : (client_id group_id : ℕ) → Request
  complains : (client_id : ℕ) (message : CString) → Request
  sets_talker : (client_id talk_power_granted : ℕ) → Request
  pokes : (client_id : ℕ) (message : CString) → Request
  moves_client : (client_id channel_id : ℕ) (password : CString) → Request
  sets_away : (away : ℕ) (message : CString) → Request
  sets_nickname : (name : CString) → Request
  sets_channel_commander : (enabled : ℕ) → Request
  sets_muted : (inp out : ℕ) → Request
  sends_audio : (samples : List ℕ) → Request
  deletes_file : (channel_id : ℕ) (path channel_password : CString) → Request
  creates_directory : (channel_id : ℕ) (path channel_password : CString) → Request
  renames_file :
      (channel_id : ℕ) (old_name new_name channel_password : CString) (target_channel_id : ℕ)
      (target_channel_password : CString)
      → Request
  uses_token : (token : CString) → Request

module _ {Tx : Type 0} (send : Tx → Command → Option Tx) (is_ip_addr : Text → Bool) (e : Engine Tx)
    (conn_id : ℕ) where
  unfoldable pub call : Request → Engine Tx × ℕ
  call (channel_message cid msg) = ts_send_channel_message send e conn_id cid msg
  call (private_message client_id msg) = ts_send_private_message send e conn_id client_id msg
  call (server_message msg) = ts_send_server_message send e conn_id msg
  call (move_to_channel cid password) = ts_move_to_channel send e conn_id cid password
  call
        (creates_channel parent_id name topic description password max_clients permanent
          semi_permanent) =
      ts_create_channel send e conn_id parent_id name topic description password max_clients
        permanent semi_permanent
  call
        (edits_channel channel_id name topic description password has_password max_clients permanent
          semi_permanent) =
      ts_edit_channel send e conn_id channel_id name topic description password has_password
        max_clients permanent semi_permanent
  call (deletes_channel channel_id force) = ts_delete_channel send e conn_id channel_id force
  call (moves_channel_tree channel_id parent_id order) =
      ts_move_channel_tree send e conn_id channel_id parent_id order
  call (subscribes channel_id) = ts_subscribe_channel send e conn_id channel_id
  call (unsubscribes channel_id) = ts_unsubscribe_channel send e conn_id channel_id
  call (describes channel_id) = ts_channel_description send e conn_id channel_id
  call (kicks client_id from_server reason) =
      ts_kick_client send e conn_id client_id from_server reason
  call (bans client_id seconds reason) = ts_ban_client send e conn_id client_id seconds reason
  call (bans_uid uid seconds reason) = ts_ban_uid send e conn_id uid seconds reason
  call (bans_address ip name seconds reason) =
      ts_ban_address send e conn_id is_ip_addr ip name seconds reason
  call (deletes_ban ban_id) = ts_ban_delete send e conn_id ban_id
  call lists_bans = ts_list_bans send e conn_id
  call (adds_to_group client_id group_id) = ts_add_client_to_group send e conn_id client_id group_id
  call (removes_from_group client_id group_id) =
      ts_remove_client_from_group send e conn_id client_id group_id
  call (complains client_id message) = ts_complain_add send e conn_id client_id message
  call (sets_talker client_id talk_power_granted) =
      ts_set_talker send e conn_id client_id talk_power_granted
  call (pokes client_id message) = ts_poke_client send e conn_id client_id message
  call (moves_client client_id channel_id password) =
      ts_move_client send e conn_id client_id channel_id password
  call (sets_away away message) = ts_set_away send e conn_id away message
  call (sets_nickname name) = ts_set_nickname send e conn_id name
  call (sets_channel_commander enabled) = ts_set_channel_commander send e conn_id enabled
  call (sets_muted inp out) = ts_set_muted send e conn_id inp out
  call (sends_audio samples) = ts_send_audio send e conn_id samples
  call (deletes_file channel_id path channel_password) =
      ts_delete_file send e conn_id channel_id path channel_password
  call (creates_directory channel_id path channel_password) =
      ts_create_directory send e conn_id channel_id path channel_password
  call
        (renames_file channel_id old_name new_name channel_password target_channel_id
          target_channel_password) =
      ts_rename_file send e conn_id channel_id old_name new_name channel_password target_channel_id
        target_channel_password
  call (uses_token token) = ts_use_token send e conn_id token
