-- ===== src/Requests/Admission/Calls.antt =====
-- Every entry point that queues one command, and its effect.
use Prim.Native.Nat.{ℕ}
use beta.Base.{Bool, Option, Text}
use beta.Command.{Command}
use beta.Engine.{Engine}
use beta.Requests.Calls.{
  Request, call, channel_message, private_message, server_message, move_to_channel, creates_channel,
  edits_channel, deletes_channel, moves_channel_tree, subscribes, unsubscribes, describes, kicks,
  bans, bans_uid, bans_address, deletes_ban, lists_bans, adds_to_group, removes_from_group,
  complains, sets_talker, pokes, moves_client, sets_away, sets_nickname, sets_channel_commander,
  sets_muted, sends_audio, deletes_file, creates_directory, renames_file, uses_token,
}
use beta.Requests.Admission.{Effect}
use beta.Requests.Admission.Chat.{
  ts_send_channel_message-Effect, ts_send_private_message-Effect, ts_send_server_message-Effect,
  ts_move_to_channel-Effect,
}
use beta.Requests.Admission.Channels.{
  ts_create_channel-Effect, ts_edit_channel-Effect, ts_delete_channel-Effect,
  ts_move_channel_tree-Effect, ts_subscribe_channel-Effect, ts_unsubscribe_channel-Effect,
  ts_channel_description-Effect,
}
use beta.Requests.Admission.Moderation.{
  ts_kick_client-Effect, ts_ban_client-Effect, ts_ban_uid-Effect, ts_ban_address-Effect,
  ts_ban_delete-Effect, ts_list_bans-Effect, ts_add_client_to_group-Effect,
  ts_remove_client_from_group-Effect, ts_complain_add-Effect, ts_set_talker-Effect,
  ts_poke_client-Effect, ts_move_client-Effect,
}
use beta.Requests.Admission.Status.{
  ts_set_away-Effect, ts_set_nickname-Effect, ts_set_channel_commander-Effect, ts_set_muted-Effect,
  ts_send_audio-Effect,
}
use beta.Requests.Admission.Files.{
  ts_delete_file-Effect, ts_create_directory-Effect, ts_rename_file-Effect, ts_use_token-Effect,
}

module _ {Tx : Type 0} (send : Tx → Command → Option Tx) (is_ip_addr : Text → Bool) (e : Engine Tx)
    (conn_id : ℕ) where
  -- Whatever is asked for, an entry point either returns 0 and leaves the engine as it was, or
  -- returns 1 and has sent one command to the channel of a connected session, changing nothing
  -- else. Such a command is allowed: its texts are within their limits, the texts and ids that it
  -- needs are there and not 0, it does not kick, ban or silence the own client by its client id,
  -- and it moves the own client, or another one that is given into a channel that is given.
  pub call-Effect : (r : Request) → Effect send e conn_id (call send is_ip_addr e conn_id r)
  unfolding call
  call-Effect (channel_message cid msg) = ts_send_channel_message-Effect send e conn_id cid msg
  call-Effect (private_message client_id msg) =
      ts_send_private_message-Effect send e conn_id client_id msg
  call-Effect (server_message msg) = ts_send_server_message-Effect send e conn_id msg
  call-Effect (move_to_channel cid password) = ts_move_to_channel-Effect send e conn_id cid password
  call-Effect
        (creates_channel parent_id name topic description password max_clients permanent
          semi_permanent) =
      ts_create_channel-Effect send e conn_id parent_id name topic description password max_clients
        permanent semi_permanent
  call-Effect
        (edits_channel channel_id name topic description password has_password max_clients permanent
          semi_permanent) =
      ts_edit_channel-Effect send e conn_id channel_id name topic description password has_password
        max_clients permanent semi_permanent
  call-Effect (deletes_channel channel_id force) =
      ts_delete_channel-Effect send e conn_id channel_id force
  call-Effect (moves_channel_tree channel_id parent_id order) =
      ts_move_channel_tree-Effect send e conn_id channel_id parent_id order
  call-Effect (subscribes channel_id) = ts_subscribe_channel-Effect send e conn_id channel_id
  call-Effect (unsubscribes channel_id) = ts_unsubscribe_channel-Effect send e conn_id channel_id
  call-Effect (describes channel_id) = ts_channel_description-Effect send e conn_id channel_id
  call-Effect (kicks client_id from_server reason) =
      ts_kick_client-Effect send e conn_id client_id from_server reason
  call-Effect (bans client_id seconds reason) =
      ts_ban_client-Effect send e conn_id client_id seconds reason
  call-Effect (bans_uid uid seconds reason) = ts_ban_uid-Effect send e conn_id uid seconds reason
  call-Effect (bans_address ip name seconds reason) =
      ts_ban_address-Effect send e conn_id is_ip_addr ip name seconds reason
  call-Effect (deletes_ban ban_id) = ts_ban_delete-Effect send e conn_id ban_id
  call-Effect lists_bans = ts_list_bans-Effect send e conn_id
  call-Effect (adds_to_group client_id group_id) =
      ts_add_client_to_group-Effect send e conn_id client_id group_id
  call-Effect (removes_from_group client_id group_id) =
      ts_remove_client_from_group-Effect send e conn_id client_id group_id
  call-Effect (complains client_id message) =
      ts_complain_add-Effect send e conn_id client_id message
  call-Effect (sets_talker client_id talk_power_granted) =
      ts_set_talker-Effect send e conn_id client_id talk_power_granted
  call-Effect (pokes client_id message) = ts_poke_client-Effect send e conn_id client_id message
  call-Effect (moves_client client_id channel_id password) =
      ts_move_client-Effect send e conn_id client_id channel_id password
  call-Effect (sets_away away message) = ts_set_away-Effect send e conn_id away message
  call-Effect (sets_nickname name) = ts_set_nickname-Effect send e conn_id name
  call-Effect (sets_channel_commander enabled) =
      ts_set_channel_commander-Effect send e conn_id enabled
  call-Effect (sets_muted inp out) = ts_set_muted-Effect send e conn_id inp out
  call-Effect (sends_audio samples) = ts_send_audio-Effect send e conn_id samples
  call-Effect (deletes_file channel_id path channel_password) =
      ts_delete_file-Effect send e conn_id channel_id path channel_password
  call-Effect (creates_directory channel_id path channel_password) =
      ts_create_directory-Effect send e conn_id channel_id path channel_password
  call-Effect
        (renames_file channel_id old_name new_name channel_password target_channel_id
          target_channel_password) =
      ts_rename_file-Effect send e conn_id channel_id old_name new_name channel_password
        target_channel_id target_channel_password
  call-Effect (uses_token token) = ts_use_token-Effect send e conn_id token
