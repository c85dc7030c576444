-- ===== src/EventLoop/Messages.antt =====
-- The message that the event loop of native/src/api.rs sends for a command.
use Prim.Native.Nat.{ℕ, ◌-◌, ◌^◌}
use beta.Base.{Bool, true, false, not, Option, none, some, [], Text, ltb, ◌==◌, if◌then◌else◌}
use beta.Base.Word.{Signed, pos, negsuc, as_u16}
use beta.Command.{Command}
use beta.Requests.Queue.{then_some}
use beta.Uid.{base64_decode_uid}
use beta.EventLoop.Wire.{Message, ClientUpdate, Target}

-- `x as i64`.
abbrev pub as_i64 : ℕ → Signed
as_i64 n = if ltb n (2 ^ 63) then pos n else negsuc (2 ^ 64 - 1 - n)

-- No duration stands for a permanent ban.
abbrev pub ban_time : ℕ → Option Signed
ban_time seconds = then_some (ltb 0 seconds) (as_i64 seconds)

abbrev pub no_update : ClientUpdate
no_update = record {
  name = none;
  input_muted = none;
  output_muted = none;
  is_away = none;
  away_message = none;
  is_channel_commander = none;
}

abbrev pub is_some {ℓ} : {A : Type ℓ} → Option A → Bool
is_some none = false
is_some (some a) = true

pub text_target : (target_mode target_cid : ℕ) → Target × Option ℕ
text_target target_mode target_cid =
    if target_mode == 1
    then (Target.client, some (as_u16 target_cid))
    else if target_mode == 3
    then (Target.server, none)
    else (Target.channel, none)

-- Clearing the flag clears the message too.
pub away_text : Bool → Option Text → Text
away_text true (some s) = s
away_text true none = []
away_text false message = []

pub valid_ip : (Text → Bool) → Option Text → Option Text
valid_ip is_ip_addr none = none
valid_ip is_ip_addr (some s) = then_some (is_ip_addr s) s

-- The commands that are one message; a download is one, an upload is a call of its own.
unfoldable pub message_of : (is_ip_addr : Text → Bool) → Command → Option Message
unfolding text_target away_text valid_ip
message_of is_ip_addr (Command.send_message target_mode target_cid message) =
    let (target, client) = text_target target_mode target_cid in
    some (Message.send_text_message target client message)
message_of is_ip_addr (Command.move_channel client_id channel_id channel_password) =
    some (Message.client_move client_id channel_id channel_password)
message_of is_ip_addr (Command.set_muted input output) = some (
    Message.client_update
      (record no_update { input_muted = some input; output_muted = some output }))
message_of is_ip_addr (Command.set_away away message) = some (
    Message.client_update
      (record no_update { is_away = some away; away_message = some (away_text away message) }))
message_of is_ip_addr (Command.set_nickname name) =
    some (Message.client_update (record no_update { name = some name }))
message_of is_ip_addr (Command.kick_client client_id from_server reason) =
    some (Message.client_kick client_id from_server reason)
message_of is_ip_addr (Command.ban_client client_id seconds reason) =
    some (Message.ban_client client_id (ban_time seconds) reason)
message_of is_ip_addr (Command.ban_uid uid seconds reason) =
    some (Message.ban_add none none (base64_decode_uid uid) (ban_time seconds) reason)
message_of is_ip_addr (Command.ban_address ip name seconds reason) =
    some (Message.ban_add (valid_ip is_ip_addr ip) name none (ban_time seconds) reason)
message_of is_ip_addr (Command.ban_delete ban_id) = some (Message.ban_del ban_id)
message_of is_ip_addr Command.list_bans = some Message.ban_list_request
message_of is_ip_addr (Command.subscribe_channel channel_id unsubscribe) = some (
    if unsubscribe
    then Message.channel_unsubscribe channel_id
    else Message.channel_subscribe channel_id)
message_of is_ip_addr (Command.channel_description channel_id) =
    some (Message.channel_description_request channel_id)
message_of is_ip_addr (Command.add_client_to_group db_id group_id) =
    some (Message.server_group_add_client group_id db_id)
message_of is_ip_addr (Command.remove_client_from_group db_id group_id) =
    some (Message.server_group_del_client group_id db_id)
message_of is_ip_addr (Command.complain_add db_id message) =
    some (Message.complain_add db_id message)
message_of is_ip_addr (Command.set_talker client_id granted) =
    some (Message.client_edit client_id granted)
message_of is_ip_addr (Command.download_file transfer_id channel_id password remote_path) =
    some (Message.init_download transfer_id remote_path channel_id password)
message_of is_ip_addr (Command.upload_file _ _ _ _ _ _ _) = none
message_of is_ip_addr (Command.request_file_list request_id channel_id password path) =
    some (Message.file_list_request channel_id password path)
message_of is_ip_addr (Command.delete_file channel_id password path) =
    some (Message.delete_file channel_id password path)
message_of is_ip_addr (Command.create_directory channel_id password path) =
    some (Message.create_directory channel_id password path)
message_of is_ip_addr (Command.rename_file channel_id password target target_password old new) =
    some (Message.rename_file channel_id password target target_password old new)
message_of is_ip_addr (Command.file_info_request request_id channel_id password name) =
    some (Message.file_info_request channel_id password name)
message_of is_ip_addr (Command.use_token token) = some (Message.privilege_key_use token)
message_of is_ip_addr
      (Command.create_channel parent_id name topic description password max_clients permanent
        semi) =
    some (
      Message.channel_create (then_some (not (parent_id == 0)) parent_id) name topic description
        password max_clients (is_some password) permanent semi)
message_of is_ip_addr
      (Command.edit_channel channel_id name topic description password has_password max_clients
        permanent semi) =
    some (
      Message.channel_edit channel_id name topic has_password password permanent semi max_clients
        description)
message_of is_ip_addr (Command.delete_channel channel_id force) =
    some (Message.channel_delete channel_id force)
message_of is_ip_addr (Command.move_channel_tree channel_id parent_id order) =
    some (Message.channel_move channel_id parent_id order)
message_of is_ip_addr (Command.poke_client client_id message) =
    some (Message.client_poke_request client_id message)
message_of is_ip_addr (Command.set_channel_commander enabled) =
    some (Message.client_update (record no_update { is_channel_commander = some enabled }))
message_of is_ip_addr Command.disconnect = none
message_of is_ip_addr (Command.send_audio samples) = none
