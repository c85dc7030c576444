-- ===== src/EventLoop/Wire.antt =====
-- What the event loop of native/src/api.rs hands to tsclientlib: the parts of the messages, with
-- the fields that the engine sets, and the voice packets. A field that the engine always leaves out
-- is not here.
use Prim.Native.Nat.{ℕ}
use beta.Base.{Bool, Option, List, Text}
use beta.Base.Word.{Signed}

pub data Target : Type 0 where
  client : Target
  channel : Target
  server : Target

-- `OutClientUpdatePart`.
pub record ClientUpdate : Type 0 where
  pub name : Option Text
  pub input_muted : Option Bool
  pub output_muted : Option Bool
  pub is_away : Option Bool
  pub away_message : Option Text
  pub is_channel_commander : Option Bool

pub data Message : Type 0 where
  send_text_message : (target : Target) (target_client_id : Option ℕ) (message : Text) → Message
  client_move : (client_id channel_id : ℕ) (channel_password : Option Text) → Message
  client_update : ClientUpdate → Message
  client_kick : (client_id : ℕ) (from_server : Bool) (reason_message : Option Text) → Message
  ban_client : (client_id : ℕ) (time : Option Signed) (ban_reason : Option Text) → Message
  ban_add :
      (ip name : Option Text) (uid : Option (List ℕ)) (time : Option Signed)
      (ban_reason : Option Text)
      → Message
  ban_del : (ban_id : ℕ) → Message
  ban_list_request : Message
  channel_subscribe : (channel_id : ℕ) → Message
  channel_unsubscribe : (channel_id : ℕ) → Message
  channel_description_request : (channel_id : ℕ) → Message
  server_group_add_client : (server_group_id client_db_id : ℕ) → Message
  server_group_del_client : (server_group_id client_db_id : ℕ) → Message
  complain_add : (target_client_db_id : ℕ) (message : Text) → Message
  client_edit : (client_id : ℕ) (talk_power_granted : Bool) → Message
  client_poke_request : (client_id : ℕ) (message : Text) → Message
  init_download :
      (client_filetransfer_id : ℕ) (name : Text) (channel_id : ℕ) (channel_password : Text)
      → Message
  file_list_request : (channel_id : ℕ) (channel_password path : Text) → Message
  delete_file : (channel_id : ℕ) (channel_password name : Text) → Message
  create_directory : (channel_id : ℕ) (channel_password directory_name : Text) → Message
  rename_file :
      (channel_id : ℕ) (channel_password : Text) (target_channel_id : Option ℕ)
      (target_channel_password : Option Text) (old_name new_name : Text)
      → Message
  file_info_request : (channel_id : ℕ) (channel_password name : Text) → Message
  privilege_key_use : (token : Text) → Message
  channel_create :
      (parent_id : Option ℕ) (name : Text) (topic description password : Option Text)
      (max_clients : Option Signed) (has_password is_permanent is_semi_permanent : Bool)
      → Message
  channel_edit :
      (channel_id : ℕ) (name topic : Option Text) (has_password : Option Bool)
      (password : Option Text) (is_permanent is_semi_permanent : Option Bool)
      (max_clients : Option Signed) (description : Option Text)
      → Message
  channel_delete : (channel_id : ℕ) (force : Bool) → Message
  channel_move : (channel_id parent_id : ℕ) (order : Option ℕ) → Message

-- The stream of a voice packet: to the channel, or to the targets of a whisper.
pub data Stream : Type 0 where
  voice : Stream
  whisper : (channels clients : List ℕ) → Stream

pub record VoicePacket : Type 0 where
  pub stream : Stream
  pub id : ℕ
  pub payload : List ℕ

-- The calls of tsclientlib in their order.
pub data Sent : Type 0 where
  message : Message → Sent
  audio : VoicePacket → Sent
  upload :
      (channel_id : ℕ) (remote_path : Text) (channel_password : Option Text) (size : ℕ)
      (overwrite : Bool)
      → Sent
  farewell : Sent
