-- ===== src/Events.antt =====
-- native/src/lib.rs: the events and the roster that the engine hands to the user interface, and the
-- phases and failures of a connection attempt.
use Prim.Native.Nat.{ℕ}
use beta.Base.{Bool, Option, List, Text}
use beta.Base.Word.{Signed}

pub record TsServerFile : Type 0 where
  pub name : Text
  pub size : ℕ
  pub modified : ℕ
  pub is_directory : Bool

pub record TsChannel : Type 0 where
  pub id : ℕ
  pub name : Text
  pub parent_id : ℕ
  pub topic : Text
  pub has_password : Bool
  pub client_count : ℕ
  pub order : ℕ
  pub needed_talk_power : Signed
  pub max_clients : Signed
  pub codec : ℕ
  pub codec_quality : ℕ
  pub channel_type : ℕ
  pub is_default : Bool
  pub is_private : Bool
  pub subscribed : Bool
  pub icon_id : ℕ
  pub is_unencrypted : Bool

-- `volume` is the bit pattern of an `f32`.
pub record TsClient : Type 0 where
  pub id : ℕ
  pub nickname : Text
  pub channel_id : ℕ
  pub database_id : ℕ
  pub channel_group_id : ℕ
  pub channel_group_name : Option Text
  pub channel_group_icon_id : ℕ
  pub server_group_ids : List ℕ
  pub server_group_names : List Text
  pub server_group_icon_ids : List ℕ
  pub away : Bool
  pub input_muted : Bool
  pub output_muted : Bool
  pub is_talking : Bool
  pub is_whispering : Bool
  pub permission_hints : ℕ
  pub volume : ℕ
  pub uid : Option Text
  pub client_type : ℕ
  pub talk_power : Signed
  pub talk_power_granted : Bool
  pub is_priority_speaker : Bool
  pub is_channel_commander : Bool
  pub is_recording : Bool
  pub input_hardware_enabled : Bool
  pub output_hardware_enabled : Bool
  pub output_only_muted : Bool
  pub phonetic_name : Text
  pub country_code : Text
  pub metadata : Text
  pub avatar_hash : Text

pub data TsEvent : Type 0 where
  connected :
      (server_name : Text) (client_id : ℕ)
      (voice_encryption_mode server_uid welcome_message host_message : Text)
      (host_message_mode max_clients needed_identity_security_level : ℕ)
      → TsEvent
  disconnected : (reason : Text) (expected : Bool) → TsEvent
  text_message : (from_client : Text) (from_client_id target_mode : ℕ) (message : Text) → TsEvent
  client_joined : (client_id : ℕ) (nickname : Text) (channel_id : ℕ) → TsEvent
  client_left : (client_id : ℕ) (nickname : Text) → TsEvent
  channels_updated : TsEvent
  diag : (msg : Text) → TsEvent
  error : (message : Text) → TsEvent
  command_error : (code message : Text) (missing_permission : Option Text) → TsEvent
  network_stats :
      (rtt_ms rtt_deviation_ms jitter_ms packet_loss_percent bytes_in bytes_out : ℕ)
      (packets_in packets_out bandwidth_in bandwidth_out : ℕ)
      → TsEvent
  connection_phase : (phase : Text) → TsEvent
  file_transfer :
      (transfer_id : ℕ) (remote_path local_path : Text) (bytes : ℕ) (ok : Bool)
      (error : Option Text)
      → TsEvent
  file_transfer_progress : (transfer_id : ℕ) (remote_path : Text) (bytes total_bytes : ℕ) → TsEvent
  server_file_list :
      (request_id channel_id : ℕ) (path : Text) (ok : Bool) (error : Option Text)
      (files : List TsServerFile)
      → TsEvent
  server_file_info :
      (request_id channel_id : ℕ) (path name : Text) (size modified : ℕ) (ok : Bool) → TsEvent
  token_used : (token token1 token2 : Text) (client_db_id : ℕ) → TsEvent
  ban_list :
      (ban_id : ℕ) (ip name uid last_nickname : Text) (created duration : ℕ) (invoker_name : Text)
      → TsEvent
  complain_list :
      (target_db_id : ℕ) (target_name : Text) (from_db_id : ℕ) (from_name message : Text)
      (timestamp : ℕ)
      → TsEvent
  channel_description : (channel_id : ℕ) (description : Text) → TsEvent
  client_updated : (client_id : ℕ) (reason : Text) → TsEvent
  command_throttled : (pending : ℕ) (degraded : Bool) → TsEvent
  connect_failed : (kind phase message : Text) (retryable : Bool) → TsEvent

-- `connection_id` 0 marks an event of the whole engine.
pub record EnvelopedEvent : Type 0 where
  pub connection_id : ℕ
  pub event : TsEvent
