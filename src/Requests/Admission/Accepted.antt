-- ===== src/Requests/Admission/Accepted.antt =====
-- The requests that the entry points accept, in the words of the user interface.
use Prim.Native.Nat.{ℕ}
use beta.Base.{Bool, true, false, Option, some, Text, List, length, ◌≡◌, ◌≢◌, ◌≤◌, ◌<◌, arith}
use beta.Base.Word.{as_u16, u16_max}
use beta.Text.{CString, trim, opt_cstr, optional_reason, non_empty, or_empty}
use beta.Command.{
  Command, add_client_to_group, ban_client, ban_uid, delete_channel, delete_file, kick_client,
  move_channel, poke_client, remove_client_from_group, send_audio, send_message, set_away,
  set_muted, set_nickname, set_talker, subscribe_channel, use_token,
}
use beta.Engine.{Engine, is_connected, own_client_id}
use beta.Requests.Queue.{nonzero, queue_command}
use beta.Requests.Chat.{
  ts_send_channel_message, ts_send_private_message, ts_send_server_message, ts_move_to_channel,
}
use beta.Requests.Channels.{ts_subscribe_channel, ts_unsubscribe_channel, ts_delete_channel}
use beta.Requests.Moderation.{
  database_id_of, ts_kick_client, ts_ban_client, ts_ban_uid, ts_add_client_to_group,
  ts_remove_client_from_group, ts_set_talker, ts_poke_client,
}
use beta.Requests.Status.{ts_set_nickname, ts_set_away, ts_set_muted, ts_send_audio}
use beta.Requests.Files.{ts_delete_file, ts_use_token}
use beta.Requests.Calls.{
  Request, call, adds_to_group, bans, bans_uid, channel_message, deletes_channel, deletes_file,
  kicks, move_to_channel, pokes, private_message, removes_from_group, sends_audio, server_message,
  sets_away, sets_muted, sets_nickname, sets_talker, subscribes, unsubscribes, uses_token,
}

module _ {Tx : Type 0} (e : Engine Tx) (conn_id : ℕ) where
  -- `Asks r c`: the request `r` is valid in the session and asks for the command `c`.
  pub data Asks : Request → Command → Type 0 where
    asks_channel_message :
        (cid : ℕ) (message : Text)
        → 0 < length message
        → Asks (channel_message cid (some message)) (send_message 2 0 message)
    asks_private_message :
        (client_id : ℕ) (message : Text)
        → client_id ≢ 0
        → client_id ≤ u16_max
        → 0 < length message
        → Asks (private_message client_id (some message)) (send_message 1 client_id message)
    asks_server_message :
        (message : Text)
        → 0 < length message
        → Asks (server_message (some message)) (send_message 3 0 message)
    asks_move :
        (cid : ℕ) (password : CString)
        → Asks
            (move_to_channel cid password)
            (move_channel (as_u16 (own_client_id e conn_id)) cid (non_empty password))
    asks_subscription :
        (channel_id : ℕ)
        → channel_id ≢ 0
        → Asks (subscribes channel_id) (subscribe_channel channel_id false)
    asks_unsubscription :
        (channel_id : ℕ)
        → channel_id ≢ 0
        → Asks (unsubscribes channel_id) (subscribe_channel channel_id true)
    asks_deletion :
        (channel_id force : ℕ)
        → channel_id ≢ 0
        → Asks (deletes_channel channel_id force) (delete_channel channel_id (nonzero force))
    asks_kick :
        (client_id from_server : ℕ) (reason : CString)
        → client_id ≢ 0
        → client_id ≢ own_client_id e conn_id
        → Asks
            (kicks client_id from_server reason)
            (kick_client client_id (nonzero from_server) (optional_reason reason))
    asks_ban :
        (client_id seconds : ℕ) (reason : CString)
        → client_id ≢ 0
        → client_id ≢ own_client_id e conn_id
        → Asks
            (bans client_id seconds reason)
            (ban_client client_id seconds (optional_reason reason))
    asks_uid_ban :
        (uid : Text) (seconds : ℕ) (reason : CString)
        → 0 < length (trim uid)
        → Asks
            (bans_uid (some uid) seconds reason)
            (ban_uid (trim uid) seconds (optional_reason reason))
    asks_group_addition :
        (client_id group_id : ℕ)
        → group_id ≢ 0
        → database_id_of e conn_id client_id ≢ 0
        → Asks
            (adds_to_group client_id group_id)
            (add_client_to_group (database_id_of e conn_id client_id) group_id)
    asks_group_removal :
        (client_id group_id : ℕ)
        → group_id ≢ 0
        → database_id_of e conn_id client_id ≢ 0
        → Asks
            (removes_from_group client_id group_id)
            (remove_client_from_group (database_id_of e conn_id client_id) group_id)
    asks_silence :
        (client_id granted : ℕ)
        → client_id ≢ 0
        → client_id ≢ own_client_id e conn_id
        → Asks (sets_talker client_id granted) (set_talker client_id (nonzero granted))
    asks_poke :
        (client_id : ℕ) (message text : Text)
        → client_id ≢ 0
        → optional_reason (some message) ≡ some text
        → Asks (pokes client_id (some message)) (poke_client client_id text)
    asks_nickname :
        (name : Text)
        → 3 ≤ length (trim name)
        → length (trim name) ≤ 30
        → Asks (sets_nickname (some name)) (set_nickname (trim name))
    asks_away :
        (away : ℕ) (message : CString)
        → Asks (sets_away away message) (set_away (nonzero away) (opt_cstr message 200))
    asks_mute : (inp out : ℕ) → Asks (sets_muted inp out) (set_muted (nonzero inp) (nonzero out))
    asks_voice :
        (samples : List ℕ) → 0 < length samples → Asks (sends_audio samples) (send_audio samples)
    asks_file_deletion :
        (channel_id : ℕ) (path : Text) (password : CString)
        → 0 < length (trim path)
        → Asks
            (deletes_file channel_id (some path) password)
            (delete_file channel_id (or_empty password) (trim path))
    asks_token :
        (token : Text)
        → 0 < length (trim token)
        → Asks (uses_token (some token)) (use_token (trim token))

module _ {Tx : Type 0} (send : Tx → Command → Option Tx) (is_ip_addr : Text → Bool) (e : Engine Tx)
    (conn_id : ℕ) where
  -- No guard refuses a valid request in a connected session: the command that it asks for is given
  -- to `queue_command`, which still returns 0 where the channel is closed.
  pub call-Asks :
      (r : Request) (c : Command)
      → is_connected e conn_id ≡ true
      → Asks e conn_id r c
      → call send is_ip_addr e conn_id r ≡ queue_command send e conn_id c
  unfolding call ts_send_channel_message ts_send_private_message ts_send_server_message
      ts_move_to_channel ts_subscribe_channel ts_unsubscribe_channel ts_delete_channel
      ts_kick_client ts_ban_client ts_ban_uid ts_add_client_to_group ts_remove_client_from_group
      ts_set_talker ts_poke_client ts_set_nickname ts_set_away ts_set_muted ts_send_audio
      ts_delete_file ts_use_token
  call-Asks _ _ on (asks_channel_message cid message h0) = ground arith
  call-Asks _ _ on (asks_private_message client_id message h0 h1 h2) = ground arith
  call-Asks _ _ on (asks_server_message message h0) = ground arith
  call-Asks _ _ on (asks_move cid password) = ground arith
  call-Asks _ _ on (asks_subscription channel_id h0) = ground arith
  call-Asks _ _ on (asks_unsubscription channel_id h0) = ground arith
  call-Asks _ _ on (asks_deletion channel_id force h0) = ground arith
  call-Asks _ _ on (asks_kick client_id from_server reason h0 h1) = ground arith
  call-Asks _ _ on (asks_ban client_id seconds reason h0 h1) = ground arith
  call-Asks _ _ on (asks_uid_ban uid seconds reason h0) = ground arith
  call-Asks _ _ on (asks_group_addition client_id group_id h0 h1) = ground arith
  call-Asks _ _ on (asks_group_removal client_id group_id h0 h1) = ground arith
  call-Asks _ _ on (asks_silence client_id granted h0 h1) = ground arith
  call-Asks _ _ on (asks_poke client_id message text h0 h1) = ground arith
  call-Asks _ _ on (asks_nickname name h0 h1) = ground arith
  call-Asks _ _ on (asks_away away message) = ground arith
  call-Asks _ _ on (asks_mute inp out) = ground arith
  call-Asks _ _ on (asks_voice samples h0) = ground arith
  call-Asks _ _ on (asks_file_deletion channel_id path password h0) = ground arith
  call-Asks _ _ on (asks_token token h0) = ground arith
