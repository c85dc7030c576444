-- ===== src/Disconnect.antt =====
-- The end of a session, by the user, the server or the app, and what the engine tells and forgets
-- with it: native/src/api.rs, `drop_session_audio` and `flush_panic_log` of native/src/lib.rs.
pub mod Audio
pub mod Gone
mod Asked
mod Tests
use Prim.Native.Nat.{ℕ}
use beta.Base.{
  Bool, true, false, ◌||◌, ◌&&◌, not, Option, none, some, List, [], ◌∷◌, ◌++◌, Text, keep, is_empty,
  map, ◌==◌, ◌===◌, if◌then◌else◌, nat_equal, pair_equal,
}
use beta.Base.Map
use beta.Base.Map.{Map}
use beta.Command.{Command, disconnect}
use beta.Events.{TsEvent, EnvelopedEvent, TsChannel, disconnected, diag}
use beta.Engine.{
  Engine, Session, TsConnection, AudioKey, session, update, update_state, push_event, push_diag,
}

-- `any` over the sessions.
pub any_connected : {Tx : Type 0} → Map ℕ (Session Tx) → Bool
any_connected [] = false
any_connected ((id, s) ∷ rest) = s.state.connected || any_connected rest

-- Whether a key is in a list of keys.
abbrev pub has_key : AudioKey → List AudioKey → Bool
has_key key [] = false
has_key key (k ∷ ks) = (k === key) || has_key key ks

abbrev pub without_key : AudioKey → List AudioKey → List AudioKey
without_key key = keep λ k. not (k === key)

-- "ts_disconnect: event_loop_alive=true".
abbrev pub alive_note : Text
alive_note =
    116 ∷ 115 ∷ 95 ∷ 100 ∷ 105 ∷ 115 ∷ 99 ∷ 111 ∷ 110 ∷ 110 ∷ 101 ∷ 99 ∷ 116 ∷ 58 ∷ 32 ∷ 101 ∷ 118
    ∷ 101 ∷ 110 ∷ 116 ∷ 95 ∷ 108 ∷ 111 ∷ 111 ∷ 112 ∷ 95 ∷ 97 ∷ 108 ∷ 105 ∷ 118 ∷ 101 ∷ 61 ∷ 116
    ∷ 114 ∷ 117 ∷ 101 ∷ []

-- "ts_disconnect: event_loop_alive=false".
abbrev pub dead_note : Text
dead_note =
    116 ∷ 115 ∷ 95 ∷ 100 ∷ 105 ∷ 115 ∷ 99 ∷ 111 ∷ 110 ∷ 110 ∷ 101 ∷ 99 ∷ 116 ∷ 58 ∷ 32 ∷ 101 ∷ 118
    ∷ 101 ∷ 110 ∷ 116 ∷ 95 ∷ 108 ∷ 111 ∷ 111 ∷ 112 ∷ 95 ∷ 97 ∷ 108 ∷ 105 ∷ 118 ∷ 101 ∷ 61 ∷ 102 ∷ 97
    ∷ 108 ∷ 115 ∷ 101 ∷ []

pub keys_of : ℕ → List AudioKey → List AudioKey
keys_of connection_id = keep λ k. k.0 == connection_id

pub set_offline : TsConnection → TsConnection
set_offline st = record st { connected = false; disconnect_requested = false }

module _ {Tx : Type 0} where
  pub any_session_listening : Engine Tx → Bool
  unfolding any_connected
  any_session_listening e = any_connected e.sessions

  pub refresh_active_client_snapshot : Engine Tx → Engine Tx
  refresh_active_client_snapshot e = record e { active_client_ids = e.client_buffers }

  -- The three tables without an entry of the key.
  pub drop_key : Engine Tx → AudioKey → Engine Tx
  drop_key e key = record e {
    client_buffers = without_key key e.client_buffers;
    audio_decoders = without_key key e.audio_decoders;
    audio_decoders_stereo = without_key key e.audio_decoders_stereo;
  }

  pub drop_keys : Engine Tx → List AudioKey → Engine Tx
  unfolding drop_key
  drop_keys e [] = e
  drop_keys e (key ∷ keys) = drop_keys (drop_key e key) keys

  unfoldable pub drop_session_audio : Engine Tx → (connection_id : ℕ) → Engine Tx
  unfolding drop_keys keys_of refresh_active_client_snapshot
  drop_session_audio e connection_id =
      refresh_active_client_snapshot (drop_keys e (keys_of connection_id e.client_buffers))

  pub close_channel : Session Tx → Session Tx
  close_channel s = record s { command_tx = none; event_loop_alive = false }

  pub close_output : Engine Tx → Engine Tx
  unfolding any_session_listening
  close_output e = if any_session_listening e then e else record e { output_stream = false }

  pub remove_session : Engine Tx → ℕ → Engine Tx
  remove_session e conn_id = record e { sessions = Map.remove conn_id e.sessions }

  unfoldable pub finalize_disconnect :
      Engine Tx → (conn_id : ℕ) (reason : Text) (expected : Bool) → Engine Tx
  unfolding set_offline close_channel close_output remove_session
  finalize_disconnect e conn_id reason expected =
      let e1 =
        push_event (update_state e conn_id set_offline) conn_id (disconnected reason expected) in
      let e2 = drop_session_audio (update e1 conn_id close_channel) conn_id in
      remove_session (close_output e2) conn_id

  pub ask_to_leave : Session Tx → Session Tx
  ask_to_leave s = record s {
    state = record s.state { disconnect_requested = true };
    command_tx = none;
  }

  pub take_connection : Session Tx → Session Tx
  take_connection s = record s { connection = false }

  -- The end of a session without an event loop, after the protocol's own farewell.
  pub leave_directly : Engine Tx → ℕ → Engine Tx
  unfolding take_connection set_offline remove_session
  leave_directly e conn_id =
      remove_session
        (drop_session_audio (update_state (update e conn_id take_connection) conn_id set_offline)
          conn_id)
        conn_id

-- `send` is the channel of tokio.
module _ {Tx : Type 0} (send : Tx → Command → Option Tx) where
  -- The command that the event loop gets, where it still listens.
  pub leave_command : Session Tx → Option Tx
  leave_command s = elim s.command_tx [ none ↦ none | some tx ↦ send tx disconnect ]

  -- The engine, and the channel with the command where that is sent.
  unfoldable pub ts_disconnect : Engine Tx → (conn_id : ℕ) → Engine Tx × Option Tx
  unfolding ask_to_leave leave_command leave_directly
  ts_disconnect e conn_id = elim (Map.get conn_id e.sessions) [
    | none ↦ (push_diag e conn_id dead_note, none)
    | some s ↦
        if s.event_loop_alive
        then (update (push_diag e conn_id alive_note) conn_id ask_to_leave, leave_command s)
        else if s.connection
        then (leave_directly (push_diag e conn_id dead_note) conn_id, none)
        else (push_diag e conn_id dead_note, none)
  ]

module _ {Tx : Type 0} where
  unfoldable pub ts_restart_audio_output : Engine Tx → Engine Tx
  unfolding any_session_listening
  ts_restart_audio_output e =
      if any_session_listening e then record e { output_restart_requested = true } else e

  pub flush_panic_log : Engine Tx → Engine Tx
  flush_panic_log e =
      if is_empty e.panic_log
      then e
      else push_event (record e { panic_log = [] }) 0 (diag e.panic_log)

  unfoldable pub ts_poll_events : Engine Tx → Engine Tx × List EnvelopedEvent
  unfolding flush_panic_log
  ts_poll_events e = let e' = flush_panic_log e in (record e' { event_queue = [] }, e'.event_queue)

  unfoldable pub ts_get_channels : Engine Tx → (conn_id : ℕ) → List TsChannel
  ts_get_channels e conn_id = elim (session e conn_id) [
    | none ↦ []
    | some st ↦ if st.connected then st.channels else []
  ]
