-- ===== src/Engine.antt =====
-- native/src/lib.rs: the state of one connection, of one session, and the statics of the engine.
-- A lock or an atomic is the value that it guards: each entry point runs as one step. An `f32` is
-- its bit pattern, an `Instant` a number of nanoseconds.
pub mod Laws
use Prim.Native.Nat.{ℕ, ◌+◌}
use beta.Base.{Bool, false, Option, none, some, List, [], ◌∷◌, ◌++◌, Text, nat_equal, decimal}
use beta.Base.Map
use beta.Base.Map.{Map}
use beta.Base.Word.{as_u64}
use beta.Budget
use beta.Budget.{CommandBudget}
use beta.Events.{TsServerFile, TsChannel, TsClient, TsEvent, EnvelopedEvent, diag}

-- 1.0 as an `f32`.
abbrev pub unit_gain : ℕ
unit_gain = 0x3f80_0000

-- `audio_encoder` says whether there is an Opus encoder.
pub record TsConnection : Type 0 where
  pub connected : Bool
  pub connecting : Bool
  pub server_name : Text
  pub server_uid : Text
  pub nickname : Text
  pub own_client_id : ℕ
  pub channels : List TsChannel
  pub clients : List TsClient
  pub pcm_in : List ℕ
  pub audio_encoder : Bool
  pub audio_seq : ℕ
  pub vad_threshold : ℕ
  pub vad_enabled : Bool
  pub vad_noise_floor : ℕ
  pub vad_hold : ℕ
  pub voice_active : Bool
  pub disconnect_requested : Bool
  pub mic_gain : ℕ
  pub talking_clients : Map ℕ ℕ
  pub whispering_clients : Map ℕ ℕ
  pub last_rtt_ms : ℕ
  pub jitter_ms : ℕ
  pub permission_hints : Map ℕ ℕ
  pub whisper_active : Bool
  pub whisper_target_clients : List ℕ
  pub whisper_target_channels : List ℕ
  pub whisper_seq : ℕ
  pub whisper_was_active : Bool
  pub whisper_allow_mode : ℕ
  pub whisper_allowed_uids : List Text
  pub whisper_ignored_count : ℕ
  pub file_list_buffers : Map (ℕ × Text) (List TsServerFile)

abbrev pub new_connection : TsConnection
new_connection = record {
  connected = false;
  connecting = false;
  server_name = [];
  server_uid = [];
  nickname = [];
  own_client_id = 0;
  channels = [];
  clients = [];
  pcm_in = [];
  audio_encoder = false;
  audio_seq = 0;
  vad_threshold = 0;
  vad_enabled = false;
  vad_noise_floor = 0;
  vad_hold = 0;
  voice_active = false;
  disconnect_requested = false;
  mic_gain = unit_gain;
  talking_clients = [];
  whispering_clients = [];
  last_rtt_ms = 0;
  jitter_ms = 0;
  permission_hints = [];
  whisper_active = false;
  whisper_target_clients = [];
  whisper_target_channels = [];
  whisper_seq = 0;
  whisper_was_active = false;
  whisper_allow_mode = 0;
  whisper_allowed_uids = [];
  whisper_ignored_count = 0;
  file_list_buffers = [];
}

pub record PendingTransfer : Type 0 where
  pub target_path : Text
  pub max_bytes : ℕ
  pub remote_path : Text

pub record UploadJob : Type 0 where
  pub transfer_id : ℕ
  pub source_path : Text
  pub remote_path : Text

-- `Tx` is the sending half of the tokio channel; `connect_task` and `connection` say whether the
-- task handle and the stashed connection are there.
pub record Session (Tx : Type 0) : Type 0 where
  pub state : TsConnection
  pub command_tx : Option Tx
  pub command_budget : CommandBudget
  pub pending_transfers : Map ℕ PendingTransfer
  pub upload_jobs : Map ℕ UploadJob
  pub pending_file_requests : Map (ℕ × Text) ℕ
  pub pending_file_info_requests : Map (ℕ × Text) ℕ
  pub next_transfer_id : ℕ
  pub next_request_id : ℕ
  pub server_host : Text
  pub generation : ℕ
  pub event_loop_alive : Bool
  pub connect_task : Bool
  pub connection : Bool

-- A connection and a client of it.
abbrev pub AudioKey : Type 0
AudioKey = ℕ × ℕ

-- The statics of the engine. Of the tables of audio there are the keys.
pub record Engine (Tx : Type 0) : Type 0 where
  pub next_connection_id : ℕ
  pub sessions : Map ℕ (Session Tx)
  pub identity_stash : Option Text
  pub event_queue : List EnvelopedEvent
  pub client_volumes : Map Text ℕ
  pub output_restart_requested : Bool
  pub log_level : ℕ
  pub panic_log : Text
  pub diag_seq : ℕ
  pub client_buffers : List AudioKey
  pub audio_decoders : List AudioKey
  pub audio_decoders_stereo : List AudioKey
  pub active_client_ids : List AudioKey
  pub output_stream : Bool

module _ {Tx : Type 0} where
  abbrev pub new_session : ℕ → TsConnection → ℕ → Session Tx
  new_session id state now = record {
    state = state;
    command_tx = none;
    command_budget = Budget.new now;
    pending_transfers = [];
    upload_jobs = [];
    pending_file_requests = [];
    pending_file_info_requests = [];
    next_transfer_id = 1;
    next_request_id = 1;
    server_host = [];
    generation = id;
    event_loop_alive = false;
    connect_task = false;
    connection = false;
  }

  -- The statics at the start of a release build.
  abbrev pub new_engine : Engine Tx
  new_engine = record {
    next_connection_id = 1;
    sessions = [];
    identity_stash = none;
    event_queue = [];
    client_volumes = [];
    output_restart_requested = false;
    log_level = 2;
    panic_log = [];
    diag_seq = 0;
    client_buffers = [];
    audio_decoders = [];
    audio_decoders_stereo = [];
    active_client_ids = [];
    output_stream = false;
  }

  -- `crate::session(id)`.
  abbrev pub session : Engine Tx → ℕ → Option TsConnection
  session e id = elim (Map.get id e.sessions) [ none ↦ none | some s ↦ some s.state ]

  -- A change of the session with the id, through its locks; nothing happens where there is none.
  abbrev pub update : Engine Tx → ℕ → (Session Tx → Session Tx) → Engine Tx
  update e id f = record e { sessions = Map.adjust id f e.sessions }

  abbrev pub update_state : Engine Tx → ℕ → (TsConnection → TsConnection) → Engine Tx
  update_state e id f = update e id (λ s. record s { state = f s.state })

  unfoldable pub push_event : Engine Tx → ℕ → TsEvent → Engine Tx
  push_event e id event = record e {
    event_queue = e.event_queue ++ record { connection_id = id; event = event } ∷ [];
  }

  unfoldable pub push_diag : Engine Tx → ℕ → Text → Engine Tx
  unfolding push_event
  push_diag e id msg =
      push_event (record e { diag_seq = as_u64 (e.diag_seq + 1) }) id
        (diag (35 ∷ decimal e.diag_seq ++ 32 ∷ msg))

  -- `session(id).map(|state| state.lock().connected).unwrap_or(false)`, the first line of most
  -- entry points.
  unfoldable pub is_connected : Engine Tx → ℕ → Bool
  is_connected e id = elim (session e id) [ none ↦ false | some st ↦ st.connected ]

  unfoldable pub own_client_id : Engine Tx → ℕ → ℕ
  own_client_id e id = elim (session e id) [ none ↦ 0 | some st ↦ st.own_client_id ]
