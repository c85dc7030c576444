-- ===== src/Connect/Failures.antt =====
-- native/src/lib.rs and native/src/api.rs: the phases of a connection attempt, its failures, and
-- which of them are worth another attempt.
pub mod Retry
use Prim.Native.Nat.{ℕ}
use beta.Base.{Bool, true, false, List, [], ◌∷◌, Text}
use beta.Events.{TsEvent, connect_failed}

abbrev pub resolving_text : Text
resolving_text = 114 ∷ 101 ∷ 115 ∷ 111 ∷ 108 ∷ 118 ∷ 105 ∷ 110 ∷ 103 ∷ []

abbrev pub connecting_text : Text
connecting_text = 99 ∷ 111 ∷ 110 ∷ 110 ∷ 101 ∷ 99 ∷ 116 ∷ 105 ∷ 110 ∷ 103 ∷ []

abbrev pub authenticating_text : Text
authenticating_text =
    97 ∷ 117 ∷ 116 ∷ 104 ∷ 101 ∷ 110 ∷ 116 ∷ 105 ∷ 99 ∷ 97 ∷ 116 ∷ 105 ∷ 110 ∷ 103 ∷ []

abbrev pub connected_text : Text
connected_text = 99 ∷ 111 ∷ 110 ∷ 110 ∷ 101 ∷ 99 ∷ 116 ∷ 101 ∷ 100 ∷ []

abbrev pub dns_text : Text
dns_text = 100 ∷ 110 ∷ 115 ∷ []

abbrev pub timeout_text : Text
timeout_text = 116 ∷ 105 ∷ 109 ∷ 101 ∷ 111 ∷ 117 ∷ 116 ∷ []

abbrev pub network_text : Text
network_text = 110 ∷ 101 ∷ 116 ∷ 119 ∷ 111 ∷ 114 ∷ 107 ∷ []

abbrev pub identity_level_text : Text
identity_level_text =
    105 ∷ 100 ∷ 101 ∷ 110 ∷ 116 ∷ 105 ∷ 116 ∷ 121 ∷ 95 ∷ 108 ∷ 101 ∷ 118 ∷ 101 ∷ 108 ∷ []

abbrev pub server_identity_changed_text : Text
server_identity_changed_text =
    115 ∷ 101 ∷ 114 ∷ 118 ∷ 101 ∷ 114 ∷ 95 ∷ 105 ∷ 100 ∷ 101 ∷ 110 ∷ 116 ∷ 105 ∷ 116 ∷ 121 ∷ 95 ∷ 99
    ∷ 104 ∷ 97 ∷ 110 ∷ 103 ∷ 101 ∷ 100 ∷ []

abbrev pub protocol_text : Text
protocol_text = 112 ∷ 114 ∷ 111 ∷ 116 ∷ 111 ∷ 99 ∷ 111 ∷ 108 ∷ []

abbrev pub unknown_text : Text
unknown_text = 117 ∷ 110 ∷ 107 ∷ 110 ∷ 111 ∷ 119 ∷ 110 ∷ []

abbrev pub password_text : Text
password_text = 112 ∷ 97 ∷ 115 ∷ 115 ∷ 119 ∷ 111 ∷ 114 ∷ 100 ∷ []

abbrev pub channel_password_text : Text
channel_password_text =
    99 ∷ 104 ∷ 97 ∷ 110 ∷ 110 ∷ 101 ∷ 108 ∷ 95 ∷ 112 ∷ 97 ∷ 115 ∷ 115 ∷ 119 ∷ 111 ∷ 114 ∷ 100 ∷ []

abbrev pub banned_text : Text
banned_text = 98 ∷ 97 ∷ 110 ∷ 110 ∷ 101 ∷ 100 ∷ []

abbrev pub nickname_in_use_text : Text
nickname_in_use_text =
    110 ∷ 105 ∷ 99 ∷ 107 ∷ 110 ∷ 97 ∷ 109 ∷ 101 ∷ 95 ∷ 105 ∷ 110 ∷ 95 ∷ 117 ∷ 115 ∷ 101 ∷ []

abbrev pub server_full_text : Text
server_full_text = 115 ∷ 101 ∷ 114 ∷ 118 ∷ 101 ∷ 114 ∷ 95 ∷ 102 ∷ 117 ∷ 108 ∷ 108 ∷ []

abbrev pub server_refused_text : Text
server_refused_text =
    115 ∷ 101 ∷ 114 ∷ 118 ∷ 101 ∷ 114 ∷ 95 ∷ 114 ∷ 101 ∷ 102 ∷ 117 ∷ 115 ∷ 101 ∷ 100 ∷ []

abbrev pub cancelled_text : Text
cancelled_text = 99 ∷ 97 ∷ 110 ∷ 99 ∷ 101 ∷ 108 ∷ 108 ∷ 101 ∷ 100 ∷ []

pub data ConnectPhase : Type 0 where
  resolving : ConnectPhase
  connecting : ConnectPhase
  authenticating : ConnectPhase
  connected : ConnectPhase

pub as_str : ConnectPhase → Text
as_str resolving = resolving_text
as_str connecting = connecting_text
as_str authenticating = authenticating_text
as_str connected = connected_text

pub record ConnectFailure : Type 0 where
  pub kind : Text
  pub phase : ConnectPhase
  pub message : Text
  pub retryable : Bool

unfoldable pub into_event : ConnectFailure → TsEvent
unfolding as_str
into_event f = connect_failed f.kind (as_str f.phase) f.message f.retryable

-- What is read of the errors of a server and of tsclientlib: each variant that is told apart.
pub data TsError : Type 0 where
  server_invalid_password : TsError
  client_invalid_password : TsError
  channel_invalid_password : TsError
  connect_failed_banned : TsError
  rename_failed_banned : TsError
  client_nickname_inuse : TsError
  server_maxclients_reached : TsError
  client_could_not_validate_identity : TsError
  other_refusal : TsError

mutual
  pub data Error : Type 0 where
    resolve_address : Error
    initserver_timeout : Error
    connect : Error
    connection_failed : Error
    connection_gone : Error
    io : Error
    not_connected : Error
    send_clientinit : Error
    send_packet : Error
    initserver_wait : Error
    identity_level : Error
    identity_level_corrupted : Error
    identity_level_increase_failed_thread : Error
    identity_create : Error
    server_uid_mismatch : Error
    initserver_parse : Error
    initserver_params_missing : Error
    filetransfer_io : Error
    connect_ts : TsError → Error
    command_error : TsError → Error
    connect_failed_all : Errors → Error
    other_error : Error

  pub data Errors : Type 0 where
    no_errors : Errors
    first_error : Error → Errors → Errors

pub classify_server_refusal : TsError → Text × Bool
classify_server_refusal server_invalid_password = (password_text, false)
classify_server_refusal client_invalid_password = (password_text, false)
classify_server_refusal channel_invalid_password = (channel_password_text, false)
classify_server_refusal connect_failed_banned = (banned_text, false)
classify_server_refusal rename_failed_banned = (banned_text, false)
classify_server_refusal client_nickname_inuse = (nickname_in_use_text, false)
classify_server_refusal server_maxclients_reached = (server_full_text, true)
classify_server_refusal client_could_not_validate_identity = (identity_level_text, false)
classify_server_refusal other_refusal = (server_refused_text, false)

pub classify_connect_error : Error → Text × Bool
unfolding classify_server_refusal
classify_connect_error resolve_address = (dns_text, true)
classify_connect_error initserver_timeout = (timeout_text, true)
classify_connect_error connect = (network_text, true)
classify_connect_error connection_failed = (network_text, true)
classify_connect_error connection_gone = (network_text, true)
classify_connect_error io = (network_text, true)
classify_connect_error not_connected = (network_text, true)
classify_connect_error send_clientinit = (network_text, true)
classify_connect_error send_packet = (network_text, true)
classify_connect_error initserver_wait = (network_text, true)
classify_connect_error identity_level = (identity_level_text, false)
classify_connect_error identity_level_corrupted = (identity_level_text, false)
classify_connect_error identity_level_increase_failed_thread = (identity_level_text, false)
classify_connect_error identity_create = (identity_level_text, false)
classify_connect_error server_uid_mismatch = (server_identity_changed_text, false)
classify_connect_error initserver_parse = (protocol_text, false)
classify_connect_error initserver_params_missing = (protocol_text, false)
classify_connect_error filetransfer_io = (protocol_text, false)
classify_connect_error (connect_ts e) = classify_server_refusal e
classify_connect_error (command_error e) = classify_server_refusal e
classify_connect_error (connect_failed_all no_errors) = (network_text, true)
classify_connect_error (connect_failed_all (first_error e es)) = classify_connect_error e
classify_connect_error other_error = (unknown_text, true)
