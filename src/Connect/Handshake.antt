-- ===== src/Connect/Handshake.antt =====
-- native/src/api.rs: `do_connect`, the background task of an attempt. What tsclientlib answers is
-- given: whether the options are refused, the items of the stream, and the book of the server.
mod Progress
pub mod Waits
pub mod Concluded
pub mod Identity
use Prim.Native.Nat.{ℕ}
use beta.Base.{
  Bool, true, false, ◌||◌, Option, none, some, List, [], ◌∷◌, ◌++◌, Text, decimal, if◌then◌else◌,
  nat_equal,
}
use beta.Base.Map
use beta.Events.{TsChannel, TsClient, TsEvent, connected, connection_phase, diag}
use beta.Engine.{
  Engine, Session, TsConnection, session, update, update_state, push_event, push_diag,
}
use beta.Connect.Server.{
  ConnectOptions, parsed, StreamItem, StreamEnd, ServerBook, BookResult, Answers, ConnectResult,
  Handshake, book_events, identity_level_increasing, other_item, item_error, closed, elapsed,
  no_book, book, joined, failed, panicked, ready, ended, timed_out, broken,
}
use beta.Connect.Failures.{
  ConnectFailure, ConnectPhase, Error, as_str, into_event, classify_connect_error, resolving,
  connecting, authenticating, timeout_text, network_text,
}

-- "Raising identity level to ".
abbrev pub raising_message : Text
raising_message =
    82 ∷ 97 ∷ 105 ∷ 115 ∷ 105 ∷ 110 ∷ 103 ∷ 32 ∷ 105 ∷ 100 ∷ 101 ∷ 110 ∷ 116 ∷ 105 ∷ 116 ∷ 121 ∷ 32
    ∷ 108 ∷ 101 ∷ 118 ∷ 101 ∷ 108 ∷ 32 ∷ 116 ∷ 111 ∷ 32 ∷ []

-- "No answer from the server within 15s".
abbrev pub no_answer_message : Text
no_answer_message =
    78 ∷ 111 ∷ 32 ∷ 97 ∷ 110 ∷ 115 ∷ 119 ∷ 101 ∷ 114 ∷ 32 ∷ 102 ∷ 114 ∷ 111 ∷ 109 ∷ 32 ∷ 116 ∷ 104
    ∷ 101 ∷ 32 ∷ 115 ∷ 101 ∷ 114 ∷ 118 ∷ 101 ∷ 114 ∷ 32 ∷ 119 ∷ 105 ∷ 116 ∷ 104 ∷ 105 ∷ 110 ∷ 32
    ∷ 49 ∷ 53 ∷ 115 ∷ []

-- "The server closed the connection during the handshake".
abbrev pub closed_message : Text
closed_message =
    84 ∷ 104 ∷ 101 ∷ 32 ∷ 115 ∷ 101 ∷ 114 ∷ 118 ∷ 101 ∷ 114 ∷ 32 ∷ 99 ∷ 108 ∷ 111 ∷ 115 ∷ 101 ∷ 100
    ∷ 32 ∷ 116 ∷ 104 ∷ 101 ∷ 32 ∷ 99 ∷ 111 ∷ 110 ∷ 110 ∷ 101 ∷ 99 ∷ 116 ∷ 105 ∷ 111 ∷ 110 ∷ 32 ∷ 100
    ∷ 117 ∷ 114 ∷ 105 ∷ 110 ∷ 103 ∷ 32 ∷ 116 ∷ 104 ∷ 101 ∷ 32 ∷ 104 ∷ 97 ∷ 110 ∷ 100 ∷ 115 ∷ 104
    ∷ 97 ∷ 107 ∷ 101 ∷ []

-- "event_loop: exited normally".
abbrev pub exited_message : Text
exited_message =
    101 ∷ 118 ∷ 101 ∷ 110 ∷ 116 ∷ 95 ∷ 108 ∷ 111 ∷ 111 ∷ 112 ∷ 58 ∷ 32 ∷ 101 ∷ 120 ∷ 105 ∷ 116 ∷ 101
    ∷ 100 ∷ 32 ∷ 110 ∷ 111 ∷ 114 ∷ 109 ∷ 97 ∷ 108 ∷ 108 ∷ 121 ∷ []

pub failure : (Error → Text) → ConnectPhase → Error → ConnectFailure
failure describe phase e = record {
  kind = (classify_connect_error e).0;
  phase = phase;
  message = describe e;
  retryable = (classify_connect_error e).1;
}

pub timeout_failure : ConnectFailure
timeout_failure = record {
  kind = timeout_text;
  phase = authenticating;
  message = no_answer_message;
  retryable = true;
}

pub closed_failure : ConnectFailure
closed_failure = record {
  kind = network_text;
  phase = authenticating;
  message = closed_message;
  retryable = true;
}

pub of_end : StreamEnd → Handshake
of_end closed = ended
of_end elapsed = timed_out

pub join_state : ServerBook → TsConnection → TsConnection
join_state b st = record st {
  connecting = false;
  connected = true;
  server_name = b.name;
  server_uid = b.uid;
  own_client_id = b.own_client;
  channels = b.channels;
  clients = b.clients;
}

pub connected_event : ServerBook → TsEvent
connected_event b =
    connected b.name b.own_client b.codec_encryption_mode b.uid b.welcome_message b.host_message
      b.host_message_mode b.max_clients b.needed_identity_security_level

pub set_idle : TsConnection → TsConnection
set_idle st = record st { connecting = false }

module _ {Tx : Type 0} where
  pub push_phase : Engine Tx → ℕ → ConnectPhase → Engine Tx
  push_phase e conn_id phase = push_event e conn_id (connection_phase (as_str phase))

  -- The authentication phase is announced once.
  pub announce : Engine Tx → ℕ → Bool → Engine Tx
  unfolding push_phase
  announce e conn_id announced = if announced then e else push_phase e conn_id authenticating

  pub handshake : Engine Tx → ℕ → Bool → List StreamItem → StreamEnd → Engine Tx × Handshake
  unfolding announce of_end
  handshake e conn_id announced [] end = (e, of_end end)
  handshake e conn_id announced (book_events ∷ items) end = (e, ready)
  handshake e conn_id announced (identity_level_increasing level ∷ items) end =
      handshake
        (push_event (announce e conn_id announced) conn_id
          (diag (raising_message ++ decimal level)))
        conn_id true items end
  handshake e conn_id announced (other_item ∷ items) end =
      handshake (announce e conn_id announced) conn_id true items end
  handshake e conn_id announced (item_error error ∷ items) end = (e, broken error)

  pub keep_identity : Option Text → Engine Tx → Engine Tx
  keep_identity none e = e
  keep_identity (some json) e = record e { identity_stash = some json }

  -- From the book on. The look-up of the session panics where there is none.
  pub join : Engine Tx → ℕ → Tx → Answers → ServerBook → Engine Tx × ConnectResult
  unfolding join_state connected_event keep_identity
  join e conn_id tx answers b = elim (Map.get conn_id e.sessions) [
    | none ↦ (e, panicked)
    | some s ↦
        let e1 =
          update e conn_id
            (λ s'. record s' { command_tx = some tx; state = join_state b s'.state }) in
        let e2 = keep_identity answers.identity_json (push_event e1 conn_id (connected_event b)) in
        let e3 = update e2 conn_id (λ s'. record s' { connection = true }) in
        (record e3 { output_stream = e3.output_stream || answers.audio_opens }, joined)
  ]

  pub with_book :
      (describe : Error → Text)
      → Answers
      → Tx
      → Engine Tx
      → ℕ
      → BookResult
      → Engine Tx × ConnectResult
  unfolding join
  with_book describe answers tx e conn_id (no_book error) =
      (e, failed (failure describe authenticating error))
  with_book describe answers tx e conn_id (book b) = join e conn_id tx answers b

  pub after_handshake :
      (describe : Error → Text)
      → Answers
      → Tx
      → Engine Tx
      → ℕ
      → Handshake
      → Engine Tx × ConnectResult
  unfolding with_book
  after_handshake describe answers tx e conn_id timed_out = (e, failed timeout_failure)
  after_handshake describe answers tx e conn_id (broken error) =
      (e, failed (failure describe authenticating error))
  after_handshake describe answers tx e conn_id ended = (e, failed closed_failure)
  after_handshake describe answers tx e conn_id ready =
      with_book describe answers tx e conn_id answers.get_state

  -- The identity that was kept is taken out, whatever comes of the attempt.
  unfoldable pub do_connect :
      (describe : Error → Text) (is_identity : Text → Bool) (answers : Answers) (tx : Tx)
      → Engine Tx
      → (conn_id : ℕ) (address nickname : Text) (channel password channel_password : Option Text)
      → Engine Tx × ConnectResult
  unfolding push_phase handshake after_handshake
  do_connect describe is_identity answers tx e conn_id address nickname channel password
        channel_password =
      let e1 = record (push_phase e conn_id resolving) { identity_stash = none } in
      elim (answers.connect (record {
        address = address;
        name = nickname;
        identity = parsed is_identity e.identity_stash;
        channel = channel;
        password = password;
        channel_password = channel_password;
      })) [
        | some error ↦ (e1, failed (failure describe resolving error))
        | none ↦
            let (e2, outcome) =
              handshake (push_phase e1 conn_id connecting) conn_id false answers.items
                answers.end in
            after_handshake describe answers tx e2 conn_id outcome
      ]

  -- The background task: `do_connect`, and what becomes of its result.
  unfoldable pub finish_attempt : Engine Tx → ℕ → ConnectResult → Engine Tx
  unfolding set_idle
  finish_attempt e conn_id joined = update e conn_id (λ s. record s { connect_task = false })
  finish_attempt e conn_id (failed f) =
      update (push_event (update_state e conn_id set_idle) conn_id (into_event f)) conn_id
        (λ s. record s { connect_task = false })
  finish_attempt e conn_id panicked = e

  -- The task that runs the event loop takes the connection; without one it does not start.
  unfoldable pub start_event_loop : Engine Tx → ℕ → Engine Tx
  start_event_loop e conn_id = elim (Map.get conn_id e.sessions) [
    | none ↦ e
    | some s ↦
        if s.connection
        then update e conn_id (λ s'. record s' { connection = false; event_loop_alive = true })
        else e
  ]

  unfoldable pub end_event_loop : Engine Tx → ℕ → Engine Tx
  end_event_loop e conn_id =
      update (push_diag e conn_id exited_message) conn_id
        (λ s. record s { event_loop_alive = false })
