-- ===== src/EventLoop/Execute.antt =====
-- native/src/api.rs, `event_loop`: the commands that are ready, one by one.
use Prim.Native.Nat.{ℕ}
use beta.Base.{
  Bool, true, false, Option, none, some, List, [], ◌∷◌, ◌++◌, Text, is_empty, if◌then◌else◌,
  nat_equal,
}
use beta.Base.Word.{as_u32}
use beta.Command.{Command}
use beta.Events.{TsEvent, error, server_file_list, server_file_info}
use beta.Engine.{Engine, session, update_state, push_event}
use beta.Disconnect.{finalize_disconnect}
use beta.Transfers.{send_upload}
use beta.EventLoop.Wire.{Message, Sent, message, upload, farewell}
use beta.EventLoop.Messages.{message_of}
use beta.EventLoop.Vad.{Floats}
use beta.EventLoop.Voice.{send_audio}
use beta.EventLoop.Hearing.{Buffers}

-- What the loop works on: the engine with the jitter buffers, the encoder of the session, the calls
-- of tsclientlib so far, and the time of the last notice.
pub record World (Tx Coder : Type 0) : Type 0 where
  pub engine : Engine Tx
  pub buffers : Buffers
  pub coder : Coder
  pub sent : List Sent
  pub last_throttle_notice : ℕ

-- What is outside: `encode` is that of the Opus encoder, `failure` the error that the last of the
-- calls of tsclientlib returns, `upload_handle` what it returns for an upload, `gain_of` and
-- `decibels_of` turn dB into a factor and back.
pub record Outside (Coder : Type 0) : Type 0 where
  pub f32 : Floats
  pub encode : Coder → List ℕ → Coder × Option (List ℕ)
  pub failure : List Sent → Option Text
  pub upload_handle : List Sent → Option ℕ
  pub is_ip_addr : Text → Bool
  pub gain_of : ℕ → ℕ
  pub decibels_of : ℕ → ℕ

-- "Failed to send text message: {}", "list request failed: {}", "Failed to use permission key",
-- "User disconnected" and "Connection closed by server".
abbrev pub send_failed : Text
send_failed =
    70 ∷ 97 ∷ 105 ∷ 108 ∷ 101 ∷ 100 ∷ 32 ∷ 116 ∷ 111 ∷ 32 ∷ 115 ∷ 101 ∷ 110 ∷ 100 ∷ 32 ∷ 116 ∷ 101
    ∷ 120 ∷ 116 ∷ 32 ∷ 109 ∷ 101 ∷ 115 ∷ 115 ∷ 97 ∷ 103 ∷ 101 ∷ 58 ∷ 32 ∷ []

abbrev pub list_failed : Text
list_failed =
    108 ∷ 105 ∷ 115 ∷ 116 ∷ 32 ∷ 114 ∷ 101 ∷ 113 ∷ 117 ∷ 101 ∷ 115 ∷ 116 ∷ 32 ∷ 102 ∷ 97 ∷ 105 ∷ 108
    ∷ 101 ∷ 100 ∷ 58 ∷ 32 ∷ []

abbrev pub key_failed : Text
key_failed =
    70 ∷ 97 ∷ 105 ∷ 108 ∷ 101 ∷ 100 ∷ 32 ∷ 116 ∷ 111 ∷ 32 ∷ 117 ∷ 115 ∷ 101 ∷ 32 ∷ 112 ∷ 101 ∷ 114
    ∷ 109 ∷ 105 ∷ 115 ∷ 115 ∷ 105 ∷ 111 ∷ 110 ∷ 32 ∷ 107 ∷ 101 ∷ 121 ∷ []

abbrev pub user_left : Text
user_left =
    85 ∷ 115 ∷ 101 ∷ 114 ∷ 32 ∷ 100 ∷ 105 ∷ 115 ∷ 99 ∷ 111 ∷ 110 ∷ 110 ∷ 101 ∷ 99 ∷ 116 ∷ 101 ∷ 100
    ∷ []

abbrev pub closed_by_server : Text
closed_by_server =
    67 ∷ 111 ∷ 110 ∷ 110 ∷ 101 ∷ 99 ∷ 116 ∷ 105 ∷ 111 ∷ 110 ∷ 32 ∷ 99 ∷ 108 ∷ 111 ∷ 115 ∷ 101 ∷ 100
    ∷ 32 ∷ 98 ∷ 121 ∷ 32 ∷ 115 ∷ 101 ∷ 114 ∷ 118 ∷ 101 ∷ 114 ∷ []

-- The commands whose failure is reported, and how.
pub failure_event : Command → (reason : Text) → Option TsEvent
failure_event (Command.send_message _ _ _) reason = some (error (send_failed ++ reason))
failure_event (Command.request_file_list request_id channel_id _ _) reason =
    some
      (server_file_list request_id (as_u32 channel_id) [] false (some (list_failed ++ reason)) [])
failure_event (Command.file_info_request request_id channel_id _ _) reason =
    some (server_file_info request_id (as_u32 channel_id) [] [] 0 0 false)
failure_event (Command.use_token _) reason = some (error key_failed)
failure_event other reason = none

module _ {Tx Coder : Type 0} (outside : Outside Coder) (conn_id : ℕ) where
  abbrev pub with_engine : World Tx Coder → Engine Tx → World Tx Coder
  with_engine w e = record w { engine = e }

  -- A call of tsclientlib.
  abbrev pub call : World Tx Coder → Sent → World Tx Coder
  call w sent = record w { sent = w.sent ++ sent ∷ [] }

  -- `con.disconnect`, and the end of the session.
  unfoldable pub leave : World Tx Coder → World Tx Coder
  leave w =
      let w' = call w farewell in
      with_engine w' (finalize_disconnect w'.engine conn_id user_left true)

  unfoldable pub report : Command → Option Text → Engine Tx → Engine Tx
  unfolding failure_event
  report c none e = e
  report c (some reason) e = elim (failure_event c reason) [
    | none ↦ e
    | some event ↦ push_event e conn_id event
  ]

  unfoldable pub send_message : World Tx Coder → Command → Message → World Tx Coder
  unfolding report
  send_message w c m =
      let w' = call w (message m) in with_engine w' (report c (outside.failure w'.sent) w'.engine)

  unfoldable pub speak : World Tx Coder → (samples : List ℕ) → World Tx Coder
  speak w samples = elim (session w.engine conn_id) [
    | none ↦ w
    | some st ↦
        let m =
          send_audio outside.f32 outside.encode outside.failure
            (record { state = st; coder = w.coder; sent = w.sent }) samples in
        record w {
          engine = update_state w.engine conn_id (λ _. m.state);
          coder = m.coder;
          sent = m.sent;
        }
  ]

  -- The commands that are no single message. The Boolean says whether the loop goes on.
  unfoldable pub perform : World Tx Coder → Command → World Tx Coder × Bool
  unfolding leave speak
  perform w Command.disconnect = (leave w, false)
  perform w (Command.send_audio samples) = (speak w samples, true)
  perform w
        (Command.upload_file transfer_id channel_id channel_password remote_path source_path size
          overwrite) =
      let password = if is_empty channel_password then none else some channel_password in
      let w' = call w (upload channel_id remote_path password size overwrite) in
      (
        with_engine w' (
            send_upload w'.engine conn_id (outside.upload_handle w'.sent) transfer_id source_path
              remote_path),
        true,
      )
  perform w other = (w, true)

  unfoldable pub execute : World Tx Coder → Command → World Tx Coder × Bool
  unfolding send_message perform
  execute w c = elim (message_of outside.is_ip_addr c) [
    | none ↦ perform w c
    | some m ↦ (send_message w c m, true)
  ]

  -- `for cmd in ready`, which returns where the session is gone.
  unfoldable pub run_ready : World Tx Coder → List Command → World Tx Coder × Bool
  unfolding execute
  run_ready w [] = (w, true)
  run_ready w (c ∷ cs) =
      let (w', goes_on) = execute w c in
      let rest = run_ready w' cs in
      elim (session w.engine conn_id) [
        | none ↦ (w, false)
        | some _ ↦ if goes_on then rest else (w', false)
      ]
