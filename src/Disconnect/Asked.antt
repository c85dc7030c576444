-- ===== src/Disconnect/Asked.antt =====
-- A session that the user leaves, and how the events reach the user interface.
use Prim.Native.Nat.{ℕ}
use beta.Base.{
  true, false, Option, none, some, [], ◌∷◌, ◌++◌, is_empty, if◌then◌else◌, nat_equal, ◌≡◌, refl,
  arith,
}
use beta.Base.Map
use beta.Command.{Command, disconnect}
use beta.Events.{TsEvent, diag}
use beta.Engine.{Engine, Session, update, update_state, push_event, push_diag}
use beta.Engine.Laws.{get-update}
use beta.Requests.Queue.{queue_command, send_to}
use beta.Disconnect.{
  alive_note, dead_note, ask_to_leave, leave_command, leave_directly, remove_session, ts_disconnect,
  take_connection, set_offline, drop_session_audio, ts_poll_events, flush_panic_log,
}

leave_directly-gone :
    {Tx : Type 0} (e : Engine Tx) (conn_id : ℕ)
    → Map.get conn_id (leave_directly e conn_id).sessions ≡ none
unfolding leave_directly remove_session take_connection
leave_directly-gone e conn_id =
    let farewell =
      drop_session_audio (update_state (update e conn_id take_connection) conn_id set_offline)
        conn_id in
    ground
      (arith, Map.get-remove conn_id conn_id farewell.sessions, nat_equal.test_iff conn_id conn_id)

module _ {Tx : Type 0} (send : Tx → Command → Option Tx) (e : Engine Tx) (conn_id : ℕ) where
  -- Where the event loop of a session runs and its channel is there, ts_disconnect sets the flag,
  -- sends the command and closes the channel: from then on no command of an entry point is queued.
  ts_disconnect_alive :
      (s : Session Tx) (tx : Tx) (c : Command)
      → Map.get conn_id e.sessions ≡ some s
      → s.event_loop_alive ≡ true
      → s.command_tx ≡ some tx
      → let (e', left) = ts_disconnect send e conn_id in
        (left ≡ send tx disconnect)
        × (Map.get conn_id e'.sessions ≡ some (ask_to_leave s))
        × ((ask_to_leave s).state.disconnect_requested ≡ true)
        × (queue_command send e' conn_id c ≡ (e', 0))
  unfolding ts_disconnect leave_command ask_to_leave queue_command send_to push_diag push_event
  ts_disconnect_alive s tx c there alive open_ =
      let asked = get-update (push_diag e conn_id alive_note) conn_id ask_to_leave s there in
      (
        ground (arith, there, alive, open_),
        ground (arith, there, alive, asked),
        refl,
        ground (arith, there, alive, asked),
      )

  -- Where no event loop runs, the session is removed if its connection is in the stash; if it is
  -- not, as after a failed attempt, the session stays.
  ts_disconnect_dead :
      (s : Session Tx)
      → Map.get conn_id e.sessions ≡ some s
      → s.event_loop_alive ≡ false
      → (Map.get conn_id (ts_disconnect send e conn_id).0.sessions
          ≡ (if s.connection then none else some s))
        × ((ts_disconnect send e conn_id).1 ≡ none)
  unfolding ts_disconnect push_diag push_event
  ts_disconnect_dead s there dead =
      let gone = leave_directly-gone (push_diag e conn_id dead_note) conn_id in
      (ground (arith, there, dead, gone), ground (arith, there, dead))

-- A poll hands out what was pushed since the last one, in its order and behind it the panic that
-- was logged; the next poll hands out just what is pushed after it.
ts_poll_events_lem :
    {Tx : Type 0} (e : Engine Tx) (conn_id : ℕ) (event : TsEvent)
    → let (e', first) = ts_poll_events e in
      (first ≡ (
        if is_empty e.panic_log
        then e.event_queue
        else e.event_queue ++ record { connection_id = 0; event = diag e.panic_log } ∷ []))
      × ((ts_poll_events e').1 ≡ [])
      × ((ts_poll_events (push_event e' conn_id event)).1
          ≡ record { connection_id = conn_id; event = event } ∷ [])
unfolding ts_poll_events flush_panic_log push_event
ts_poll_events_lem e conn_id event = ground arith
