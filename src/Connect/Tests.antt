-- ===== src/Connect/Tests.antt =====
-- Attempts at concrete inputs.
use Prim.Native.Nat.{ℕ}
use beta.Base.{Bool, true, none, some, List, [], ◌∷◌, Text, nat_equal, ◌≡◌, ◌≢◌, refl, arith}
use beta.Base.Map
use beta.Engine.{Engine, Session, new_connection, new_session, new_engine}
use beta.Connect.Failures.{
  Error, connect_ts, server_maxclients_reached, connect_failed_all, first_error, no_errors,
  initserver_timeout, into_event,
}
use beta.Connect.{ts_connect, store_handle, cancelled_failure, ts_cancel_connect}
use beta.Connect.Cancel.{IdsBelow, ts_connect-Fresh, ts_cancel_connect_lem, store_handle_late}
use beta.Connect.Server.{
  ConnectOptions, parsed, Answers, elapsed, identity_level_increasing, other_item, no_book, joined,
}
use beta.Connect.Handshake.{do_connect, finish_attempt}
use beta.Connect.Handshake.Concluded.{Concluded, do_connect-Concluded}
use beta.Connect.Handshake.Identity.{do_connect-identity}

abbrev server_full : Error
server_full = connect_failed_all (first_error (connect_ts server_maxclients_reached) no_errors)

abbrev empty : Engine (List ℕ)
empty = new_engine

ts_connect-Fresh_example :
    let (e', id) = ts_connect empty 5 (97 ∷ []) (98 ∷ []) in
    (Map.get id empty.sessions ≡ none)
    × ((other : ℕ) → other ≢ id → Map.get other e'.sessions ≡ Map.get other empty.sessions)
    × IdsBelow e'
ts_connect-Fresh_example = ts_connect-Fresh empty 5 (97 ∷ []) (98 ∷ []) (λ id s h. cc) (omega arith)

-- Connection 1 has an attempt that runs, connection 2 one that has joined.
abbrev attempting : Session (List ℕ)
attempting = record (new_session 1 (record new_connection { connecting = true }) 0) {
  connect_task = true;
}

abbrev in_server : Session (List ℕ)
in_server = new_session 2 (record new_connection { connected = true }) 0

abbrev engine : Engine (List ℕ)
engine = record new_engine {
  next_connection_id = 3;
  sessions = (1, attempting) ∷ (2, in_server) ∷ [];
  identity_stash = some (123 ∷ []);
}

store_handle_late_example :
    let in_order = finish_attempt (store_handle engine 2) 2 joined in
    let late = store_handle (finish_attempt engine 2 joined) 2 in
    ((ts_cancel_connect in_order 2).1 ≡ 0)
    × ((ts_cancel_connect late 2).1 ≡ 1)
    × ((ts_cancel_connect late 2).0.event_queue
        ≡ record { connection_id = 2; event = into_event cancelled_failure } ∷ [])
store_handle_late_example = store_handle_late engine 2 in_server refl refl

-- The server asks for a better identity and then falls silent.
abbrev silent : Answers
silent = record {
  connect = λ options. none;
  items = identity_level_increasing 9 ∷ other_item ∷ [];
  end = elapsed;
  get_state = no_book initserver_timeout;
  identity_json = none;
  audio_opens = true;
}

abbrev no_text : Error → Text
no_text e = []

abbrev readable : Text → Bool
readable s = true

abbrev plain : ConnectOptions
plain = record {
  address = 97 ∷ [];
  name = 98 ∷ [];
  identity = parsed readable (some (123 ∷ []));
  channel = none;
  password = none;
  channel_password = none;
}

do_connect-Concluded_example :
    let (e', result) =
      do_connect no_text readable silent (7 ∷ []) engine 1 (97 ∷ []) (98 ∷ []) none none none in
    Concluded no_text silent plain 1 (7 ∷ []) attempting engine (finish_attempt e' 1 result)
do_connect-Concluded_example =
    do_connect-Concluded no_text readable silent 1 (7 ∷ []) attempting engine (97 ∷ []) (98 ∷ [])
      none none none refl

ts_cancel_connect_lem_example :
    let (begun, id) = ts_connect engine 5 (97 ∷ []) (98 ∷ []) in
    let (tried, result) =
      do_connect no_text readable silent (7 ∷ []) begun id (97 ∷ []) (98 ∷ []) none none none in
    let over = finish_attempt tried id result in
    let stopped = (ts_cancel_connect begun id).0 in
    ((ts_cancel_connect begun id).1 ≡ 1)
    × (stopped.event_queue
        ≡ record { connection_id = id; event = into_event cancelled_failure } ∷ [])
    × ((ts_cancel_connect stopped id).1 ≡ 0)
    × ((ts_cancel_connect stopped id).0.event_queue ≡ stopped.event_queue)
    × ((ts_cancel_connect over id).1 ≡ 0)
    × ((ts_cancel_connect over id).0.event_queue ≡ over.event_queue)
ts_cancel_connect_lem_example =
    ts_cancel_connect_lem no_text readable silent (7 ∷ []) engine 5 (97 ∷ []) (98 ∷ []) none none
      none

silent_result :
    (do_connect no_text readable silent (7 ∷ []) engine 1 (97 ∷ []) (98 ∷ []) none none none).1
    ≢ joined
unfolding do_connect
silent_result e = cc

do_connect-identity_example :
    (do_connect no_text readable silent
      (7 ∷ [])
      engine
      1
      (97 ∷ [])
      (98 ∷ [])
      none
      none
      none).0.identity_stash
    ≡ none
do_connect-identity_example =
    do_connect-identity no_text readable silent (7 ∷ []) engine 1 (97 ∷ []) (98 ∷ []) none none none
      silent_result
