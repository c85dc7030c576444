-- ===== src/Connect.antt =====
-- native/src/api.rs: the identity, the start of a connection attempt and its end by the user.
pub mod Failures
pub mod Server
pub mod Handshake
mod Hosts
mod Cancel
mod Tests
use Prim.Native.Nat.{ℕ, ◌+◌, ◌%◌, ◌^◌}
use mathlib.Core.List.{reverse}
use beta.Base.{
  Bool, true, false, ◌&&◌, ◌||◌, not, Option, none, some, List, [], ◌∷◌, Text, is_empty, ltb, ◌==◌,
  if◌then◌else◌, nat_equal,
}
use beta.Base.Map
use beta.Base.Word.{as_u64}
use beta.Text.{CString}
use beta.Engine.{
  Engine, Session, TsConnection, new_connection, new_session, session, update, update_state,
  push_event,
}
use beta.Connect.Failures.{ConnectFailure, into_event, connecting, cancelled_text}

-- The part before the last ':', where there is one: `rsplit_once(':')`.
pub before_colon : Text → Option Text
before_colon [] = none
before_colon (c ∷ s) =
    let rest = before_colon s in
    elim rest [ some host ↦ some (c ∷ host) | none ↦ if c == 58 then some [] else none ]

pub is_bracket : ℕ → Bool
is_bracket c = c == 91 || c == 93

pub trim_brackets_start : Text → Text
unfolding is_bracket
trim_brackets_start [] = []
trim_brackets_start (c ∷ s) = if is_bracket c then trim_brackets_start s else c ∷ s

-- `trim_matches(['[', ']'])`.
pub trim_brackets : Text → Text
unfolding trim_brackets_start
trim_brackets s = reverse (trim_brackets_start (reverse (trim_brackets_start s)))

pub host_of : Text → Text
unfolding before_colon trim_brackets
host_of address = trim_brackets (elim (before_colon address) [ none ↦ address | some host ↦ host ])

-- "Connection attempt cancelled".
abbrev pub cancelled_message : Text
cancelled_message =
    67 ∷ 111 ∷ 110 ∷ 110 ∷ 101 ∷ 99 ∷ 116 ∷ 105 ∷ 111 ∷ 110 ∷ 32 ∷ 97 ∷ 116 ∷ 116 ∷ 101 ∷ 109 ∷ 112
    ∷ 116 ∷ 32 ∷ 99 ∷ 97 ∷ 110 ∷ 99 ∷ 101 ∷ 108 ∷ 108 ∷ 101 ∷ 100 ∷ []

pub cancelled_failure : ConnectFailure
cancelled_failure = record {
  kind = cancelled_text;
  phase = connecting;
  message = cancelled_message;
  retryable = false;
}

module _ {Tx : Type 0} where
  pub ts_set_identity : Engine Tx → (json : CString) → Engine Tx
  ts_set_identity e none = e
  ts_set_identity e (some s) = record e { identity_stash = if is_empty s then none else some s }

  pub ts_get_identity : Engine Tx → CString
  ts_get_identity e = e.identity_stash

  pub ts_clear_identity : Engine Tx → Engine Tx × ℕ
  ts_clear_identity e = (record e { identity_stash = none }, 1)

  pub ts_set_log_level : Engine Tx → (level : ℕ) → Engine Tx × ℕ
  ts_set_log_level e level = if ltb 4 level then (e, 0) else (record e { log_level = level }, 1)

  -- The id of a new session, and the counter after it.
  pub next_connection_id : Engine Tx → Engine Tx × ℕ
  next_connection_id e =
      (record e { next_connection_id = as_u64 (e.next_connection_id + 1) }, e.next_connection_id)

  pub connecting_session : (id now : ℕ) (address nickname : Text) → Session Tx
  unfolding host_of
  connecting_session id now address nickname =
      record (new_session id
        (record new_connection {
          connecting = true;
          nickname = nickname;
          whisper_allow_mode = 0;
          whisper_ignored_count = 0;
        })
        now) { server_host = host_of address }

  -- ts_connect up to the start of the background task: the session is registered.
  pub begin_connect : Engine Tx → (now : ℕ) (address nickname : Text) → Engine Tx × ℕ
  unfolding next_connection_id connecting_session
  begin_connect e now address nickname =
      let (e', id) = next_connection_id e in
      (
        record e' {
          sessions = Map.insert id (connecting_session id now address nickname) e'.sessions;
        },
        id,
      )

  -- ... and its end, after the start of the task: the handle of the task is kept.
  pub store_handle : Engine Tx → (conn_id : ℕ) → Engine Tx
  store_handle e conn_id = update e conn_id (λ s. record s { connect_task = true })

  -- ts_connect where the task runs later.
  pub ts_connect : Engine Tx → (now : ℕ) (address nickname : Text) → Engine Tx × ℕ
  unfolding begin_connect store_handle
  ts_connect e now address nickname =
      let (e', id) = begin_connect e now address nickname in (store_handle e' id, id)

  pub stop_attempt : Session Tx → Session Tx
  stop_attempt s = record s { connect_task = false; state = record s.state { connecting = false } }

  -- A task that still runs is aborted, it takes no further step.
  pub ts_cancel_connect : Engine Tx → (conn_id : ℕ) → Engine Tx × ℕ
  unfolding stop_attempt cancelled_failure
  ts_cancel_connect e conn_id = elim (Map.get conn_id e.sessions) [
    | none ↦ (e, 0)
    | some s ↦
        let e' = update e conn_id stop_attempt in
        if not s.connect_task && not s.state.connecting
        then (e', 0)
        else (push_event e' conn_id (into_event cancelled_failure), 1)
  ]
