-- ===== src/Connect/Cancel.antt =====
-- The start of an attempt and its end by the user.
use Prim.Native.Nat.{ℕ, ◌+◌, ◌<◌, ◌^◌}
use beta.Base.{
  Bool, true, false, none, some, [], ◌∷◌, ◌++◌, Text, nat_equal, ◌≡◌, ◌≢◌, refl, ap, Option, arith,
  inl, inr, Option-cases,
}
use beta.Base.Map
use beta.Engine.{Engine, Session, update, push_event}
use beta.Engine.Laws.{get-update}
use beta.Connect.Failures.{Error, into_event}
use beta.Connect.{
  connecting_session, begin_connect, store_handle, next_connection_id, ts_connect,
  cancelled_failure, stop_attempt, ts_cancel_connect,
}
use beta.Connect.Server.{joined, Answers, ConnectOptions}
use beta.Events.{TsEvent}
use beta.Connect.Handshake.{finish_attempt, do_connect}
use beta.Connect.Handshake.Concluded.{Ended, in_server, not_in_server, do_connect-Concluded}

-- The ids of the sessions lie below the counter.
abbrev pub IdsBelow : {Tx : Type 0} → Engine Tx → Type 0
IdsBelow {Tx = Tx} e =
    (id : ℕ) (s : Session Tx) → Map.get id e.sessions ≡ some s → id < e.next_connection_id

module _ {Tx : Type 0} (e : Engine Tx) (now : ℕ) (address nickname : Text) where
  -- Where all session ids lie below the counter, and this is not at its end, a new attempt gets an
  -- id that no session has and leaves the other sessions as they were; all ids lie below the
  -- counter again.
  pub ts_connect-Fresh :
      IdsBelow e
      → e.next_connection_id + 1 < 2 ^ 64
      → let (e', id) = ts_connect e now address nickname in
        (Map.get id e.sessions ≡ none)
        × ((other : ℕ) → other ≢ id → Map.get other e'.sessions ≡ Map.get other e.sessions)
        × IdsBelow e'
  unfolding ts_connect begin_connect store_handle next_connection_id
  ts_connect-Fresh below room =
      let id : ℕ = e.next_connection_id in
      let new : Session Tx = connecting_session id now address nickname in
      let all : Map.Map ℕ (Session Tx) = Map.insert id new e.sessions in
      let with_task : Session Tx → Session Tx = λ s. record s { connect_task = true } in
      (
        elim (Option-cases (Map.get id e.sessions)) [
          | inl free ↦ free
          | inr (s, taken) ↦ absurd (omega (arith, below id s taken))
        ],
        λ other differs. ground (
          arith,
          Map.get-adjust id other with_task all,
          Map.get-insert id other new e.sessions,
          nat_equal.test_iff id other,
          differs,
        ),
        λ other s there. ground (
          arith,
          there,
          Map.get-adjust id other with_task all,
          Map.get-insert id other new e.sessions,
          nat_equal.test_iff id other,
          below other s,
          room,
        ),
      )

module _ {Tx : Type 0} (e : Engine Tx) (conn_id : ℕ) (s : Session Tx) where
  -- Cancelling where there is a task.
  cancel_running :
      Map.get conn_id e.sessions ≡ some s
      → s.connect_task ≡ true
      → let (e', code) = ts_cancel_connect e conn_id in
        (code ≡ 1)
        × (e'.event_queue
            ≡ e.event_queue
              ++ record { connection_id = conn_id; event = into_event cancelled_failure } ∷ [])
        × ((ts_cancel_connect e' conn_id).1 ≡ 0)
        × ((ts_cancel_connect e' conn_id).0.event_queue ≡ e'.event_queue)
  unfolding ts_cancel_connect stop_attempt push_event
  cancel_running there task =
      let there' = get-update e conn_id stop_attempt s there in ground (arith, there, there', task)

  cancel_idle :
      Map.get conn_id e.sessions ≡ some s
      → s.connect_task ≡ false
      → s.state.connecting ≡ false
      → ((ts_cancel_connect e conn_id).1 ≡ 0)
        × ((ts_cancel_connect e conn_id).0.event_queue ≡ e.event_queue)
  unfolding ts_cancel_connect
  cancel_idle there no_task idle = ground (arith, there)

  -- After an attempt that has joined, a cancel finds nothing to stop if the handle of the task was
  -- stored before the task ended; if the task ends first, the handle stays, and a cancel of the
  -- connected session returns 1 and tells that the attempt failed.
  pub store_handle_late :
      Map.get conn_id e.sessions ≡ some s
      → s.state.connecting ≡ false
      → let in_order = finish_attempt (store_handle e conn_id) conn_id joined in
        let late = store_handle (finish_attempt e conn_id joined) conn_id in
        ((ts_cancel_connect in_order conn_id).1 ≡ 0)
        × ((ts_cancel_connect late conn_id).1 ≡ 1)
        × ((ts_cancel_connect late conn_id).0.event_queue
            ≡ e.event_queue
              ++ record { connection_id = conn_id; event = into_event cancelled_failure } ∷ [])
  unfolding ts_cancel_connect store_handle finish_attempt push_event
  store_handle_late there idle =
      let with_task : Session Tx → Session Tx = λ s'. record s' { connect_task = true } in
      let without : Session Tx → Session Tx = λ s'. record s' { connect_task = false } in
      let first = get-update e conn_id with_task s there in
      let second = get-update (update e conn_id with_task) conn_id without (with_task s) first in
      let first' = get-update e conn_id without s there in
      let second' = get-update (update e conn_id without) conn_id with_task (without s) first' in
      (ground (arith, second, idle), ground (arith, second'), ground (arith, second'))

Ended-idle :
    {Tx : Type 0} (describe : Error → Text) (answers : Answers) (options : ConnectOptions)
    (conn_id : ℕ) (tx : Tx) (s after : Session Tx) (last : TsEvent)
    → Ended describe answers options conn_id tx s after last
    → (after.connect_task ≡ false) × (after.state.connecting ≡ false)
Ended-idle describe answers options conn_id tx s after _ (in_server b accepted waits given is) =
    (ap (λ x. x.connect_task) is, ap (λ x. x.state.connecting) is)
Ended-idle describe answers options conn_id tx s after _ (not_in_server f fails is) =
    (ap (λ x. x.connect_task) is, ap (λ x. x.state.connecting) is)

module _ {Tx : Type 0} (describe : Error → Text) (is_identity : Text → Bool) (answers : Answers)
    (tx : Tx) (e : Engine Tx) (now : ℕ) (address nickname : Text)
    (channel password channel_password : Option Text) where
  -- After ts_connect, while the task has not ended, cancelling returns
  -- 1 and tells the failure `cancelled`, and a second call returns 0 and tells nothing. Once the
  -- task has run to its end, whatever tsclientlib answers, so that the session has joined the
  -- server or the failure is told, cancelling returns 0 and tells nothing.
  pub ts_cancel_connect_lem :
      let (begun, id) = ts_connect e now address nickname in
      let (tried, result) =
        do_connect describe is_identity answers tx begun id address nickname channel password
          channel_password in
      let over = finish_attempt tried id result in
      let stopped = (ts_cancel_connect begun id).0 in
      ((ts_cancel_connect begun id).1 ≡ 1)
      × (stopped.event_queue
          ≡ e.event_queue
            ++ record { connection_id = id; event = into_event cancelled_failure } ∷ [])
      × ((ts_cancel_connect stopped id).1 ≡ 0)
      × ((ts_cancel_connect stopped id).0.event_queue ≡ stopped.event_queue)
      × ((ts_cancel_connect over id).1 ≡ 0)
      × ((ts_cancel_connect over id).0.event_queue ≡ over.event_queue)
  unfolding ts_connect begin_connect store_handle next_connection_id
  ts_cancel_connect_lem =
      let id : ℕ = e.next_connection_id in
      let begun : Engine Tx = (ts_connect e now address nickname).0 in
      let new : Session Tx = connecting_session id now address nickname in
      let s : Session Tx = record new { connect_task = true } in
      let there : Map.get id begun.sessions ≡ some s = ground (
        arith,
        Map.get-adjust id id (λ s'. record s' { connect_task = true })
            (Map.insert id new e.sessions),
        Map.get-insert id id new e.sessions,
        nat_equal.test_iff id id,
      ) in
      let first = cancel_running begun id s there refl in
      let c =
        do_connect-Concluded describe is_identity answers id tx s begun address nickname channel
          password channel_password there in
      let idle = Ended-idle describe answers _ id tx s c.after c.last c.ends in
      let second = cancel_idle _ id c.after c.found idle.0 idle.1 in
      (first.0, first.1, first.2, first.3, second.0, second.1)
