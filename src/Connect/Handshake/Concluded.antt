-- ===== src/Connect/Handshake/Concluded.antt =====
-- How an attempt ends: with one event that says so, and with a session that fits it.
use Prim.Native.Nat.{ℕ}
use beta.Base.{
  Bool, true, false, Option, none, some, List, [], ◌∷◌, ◌++◌, Text, All, nat_equal, ◌≡◌, refl, ap,
  ◌∙◌, inl, inr, Option-cases,
}
use beta.Base.Map
use beta.Events.{TsEvent, EnvelopedEvent, connected, connect_failed}
use beta.Engine.{Engine, Session, update, update_state, push_event}
use beta.Engine.Laws.{get-update}
use beta.Connect.Failures.{
  ConnectFailure, Error, as_str, into_event, resolving, connecting, authenticating,
}
use beta.Connect.Server.{
  Answers, ConnectOptions, ServerBook, failed, Handshake, ready, ended, timed_out, broken,
  BookResult, no_book, book, parsed,
}
use beta.Connect.Handshake.{
  push_phase, handshake, join_state, connected_event, keep_identity, join, failure, timeout_failure,
  closed_failure, do_connect, with_book, after_handshake, finish_attempt, set_idle,
}
use beta.Connect.Handshake.Waits.{Waits, handshake-Waits}
use beta.Connect.Handshake.Progress.{
  Told, Progressed, push_phase-Progressed, take_identity-Progressed, then_progress,
  handshake-Progressed,
}

keep_identity-sessions :
    {Tx : Type 0} (json : Option Text) (e : Engine Tx)
    → ((keep_identity json e).sessions ≡ e.sessions)
      × ((keep_identity json e).event_queue ≡ e.event_queue)
unfolding keep_identity
keep_identity-sessions none e = (refl, refl)
keep_identity-sessions (some json) e = (refl, refl)

-- Why an attempt with the options `options` fails: they are refused, the wait for the server ends
-- without it, or there is no book of the server.
module _ (describe : Error → Text) (answers : Answers) (options : ConnectOptions) where
  pub data Fails : ConnectFailure → Type 0 where
    refused :
        (error : Error)
        → answers.connect options ≡ some error
        → Fails (failure describe resolving error)
    breaks :
        (error : Error)
        → answers.connect options ≡ none
        → Waits answers.items answers.end (broken error)
        → Fails (failure describe authenticating error)
    closes :
        answers.connect options ≡ none
        → Waits answers.items answers.end ended
        → Fails closed_failure
    elapses :
        answers.connect options ≡ none
        → Waits answers.items answers.end timed_out
        → Fails timeout_failure
    bookless :
        (error : Error)
        → answers.connect options ≡ none
        → Waits answers.items answers.end ready
        → answers.get_state ≡ no_book error
        → Fails (failure describe authenticating error)

module _ {Tx : Type 0} (describe : Error → Text) (answers : Answers) (options : ConnectOptions)
    (conn_id : ℕ) (tx : Tx) (s : Session Tx) where
  -- The last event of an attempt, and what its session is then.
  pub data Ended (after : Session Tx) : TsEvent → Type 0 where
    in_server :
        (b : ServerBook)
        → answers.connect options ≡ none
        → Waits answers.items answers.end ready
        → answers.get_state ≡ book b
        → after ≡ record s {
          command_tx = some tx;
          connection = true;
          connect_task = false;
          state = record s.state {
            connecting = false;
            connected = true;
            server_name = b.name;
            server_uid = b.uid;
            own_client_id = b.own_client;
            channels = b.channels;
            clients = b.clients;
          };
        }
        → Ended after (
            connected b.name b.own_client b.codec_encryption_mode b.uid b.welcome_message
              b.host_message b.host_message_mode b.max_clients b.needed_identity_security_level)
    not_in_server :
        (f : ConnectFailure)
        → Fails describe answers options f
        → after ≡ record s { connect_task = false; state = record s.state { connecting = false } }
        → Ended after (connect_failed f.kind (as_str f.phase) f.message f.retryable)

  pub record Concluded (e e' : Engine Tx) : Type 0 where
    pub told : List EnvelopedEvent
    pub last : TsEvent
    pub after : Session Tx
    pub all_told : All (Told conn_id) told
    pub queue :
        e'.event_queue
        ≡ e.event_queue ++ told ++ record { connection_id = conn_id; event = last } ∷ []
    pub found : Map.get conn_id e'.sessions ≡ some after
    pub ends : Ended after last

  failed-Concluded :
      (e e' : Engine Tx) (f : ConnectFailure)
      → Map.get conn_id e.sessions ≡ some s
      → Progressed conn_id e e'
      → Fails describe answers options f
      → Concluded e (finish_attempt e' conn_id (failed f))
  unfolding finish_attempt push_event set_idle into_event
  failed-Concluded e e' f there p fails =
      let idle : Session Tx = record s { state = set_idle s.state } in
      let there' : Map.get conn_id e'.sessions ≡ some s = rw p.sessions there in
      record {
        told = p.told;
        last = into_event f;
        after = record idle { connect_task = false };
        all_told = p.all_told;
        queue =
            ap (λ xs. xs ++ record { connection_id = conn_id; event = into_event f } ∷ []) p.queue;
        found =
            get-update (push_event (update_state e' conn_id set_idle) conn_id (into_event f))
              conn_id (λ s'. record s' { connect_task = false }) idle
              (get-update e' conn_id (λ s'. record s' { state = set_idle s'.state }) s there');
        ends = not_in_server f fails refl;
      }

  join-Concluded :
      (e e' : Engine Tx) (b : ServerBook)
      → Map.get conn_id e.sessions ≡ some s
      → Progressed conn_id e e'
      → answers.connect options ≡ none
      → Waits answers.items answers.end ready
      → answers.get_state ≡ book b
      → Concluded e
          (finish_attempt (join e' conn_id tx answers b).0 conn_id (join e' conn_id tx answers b).1)
  unfolding finish_attempt join push_event join_state connected_event
  join-Concluded e e' b there p accepted waits has_book =
      let there' : Map.get conn_id e'.sessions ≡ some s = rw p.sessions there in
      let at_server : Session Tx → Session Tx =
        λ s'. record s' { command_tx = some tx; state = join_state b s'.state } in
      let e1 : Engine Tx = push_event (update e' conn_id at_server) conn_id (connected_event b) in
      let e2 : Engine Tx = keep_identity answers.identity_json e1 in
      let kept = keep_identity-sessions answers.identity_json e1 in
      let there2 : Map.get conn_id e2.sessions ≡ some (at_server s) =
        rw kept.0 (get-update e' conn_id at_server s there') in
      let stash : Session Tx → Session Tx = λ s'. record s' { connection = true } in
      let there3 : Map.get conn_id (update e2 conn_id stash).sessions ≡ some (stash (at_server s)) =
        get-update e2 conn_id stash (at_server s) there2 in
      rw (there', join)
        (record {
          told = p.told;
          last = connected_event b;
          after = record (stash (at_server s)) { connect_task = false };
          all_told = p.all_told;
          queue =
              kept.1
              ∙ ap (λ xs. xs ++ record { connection_id = conn_id; event = connected_event b } ∷ [])
                  p.queue;
          found =
              Map.get-adjust_self conn_id (λ s'. record s' { connect_task = false })
                (stash (at_server s)) (update e2 conn_id stash).sessions there3;
          ends = in_server b accepted waits has_book refl;
        })

  with_book-Concluded :
      (e e' : Engine Tx) (found : BookResult)
      → Map.get conn_id e.sessions ≡ some s
      → Progressed conn_id e e'
      → answers.connect options ≡ none
      → Waits answers.items answers.end ready
      → answers.get_state ≡ found
      → let (e'', result) = with_book describe answers tx e' conn_id found in
        Concluded e (finish_attempt e'' conn_id result)
  unfolding with_book
  with_book-Concluded e e' (no_book error) there p accepted waits given =
      failed-Concluded e e' (failure describe authenticating error) there p
        (bookless error accepted waits given)
  with_book-Concluded e e' (book b) there p accepted waits given =
      join-Concluded e e' b there p accepted waits given

  after_handshake-Concluded :
      (e e' : Engine Tx) (outcome : Handshake)
      → Map.get conn_id e.sessions ≡ some s
      → Progressed conn_id e e'
      → answers.connect options ≡ none
      → Waits answers.items answers.end outcome
      → let (e'', result) = after_handshake describe answers tx e' conn_id outcome in
        Concluded e (finish_attempt e'' conn_id result)
  unfolding after_handshake
  after_handshake-Concluded e e' timed_out there p accepted waits =
      failed-Concluded e e' timeout_failure there p (elapses accepted waits)
  after_handshake-Concluded e e' (broken error) there p accepted waits =
      failed-Concluded e e' (failure describe authenticating error) there p
        (breaks error accepted waits)
  after_handshake-Concluded e e' ended there p accepted waits =
      failed-Concluded e e' closed_failure there p (closes accepted waits)
  after_handshake-Concluded e e' ready there p accepted waits =
      with_book-Concluded e e' answers.get_state there p accepted waits refl

-- An attempt on a session that is there ends, whatever tsclientlib answers, with exactly one event
-- that says so, after events of its progress. Either the options are accepted, the book of the
-- server comes before an error and is there: then the session has the server's name, uid, own
-- client, channels and clients, is connected with its command channel and its connection, and the
-- event is `connected` with the data of that book. Or the event is `connect_failed` with the failure
-- that the answers give, and the session is as before but idle. No task is left either way.
pub do_connect-Concluded :
    {Tx : Type 0} (describe : Error → Text) (is_identity : Text → Bool) (answers : Answers)
    (conn_id : ℕ) (tx : Tx) (s : Session Tx) (e : Engine Tx) (address nickname : Text)
    (channel password channel_password : Option Text)
    → Map.get conn_id e.sessions ≡ some s
    → let options : ConnectOptions = record {
      address = address;
      name = nickname;
      identity = parsed is_identity e.identity_stash;
      channel = channel;
      password = password;
      channel_password = channel_password;
    } in
      let (e', result) =
        do_connect describe is_identity answers tx e conn_id address nickname channel password
          channel_password in
      Concluded describe answers options conn_id tx s e (finish_attempt e' conn_id result)
unfolding do_connect
do_connect-Concluded describe is_identity answers conn_id tx s e address nickname channel password
      channel_password there =
    let options : ConnectOptions = record {
      address = address;
      name = nickname;
      identity = parsed is_identity e.identity_stash;
      channel = channel;
      password = password;
      channel_password = channel_password;
    } in
    let e1 = record (push_phase e conn_id resolving) { identity_stash = none } in
    let p1 : Progressed conn_id e e1 =
      take_identity-Progressed conn_id (push_phase-Progressed conn_id e resolving) in
    let e2 = push_phase e1 conn_id connecting in
    let p2 : Progressed conn_id e e2 =
      then_progress conn_id p1 (push_phase-Progressed conn_id e1 connecting) in
    elim (Option-cases (answers.connect options)) [
      | inr (error, not_accepted) ↦
          rw (not_accepted, do_connect)
            (failed-Concluded describe answers options conn_id tx s e e1
              (failure describe resolving error) there p1 (refused error not_accepted))
      | inl accepted ↦
          rw (accepted, do_connect)
            (after_handshake-Concluded describe answers options conn_id tx s e
              (handshake e2 conn_id false answers.items answers.end).0
              (handshake e2 conn_id false answers.items answers.end).1 there
              (then_progress conn_id p2
                (handshake-Progressed conn_id e2 false answers.items answers.end))
              accepted (handshake-Waits e2 conn_id false answers.items answers.end))
    ]
