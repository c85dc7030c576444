-- ===== src/EventLoop/Delivery.antt =====
-- A command from the channel to the wire.
use Prim.Native.Nat.{ℕ, ◌+◌, ◌≤◌}
use beta.Base.{
  true, false, some, List, [], ◌∷◌, ◌++◌, nat_equal, ◌≡◌, refl, sym, ap, ◌∙◌, arith, inl, inr,
  Option-cases,
}
use beta.Base.Map
use beta.Command.{Command}
use beta.Budget.{CommandBudget, enqueue}
use beta.Budget.Invariant.{IsValid}
use beta.Budget.Progress.{drain_ready-enqueue}
use beta.Engine.{Engine, Session, TsConnection, session, update_state}
use beta.EventLoop.Wire.{Message, message}
use beta.EventLoop.Messages.{message_of}
use beta.EventLoop.Execute.{World, Outside, send_message, execute, run_ready}
use beta.EventLoop.Round.{
  Moment, is_direct, take_in, release, gather, clean_up, is_asked_to_leave, after_commands, round,
}
use beta.EventLoop.Pace.{controls, controls-append, budget_of}
use beta.EventLoop.Pace.Executed.{execute-budget}
use beta.EventLoop.Pace.Gathered.{gather-Gathered}
use beta.EventLoop.Pace.Polled.{poll_rest-Polled}
use beta.Engine.Laws.{get-update}

module _ {Tx : Type 0} (conn_id : ℕ) where
  -- What is ready where one command comes and none waits.
  gather_one :
      (now : ℕ) (e : Engine Tx) (s : Session Tx) (c : Command)
      → Map.get conn_id e.sessions ≡ some s
      → is_direct c ≡ false
      → IsValid s.command_budget
      → s.command_budget.queue ≡ []
      → s.command_budget.last_refill + 4_000_000_000 ≤ now
      → let (e', direct) = take_in conn_id e (c ∷ []) in
        direct ++ (release conn_id now e').1 ≡ c ∷ []
  unfolding take_in release
  gather_one now e s c there paced valid idle rested =
      let f : Session Tx → Session Tx =
        λ s'. record s' { command_budget = enqueue s'.command_budget c } in
      ground (
        arith,
        paced,
        get-update e conn_id f s there,
        drain_ready-enqueue s.command_budget now c valid idle rested,
      )

  session_of_budget :
      (e : Engine Tx) (b : CommandBudget)
      → budget_of conn_id e ≡ some b
      → (st : TsConnection) × (session e conn_id ≡ some st)
  session_of_budget e b h = elim (Option-cases (Map.get conn_id e.sessions)) [
    | inl gone ↦ absurd (ground (arith, gone, h))
    | inr (s, there) ↦ (s.state, ground (arith, there))
  ]

module _ {Tx Coder : Type 0} (outside : Outside Coder) (conn_id : ℕ) where
  execute_one :
      (w : World Tx Coder) (c : Command) (m : Message)
      → message_of outside.is_ip_addr c ≡ some m
      → execute outside conn_id w c ≡ (send_message outside conn_id w c m, true)
  unfolding execute
  execute_one w c m one = rw (one, execute) refl

  run_one :
      (w : World Tx Coder) (c : Command) (m : Message) (st : TsConnection)
      → session w.engine conn_id ≡ some st
      → message_of outside.is_ip_addr c ≡ some m
      → run_ready outside conn_id w (c ∷ []) ≡ (send_message outside conn_id w c m, true)
  unfolding run_ready
  run_one w c m st found one = ground (arith, found, execute_one w c m one)

  gathered :
      (moment : Moment) (w : World Tx Coder) (s : Session Tx) (c : Command)
      → Map.get conn_id w.engine.sessions ≡ some s
      → IsValid s.command_budget
      → s.command_budget.queue ≡ []
      → s.command_budget.last_refill + 4_000_000_000 ≤ moment.now
      → moment.received ≡ c ∷ []
      → is_direct c ≡ false
      → (gather outside conn_id moment w).1 ≡ c ∷ []
  unfolding gather
  gathered moment w s c there valid idle rested received paced =
      let ready_of : List Command → List Command = λ cs.
        (take_in conn_id w.engine cs).1
        ++ (release conn_id moment.now (take_in conn_id w.engine cs).0).1 in
      ap ready_of received
      ∙ gather_one conn_id moment.now w.engine s c there paced valid idle rested

  -- From the ready command on.
  after_one :
      (moment : Moment) (w : World Tx Coder) (b : CommandBudget) (c : Command) (m : Message)
      → budget_of conn_id w.engine ≡ some b
      → message_of outside.is_ip_addr c ≡ some m
      → controls
          (after_commands outside conn_id moment (run_ready outside conn_id w (c ∷ []))).0.sent
        ≡ controls w.sent ++ message m ∷ []
  unfolding after_commands send_message
  after_one moment w b c m held one =
      let (st, found) = session_of_budget conn_id w.engine b held in
      let w' : World Tx Coder = send_message outside conn_id w c m in
      let same = execute-budget outside conn_id w c (ap (λ r. r.1) (execute_one w c m one)) in
      let still : budget_of conn_id w'.engine ≡ some b =
        ap (λ r. budget_of conn_id r.0.engine) (sym (execute_one w c m one)) ∙ same ∙ held in
      let polled =
        poll_rest-Polled outside conn_id moment.now moment (omega arith) b w' moment.first still in
      rw (run_one w c m st found one)
        (ap controls polled.0 ∙ controls-append w.sent (message m ∷ []))

  -- A command that is a single message, received by a session with a valid budget where no other
  -- command waits and four seconds have passed since the last refill, is on the wire at the end of
  -- the round, and no other call is, whatever else arrives in the round.
  pub round_delivers :
      (moment : Moment) (w : World Tx Coder) (s : Session Tx) (c : Command) (m : Message)
      → Map.get conn_id w.engine.sessions ≡ some s
      → s.state.disconnect_requested ≡ false
      → IsValid s.command_budget
      → s.command_budget.queue ≡ []
      → s.command_budget.last_refill + 4_000_000_000 ≤ moment.now
      → moment.received ≡ c ∷ []
      → is_direct c ≡ false
      → message_of outside.is_ip_addr c ≡ some m
      → controls (round outside conn_id moment w).0.sent ≡ controls w.sent ++ message m ∷ []
  unfolding round is_asked_to_leave clean_up
  round_delivers moment w s c m there stays valid idle rested received paced one =
      let f : Session Tx → Session Tx = λ s'. record s' { state = clean_up moment.now s'.state } in
      let w1 : World Tx Coder = record w {
        engine = update_state w.engine conn_id (clean_up moment.now);
      } in
      let there1 : Map.get conn_id w1.engine.sessions ≡ some (f s) =
        get-update w.engine conn_id f s there in
      let not_asked : is_asked_to_leave conn_id w1.engine ≡ false = ground (arith, there1, stays) in
      let g =
        gather-Gathered outside conn_id moment.now moment s.command_budget w1 (omega arith)
          (ground (arith, there1)) in
      let ready : (gather outside conn_id moment w1).1 ≡ c ∷ [] =
        gathered moment w1 (f s) c there1 valid idle rested received paced in
      rw (not_asked, round)
        (rw ready (
          after_one moment (gather outside conn_id moment w1).0 g.paced.0 c m g.paced.2 one
          ∙ ap (λ xs. controls xs ++ message m ∷ []) g.kept))
