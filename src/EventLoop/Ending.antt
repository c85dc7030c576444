-- ===== src/EventLoop/Ending.antt =====
-- The end of the event loop: whichever way it ends, the session is gone from the table.
use Prim.Native.Nat.{ℕ}
use beta.Base.{
  Bool, true, false, none, List, [], ◌∷◌, Text, nat_equal, ◌≡◌, refl, arith, inl, inr, Option-cases,
  Bool-cases, ◌⊎◌,
}
use beta.Base.Map
use beta.Command.{Command}
use beta.Engine.{Engine, session, update_state}
use beta.Disconnect.{finalize_disconnect}
use beta.Disconnect.Gone.{finalize_disconnect_lem}
use beta.EventLoop.Messages.{message_of}
use beta.EventLoop.Execute.{World, Outside, leave, perform, execute, run_ready}
use beta.EventLoop.Round.{
  Moment, Poll, timeout, ended, failed, heard, control, clean_up, gather, is_asked_to_leave, close,
  poll_rest, after_commands, round, rounds,
}

module _ {Tx Coder : Type 0} (outside : Outside Coder) (conn_id : ℕ) where
  -- The loop goes on, or the session is gone.
  abbrev pub Ends : World Tx Coder × Bool → Type 0
  Ends (w, goes_on) = (goes_on ≡ true) ⊎ (Map.get conn_id w.engine.sessions ≡ none)

  Ends-false :
      (r : World Tx Coder × Bool)
      → r.1 ≡ false
      → Ends r
      → Map.get conn_id r.0.engine.sessions ≡ none
  Ends-false (w, goes_on) h (inl on) = cc
  Ends-false (w, goes_on) h (inr gone) = gone

  gone_after :
      (e : Engine Tx) (reason : Text) (expected : Bool)
      → Map.get conn_id (finalize_disconnect e conn_id reason expected).sessions ≡ none
  gone_after e reason expected = (finalize_disconnect_lem e conn_id reason expected).0

  perform-Ends : (w : World Tx Coder) (c : Command) → Ends (perform outside conn_id w c)
  unfolding perform leave
  perform-Ends w (Command.send_audio samples) = inl refl
  perform-Ends w Command.disconnect = inr (gone_after _ _ true)
  perform-Ends w other = inl refl

  execute-Ends : (w : World Tx Coder) (c : Command) → Ends (execute outside conn_id w c)
  unfolding execute
  execute-Ends w c = elim (Option-cases (message_of outside.is_ip_addr c)) [
    | inl rest ↦ rw (rest, execute) (perform-Ends w c)
    | inr (m, one) ↦ rw (one, execute) (inl refl)
  ]

  session-none : (e : Engine Tx) → session e conn_id ≡ none → Map.get conn_id e.sessions ≡ none
  session-none e h = elim (Option-cases (Map.get conn_id e.sessions)) [
    | inl gone ↦ gone
    | inr (s, there) ↦ absurd (ground (arith, there, h))
  ]

  run_ready-Ends : (w : World Tx Coder) (cs : List Command) → Ends (run_ready outside conn_id w cs)
  unfolding run_ready
  run_ready-Ends w [] = inl refl
  run_ready-Ends w (c ∷ cs) = elim (Option-cases (session w.engine conn_id)) [
    | inl gone ↦ rw (gone, run_ready) (inr (session-none w.engine gone))
    | inr (st, found) ↦ elim (Bool-cases (execute outside conn_id w c).1) [
      | inl goes_on ↦
          rw (found, goes_on, run_ready) (run_ready-Ends (execute outside conn_id w c).0 cs)
      | inr stops ↦
          rw (found, stops, run_ready)
            (inr (Ends-false (execute outside conn_id w c) stops (execute-Ends w c)))
    ]
  ]

  poll_rest-Ends :
      (moment : Moment) (w : World Tx Coder) (poll : Poll)
      → Ends (poll_rest outside conn_id moment w poll)
  unfolding poll_rest close
  poll_rest-Ends moment w timeout = inl refl
  poll_rest-Ends moment w ended = inr (gone_after _ _ _)
  poll_rest-Ends moment w (failed reason) = inr (gone_after _ _ _)
  poll_rest-Ends moment w (heard packet) = inl refl
  poll_rest-Ends moment w (control item) = inl refl

  after_commands-Ends :
      (moment : Moment) (ran : World Tx Coder × Bool)
      → Ends ran
      → Ends (after_commands outside conn_id moment ran)
  unfolding after_commands
  after_commands-Ends moment (w, false) ends = ends
  after_commands-Ends moment (w, true) ends = poll_rest-Ends moment w moment.first

  round-Ends : (moment : Moment) (w : World Tx Coder) → Ends (round outside conn_id moment w)
  unfolding round leave
  round-Ends moment w =
      let w1 : World Tx Coder = record w {
        engine = update_state w.engine conn_id (clean_up moment.now);
      } in
      let (w2, ready) = gather outside conn_id moment w1 in
      elim (Bool-cases (is_asked_to_leave conn_id w1.engine)) [
        | inl asked ↦ rw (asked, round) (inr (gone_after _ _ true))
        | inr stays ↦
            rw (stays, round)
              (after_commands-Ends moment (run_ready outside conn_id w2 ready)
                (run_ready-Ends w2 ready))
      ]

  -- However the loop ends over any rounds, by the flag, the command, the server, an error or because
  -- the session has gone elsewhere, the session is not in the table any more.
  pub rounds-gone :
      (moments : List Moment) (w : World Tx Coder)
      → (rounds outside conn_id moments w).1 ≡ false
      → Map.get conn_id (rounds outside conn_id moments w).0.engine.sessions ≡ none
  unfolding rounds
  rounds-gone [] w h = cc
  rounds-gone (moment ∷ moments) w h = elim (Bool-cases (round outside conn_id moment w).1) [
    | inl goes_on ↦
        rw (goes_on, rounds)
          (rounds-gone moments (round outside conn_id moment w).0 (ground (arith, goes_on, h)))
    | inr stops ↦
        rw (stops, rounds) (Ends-false (round outside conn_id moment w) stops (round-Ends moment w))
  ]
