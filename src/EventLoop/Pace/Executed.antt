-- ===== src/EventLoop/Pace/Executed.antt =====
-- The ready commands: each is its calls of tsclientlib, in order, and none touches the budget.
use Prim.Native.Nat.{ℕ}
use mathlib.Core.List.{append_assoc, append-nil}
use beta.Base.{
  Bool, true, false, Option, none, some, List, [], ◌∷◌, ◌++◌, map, Text, nat_equal, ◌≡◌, refl, sym,
  ap, ◌∙◌, arith, ◌⊎◌, inl, inr, Option-cases, Bool-cases,
}
use beta.Command.{Command}
use beta.Engine.{Engine, session, push_event}
use beta.Transfers.{send_upload}
use beta.EventLoop.Wire.{VoicePacket, message, audio}
use beta.EventLoop.Messages.{message_of}
use beta.EventLoop.Voice.Sending.{send_audio-packets}
use beta.EventLoop.Execute.{
  World, Outside, leave, report, send_message, speak, perform, execute, run_ready,
}
use beta.EventLoop.Pace.{
  controls, controls-append, wire_rest, wire, wires, budget_of, budget_of-update,
}

controls-audio : (packets : List VoicePacket) → controls (map audio packets) ≡ []
controls-audio [] = refl
controls-audio (p ∷ ps) = controls-audio ps

module _ {Tx Coder : Type 0} (outside : Outside Coder) (conn_id : ℕ) where
  report-budget :
      (c : Command) (failed : Option Text) (e : Engine Tx)
      → budget_of conn_id (report outside conn_id c failed e) ≡ budget_of conn_id e
  unfolding report push_event
  report-budget c none e = refl
  report-budget c (some reason) e = ground arith

  speak-controls :
      (w : World Tx Coder) (samples : List ℕ)
      → controls (speak outside conn_id w samples).sent ≡ controls w.sent
  unfolding speak
  speak-controls w samples = elim (Option-cases (session w.engine conn_id)) [
    | inl gone ↦ rw (gone, speak) refl
    | inr (st, found) ↦
        let (packets, sends) =
          send_audio-packets outside.f32 outside.encode outside.failure
            (record { state = st; coder = w.coder; sent = w.sent }) samples in
        rw (found, speak)
          (ap controls sends
            ∙ controls-append w.sent (map audio packets)
            ∙ ap (λ xs. controls w.sent ++ xs) (controls-audio packets)
            ∙ append-nil (controls w.sent))
  ]

  speak-budget :
      (w : World Tx Coder) (samples : List ℕ)
      → budget_of conn_id (speak outside conn_id w samples).engine ≡ budget_of conn_id w.engine
  unfolding speak
  speak-budget w samples = elim (Option-cases (session w.engine conn_id)) [
    | inl gone ↦ rw (gone, speak) refl
    | inr (st, found) ↦ rw (found, speak) (budget_of-update conn_id w.engine conn_id _ (λ s. refl))
  ]

  send_upload-budget :
      (answer : Option ℕ) (transfer_id : ℕ) (source remote : Text) (e : Engine Tx)
      → budget_of conn_id (send_upload e conn_id answer transfer_id source remote)
        ≡ budget_of conn_id e
  unfolding send_upload push_event
  send_upload-budget none transfer_id source remote e = refl
  send_upload-budget (some handle) transfer_id source remote e =
      budget_of-update conn_id e conn_id _ (λ s. refl)

  perform-controls :
      (w : World Tx Coder) (c : Command)
      → controls (perform outside conn_id w c).0.sent ≡ controls w.sent ++ wire_rest c
  unfolding perform leave
  perform-controls w (Command.upload_file i ch p r s n o) = controls-append w.sent _
  perform-controls w Command.disconnect = controls-append w.sent _
  perform-controls w (Command.send_audio samples) = speak-controls w samples ∙ sym (append-nil _)
  perform-controls w other = sym (append-nil (controls w.sent))

  perform-budget :
      (w : World Tx Coder) (c : Command)
      → (perform outside conn_id w c).1 ≡ true
      → budget_of conn_id (perform outside conn_id w c).0.engine ≡ budget_of conn_id w.engine
  unfolding perform
  perform-budget w (Command.upload_file i ch p r s n o) h =
      send_upload-budget (outside.upload_handle _) i s r w.engine
  perform-budget w Command.disconnect h = cc
  perform-budget w (Command.send_audio samples) h = speak-budget w samples
  perform-budget w other h = refl

  -- A command that is executed is its calls, and whether they succeed makes no difference to the
  -- commands behind it.
  pub execute-controls :
      (w : World Tx Coder) (c : Command)
      → controls (execute outside conn_id w c).0.sent ≡ controls w.sent ++ wire outside.is_ip_addr c
  unfolding execute send_message
  execute-controls w c = elim (Option-cases (message_of outside.is_ip_addr c)) [
    | inl rest ↦ rw (rest, execute, wire) (perform-controls w c)
    | inr (m, one) ↦ rw (one, execute, wire) (controls-append w.sent (message m ∷ []))
  ]

  pub execute-budget :
      (w : World Tx Coder) (c : Command)
      → (execute outside conn_id w c).1 ≡ true
      → budget_of conn_id (execute outside conn_id w c).0.engine ≡ budget_of conn_id w.engine
  unfolding execute send_message
  execute-budget w c goes_on = elim (Option-cases (message_of outside.is_ip_addr c)) [
    | inl rest ↦ rw (rest, execute) (perform-budget w c (ground (arith, rest, goes_on)))
    | inr (m, one) ↦ rw (one, execute) (report-budget c _ w.engine)
  ]

  -- What running a list of commands has done: a first part is sent, which is all where the loop goes
  -- on, and then the budget is as it was.
  pub record Ran (w : World Tx Coder) (cs : List Command) (after : World Tx Coder × Bool)
      : Type 0 where
    pub done : List Command
    pub left : List Command
    pub parts : cs ≡ done ++ left
    pub sent : controls after.0.sent ≡ controls w.sent ++ wires outside.is_ip_addr done
    pub outcome :
        (after.1 ≡ false)
        ⊎ ((after.1 ≡ true)
            × (left ≡ [])
            × (budget_of conn_id after.0.engine ≡ budget_of conn_id w.engine))

  Ran-next :
      (w w' : World Tx Coder) (c : Command) (cs : List Command) (after : World Tx Coder × Bool)
      → controls w'.sent ≡ controls w.sent ++ wire outside.is_ip_addr c
      → budget_of conn_id w'.engine ≡ budget_of conn_id w.engine
      → Ran w' cs after
      → Ran w (c ∷ cs) after
  Ran-next w w' c cs after sends same r = record {
    done = c ∷ r.done;
    left = r.left;
    parts = ap (λ xs. c ∷ xs) r.parts;
    sent =
        r.sent
        ∙ ap (λ xs. xs ++ wires outside.is_ip_addr r.done) sends
        ∙ append_assoc (controls w.sent) (wire outside.is_ip_addr c)
            (wires outside.is_ip_addr r.done);
    outcome = elim r.outcome [
      | inl stops ↦ inl stops
      | inr (goes_on, nothing_left, kept) ↦ inr (goes_on, nothing_left, kept ∙ same)
    ];
  }

  Ran-stopped :
      (w w' : World Tx Coder) (done left : List Command)
      → controls w'.sent ≡ controls w.sent ++ wires outside.is_ip_addr done
      → Ran w (done ++ left) (w', false)
  Ran-stopped w w' done left sends = record {
    done = done;
    left = left;
    parts = refl;
    sent = sends;
    outcome = inl refl;
  }

  pub run_ready-Ran :
      (w : World Tx Coder) (cs : List Command) → Ran w cs (run_ready outside conn_id w cs)
  unfolding run_ready
  run_ready-Ran w [] = record {
    done = [];
    left = [];
    parts = refl;
    sent = sym (append-nil (controls w.sent));
    outcome = inr (refl, refl, refl);
  }
  run_ready-Ran w (c ∷ cs) = elim (Option-cases (session w.engine conn_id)) [
    | inl gone ↦
        rw (gone, run_ready) (Ran-stopped w w [] (c ∷ cs) (sym (append-nil (controls w.sent))))
    | inr (st, found) ↦ elim (Bool-cases (execute outside conn_id w c).1) [
      | inl goes_on ↦
          rw (found, goes_on, run_ready)
            (Ran-next w (execute outside conn_id w c).0 c cs
              (run_ready outside conn_id (execute outside conn_id w c).0 cs) (execute-controls w c)
              (execute-budget w c goes_on) (run_ready-Ran (execute outside conn_id w c).0 cs))
      | inr stops ↦
          rw (found, stops, run_ready)
            (Ran-stopped w (execute outside conn_id w c).0 (c ∷ []) cs
              (execute-controls w c ∙ ap (λ xs. controls w.sent ++ xs) (sym (append-nil _))))
    ]
  ]
