-- ===== src/EventLoop/Pace/Rounds.antt =====
-- The rounds of the event loop: what goes out on the wire is what the budget of the session releases.
use Prim.Native.Nat.{ℕ, ◌≤◌}
use mathlib.Core.List.{append_assoc, append-nil}
use beta.Base.{
  Bool, true, false, some, List, [], ◌∷◌, ◌++◌, All, ◌≡◌, refl, sym, ap, ap₂, ◌∙◌, subst, ◌⊎◌, inl,
  inr, Bool-cases,
}
use beta.Command.{Command}
use beta.Budget.{CommandBudget}
use beta.Budget.Runs.{Runs, Runs-none, Runs-append}
use beta.Engine.{update_state}
use beta.EventLoop.Wire.{farewell}
use beta.EventLoop.Execute.{World, Outside, leave, run_ready}
use beta.EventLoop.Round.{
  Moment, clean_up, gather, is_asked_to_leave, after_commands, poll_rest, round, rounds,
}
use beta.EventLoop.Pace.{
  controls, controls-append, wires, wires-append, budget_of, budget_of-update, Leads,
}
use beta.EventLoop.Pace.Executed.{Ran, run_ready-Ran}
use beta.EventLoop.Pace.Gathered.{Gathered, gather-Gathered, wires-split}
use beta.EventLoop.Pace.Polled.{poll_rest-Polled}

module _ {Tx Coder : Type 0} (outside : Outside Coder) (conn_id t : ℕ) where
  -- What the rounds have done: from the budget `b`, operations up to the time `t` have released
  -- commands. The calls are those of a first part of them, which is all where the loop goes on, and
  -- then the session has the budget that is left.
  pub record Paced (b : CommandBudget) (w : World Tx Coder) (after : World Tx Coder × Bool)
      : Type 0 where
    pub released : List Command
    pub budget : CommandBudget
    pub runs : Runs t b released budget
    pub done : List Command
    pub left : List Command
    pub parts : released ≡ done ++ left
    pub sent : controls after.0.sent ≡ controls w.sent ++ wires outside.is_ip_addr done
    pub outcome :
        (after.1 ≡ false)
        ⊎ ((after.1 ≡ true) × (left ≡ []) × (budget_of conn_id after.0.engine ≡ some budget))

  -- A list of ready commands that was run, without the polling after it: the part of it that the
  -- budget released.
  record Split (b : CommandBudget) (w w2 : World Tx Coder) (ready : List Command)
      (ran : World Tx Coder × Bool) : Type 0 where
    released : List Command
    budget : CommandBudget
    runs : Runs t b released budget
    held : budget_of conn_id w2.engine ≡ some budget
    done : List Command
    left : List Command
    parts : released ≡ done ++ left
    sent : controls ran.0.sent ≡ controls w.sent ++ wires outside.is_ip_addr done
    outcome :
        (ran.1 ≡ false)
        ⊎ ((ran.1 ≡ true) × (left ≡ []) × (budget_of conn_id ran.0.engine ≡ some budget))

  ready-Split :
      (b : CommandBudget) (w w2 : World Tx Coder) (ready : List Command)
      → Gathered outside conn_id t b w.sent (w2, ready)
      → (ran : World Tx Coder × Bool) → Ran outside conn_id w2 ready ran
      → Split b w w2 ready ran
  ready-Split b w w2 ready g ran r =
      let (b', runs, held) = g.paced in
      let (done, left, parts, calls, empty) =
        wires-split outside.is_ip_addr g.direct g.released r.done r.left (sym g.parts ∙ r.parts)
          g.silent in
      record {
        released = g.released;
        budget = b';
        runs = runs;
        held = held;
        done = done;
        left = left;
        parts = parts;
        sent = r.sent ∙ ap₂ (λ xs ys. xs ++ ys) (ap controls g.kept) calls;
        outcome = elim r.outcome [
          | inl stops ↦ inl stops
          | inr (goes_on, nothing_left, same) ↦ inr (goes_on, empty nothing_left, same ∙ held)
        ];
      }

  after_commands-Paced :
      (moment : Moment)
      → moment.now ≤ t
      → (b : CommandBudget) (w w2 : World Tx Coder) (ready : List Command)
        (ran : World Tx Coder × Bool)
      → Split b w w2 ready ran
      → Paced b w (after_commands outside conn_id moment ran)
  unfolding after_commands
  after_commands-Paced moment early b w w2 ready (w3, false) s = record {
    released = s.released;
    budget = s.budget;
    runs = s.runs;
    done = s.done;
    left = s.left;
    parts = s.parts;
    sent = s.sent;
    outcome = inl refl;
  }
  after_commands-Paced moment early b w w2 ready (w3, true) s = elim s.outcome [
    | inl stops ↦ absurd (true_ne_false stops)
    | inr (goes_on, nothing_left, held) ↦
        polled (poll_rest-Polled outside conn_id t moment early s.budget w3 moment.first held)
          nothing_left
  ]
    where
      true_ne_false : true ≡ false → ⊥
      true_ne_false h = cc

      polled :
          let (w', goes_on) = poll_rest outside conn_id moment w3 moment.first in
          (w'.sent ≡ w3.sent)
            × ((goes_on ≡ false) ⊎ ((goes_on ≡ true) × Leads conn_id t s.budget [] w'.engine))
          → s.left ≡ []
          → Paced b w (poll_rest outside conn_id moment w3 moment.first)
      polled (kept, inl stops) nothing_left = record {
        released = s.released;
        budget = s.budget;
        runs = s.runs;
        done = s.done;
        left = s.left;
        parts = s.parts;
        sent = ap controls kept ∙ s.sent;
        outcome = inl stops;
      }
      polled (kept, inr (goes_on, (b', runs', held'))) nothing_left = record {
        released = s.released ++ [];
        budget = b';
        runs = Runs-append t s.runs runs';
        done = s.done;
        left = s.left;
        parts = append-nil s.released ∙ s.parts;
        sent = ap controls kept ∙ s.sent;
        outcome = inr (goes_on, nothing_left, held');
      }

  -- One round on a session with the budget `b`.
  pub round-Paced :
      (moment : Moment)
      → moment.now ≤ t
      → (b : CommandBudget) (w : World Tx Coder) → budget_of conn_id w.engine ≡ some b
      → Paced b w (round outside conn_id moment w)
  unfolding round leave
  round-Paced moment early b w h =
      let w1 : World Tx Coder = record w {
        engine = update_state w.engine conn_id (clean_up moment.now);
      } in
      let h1 : budget_of conn_id w1.engine ≡ some b =
        budget_of-update conn_id w.engine conn_id
          (λ s. record s { state = clean_up moment.now s.state }) (λ s. refl)
        ∙ h in
      let (w2, ready) = gather outside conn_id moment w1 in
      let ran = run_ready outside conn_id w2 ready in
      elim (Bool-cases (is_asked_to_leave conn_id w1.engine)) [
        | inl asked ↦
            rw (asked, round)
              (record {
                released = [];
                budget = b;
                runs = Runs-none t b;
                done = [];
                left = [];
                parts = refl;
                sent = controls-append w.sent (farewell ∷ []);
                outcome = inl refl;
              })
        | inr stays ↦
            rw (stays, round)
              (after_commands-Paced moment early b w w2 ready ran (
                ready-Split b w w2 ready (gather-Gathered outside conn_id t moment b w1 early h1)
                  ran (run_ready-Ran outside conn_id w2 ready)))
      ]

  Paced-rounds :
      (b : CommandBudget) (w w' : World Tx Coder) (after : World Tx Coder × Bool)
      (first : Paced b w (w', true))
      → ((b' : CommandBudget) → budget_of conn_id w'.engine ≡ some b' → Paced b' w' after)
      → Paced b w after
  Paced-rounds b w w' after first next = elim first.outcome [
    | inl stops ↦ absurd (not_true stops)
    | inr (goes_on, nothing_left, held) ↦ both nothing_left (next first.budget held)
  ]
    where
      not_true : true ≡ false → ⊥
      not_true h = cc

      both : first.left ≡ [] → Paced first.budget w' after → Paced b w after
      both nothing_left rest =
          let all_done : first.released ≡ first.done =
            first.parts ∙ ap (λ xs. first.done ++ xs) nothing_left ∙ append-nil first.done in
          record {
            released = first.released ++ rest.released;
            budget = rest.budget;
            runs = Runs-append t first.runs rest.runs;
            done = first.done ++ rest.done;
            left = rest.left;
            parts =
                ap₂ (λ xs ys. xs ++ ys) all_done rest.parts
                ∙ sym (append_assoc first.done rest.done rest.left);
            sent =
                rest.sent
                ∙ ap (λ xs. xs ++ wires outside.is_ip_addr rest.done) first.sent
                ∙ append_assoc (controls w.sent) (wires outside.is_ip_addr first.done)
                    (wires outside.is_ip_addr rest.done)
                ∙ ap (λ xs. controls w.sent ++ xs)
                    (sym (wires-append outside.is_ip_addr first.done rest.done));
            outcome = rest.outcome;
          }

  -- The event loop refines the budget: over any rounds up to the time `t`, whatever comes in from
  -- the user interface and the connection, the calls that go out besides voice are those of a first
  -- part of what some operations on the budget release, in that order, and of all of it while the
  -- loop goes on; the session is left with the budget that the operations lead to.
  pub rounds-Paced :
      (moments : List Moment) (b : CommandBudget) (w : World Tx Coder)
      → All (λ moment. moment.now ≤ t) moments
      → budget_of conn_id w.engine ≡ some b
      → Paced b w (rounds outside conn_id moments w)
  unfolding rounds
  rounds-Paced [] b w early h = record {
    released = [];
    budget = b;
    runs = Runs-none t b;
    done = [];
    left = [];
    parts = refl;
    sent = sym (append-nil (controls w.sent));
    outcome = inr (refl, refl, h);
  }
  rounds-Paced (moment ∷ moments) b w early h =
      let one : Paced b w (round outside conn_id moment w) = round-Paced moment early.0 b w h in
      let w' = (round outside conn_id moment w).0 in
      elim (Bool-cases (round outside conn_id moment w).1) [
        | inl goes_on ↦
            rw (goes_on, rounds)
              (Paced-rounds b w w' (rounds outside conn_id moments w')
                (subst (λ r. Paced b w (w', r)) goes_on one)
                (λ b' h'. rounds-Paced moments b' w' early.1 h'))
        | inr stops ↦ rw (stops, rounds) (subst (λ r. Paced b w (w', r)) stops one)
      ]
