-- ===== src/EventLoop/Pace/Gathered.antt =====
-- What a round has ready: direct commands, which are no calls that the budget paces, and behind them
-- the commands that the budget releases.
use Prim.Native.Nat.{ℕ, ◌≤◌}
use beta.Base.{
  Bool, true, some, List, [], ◌∷◌, ◌++◌, Text, nat_equal, ◌≡◌, refl, sym, ap, ◌∙◌, arith, inl, inr,
  Option-cases, Bool-cases,
}
use beta.Base.Map
use beta.Command.{Command}
use beta.Budget.{CommandBudget, enqueue, drain_ready}
use beta.Budget.Runs.{Runs-none, Runs-enqueue, Runs-drain_ready}
use beta.Engine.{Engine, update, push_event}
use beta.EventLoop.Wire.{Sent}
use beta.EventLoop.Messages.{message_of}
use beta.EventLoop.Execute.{World, Outside}
use beta.EventLoop.Round.{Moment, is_direct, take_in, release, notice, gather}
use beta.EventLoop.Pace.{wire, wires, budget_of, Leads, Leads-append}

wire-direct : (is_ip_addr : Text → Bool) (c : Command) → is_direct c ≡ true → wire is_ip_addr c ≡ []
unfolding is_direct message_of
wire-direct is_ip_addr Command.disconnect h = refl
wire-direct is_ip_addr (Command.send_audio samples) h = refl
wire-direct is_ip_addr other h = cc

append-eq-nil {ℓ} : {A : Type ℓ} (xs ys : List A) → xs ++ ys ≡ [] → (xs ≡ []) × (ys ≡ [])
append-eq-nil [] ys h = (refl, h)
append-eq-nil (x ∷ xs) ys h = cc

-- A first part of a list whose beginning has no calls.
pub wires-split :
    (is_ip_addr : Text → Bool) (xs ys done left : List Command)
    → xs ++ ys ≡ done ++ left
    → wires is_ip_addr xs ≡ []
    → (done' : List Command) × (left' : List Command) × (ys ≡ done' ++ left')
      × (wires is_ip_addr done ≡ wires is_ip_addr done')
      × (left ≡ [] → left' ≡ [])
wires-split is_ip_addr [] ys done left h silent = (done, left, h, refl, λ e. e)
wires-split is_ip_addr (x ∷ xs) ys [] left h silent = ([], ys, refl, refl, λ e. cc)
wires-split is_ip_addr (x ∷ xs) ys (d ∷ ds) left h silent =
    let same : x ≡ d = cc in
    let rest : xs ++ ys ≡ ds ++ left = cc in
    let (no_call, quiet) = append-eq-nil (wire is_ip_addr x) (wires is_ip_addr xs) silent in
    let (done', left', parts, calls, empty) = wires-split is_ip_addr xs ys ds left rest quiet in
    (
      done',
      left',
      parts,
      ap (λ zs. zs ++ wires is_ip_addr ds) (ap (wire is_ip_addr) (sym same) ∙ no_call) ∙ calls,
      empty,
    )

module _ {Tx : Type 0} (conn_id t : ℕ) where
  -- A change of the budget, as the engine makes it.
  budget_of-change :
      (b : CommandBudget) (e : Engine Tx) (f : CommandBudget → CommandBudget)
      → budget_of conn_id e ≡ some b
      → budget_of conn_id (update e conn_id (λ s. record s { command_budget = f s.command_budget }))
        ≡ some (f b)
  budget_of-change b e f h = ground (
    arith,
    h,
    Map.get-adjust conn_id conn_id (λ s. record s { command_budget = f s.command_budget })
        e.sessions,
    nat_equal.test_iff conn_id conn_id,
  )

  take_in-Leads :
      (b : CommandBudget) (e : Engine Tx) (cs : List Command)
      → budget_of conn_id e ≡ some b
      → Leads conn_id t b [] (take_in conn_id e cs).0
  unfolding take_in
  take_in-Leads b e [] h = (b, Runs-none t b, h)
  take_in-Leads b e (c ∷ cs) h = elim (Bool-cases (is_direct c)) [
    | inl direct ↦ rw (direct, take_in) (take_in-Leads b e cs h)
    | inr other ↦
        let e' : Engine Tx =
          update e conn_id (λ s. record s { command_budget = enqueue s.command_budget c }) in
        rw (other, take_in)
          (Leads-append conn_id t b [] [] e' (take_in conn_id e' cs).0
            (enqueue b c, Runs-enqueue t b c, budget_of-change b e (λ b'. enqueue b' c) h)
            (λ b' h'. take_in-Leads b' e' cs h'))
  ]

  take_in-direct :
      (is_ip_addr : Text → Bool) (e : Engine Tx) (cs : List Command)
      → wires is_ip_addr (take_in conn_id e cs).1 ≡ []
  unfolding take_in
  take_in-direct is_ip_addr e [] = refl
  take_in-direct is_ip_addr e (c ∷ cs) = elim (Bool-cases (is_direct c)) [
    | inl direct ↦
        rw (direct, take_in)
          (ap (λ xs. xs ++ wires is_ip_addr (take_in conn_id e cs).1)
              (wire-direct is_ip_addr c direct)
            ∙ take_in-direct is_ip_addr e cs)
    | inr other ↦
        rw (other, take_in)
          (take_in-direct is_ip_addr
            (update e conn_id (λ s. record s { command_budget = enqueue s.command_budget c })) cs)
  ]

  release-Leads :
      (now : ℕ) (b : CommandBudget) (e : Engine Tx)
      → now ≤ t
      → budget_of conn_id e ≡ some b
      → Leads conn_id t b (release conn_id now e).1 (release conn_id now e).0
  unfolding release
  release-Leads now b e early h = elim (Option-cases (Map.get conn_id e.sessions)) [
    | inl gone ↦ absurd (ground (arith, gone, h))
    | inr (s, there) ↦
        let same : s.command_budget ≡ b = ground (arith, there, h) in
        rw (there, same, release)
          (
            (drain_ready b now).0,
            Runs-drain_ready t b now early,
            budget_of-change b e (λ b'. (drain_ready b' now).0) h,
          )
  ]

module _ {Tx Coder : Type 0} (outside : Outside Coder) (conn_id t : ℕ) where
  notice_keeps :
      (now : ℕ) (w : World Tx Coder)
      → ((notice outside conn_id now w).sent ≡ w.sent)
        × (budget_of conn_id (notice outside conn_id now w).engine ≡ budget_of conn_id w.engine)
  unfolding notice push_event
  notice_keeps now w = ground arith

  -- The round has ready what passes the budget and behind it what the budget has released.
  pub record Gathered (b : CommandBudget) (sent : List Sent) (after : World Tx Coder × List Command)
      : Type 0 where
    pub direct : List Command
    pub released : List Command
    pub parts : after.1 ≡ direct ++ released
    pub silent : wires outside.is_ip_addr direct ≡ []
    pub paced : Leads conn_id t b released after.0.engine
    pub kept : after.0.sent ≡ sent

  pub gather-Gathered :
      (moment : Moment) (b : CommandBudget) (w : World Tx Coder)
      → moment.now ≤ t
      → budget_of conn_id w.engine ≡ some b
      → Gathered b w.sent (gather outside conn_id moment w)
  unfolding gather
  gather-Gathered moment b w early h =
      let e : Engine Tx = (take_in conn_id w.engine moment.received).0 in
      let e' : Engine Tx = (release conn_id moment.now e).0 in
      let noticed = notice_keeps moment.now (record w { engine = e' }) in
      let (b', runs, now_b') =
        Leads-append conn_id t b [] (release conn_id moment.now e).1 e e'
          (take_in-Leads conn_id t b w.engine moment.received h)
          (λ b1 h1. release-Leads conn_id t moment.now b1 e early h1) in
      record {
        direct = (take_in conn_id w.engine moment.received).1;
        released = (release conn_id moment.now e).1;
        parts = refl;
        silent = take_in-direct conn_id t outside.is_ip_addr w.engine moment.received;
        paced = (b', runs, noticed.1 ∙ now_b');
        kept = noticed.0;
      }
