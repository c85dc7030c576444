-- ===== src/EventLoop/Pace/Limit.antt =====
-- The event loop never calls the server faster than the flood protection allows.
use Prim.Native.Nat.{ℕ, ◌+◌, ◌-◌, ◌*◌, ◌≤◌}
use beta.Base.{
  Bool, some, List, [], ◌∷◌, ◌++◌, Text, length, length-append, All, ◌≡◌, ap, ◌∙◌, arith,
}
use beta.Command.{Command, flood_cost, half_token}
use beta.Budget.{new, run}
use beta.Budget.Rate.{total_cost, total_cost-append, run-new-rate}
use beta.EventLoop.Messages.{message_of}
use beta.EventLoop.Execute.{World, Outside}
use beta.EventLoop.Round.{Moment, rounds}
use beta.EventLoop.Pace.{controls, wire, wires, budget_of}
use beta.EventLoop.Pace.Rounds.{rounds-Paced}

-- A command is one call at most, and a call costs half a token at least.
wire-cost :
    (is_ip_addr : Text → Bool) (c : Command)
    → length (wire is_ip_addr c) * half_token ≤ flood_cost c
unfolding message_of flood_cost
wire-cost is_ip_addr Command.disconnect = omega arith
wire-cost is_ip_addr c = omega arith

wires-cost :
    (is_ip_addr : Text → Bool) (cs : List Command)
    → length (wires is_ip_addr cs) * half_token ≤ total_cost cs
wires-cost is_ip_addr [] = omega arith
wires-cost is_ip_addr (c ∷ cs) = omega (
  arith,
  wire-cost is_ip_addr c,
  wires-cost is_ip_addr cs,
  length-append (wire is_ip_addr c) (wires is_ip_addr cs),
)

-- From a session with a new budget that has called nothing yet, over any rounds up to the time `t`
-- (in nanoseconds), the event loop makes at most 16 calls besides voice and 6 more for each second.
pub rounds-limit :
    {Tx Coder : Type 0} (outside : Outside Coder) (conn_id now t : ℕ) (moments : List Moment)
    (w : World Tx Coder)
    → now ≤ t
    → All (λ moment. moment.now ≤ t) moments
    → budget_of conn_id w.engine ≡ some (new now)
    → controls w.sent ≡ []
    → length (controls (rounds outside conn_id moments w).0.sent) * 1_000_000_000
      ≤ 16_000_000_000 + 6 * (t - now)
rounds-limit outside conn_id now t moments w later early fresh silent =
    let p = rounds-Paced outside conn_id t moments (new now) w early fresh in
    let ops = p.runs.ops in
    let rate = run-new-rate now t ops later p.runs.before in
    let released : (run (new now) ops).1 ≡ p.done ++ p.left = ap (λ r. r.1) p.runs.ran ∙ p.parts in
    let cost = total_cost-append p.done p.left in
    let sent : controls (rounds outside conn_id moments w).0.sent
        ≡ wires outside.is_ip_addr p.done =
      p.sent ∙ ap (λ xs. xs ++ wires outside.is_ip_addr p.done) silent in
    rw sent
      (omega (arith, wires-cost outside.is_ip_addr p.done, cost, ap total_cost released, rate))
