-- ===== src/EventLoop/Pace/Polled.antt =====
-- Polling the connection sends nothing, and only degrades the budget.
use Prim.Native.Nat.{ℕ, ◌≤◌}
use beta.Base.{true, false, some, List, [], ◌∷◌, Text, ◌≡◌, refl, ◌∙◌, ◌⊎◌, inl, inr}
use beta.Budget.{CommandBudget}
use beta.Engine.{push_event}
use beta.EventLoop.Incoming.{StreamItem, for_each}
use beta.EventLoop.Hearing.{VoiceIn}
use beta.EventLoop.Execute.{World, Outside}
use beta.EventLoop.Round.{
  Moment, Poll, timeout, ended, failed, heard, control, sight, handle, hear, report_failure,
  drain_polls, handle_rest, close, poll_rest,
}
use beta.EventLoop.Pace.{budget_of, Leads, Leads-append}
use beta.EventLoop.Pace.Handled.{Leads-kept}
use beta.EventLoop.Pace.Items.{Leads-handle_control_item, decode_to_client_buffer-budget}

module _ {Tx Coder : Type 0} (outside : Outside Coder) (conn_id t : ℕ) (moment : Moment)
    (early : moment.now ≤ t) where
  -- Nothing is sent from one world to the other, and the budget comes from `b`.
  abbrev pub Polled : CommandBudget → World Tx Coder → World Tx Coder → Type 0
  Polled b w w' = (w'.sent ≡ w.sent) × Leads conn_id t b [] w'.engine

  Polled-append :
      (b : CommandBudget) (w w' w'' : World Tx Coder)
      → Polled b w w'
      → ((b' : CommandBudget) → budget_of conn_id w'.engine ≡ some b' → Polled b' w' w'')
      → Polled b w w''
  Polled-append b w w' w'' (kept, (b', runs, h)) next =
      let (kept', more) = next b' h in
      (
        kept' ∙ kept,
        Leads-append conn_id t b [] [] w'.engine w''.engine (b', runs, h) (λ b1 h1. (next b1 h1).1),
      )

  handle-Polled :
      (b : CommandBudget) (w : World Tx Coder) (item : StreamItem)
      → budget_of conn_id w.engine ≡ some b
      → Polled b w (handle outside conn_id moment w item)
  unfolding handle sight
  handle-Polled b w item h = (
    refl,
    Leads-handle_control_item conn_id t (sight outside conn_id moment w) outside.f32 early b
        w.engine item h,
  )

  handle_all-Polled :
      (b : CommandBudget) (w : World Tx Coder) (items : List StreamItem)
      → budget_of conn_id w.engine ≡ some b
      → Polled b w (for_each (handle outside conn_id moment) w items)
  handle_all-Polled b w [] h = (refl, Leads-kept conn_id t b w.engine w.engine refl h)
  handle_all-Polled b w (item ∷ items) h =
      let w' : World Tx Coder = handle outside conn_id moment w item in
      Polled-append b w w' (for_each (handle outside conn_id moment) w' items)
        (handle-Polled b w item h) (λ b' h'. handle_all-Polled b' w' items h')

  hear-Polled :
      (b : CommandBudget) (w : World Tx Coder) (packet : VoiceIn)
      → budget_of conn_id w.engine ≡ some b
      → Polled b w (hear outside conn_id moment w packet)
  unfolding hear
  hear-Polled b w packet h = (
    refl,
    Leads-kept conn_id t b w.engine (hear outside conn_id moment w packet).engine
        (decode_to_client_buffer-budget conn_id outside.gain_of moment.now moment.played w.engine
          w.buffers packet)
        h,
  )

  report_failure-Polled :
      (b : CommandBudget) (w : World Tx Coder) (reason : Text)
      → budget_of conn_id w.engine ≡ some b
      → Polled b w (report_failure outside conn_id w reason)
  unfolding report_failure push_event
  report_failure-Polled b w reason h = (
    refl,
    Leads-kept conn_id t b w.engine (report_failure outside conn_id w reason).engine refl h,
  )

  drain_polls-Polled :
      (b : CommandBudget) (w : World Tx Coder) (polls : List Poll)
      → budget_of conn_id w.engine ≡ some b
      → Polled b w (drain_polls outside conn_id moment w polls).0
  unfolding drain_polls
  drain_polls-Polled b w [] h = (refl, Leads-kept conn_id t b w.engine w.engine refl h)
  drain_polls-Polled b w (timeout ∷ polls) h =
      (refl, Leads-kept conn_id t b w.engine w.engine refl h)
  drain_polls-Polled b w (ended ∷ polls) h = (refl, Leads-kept conn_id t b w.engine w.engine refl h)
  drain_polls-Polled b w (failed reason ∷ polls) h = report_failure-Polled b w reason h
  drain_polls-Polled b w (heard packet ∷ polls) h =
      let w' : World Tx Coder = hear outside conn_id moment w packet in
      Polled-append b w w' (drain_polls outside conn_id moment w' polls).0
        (hear-Polled b w packet h) (λ b' h'. drain_polls-Polled b' w' polls h')
  drain_polls-Polled b w (control item ∷ polls) h = drain_polls-Polled b w polls h

  handle_rest-Polled :
      (b : CommandBudget) (w : World Tx Coder) (first : List StreamItem)
      → budget_of conn_id w.engine ≡ some b
      → Polled b w (handle_rest outside conn_id moment w first)
  unfolding handle_rest
  handle_rest-Polled b w first h =
      let (w', items) = drain_polls outside conn_id moment w moment.more in
      let w'' : World Tx Coder = for_each (handle outside conn_id moment) w' items in
      Polled-append b w w' (for_each (handle outside conn_id moment) w'' first)
        (drain_polls-Polled b w moment.more h)
        (λ b' h'.
          Polled-append b' w' w'' (for_each (handle outside conn_id moment) w'' first)
            (handle_all-Polled b' w' items h') (λ b'' h''. handle_all-Polled b'' w'' first h''))

  -- Where the loop goes on the budget is still there, and where it ends nothing is sent either.
  pub poll_rest-Polled :
      (b : CommandBudget) (w : World Tx Coder) (poll : Poll)
      → budget_of conn_id w.engine ≡ some b
      → let (w', goes_on) = poll_rest outside conn_id moment w poll in
        (w'.sent ≡ w.sent)
        × ((goes_on ≡ false) ⊎ ((goes_on ≡ true) × Leads conn_id t b [] w'.engine))
  unfolding poll_rest close report_failure
  poll_rest-Polled b w timeout h =
      let (kept, leads) = handle_rest-Polled b w [] h in (kept, inr (refl, leads))
  poll_rest-Polled b w ended h = (refl, inl refl)
  poll_rest-Polled b w (failed reason) h = (refl, inl refl)
  poll_rest-Polled b w (heard packet) h =
      let w' : World Tx Coder = hear outside conn_id moment w packet in
      let (kept, leads) =
        Polled-append b w w' (handle_rest outside conn_id moment w' []) (hear-Polled b w packet h)
          (λ b' h'. handle_rest-Polled b' w' [] h') in
      (kept, inr (refl, leads))
  poll_rest-Polled b w (control item) h =
      let (kept, leads) = handle_rest-Polled b w (item ∷ []) h in (kept, inr (refl, leads))
