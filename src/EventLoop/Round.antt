-- ===== src/EventLoop/Round.antt =====
-- native/src/api.rs, `event_loop`: one round of the loop. It takes in the commands that wait in the
-- channel, sends those that the budget releases, and handles what has arrived on the connection.
use Prim.Native.Nat.{ℕ, ◌-◌, ◌/◌}
use beta.Base.{
  Bool, true, false, ◌&&◌, Option, none, some, List, [], ◌∷◌, ◌++◌, Text, keep, ltb, leb,
  if◌then◌else◌, nat_equal, pair_equal,
}
use beta.Base.Map
use beta.Base.Map.{Map}
use beta.Base.Word.{as_u32}
use beta.Command.{Command}
use beta.Budget.{pending, is_degraded, enqueue, drain_ready}
use beta.Events.{error, command_throttled}
use beta.Engine.{Engine, TsConnection, session, update, update_state, push_event}
use beta.Disconnect.{has_key, finalize_disconnect}
use beta.Roster.{Book}
use beta.EventLoop.Incoming.{StreamItem, NetworkStats, for_each}
use beta.EventLoop.Handlers.{Sight, handle_control_item}
use beta.EventLoop.Hearing.{VoiceIn, decode_to_client_buffer}
use beta.EventLoop.Execute.{World, Outside, leave, run_ready, closed_by_server}

-- What polling the connection gives: a timeout, the end of the stream, an error, or an item.
pub data Poll : Type 0 where
  timeout : Poll
  ended : Poll
  failed : (reason : Text) → Poll
  heard : VoiceIn → Poll
  control : StreamItem → Poll

-- What a round finds: the time, the samples played so far, the commands in the channel, what is
-- polled first and then, and what the connection knows.
pub record Moment : Type 0 where
  pub now : ℕ
  pub played : ℕ
  pub received : List Command
  pub first : Poll
  pub more : List Poll
  pub book : Option Book
  pub stats : Option NetworkStats

-- The commands that do not pass the budget.
unfoldable pub is_direct : Command → Bool
is_direct Command.disconnect = true
is_direct (Command.send_audio _) = true
is_direct other = false

-- The entries of less than two seconds ago.
pub keep_recent : (now : ℕ) → Map ℕ ℕ → Map ℕ ℕ
keep_recent now = keep λ entry. ltb ((now - entry.1) / 1_000_000) 2000

unfoldable pub clean_up : (now : ℕ) → TsConnection → TsConnection
unfolding keep_recent
clean_up now st = record st {
  talking_clients = keep_recent now st.talking_clients;
  whispering_clients = keep_recent now st.whispering_clients;
}

module _ {Tx : Type 0} (conn_id : ℕ) where
  -- `try_recv` until the channel is empty: the engine, and what is ready at once.
  unfoldable pub take_in : Engine Tx → List Command → Engine Tx × List Command
  unfolding is_direct
  take_in e [] = (e, [])
  take_in e (c ∷ cs) =
      let enqueued =
        update e conn_id (λ s. record s { command_budget = enqueue s.command_budget c }) in
      let (e', ready) = take_in (if is_direct c then e else enqueued) cs in
      (e', if is_direct c then c ∷ ready else ready)

  -- The commands that the budget releases.
  unfoldable pub release : (now : ℕ) → Engine Tx → Engine Tx × List Command
  release now e = elim (Map.get conn_id e.sessions) [
    | none ↦ (e, [])
    | some s ↦ (
      update e conn_id (λ s'. record s' { command_budget = (drain_ready s'.command_budget now).0 }),
      (drain_ready s.command_budget now).1,
    )
  ]

  -- The number of commands that go on waiting, and whether the budget is degraded.
  unfoldable pub waiting : Engine Tx → ℕ × Bool
  waiting e = elim (Map.get conn_id e.sessions) [
    | none ↦ (0, false)
    | some s ↦ (pending s.command_budget, is_degraded s.command_budget)
  ]

  unfoldable pub is_asked_to_leave : Engine Tx → Bool
  is_asked_to_leave e = elim (session e conn_id) [
    | none ↦ false
    | some st ↦ st.disconnect_requested
  ]

module _ {Tx Coder : Type 0} (outside : Outside Coder) (conn_id : ℕ) where
  -- At most one notice a second.
  unfoldable pub notice : (now : ℕ) → World Tx Coder → World Tx Coder
  unfolding waiting
  notice now w =
      let (count, degraded) = waiting conn_id w.engine in
      if ltb 0 count && leb 1_000_000_000 (now - w.last_throttle_notice)
      then record w {
        engine = push_event w.engine conn_id (command_throttled (as_u32 count) degraded);
        last_throttle_notice = now;
      }
      else w

  -- What the round has ready: the direct commands of the channel, then the released ones.
  unfoldable pub gather : Moment → World Tx Coder → World Tx Coder × List Command
  unfolding take_in release notice
  gather moment w =
      let (e, direct) = take_in conn_id w.engine moment.received in
      let (e', released) = release conn_id moment.now e in
      (notice moment.now (record w { engine = e' }), direct ++ released)

  unfoldable pub sight : Moment → World Tx Coder → Sight
  sight moment w = record {
    now = moment.now;
    book = moment.book;
    stats = moment.stats;
    decibels = λ id.
        if has_key (conn_id, id) w.engine.client_buffers
        then some (outside.decibels_of (w.buffers (conn_id, id)).volume)
        else none;
  }

  unfoldable pub handle : Moment → World Tx Coder → StreamItem → World Tx Coder
  unfolding sight
  handle moment w item = record w {
    engine = handle_control_item conn_id outside.f32 (sight moment w) w.engine item;
  }

  unfoldable pub hear : Moment → World Tx Coder → VoiceIn → World Tx Coder
  hear moment w packet =
      let (e, buffers) =
        decode_to_client_buffer conn_id outside.gain_of moment.now moment.played w.engine w.buffers
          packet in
      record w { engine = e; buffers = buffers }

  unfoldable pub report_failure : World Tx Coder → Text → World Tx Coder
  report_failure w reason = record w { engine = push_event w.engine conn_id (error reason) }

  -- The items that are there at once: voice is played, the rest is handled afterwards.
  unfoldable pub drain_polls :
      Moment → World Tx Coder → List Poll → World Tx Coder × List StreamItem
  unfolding hear report_failure
  drain_polls moment w [] = (w, [])
  drain_polls moment w (timeout ∷ polls) = (w, [])
  drain_polls moment w (ended ∷ polls) = (w, [])
  drain_polls moment w (failed reason ∷ polls) = (report_failure w reason, [])
  drain_polls moment w (heard packet ∷ polls) = drain_polls moment (hear moment w packet) polls
  drain_polls moment w (control item ∷ polls) =
      let (w', items) = drain_polls moment w polls in (w', item ∷ items)

  -- The rest of the round after the first poll, whose item waits longest.
  unfoldable pub handle_rest : Moment → World Tx Coder → (first : List StreamItem) → World Tx Coder
  unfolding drain_polls handle
  handle_rest moment w first =
      let (w', items) = drain_polls moment w moment.more in
      for_each (handle moment) (for_each (handle moment) w' items) first

  -- The end of the loop behind the last round.
  unfoldable pub close : World Tx Coder → World Tx Coder
  unfolding is_asked_to_leave
  close w = record w {
    engine =
        finalize_disconnect w.engine conn_id closed_by_server (is_asked_to_leave conn_id w.engine);
  }

  unfoldable pub poll_rest : Moment → World Tx Coder → Poll → World Tx Coder × Bool
  unfolding handle_rest close hear report_failure
  poll_rest moment w timeout = (handle_rest moment w [], true)
  poll_rest moment w ended = (close w, false)
  poll_rest moment w (failed reason) = (close (report_failure w reason), false)
  poll_rest moment w (heard packet) = (handle_rest moment (hear moment w packet) [], true)
  poll_rest moment w (control item) = (handle_rest moment w (item ∷ []), true)

  -- Once the commands are sent.
  unfoldable pub after_commands : Moment → World Tx Coder × Bool → World Tx Coder × Bool
  unfolding poll_rest
  after_commands moment (w, false) = (w, false)
  after_commands moment (w, true) = poll_rest moment w moment.first

  -- One round; the Boolean says whether there is another.
  unfoldable pub round : Moment → World Tx Coder → World Tx Coder × Bool
  unfolding clean_up is_asked_to_leave gather after_commands
  round moment w =
      let w1 = record w { engine = update_state w.engine conn_id (clean_up moment.now) } in
      let (w2, ready) = gather moment w1 in
      let rest = after_commands moment (run_ready outside conn_id w2 ready) in
      if is_asked_to_leave conn_id w1.engine then (leave outside conn_id w1, false) else rest

  unfoldable pub rounds : List Moment → World Tx Coder → World Tx Coder × Bool
  unfolding round
  rounds [] w = (w, true)
  rounds (moment ∷ moments) w =
      let (w', goes_on) = round moment w in
      let rest = rounds moments w' in if goes_on then rest else (w', false)
