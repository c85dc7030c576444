-- ===== src/Connect/Handshake/Progress.antt =====
-- What an attempt tells before its end: phases and notes, and nothing else changes.
use Prim.Native.Nat.{ℕ}
use mathlib.Core.List.{append_assoc, append-nil}
use beta.Base.{Bool, true, false, none, List, [], ◌∷◌, ◌++◌, All, decimal, ◌≡◌, refl, sym, ap, ◌∙◌}
use beta.Events.{TsEvent, EnvelopedEvent, connection_phase, diag}
use beta.Engine.{Engine, push_event}
use beta.Connect.Failures.{ConnectPhase}
use beta.Connect.Server.{
  StreamItem, StreamEnd, book_events, identity_level_increasing, other_item, item_error,
}
use beta.Connect.Handshake.{raising_message, push_phase, announce, handshake}

abbrev pub IsProgress : TsEvent → Type 0
IsProgress (connection_phase phase) = Unit {0}
IsProgress (diag msg) = Unit {0}
IsProgress _ = ⊥

module _ (conn_id : ℕ) where
  -- An event of the connection about its progress.
  abbrev pub Told : EnvelopedEvent → Type 0
  Told x = (x.connection_id ≡ conn_id) × IsProgress x.event

  pub append-Told : (xs ys : List EnvelopedEvent) → All Told xs → All Told ys → All Told (xs ++ ys)
  append-Told [] ys h k = k
  append-Told (x ∷ xs) ys h k = (h.0, append-Told xs ys h.1 k)

module _ {Tx : Type 0} (conn_id : ℕ) where
  pub record Progressed (e e' : Engine Tx) : Type 0 where
    pub told : List EnvelopedEvent
    pub all_told : All (Told conn_id) told
    pub queue : e'.event_queue ≡ e.event_queue ++ told
    pub sessions : e'.sessions ≡ e.sessions

  pub no_progress : (e : Engine Tx) → Progressed e e
  no_progress e = record {
    told = [];
    all_told = tt;
    queue = sym (append-nil e.event_queue);
    sessions = refl;
  }

  pub then_progress :
      {e e' e'' : Engine Tx} → Progressed e e' → Progressed e' e'' → Progressed e e''
  then_progress {e = e} p q = record {
    told = p.told ++ q.told;
    all_told = append-Told conn_id p.told q.told p.all_told q.all_told;
    queue = q.queue ∙ ap (λ xs. xs ++ q.told) p.queue ∙ append_assoc e.event_queue p.told q.told;
    sessions = q.sessions ∙ p.sessions;
  }

  -- An identity that is taken out changes none of these.
  pub take_identity-Progressed :
      {e e' : Engine Tx} → Progressed e e' → Progressed e (record e' { identity_stash = none })
  take_identity-Progressed p = record {
    told = p.told;
    all_told = p.all_told;
    queue = p.queue;
    sessions = p.sessions;
  }

  pub push_event-Progressed :
      (e : Engine Tx) (event : TsEvent)
      → IsProgress event
      → Progressed e (push_event e conn_id event)
  unfolding push_event
  push_event-Progressed e event h = record {
    told = record { connection_id = conn_id; event = event } ∷ [];
    all_told = ((refl, h), tt);
    queue = refl;
    sessions = refl;
  }

  pub push_phase-Progressed :
      (e : Engine Tx) (phase : ConnectPhase) → Progressed e (push_phase e conn_id phase)
  unfolding push_phase
  push_phase-Progressed e phase = push_event-Progressed e _ tt

  announce-Progressed :
      (e : Engine Tx) (announced : Bool) → Progressed e (announce e conn_id announced)
  unfolding announce push_phase
  announce-Progressed e true = no_progress e
  announce-Progressed e false = push_event-Progressed e _ tt

  pub handshake-Progressed :
      (e : Engine Tx) (announced : Bool) (items : List StreamItem) (end : StreamEnd)
      → Progressed e (handshake e conn_id announced items end).0
  unfolding handshake
  handshake-Progressed e announced [] end = no_progress e
  handshake-Progressed e announced (book_events ∷ items) end = no_progress e
  handshake-Progressed e announced (identity_level_increasing level ∷ items) end =
      then_progress (announce-Progressed e announced) (
        then_progress (push_event-Progressed (announce e conn_id announced) _ tt) (
          handshake-Progressed
            (push_event (announce e conn_id announced) conn_id
              (diag (raising_message ++ decimal level)))
            true items end))
  handshake-Progressed e announced (other_item ∷ items) end =
      then_progress (announce-Progressed e announced)
        (handshake-Progressed (announce e conn_id announced) true items end)
  handshake-Progressed e announced (item_error error ∷ items) end = no_progress e
