-- ===== src/EventLoop/Pace.antt =====
-- The event loop as a client of the flood protection: which calls of tsclientlib a command is, and
-- what the budget of a session has done from one engine to another.
pub mod Handled
pub mod Items
pub mod Executed
pub mod Gathered
pub mod Polled
pub mod Rounds
pub mod Limit
use Prim.Native.Nat.{ℕ}
use mathlib.Core.List.{append_assoc, append-nil}
use beta.Base.{
  Bool, Option, none, some, List, [], ◌∷◌, ◌++◌, Text, is_empty, if◌then◌else◌, nat_equal, ◌≡◌,
  refl, sym, ap, ◌∙◌, arith, inl, inr, Option-cases,
}
use beta.Base.Map
use beta.Command
use beta.Command.{Command}
use beta.Budget.{CommandBudget}
use beta.Budget.Runs.{Runs, Runs-append}
use beta.Engine.{Engine, Session, update, push_event}
use beta.EventLoop.Wire.{Sent, message, audio, upload, farewell}
use beta.EventLoop.Messages.{message_of}

-- The calls that pass the flood protection: no voice, and not the farewell.
abbrev pub controls : List Sent → List Sent
controls [] = []
controls (message m ∷ sent) = message m ∷ controls sent
controls (upload channel_id path password size overwrite ∷ sent) =
    upload channel_id path password size overwrite ∷ controls sent
controls (audio packet ∷ sent) = controls sent
controls (farewell ∷ sent) = controls sent

pub controls-append : (xs ys : List Sent) → controls (xs ++ ys) ≡ controls xs ++ controls ys
controls-append [] ys = refl
controls-append (message m ∷ xs) ys = ap (λ zs. message m ∷ zs) (controls-append xs ys)
controls-append (upload c p w n o ∷ xs) ys =
    ap (λ zs. upload c p w n o ∷ zs) (controls-append xs ys)
controls-append (audio p ∷ xs) ys = controls-append xs ys
controls-append (farewell ∷ xs) ys = controls-append xs ys

-- The calls of a command.
abbrev pub wire_rest : Command → List Sent
wire_rest
      (Command.upload_file transfer_id channel_id channel_password remote_path source size
        overwrite) =
    upload channel_id remote_path
      (if is_empty channel_password then none else some channel_password) size overwrite
    ∷ []
wire_rest other = []

module _ (is_ip_addr : Text → Bool) where
  abbrev pub wire : Command → List Sent
  wire c = elim (message_of is_ip_addr c) [ none ↦ wire_rest c | some m ↦ message m ∷ [] ]

  abbrev pub wires : List Command → List Sent
  wires [] = []
  wires (c ∷ cs) = wire c ++ wires cs

  pub wires-append : (cs ds : List Command) → wires (cs ++ ds) ≡ wires cs ++ wires ds
  wires-append [] ds = refl
  wires-append (c ∷ cs) ds =
      ap (λ xs. wire c ++ xs) (wires-append cs ds)
      ∙ sym (append_assoc (wire c) (wires cs) (wires ds))

module _ {Tx : Type 0} (conn_id : ℕ) where
  abbrev pub budget_of : Engine Tx → Option CommandBudget
  budget_of e = elim (Map.get conn_id e.sessions) [ none ↦ none | some s ↦ some s.command_budget ]

  -- The budget of the engine has come from `b` by releasing `cs`.
  abbrev pub Leads : ℕ → CommandBudget → List Command → Engine Tx → Type 0
  Leads t b cs e = (b' : CommandBudget) × Runs t b cs b' × (budget_of e ≡ some b')

  pub Leads-append :
      (t : ℕ) (b : CommandBudget) (cs ds : List Command) (e e' : Engine Tx)
      → Leads t b cs e
      → ((b' : CommandBudget) → budget_of e ≡ some b' → Leads t b' ds e')
      → Leads t b (cs ++ ds) e'
  Leads-append t b cs ds e e' (b', r, h) next =
      let (b'', s, k) = next b' h in (b'', Runs-append t r s, k)

  -- A change of the session that leaves its budget alone.
  pub budget_of-update :
      (e : Engine Tx) (id : ℕ) (f : Session Tx → Session Tx)
      → ((s : Session Tx) → (f s).command_budget ≡ s.command_budget)
      → budget_of (update e id f) ≡ budget_of e
  budget_of-update e id f same = elim (Option-cases (Map.get conn_id e.sessions)) [
    | inl gone ↦ ground (arith, gone, Map.get-adjust id conn_id f e.sessions)
    | inr (s, there) ↦ ground (arith, there, same s, Map.get-adjust id conn_id f e.sessions)
  ]
