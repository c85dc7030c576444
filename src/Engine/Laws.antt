-- ===== src/Engine/Laws.antt =====
-- A session after a change through its locks.
use Prim.Native.Nat.{ℕ}
use beta.Base.{some, nat_equal, ◌≡◌, ap, arith, Option-cases, inl, inr}
use beta.Base.Map
use beta.Engine.{Engine, Session, TsConnection, session, update, update_state}

module _ {Tx : Type 0} (e : Engine Tx) (conn_id : ℕ) where
  -- The session behind a state.
  pub session_found :
      (st : TsConnection)
      → session e conn_id ≡ some st
      → (s : Session Tx) × (Map.get conn_id e.sessions ≡ some s) × (s.state ≡ st)
  session_found st found = elim (Option-cases (Map.get conn_id e.sessions)) [
    | inl gone ↦ absurd (ground (arith, gone))
    | inr (s, there) ↦ (s, there, ground (arith, there))
  ]

  pub get-update :
      (f : Session Tx → Session Tx) (s : Session Tx)
      → Map.get conn_id e.sessions ≡ some s
      → Map.get conn_id (update e conn_id f).sessions ≡ some (f s)
  get-update f s there = Map.get-adjust_self conn_id f s e.sessions there

  pub session-update_state :
      (f : TsConnection → TsConnection) (st : TsConnection)
      → session e conn_id ≡ some st
      → session (update_state e conn_id f) conn_id ≡ some (f st)
  session-update_state f st found =
      let (s, there, same) = session_found st found in
      rw (get-update (λ s'. record s' { state = f s'.state }) s there, session)
        (ap (λ x. some (f x)) same)
