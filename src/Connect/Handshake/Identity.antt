-- ===== src/Connect/Handshake/Identity.antt =====
-- The identity that the engine keeps, over an attempt.
use Prim.Native.Nat.{ℕ}
use beta.Base.{
  Bool, true, false, Option, none, List, [], ◌∷◌, Text, decimal, ◌++◌, ◌≡◌, ◌≢◌, refl, ◌∙◌, inl,
  inr, Option-cases, nat_equal,
}
use beta.Base.Map
use beta.Events.{diag}
use beta.Engine.{Engine, push_event}
use beta.Connect.Failures.{Error, resolving, connecting}
use beta.Connect.Server.{
  Answers, ConnectResult, joined, Handshake, ready, ended, timed_out, broken, BookResult, no_book,
  book, StreamItem, StreamEnd, book_events, identity_level_increasing, other_item, item_error,
  parsed,
}
use beta.Connect.Handshake.{
  raising_message, push_phase, announce, handshake, join, with_book, after_handshake, do_connect,
}

module _ {Tx : Type 0} (conn_id : ℕ) where
  announce-identity :
      (e : Engine Tx) (announced : Bool)
      → (announce e conn_id announced).identity_stash ≡ e.identity_stash
  unfolding announce push_phase push_event
  announce-identity e true = refl
  announce-identity e false = refl

  handshake-identity :
      (e : Engine Tx) (announced : Bool) (items : List StreamItem) (end : StreamEnd)
      → (handshake e conn_id announced items end).0.identity_stash ≡ e.identity_stash
  unfolding handshake push_event
  handshake-identity e announced [] end = refl
  handshake-identity e announced (book_events ∷ items) end = refl
  handshake-identity e announced (identity_level_increasing level ∷ items) end =
      handshake-identity
        (push_event (announce e conn_id announced) conn_id
          (diag (raising_message ++ decimal level)))
        true items end
      ∙ announce-identity e announced
  handshake-identity e announced (other_item ∷ items) end =
      handshake-identity (announce e conn_id announced) true items end
      ∙ announce-identity e announced
  handshake-identity e announced (item_error error ∷ items) end = refl

  abbrev Emptied : Engine Tx × ConnectResult → Type 0
  Emptied (e, result) = result ≢ joined → e.identity_stash ≡ none

  module _ (describe : Error → Text) (answers : Answers) (tx : Tx) (e : Engine Tx)
      (empty : e.identity_stash ≡ none) where
    with_book-Emptied :
        (found : BookResult) → Emptied (with_book describe answers tx e conn_id found)
    unfolding with_book join
    with_book-Emptied (no_book error) = λ not_joined. empty
    with_book-Emptied (book b) = elim (Option-cases (Map.get conn_id e.sessions)) [
      | inl gone ↦ rw (gone, join) λ not_joined. empty
      | inr (s, there) ↦ rw (there, join) λ not_joined. absurd (not_joined refl)
    ]

    after_handshake-Emptied :
        (outcome : Handshake) → Emptied (after_handshake describe answers tx e conn_id outcome)
    unfolding after_handshake
    after_handshake-Emptied timed_out = λ not_joined. empty
    after_handshake-Emptied (broken error) = λ not_joined. empty
    after_handshake-Emptied ended = λ not_joined. empty
    after_handshake-Emptied ready = with_book-Emptied answers.get_state

-- Every attempt but one that joins the server leaves the engine without an identity, also where
-- one was kept before: the next attempt is made without it unless it is set again.
pub do_connect-identity :
    {Tx : Type 0} (describe : Error → Text) (is_identity : Text → Bool) (answers : Answers)
    (tx : Tx) (e : Engine Tx) (conn_id : ℕ) (address nickname : Text)
    (channel password channel_password : Option Text)
    → let (e', result) =
        do_connect describe is_identity answers tx e conn_id address nickname channel password
          channel_password in
      result ≢ joined → e'.identity_stash ≡ none
unfolding do_connect push_phase push_event
do_connect-identity {Tx = Tx} describe is_identity answers tx e conn_id address nickname channel
      password channel_password not_joined =
    let e1 : Engine Tx = record (push_phase e conn_id resolving) { identity_stash = none } in
    let e2 : Engine Tx = push_phase e1 conn_id connecting in
    elim (Option-cases (
      answers.connect (record {
        address = address;
        name = nickname;
        identity = parsed is_identity e.identity_stash;
        channel = channel;
        password = password;
        channel_password = channel_password;
      }))) [
        | inr (error, refused) ↦ rw (refused, do_connect) refl
        | inl accepted ↦
            rw (accepted, do_connect)
              (after_handshake-Emptied conn_id describe answers tx
                (handshake e2 conn_id false answers.items answers.end).0
                (handshake-identity conn_id e2 false answers.items answers.end)
                (handshake e2 conn_id false answers.items answers.end).1
                (rw (accepted, do_connect) at not_joined))
      ]
