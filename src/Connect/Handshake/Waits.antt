-- ===== src/Connect/Handshake/Waits.antt =====
-- The wait of `do_connect` for the server, as a relation between what comes and how the wait ends.
use Prim.Native.Nat.{ℕ}
use beta.Base.{Bool, true, List, [], ◌∷◌, ◌++◌, All, decimal}
use beta.Events.{diag}
use beta.Engine.{Engine, push_event}
use beta.Connect.Server.{
  StreamItem, StreamEnd, Handshake, book_events, identity_level_increasing, other_item, item_error,
  closed, elapsed, ready, ended, timed_out, broken,
}
use beta.Connect.Failures.{Error}
use beta.Connect.Handshake.{raising_message, announce, handshake}

-- An item that does not end the wait.
abbrev pub Quiet : StreamItem → Type 0
Quiet (identity_level_increasing level) = Unit {0}
Quiet other_item = Unit {0}
Quiet book_events = ⊥
Quiet (item_error error) = ⊥

-- The first item that ends the wait decides; where none does, the stream is over or the time is.
pub data Waits : List StreamItem → StreamEnd → Handshake → Type 0 where
  answers :
      (before after : List StreamItem) (end : StreamEnd)
      → All Quiet before
      → Waits (before ++ book_events ∷ after) end ready
  breaks :
      (before after : List StreamItem) (end : StreamEnd) (error : Error)
      → All Quiet before
      → Waits (before ++ item_error error ∷ after) end (broken error)
  closes : (items : List StreamItem) → All Quiet items → Waits items closed ended
  elapses : (items : List StreamItem) → All Quiet items → Waits items elapsed timed_out

Waits-later :
    {items : List StreamItem} {end : StreamEnd} {outcome : Handshake} (item : StreamItem)
    → Quiet item
    → Waits items end outcome
    → Waits (item ∷ items) end outcome
Waits-later item quiet (answers before after end h) = answers (item ∷ before) after end (quiet, h)
Waits-later item quiet (breaks before after end error h) =
    breaks (item ∷ before) after end error (quiet, h)
Waits-later item quiet (closes items h) = closes (item ∷ items) (quiet, h)
Waits-later item quiet (elapses items h) = elapses (item ∷ items) (quiet, h)

pub handshake-Waits :
    {Tx : Type 0} (e : Engine Tx) (conn_id : ℕ) (announced : Bool) (items : List StreamItem)
    (end : StreamEnd)
    → Waits items end (handshake e conn_id announced items end).1
unfolding handshake
handshake-Waits e conn_id announced [] closed = closes [] tt
handshake-Waits e conn_id announced [] elapsed = elapses [] tt
handshake-Waits e conn_id announced (book_events ∷ items) end = answers [] items end tt
handshake-Waits e conn_id announced (identity_level_increasing level ∷ items) end =
    Waits-later (identity_level_increasing level) tt (
      handshake-Waits
        (push_event (announce e conn_id announced) conn_id
          (diag (raising_message ++ decimal level)))
        conn_id true items end)
handshake-Waits e conn_id announced (other_item ∷ items) end =
    Waits-later other_item tt
      (handshake-Waits (announce e conn_id announced) conn_id true items end)
handshake-Waits e conn_id announced (item_error error ∷ items) end = breaks [] items end error tt
