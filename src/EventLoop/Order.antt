-- ===== src/EventLoop/Order.antt =====
-- The order in which the items of one round are handled.
use Prim.Native.Nat.{ℕ}
use mathlib.Core.List.{append_assoc, append-nil}
use beta.Base.{
  true, if◌then◌else◌, List, [], ◌∷◌, ◌++◌, map, Text, ◌≡◌, refl, sym, ap, ◌∙◌, arith, nat_equal,
}
use beta.Base.Word.{as_u32}
use beta.Engine.{Engine, AudioKey, push_event}
use beta.Events.{EnvelopedEvent, text_message}
use beta.Whisper.{whisper_is_allowed}
use beta.EventLoop.Incoming.{MessageTarget, BookEvent, StreamItem, for_each, target_code}
use beta.EventLoop.Handlers.{book_event, handle_control_item}
use beta.EventLoop.Hearing.{
  VoiceIn, Buffers, Decoded, mono, stereo, garbled, enter_decoders, play, decode_to_client_buffer,
}
use beta.EventLoop.Execute.{World, Outside}
use beta.EventLoop.Round.{
  Moment, Poll, timeout, ended, heard, control, handle, hear, drain_polls, handle_rest, poll_rest,
}

-- A text message, which comes as an event of the book.
pub record Spoken : Type 0 where
  pub target : MessageTarget
  pub name : Text
  pub id : ℕ
  pub text : Text

abbrev pub text_item : Spoken → StreamItem
text_item m = StreamItem.book_events (BookEvent.message m.target m.name m.id m.text ∷ [])

-- The event that tells of it.
abbrev pub shown : (conn_id : ℕ) → Spoken → EnvelopedEvent
shown conn_id m = record {
  connection_id = conn_id;
  event = text_message m.name (as_u32 m.id) (target_code m.target) m.text;
}

-- What is polled until nothing more is there: text messages, and voice between them.
pub data Says : List Poll → List Spoken → Type 0 where
  says_all : Says [] []
  says_no_more : (polls : List Poll) → Says (timeout ∷ polls) []
  says_end : (polls : List Poll) → Says (ended ∷ polls) []
  says_voice :
      (packet : VoiceIn) (polls : List Poll) (ms : List Spoken)
      → Says polls ms
      → Says (heard packet ∷ polls) ms
  says_text :
      (m : Spoken) (polls : List Poll) (ms : List Spoken)
      → Says polls ms
      → Says (control (text_item m) ∷ polls) (m ∷ ms)

module _ {Tx : Type 0} (conn_id : ℕ) where
  allowed-queue :
      (e : Engine Tx) (from_id : ℕ)
      → (whisper_is_allowed e conn_id from_id).0.event_queue ≡ e.event_queue
  unfolding whisper_is_allowed
  allowed-queue e from_id = ground arith

  entered-queue :
      (key : AudioKey) (decoded : Decoded) (e : Engine Tx)
      → (enter_decoders conn_id key decoded e).event_queue ≡ e.event_queue
  unfolding enter_decoders
  entered-queue key (mono frame) e = refl
  entered-queue key (stereo frame) e = refl
  entered-queue key garbled e = refl

  play-queue :
      (gain_of : ℕ → ℕ) (now played : ℕ) (e : Engine Tx) (buffers : Buffers) (packet : VoiceIn)
      → (play conn_id gain_of now played e buffers packet).0.event_queue ≡ e.event_queue
  unfolding play
  play-queue gain_of now played e buffers packet = ground arith

  -- Voice tells nothing.
  decoded-queue :
      (gain_of : ℕ → ℕ) (now played : ℕ) (e : Engine Tx) (buffers : Buffers) (packet : VoiceIn)
      → (decode_to_client_buffer conn_id gain_of now played e buffers packet).0.event_queue
        ≡ e.event_queue
  unfolding decode_to_client_buffer
  decoded-queue gain_of now played e buffers packet =
      let checked : Engine Tx =
        (if packet.is_whisper then whisper_is_allowed e conn_id packet.from_id else (e, true)).0 in
      let entered = enter_decoders conn_id (conn_id, packet.from_id) packet.decoded checked in
      ground (
        arith,
        allowed-queue e packet.from_id,
        entered-queue (conn_id, packet.from_id) packet.decoded checked,
        play-queue gain_of now played entered buffers packet,
      )

module _ {Tx Coder : Type 0} (outside : Outside Coder) (conn_id : ℕ) (moment : Moment) where
  handle-text :
      (w : World Tx Coder) (m : Spoken)
      → (handle outside conn_id moment w (text_item m)).engine.event_queue
        ≡ w.engine.event_queue ++ shown conn_id m ∷ []
  unfolding handle handle_control_item book_event push_event
  handle-text w m = refl

  handle-texts :
      (w : World Tx Coder) (ms : List Spoken)
      → (for_each (handle outside conn_id moment) w (map text_item ms)).engine.event_queue
        ≡ w.engine.event_queue ++ map (shown conn_id) ms
  handle-texts w [] = sym (append-nil w.engine.event_queue)
  handle-texts w (m ∷ ms) =
      handle-texts (handle outside conn_id moment w (text_item m)) ms
      ∙ ap (λ xs. xs ++ map (shown conn_id) ms) (handle-text w m)
      ∙ append_assoc w.engine.event_queue (shown conn_id m ∷ []) (map (shown conn_id) ms)

  drain-Says :
      (w : World Tx Coder) (polls : List Poll) (ms : List Spoken)
      → Says polls ms
      → let (w', items) = drain_polls outside conn_id moment w polls in
        (w'.engine.event_queue ≡ w.engine.event_queue) × (items ≡ map text_item ms)
  unfolding drain_polls hear
  drain-Says w _ _ says_all = (refl, refl)
  drain-Says w _ _ (says_no_more polls) = (refl, refl)
  drain-Says w _ _ (says_end polls) = (refl, refl)
  drain-Says w _ _ (says_voice packet polls ms rest) =
      let r = drain-Says (hear outside conn_id moment w packet) polls ms rest in
      (
        r.0
            ∙ decoded-queue conn_id outside.gain_of moment.now moment.played w.engine w.buffers
                packet,
        r.1,
      )
  drain-Says w _ _ (says_text m polls ms rest) =
      let r = drain-Says w polls ms rest in (r.0, ap (λ items. text_item m ∷ items) r.1)

  -- A text message that is polled first in a round is told behind all that the round tells without
  -- it, whatever is polled after it. So where text messages are polled after it, with voice between
  -- them, it is told behind all of these, which keep their order.
  pub first_text_last :
      (w : World Tx Coder) (first : Spoken) (later : List Spoken)
      → Says moment.more later
      → let (w', goes_on) = poll_rest outside conn_id moment w (control (text_item first)) in
        (w'.engine.event_queue
          ≡ (poll_rest outside conn_id moment w timeout).0.engine.event_queue
            ++ shown conn_id first ∷ [])
        × (w'.engine.event_queue
            ≡ w.engine.event_queue ++ map (shown conn_id) later ++ shown conn_id first ∷ [])
        × (goes_on ≡ true)
  unfolding poll_rest handle_rest
  first_text_last w first later says =
      let drained = drain_polls outside conn_id moment w moment.more in
      let rest : World Tx Coder = for_each (handle outside conn_id moment) drained.0 drained.1 in
      let r = drain-Says w moment.more later says in
      let told : rest.engine.event_queue ≡ w.engine.event_queue ++ map (shown conn_id) later =
        ap (λ items. (for_each (handle outside conn_id moment) drained.0 items).engine.event_queue)
          r.1
        ∙ handle-texts drained.0 later
        ∙ ap (λ q. q ++ map (shown conn_id) later) r.0 in
      (
        handle-text rest first,
        handle-text rest first ∙ ap (λ q. q ++ shown conn_id first ∷ []) told,
        refl,
      )
