-- ===== src/EventLoop/Tests.antt =====
-- The event loop of a session with one client, and its theorems at concrete inputs.
use Prim.Native.Nat.{ℕ, ◌+◌, ◌*◌, ◌-◌, ◌≤◌}
use beta.Base.{
  true, false, none, some, List, [], ◌∷◌, ◌++◌, Text, length, nat_equal, ◌≡◌, refl, arith,
}
use beta.Base.Map
use beta.Command.{Command}
use beta.Budget.{new}
use beta.Budget.Invariant.{new-IsValid}
use beta.Jitter.{new_buffer}
use beta.EventLoop.Wire.{Message, message}
use beta.EventLoop.Messages.{message_of, no_update}
use beta.EventLoop.Execute.{World}
use beta.EventLoop.Round.{
  Moment, Poll, timeout, ended, heard, control, is_direct, poll_rest, round, rounds,
}
use beta.EventLoop.Pace.{controls}
use beta.EventLoop.Pace.Rounds.{Paced, rounds-Paced}
use beta.EventLoop.Pace.Limit.{rounds-limit}
use beta.EventLoop.Ending.{rounds-gone}
use beta.EventLoop.Incoming.{MessageTarget}
use beta.EventLoop.Hearing.{VoiceIn, garbled}
use beta.EventLoop.Order.{
  Spoken, says_voice, says_text, says_no_more, text_item, shown, first_text_last,
}
use beta.Requests.Calls.{Request, sets_nickname}
use beta.EventLoop.Delivery.{round_delivers}
use beta.EventLoop.Samples.{outside, speaking, started, engine}

abbrev world : World (List Command) ℕ
world = record {
  engine = engine;
  buffers = λ key. new_buffer;
  coder = 0;
  sent = [];
  last_throttle_notice = 0;
}

abbrev rename_command : Command
rename_command = Command.set_nickname (98 ∷ 111 ∷ 98 ∷ [])

abbrev seconds : ℕ → ℕ
seconds n = n * 1_000_000_000

-- A moment with the first poll.
abbrev at : (now : ℕ) → List Command → Poll → List Poll → Moment
at now received first more = record {
  now = now;
  played = 0;
  received = received;
  first = first;
  more = more;
  book = none;
  stats = none;
}

abbrev three : List Moment
three =
    at (seconds 1) (rename_command ∷ Command.list_bans ∷ []) timeout []
    ∷ at (seconds 2) (Command.send_audio (7 ∷ []) ∷ []) timeout []
    ∷ at (seconds 3) [] ended []
    ∷ []

rounds-Paced_example : Paced outside 1 (seconds 3) (new 0) world (rounds outside 1 three world)
rounds-Paced_example = rounds-Paced outside 1 (seconds 3) three (new 0) world (omega arith) refl

rounds-limit_example :
    length (controls (rounds outside 1 three world).0.sent) * 1_000_000_000
    ≤ 16_000_000_000 + 6 * (seconds 3 - 0)
rounds-limit_example =
    rounds-limit outside 1 0 (seconds 3) three world (omega arith) (omega arith) refl refl

round_delivers_example :
    controls (round outside 1 (at (seconds 5) (rename_command ∷ []) timeout []) world).0.sent
    ≡ message (Message.client_update (record no_update { name = some (98 ∷ 111 ∷ 98 ∷ []) })) ∷ []
unfolding message_of new is_direct
round_delivers_example =
    round_delivers outside 1 (at (seconds 5) (rename_command ∷ []) timeout []) world started
      rename_command (Message.client_update (record no_update { name = some (98 ∷ 111 ∷ 98 ∷ []) }))
      refl refl (new-IsValid 0) refl (omega arith) refl refl refl

-- The user has asked to leave.
abbrev leaving : World (List Command) ℕ
leaving = record world {
  engine = record engine {
    sessions = (1, record started { state = record speaking { disconnect_requested = true } }) ∷ [];
  };
}

leaving_ends : (rounds outside 1 three leaving).1 ≡ false
unfolding rounds round
leaving_ends = refl

rounds-gone_example : Map.get 1 (rounds outside 1 three leaving).0.engine.sessions ≡ none
rounds-gone_example = rounds-gone outside 1 three leaving leaving_ends

abbrev said : Text → Spoken
said text = record { target = MessageTarget.channel; name = 98 ∷ []; id = 4; text = text }

abbrev voice_packet : VoiceIn
voice_packet = record { from_id = 4; id = 9; is_whisper = false; decoded = garbled }

-- A message, a voice packet, and another message.
abbrev chatter : Moment
chatter = at 1 [] timeout (heard voice_packet ∷ control (text_item (said (50 ∷ []))) ∷ timeout ∷ [])

first_text_last_example :
    let (w', goes_on) = poll_rest outside 1 chatter world (control (text_item (said (49 ∷ [])))) in
    (w'.engine.event_queue
      ≡ (poll_rest outside 1 chatter world timeout).0.engine.event_queue
        ++ shown 1 (said (49 ∷ [])) ∷ [])
    × (w'.engine.event_queue ≡ shown 1 (said (50 ∷ [])) ∷ shown 1 (said (49 ∷ [])) ∷ [])
    × (goes_on ≡ true)
first_text_last_example =
    first_text_last outside 1 chatter world (said (49 ∷ [])) (said (50 ∷ []) ∷ [])
      (says_voice voice_packet _ _ (says_text (said (50 ∷ [])) _ _ (says_no_more [])))

-- The session with an open channel, and a user who types a name with blanks around it.
abbrev listening : World (List Command) ℕ
listening = record world {
  engine = record engine { sessions = (1, record started { command_tx = some [] }) ∷ [] };
}

abbrev rename : Request
rename = sets_nickname (some (32 ∷ 98 ∷ 111 ∷ 98 ∷ 32 ∷ []))
