-- ===== src/EventLoop/Voice/Tests.antt =====
-- Outgoing voice and its theorems at concrete inputs.
use Prim.Native.Nat.{ℕ, ◌<◌}
use beta.Base.{true, false, Option, some, List, [], ◌∷◌, Text, length, nat_equal, ◌≡◌, refl, arith}
use beta.Command.{Command}
use beta.Engine.{Engine, TsConnection, session}
use beta.Whisper.{ts_set_whisper_targets}
use beta.EventLoop.Wire.{whisper}
use beta.EventLoop.Vad.{hybrid_vad_should_transmit}
use beta.EventLoop.Voice.{Mic, switch_stream, send_audio, frame_samples, vad_gate}
use beta.EventLoop.Voice.Sending.{Spoke, send_audio-pcm_in, send_audio-Spoke, cleared_targets}
use beta.EventLoop.Voice.Gate.{gate_all, IsNoise, vad_gate_hold}
use beta.EventLoop.Samples.{mock, encode_first, working, speaking, started, engine}

abbrev mic : Mic ℕ
mic = record { state = speaking; coder = 0; sent = [] }

send_audio-pcm_in_example :
    length (send_audio mock encode_first working mic (5 ∷ 6 ∷ [])).state.pcm_in < frame_samples
send_audio-pcm_in_example = send_audio-pcm_in mock encode_first working mic (5 ∷ 6 ∷ [])

send_audio-Spoke_example : Spoke mock encode_first working mic (5 ∷ 6 ∷ []) 65535
unfolding switch_stream
send_audio-Spoke_example = send_audio-Spoke mock encode_first working mic (5 ∷ 6 ∷ []) 65535 refl

abbrev whispering : TsConnection
whispering = record speaking {
  whisper_active = true;
  whisper_was_active = true;
  whisper_target_clients = 9 ∷ [];
  whisper_seq = 12;
}

abbrev whispering_engine : Engine (List Command)
whispering_engine = record engine { sessions = (1, record started { state = whispering }) ∷ [] }

-- "{}".
abbrev no_targets : Text
no_targets = 123 ∷ 125 ∷ []

abbrev parse_none : Text → Option (List ℕ × List ℕ)
parse_none raw = some ([], [])

cleared_targets_example :
    let (e', done) = ts_set_whisper_targets whispering_engine 1 parse_none (some no_targets) in
    (done ≡ 1)
    × ((st' : TsConnection) × (session e' 1 ≡ some st')
        × ((switch_stream st').1 ≡ record { stream = whisper [] []; id = 12; payload = [] } ∷ []))
cleared_targets_example =
    cleared_targets whispering_engine 1 parse_none no_targets whispering refl refl refl

quiet-IsNoise : IsNoise mock (0 ∷ 0 ∷ [])
unfolding hybrid_vad_should_transmit
quiet-IsNoise st = ground arith

loud_is_heard : (hybrid_vad_should_transmit mock speaking (0x8000_0000 ∷ [])).1 ≡ true
unfolding hybrid_vad_should_transmit
loud_is_heard = refl

vad_gate_hold_example :
    ((vad_gate mock speaking (0x8000_0000 ∷ [])).1 ≡ false)
    × ((vad_gate mock
          (gate_all mock (vad_gate mock speaking (0x8000_0000 ∷ [])).0 ((0 ∷ 0 ∷ []) ∷ []))
          (0 ∷ 0 ∷ [])).1
        ≡ false)
vad_gate_hold_example =
    vad_gate_hold mock speaking (0x8000_0000 ∷ []) ((0 ∷ 0 ∷ []) ∷ []) (0 ∷ 0 ∷ []) refl
      loud_is_heard (quiet-IsNoise, tt) quiet-IsNoise
