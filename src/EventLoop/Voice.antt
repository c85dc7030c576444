-- ===== src/EventLoop/Voice.antt =====
-- native/src/api.rs, `Command::SendAudio` of the event loop: microphone samples become voice packets
-- of 20 ms. The Opus encoder and the answers of tsclientlib are parameters.
pub mod Frames
pub mod Sending
pub mod Gate
mod Tests
use Prim.Native.Nat.{ℕ, zero, suc, ◌+◌, ◌-◌, ◌/◌}
use beta.Base.{
  Bool, true, false, ◌&&◌, not, Option, none, some, List, [], ◌∷◌, ◌++◌, map, Text, length, take,
  drop, ltb, if◌then◌else◌,
}
use beta.Base.Word.{as_u16}
use beta.Engine.{TsConnection, unit_gain}
use beta.Whisper.{has_target}
use beta.EventLoop.Wire.{Stream, VoicePacket, Sent, voice, whisper, audio}
use beta.EventLoop.Vad.{Floats, hybrid_vad_should_transmit, minus_one}

abbrev pub frame_samples : ℕ
frame_samples = 960

abbrev pub hold_frames : ℕ
hold_frames = 10

pub whisper_on : TsConnection → Bool
unfolding has_target
whisper_on st = st.whisper_active && has_target st

-- The stream of a packet, with the targets that are set.
pub stream_of : Bool → TsConnection → Stream
stream_of true st = whisper st.whisper_target_channels st.whisper_target_clients
stream_of false st = voice

-- The number of the next packet of a stream, which is used up.
pub next_seq : Bool → TsConnection → TsConnection × ℕ
next_seq true st = (record st { whisper_seq = as_u16 (st.whisper_seq + 1) }, st.whisper_seq)
next_seq false st = (record st { audio_seq = as_u16 (st.audio_seq + 1) }, st.audio_seq)

-- An empty packet ends the stream that was sent before, where the stream changes.
pub switch_stream : TsConnection → TsConnection × List VoicePacket
unfolding whisper_on stream_of next_seq
switch_stream st =
    let was = st.whisper_was_active in
    let (numbered, seq) = next_seq was st in
    if (if was then whisper_on st else not (whisper_on st)) then (st, []) else (
      record numbered { whisper_was_active = whisper_on st },
      record { stream = stream_of was st; id = seq; payload = [] } ∷ [],
    )

-- The gate after the verdict on a frame: it opens at speech and stays open for ten frames more.
-- The Boolean that it returns says whether the frame is left out.
pub hold_gate : TsConnection → (speech : Bool) → TsConnection × Bool
hold_gate st speech =
    if speech
    then (record st { vad_hold = hold_frames }, false)
    else if ltb 0 st.vad_hold
    then (record st { vad_hold = st.vad_hold - 1 }, false)
    else (st, true)

module _ (f32 : Floats) where
  pub vad_gate : TsConnection → (frame : List ℕ) → TsConnection × Bool
  unfolding hold_gate hybrid_vad_should_transmit
  vad_gate st frame =
      let (st', speech) = hybrid_vad_should_transmit f32 st frame in
      if st.vad_enabled then hold_gate st' speech else (st, false)

  -- 0.001.
  pub apply_gain : (gain : ℕ) (frame : List ℕ) → List ℕ
  apply_gain gain frame =
      if f32.lt 0x3a83_126f (f32.abs (f32.sub gain unit_gain))
      then map (λ s. f32.clamp (f32.mul s gain) minus_one unit_gain) frame
      else frame

-- The session's state, the encoder's and the calls of tsclientlib so far.
pub record Mic (Coder : Type 0) : Type 0 where
  pub state : TsConnection
  pub coder : Coder
  pub sent : List Sent

module _ {Coder : Type 0} where
  -- `con.send_audio(packet)`.
  pub hand_over : Mic Coder → VoicePacket → Mic Coder
  hand_over m packet = record m { sent = m.sent ++ audio packet ∷ [] }

  pub end_stream : Mic Coder → Mic Coder
  unfolding switch_stream hand_over
  end_stream m =
      let (st, terminator) = switch_stream m.state in
      record m { state = st; sent = m.sent ++ map audio terminator }

-- `encode` is that of the encoder; `failure` is the error that the last of the calls returns.
module _ (f32 : Floats) {Coder : Type 0} (encode : Coder → List ℕ → Coder × Option (List ℕ))
    (failure : List Sent → Option Text) where
  pub send_packet : Mic Coder → VoicePacket → Mic Coder
  unfolding hand_over
  send_packet m packet =
      let m' = hand_over m packet in
      elim (failure m'.sent) [
        | none ↦ record m' { state = record m'.state { voice_active = true } }
        | some _ ↦ m'
      ]

  -- A frame that passed the gate.
  pub transmit : (whispers : Bool) → Stream → Mic Coder → (frame : List ℕ) → Mic Coder
  unfolding next_seq apply_gain send_packet
  transmit whispers stream m frame =
      let gained = apply_gain f32 m.state.mic_gain frame in
      let (st, seq) = next_seq whispers m.state in
      let (coder, encoded) = encode m.coder gained in
      let m' = record m { state = st; coder = coder } in
      if st.audio_encoder
      then elim encoded [
        | none ↦ m'
        | some payload ↦ send_packet m' (record { stream = stream; id = seq; payload = payload })
      ]
      else record m { state = record st { pcm_in = [] } }

  -- One round of the loop over the frames.
  pub voice_frame : (whispers : Bool) → Stream → Mic Coder → Mic Coder
  unfolding vad_gate transmit
  voice_frame whispers stream m =
      let frame = take frame_samples m.state.pcm_in in
      let drained = record m.state { pcm_in = drop frame_samples m.state.pcm_in } in
      let (st, dropped) = vad_gate f32 drained frame in
      if dropped
      then record m { state = st }
      else transmit whispers stream (record m { state = st }) frame

  pub voice_loop : ℕ → (whispers : Bool) → Stream → Mic Coder → Mic Coder
  unfolding voice_frame
  voice_loop zero whispers stream m = m
  voice_loop (suc fuel) whispers stream m =
      let rest = voice_loop fuel whispers stream (voice_frame whispers stream m) in
      if ltb (length m.state.pcm_in) frame_samples then m else rest

  -- Each round takes a frame from the samples, so their number bounds the rounds.
  unfoldable pub send_audio : Mic Coder → (samples : List ℕ) → Mic Coder
  unfolding whisper_on stream_of end_stream voice_loop
  send_audio m samples =
      let whispers = whisper_on m.state in
      let stream = stream_of whispers m.state in
      let m' = end_stream m in
      let pcm = m'.state.pcm_in ++ samples in
      voice_loop (suc (length pcm / frame_samples)) whispers stream
        (record m' { state = record m'.state { pcm_in = pcm } })
