-- ===== src/EventLoop/Voice/Gate.antt =====
-- The voice activity gate over a row of frames: how long it stays open after speech.
use Prim.Native.Nat.{ℕ, ◌-◌}
use beta.Base.{true, false, List, [], ◌∷◌, length, All, leb, ◌≡◌, arith}
use beta.Engine.{TsConnection}
use beta.EventLoop.Vad.{Floats, hybrid_vad_should_transmit, hybrid_vad_should_transmit-floor}
use beta.EventLoop.Voice.{hold_frames, hold_gate, vad_gate}

module _ (f32 : Floats) where
  -- The state after a row of frames.
  pub gate_all : TsConnection → List (List ℕ) → TsConnection
  gate_all st [] = st
  gate_all st (frame ∷ frames) = gate_all (vad_gate f32 st frame).0 frames

  -- A frame that the detector takes for noise, whatever it has learned.
  abbrev pub IsNoise : List ℕ → Type 0
  IsNoise frame = (st : TsConnection) → (hybrid_vad_should_transmit f32 st frame).1 ≡ false

  vad_gate_noise :
      (st : TsConnection) (frame : List ℕ)
      → st.vad_enabled ≡ true
      → (hybrid_vad_should_transmit f32 st frame).1 ≡ false
      → ((vad_gate f32 st frame).0.vad_hold ≡ st.vad_hold - 1)
        × ((vad_gate f32 st frame).0.vad_enabled ≡ true)
        × ((vad_gate f32 st frame).1 ≡ leb st.vad_hold 0)
  unfolding vad_gate hold_gate
  vad_gate_noise st frame on noise =
      ground (arith, on, noise, hybrid_vad_should_transmit-floor f32 st frame)

  gate_all_noise :
      (st : TsConnection) (frames : List (List ℕ))
      → st.vad_enabled ≡ true
      → All IsNoise frames
      → ((gate_all st frames).vad_hold ≡ st.vad_hold - length frames)
        × ((gate_all st frames).vad_enabled ≡ true)
  unfolding gate_all
  gate_all_noise st [] on noise = (omega arith, on)
  gate_all_noise st (frame ∷ frames) on noise =
      let one = vad_gate_noise st frame on (noise.0 st) in
      let rest = gate_all_noise (vad_gate f32 st frame).0 frames one.1 noise.1 in
      (ground (arith, one.0, rest.0), rest.1)

  vad_gate_speech :
      (st : TsConnection) (frame : List ℕ)
      → st.vad_enabled ≡ true
      → (hybrid_vad_should_transmit f32 st frame).1 ≡ true
      → ((vad_gate f32 st frame).0.vad_hold ≡ hold_frames)
        × ((vad_gate f32 st frame).0.vad_enabled ≡ true)
        × ((vad_gate f32 st frame).1 ≡ false)
  unfolding vad_gate hold_gate
  vad_gate_speech st frame on speech =
      ground (arith, on, speech, hybrid_vad_should_transmit-floor f32 st frame)

  -- With the detector on, a frame of speech is sent, and behind it a frame of noise is left out
  -- exactly when at least ten frames of noise stand between them: the gate stays open for 200 ms.
  pub vad_gate_hold :
      (st : TsConnection) (speech : List ℕ) (frames : List (List ℕ)) (frame : List ℕ)
      → st.vad_enabled ≡ true
      → (hybrid_vad_should_transmit f32 st speech).1 ≡ true
      → All IsNoise frames
      → IsNoise frame
      → ((vad_gate f32 st speech).1 ≡ false)
        × ((vad_gate f32 (gate_all (vad_gate f32 st speech).0 frames) frame).1
            ≡ leb 10 (length frames))
  vad_gate_hold st speech frames frame on heard noise last =
      let opened = vad_gate_speech st speech on heard in
      let held = gate_all_noise (vad_gate f32 st speech).0 frames opened.1 noise in
      let st' : TsConnection = gate_all (vad_gate f32 st speech).0 frames in
      let shut = vad_gate_noise st' frame held.1 (last st') in
      (opened.2, ground (arith, opened.0, held.0, shut.2))
