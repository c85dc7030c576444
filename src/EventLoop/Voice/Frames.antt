-- ===== src/EventLoop/Voice/Frames.antt =====
-- The loop over the frames of 20 ms: it uses the samples up, and numbers its packets in order.
use Prim.Native.Nat.{ℕ, zero, suc, ◌+◌, ◌-◌, ◌*◌, ◌≤◌, ◌<◌}
use beta.Base.{
  Bool, true, false, not, Option, List, [], ◌∷◌, ◌++◌, map, Text, length, take, drop, length-drop,
  ltb, ◌≡◌, refl, sym, subst, ap, ◌∙◌, arith, inl, inr, Bool-cases, Option-cases,
}
use mathlib.Core.List.{append-nil, append_assoc, map-append}
use beta.Base.Word.{as_u16}
use beta.Engine.{TsConnection}
use beta.EventLoop.Wire.{Stream, VoicePacket, Sent, audio}
use beta.EventLoop.Vad.{Floats, hybrid_vad_should_transmit-floor}
use beta.EventLoop.Voice.{
  frame_samples, hold_gate, vad_gate, next_seq, apply_gain, send_packet, transmit, Mic, voice_frame,
  voice_loop,
}

-- The number that the next packet of a stream gets.
abbrev pub seq_of : Bool → TsConnection → ℕ
seq_of true st = st.whisper_seq
seq_of false st = st.audio_seq

-- What the gate leaves as it is.
abbrev Gated : TsConnection → TsConnection → Type 0
Gated st st' =
    (st'.pcm_in ≡ st.pcm_in)
    × (st'.whisper_seq ≡ st.whisper_seq)
    × (st'.audio_seq ≡ st.audio_seq)
    × (st'.audio_encoder ≡ st.audio_encoder)

vad_gate-Gated :
    (f32 : Floats) (st : TsConnection) (frame : List ℕ) → Gated st (vad_gate f32 st frame).0
unfolding vad_gate hold_gate
vad_gate-Gated f32 st frame = ground (arith, hybrid_vad_should_transmit-floor f32 st frame)

-- The packets of a burst: from the number `first` on, each frame uses a number up, and `last` is the
-- number of the packet after them. A frame that the encoder refuses leaves its number out.
pub data Burst (stream : Stream) : (first last : ℕ) → List Sent → Type 0 where
  quiet : {n : ℕ} → Burst stream n n []
  skipped :
      {n last : ℕ} {sent : List Sent} → Burst stream (suc n) last sent → Burst stream n last sent
  spoken :
      {n last : ℕ} {sent : List Sent} (payload : List ℕ)
      → Burst stream (suc n) last sent
      → Burst stream n last
          (audio (record { stream = stream; id = as_u16 n; payload = payload }) ∷ sent)

append_twice {ℓ} :
    {A : Type ℓ} (a c e : List A) {b d : List A} → b ≡ a ++ c → d ≡ b ++ e → d ≡ a ++ (c ++ e)
append_twice a c e p q = q ∙ ap (λ xs. xs ++ e) p ∙ append_assoc a c e

module _ (f32 : Floats) {Coder : Type 0} (encode : Coder → List ℕ → Coder × Option (List ℕ))
    (failure : List Sent → Option Text) (whispers : Bool) (stream : Stream) where
  -- One frame: nothing is sent, or the number is used up without a packet, or with one.
  data Framed (seq : ℕ) (before : List Sent) (m' : Mic Coder) : Type 0 where
    dropped : seq_of whispers m'.state ≡ seq → m'.sent ≡ before → Framed seq before m'
    lost : seq_of whispers m'.state ≡ as_u16 (seq + 1) → m'.sent ≡ before → Framed seq before m'
    framed :
        (payload : List ℕ)
        → seq_of whispers m'.state ≡ as_u16 (seq + 1)
        → m'.sent ≡ before ++ audio (record { stream = stream; id = seq; payload = payload }) ∷ []
        → Framed seq before m'

  transmit-Framed :
      (m : Mic Coder) (frame : List ℕ)
      → Framed
          (seq_of whispers m.state)
          m.sent
          (transmit f32 encode failure whispers stream m frame)
  unfolding transmit next_seq send_packet
  transmit-Framed m frame = elim (Bool-cases m.state.audio_encoder) [
    | inr missing ↦ lost (ground arith) (ground arith)
    | inl there ↦ elim (Option-cases (encode m.coder (apply_gain f32 m.state.mic_gain frame)).1) [
      | inl fails ↦ lost (ground arith) (ground arith)
      | inr (payload, done) ↦ framed payload (ground arith) (ground arith)
    ]
  ]

  -- What a frame leaves: at most the samples that there were, and the number of the other stream.
  abbrev Leaves : TsConnection → TsConnection → Type 0
  Leaves st st' =
      (length st'.pcm_in ≤ length st.pcm_in)
      × (seq_of (not whispers) st' ≡ seq_of (not whispers) st)

  transmit-Leaves :
      (m : Mic Coder) (frame : List ℕ)
      → Leaves m.state (transmit f32 encode failure whispers stream m frame).state
  unfolding transmit next_seq send_packet
  transmit-Leaves m frame = ground arith

  voice_frame-Leaves :
      (m : Mic Coder)
      → let st' = (voice_frame f32 encode failure whispers stream m).state in
        (length st'.pcm_in ≤ length m.state.pcm_in - frame_samples)
        × (seq_of (not whispers) st' ≡ seq_of (not whispers) m.state)
  unfolding voice_frame
  voice_frame-Leaves m =
      let frame = take frame_samples m.state.pcm_in in
      let drained = record m.state { pcm_in = drop frame_samples m.state.pcm_in } in
      let gated : TsConnection = (vad_gate f32 drained frame).0 in
      ground (
        arith,
        length-drop frame_samples m.state.pcm_in,
        vad_gate-Gated f32 drained frame,
        transmit-Leaves (record m { state = gated }) frame,
      )

  voice_frame-Framed :
      (m : Mic Coder)
      → Framed (seq_of whispers m.state) m.sent (voice_frame f32 encode failure whispers stream m)
  unfolding voice_frame
  voice_frame-Framed m =
      let frame = take frame_samples m.state.pcm_in in
      let drained = record m.state { pcm_in = drop frame_samples m.state.pcm_in } in
      let gated : TsConnection = (vad_gate f32 drained frame).0 in
      let same : seq_of whispers gated ≡ seq_of whispers m.state =
        ground (arith, vad_gate-Gated f32 drained frame) in
      elim (Bool-cases (vad_gate f32 drained frame).1) [
        | inl left_out ↦ dropped (ground (arith, left_out, same)) (ground (arith, left_out))
        | inr passed ↦
            rw (passed, voice_frame)
              (subst
                (λ n.
                  Framed n m.sent (
                    transmit f32 encode failure whispers stream (record m { state = gated }) frame))
                same (transmit-Framed (record m { state = gated }) frame))
      ]

  -- The packets that a run of the loop adds, and the numbers that it uses up.
  pub record Spoken (n : ℕ) (m m' : Mic Coder) : Type 0 where
    pub last : ℕ
    pub packets : List Sent
    pub burst : Burst stream n last packets
    pub appended : m'.sent ≡ m.sent ++ packets
    pub next : seq_of whispers m'.state ≡ as_u16 last
    pub frames : frame_samples * last ≤ frame_samples * n + length m.state.pcm_in

  nothing : (n : ℕ) (m : Mic Coder) → seq_of whispers m.state ≡ as_u16 n → Spoken n m m
  nothing n m numbered = record {
    last = n;
    packets = [];
    burst = quiet;
    appended = sym (append-nil m.sent);
    next = numbered;
    frames = omega arith;
  }

  Spoken-voice_frame :
      (n : ℕ) (m m1 m2 : Mic Coder)
      → seq_of whispers m.state ≡ as_u16 n
      → frame_samples ≤ length m.state.pcm_in
      → length m1.state.pcm_in ≤ length m.state.pcm_in - frame_samples
      → Framed (seq_of whispers m.state) m.sent m1
      → ((k : ℕ) → seq_of whispers m1.state ≡ as_u16 k → Spoken k m1 m2)
      → Spoken n m m2
  Spoken-voice_frame n m m1 m2 numbered enough shorter (dropped same kept) rest =
      let r = rest n (ground (arith, same, numbered)) in
      record {
        last = r.last;
        packets = r.packets;
        burst = r.burst;
        appended = ground (arith, r.appended, kept);
        next = r.next;
        frames = omega (arith, r.frames);
      }
  Spoken-voice_frame n m m1 m2 numbered enough shorter (lost used kept) rest =
      let r = rest (suc n) (omega (arith, used, numbered)) in
      record {
        last = r.last;
        packets = r.packets;
        burst = skipped r.burst;
        appended = ground (arith, r.appended, kept);
        next = r.next;
        frames = omega (arith, r.frames);
      }
  Spoken-voice_frame n m m1 m2 numbered enough shorter (framed payload used sends) rest =
      let r = rest (suc n) (omega (arith, used, numbered)) in
      record {
        last = r.last;
        packets = audio (record { stream = stream; id = as_u16 n; payload = payload }) ∷ r.packets;
        burst = spoken payload r.burst;
        appended =
            append_twice m.sent
              (audio (record { stream = stream; id = as_u16 n; payload = payload }) ∷ []) r.packets
              (subst
                (λ k.
                  m1.sent
                  ≡ m.sent ++ audio (record { stream = stream; id = k; payload = payload }) ∷ [])
                numbered sends)
              r.appended;
        next = r.next;
        frames = omega (arith, r.frames);
      }

  pub voice_loop-Spoken :
      (fuel n : ℕ) (m : Mic Coder)
      → seq_of whispers m.state ≡ as_u16 n
      → Spoken n m (voice_loop f32 encode failure fuel whispers stream m)
  unfolding voice_loop
  voice_loop-Spoken zero n m numbered = nothing n m numbered
  voice_loop-Spoken (suc fuel) n m numbered =
      elim (Bool-cases (ltb (length m.state.pcm_in) frame_samples)) [
        | inl done ↦ rw (done, voice_loop) (nothing n m numbered)
        | inr more ↦
            let m1 = voice_frame f32 encode failure whispers stream m in
            rw (more, voice_loop)
              (Spoken-voice_frame n m m1 (voice_loop f32 encode failure fuel whispers stream m1)
                numbered (ground (arith, more)) (voice_frame-Leaves m).0 (voice_frame-Framed m)
                (λ k h. voice_loop-Spoken fuel k m1 h))
      ]

  -- With a round for each frame, the loop stops for want of samples.
  pub voice_loop-Leaves :
      (fuel : ℕ) (m : Mic Coder)
      → length m.state.pcm_in < frame_samples * fuel
      → let st' = (voice_loop f32 encode failure fuel whispers stream m).state in
        (length st'.pcm_in < frame_samples)
        × (seq_of (not whispers) st' ≡ seq_of (not whispers) m.state)
  unfolding voice_loop
  voice_loop-Leaves zero m enough = absurd (omega arith)
  voice_loop-Leaves (suc fuel) m enough =
      elim (Bool-cases (ltb (length m.state.pcm_in) frame_samples)) [
        | inl done ↦ rw (done, voice_loop) (ground (arith, done), refl)
        | inr more ↦
            rw (more, voice_loop)
              (then_Leaves (voice_frame-Leaves m).1 (
                voice_loop-Leaves fuel (voice_frame f32 encode failure whispers stream m)
                  (fewer m enough more)))
      ]
    where
      fewer :
          (m : Mic Coder)
          → length m.state.pcm_in < frame_samples * suc fuel
          → ltb (length m.state.pcm_in) frame_samples ≡ false
          → length (voice_frame f32 encode failure whispers stream m).state.pcm_in
            < frame_samples * fuel
      fewer m enough more =
          let shorter = (voice_frame-Leaves m).0 in
          let there : frame_samples ≤ length m.state.pcm_in = ground (arith, more) in
          omega (arith, shorter, there)

      then_Leaves :
          {a b c d : ℕ} → b ≡ a → (d < frame_samples) × (c ≡ b) → (d < frame_samples) × (c ≡ a)
      then_Leaves p (q, r) = (q, r ∙ p)

  frame_packets :
      {seq : ℕ} {before : List Sent} {m' : Mic Coder}
      → Framed seq before m'
      → (packets : List VoicePacket) × (m'.sent ≡ before ++ map audio packets)
  frame_packets (dropped same kept) = ([], kept ∙ sym (append-nil _))
  frame_packets (lost used kept) = ([], kept ∙ sym (append-nil _))
  frame_packets {seq} (framed payload used sends) =
      (record { stream = stream; id = seq; payload = payload } ∷ [], sends)

  -- The loop sends voice and nothing else.
  pub voice_loop-packets :
      (fuel : ℕ) (m : Mic Coder)
      → (packets : List VoicePacket) × ((voice_loop f32 encode failure fuel whispers stream m).sent
          ≡ m.sent ++ map audio packets)
  unfolding voice_loop
  voice_loop-packets zero m = ([], sym (append-nil m.sent))
  voice_loop-packets (suc fuel) m = elim (Bool-cases (ltb (length m.state.pcm_in) frame_samples)) [
    | inl done ↦ rw (done, voice_loop) ([], sym (append-nil m.sent))
    | inr more ↦
        let m1 = voice_frame f32 encode failure whispers stream m in
        let (one, sends) = frame_packets (voice_frame-Framed m) in
        let (rest, sends') = voice_loop-packets fuel m1 in
        rw (more, voice_loop)
          (
            one ++ rest,
            append_twice m.sent (map audio one) (map audio rest) sends sends'
                ∙ ap (λ xs. m.sent ++ xs) (sym (map-append audio one rest)),
          )
  ]
