-- ===== src/EventLoop/Voice/Sending.antt =====
-- `Command::SendAudio` as a whole: the end of the old stream, then the frames of the new one.
use Prim.Native.Nat.{ℕ, suc, ◌+◌, ◌*◌, ◌/◌, ◌≤◌, ◌<◌}
use beta.Base.{
  Bool, true, false, not, Option, some, List, [], ◌∷◌, ◌++◌, map, Text, length, length-append,
  nat_equal, ◌≡◌, refl, arith, sym, ap, ◌∙◌, ◌⊎◌, inl, inr, Bool-cases,
}
use mathlib.Core.List.{append_assoc, map-append}
use beta.Base.Word.{as_u16}
use beta.Engine.{Engine, TsConnection, session}
use beta.Engine.Laws.{session-update_state}
use beta.Whisper.{ts_set_whisper_targets, sanitize_whisper_targets, has_target}
use beta.EventLoop.Wire.{VoicePacket, Sent, whisper, audio}
use beta.EventLoop.Vad.{Floats}
use beta.EventLoop.Voice.{
  frame_samples, whisper_on, stream_of, next_seq, switch_stream, Mic, end_stream, send_audio,
}
use beta.EventLoop.Voice.Frames.{
  Burst, seq_of, voice_loop-Spoken, voice_loop-Leaves, voice_loop-packets,
}

-- Where the stream is still the one that was sent last, nothing is sent. Where it has changed, one
-- empty packet goes out on the stream before, under its next number, which is used up; the other
-- stream keeps its number, and asking again sends nothing.
switch_stream_lem :
    (st : TsConnection)
    → let was = st.whisper_was_active in
      let (st', packets) = switch_stream st in
      (((was ≡ whisper_on st) × (packets ≡ []))
        ⊎ ((was ≡ not (whisper_on st))
            × (packets
                ≡ record { stream = stream_of was st; id = seq_of was st; payload = [] } ∷ [])
            × (seq_of was st' ≡ as_u16 (seq_of was st + 1))))
      × (seq_of (not was) st' ≡ seq_of (not was) st)
      × (st'.whisper_was_active ≡ whisper_on st)
      × ((switch_stream st').1 ≡ [])
unfolding switch_stream next_seq whisper_on
switch_stream_lem st = elim (Bool-cases st.whisper_was_active) [
  | inl was ↦ elim (Bool-cases (whisper_on st)) [
    | inl on ↦ (
      inl (ground (arith, was, on), ground (arith, was, on)),
      ground (arith, was, on),
      ground (arith, was, on),
      ground (arith, was, on),
    )
    | inr off ↦ (
      inr (ground (arith, was, off), ground (arith, was, off), ground (arith, was, off)),
      ground (arith, was, off),
      ground (arith, was, off),
      ground (arith, was, off),
    )
  ]
  | inr was ↦ elim (Bool-cases (whisper_on st)) [
    | inl on ↦ (
      inr (ground (arith, was, on), ground (arith, was, on), ground (arith, was, on)),
      ground (arith, was, on),
      ground (arith, was, on),
      ground (arith, was, on),
    )
    | inr off ↦ (
      inl (ground (arith, was, off), ground (arith, was, off)),
      ground (arith, was, off),
      ground (arith, was, off),
      ground (arith, was, off),
    )
  ]
]

seq_of_pcm_in :
    (whispers : Bool) (st : TsConnection) (pcm : List ℕ)
    → seq_of whispers (record st { pcm_in = pcm }) ≡ seq_of whispers st
seq_of_pcm_in true st pcm = refl
seq_of_pcm_in false st pcm = refl

switch_stream-pcm_in : (st : TsConnection) → (switch_stream st).0.pcm_in ≡ st.pcm_in
unfolding switch_stream next_seq
switch_stream-pcm_in st = ground arith

module _ (f32 : Floats) {Coder : Type 0} (encode : Coder → List ℕ → Coder × Option (List ℕ))
    (failure : List Sent → Option Text) (m : Mic Coder) (samples : List ℕ) where
  abbrev filled : Mic Coder
  filled =
      let m' = end_stream m in
      record m' { state = record m'.state { pcm_in = m'.state.pcm_in ++ samples } }

  -- Microphone samples never pile up: the loop over the frames ends, and less than a frame of
  -- samples is left for the next call, however many came.
  pub send_audio-pcm_in :
      length (send_audio f32 encode failure m samples).state.pcm_in < frame_samples
  unfolding send_audio
  send_audio-pcm_in =
      let on = whisper_on m.state in
      (voice_loop-Leaves f32 encode failure on (stream_of on m.state)
        (suc (length filled.state.pcm_in / frame_samples)) filled (omega arith)).0

  -- Nothing but voice is sent.
  pub send_audio-packets :
      (packets : List VoicePacket) × ((send_audio f32 encode failure m samples).sent
        ≡ m.sent ++ map audio packets)
  unfolding send_audio end_stream
  send_audio-packets =
      let on = whisper_on m.state in
      let (packets, sends) =
        voice_loop-packets f32 encode failure on (stream_of on m.state)
          (suc (length filled.state.pcm_in / frame_samples)) filled in
      let ended = (switch_stream m.state).1 in
      (
        ended ++ packets,
        sends
            ∙ append_assoc m.sent (map audio ended) (map audio packets)
            ∙ ap (λ xs. m.sent ++ xs) (sym (map-append audio ended packets)),
      )

  -- What the call has sent besides the end of the stream before: a burst of packets on the stream
  -- that is set, with one number for each frame that is not left out.
  pub record Spoke (n : ℕ) : Type 0 where
    pub last : ℕ
    pub packets : List Sent
    pub burst : Burst (stream_of (whisper_on m.state) m.state) n last packets
    pub appended :
        (send_audio f32 encode failure m samples).sent
        ≡ (m.sent ++ map audio (switch_stream m.state).1) ++ packets
    pub next :
        seq_of (whisper_on m.state) (send_audio f32 encode failure m samples).state ≡ as_u16 last
    pub frames : frame_samples * last ≤ frame_samples * n + (length m.state.pcm_in + length samples)

  -- From the number that the stream has come to, the packets of a call are numbered in order and
  -- modulo 2^16, behind the one that ends the stream before; no more numbers are used than there
  -- are frames, and the next call goes on with the number after them.
  pub send_audio-Spoke :
      (n : ℕ) → seq_of (whisper_on m.state) (switch_stream m.state).0 ≡ as_u16 n → Spoke n
  unfolding send_audio end_stream
  send_audio-Spoke n numbered =
      let on = whisper_on m.state in
      let r =
        voice_loop-Spoken f32 encode failure on (stream_of on m.state)
          (suc (length filled.state.pcm_in / frame_samples)) n filled
          (seq_of_pcm_in on (switch_stream m.state).0 _ ∙ numbered) in
      record {
        last = r.last;
        packets = r.packets;
        burst = r.burst;
        appended = r.appended;
        next = r.next;
        frames = ground (
          arith,
          r.frames,
          length-append (switch_stream m.state).0.pcm_in samples,
          switch_stream-pcm_in m.state,
        );
      }

-- Targets that are cleared while a whisper is on: the packet that should end the whisper goes to no
-- one, since it is sent to the targets that are set and not to those of the whisper.
pub cleared_targets :
    {Tx : Type 0} (e : Engine Tx) (conn_id : ℕ) (parse : Text → Option (List ℕ × List ℕ))
    (raw : Text) (st : TsConnection)
    → session e conn_id ≡ some st
    → parse raw ≡ some ([], [])
    → st.whisper_was_active ≡ true
    → let (e', done) = ts_set_whisper_targets e conn_id parse (some raw) in
      (done ≡ 1)
      × ((st' : TsConnection) × (session e' conn_id ≡ some st')
          × ((switch_stream st').1
              ≡ record { stream = whisper [] []; id = st.whisper_seq; payload = [] } ∷ []))
unfolding ts_set_whisper_targets sanitize_whisper_targets switch_stream whisper_on has_target
    stream_of next_seq
cleared_targets e conn_id parse raw st found reads was =
    let clear : TsConnection → TsConnection =
      λ s. record s { whisper_target_clients = []; whisper_target_channels = [] } in
    rw (reads, found, ts_set_whisper_targets)
      (refl, (clear st, session-update_state e conn_id clear st found, ground (arith, was)))
