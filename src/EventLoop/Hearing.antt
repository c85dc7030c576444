-- ===== src/EventLoop/Hearing.antt =====
-- native/src/api.rs, `decode_to_client_buffer`: an incoming voice packet, from the check of a whisper
-- to the speaker's jitter buffer. Opus and the conversion of the samples are outside: a packet comes
-- with what the decoders make of it.
use Prim.Native.Nat.{ℕ}
use beta.Base.{
  Bool, true, false, not, Option, none, some, List, [], ◌∷◌, ◌++◌, ◌===◌, if◌then◌else◌, nat_equal,
  text_equal, pair_equal,
}
use beta.Base.Map
use beta.Base.Word.{as_u16}
use beta.Engine.{Engine, TsConnection, AudioKey, session, update_state}
use beta.Disconnect.{has_key}
use beta.Whisper.{whisper_is_allowed, uid_of}
use beta.Jitter.{
  ClientJitterBuffer, Frame, new_buffer, adaptive_delay_frames, init_base, is_far, unwrap_seq, put,
}

-- What the decoders make of a packet: the mono decoder reads it, or only the stereo decoder does,
-- or neither.
pub data Decoded : Type 0 where
  mono : Frame → Decoded
  stereo : Frame → Decoded
  garbled : Decoded

pub record VoiceIn : Type 0 where
  pub from_id : ℕ
  pub id : ℕ
  pub is_whisper : Bool
  pub decoded : Decoded

-- The jitter buffers, by key; a key counts while it is in the engine's list.
abbrev pub Buffers : Type 0
Buffers = AudioKey → ClientJitterBuffer

abbrev pub put_buffer : AudioKey → ClientJitterBuffer → Buffers → Buffers
put_buffer key b buffers j = if key === j then b else buffers j

-- `entry(key).or_insert`.
abbrev pub add_key : AudioKey → List AudioKey → List AudioKey
add_key key ks = if has_key key ks then ks else ks ++ key ∷ []

pub is_read : Decoded → Bool
is_read (mono _) = true
is_read (stereo _) = true
is_read garbled = false

pub frame_of : Decoded → Frame
frame_of (mono frame) = frame
frame_of (stereo frame) = frame
frame_of garbled = []

-- The packet is not thrown away for its distance to the last one.
pub is_near : ClientJitterBuffer → (seq played delay : ℕ) → Bool
is_near b seq played delay =
    let b' = init_base b seq played delay in not (is_far b' (unwrap_seq seq (as_u16 b'.base_seq)))

pub note_talk : (now from_id : ℕ) (is_whisper : Bool) → TsConnection → TsConnection
note_talk now from_id is_whisper st = record st {
  talking_clients = Map.insert from_id now st.talking_clients;
  whispering_clients =
      if is_whisper then Map.insert from_id now st.whispering_clients else st.whispering_clients;
}

module _ {Tx : Type 0} (conn_id : ℕ) where
  -- The stereo decoder is made for a packet that the mono decoder does not read.
  unfoldable pub enter_decoders : AudioKey → Decoded → Engine Tx → Engine Tx
  enter_decoders key (mono _) e = record e { audio_decoders = add_key key e.audio_decoders }
  enter_decoders key other e = record e {
    audio_decoders = add_key key e.audio_decoders;
    audio_decoders_stereo = add_key key e.audio_decoders_stereo;
  }

  pub jitter_ms_of : Engine Tx → ℕ
  jitter_ms_of e = elim (session e conn_id) [ none ↦ 0 | some st ↦ st.jitter_ms ]

  -- The volume in dB that is kept for the speaker.
  unfoldable pub kept_volume : Engine Tx → (from_id : ℕ) → Option ℕ
  kept_volume e from_id = elim (session e conn_id) [
    | none ↦ none
    | some st ↦ elim (uid_of st from_id) [ none ↦ none | some uid ↦ Map.get uid e.client_volumes ]
  ]

  -- `gain_of` turns dB into a factor.
  unfoldable pub buffer_for :
      (gain_of : ℕ → ℕ) → Engine Tx → Buffers → (from_id : ℕ) → ClientJitterBuffer
  unfolding kept_volume
  buffer_for gain_of e buffers from_id =
      if has_key (conn_id, from_id) e.client_buffers
      then buffers (conn_id, from_id)
      else elim (kept_volume e from_id) [
        | none ↦ new_buffer
        | some db ↦ record new_buffer { volume = gain_of db }
      ]

  -- A packet that is read: its frame goes to the buffer, and unless it is too far off the speaker
  -- is marked as talking.
  unfoldable pub play :
      (gain_of : ℕ → ℕ) (now played : ℕ) → Engine Tx → Buffers → VoiceIn → Engine Tx × Buffers
  unfolding buffer_for jitter_ms_of frame_of is_near note_talk
  play gain_of now played e buffers packet =
      let key : AudioKey = (conn_id, packet.from_id) in
      let b = buffer_for gain_of e buffers packet.from_id in
      let delay = adaptive_delay_frames (jitter_ms_of e) in
      let e' = record e { client_buffers = add_key key e.client_buffers } in
      (
        if is_near b packet.id played delay
            then update_state e' conn_id (note_talk now packet.from_id packet.is_whisper)
            else e',
        put_buffer key (put b packet.id (frame_of packet.decoded) played delay now) buffers,
      )

  unfoldable pub decode_to_client_buffer :
      (gain_of : ℕ → ℕ) (now played : ℕ) → Engine Tx → Buffers → VoiceIn → Engine Tx × Buffers
  unfolding enter_decoders is_read play
  decode_to_client_buffer gain_of now played e buffers packet =
      let (checked, allowed) =
        if packet.is_whisper then whisper_is_allowed e conn_id packet.from_id else (e, true) in
      let entered = enter_decoders (conn_id, packet.from_id) packet.decoded checked in
      let played_on = play gain_of now played entered buffers packet in
      if not allowed
      then (checked, buffers)
      else if is_read packet.decoded
      then played_on
      else (entered, buffers)
