-- ===== src/Settings.antt =====
-- native/src/api.rs, the settings of a session's microphone and of its speakers. An `f32` is its bit
-- pattern; `clamp` is that of `f32`, and `gain_of` turns dB into a factor.
pub mod Volume
mod Tests
use Prim.Native.Nat.{ℕ}
use beta.Base.{Bool, true, false, none, some, [], Text, if◌then◌else◌, nat_equal, text_equal}
use beta.Base.Map
use beta.Engine.{AudioKey, Engine, TsConnection, unit_gain, session, update_state}
use beta.Requests.Queue.{nonzero, let_some, reject}
use beta.Whisper.{uid_of}
use beta.Disconnect.{has_key}
use beta.EventLoop.Vad.{Floats}
use beta.EventLoop.Hearing.{Buffers, put_buffer}

-- 0.0005, 3.0, -20.0 and 20.0.
abbrev pub threshold_min : ℕ
threshold_min = 0x3a03_126f

abbrev pub mic_gain_max : ℕ
mic_gain_max = 0x4040_0000

abbrev pub volume_min : ℕ
volume_min = 0xc1a0_0000

abbrev pub volume_max : ℕ
volume_max = 0x41a0_0000

module _ {Tx : Type 0} (e : Engine Tx) (conn_id : ℕ) where
  pub ts_is_connected : ℕ
  ts_is_connected = elim (session e conn_id) [ none ↦ 0 | some st ↦ if st.connected then 1 else 0 ]

  pub ts_set_vad_threshold : Floats → (threshold : ℕ) → Engine Tx
  ts_set_vad_threshold f32 threshold = update_state e conn_id λ st. record st {
    vad_threshold = f32.clamp threshold threshold_min unit_gain;
    vad_noise_floor = 0;
  }

  pub ts_set_vad_enabled : (enabled : ℕ) → Engine Tx × ℕ
  ts_set_vad_enabled enabled =
      let_some e (session e conn_id)
        λ st. (update_state e conn_id (λ s. record s { vad_enabled = nonzero enabled }), 1)

  -- Reading the mark takes it away.
  pub ts_is_voice_active : Engine Tx × ℕ
  ts_is_voice_active = let_some e (session e conn_id) λ st. (
    update_state e conn_id (λ s. record s { voice_active = false }),
    if st.voice_active then 1 else 0,
  )

  pub ts_set_mic_gain : Floats → (gain : ℕ) → Engine Tx
  ts_set_mic_gain f32 gain =
      update_state e conn_id λ st. record st { mic_gain = f32.clamp gain 0 mic_gain_max }

  -- `made` says whether there could be an encoder.
  pub ts_start_audio : (made : Bool) → Engine Tx × ℕ
  ts_start_audio made =
      let started = let_some e (session e conn_id) λ st. (
        update_state e conn_id (λ s. record s { audio_encoder = true; pcm_in = []; audio_seq = 0 }),
        1,
      ) in
      if made then started else reject e

  pub ts_stop_audio : Engine Tx
  ts_stop_audio = update_state e conn_id λ st. record st { audio_encoder = false; pcm_in = [] }

  -- The volume is kept under the user's uid, if it is known.
  unfoldable pub keep_volume : (client_id vol_db : ℕ) → Engine Tx
  keep_volume client_id vol_db = elim (session e conn_id) [
    | none ↦ e
    | some st ↦ elim (uid_of st client_id) [
      | none ↦ e
      | some uid ↦ record e { client_volumes = Map.insert uid vol_db e.client_volumes }
    ]
  ]

  unfoldable pub ts_set_client_volume :
      Floats → (gain_of : ℕ → ℕ) → Buffers → (client_id volume_db : ℕ) → Engine Tx × Buffers
  unfolding keep_volume
  ts_set_client_volume f32 gain_of buffers client_id volume_db =
      let vol_db = f32.clamp volume_db volume_min volume_max in
      let key : AudioKey = (conn_id, client_id) in
      (
        keep_volume client_id vol_db,
        if has_key key e.client_buffers
            then put_buffer key (record (buffers key) { volume = gain_of vol_db }) buffers
            else buffers,
      )
