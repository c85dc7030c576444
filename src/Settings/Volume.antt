-- ===== src/Settings/Volume.antt =====
-- The volume of a speaker from `ts_set_client_volume` to the jitter buffer.
use Prim.Native.Nat.{ℕ}
use beta.Base.{
  true, false, some, Text, if◌then◌else◌, nat_equal, text_equal, text_eq_iff, pair_equal, ◌≡◌, refl,
  ap, ap₂, ◌∙◌, arith,
}
use beta.Base.Map
use beta.Engine.{Engine, TsConnection, session}
use beta.Whisper.{uid_of}
use beta.Disconnect.{has_key}
use beta.EventLoop.Vad.{Floats}
use beta.EventLoop.Hearing.{Buffers, put_buffer, kept_volume, buffer_for}
use beta.Settings.{volume_min, volume_max, keep_volume, ts_set_client_volume}

module _ {Tx : Type 0} (f32 : Floats) (gain_of : ℕ → ℕ) where
  -- The volume that is set for a client whose uid is known goes to the client's buffer if it has
  -- one, and every buffer that is made later for a client of that uid, in whatever session, has it.
  pub ts_set_client_volume-buffer_for :
      (e : Engine Tx) (buffers : Buffers) (conn_id client_id volume_db : ℕ) (st : TsConnection)
      (uid : Text) (other_id other_client : ℕ) (other : TsConnection)
      → session e conn_id ≡ some st
      → uid_of st client_id ≡ some uid
      → session e other_id ≡ some other
      → uid_of other other_client ≡ some uid
      → (has_key (conn_id, client_id) e.client_buffers ≡ true)
      → has_key (other_id, other_client) e.client_buffers ≡ false
      → let (e', buffers') =
          ts_set_client_volume e conn_id f32 gain_of buffers client_id volume_db in
        ((buffers' (conn_id, client_id)).volume
          ≡ gain_of (f32.clamp volume_db volume_min volume_max))
        × ((buffer_for other_id gain_of e' buffers' other_client).volume
            ≡ gain_of (f32.clamp volume_db volume_min volume_max))
  unfolding ts_set_client_volume keep_volume buffer_for kept_volume
  ts_set_client_volume-buffer_for e buffers conn_id client_id volume_db st uid other_id other_client
        other found known found' known' live late =
      let vol_db = f32.clamp volume_db volume_min volume_max in
      let kept : keep_volume e conn_id client_id vol_db
          ≡ record e { client_volumes = Map.insert uid vol_db e.client_volumes } =
        rw (found, keep_volume) (rw known refl) in
      let e' : Engine Tx = record e { client_volumes = Map.insert uid vol_db e.client_volumes } in
      let read : kept_volume other_id e' other_client ≡ some vol_db =
        rw (found', kept_volume)
          (rw known' (
            Map.get-insert uid uid vol_db e.client_volumes
            ∙ ap (λ t. if t then some vol_db else Map.get uid e.client_volumes)
                ((text_eq_iff uid uid).1 refl))) in
      let b' =
        put_buffer (conn_id, client_id)
          (record (buffers (conn_id, client_id)) { volume = gain_of vol_db }) buffers in
      let made : (buffer_for other_id gain_of e' b' other_client).volume ≡ gain_of vol_db =
        rw (late, buffer_for) (rw read refl) in
      (
        ground (arith, live),
        ap₂ (λ x b. (buffer_for other_id gain_of x b other_client).volume) kept
              (ap (λ t. if t then b' else buffers) live)
            ∙ made,
      )
