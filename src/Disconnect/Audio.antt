-- ===== src/Disconnect/Audio.antt =====
-- What stays of the audio of a session that is dropped.
use Prim.Native.Nat.{ℕ}
use beta.Base.{
  ◌&&◌, not, List, [], ◌∷◌, ◌==◌, ◌===◌, nat_equal, pair_equal, pair_eq_iff, ◌≡◌, refl, arith,
}
use beta.Engine.{Engine, AudioKey}
use beta.Disconnect.{
  has_key, without_key, refresh_active_client_snapshot, drop_key, drop_keys, keys_of,
  drop_session_audio,
}

has_key-without_key :
    (key gone : AudioKey) (ks : List AudioKey)
    → has_key key (without_key gone ks) ≡ (has_key key ks && not (gone === key))
has_key-without_key key gone [] = ground arith
has_key-without_key key gone (k ∷ ks) = ground (
  arith,
  has_key-without_key key gone ks,
  pair_eq_iff nat_equal nat_equal k gone,
  pair_eq_iff nat_equal nat_equal k key,
  pair_eq_iff nat_equal nat_equal gone key,
)

has_key-keys_of :
    (key : AudioKey) (connection_id : ℕ) (ks : List AudioKey)
    → has_key key (keys_of connection_id ks) ≡ (has_key key ks && key.0 == connection_id)
unfolding keys_of
has_key-keys_of key connection_id [] = ground arith
has_key-keys_of key connection_id (k ∷ ks) =
    ground (arith, has_key-keys_of key connection_id ks, pair_eq_iff nat_equal nat_equal k key)

module _ {Tx : Type 0} (key : AudioKey) where
  drop_keys_lem :
      (e : Engine Tx) (ks : List AudioKey)
      → (has_key key (drop_keys e ks).client_buffers
          ≡ (has_key key e.client_buffers && not (has_key key ks)))
        × (has_key key (drop_keys e ks).audio_decoders
            ≡ (has_key key e.audio_decoders && not (has_key key ks)))
        × (has_key key (drop_keys e ks).audio_decoders_stereo
            ≡ (has_key key e.audio_decoders_stereo && not (has_key key ks)))
  unfolding drop_keys drop_key
  drop_keys_lem e [] = ground arith
  drop_keys_lem e (k ∷ ks) =
      let rest = drop_keys_lem (drop_key e k) ks in
      ground (
        arith,
        rest.0,
        rest.1,
        rest.2,
        has_key-without_key key k e.client_buffers,
        has_key-without_key key k e.audio_decoders,
        has_key-without_key key k e.audio_decoders_stereo,
      )

  pub drop_key_lem :
      (e : Engine Tx) (gone : AudioKey)
      → (has_key key (drop_key e gone).client_buffers
          ≡ (has_key key e.client_buffers && not (gone === key)))
        × (has_key key (drop_key e gone).audio_decoders
            ≡ (has_key key e.audio_decoders && not (gone === key)))
        × (has_key key (drop_key e gone).audio_decoders_stereo
            ≡ (has_key key e.audio_decoders_stereo && not (gone === key)))
  unfolding drop_key
  drop_key_lem e gone = (
    has_key-without_key key gone e.client_buffers,
    has_key-without_key key gone e.audio_decoders,
    has_key-without_key key gone e.audio_decoders_stereo,
  )

  -- No buffer of the connection stays and no other is lost, and the callback's list is that of the
  -- buffers. A decoder goes exactly with the buffer of its client: one without a buffer stays.
  pub drop_session_audio_lem :
      (e : Engine Tx) (connection_id : ℕ)
      → let e' = drop_session_audio e connection_id in
        (has_key key e'.client_buffers
          ≡ (has_key key e.client_buffers && not (key.0 == connection_id)))
        × (e'.active_client_ids ≡ e'.client_buffers)
        × (has_key key e'.audio_decoders ≡ (
            has_key key e.audio_decoders
            && not (has_key key e.client_buffers && key.0 == connection_id)))
        × (has_key key e'.audio_decoders_stereo ≡ (
            has_key key e.audio_decoders_stereo
            && not (has_key key e.client_buffers && key.0 == connection_id)))
  unfolding drop_session_audio refresh_active_client_snapshot
  drop_session_audio_lem e connection_id =
      let dropped = drop_keys_lem e (keys_of connection_id e.client_buffers) in
      let own = has_key-keys_of key connection_id e.client_buffers in
      (
        ground (arith, dropped.0, own),
        refl,
        ground (arith, dropped.1, own),
        ground (arith, dropped.2, own),
      )
