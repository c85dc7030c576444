-- ===== src/Disconnect/Gone.antt =====
-- A session that has ended, and one that is asked to end.
use Prim.Native.Nat.{ℕ}
use beta.Base.{
  Bool, false, none, List, [], ◌∷◌, ◌++◌, Text, if◌then◌else◌, nat_equal, ◌≡◌, ◌≢◌, refl, arith,
  ◌∙◌,
}
use beta.Base.Map
use beta.Base.Map.{Map}
use beta.Events.{disconnected}
use beta.Engine.{Engine, Session, AudioKey, update, update_state, push_event}
use beta.Disconnect.{
  any_connected, any_session_listening, set_offline, close_channel, close_output, remove_session,
  drop_session_audio, drop_key, drop_keys, keys_of, refresh_active_client_snapshot,
  finalize_disconnect,
}

module _ {Tx : Type 0} where
  -- What the audio tables lose concerns neither sessions nor events nor the output.
  drop_keys_keeps :
      (e : Engine Tx) (ks : List AudioKey)
      → ((drop_keys e ks).sessions ≡ e.sessions)
        × ((drop_keys e ks).event_queue ≡ e.event_queue)
        × ((drop_keys e ks).output_stream ≡ e.output_stream)
  unfolding drop_keys drop_key
  drop_keys_keeps e [] = (refl, refl, refl)
  drop_keys_keeps e (k ∷ ks) = drop_keys_keeps (drop_key e k) ks

  Kept : Engine Tx → Engine Tx → Type 0
  Kept e e' =
      (e'.sessions ≡ e.sessions)
      × (e'.event_queue ≡ e.event_queue)
      × (e'.output_stream ≡ e.output_stream)

  drop_session_audio-Kept : (e : Engine Tx) (conn_id : ℕ) → Kept e (drop_session_audio e conn_id)
  unfolding Kept drop_session_audio refresh_active_client_snapshot
  drop_session_audio-Kept e conn_id = drop_keys_keeps e (keys_of conn_id e.client_buffers)

  close_output_lem :
      (e : Engine Tx)
      → ((close_output e).sessions ≡ e.sessions)
        × ((close_output e).event_queue ≡ e.event_queue)
        × ((close_output e).output_stream
            ≡ (if any_connected e.sessions then e.output_stream else false))
  unfolding close_output any_session_listening
  close_output_lem e = ground arith

  any-offline :
      (id : ℕ) (m : Map ℕ (Session Tx))
      → any_connected (
          Map.adjust id close_channel
            (Map.adjust id (λ s. record s { state = set_offline s.state }) m))
        ≡ any_connected (Map.remove id m)
  unfolding any_connected close_channel set_offline
  any-offline id [] = refl
  any-offline id ((j, s) ∷ m) = ground (arith, any-offline id m)

  module _ (e : Engine Tx) (conn_id : ℕ) (reason : Text) (expected : Bool) where
    offline : Engine Tx
    offline =
        update
          (push_event (update_state e conn_id set_offline) conn_id (disconnected reason expected))
          conn_id close_channel

    -- Afterwards there is no such session, every other one is as it was, the last event tells the
    -- end with its reason, and the output stays open exactly where another session is connected.
    pub finalize_disconnect_lem :
        let e' = finalize_disconnect e conn_id reason expected in
        (Map.get conn_id e'.sessions ≡ none)
        × ((other : ℕ) → other ≢ conn_id → Map.get other e'.sessions ≡ Map.get other e.sessions)
        × (e'.event_queue
            ≡ e.event_queue
              ++ record { connection_id = conn_id; event = disconnected reason expected } ∷ [])
        × (e'.output_stream
            ≡ (if any_connected (Map.remove conn_id e.sessions) then e.output_stream else false))
    unfolding finalize_disconnect remove_session push_event offline Kept
    finalize_disconnect_lem =
        let kept = drop_session_audio-Kept offline conn_id in
        let closed = close_output_lem (drop_session_audio offline conn_id) in
        let mid : Map ℕ (Session Tx) =
          Map.adjust conn_id (λ s. record s { state = set_offline s.state }) e.sessions in
        (
          ground (
            arith,
            Map.get-remove conn_id conn_id
                (close_output (drop_session_audio offline conn_id)).sessions,
            nat_equal.test_iff conn_id conn_id,
          ),
          λ other differs. ground (
            arith,
            differs,
            Map.get-remove conn_id other
                (close_output (drop_session_audio offline conn_id)).sessions,
            closed.0,
            kept.0,
            Map.get-adjust conn_id other close_channel mid,
            Map.get-adjust conn_id other (λ s. record s { state = set_offline s.state }) e.sessions,
            nat_equal.test_iff conn_id other,
          ),
          closed.1 ∙ kept.1,
          rw (closed.2, kept.0, kept.2, any-offline conn_id e.sessions) refl,
        )
