-- ===== src/Maintenance.antt =====
-- native/src/api.rs, `spawn_maintenance_task` and `restart_output_stream`: what the shared task does
-- at its ticks. The count of played samples, which a restart sets to 0, is what a round of the event
-- loop finds; `opened` says whether cpal gives a stream.
pub mod Stale
mod Tests
use Prim.Native.Nat.{ℕ, ◌-◌}
use beta.Base.{
  Bool, true, false, ◌&&◌, not, none, some, List, [], ◌∷◌, keep, is_empty, ltb, if◌then◌else◌,
}
use beta.Engine.{Engine, AudioKey}
use beta.Disconnect.{has_key, drop_key, any_session_listening, refresh_active_client_snapshot}
use beta.EventLoop.Incoming.{for_each}
use beta.EventLoop.Hearing.{Buffers}

-- Nothing has come for more than ten seconds.
abbrev pub is_stale : Buffers → (now : ℕ) → AudioKey → Bool
is_stale buffers now key = elim (buffers key).last_packet [
  | none ↦ false
  | some last ↦ ltb 10_000_000_000 (now - last)
]

abbrev pub snapshot_active : ℕ
snapshot_active = 500_000_000

abbrev pub snapshot_idle : ℕ
snapshot_idle = 2_000_000_000

module _ {Tx : Type 0} where
  -- The second phase looks at the buffer again.
  unfoldable pub remove_stale : Buffers → (now : ℕ) → Engine Tx → AudioKey → Engine Tx
  remove_stale buffers now e key =
      if has_key key e.client_buffers && is_stale buffers now key then drop_key e key else e

  unfoldable pub cleanup_tick : Buffers → (now : ℕ) → Engine Tx → Engine Tx
  unfolding remove_stale
  cleanup_tick buffers now e =
      for_each (remove_stale buffers now) e (keep (is_stale buffers now) e.client_buffers)

  unfoldable pub restart_output_stream : (opened : Bool) → Engine Tx → Engine Tx
  restart_output_stream opened e = record e {
    client_buffers = [];
    audio_decoders = [];
    audio_decoders_stereo = [];
    active_client_ids = [];
    output_stream = opened;
  }

  -- The engine, and the period of the ticks from then on.
  unfoldable pub snapshot_tick : (opened : Bool) → Engine Tx → Engine Tx × ℕ
  unfolding restart_output_stream
  snapshot_tick opened e =
      let refreshed = refresh_active_client_snapshot e in
      (
        if refreshed.output_restart_requested && any_session_listening refreshed
            then record (restart_output_stream opened refreshed) {
              output_restart_requested = false;
            }
            else refreshed,
        if is_empty e.client_buffers then snapshot_idle else snapshot_active,
      )
