-- ===== src/Disconnect/Tests.antt =====
-- Sessions that end, at concrete inputs.
use Prim.Native.Nat.{ℕ}
use beta.Base.{
  true, false, ◌&&◌, not, Option, none, some, List, [], ◌∷◌, ◌++◌, ◌==◌, if◌then◌else◌, nat_equal,
  ◌≡◌, ◌≢◌,
}
use beta.Base.Map
use beta.Command.{Command}
use beta.Events.{disconnected}
use beta.Engine.{Engine, Session, new_connection, new_session, new_engine}
use beta.Disconnect.{any_connected, has_key, drop_session_audio, finalize_disconnect}
use beta.Disconnect.Audio.{drop_session_audio_lem}
use beta.Disconnect.Gone.{finalize_disconnect_lem}

abbrev push_to : List Command → Command → Option (List Command)
push_to sent c = some (sent ++ c ∷ [])

-- Connection 1 is in a server, the attempt of connection 2 has failed.
abbrev in_server : Session (List Command)
in_server = record (new_session 1 (record new_connection { connected = true }) 0) {
  command_tx = some [];
  event_loop_alive = true;
}

abbrev failed : Session (List Command)
failed = new_session 2 new_connection 0

abbrev engine : Engine (List Command)
engine = record new_engine {
  sessions = (1, in_server) ∷ (2, failed) ∷ [];
  panic_log = 80 ∷ [];
  client_buffers = (1, 5) ∷ (2, 5) ∷ [];
  audio_decoders = (1, 5) ∷ (1, 6) ∷ (2, 5) ∷ [];
  output_stream = true;
}

drop_session_audio_lem_example :
    let e' = drop_session_audio engine 1 in
    (has_key (1, 6) e'.client_buffers ≡ (has_key (1, 6) engine.client_buffers && not (1 == 1)))
    × (e'.active_client_ids ≡ e'.client_buffers)
    × (has_key (1, 6) e'.audio_decoders ≡ (
        has_key (1, 6) engine.audio_decoders
        && not (has_key (1, 6) engine.client_buffers && 1 == 1)))
    × (has_key (1, 6) e'.audio_decoders_stereo ≡ (
        has_key (1, 6) engine.audio_decoders_stereo
        && not (has_key (1, 6) engine.client_buffers && 1 == 1)))
drop_session_audio_lem_example = drop_session_audio_lem (1, 6) engine 1

finalize_disconnect_lem_example :
    let e' = finalize_disconnect engine 1 (98 ∷ []) true in
    (Map.get 1 e'.sessions ≡ none)
    × ((other : ℕ) → other ≢ 1 → Map.get other e'.sessions ≡ Map.get other engine.sessions)
    × (e'.event_queue ≡ record { connection_id = 1; event = disconnected (98 ∷ []) true } ∷ [])
    × (e'.output_stream ≡ (if any_connected (Map.remove 1 engine.sessions) then true else false))
finalize_disconnect_lem_example = finalize_disconnect_lem engine 1 (98 ∷ []) true
