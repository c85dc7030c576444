-- ===== src/Settings/Tests.antt =====
-- Tests of Settings.
use Prim.Native.Nat.{ℕ}
use beta.Base.{true, false, none, some, List, [], ◌∷◌, nat_equal, text_equal, pair_equal, ◌≡◌, refl}
use beta.Base.Word.{pos}
use beta.Command.{Command}
use beta.Events.{TsClient}
use beta.Engine.{Engine, TsConnection, new_connection, new_session, new_engine}
use beta.Jitter.{new_buffer}
use beta.EventLoop.Hearing.{Buffers, buffer_for}
use beta.EventLoop.Samples.{mock}
use beta.Settings.{ts_is_voice_active, ts_set_client_volume}
use beta.Whisper.{uid_of}
use beta.Settings.Volume.{ts_set_client_volume-buffer_for}

abbrev anna : ℕ → TsClient
anna id = record {
  id = id;
  nickname = 65 ∷ [];
  channel_id = 1;
  database_id = 5;
  channel_group_id = 0;
  channel_group_name = none;
  channel_group_icon_id = 0;
  server_group_ids = [];
  server_group_names = [];
  server_group_icon_ids = [];
  away = false;
  input_muted = false;
  output_muted = false;
  is_talking = false;
  is_whispering = false;
  permission_hints = 0;
  volume = 0;
  uid = some (117 ∷ []);
  client_type = 0;
  talk_power = pos 0;
  talk_power_granted = false;
  is_priority_speaker = false;
  is_channel_commander = false;
  is_recording = false;
  input_hardware_enabled = true;
  output_hardware_enabled = true;
  output_only_muted = false;
  phonetic_name = [];
  country_code = [];
  metadata = [];
  avatar_hash = [];
}

abbrev with_anna : ℕ → TsConnection
with_anna id = record new_connection {
  connected = true;
  voice_active = true;
  clients = anna id ∷ [];
}

-- Anna is client 4 of session 1, where she has a buffer, and client 9 of session 2.
abbrev engine : Engine (List Command)
engine = record new_engine {
  sessions = (1, new_session 1 (with_anna 4) 0) ∷ (2, new_session 2 (with_anna 9) 0) ∷ [];
  client_buffers = (1, 4) ∷ [];
}

abbrev buffers : Buffers
buffers = λ key. new_buffer

ts_set_client_volume-buffer_for_example :
    (((ts_set_client_volume engine 1 mock (λ db. db) buffers 4 77).1 (1, 4)).volume ≡ 77)
    × ((buffer_for 2
          (λ db. db)
          (ts_set_client_volume engine 1 mock (λ db. db) buffers 4 77).0
          (ts_set_client_volume engine 1 mock (λ db. db) buffers 4 77).1
          9).volume
        ≡ 77)
unfolding uid_of
ts_set_client_volume-buffer_for_example =
    ts_set_client_volume-buffer_for mock (λ db. db) engine buffers 1 4 77 (with_anna 4) (117 ∷ []) 2
      9 (with_anna 9) refl refl refl refl refl refl

-- The mark of a voice is told once.
voice_told_once : (ts_is_voice_active (ts_is_voice_active engine 1).0 1).1 ≡ 0
unfolding ts_is_voice_active
voice_told_once = refl
