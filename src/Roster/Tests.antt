-- ===== src/Roster/Tests.antt =====
-- A book with two clients in one channel and two groups of one name, and the theorems of the roster
-- at it.
use Prim.Native.Nat.{ℕ}
use mathlib.Core.List.{Perm}
use beta.Base.{false, none, some, List, [], ◌∷◌, Text, map, ◌≡◌}
use beta.Base.Word.{pos}
use beta.Roster.{
  Book, BookChannel, BookClient, Codec, ChannelType, groups_of, refresh_from_book, client_of,
}
use beta.Roster.Counts.{shown, refresh_from_book-channels}
use beta.Roster.Groups.{Ascending, client_of-groups}

abbrev hall : BookChannel
hall = record {
  id = 5;
  name = 104 ∷ [];
  parent = 0;
  topic = none;
  has_password = none;
  order = 0;
  needed_talk_power = none;
  max_clients = none;
  codec = Codec.opus_voice;
  codec_quality = some 6;
  channel_type = ChannelType.permanent;
  is_default = none;
  is_private = none;
  subscribed = false;
  icon = none;
  is_unencrypted = none;
  description = none;
}

abbrev guest : ℕ → BookClient
guest id = record {
  id = id;
  name = 98 ∷ [];
  channel = 5;
  database_id = 70;
  channel_group = 8;
  server_groups = 6 ∷ 7 ∷ 9 ∷ [];
  away_message = none;
  input_muted = false;
  output_muted = false;
  uid = none;
  is_query = false;
  talk_power = pos 0;
  talk_power_granted = false;
  is_priority_speaker = false;
  is_channel_commander = false;
  is_recording = false;
  input_hardware_enabled = false;
  output_hardware_enabled = false;
  output_only_muted = false;
  phonetic_name = [];
  country_code = [];
  metadata = [];
  avatar_hash = [];
}

abbrev lobby : Book
lobby = record {
  channels = hall ∷ [];
  clients = guest 3 ∷ guest 4 ∷ [];
  server_groups =
      (6, record { name = 98 ∷ []; icon = 1 })
      ∷ (7, record { name = 97 ∷ []; icon = 2 })
      ∷ (9, record { name = 97 ∷ []; icon = 3 })
      ∷ [];
  channel_groups = [];
}

refresh_from_book-channels_example :
    (refresh_from_book 0 [] (λ id. none) [] [] [] lobby).0 ≡ map (shown lobby.clients) (hall ∷ [])
refresh_from_book-channels_example = refresh_from_book-channels 0 [] (λ id. none) [] [] [] lobby

client_of-groups_example :
    let anna = client_of 0 [] (λ id. none) [] [] [] lobby (guest 3) in
    (groups : List (Text × ℕ)) × (anna.server_group_names ≡ map (λ g. g.0) groups)
    × (anna.server_group_icon_ids ≡ map (λ g. g.1) groups)
    × Perm groups (groups_of lobby.server_groups (6 ∷ 7 ∷ 9 ∷ []))
    × Ascending anna.server_group_names
client_of-groups_example = client_of-groups 0 [] (λ id. none) [] [] [] lobby (guest 3)
