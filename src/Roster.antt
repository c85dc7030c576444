-- ===== src/Roster.antt =====
-- native/src/api.rs, `refresh_from_book`: the roster that the user interface sees, from the book that
-- tsclientlib keeps. The records of the book have the fields that are read.
pub mod Counts
pub mod Groups
mod Tests
use Prim.Native.Nat.{ℕ, ◌+◌, ◌-◌, ◌/◌}
use beta.Base.{
  Bool, true, false, Option, none, some, List, [], ◌∷◌, map, Text, ltb, leb, ◌==◌, if◌then◌else◌,
  nat_equal, text_equal,
}
use beta.Base.Map
use beta.Base.Map.{Map}
use beta.Base.Word.{Signed, pos, negsuc, as_u32, as_i32}
use beta.Events.{TsChannel, TsClient}
use beta.Whisper.{sort}

pub data MaxClients : Type 0 where
  unlimited : MaxClients
  inherited : MaxClients
  limited : ℕ → MaxClients

pub data Codec : Type 0 where
  speex_narrowband : Codec
  speex_wideband : Codec
  speex_ultrawideband : Codec
  celt_mono : Codec
  opus_voice : Codec
  opus_music : Codec

pub data ChannelType : Type 0 where
  permanent : ChannelType
  semi_permanent : ChannelType
  temporary : ChannelType

pub record BookChannel : Type 0 where
  pub id : ℕ
  pub name : Text
  pub parent : ℕ
  pub topic : Option Text
  pub has_password : Option Bool
  pub order : ℕ
  pub needed_talk_power : Option Signed
  pub max_clients : Option MaxClients
  pub codec : Codec
  pub codec_quality : Option ℕ
  pub channel_type : ChannelType
  pub is_default : Option Bool
  pub is_private : Option Bool
  pub subscribed : Bool
  pub icon : Option ℕ
  pub is_unencrypted : Option Bool
  pub description : Option Text

-- `is_query` is `ClientType::Query`; the texts of uids are base64.
pub record BookClient : Type 0 where
  pub id : ℕ
  pub name : Text
  pub channel : ℕ
  pub database_id : ℕ
  pub channel_group : ℕ
  pub server_groups : List ℕ
  pub away_message : Option Text
  pub input_muted : Bool
  pub output_muted : Bool
  pub uid : Option Text
  pub is_query : Bool
  pub talk_power : Signed
  pub talk_power_granted : Bool
  pub is_priority_speaker : Bool
  pub is_channel_commander : Bool
  pub is_recording : Bool
  pub input_hardware_enabled : Bool
  pub output_hardware_enabled : Bool
  pub output_only_muted : Bool
  pub phonetic_name : Text
  pub country_code : Text
  pub metadata : Text
  pub avatar_hash : Text

pub record Group : Type 0 where
  pub name : Text
  pub icon : ℕ

pub record Book : Type 0 where
  pub channels : List BookChannel
  pub clients : List BookClient
  pub server_groups : Map ℕ Group
  pub channel_groups : Map ℕ Group

pub channel_codec_code : Codec → ℕ
channel_codec_code Codec.speex_narrowband = 0
channel_codec_code Codec.speex_wideband = 1
channel_codec_code Codec.speex_ultrawideband = 2
channel_codec_code Codec.celt_mono = 3
channel_codec_code Codec.opus_voice = 4
channel_codec_code Codec.opus_music = 5

pub channel_type_code : ChannelType → ℕ
channel_type_code ChannelType.permanent = 1
channel_type_code ChannelType.semi_permanent = 2
channel_type_code ChannelType.temporary = 0

-- `Option::unwrap_or`.
abbrev pub unwrap_or {ℓ} : {A : Type ℓ} → A → Option A → A
unwrap_or d none = d
unwrap_or d (some a) = a

pub max_clients_code : MaxClients → Signed
max_clients_code MaxClients.unlimited = negsuc 0
max_clients_code MaxClients.inherited = negsuc 1
max_clients_code (MaxClients.limited n) = as_i32 n

-- The order of texts, that of their code points.
pub text_leb : Text → Text → Bool
text_leb [] t = true
text_leb (c ∷ s) [] = false
text_leb (c ∷ s) (d ∷ t) = if ltb c d then true else if c == d then text_leb s t else false

-- `slice::sort`, which is stable, by an order.
module _ {ℓ} {A : Type ℓ} (le : A → A → Bool) where
  pub insert_by : A → List A → List A
  insert_by x [] = x ∷ []
  insert_by x (y ∷ ys) = if le x y then x ∷ y ∷ ys else y ∷ insert_by x ys

  pub sort_by : List A → List A
  unfolding insert_by
  sort_by [] = []
  sort_by (x ∷ xs) = insert_by x (sort_by xs)

-- The number of clients in each channel.
pub count_client : Map ℕ ℕ → BookClient → Map ℕ ℕ
count_client count c =
    Map.insert c.channel (as_u32 (unwrap_or 0 (Map.get c.channel count) + 1)) count

pub count_clients : Map ℕ ℕ → List BookClient → Map ℕ ℕ
unfolding count_client
count_clients count [] = count
count_clients count (c ∷ cs) = count_clients (count_client count c) cs

pub channel_of : Map ℕ ℕ → BookChannel → TsChannel
unfolding channel_codec_code channel_type_code max_clients_code
channel_of count c = record {
  id = as_u32 c.id;
  name = c.name;
  parent_id = as_u32 c.parent;
  topic = unwrap_or [] c.topic;
  has_password = unwrap_or false c.has_password;
  client_count = unwrap_or 0 (Map.get c.id count);
  order = as_u32 c.order;
  needed_talk_power = unwrap_or (pos 0) c.needed_talk_power;
  max_clients = max_clients_code (unwrap_or MaxClients.unlimited c.max_clients);
  codec = channel_codec_code c.codec;
  codec_quality = unwrap_or 0 c.codec_quality;
  channel_type = channel_type_code c.channel_type;
  is_default = unwrap_or false c.is_default;
  is_private = unwrap_or false c.is_private;
  subscribed = c.subscribed;
  icon_id = unwrap_or 0 c.icon;
  is_unencrypted = unwrap_or true c.is_unencrypted;
}

-- The groups of a client that the book knows, each with its icon.
pub groups_of : Map ℕ Group → List ℕ → List (Text × ℕ)
groups_of known [] = []
groups_of known (id ∷ ids) = elim (Map.get id known) [
  | none ↦ groups_of known ids
  | some g ↦ (g.name, g.icon) ∷ groups_of known ids
]

pub group_names : List (Text × ℕ) → List Text
unfolding text_leb sort_by
group_names groups = sort_by text_leb (map (λ g. g.0) groups)

pub group_icons : List (Text × ℕ) → List ℕ
unfolding text_leb sort_by
group_icons groups = map (λ g. g.1) (sort_by (λ left right. text_leb left.0 right.0) groups)

-- Less than half a second ago.
pub is_recent : (now : ℕ) → Option ℕ → Bool
is_recent now none = false
is_recent now (some t) = ltb ((now - t) / 1_000_000) 500

-- `volumes` is the table of the volumes in dB, by uid; `decibels` is that of the client's jitter
-- buffer, where there is one.
pub volume_of : (volumes : Map Text ℕ) (decibels : ℕ → Option ℕ) → BookClient → ℕ
volume_of volumes decibels c =
    let live = unwrap_or 0 (decibels c.id) in
    elim c.uid [ none ↦ live | some uid ↦ unwrap_or live (Map.get uid volumes) ]

module _ (now : ℕ) (volumes : Map Text ℕ) (decibels : ℕ → Option ℕ)
    (talking whispering permission_hints : Map ℕ ℕ) (book : Book) where
  pub client_of : BookClient → TsClient
  unfolding groups_of group_names group_icons is_recent volume_of
  client_of c = record {
    id = c.id;
    nickname = c.name;
    channel_id = as_u32 c.channel;
    database_id = c.database_id;
    channel_group_id = c.channel_group;
    channel_group_name = elim (Map.get c.channel_group book.channel_groups) [
      | none ↦ none
      | some g ↦ some g.name
    ];
    channel_group_icon_id = elim (Map.get c.channel_group book.channel_groups) [
      | none ↦ 0
      | some g ↦ g.icon
    ];
    server_group_ids = sort c.server_groups;
    server_group_names = group_names (groups_of book.server_groups c.server_groups);
    server_group_icon_ids = group_icons (groups_of book.server_groups c.server_groups);
    away = elim c.away_message [ none ↦ false | some _ ↦ true ];
    input_muted = c.input_muted;
    output_muted = c.output_muted;
    is_talking = is_recent now (Map.get c.id talking);
    is_whispering = is_recent now (Map.get c.id whispering);
    permission_hints = unwrap_or 0 (Map.get c.id permission_hints);
    volume = volume_of volumes decibels c;
    uid = c.uid;
    client_type = if c.is_query then 1 else 0;
    talk_power = c.talk_power;
    talk_power_granted = c.talk_power_granted;
    is_priority_speaker = c.is_priority_speaker;
    is_channel_commander = c.is_channel_commander;
    is_recording = c.is_recording;
    input_hardware_enabled = c.input_hardware_enabled;
    output_hardware_enabled = c.output_hardware_enabled;
    output_only_muted = c.output_only_muted;
    phonetic_name = c.phonetic_name;
    country_code = c.country_code;
    metadata = c.metadata;
    avatar_hash = c.avatar_hash;
  }

  unfoldable pub refresh_from_book : List TsChannel × List TsClient
  unfolding count_clients channel_of client_of
  refresh_from_book =
      (map (channel_of (count_clients [] book.clients)) book.channels, map client_of book.clients)
