-- ===== src/EventLoop/Incoming.antt =====
-- native/src/api.rs, `handle_control_item`: what the engine does with the items of the connection
-- that are not audio. The records have the fields that are read; a text that the source gets by
-- `to_string` or `{:?}` is given, as are the book and the statistics of the connection.
use Prim.Native.Nat.{ℕ, ◌+◌, ◌-◌, ◌*◌, ◌/◌, min, ◌^◌}
use beta.Base.{
  Bool, true, false, ◌&&◌, not, Option, none, some, List, [], ◌∷◌, ◌++◌, Text, take, drop, find,
  decimal, leb, ◌==◌, if◌then◌else◌, nat_equal, text_equal,
}
use beta.Base.Word.{Signed}
use beta.Engine.{TsConnection}
use beta.Transfers.Listings.{FileListEntry, FileInfoItem}
use beta.Roster.{Book, unwrap_or}

pub data MessageTarget : Type 0 where
  server : MessageTarget
  channel : MessageTarget
  client : MessageTarget
  poke : MessageTarget

-- Of the events of the book, a text message, and any other.
pub data BookEvent : Type 0 where
  message : (target : MessageTarget) (name : Text) (id : ℕ) (text : Text) → BookEvent
  changed : BookEvent

pub record TextMessage : Type 0 where
  pub invoker_name : Text
  pub invoker_id : ℕ
  pub target : ℕ
  pub message : Text

pub record TokenUsed : Type 0 where
  pub token : Text
  pub token1 : Text
  pub token2 : Text
  pub client_db_id : ℕ

pub record BanEntry : Type 0 where
  pub ban_id : ℕ
  pub ip : Text
  pub name : Text
  pub uid : Text
  pub last_nickname : Text
  pub created : Signed
  pub duration : Signed
  pub invoker_name : Text

pub record Complain : Type 0 where
  pub target_client_db_id : ℕ
  pub target_name : Text
  pub from_client_db_id : ℕ
  pub from_name : Text
  pub message : Text
  pub timestamp : Signed

pub record GroupChange : Type 0 where
  pub client_id : ℕ
  pub invoker_name : Text
  pub name : Text
  pub server_group_id : ℕ

-- The errors that the engine tells apart, and any other by its name.
pub data TsError : Type 0 where
  ok : TsError
  client_is_flooding : TsError
  ban_flooding : TsError
  another : (name : Text) → TsError

pub record CommandError : Type 0 where
  pub id : TsError
  pub message : Text
  pub missing_permission : Option Text

-- Durations in nanoseconds. The six kinds of packets are the incoming ones (control, keepalive,
-- speech), then the outgoing ones; `last_second_bytes` has a row of them for each of 60 seconds.
pub record NetworkStats : Type 0 where
  pub rtt : ℕ
  pub rtt_dev : ℕ
  pub total_bytes : List ℕ
  pub total_packets : List ℕ
  pub last_second_bytes : List (List ℕ)
  pub packetloss : ℕ

pub data InMessage : Type 0 where
  text_messages : List TextMessage → InMessage
  file_downloads : (handles : List ℕ) → InMessage
  client_permission_hints : List (ℕ × ℕ) → InMessage
  file_lists : List FileListEntry → InMessage
  file_lists_finished : List (ℕ × Text) → InMessage
  file_infos : List FileInfoItem → InMessage
  tokens_used : List TokenUsed → InMessage
  channel_descriptions_changed : (channels : List ℕ) → InMessage
  ban_entries : List BanEntry → InMessage
  complaints : List Complain → InMessage
  client_server_group_added : List GroupChange → InMessage
  client_server_group_removed : List GroupChange → InMessage
  command_errors : List CommandError → InMessage
  other_message : InMessage

pub data StreamItem : Type 0 where
  book_events : List BookEvent → StreamItem
  message_event : InMessage → StreamItem
  message_result : Option CommandError → StreamItem
  network_stats_updated : StreamItem
  file_download : (handle : ℕ) → StreamItem
  file_upload : (handle : ℕ) → StreamItem
  filetransfer_failed : (handle : ℕ) → StreamItem
  disconnected_temporarily : (reason : Text) → StreamItem
  other_item : StreamItem

unfoldable pub target_code : MessageTarget → ℕ
target_code MessageTarget.server = 3
target_code MessageTarget.channel = 2
target_code MessageTarget.client = 1
target_code MessageTarget.poke = 0

-- `for x in xs { ... }`.
abbrev pub for_each {ℓ κ} : {S : Type ℓ} {A : Type κ} → (S → A → S) → S → List A → S
for_each body s [] = s
for_each body s (x ∷ xs) = for_each body (body s x) xs

abbrev pub sum : List ℕ → ℕ
sum [] = 0
sum (n ∷ ns) = n + sum ns

abbrev pub sum_rows : (List ℕ → List ℕ) → List (List ℕ) → ℕ
sum_rows kinds [] = 0
sum_rows kinds (row ∷ rows) = sum (kinds row) + sum_rows kinds rows

abbrev pub in_kinds : List ℕ → List ℕ
in_kinds = take 3

abbrev pub out_kinds : List ℕ → List ℕ
out_kinds = drop 3

-- `d.as_millis().min(u64::MAX)`.
abbrev pub millis : ℕ → ℕ
millis d = min (d / 1_000_000) (2 ^ 64 - 1)

-- The jitter after a new round trip time: a quarter of the old value and three quarters of the
-- rise, which an `f64` holds exactly below 2^51.
unfoldable pub note_rtt : (rtt_ms : ℕ) → TsConnection → TsConnection
note_rtt rtt_ms st = record st {
  jitter_ms =
      if not (st.last_rtt_ms == 0) && leb st.last_rtt_ms rtt_ms
      then if st.jitter_ms == 0
        then rtt_ms - st.last_rtt_ms
        else (st.jitter_ms + 3 * (rtt_ms - st.last_rtt_ms)) / 4
      else st.jitter_ms;
  last_rtt_ms = rtt_ms;
}

-- "ClientIsFlooding" and the like.
unfoldable pub error_name : TsError → Text
error_name TsError.ok = (79 ∷ 107 ∷ [])
error_name TsError.client_is_flooding =
    (67 ∷ 108 ∷ 105 ∷ 101 ∷ 110 ∷ 116 ∷ 73 ∷ 115 ∷ 70 ∷ 108 ∷ 111 ∷ 111 ∷ 100 ∷ 105 ∷ 110 ∷ 103
      ∷ [])
error_name TsError.ban_flooding =
    (66 ∷ 97 ∷ 110 ∷ 70 ∷ 108 ∷ 111 ∷ 111 ∷ 100 ∷ 105 ∷ 110 ∷ 103 ∷ [])
error_name (TsError.another name) = name

unfoldable pub is_flooding : TsError → Bool
is_flooding TsError.client_is_flooding = true
is_flooding TsError.ban_flooding = true
is_flooding other = false

unfoldable pub is_ok : TsError → Bool
is_ok TsError.ok = true
is_ok other = false

-- "{} added {} to group {}" and "{} removed {} from group {}".
unfoldable pub added_text : GroupChange → Text
added_text c =
    c.invoker_name
    ++ (32 ∷ 97 ∷ 100 ∷ 100 ∷ 101 ∷ 100 ∷ 32 ∷ [])
    ++ c.name
    ++ (32 ∷ 116 ∷ 111 ∷ 32 ∷ 103 ∷ 114 ∷ 111 ∷ 117 ∷ 112 ∷ 32 ∷ [])
    ++ decimal c.server_group_id

unfoldable pub removed_text : GroupChange → Text
removed_text c =
    c.invoker_name
    ++ (32 ∷ 114 ∷ 101 ∷ 109 ∷ 111 ∷ 118 ∷ 101 ∷ 100 ∷ 32 ∷ [])
    ++ c.name
    ++ (32 ∷ 102 ∷ 114 ∷ 111 ∷ 109 ∷ 32 ∷ 103 ∷ 114 ∷ 111 ∷ 117 ∷ 112 ∷ 32 ∷ [])
    ++ decimal c.server_group_id

-- "Temp disconnected: {}".
unfoldable pub temporary_text : Text → Text
temporary_text reason =
    (84 ∷ 101 ∷ 109 ∷ 112 ∷ 32 ∷ 100 ∷ 105 ∷ 115 ∷ 99 ∷ 111 ∷ 110 ∷ 110 ∷ 101 ∷ 99 ∷ 116 ∷ 101 ∷ 100
      ∷ 58 ∷ 32 ∷ [])
    ++ reason

unfoldable pub description_of : Option Book → (channel_id : ℕ) → Text
description_of none channel_id = []
description_of (some book) channel_id = elim (find (λ c. c.id == channel_id) book.channels) [
  | none ↦ []
  | some c ↦ unwrap_or [] c.description
]
