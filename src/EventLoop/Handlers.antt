-- ===== src/EventLoop/Handlers.antt =====
-- native/src/api.rs, `handle_control_item`, message by message. A download or an upload that is
-- found is a task of its own from there on, which is not modelled.
use Prim.Native.Nat.{ℕ}
use beta.Base.{Option, none, some, List, if◌then◌else◌, nat_equal, text_equal}
use beta.Base.Map
use beta.Base.Word.{as_u32, as_u64}
use beta.Budget.{enter_degraded}
use beta.Events.{
  TsEvent, text_message, channels_updated, error, command_error, network_stats, token_used,
  ban_list, complain_list, channel_description, client_updated,
}
use beta.Engine.{Engine, session, update, update_state, push_event}
use beta.Transfers.{take_download, take_upload, transfer_failed}
use beta.Transfers.Listings.{file_list, file_list_finished, file_info, nonnegative}
use beta.Roster.{Book, refresh_from_book}
use beta.EventLoop.Vad.{Floats}
use beta.EventLoop.Incoming.{
  BookEvent, TextMessage, TokenUsed, BanEntry, Complain, GroupChange, CommandError, NetworkStats,
  InMessage, StreamItem, target_code, for_each, sum, sum_rows, in_kinds, out_kinds, millis,
  note_rtt, error_name, is_flooding, is_ok, added_text, removed_text, temporary_text,
  description_of,
}

-- What the handler reads: the time, the book, the statistics, and for a client of the connection the
-- volume of its jitter buffer in dB.
pub record Sight : Type 0 where
  pub now : ℕ
  pub book : Option Book
  pub stats : Option NetworkStats
  pub decibels : ℕ → Option ℕ

-- The events that the parts of messages are passed on as.
pub text_message_event : TextMessage → TsEvent
text_message_event p = text_message p.invoker_name (as_u32 p.invoker_id) p.target p.message

pub token_event : TokenUsed → TsEvent
token_event item = token_used item.token item.token1 item.token2 item.client_db_id

pub ban_event : BanEntry → TsEvent
ban_event item =
    ban_list item.ban_id item.ip item.name item.uid item.last_nickname (nonnegative item.created)
      (nonnegative item.duration) item.invoker_name

pub complain_event : Complain → TsEvent
complain_event item =
    complain_list item.target_client_db_id item.target_name item.from_client_db_id item.from_name
      item.message (nonnegative item.timestamp)

pub added_event : GroupChange → TsEvent
unfolding added_text
added_event item = client_updated (as_u32 item.client_id) (added_text item)

pub removed_event : GroupChange → TsEvent
unfolding removed_text
removed_event item = client_updated (as_u32 item.client_id) (removed_text item)

pub error_event : CommandError → TsEvent
unfolding error_name
error_event e = command_error (error_name e.id) e.message e.missing_permission

pub description_event : Option Book → (channel_id : ℕ) → TsEvent
unfolding description_of
description_event book channel_id =
    channel_description (as_u32 channel_id) (description_of book channel_id)

module _ {Tx : Type 0} (conn_id : ℕ) where
  -- An event for each part.
  abbrev pub push_all {ℓ} : {A : Type ℓ} → (A → TsEvent) → Engine Tx → List A → Engine Tx
  push_all event = for_each λ e item. push_event e conn_id (event item)

  -- The roster is built anew from the book.
  unfoldable pub refresh : Sight → Engine Tx → Book → Engine Tx
  unfolding refresh_from_book
  refresh see e book = elim (session e conn_id) [
    | none ↦ push_event e conn_id channels_updated
    | some st ↦
        let (channels, clients) =
          refresh_from_book see.now e.client_volumes see.decibels st.talking_clients
            st.whispering_clients st.permission_hints book in
        push_event
          (update_state e conn_id (λ s. record s { channels = channels; clients = clients }))
          conn_id channels_updated
  ]

  unfoldable pub book_event : Sight → Engine Tx → BookEvent → Engine Tx
  unfolding refresh target_code
  book_event see e (BookEvent.message target name id text) =
      push_event e conn_id (text_message name (as_u32 id) (target_code target) text)
  book_event see e BookEvent.changed = elim see.book [ none ↦ e | some book ↦ refresh see e book ]

  unfoldable pub store_hint : Engine Tx → (client_id : ℕ) × ℕ → Engine Tx
  store_hint e (client_id, flags) =
      update_state e conn_id
        (λ s. record s { permission_hints = Map.insert client_id flags s.permission_hints })

  -- An error that tells of flooding puts the budget into the degraded mode first.
  unfoldable pub command_failed : (now : ℕ) → Engine Tx → CommandError → Engine Tx
  unfolding is_ok is_flooding error_event
  command_failed now e failed =
      if is_ok failed.id
      then e
      else if is_flooding failed.id
      then push_event
          (update e conn_id
            (λ s. record s { command_budget = enter_degraded s.command_budget now }))
          conn_id (error_event failed)
      else push_event e conn_id (error_event failed)

  unfoldable pub message_event : Sight → Engine Tx → InMessage → Engine Tx
  unfolding store_hint command_failed text_message_event token_event ban_event complain_event
      added_event removed_event description_event
  message_event see e (InMessage.text_messages parts) = push_all text_message_event e parts
  message_event see e (InMessage.file_downloads handles) =
      for_each (λ e' handle. (take_download e' conn_id handle).0) e handles
  message_event see e (InMessage.client_permission_hints hints) = for_each store_hint e hints
  message_event see e (InMessage.file_lists entries) = file_list conn_id e entries
  message_event see e (InMessage.file_lists_finished items) = file_list_finished conn_id e items
  message_event see e (InMessage.file_infos items) = file_info conn_id e items
  message_event see e (InMessage.tokens_used items) = push_all token_event e items
  message_event see e (InMessage.channel_descriptions_changed channels) =
      push_all (description_event see.book) e channels
  message_event see e (InMessage.ban_entries items) = push_all ban_event e items
  message_event see e (InMessage.complaints items) = push_all complain_event e items
  message_event see e (InMessage.client_server_group_added items) = push_all added_event e items
  message_event see e (InMessage.client_server_group_removed items) = push_all removed_event e items
  message_event see e (InMessage.command_errors errors) = for_each (command_failed see.now) e errors
  message_event see e InMessage.other_message = e

  -- The jitter that is shown, 0 where there is no session.
  pub jitter_of : Engine Tx → ℕ
  jitter_of e = elim (session e conn_id) [ none ↦ 0 | some st ↦ st.jitter_ms ]

  -- The share of lost packets is multiplied by 100.0.
  unfoldable pub network_stats_updated : Floats → Engine Tx → NetworkStats → Engine Tx
  unfolding note_rtt jitter_of
  network_stats_updated f32 e stats =
      let noted = update_state e conn_id (note_rtt (millis stats.rtt)) in
      push_event noted conn_id (
        network_stats (millis stats.rtt) (millis stats.rtt_dev) (jitter_of noted)
          (f32.mul stats.packetloss 0x42c8_0000) (as_u64 (sum (in_kinds stats.total_bytes)))
          (as_u64 (sum (out_kinds stats.total_bytes))) (as_u64 (sum (in_kinds stats.total_packets)))
          (as_u64 (sum (out_kinds stats.total_packets)))
          (as_u64 (sum_rows in_kinds stats.last_second_bytes))
          (as_u64 (sum_rows out_kinds stats.last_second_bytes)))

  unfoldable pub handle_control_item : Floats → Sight → Engine Tx → StreamItem → Engine Tx
  unfolding book_event message_event network_stats_updated error_event temporary_text
  handle_control_item f32 see e (StreamItem.book_events events) = for_each (book_event see) e events
  handle_control_item f32 see e (StreamItem.message_event message) = message_event see e message
  handle_control_item f32 see e (StreamItem.message_result none) = e
  handle_control_item f32 see e (StreamItem.message_result (some failed)) =
      push_event e conn_id (error_event failed)
  handle_control_item f32 see e StreamItem.network_stats_updated = elim see.stats [
    | none ↦ e
    | some stats ↦ network_stats_updated f32 e stats
  ]
  handle_control_item f32 see e (StreamItem.file_download handle) =
      (take_download e conn_id handle).0
  handle_control_item f32 see e (StreamItem.file_upload handle) = (take_upload e conn_id handle).0
  handle_control_item f32 see e (StreamItem.filetransfer_failed handle) =
      transfer_failed e conn_id handle
  handle_control_item f32 see e (StreamItem.disconnected_temporarily reason) =
      push_event e conn_id (error (temporary_text reason))
  handle_control_item f32 see e StreamItem.other_item = e
