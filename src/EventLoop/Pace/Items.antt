-- ===== src/EventLoop/Pace/Items.antt =====
-- The items of the connection and the voice that arrives leave the budget of the session alone, but
-- for the errors that tell of flooding.
use Prim.Native.Nat.{ℕ, ◌≤◌}
use beta.Base.{
  true, if◌then◌else◌, none, some, [], nat_equal, ◌≡◌, refl, arith, inl, inr, Option-cases,
}
use beta.Budget.{CommandBudget}
use beta.Engine.{Engine, AudioKey, push_event}
use beta.Base.Word.{saturating_add_u64}
use beta.Whisper.{whisper_is_allowed}
use beta.EventLoop.Vad.{Floats}
use beta.EventLoop.Incoming.{InMessage, StreamItem, BookEvent, NetworkStats, note_rtt, millis}
use beta.EventLoop.Handlers.{
  Sight, book_event, store_hint, command_failed, message_event, network_stats_updated,
  handle_control_item, text_message_event, token_event, ban_event, complain_event, added_event,
  removed_event, description_event,
}
use beta.EventLoop.Hearing.{
  Buffers, VoiceIn, Decoded, mono, stereo, garbled, enter_decoders, add_key, note_talk, play,
  decode_to_client_buffer,
}
use beta.EventLoop.Pace.{budget_of, Leads, budget_of-update}
use beta.EventLoop.Pace.Handled.{
  Leads-kept, Leads-for_each, Leads-update, Leads-push_event, Leads-command_failed, Leads-refresh,
  Leads-take_download, Leads-take_upload, Leads-transfer_failed, Leads-file_list,
  Leads-file_list_finished, Leads-file_info, Leads-push_all,
}
use beta.Transfers.{take_download}

module _ {Tx : Type 0} (conn_id t : ℕ) (see : Sight) where
  Leads-book_event :
      (b : CommandBudget) (e : Engine Tx) (event : BookEvent)
      → budget_of conn_id e ≡ some b
      → Leads conn_id t b [] (book_event conn_id see e event)
  unfolding book_event
  Leads-book_event b e (BookEvent.message target name id text) h =
      Leads-push_event conn_id t _ b e h
  Leads-book_event b e BookEvent.changed h = elim (Option-cases see.book) [
    | inl unknown ↦ rw (unknown, book_event) (Leads-kept conn_id t b e e refl h)
    | inr (book, known) ↦ rw (known, book_event) (Leads-refresh conn_id t see book b e h)
  ]

  Leads-message_event :
      see.now ≤ t
      → (b : CommandBudget) (e : Engine Tx) (message : InMessage) → budget_of conn_id e ≡ some b
      → Leads conn_id t b [] (message_event conn_id see e message)
  unfolding message_event store_hint
  Leads-message_event early b e (InMessage.text_messages xs) h =
      Leads-push_all conn_id t text_message_event b e xs h
  Leads-message_event early b e (InMessage.file_downloads handles) h =
      Leads-for_each conn_id t (λ e' handle. (take_download e' conn_id handle).0)
        (λ b' e' handle h'. Leads-take_download conn_id t b' e' handle h') b e handles h
  Leads-message_event early b e (InMessage.client_permission_hints hints) h =
      Leads-for_each conn_id t (store_hint conn_id)
        (λ b' e' hint h'. Leads-update conn_id t b' e' _ (λ s. refl) h') b e hints h
  Leads-message_event early b e (InMessage.file_lists xs) h = Leads-file_list conn_id t b e xs h
  Leads-message_event early b e (InMessage.file_lists_finished xs) h =
      Leads-file_list_finished conn_id t b e xs h
  Leads-message_event early b e (InMessage.file_infos xs) h = Leads-file_info conn_id t b e xs h
  Leads-message_event early b e (InMessage.tokens_used xs) h =
      Leads-push_all conn_id t token_event b e xs h
  Leads-message_event early b e (InMessage.channel_descriptions_changed xs) h =
      Leads-push_all conn_id t (description_event see.book) b e xs h
  Leads-message_event early b e (InMessage.ban_entries xs) h =
      Leads-push_all conn_id t ban_event b e xs h
  Leads-message_event early b e (InMessage.complaints xs) h =
      Leads-push_all conn_id t complain_event b e xs h
  Leads-message_event early b e (InMessage.client_server_group_added xs) h =
      Leads-push_all conn_id t added_event b e xs h
  Leads-message_event early b e (InMessage.client_server_group_removed xs) h =
      Leads-push_all conn_id t removed_event b e xs h
  Leads-message_event early b e (InMessage.command_errors xs) h =
      Leads-for_each conn_id t (command_failed conn_id see.now)
        (λ b' e' failed h'. Leads-command_failed conn_id t see.now early b' e' failed h') b e xs h
  Leads-message_event early b e InMessage.other_message h = Leads-kept conn_id t b e e refl h

  Leads-network_stats_updated :
      (f32 : Floats) (b : CommandBudget) (e : Engine Tx) (stats : NetworkStats)
      → budget_of conn_id e ≡ some b
      → Leads conn_id t b [] (network_stats_updated conn_id f32 e stats)
  unfolding network_stats_updated push_event
  Leads-network_stats_updated f32 b e stats h =
      Leads-update conn_id t b e (λ s. record s { state = note_rtt (millis stats.rtt) s.state })
        (λ s. refl) h

  pub Leads-handle_control_item :
      (f32 : Floats)
      → see.now ≤ t
      → (b : CommandBudget) (e : Engine Tx) (item : StreamItem) → budget_of conn_id e ≡ some b
      → Leads conn_id t b [] (handle_control_item conn_id f32 see e item)
  unfolding handle_control_item
  Leads-handle_control_item f32 early b e (StreamItem.book_events events) h =
      Leads-for_each conn_id t (book_event conn_id see)
        (λ b' e' event h'. Leads-book_event b' e' event h') b e events h
  Leads-handle_control_item f32 early b e (StreamItem.message_event message) h =
      Leads-message_event early b e message h
  Leads-handle_control_item f32 early b e (StreamItem.message_result none) h =
      Leads-kept conn_id t b e e refl h
  Leads-handle_control_item f32 early b e (StreamItem.message_result (some failed)) h =
      Leads-push_event conn_id t _ b e h
  Leads-handle_control_item f32 early b e StreamItem.network_stats_updated h =
      elim (Option-cases see.stats) [
        | inl unknown ↦ rw (unknown, handle_control_item) (Leads-kept conn_id t b e e refl h)
        | inr (stats, known) ↦
            rw (known, handle_control_item) (Leads-network_stats_updated f32 b e stats h)
      ]
  Leads-handle_control_item f32 early b e (StreamItem.file_download handle) h =
      Leads-take_download conn_id t b e handle h
  Leads-handle_control_item f32 early b e (StreamItem.file_upload handle) h =
      Leads-take_upload conn_id t b e handle h
  Leads-handle_control_item f32 early b e (StreamItem.filetransfer_failed handle) h =
      Leads-transfer_failed conn_id t b e handle h
  Leads-handle_control_item f32 early b e (StreamItem.disconnected_temporarily reason) h =
      Leads-push_event conn_id t _ b e h
  Leads-handle_control_item f32 early b e StreamItem.other_item h =
      Leads-kept conn_id t b e e refl h

module _ {Tx : Type 0} (conn_id : ℕ) where
  whisper_is_allowed-budget :
      (e : Engine Tx) (from_id : ℕ)
      → budget_of conn_id (whisper_is_allowed e conn_id from_id).0 ≡ budget_of conn_id e
  unfolding whisper_is_allowed
  whisper_is_allowed-budget e from_id = ground (
    arith,
    budget_of-update conn_id e conn_id
        (λ s. record s {
          state = record s.state {
            whisper_ignored_count = saturating_add_u64 s.state.whisper_ignored_count 1;
          };
        })
        (λ s. refl),
  )

  enter_decoders-budget :
      (key : AudioKey) (decoded : Decoded) (e : Engine Tx)
      → budget_of conn_id (enter_decoders conn_id key decoded e) ≡ budget_of conn_id e
  unfolding enter_decoders
  enter_decoders-budget key (mono frame) e = refl
  enter_decoders-budget key (stereo frame) e = refl
  enter_decoders-budget key garbled e = refl

  play-budget :
      (gain_of : ℕ → ℕ) (now played : ℕ) (e : Engine Tx) (buffers : Buffers) (packet : VoiceIn)
      → budget_of conn_id (play conn_id gain_of now played e buffers packet).0 ≡ budget_of conn_id e
  unfolding play
  play-budget gain_of now played e buffers packet =
      let key : AudioKey = (conn_id, packet.from_id) in
      let e' : Engine Tx = record e { client_buffers = add_key key e.client_buffers } in
      ground (
        arith,
        budget_of-update conn_id e' conn_id
            (λ s. record s { state = note_talk now packet.from_id packet.is_whisper s.state })
            (λ s. refl),
      )

  pub decode_to_client_buffer-budget :
      (gain_of : ℕ → ℕ) (now played : ℕ) (e : Engine Tx) (buffers : Buffers) (packet : VoiceIn)
      → budget_of conn_id (decode_to_client_buffer conn_id gain_of now played e buffers packet).0
        ≡ budget_of conn_id e
  unfolding decode_to_client_buffer
  decode_to_client_buffer-budget gain_of now played e buffers packet =
      let checked : Engine Tx =
        (if packet.is_whisper then whisper_is_allowed e conn_id packet.from_id else (e, true)).0 in
      let entered = enter_decoders conn_id (conn_id, packet.from_id) packet.decoded checked in
      ground (
        arith,
        whisper_is_allowed-budget e packet.from_id,
        enter_decoders-budget (conn_id, packet.from_id) packet.decoded checked,
        play-budget gain_of now played entered buffers packet,
      )
