-- ===== src/EventLoop/Asked.antt =====
-- What the user asks for and what the server is told, from an entry point of native/src/api.rs to the
-- wire.
pub mod Commands
pub mod Rounds
use Prim.Native.Nat.{ℕ, ◌+◌, ◌≤◌, ◌<◌, ◌^◌}
use beta.Base.{
  Bool, true, false, Option, none, some, List, [], ◌∷◌, ◌++◌, Text, find, length, nat_equal, ◌==◌,
  ◌≡◌, ◌≢◌, refl, sym, ap, ◌∙◌, arith,
}
use beta.Base.Map
use beta.Base.Word.{pos, as_u16, u16_max}
use beta.Text.{CString, trim, opt_cstr, optional_reason, non_empty, or_empty}
use beta.Command.{
  Command, add_client_to_group, ban_client, delete_channel, delete_file, kick_client, move_channel,
  poke_client, remove_client_from_group, send_message, set_away, set_muted, set_nickname,
  set_talker, subscribe_channel, use_token,
}
use beta.Events.{TsClient}
use beta.Budget.Invariant.{IsValid}
use beta.Engine.{Engine, Session, TsConnection, session, is_connected, own_client_id, update}
use beta.Engine.Laws.{get-update}
use beta.Requests.Queue.{nonzero, send_to, queue_command}
use beta.Requests.Moderation.{database_id_of}
use beta.Requests.Calls.{
  Request, call, adds_to_group, bans, channel_message, deletes_channel, deletes_file, kicks,
  move_to_channel, pokes, private_message, removes_from_group, server_message, sets_away,
  sets_muted, sets_nickname, sets_talker, subscribes, unsubscribes, uses_token,
}
use beta.Requests.Admission.Accepted.{
  Asks, call-Asks, asks_channel_message, asks_private_message, asks_server_message, asks_move,
  asks_subscription, asks_unsubscription, asks_deletion, asks_kick, asks_ban, asks_group_addition,
  asks_group_removal, asks_silence, asks_poke, asks_nickname, asks_away, asks_mute,
  asks_file_deletion, asks_token,
}
use beta.EventLoop.Wire.{Message, Target, Sent, message}
use beta.EventLoop.Messages.{message_of, no_update}
use beta.EventLoop.Execute.{World, Outside}
use beta.EventLoop.Round.{Moment, is_direct, round}
use beta.EventLoop.Pace.{controls}
use beta.EventLoop.Delivery.{round_delivers}

-- `Means st r m`: in the state `st` the user asks with `r` for what the message `m` tells the server.
pub data Means (st : TsConnection) : Request → Message → Type 0 where
  says_in_channel :
      (cid : ℕ) (text : Text)
      → 0 < length text
      → Means st
          (channel_message cid (some text))
          (Message.send_text_message Target.channel none text)
  says_to_client :
      (client_id : ℕ) (text : Text)
      → 0 < client_id
      → client_id < 65536
      → 0 < length text
      → Means st
          (private_message client_id (some text))
          (Message.send_text_message Target.client (some client_id) text)
  says_on_server :
      (text : Text)
      → 0 < length text
      → Means st (server_message (some text)) (Message.send_text_message Target.server none text)
  goes_to_open_channel :
      (cid : ℕ)
      → st.own_client_id < 65536
      → Means st (move_to_channel cid none) (Message.client_move st.own_client_id cid none)
  goes_to_closed_channel :
      (cid : ℕ) (password : Text)
      → st.own_client_id < 65536
      → 0 < length password
      → Means st
          (move_to_channel cid (some password))
          (Message.client_move st.own_client_id cid (some password))
  wants_channel :
      (channel_id : ℕ)
      → 0 < channel_id
      → Means st (subscribes channel_id) (Message.channel_subscribe channel_id)
  leaves_channel :
      (channel_id : ℕ)
      → 0 < channel_id
      → Means st (unsubscribes channel_id) (Message.channel_unsubscribe channel_id)
  deletes_empty :
      (channel_id : ℕ)
      → 0 < channel_id
      → Means st (deletes_channel channel_id 0) (Message.channel_delete channel_id false)
  kicks_from_channel :
      (client_id : ℕ)
      → 0 < client_id
      → client_id ≢ st.own_client_id
      → Means st (kicks client_id 0 none) (Message.client_kick client_id false none)
  kicks_from_server :
      (client_id : ℕ) (why reason : Text)
      → 0 < client_id
      → client_id ≢ st.own_client_id
      → optional_reason (some why) ≡ some reason
      → Means st (kicks client_id 1 (some why)) (Message.client_kick client_id true (some reason))
  bans_for_ever :
      (client_id : ℕ)
      → 0 < client_id
      → client_id ≢ st.own_client_id
      → Means st (bans client_id 0 none) (Message.ban_client client_id none none)
  bans_for :
      (client_id seconds : ℕ)
      → 0 < client_id
      → client_id ≢ st.own_client_id
      → 0 < seconds
      → seconds < 2 ^ 63
      → Means st
          (bans client_id seconds none)
          (Message.ban_client client_id (some (pos seconds)) none)
  gives_group :
      (client_id group_id : ℕ) (c : TsClient)
      → 0 < group_id
      → find (λ x. as_u16 x.id == client_id) st.clients ≡ some c
      → 0 < c.database_id
      → Means st
          (adds_to_group client_id group_id)
          (Message.server_group_add_client group_id c.database_id)
  takes_group :
      (client_id group_id : ℕ) (c : TsClient)
      → 0 < group_id
      → find (λ x. as_u16 x.id == client_id) st.clients ≡ some c
      → 0 < c.database_id
      → Means st
          (removes_from_group client_id group_id)
          (Message.server_group_del_client group_id c.database_id)
  silences :
      (client_id : ℕ)
      → 0 < client_id
      → client_id ≢ st.own_client_id
      → Means st (sets_talker client_id 0) (Message.client_edit client_id false)
  gives_the_word :
      (client_id : ℕ)
      → 0 < client_id
      → client_id ≢ st.own_client_id
      → Means st (sets_talker client_id 1) (Message.client_edit client_id true)
  nudges :
      (client_id : ℕ) (typed text : Text)
      → 0 < client_id
      → optional_reason (some typed) ≡ some text
      → Means st (pokes client_id (some typed)) (Message.client_poke_request client_id text)
  takes_name :
      (typed name : Text)
      → trim typed ≡ name
      → 3 ≤ length name
      → length name ≤ 30
      → Means st
          (sets_nickname (some typed))
          (Message.client_update (record no_update { name = some name }))
  goes_away :
      (typed text : Text)
      → opt_cstr (some typed) 200 ≡ some text
      → Means st (sets_away 1 (some typed)) (
          Message.client_update
            (record no_update { is_away = some true; away_message = some text }))
  comes_back :
      (typed : CString)
      → Means st (sets_away 0 typed) (
          Message.client_update (record no_update { is_away = some false; away_message = some [] }))
  mutes_microphone : Means st (sets_muted 1 0) (
      Message.client_update
        (record no_update { input_muted = some true; output_muted = some false }))
  deletes_a_file :
      (channel_id : ℕ) (typed path : Text)
      → trim typed ≡ path
      → 0 < length path
      → Means st
          (deletes_file channel_id (some typed) none)
          (Message.delete_file channel_id [] path)
  uses_key :
      (typed token : Text)
      → trim typed ≡ token
      → 0 < length token
      → Means st (uses_token (some typed)) (Message.privilege_key_use token)

-- The channel of tokio while the event loop is there: it takes every command and keeps the order.
abbrev pub keeps : List Command → Command → Option (List Command)
keeps cs c = some (cs ++ c ∷ [])

-- What waits in the channel of a session.
abbrev pub waiting_in : Engine (List Command) → (conn_id : ℕ) → List Command
waiting_in e conn_id = elim (Map.get conn_id e.sessions) [
  | none ↦ []
  | some s ↦ elim s.command_tx [ none ↦ [] | some cs ↦ cs ]
]
