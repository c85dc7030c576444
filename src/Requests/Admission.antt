-- ===== src/Requests/Admission.antt =====
-- What an entry point of native/src/api.rs may do: refuse, and leave the engine as it was, or hand
-- one command to the session's channel. `IsAllowed` is the contract of the commands that it sends.
pub mod Chat
pub mod Channels
pub mod Moderation
pub mod Status
pub mod Files
pub mod Calls
pub mod Accepted
use Prim.Native.Nat.{ℕ, zero, suc, ◌≤◌, ◌<◌}
use beta.Base.{
  Bool, true, false, not, Option, none, some, List, length, nat_equal, if◌then◌else◌, ◌≡◌, ◌≢◌,
  refl, arith, ◌⊎◌, inl, inr, Option-cases, subst,
}
use beta.Base.Map
use beta.Base.Word.{Signed, is_positive, as_u16, u16_max}
use beta.Text.Laws.{AtMost}
use beta.Command.{
  Command, send_message, move_channel, set_muted, set_away, set_nickname, kick_client, ban_client,
  ban_uid, ban_address, ban_delete, list_bans, subscribe_channel, channel_description,
  add_client_to_group, remove_client_from_group, complain_add, set_talker, download_file,
  upload_file, request_file_list, delete_file, create_directory, rename_file, file_info_request,
  use_token, create_channel, edit_channel, delete_channel, move_channel_tree, poke_client,
  set_channel_commander, disconnect, send_audio,
}
use beta.Engine.{Engine, Session, is_connected, own_client_id, update}
use beta.Requests.Queue.{reject, let_some, send_to, queue_command}

negated_off : (b : Bool) → not b ≡ false → b ≡ true
negated_off true h = refl
negated_off false h = cc

-- The text is given and has a character.
abbrev pub Given : Option (List ℕ) → Type 0
Given none = ⊥
Given (some s) = 0 < length s

-- An optional number that is not 0.
abbrev pub NonzeroOption : Option ℕ → Type 0
NonzeroOption none = Unit {0}
NonzeroOption (some n) = n ≢ 0

abbrev pub PositiveOption : Option Signed → Type 0
PositiveOption none = Unit {0}
PositiveOption (some n) = is_positive n ≡ true

-- Another client than the own one.
abbrev pub OtherClient : ℕ → ℕ → Type 0
OtherClient own client_id = (client_id ≢ 0) × (client_id ≢ own)

-- What holds of a command on its way to the server, `own` being the own client. A file transfer
-- that waits for an answer is not among these; its entry points keep books of their own.
abbrev pub IsAllowed : ℕ → Command → Type 0
IsAllowed own (send_message target_mode target_cid message) =
    (0 < length message)
    × ((target_mode ≡ 1) × (target_cid ≢ 0) × (target_cid ≤ u16_max)
        ⊎ (target_mode ≡ 2) × (target_cid ≡ 0)
        ⊎ (target_mode ≡ 3) × (target_cid ≡ 0))
IsAllowed own (move_channel client_id channel_id password) =
    (client_id ≡ as_u16 own) ⊎ (client_id ≢ 0) × (channel_id ≢ 0) × AtMost 200 password
IsAllowed own (set_muted _ _) = Unit {0}
IsAllowed own (set_away _ message) = AtMost 200 message
IsAllowed own (set_nickname name) = (3 ≤ length name) × (length name ≤ 30)
IsAllowed own (kick_client client_id _ reason) = OtherClient own client_id × AtMost 200 reason
IsAllowed own (ban_client client_id _ reason) = OtherClient own client_id × AtMost 200 reason
IsAllowed own (ban_uid uid _ reason) = (0 < length uid) × AtMost 200 reason
IsAllowed own (ban_address ip name _ reason) =
    (Given ip ⊎ Given name) × AtMost 64 ip × AtMost 64 name × AtMost 200 reason
IsAllowed own (ban_delete ban_id) = ban_id ≢ 0
IsAllowed own list_bans = Unit {0}
IsAllowed own (subscribe_channel channel_id _) = channel_id ≢ 0
IsAllowed own (channel_description channel_id) = channel_id ≢ 0
IsAllowed own (add_client_to_group db_id group_id) = (db_id ≢ 0) × (group_id ≢ 0)
IsAllowed own (remove_client_from_group db_id group_id) = (db_id ≢ 0) × (group_id ≢ 0)
IsAllowed own (complain_add db_id message) = (db_id ≢ 0) × AtMost 200 (some message)
IsAllowed own (set_talker client_id _) = OtherClient own client_id
IsAllowed own (download_file _ _ _ _) = ⊥
IsAllowed own (upload_file _ _ _ _ _ _ _) = ⊥
IsAllowed own (request_file_list _ _ _ _) = ⊥
IsAllowed own (delete_file _ _ path) = 0 < length path
IsAllowed own (create_directory _ _ path) = 0 < length path
IsAllowed own (rename_file _ _ target _ old_name new_name) =
    NonzeroOption target × (0 < length old_name) × (0 < length new_name)
IsAllowed own (file_info_request _ _ _ _) = ⊥
IsAllowed own (use_token token) = 0 < length token
IsAllowed own (create_channel _ name topic description password max_clients _ _) =
    AtMost 40 (some name)
    × AtMost 2000 topic
    × AtMost 2000 description
    × AtMost 64 password
    × PositiveOption max_clients
IsAllowed own (edit_channel channel_id name topic description password _ max_clients _ _) =
    (channel_id ≢ 0)
    × AtMost 40 name
    × AtMost 2000 topic
    × AtMost 2000 description
    × AtMost 64 password
    × PositiveOption max_clients
IsAllowed own (delete_channel channel_id _) = channel_id ≢ 0
IsAllowed own (move_channel_tree channel_id _ order) = (channel_id ≢ 0) × NonzeroOption order
IsAllowed own (poke_client client_id message) = (client_id ≢ 0) × AtMost 200 (some message)
IsAllowed own (set_channel_commander _) = Unit {0}
IsAllowed own disconnect = ⊥
IsAllowed own (send_audio samples) = 0 < length samples

module _ {Tx : Type 0} (send : Tx → Command → Option Tx) (e : Engine Tx) (conn_id : ℕ) where
  -- What an entry point returns: the engine after it, and a status or an id.
  pub data Effect (result : Engine Tx × ℕ) : Type 0 where
    refused : result ≡ reject e → Effect result
    sent :
        (s : Session Tx) (c : Command) (tx : Tx)
        → Map.get conn_id e.sessions ≡ some s
        → s.state.connected ≡ true
        → IsAllowed s.state.own_client_id c
        → send_to send s c ≡ some tx
        → result ≡ (update e conn_id (λ s'. record s' { command_tx = some tx }), 1)
        → Effect result

  pub refuse : Effect (reject e)
  refuse = refused refl

  pub refuse_if :
      (test : Bool) {result : Engine Tx × ℕ}
      → (test ≡ false → Effect result)
      → Effect (if test then reject e else result)
  refuse_if true rest = refused refl
  refuse_if false rest = rest refl

  pub refuse_none {ℓ} :
      {A : Type ℓ} (option : Option A) {rest : A → Engine Tx × ℕ}
      → ((a : A) → option ≡ some a → Effect (rest a))
      → Effect (let_some e option rest)
  refuse_none none rest = refused refl
  refuse_none (some a) rest = rest a refl

  own_found :
      (s : Session Tx)
      → Map.get conn_id e.sessions ≡ some s
      → own_client_id e conn_id ≡ s.state.own_client_id
  unfolding own_client_id
  own_found s found = rw (found, own_client_id)

  pub connected_found :
      (s : Session Tx)
      → Map.get conn_id e.sessions ≡ some s
      → not (is_connected e conn_id) ≡ false
      → s.state.connected ≡ true
  unfolding is_connected
  connected_found s found on = negated_off s.state.connected (rw (found, is_connected) at on)

  -- The commands that pass the guards are queued in a connected session.
  pub queue_command-Effect :
      (c : Command)
      → not (is_connected e conn_id) ≡ false
      → IsAllowed (own_client_id e conn_id) c
      → Effect (queue_command send e conn_id c)
  unfolding queue_command is_connected own_client_id
  queue_command-Effect c on allowed = elim (Option-cases (Map.get conn_id e.sessions)) [
    | inl gone ↦ rw (gone, queue_command) (refused refl)
    | inr (s, found) ↦ elim (Option-cases (send_to send s c)) [
      | inl closed ↦ rw (found, closed, queue_command) (refused refl)
      | inr (tx, open_) ↦
          sent s c tx found (connected_found s found on)
            (subst (λ own. IsAllowed own c) (own_found s found) allowed) open_
            (rw (found, queue_command) (rw (open_, queue_command)))
    ]
  ]
