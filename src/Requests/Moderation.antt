-- ===== src/Requests/Moderation.antt =====
-- native/src/api.rs: moderation. The server checks the permissions.
use Prim.Native.Nat.{ℕ}
use beta.Base.{
  Bool, true, false, ◌||◌, ◌&&◌, not, Option, none, some, Text, find, is_empty, ◌==◌, if◌then◌else◌,
}
use beta.Base.Word.{as_u16}
use beta.Text.{CString, trim, opt_cstr, optional_reason}
use beta.Command.{
  Command, kick_client, ban_client, ban_uid, ban_address, ban_delete, list_bans,
  add_client_to_group, remove_client_from_group, complain_add, set_talker, poke_client,
  move_channel,
}
use beta.Engine.{Engine, session, is_connected, own_client_id}
use beta.Requests.Queue.{reject, let_some, queue_command, nonzero}

-- `Option::filter`, `Option::is_none`.
abbrev pub filtered {ℓ} : {A : Type ℓ} → (A → Bool) → Option A → Option A
filtered p none = none
filtered p (some a) = if p a then some a else none

abbrev pub is_none {ℓ} : {A : Type ℓ} → Option A → Bool
is_none none = true
is_none (some a) = false

-- The database id of the client with this id in the roster, or 0.
unfoldable pub database_id_of : {Tx : Type 0} → Engine Tx → ℕ → ℕ → ℕ
database_id_of e conn_id client_id = elim (session e conn_id) [
  | none ↦ 0
  | some st ↦ elim (find (λ c. as_u16 c.id == client_id) st.clients) [
    | none ↦ 0
    | some c ↦ c.database_id
  ]
]

module _ {Tx : Type 0} (send : Tx → Command → Option Tx) (e : Engine Tx) (conn_id : ℕ) where
  unfoldable pub ts_kick_client : (client_id from_server : ℕ) (reason : CString) → Engine Tx × ℕ
  ts_kick_client client_id from_server reason =
      if client_id == 0
      then reject e
      else if not (is_connected e conn_id)
      then reject e
      else if client_id == own_client_id e conn_id
      then reject e
      else queue_command send e conn_id
          (kick_client client_id (nonzero from_server) (optional_reason reason))

  unfoldable pub ts_ban_client : (client_id seconds : ℕ) (reason : CString) → Engine Tx × ℕ
  ts_ban_client client_id seconds reason =
      if client_id == 0
      then reject e
      else if not (is_connected e conn_id)
      then reject e
      else if client_id == own_client_id e conn_id
      then reject e
      else queue_command send e conn_id (ban_client client_id seconds (optional_reason reason))

  unfoldable pub ts_ban_uid : (uid : CString) (seconds : ℕ) (reason : CString) → Engine Tx × ℕ
  ts_ban_uid none seconds reason = reject e
  ts_ban_uid (some uid) seconds reason =
      if is_empty (trim uid)
      then reject e
      else if not (is_connected e conn_id)
      then reject e
      else queue_command send e conn_id (ban_uid (trim uid) seconds (optional_reason reason))

  unfoldable pub ts_ban_address :
      (is_ip_addr : Text → Bool) (ip name : CString) (seconds : ℕ) (reason : CString)
      → Engine Tx × ℕ
  ts_ban_address is_ip_addr ip name seconds reason =
      if not (is_connected e conn_id)
      then reject e
      else if is_none (filtered is_ip_addr (opt_cstr ip 64)) && is_none (opt_cstr name 64)
      then reject e
      else queue_command send e conn_id (
          ban_address (filtered is_ip_addr (opt_cstr ip 64)) (opt_cstr name 64) seconds
            (optional_reason reason))

  unfoldable pub ts_ban_delete : (ban_id : ℕ) → Engine Tx × ℕ
  ts_ban_delete ban_id =
      if not (is_connected e conn_id) || ban_id == 0
      then reject e
      else queue_command send e conn_id (ban_delete ban_id)

  unfoldable pub ts_list_bans : Engine Tx × ℕ
  ts_list_bans =
      if not (is_connected e conn_id) then reject e else queue_command send e conn_id list_bans

  unfoldable pub ts_add_client_to_group : (client_id group_id : ℕ) → Engine Tx × ℕ
  ts_add_client_to_group client_id group_id =
      if not (is_connected e conn_id) || group_id == 0
      then reject e
      else if database_id_of e conn_id client_id == 0
      then reject e
      else queue_command send e conn_id
          (add_client_to_group (database_id_of e conn_id client_id) group_id)

  unfoldable pub ts_remove_client_from_group : (client_id group_id : ℕ) → Engine Tx × ℕ
  ts_remove_client_from_group client_id group_id =
      if not (is_connected e conn_id) || group_id == 0
      then reject e
      else if database_id_of e conn_id client_id == 0
      then reject e
      else queue_command send e conn_id
          (remove_client_from_group (database_id_of e conn_id client_id) group_id)

  unfoldable pub ts_complain_add : (client_id : ℕ) (message : CString) → Engine Tx × ℕ
  ts_complain_add client_id none = reject e
  ts_complain_add client_id (some message) =
      if not (is_connected e conn_id)
      then reject e
      else if database_id_of e conn_id client_id == 0
      then reject e
      else let_some e (optional_reason (some message)) λ text.
        queue_command send e conn_id (complain_add (database_id_of e conn_id client_id) text)

  unfoldable pub ts_set_talker : (client_id talk_power_granted : ℕ) → Engine Tx × ℕ
  ts_set_talker client_id talk_power_granted =
      if client_id == 0
      then reject e
      else if not (is_connected e conn_id)
      then reject e
      else if client_id == own_client_id e conn_id
      then reject e
      else queue_command send e conn_id (set_talker client_id (nonzero talk_power_granted))

  unfoldable pub ts_poke_client : (client_id : ℕ) (message : CString) → Engine Tx × ℕ
  ts_poke_client client_id none = reject e
  ts_poke_client client_id (some message) =
      if client_id == 0
      then reject e
      else if not (is_connected e conn_id)
      then reject e
      else let_some e (optional_reason (some message))
          λ text. queue_command send e conn_id (poke_client client_id text)

  unfoldable pub ts_move_client : (client_id channel_id : ℕ) (password : CString) → Engine Tx × ℕ
  ts_move_client client_id channel_id password =
      if client_id == 0 || channel_id == 0
      then reject e
      else if not (is_connected e conn_id)
      then reject e
      else queue_command send e conn_id
          (move_channel client_id channel_id (optional_reason password))
