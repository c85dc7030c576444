-- ===== src/Requests/Admission/Moderation.antt =====
-- The entry points of moderation refuse, or send one allowed command.
use Prim.Native.Nat.{ℕ}
use beta.Base.{
  Bool, false, ◌||◌, ◌&&◌, not, Option, none, some, Text, is_empty, ◌==◌, ◌≡◌, ◌≢◌, ◌⊎◌, arith, inl,
  inr, length_pos, subst,
}
use beta.Text.{CString, trim, opt_cstr, optional_reason}
use beta.Text.Laws.{AtMost, opt_cstr-AtMost, optional_reason-AtMost}
use beta.Command.{
  Command, kick_client, ban_client, ban_uid, ban_address, ban_delete, list_bans,
  add_client_to_group, remove_client_from_group, complain_add, set_talker, poke_client,
  move_channel,
}
use beta.Requests.Queue.{nonzero}
use beta.Engine.{Engine, is_connected, own_client_id}
use beta.Requests.Moderation.{
  filtered, is_none, database_id_of, ts_kick_client, ts_ban_client, ts_ban_uid, ts_ban_address,
  ts_ban_delete, ts_list_bans, ts_add_client_to_group, ts_remove_client_from_group, ts_complain_add,
  ts_set_talker, ts_poke_client, ts_move_client,
}
use beta.Requests.Admission.{Given, Effect, refuse, refuse_if, refuse_none, queue_command-Effect}

ne_of_test : (a b : ℕ) → (a == b) ≡ false → a ≢ b
ne_of_test a b h = ground arith

neither : (b : Bool) (n : ℕ) → (b || n == 0) ≡ false → (b ≡ false) × (n ≢ 0)
neither b n h = ground arith

neither_zero : (a b : ℕ) → (a == 0 || b == 0) ≡ false → (a ≢ 0) × (b ≢ 0)
neither_zero a b h = ground arith

filtered-AtMost : (p : Text → Bool) (n : ℕ) (o : Option Text) → AtMost n o → AtMost n (filtered p o)
filtered-AtMost p n none h = tt
filtered-AtMost p n (some s) h = ground arith

given : (o : Option Text) (n : ℕ) → AtMost n o → is_none o ≡ false → Given o
given none n h some_ = cc
given (some s) n h some_ = h.0

either-Given :
    (ip name : Option Text)
    → AtMost 64 ip
    → AtMost 64 name
    → (is_none ip && is_none name) ≡ false
    → Given ip ⊎ Given name
either-Given none none hi hn t = cc
either-Given none (some s) hi hn t = inr hn.0
either-Given (some s) name hi hn t = inl hi.0

module _ {Tx : Type 0} (send : Tx → Command → Option Tx) (e : Engine Tx) (conn_id : ℕ) where
  pub ts_kick_client-Effect :
      (client_id from_server : ℕ) (reason : CString)
      → Effect send e conn_id (ts_kick_client send e conn_id client_id from_server reason)
  unfolding ts_kick_client
  ts_kick_client-Effect client_id from_server reason =
      refuse_if send e conn_id (client_id == 0) λ nz.
        refuse_if send e conn_id (not (is_connected e conn_id)) λ on.
          refuse_if send e conn_id (client_id == own_client_id e conn_id) λ other.
            queue_command-Effect send e conn_id
              (kick_client client_id (nonzero from_server) (optional_reason reason)) on
              (
                (ne_of_test client_id 0 nz, ne_of_test client_id (own_client_id e conn_id) other),
                optional_reason-AtMost reason,
              )

  pub ts_ban_client-Effect :
      (client_id seconds : ℕ) (reason : CString)
      → Effect send e conn_id (ts_ban_client send e conn_id client_id seconds reason)
  unfolding ts_ban_client
  ts_ban_client-Effect client_id seconds reason = refuse_if send e conn_id (client_id == 0) λ nz.
      refuse_if send e conn_id (not (is_connected e conn_id)) λ on.
        refuse_if send e conn_id (client_id == own_client_id e conn_id) λ other.
          queue_command-Effect send e conn_id
            (ban_client client_id seconds (optional_reason reason)) on
            (
              (ne_of_test client_id 0 nz, ne_of_test client_id (own_client_id e conn_id) other),
              optional_reason-AtMost reason,
            )

  pub ts_set_talker-Effect :
      (client_id talk_power_granted : ℕ)
      → Effect send e conn_id (ts_set_talker send e conn_id client_id talk_power_granted)
  unfolding ts_set_talker
  ts_set_talker-Effect client_id talk_power_granted =
      refuse_if send e conn_id (client_id == 0) λ nz.
        refuse_if send e conn_id (not (is_connected e conn_id)) λ on.
          refuse_if send e conn_id (client_id == own_client_id e conn_id) λ other.
            queue_command-Effect send e conn_id (set_talker client_id (nonzero talk_power_granted))
              on (ne_of_test client_id 0 nz, ne_of_test client_id (own_client_id e conn_id) other)

  pub ts_ban_uid-Effect :
      (uid : CString) (seconds : ℕ) (reason : CString)
      → Effect send e conn_id (ts_ban_uid send e conn_id uid seconds reason)
  unfolding ts_ban_uid
  ts_ban_uid-Effect none seconds reason = refuse send e conn_id
  ts_ban_uid-Effect (some uid) seconds reason = refuse_if send e conn_id (is_empty (trim uid)) λ g.
      refuse_if send e conn_id (not (is_connected e conn_id)) λ on.
        queue_command-Effect send e conn_id (ban_uid (trim uid) seconds (optional_reason reason)) on
          (length_pos (trim uid) g, optional_reason-AtMost reason)

  pub ts_ban_address-Effect :
      (is_ip_addr : Text → Bool) (ip name : CString) (seconds : ℕ) (reason : CString)
      → Effect send e conn_id (ts_ban_address send e conn_id is_ip_addr ip name seconds reason)
  unfolding ts_ban_address
  ts_ban_address-Effect is_ip_addr ip name seconds reason =
      let valid_ip = filtered is_ip_addr (opt_cstr ip 64) in
      let ip_fits =
        filtered-AtMost is_ip_addr 64 (opt_cstr ip 64) (opt_cstr-AtMost ip 64 (omega arith)) in
      let name_fits = opt_cstr-AtMost name 64 (omega arith) in
      refuse_if send e conn_id (not (is_connected e conn_id)) λ on.
        refuse_if send e conn_id (is_none valid_ip && is_none (opt_cstr name 64)) λ some_.
          queue_command-Effect send e conn_id
            (ban_address valid_ip (opt_cstr name 64) seconds (optional_reason reason)) on
            (
              either-Given valid_ip (opt_cstr name 64) ip_fits name_fits some_,
              ip_fits,
              name_fits,
              optional_reason-AtMost reason,
            )

  pub ts_ban_delete-Effect :
      (ban_id : ℕ) → Effect send e conn_id (ts_ban_delete send e conn_id ban_id)
  unfolding ts_ban_delete
  ts_ban_delete-Effect ban_id =
      refuse_if send e conn_id (not (is_connected e conn_id) || ban_id == 0) λ h.
        let (on, nz) = neither (not (is_connected e conn_id)) ban_id h in
        queue_command-Effect send e conn_id (ban_delete ban_id) on nz

  pub ts_list_bans-Effect : Effect send e conn_id (ts_list_bans send e conn_id)
  unfolding ts_list_bans
  ts_list_bans-Effect =
      refuse_if send e conn_id (not (is_connected e conn_id))
        λ on. queue_command-Effect send e conn_id list_bans on tt

  pub ts_add_client_to_group-Effect :
      (client_id group_id : ℕ)
      → Effect send e conn_id (ts_add_client_to_group send e conn_id client_id group_id)
  unfolding ts_add_client_to_group
  ts_add_client_to_group-Effect client_id group_id =
      refuse_if send e conn_id (not (is_connected e conn_id) || group_id == 0) λ h.
        let (on, nz) = neither (not (is_connected e conn_id)) group_id h in
        refuse_if send e conn_id (database_id_of e conn_id client_id == 0) λ known.
          queue_command-Effect send e conn_id
            (add_client_to_group (database_id_of e conn_id client_id) group_id) on
            (ne_of_test (database_id_of e conn_id client_id) 0 known, nz)

  pub ts_remove_client_from_group-Effect :
      (client_id group_id : ℕ)
      → Effect send e conn_id (ts_remove_client_from_group send e conn_id client_id group_id)
  unfolding ts_remove_client_from_group
  ts_remove_client_from_group-Effect client_id group_id =
      refuse_if send e conn_id (not (is_connected e conn_id) || group_id == 0) λ h.
        let (on, nz) = neither (not (is_connected e conn_id)) group_id h in
        refuse_if send e conn_id (database_id_of e conn_id client_id == 0) λ known.
          queue_command-Effect send e conn_id
            (remove_client_from_group (database_id_of e conn_id client_id) group_id) on
            (ne_of_test (database_id_of e conn_id client_id) 0 known, nz)

  pub ts_complain_add-Effect :
      (client_id : ℕ) (message : CString)
      → Effect send e conn_id (ts_complain_add send e conn_id client_id message)
  unfolding ts_complain_add
  ts_complain_add-Effect client_id none = refuse send e conn_id
  ts_complain_add-Effect client_id (some message) =
      refuse_if send e conn_id (not (is_connected e conn_id)) λ on.
        refuse_if send e conn_id (database_id_of e conn_id client_id == 0) λ known.
          refuse_none send e conn_id (optional_reason (some message)) λ text e'.
            queue_command-Effect send e conn_id
              (complain_add (database_id_of e conn_id client_id) text) on
              (
                ne_of_test (database_id_of e conn_id client_id) 0 known,
                subst (AtMost 200) e' (optional_reason-AtMost (some message)),
              )

  pub ts_poke_client-Effect :
      (client_id : ℕ) (message : CString)
      → Effect send e conn_id (ts_poke_client send e conn_id client_id message)
  unfolding ts_poke_client
  ts_poke_client-Effect client_id none = refuse send e conn_id
  ts_poke_client-Effect client_id (some message) = refuse_if send e conn_id (client_id == 0) λ nz.
      refuse_if send e conn_id (not (is_connected e conn_id)) λ on.
        refuse_none send e conn_id (optional_reason (some message)) λ text e'.
          queue_command-Effect send e conn_id (poke_client client_id text) on (
            ne_of_test client_id 0 nz,
            subst (AtMost 200) e' (optional_reason-AtMost (some message)),
          )

  pub ts_move_client-Effect :
      (client_id channel_id : ℕ) (password : CString)
      → Effect send e conn_id (ts_move_client send e conn_id client_id channel_id password)
  unfolding ts_move_client
  ts_move_client-Effect client_id channel_id password =
      refuse_if send e conn_id (client_id == 0 || channel_id == 0) λ h.
        refuse_if send e conn_id (not (is_connected e conn_id)) λ on.
          queue_command-Effect send e conn_id
            (move_channel client_id channel_id (optional_reason password)) on
            (inr (
              (neither_zero client_id channel_id h).0,
              (neither_zero client_id channel_id h).1,
              optional_reason-AtMost password,
            ))
