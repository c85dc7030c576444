-- ===== src/Requests/Admission/Channels.antt =====
-- The entry points of channel administration refuse, or send one allowed command.
use Prim.Native.Nat.{ℕ}
use beta.Base.{Bool, true, false, ◌||◌, not, Option, ltb, ◌==◌, ◌≡◌, ◌≢◌, arith, subst}
use beta.Base.Word.{Signed, pos, negsuc, is_positive, is_nonnegative, is_nonzero}
use beta.Text.{CString, opt_cstr}
use beta.Text.Laws.{opt_cstr-AtMost, AtMost}
use beta.Command.{
  Command, create_channel, edit_channel, delete_channel, move_channel_tree, subscribe_channel,
  channel_description,
}
use beta.Requests.Queue.{nonzero, then_some}
use beta.Engine.{Engine, is_connected}
use beta.Requests.Channels.{
  channel_name_max, channel_text_max, password_max, ts_create_channel, ts_edit_channel,
  ts_delete_channel, ts_move_channel_tree, ts_subscribe_channel, ts_unsubscribe_channel,
  ts_channel_description,
}
use beta.Requests.Admission.{
  PositiveOption, NonzeroOption, Effect, refuse_if, refuse_none, queue_command-Effect,
}

neither : (b : Bool) (n : ℕ) → (b || n == 0) ≡ false → (b ≡ false) × (n ≢ 0)
neither b n h = ground arith

positive : (n : Signed) → PositiveOption (then_some (is_positive n) n)
positive (pos n) = ground arith
positive (negsuc n) = tt

nonzero_order : (n : ℕ) → NonzeroOption (then_some (ltb 0 n) n)
nonzero_order n = ground arith

module _ {Tx : Type 0} (send : Tx → Command → Option Tx) (e : Engine Tx) (conn_id : ℕ) where
  pub ts_create_channel-Effect :
      (parent_id : ℕ) (name topic description password : CString) (max_clients : Signed)
      (permanent semi_permanent : ℕ)
      → Effect send e conn_id (
          ts_create_channel send e conn_id parent_id name topic description password max_clients
            permanent semi_permanent)
  unfolding ts_create_channel
  ts_create_channel-Effect parent_id name topic description password max_clients permanent
        semi_permanent =
      refuse_if send e conn_id (not (is_connected e conn_id)) λ on.
        refuse_none send e conn_id (opt_cstr name channel_name_max) λ n e'.
          queue_command-Effect send e conn_id
            (create_channel parent_id n (opt_cstr topic channel_text_max)
              (opt_cstr description channel_text_max) (opt_cstr password password_max)
              (then_some (is_positive max_clients) max_clients) (nonzero permanent)
              (nonzero semi_permanent))
            on
            (
              subst (AtMost 40) e' (opt_cstr-AtMost name 40 (omega arith)),
              opt_cstr-AtMost topic 2000 (omega arith),
              opt_cstr-AtMost description 2000 (omega arith),
              opt_cstr-AtMost password 64 (omega arith),
              positive max_clients,
            )

  pub ts_edit_channel-Effect :
      (channel_id : ℕ) (name topic description password : CString)
      (has_password max_clients permanent semi_permanent : Signed)
      → Effect send e conn_id (
          ts_edit_channel send e conn_id channel_id name topic description password has_password
            max_clients permanent semi_permanent)
  unfolding ts_edit_channel
  ts_edit_channel-Effect channel_id name topic description password has_password max_clients
        permanent semi_permanent =
      refuse_if send e conn_id (not (is_connected e conn_id) || channel_id == 0) λ h.
        queue_command-Effect send e conn_id
          (edit_channel channel_id (opt_cstr name channel_name_max)
            (opt_cstr topic channel_text_max) (opt_cstr description channel_text_max)
            (opt_cstr password password_max)
            (then_some (is_nonnegative has_password) (is_nonzero has_password))
            (then_some (is_positive max_clients) max_clients)
            (then_some (is_nonnegative permanent) (is_nonzero permanent))
            (then_some (is_nonnegative semi_permanent) (is_nonzero semi_permanent)))
          (neither (not (is_connected e conn_id)) channel_id h).0
          (
            (neither (not (is_connected e conn_id)) channel_id h).1,
            opt_cstr-AtMost name 40 (omega arith),
            opt_cstr-AtMost topic 2000 (omega arith),
            opt_cstr-AtMost description 2000 (omega arith),
            opt_cstr-AtMost password 64 (omega arith),
            positive max_clients,
          )

  pub ts_delete_channel-Effect :
      (channel_id force : ℕ)
      → Effect send e conn_id (ts_delete_channel send e conn_id channel_id force)
  unfolding ts_delete_channel
  ts_delete_channel-Effect channel_id force =
      refuse_if send e conn_id (not (is_connected e conn_id) || channel_id == 0) λ h.
        queue_command-Effect send e conn_id (delete_channel channel_id (nonzero force))
          (neither (not (is_connected e conn_id)) channel_id h).0
          (neither (not (is_connected e conn_id)) channel_id h).1

  pub ts_move_channel_tree-Effect :
      (channel_id parent_id order : ℕ)
      → Effect send e conn_id (ts_move_channel_tree send e conn_id channel_id parent_id order)
  unfolding ts_move_channel_tree
  ts_move_channel_tree-Effect channel_id parent_id order =
      refuse_if send e conn_id (not (is_connected e conn_id) || channel_id == 0) λ h.
        queue_command-Effect send e conn_id
          (move_channel_tree channel_id parent_id (then_some (ltb 0 order) order))
          (neither (not (is_connected e conn_id)) channel_id h).0
          ((neither (not (is_connected e conn_id)) channel_id h).1, nonzero_order order)

  pub ts_subscribe_channel-Effect :
      (channel_id : ℕ) → Effect send e conn_id (ts_subscribe_channel send e conn_id channel_id)
  unfolding ts_subscribe_channel
  ts_subscribe_channel-Effect channel_id =
      refuse_if send e conn_id (not (is_connected e conn_id) || channel_id == 0) λ h.
        queue_command-Effect send e conn_id (subscribe_channel channel_id false)
          (neither (not (is_connected e conn_id)) channel_id h).0
          (neither (not (is_connected e conn_id)) channel_id h).1

  pub ts_unsubscribe_channel-Effect :
      (channel_id : ℕ) → Effect send e conn_id (ts_unsubscribe_channel send e conn_id channel_id)
  unfolding ts_unsubscribe_channel
  ts_unsubscribe_channel-Effect channel_id =
      refuse_if send e conn_id (not (is_connected e conn_id) || channel_id == 0) λ h.
        queue_command-Effect send e conn_id (subscribe_channel channel_id true)
          (neither (not (is_connected e conn_id)) channel_id h).0
          (neither (not (is_connected e conn_id)) channel_id h).1

  pub ts_channel_description-Effect :
      (channel_id : ℕ) → Effect send e conn_id (ts_channel_description send e conn_id channel_id)
  unfolding ts_channel_description
  ts_channel_description-Effect channel_id =
      refuse_if send e conn_id (not (is_connected e conn_id) || channel_id == 0) λ h.
        queue_command-Effect send e conn_id (channel_description channel_id)
          (neither (not (is_connected e conn_id)) channel_id h).0
          (neither (not (is_connected e conn_id)) channel_id h).1
