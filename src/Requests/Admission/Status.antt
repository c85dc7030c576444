-- ===== src/Requests/Admission/Status.antt =====
-- The entry points of the own client's status refuse, or send one allowed command.
use Prim.Native.Nat.{ℕ}
use beta.Base.{false, ◌&&◌, not, Option, none, some, List, length, leb, ◌==◌, ◌≡◌, ◌≤◌, ◌<◌, arith}
use beta.Text.{CString, trim, opt_cstr}
use beta.Text.Laws.{opt_cstr-AtMost}
use beta.Command.{Command, set_away, set_nickname, set_channel_commander, set_muted, send_audio}
use beta.Requests.Queue.{nonzero}
use beta.Engine.{Engine, is_connected}
use beta.Requests.Status.{
  nickname_min, nickname_max, away_message_max, ts_set_away, ts_set_nickname,
  ts_set_channel_commander, ts_set_muted, ts_send_audio,
}
use beta.Requests.Admission.{Effect, refuse, refuse_if, queue_command-Effect}

in_range : (n : ℕ) → not (leb nickname_min n && leb n nickname_max) ≡ false → (3 ≤ n) × (n ≤ 30)
in_range n h = ground arith

ne_zero→pos : (n : ℕ) → (n == 0) ≡ false → 0 < n
ne_zero→pos n h = ground arith

module _ {Tx : Type 0} (send : Tx → Command → Option Tx) (e : Engine Tx) (conn_id : ℕ) where
  pub ts_set_away-Effect :
      (away : ℕ) (message : CString)
      → Effect send e conn_id (ts_set_away send e conn_id away message)
  unfolding ts_set_away
  ts_set_away-Effect away message = refuse_if send e conn_id (not (is_connected e conn_id)) λ on.
      queue_command-Effect send e conn_id
        (set_away (nonzero away) (opt_cstr message away_message_max)) on
        (opt_cstr-AtMost message 200 (omega arith))

  pub ts_set_nickname-Effect :
      (name : CString) → Effect send e conn_id (ts_set_nickname send e conn_id name)
  unfolding ts_set_nickname
  ts_set_nickname-Effect none = refuse send e conn_id
  ts_set_nickname-Effect (some name) = refuse_if send e conn_id (not (is_connected e conn_id)) λ on.
      refuse_if send e conn_id
        (not (leb nickname_min (length (trim name)) && leb (length (trim name)) nickname_max))
        λ h.
          queue_command-Effect send e conn_id (set_nickname (trim name)) on
            (in_range (length (trim name)) h)

  pub ts_set_channel_commander-Effect :
      (enabled : ℕ) → Effect send e conn_id (ts_set_channel_commander send e conn_id enabled)
  unfolding ts_set_channel_commander
  ts_set_channel_commander-Effect enabled =
      refuse_if send e conn_id (not (is_connected e conn_id))
        λ on. queue_command-Effect send e conn_id (set_channel_commander (nonzero enabled)) on tt

  pub ts_set_muted-Effect :
      (inp out : ℕ) → Effect send e conn_id (ts_set_muted send e conn_id inp out)
  unfolding ts_set_muted
  ts_set_muted-Effect inp out =
      refuse_if send e conn_id (not (is_connected e conn_id))
        λ on. queue_command-Effect send e conn_id (set_muted (nonzero inp) (nonzero out)) on tt

  pub ts_send_audio-Effect :
      (samples : List ℕ) → Effect send e conn_id (ts_send_audio send e conn_id samples)
  unfolding ts_send_audio
  ts_send_audio-Effect samples = refuse_if send e conn_id (not (is_connected e conn_id)) λ on.
      refuse_if send e conn_id (length samples == 0) λ h.
        queue_command-Effect send e conn_id (send_audio samples) on (ne_zero→pos (length samples) h)
