-- ===== src/Requests/Status.antt =====
-- native/src/api.rs: the status of the own client, and its microphone samples.
use Prim.Native.Nat.{ℕ}
use beta.Base.{not, Option, none, some, List, length, leb, ◌==◌, ◌&&◌, if◌then◌else◌}
use beta.Text.{CString, trim, opt_cstr}
use beta.Command.{Command, set_away, set_nickname, set_channel_commander, set_muted, send_audio}
use beta.Engine.{Engine, is_connected}
use beta.Requests.Queue.{reject, queue_command, nonzero}

abbrev pub nickname_min : ℕ
nickname_min = 3

abbrev pub nickname_max : ℕ
nickname_max = 30

abbrev pub away_message_max : ℕ
away_message_max = 200

module _ {Tx : Type 0} (send : Tx → Command → Option Tx) (e : Engine Tx) (conn_id : ℕ) where
  unfoldable pub ts_set_away : (away : ℕ) (message : CString) → Engine Tx × ℕ
  ts_set_away away message =
      if not (is_connected e conn_id)
      then reject e
      else queue_command send e conn_id
          (set_away (nonzero away) (opt_cstr message away_message_max))

  unfoldable pub ts_set_nickname : (name : CString) → Engine Tx × ℕ
  ts_set_nickname none = reject e
  ts_set_nickname (some name) =
      if not (is_connected e conn_id)
      then reject e
      else if not (leb nickname_min (length (trim name)) && leb (length (trim name)) nickname_max)
      then reject e
      else queue_command send e conn_id (set_nickname (trim name))

  unfoldable pub ts_set_channel_commander : (enabled : ℕ) → Engine Tx × ℕ
  ts_set_channel_commander enabled =
      if not (is_connected e conn_id)
      then reject e
      else queue_command send e conn_id (set_channel_commander (nonzero enabled))

  unfoldable pub ts_set_muted : (inp out : ℕ) → Engine Tx × ℕ
  ts_set_muted inp out =
      if not (is_connected e conn_id)
      then reject e
      else queue_command send e conn_id (set_muted (nonzero inp) (nonzero out))

  -- The samples are the bit patterns that `data` points to, `data_len` of them.
  unfoldable pub ts_send_audio : (samples : List ℕ) → Engine Tx × ℕ
  ts_send_audio samples =
      if not (is_connected e conn_id)
      then reject e
      else if length samples == 0
      then reject e
      else queue_command send e conn_id (send_audio samples)
