-- ===== src/Transfers/Downloads.antt =====
-- A download from the request on: the job is registered exactly where the command is queued, the
-- server's answer finds it once, and a cancelled one is not found.
use Prim.Native.Nat.{ℕ, ◌≤◌, ◌<◌}
use beta.Base.{
  Bool, true, false, ◌||◌, not, Option, none, some, Text, is_empty, ltb, ◌==◌, if◌then◌else◌,
  nat_equal, ◌≡◌, refl, arith, inl, inr, Option-cases,
}
use beta.Base.Map
use beta.Base.Word.{u16_max}
use beta.Text.{CString, starts_with, contains, or_empty}
use beta.Command.{Command, download_file}
use beta.Engine.{Engine, Session, PendingTransfer, is_connected, update}
use beta.Engine.Laws.{get-update}
use beta.Requests.Queue.{send_to, reject}
use beta.Requests.Queue.Laws.{queue_command-cases}
use beta.Transfers.{
  transfer_hard_limit, dots, slash, transfer_id_of, queued_or, download_job, register_download,
  forget_download, begin_download, ts_download_file,
}
use beta.Requests.Admission.{connected_found}
use beta.Transfers.Ids.{transfer_id_of_bounds}

module _ {Tx : Type 0} (send : Tx → Command → Option Tx) (e : Engine Tx) (conn_id : ℕ) where
  -- A download that has an id: what was checked, what was sent and what is registered.
  pub record Begun (channel_id : ℕ) (password : CString) (result : Engine Tx × ℕ) : Type 0 where
    pub before : Session Tx
    pub after : Session Tx
    pub remote : Text
    pub target : Text
    pub max_bytes : ℕ
    pub tx : Tx
    pub was_there : Map.get conn_id e.sessions ≡ some before
    pub is_there : Map.get conn_id result.0.sessions ≡ some after
    pub was_connected : before.state.connected ≡ true
    pub in_range : (1 ≤ result.1) × (result.1 < u16_max)
    pub absolute : starts_with slash target ≡ true
    pub inside : contains dots target ≡ false
    pub limited : (0 < max_bytes) × (max_bytes ≤ transfer_hard_limit)
    pub sent :
        send_to send before (download_file result.1 channel_id (or_empty password) remote) ≡ some tx
    pub kept_sender : after.command_tx ≡ some tx
    pub registered :
        Map.get result.1 after.pending_transfers ≡ some (download_job remote target max_bytes)

  -- Every job that waits afterwards has waited before.
  abbrev pub NothingNew : Engine Tx → Type 0
  NothingNew e' =
      (s' : Session Tx)
      → Map.get conn_id e'.sessions ≡ some s'
      → (s : Session Tx) × (Map.get conn_id e.sessions ≡ some s)
        × ((id : ℕ) (job : PendingTransfer)
            → Map.get id s'.pending_transfers ≡ some job
            → Map.get id s.pending_transfers ≡ some job)

  pub data Outcome (channel_id : ℕ) (password : CString) (result : Engine Tx × ℕ) : Type 0 where
    not_begun : result.1 ≡ 0 → NothingNew result.0 → Outcome channel_id password result
    begun : Begun channel_id password result → Outcome channel_id password result

  rejected : (channel_id : ℕ) (password : CString) → Outcome channel_id password (reject e)
  rejected channel_id password = not_begun refl (λ s' there. (s', there, λ id job h. h))

  -- A job that is registered and forgotten again leaves no new one.
  undone-NothingNew :
      (s : Session Tx) (id : ℕ) (job : PendingTransfer)
      → Map.get conn_id e.sessions ≡ some s
      → NothingNew
          (update (update e conn_id (register_download id job)) conn_id (forget_download id))
  unfolding register_download forget_download
  undone-NothingNew s id job there s' there' = (
    s,
    there,
    λ j old h. ground (
      arith,
      there',
      get-update (update e conn_id (register_download id job)) conn_id (forget_download id)
          (register_download id job s) (get-update e conn_id (register_download id job) s there),
      Map.get-remove id j (Map.insert id job s.pending_transfers),
      Map.get-insert id j job s.pending_transfers,
      nat_equal.test_iff id j,
      h,
    ),
  )

  queued-Begun :
      (s : Session Tx) (channel_id id : ℕ) (remote : Text) (password : CString) (target : Text)
      (max_bytes : ℕ) (tx : Tx)
      → Map.get conn_id e.sessions ≡ some s
      → s.state.connected ≡ true
      → starts_with slash target ≡ true
      → contains dots target ≡ false
      → (0 < max_bytes) × (max_bytes ≤ transfer_hard_limit)
      → (1 ≤ id) × (id < u16_max)
      → send_to send s (download_file id channel_id (or_empty password) remote) ≡ some tx
      → Begun channel_id password (
        update
            (update e conn_id (register_download id (download_job remote target max_bytes)))
            conn_id
            (λ s'. record s' { command_tx = some tx }),
        id,
      )
  unfolding register_download
  queued-Begun s channel_id id remote password target max_bytes tx there on abs ins lim range
        sends =
      record {
        before = s;
        after = record (register_download id (download_job remote target max_bytes) s) {
          command_tx = some tx;
        };
        remote = remote;
        target = target;
        max_bytes = max_bytes;
        tx = tx;
        was_there = there;
        is_there =
            get-update
              (update e conn_id (register_download id (download_job remote target max_bytes)))
              conn_id (λ s'. record s' { command_tx = some tx })
              (register_download id (download_job remote target max_bytes) s)
              (get-update e conn_id (register_download id (download_job remote target max_bytes)) s
                there);
        was_connected = on;
        in_range = range;
        absolute = abs;
        inside = ins;
        limited = lim;
        sent = sends;
        kept_sender = refl;
        registered = ground (
          arith,
          Map.get-insert id id (download_job remote target max_bytes) s.pending_transfers,
          nat_equal.test_iff id id,
        );
      }

  begin_download-Outcome :
      (s : Session Tx) (channel_id : ℕ) (remote : Text) (password : CString) (target : Text)
      (max_bytes : ℕ)
      → Map.get conn_id e.sessions ≡ some s
      → s.state.connected ≡ true
      → starts_with slash target ≡ true
      → contains dots target ≡ false
      → (0 < max_bytes) × (max_bytes ≤ transfer_hard_limit)
      → Outcome channel_id password
          (begin_download send e conn_id channel_id remote (or_empty password) target max_bytes)
  unfolding begin_download queued_or register_download send_to
  begin_download-Outcome s channel_id remote password target max_bytes there on abs ins lim =
      let id : ℕ = transfer_id_of s.next_transfer_id in
      let job : PendingTransfer = download_job remote target max_bytes in
      let e' : Engine Tx = update e conn_id (register_download id job) in
      elim (queue_command-cases send e' conn_id (register_download id job s)
        (download_file id channel_id (or_empty password) remote)
        (get-update e conn_id (register_download id job) s there)) [
          | inl shut ↦
              rw (there, shut, begin_download) (not_begun refl (undone-NothingNew s id job there))
          | inr (tx, sends, taken) ↦
              rw (there, taken, begin_download)
                (begun (
                  queued-Begun s channel_id id remote password target max_bytes tx there on abs ins
                    lim (transfer_id_of_bounds s.next_transfer_id) sends))
        ]

  rejected_if :
      (test : Bool) {channel_id : ℕ} {password : CString} {result : Engine Tx × ℕ}
      → (test ≡ false → Outcome channel_id password result)
      → Outcome channel_id password (if test then reject e else result)
  rejected_if true rest = rejected _ _
  rejected_if false rest = rest refl

  -- A call of ts_download_file either returns 0 and leaves no job behind that was not there before,
  -- or returns an id from 1 to 65534, has sent the command with it to the channel of a connected
  -- session and registered the job under it; the target path is absolute without "..", the limit
  -- from 1 to 8 MiB.
  pub ts_download_file-Outcome :
      (channel_id : ℕ) (remote password target : CString) (max_bytes : ℕ)
      → Outcome channel_id password
          (ts_download_file send e conn_id channel_id remote password target max_bytes)
  unfolding ts_download_file begin_download
  ts_download_file-Outcome channel_id none password target max_bytes = rejected channel_id password
  ts_download_file-Outcome channel_id (some r) password none max_bytes =
      rejected channel_id password
  ts_download_file-Outcome channel_id (some r) password (some t) max_bytes =
      rejected_if (not (is_connected e conn_id)) λ on.
        rejected_if (is_empty r || is_empty t) λ given.
          rejected_if (contains dots t || not (starts_with slash t)) λ safe.
            rejected_if (max_bytes == 0 || ltb transfer_hard_limit max_bytes) λ lim.
              elim (Option-cases (Map.get conn_id e.sessions)) [
                | inl gone ↦ rw (gone, begin_download) (rejected channel_id password)
                | inr (s, there) ↦
                    begin_download-Outcome s channel_id r password t max_bytes there
                      (connected_found send e conn_id s there on) (ground (arith, safe))
                      (ground (arith, safe)) (ground (arith, lim))
              ]
