-- ===== src/Transfers.antt =====
-- native/src/api.rs: downloads and uploads. An entry point hands out a transfer id and registers the
-- job, the event loop matches the server's answer with it.
pub mod Listings
mod Ids
mod Downloads
mod Answers
mod Tests
use Prim.Native.Nat.{ℕ, zero, suc, ◌*◌, ◌%◌, max}
use beta.Base.{
  Bool, true, false, ◌||◌, not, Option, none, some, List, [], ◌∷◌, Text, is_empty, ltb, ◌==◌,
  if◌then◌else◌, nat_equal,
}
use beta.Base.Map
use beta.Base.Map.{Map}
use beta.Base.Word.{u16_max, as_u16, add_u32}
use beta.Text.{CString, starts_with, contains, or_empty}
use beta.Command.{Command, download_file, upload_file}
use beta.Events.{file_transfer}
use beta.Engine.{Engine, Session, PendingTransfer, UploadJob, is_connected, update, push_event}
use beta.Requests.Queue.{reject, queue_command, nonzero}

abbrev pub transfer_hard_limit : ℕ
transfer_hard_limit = 8 * 1024 * 1024

-- "..", "/" and "refused".
abbrev pub dots : Text
dots = 46 ∷ 46 ∷ []

abbrev pub slash : Text
slash = 47 ∷ []

abbrev pub refused_text : Text
refused_text = 114 ∷ 101 ∷ 102 ∷ 117 ∷ 115 ∷ 101 ∷ 100 ∷ []

-- The id that the counter of transfers stands for.
pub transfer_id_of : ℕ → ℕ
transfer_id_of counter = max (counter % u16_max) 1

-- `if queue_command(...) == 0 { undo; return 0; } id`.
pub queued_or {ℓ} : {A : Type ℓ} → A × ℕ → (A → A) → ℕ → A × ℕ
queued_or (e, zero) undo id = (undo e, 0)
queued_or (e, suc _) undo id = (e, id)

abbrev pub download_job : (remote target : Text) (max_bytes : ℕ) → PendingTransfer
download_job remote target max_bytes = record {
  target_path = target;
  max_bytes = max_bytes;
  remote_path = remote;
}

module _ {Tx : Type 0} where
  pub register_download : ℕ → PendingTransfer → Session Tx → Session Tx
  register_download id job s = record s {
    next_transfer_id = add_u32 s.next_transfer_id 1;
    pending_transfers = Map.insert id job s.pending_transfers;
  }

  unfoldable pub forget_download : ℕ → Session Tx → Session Tx
  forget_download id s = record s { pending_transfers = Map.remove id s.pending_transfers }

  unfoldable pub forget_upload : ℕ → Session Tx → Session Tx
  forget_upload id s = record s { upload_jobs = Map.remove id s.upload_jobs }

module _ {Tx : Type 0} (send : Tx → Command → Option Tx) (e : Engine Tx) (conn_id : ℕ) where
  -- From the look-up of the session on.
  pub begin_download :
      (channel_id : ℕ) (remote password target : Text) (max_bytes : ℕ) → Engine Tx × ℕ
  begin_download channel_id remote password target max_bytes = elim (Map.get conn_id e.sessions) [
    | none ↦ reject e
    | some s ↦
        let id = transfer_id_of s.next_transfer_id in
        queued_or
          (queue_command send
            (update e conn_id (register_download id (download_job remote target max_bytes))) conn_id
            (download_file id channel_id password remote))
          (λ e'. update e' conn_id (forget_download id)) id
  ]

  pub ts_download_file :
      (channel_id : ℕ) (remote_path channel_password target_path : CString) (max_bytes : ℕ)
      → Engine Tx × ℕ
  ts_download_file channel_id none password target max_bytes = reject e
  ts_download_file channel_id (some remote) password none max_bytes = reject e
  ts_download_file channel_id (some remote) password (some target) max_bytes =
      if not (is_connected e conn_id)
      then reject e
      else if is_empty remote || is_empty target
      then reject e
      else if contains dots target || not (starts_with slash target)
      then reject e
      else if max_bytes == 0 || ltb transfer_hard_limit max_bytes
      then reject e
      else begin_download channel_id remote (or_empty password) target max_bytes

  pub begin_upload :
      (channel_id : ℕ) (remote password source : Text) (size : ℕ) (overwrite : Bool) → Engine Tx × ℕ
  begin_upload channel_id remote password source size overwrite =
      elim (Map.get conn_id e.sessions) [
        | none ↦ reject e
        | some s ↦
            let id = transfer_id_of s.next_transfer_id in
            queued_or
              (queue_command send
                (update e conn_id
                  (λ s'. record s' { next_transfer_id = add_u32 s'.next_transfer_id 1 }))
                conn_id (upload_file id channel_id password remote source size overwrite))
              (λ e'. e') id
      ]

  -- `file_size` is the length in the metadata of a local file, where there is one.
  pub ts_upload_file :
      (file_size : Text → Option ℕ) (channel_id : ℕ)
      (remote_path channel_password source_path : CString) (overwrite : ℕ)
      → Engine Tx × ℕ
  ts_upload_file file_size channel_id none password source overwrite = reject e
  ts_upload_file file_size channel_id (some remote) password none overwrite = reject e
  ts_upload_file file_size channel_id (some remote) password (some source) overwrite =
      if not (is_connected e conn_id)
      then reject e
      else if is_empty remote || is_empty source || not (starts_with slash remote)
      then reject e
      else elim (file_size source) [
        | none ↦ reject e
        | some size ↦
            if size == 0 || ltb transfer_hard_limit size
            then reject e
            else begin_upload channel_id remote (or_empty password) source size (nonzero overwrite)
      ]

module _ {Tx : Type 0} (e : Engine Tx) (conn_id : ℕ) where
  pub cancel_upload : Session Tx → ℕ → Engine Tx × ℕ
  cancel_upload s id = elim (Map.get id s.upload_jobs) [
    | none ↦ (e, 0)
    | some job ↦ (update e conn_id (forget_upload id), 1)
  ]

  pub cancel_in : Session Tx → ℕ → Engine Tx × ℕ
  unfolding cancel_upload
  cancel_in s id = elim (Map.get id s.pending_transfers) [
    | none ↦ cancel_upload s id
    | some job ↦ (update e conn_id (forget_download id), 1)
  ]

  pub ts_cancel_file_transfer : (transfer_id : ℕ) → Engine Tx × ℕ
  unfolding cancel_in
  ts_cancel_file_transfer transfer_id =
      if transfer_id == 0 || ltb u16_max transfer_id
      then reject e
      else elim (Map.get conn_id e.sessions) [
        | none ↦ reject e
        | some s ↦ cancel_in s (as_u16 transfer_id)
      ]

  -- The job of a session that an answer with the handle is for; it is taken out.
  unfoldable pub take_download : (handle : ℕ) → Engine Tx × Option PendingTransfer
  take_download handle = elim (Map.get conn_id e.sessions) [
    | none ↦ (e, none)
    | some s ↦ (update e conn_id (forget_download handle), Map.get handle s.pending_transfers)
  ]

  unfoldable pub take_upload : (handle : ℕ) → Engine Tx × Option UploadJob
  take_upload handle = elim (Map.get conn_id e.sessions) [
    | none ↦ (e, none)
    | some s ↦ (update e conn_id (forget_upload handle), Map.get handle s.upload_jobs)
  ]

  abbrev pub transfer_refused : ℕ → Text → Engine Tx → Engine Tx
  transfer_refused id remote_path e' =
      push_event e' conn_id (file_transfer id remote_path [] 0 false (some refused_text))

  -- `StreamItem::FiletransferFailed`.
  unfoldable pub transfer_failed : (handle : ℕ) → Engine Tx
  unfolding take_upload
  transfer_failed handle =
      let (e', job) = take_upload handle in
      elim job [ none ↦ e' | some j ↦ transfer_refused j.transfer_id [] e' ]

  -- `Command::UploadFile` in the event loop, `answer` being what `upload_file` of tsclientlib
  -- returns: the handle of the transfer, or nothing where it refuses.
  unfoldable pub send_upload :
      (answer : Option ℕ) (transfer_id : ℕ) (source_path remote_path : Text) → Engine Tx
  send_upload none transfer_id source_path remote_path = transfer_refused transfer_id remote_path e
  send_upload (some handle) transfer_id source_path remote_path = update e conn_id (λ s. record s {
    upload_jobs =
        Map.insert handle
          (record {
            transfer_id = transfer_id;
            source_path = source_path;
            remote_path = remote_path;
          })
          s.upload_jobs;
  })
