-- ===== src/Transfers/Answers.antt =====
-- The server's answers to transfers: each finds its job once, a cancelled one does not find it.
use Prim.Native.Nat.{ℕ, ◌≤◌}
use beta.Base.{false, none, some, [], ◌∷◌, ◌++◌, Text, nat_equal, ◌≡◌, refl, arith}
use beta.Base.Map
use beta.Base.Word.{u16_max, as_u16}
use beta.Events.{TsEvent, file_transfer}
use beta.Engine.{Engine, Session, PendingTransfer, UploadJob, update, push_event}
use beta.Engine.Laws.{get-update}
use beta.Transfers.{
  forget_download, cancel_in, ts_cancel_file_transfer, take_download, transfer_failed, send_upload,
  take_upload, forget_upload, refused_text,
}

module _ {Tx : Type 0} (e : Engine Tx) (conn_id id : ℕ) (s : Session Tx)
    (job : PendingTransfer) where
  forgotten :
      Map.get conn_id e.sessions ≡ some s
      → (take_download (update e conn_id (forget_download id)) conn_id id).1 ≡ none
  unfolding take_download forget_download
  forgotten there =
      rw (get-update e conn_id (forget_download id) s there, take_download)
        (ground (arith, Map.get-remove id id s.pending_transfers, nat_equal.test_iff id id))

  -- The server's answer to a registered download finds its job, and a second answer finds none.
  take_download_once :
      Map.get conn_id e.sessions ≡ some s
      → Map.get id s.pending_transfers ≡ some job
      → ((take_download e conn_id id).1 ≡ some job)
        × ((take_download (take_download e conn_id id).0 conn_id id).1 ≡ none)
  unfolding take_download
  take_download_once there waits =
      let found : take_download e conn_id id ≡ (update e conn_id (forget_download id), some job) =
        ground (arith, there, waits) in
      rw found (refl, forgotten there)

  cancelled :
      Map.get conn_id e.sessions ≡ some s
      → Map.get id s.pending_transfers ≡ some job
      → 1 ≤ id
      → id ≤ u16_max
      → ts_cancel_file_transfer e conn_id id ≡ (update e conn_id (forget_download id), 1)
  unfolding ts_cancel_file_transfer cancel_in
  cancelled there waits low high =
      let same : as_u16 id ≡ id = omega arith in ground (arith, there, waits, same)

  -- A registered download with an id from 1 to 65535 can be cancelled, and then an answer of the server finds no job.
  ts_cancel_file_transfer_lem :
      Map.get conn_id e.sessions ≡ some s
      → Map.get id s.pending_transfers ≡ some job
      → 1 ≤ id
      → id ≤ u16_max
      → ((ts_cancel_file_transfer e conn_id id).1 ≡ 1)
        × ((take_download (ts_cancel_file_transfer e conn_id id).0 conn_id id).1 ≡ none)
  ts_cancel_file_transfer_lem there waits low high =
      rw (cancelled there waits low high) (refl, forgotten there)

abbrev pub upload_refused : ℕ → TsEvent
upload_refused id = file_transfer id [] [] 0 false (some refused_text)

module _ {Tx : Type 0} (e : Engine Tx) (conn_id handle : ℕ) (s : Session Tx) where
  -- The failure of a transfer whose handle belongs to no upload is not reported: the events stay,
  -- and a download that waits under the handle goes on waiting.
  pub transfer_failed_download :
      Map.get conn_id e.sessions ≡ some s
      → Map.get handle s.upload_jobs ≡ none
      → ((transfer_failed e conn_id handle).event_queue ≡ e.event_queue)
        × ((take_download (transfer_failed e conn_id handle) conn_id handle).1
            ≡ Map.get handle s.pending_transfers)
  unfolding transfer_failed take_upload take_download forget_upload
  transfer_failed_download there none_waits =
      let same : transfer_failed e conn_id handle ≡ update e conn_id (forget_upload handle) =
        ground (arith, there, none_waits) in
      rw same (refl, rw (get-update e conn_id (forget_upload handle) s there, take_download) refl)

  pub transfer_failed_upload :
      (job : UploadJob)
      → Map.get conn_id e.sessions ≡ some s
      → Map.get handle s.upload_jobs ≡ some job
      → transfer_failed e conn_id handle
        ≡ push_event
            (update e conn_id (forget_upload handle))
            conn_id
            (upload_refused job.transfer_id)
  unfolding transfer_failed take_upload
  transfer_failed_upload job there waits = ground (arith, there, waits)

  gone_upload :
      Map.get conn_id e.sessions ≡ some s
      → (event : TsEvent)
      → (take_upload
          (push_event (update e conn_id (forget_upload handle)) conn_id event)
          conn_id
          handle).1
        ≡ none
  unfolding take_upload forget_upload push_event
  gone_upload there event =
      rw (get-update e conn_id (forget_upload handle) s there, take_upload)
        (ground
          (arith, Map.get-remove handle handle s.upload_jobs, nat_equal.test_iff handle handle))

module _ {Tx : Type 0} (e : Engine Tx) (conn_id handle id : ℕ) (source remote : Text) where
  abbrev begun_upload : Session Tx → Session Tx
  begun_upload s = record s {
    upload_jobs =
        Map.insert handle (record { transfer_id = id; source_path = source; remote_path = remote })
          s.upload_jobs;
  }

  -- The failure of an upload that the event loop has begun is reported, under the id that the entry
  -- point gave out and as the last event, and the job is taken out.
  transfer_failed-send_upload :
      (s : Session Tx)
      → Map.get conn_id e.sessions ≡ some s
      → let failed =
          transfer_failed (send_upload e conn_id (some handle) id source remote) conn_id handle in
        (failed.event_queue
          ≡ e.event_queue ++ record { connection_id = conn_id; event = upload_refused id } ∷ [])
        × ((take_upload failed conn_id handle).1 ≡ none)
  unfolding send_upload push_event
  transfer_failed-send_upload s there =
      let e' : Engine Tx = update e conn_id begun_upload in
      let found : Map.get conn_id e'.sessions ≡ some (begun_upload s) =
        get-update e conn_id begun_upload s there in
      rw
        (transfer_failed_upload e' conn_id handle (begun_upload s)
          (record { transfer_id = id; source_path = source; remote_path = remote }) found
          (ground (
            arith,
            Map.get-insert handle handle
                (record { transfer_id = id; source_path = source; remote_path = remote })
                s.upload_jobs,
            nat_equal.test_iff handle handle,
          )))
        (refl, gone_upload e' conn_id handle (begun_upload s) found (upload_refused id))
