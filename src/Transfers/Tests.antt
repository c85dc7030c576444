-- ===== src/Transfers/Tests.antt =====
-- Transfers and listings of a connected session, and their theorems at concrete inputs.
use Prim.Native.Nat.{◌%◌, ◌+◌, ◌≤◌}
use beta.Base.{
  true, Option, none, some, List, [], ◌∷◌, ◌++◌, Text, nat_equal, ◌≡◌, ◌↔◌, refl, arith,
}
use beta.Base.Word.{u16_max}
use beta.Command.{Command}
use beta.Engine.{
  Engine, Session, PendingTransfer, new_connection, new_session, new_engine, is_connected,
}
use beta.Requests.Queue.{queue_command}
use beta.Transfers.{
  transfer_id_of, download_job, begin_download, queued_or, register_download, ts_download_file,
  take_download, transfer_failed,
}
use beta.Transfers.Ids.{transfer_id_of_twice}
use beta.Transfers.Downloads.{Outcome, ts_download_file-Outcome}
use beta.Transfers.Answers.{transfer_failed_download}

abbrev push_to : List Command → Command → Option (List Command)
push_to sent c = some (sent ++ c ∷ [])

-- "/a" and "/b".
abbrev path_a : Text
path_a = 47 ∷ 97 ∷ []

abbrev path_b : Text
path_b = 47 ∷ 98 ∷ []

abbrev job : PendingTransfer
job = download_job path_a path_b 1000

-- Job 7 waits.
abbrev one_session : Session (List Command)
one_session = record (new_session 1 (record new_connection { connected = true }) 0) {
  command_tx = some [];
  pending_transfers = (7, job) ∷ [];
}

abbrev engine : Engine (List Command)
engine = record new_engine { sessions = (1, one_session) ∷ [] }

download_runs : (ts_download_file push_to engine 1 0 (some path_a) none (some path_b) 1000).1 ≡ 1
unfolding ts_download_file begin_download queued_or queue_command is_connected transfer_id_of
    register_download
download_runs = refl

download_of_relative_path :
    (ts_download_file push_to engine 1 0 (some path_a) none (some (98 ∷ [])) 1000).1 ≡ 0
unfolding ts_download_file is_connected
download_of_relative_path = refl

ts_download_file-Outcome_example :
    Outcome push_to engine 1 0 none
      (ts_download_file push_to engine 1 0 (some path_a) none (some path_b) 1000)
ts_download_file-Outcome_example =
    ts_download_file-Outcome push_to engine 1 0 (some path_a) none (some path_b) 1000

transfer_id_of_twice_example :
    (1 ≤ transfer_id_of 65535)
    × (transfer_id_of 65535 ≤ 65534)
    × ((transfer_id_of 65535 ≡ transfer_id_of 65536)
        ↔ ((65535 % u16_max ≡ 0) × (65536 ≡ 65535 + 1)))
transfer_id_of_twice_example = transfer_id_of_twice 65535 65536 (omega arith) (omega arith)

transfer_failed_download_example :
    ((transfer_failed engine 1 7).event_queue ≡ [])
    × ((take_download (transfer_failed engine 1 7) 1 7).1 ≡ some job)
transfer_failed_download_example = transfer_failed_download engine 1 7 one_session refl refl
