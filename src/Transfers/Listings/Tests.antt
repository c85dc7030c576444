-- ===== src/Transfers/Listings/Tests.antt =====
-- A listing of a connected session at concrete inputs.
use beta.Base.{true, Option, none, some, List, [], ◌∷◌, ◌++◌, Text, nat_equal, ◌≡◌, refl, arith}
use beta.Base.Word.{pos}
use beta.Text.{trim}
use beta.Command.{Command}
use beta.Engine.{Engine, Session, new_connection, new_session, new_engine, is_connected}
use beta.Requests.Queue.{queue_command}
use beta.Transfers.{queued_or}
use beta.Transfers.Listings.{
  FileListEntry, request_id_of, begin_listing, register_listing, ts_list_files, file_list,
  file_list_finished,
}
use beta.Transfers.Listings.Answered.{files_of, listed_event}
use beta.Transfers.Listings.Requested.{ts_list_files-file_list_finished}

abbrev push_to : List Command → Command → Option (List Command)
push_to sent c = some (sent ++ c ∷ [])

-- "/a" and "/b".
abbrev path_a : Text
path_a = 47 ∷ 97 ∷ []

abbrev path_b : Text
path_b = 47 ∷ 98 ∷ []

abbrev one_session : Session (List Command)
one_session = record (new_session 1 (record new_connection { connected = true }) 0) {
  command_tx = some [];
}

abbrev engine : Engine (List Command)
engine = record new_engine { sessions = (1, one_session) ∷ [] }

-- A file of the directory "/a" and one of "/b", in channel 5.
abbrev entries : List FileListEntry
entries =
    record {
      channel_id = 5;
      path = path_a;
      name = 120 ∷ [];
      size = 3;
      date_time = pos 1;
      is_file = true;
    }
    ∷ record {
      channel_id = 5;
      path = path_b;
      name = 121 ∷ [];
      size = 4;
      date_time = pos 2;
      is_file = true;
    }
    ∷ []

listing_asked : (ts_list_files push_to engine 1 5 (some path_a) none).1 ≡ 1
unfolding ts_list_files begin_listing queued_or queue_command is_connected trim request_id_of
    register_listing
listing_asked = refl

ts_list_files-file_list_finished_example :
    let (e', id) = ts_list_files push_to engine 1 5 (some path_a) none in
    (file_list_finished 1 (file_list 1 e' entries) ((5, trim path_a) ∷ [])).event_queue
    ≡ listed_event 1 id 5 (trim path_a) (files_of (5, trim path_a) entries) ∷ []
ts_list_files-file_list_finished_example =
    ts_list_files-file_list_finished push_to engine 1 one_session 5 path_a none entries refl refl
      (rw listing_asked λ e. absurd (omega arith))
