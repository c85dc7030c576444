-- ===== src/Transfers/Listings.antt =====
-- native/src/api.rs: listings of directories and the metadata of files. A request is kept under the
-- channel and the path or name; the answer carries these and gets the id of the request.
mod Requested
mod Answered
mod Tests
use Prim.Native.Nat.{ℕ, ◌+◌}
use beta.Base.{
  Bool, true, not, Option, none, some, List, [], ◌∷◌, ◌++◌, Text, is_empty, ◌==◌, if◌then◌else◌,
  nat_equal, text_equal, pair_equal,
}
use beta.Base.Map
use beta.Base.Word.{Signed, pos, negsuc, as_u32, add_u32}
use beta.Text.{CString, trim, or_empty}
use beta.Command.{Command, request_file_list, file_info_request}
use beta.Events.{TsServerFile, server_file_list, server_file_info}
use beta.Engine.{Engine, Session, TsConnection, is_connected, update, update_state, push_event}
use beta.Requests.Queue.{reject, queue_command}
use beta.Transfers.{queued_or}

-- Zero is no request: the counter is passed over there, and its next value is taken.
pub request_id_of : ℕ → ℕ
request_id_of counter = if counter == 0 then add_u32 counter 1 else counter

pub next_request : ℕ → ℕ
unfolding request_id_of
next_request counter = add_u32 (request_id_of counter) 1

-- `timestamp.max(0) as u64`.
abbrev pub nonnegative : Signed → ℕ
nonnegative (pos n) = n
nonnegative (negsuc n) = 0

-- What is read of an entry of a listing, as tsclientlib delivers it, and of a file's metadata.
pub record FileListEntry : Type 0 where
  pub channel_id : ℕ
  pub path : Text
  pub name : Text
  pub size : ℕ
  pub date_time : Signed
  pub is_file : Bool

pub record FileInfoItem : Type 0 where
  pub channel_id : ℕ
  pub path : Text
  pub name : Text
  pub size : ℕ
  pub date_time : Signed

abbrev pub server_file : FileListEntry → TsServerFile
server_file entry = record {
  name = entry.name;
  size = entry.size;
  modified = nonnegative entry.date_time;
  is_directory = entry.is_file;
}

abbrev pub or_default {ℓ} : {A : Type ℓ} → Option (List A) → List A
or_default none = []
or_default (some xs) = xs

abbrev pub or_zero : Option ℕ → ℕ
or_zero none = 0
or_zero (some n) = n

module _ {Tx : Type 0} where
  pub register_listing : (id channel_id : ℕ) (path : Text) → Session Tx → Session Tx
  register_listing id channel_id path s = record s {
    next_request_id = next_request s.next_request_id;
    pending_file_requests = Map.insert (channel_id, path) id s.pending_file_requests;
  }

  pub forget_listing : (channel_id : ℕ) (path : Text) → Session Tx → Session Tx
  forget_listing channel_id path s = record s {
    pending_file_requests = Map.remove (channel_id, path) s.pending_file_requests;
  }

  -- The request and the list in waiting are taken out.
  unfoldable pub finish : (channel_id : ℕ) (path : Text) → Session Tx → Session Tx
  finish channel_id path s = record s {
    pending_file_requests = Map.remove (channel_id, path) s.pending_file_requests;
    state = record s.state {
      file_list_buffers = Map.remove (channel_id, path) s.state.file_list_buffers;
    };
  }

  pub register_info : (id channel_id : ℕ) (name : Text) → Session Tx → Session Tx
  register_info id channel_id name s = record s {
    next_request_id = next_request s.next_request_id;
    pending_file_info_requests = Map.insert (channel_id, name) id s.pending_file_info_requests;
  }

  unfoldable pub forget_info : (channel_id : ℕ) (name : Text) → Session Tx → Session Tx
  forget_info channel_id name s = record s {
    pending_file_info_requests = Map.remove (channel_id, name) s.pending_file_info_requests;
  }

module _ {Tx : Type 0} (send : Tx → Command → Option Tx) (e : Engine Tx) (conn_id : ℕ) where
  -- From the look-up of the session on.
  pub begin_listing : (channel_id : ℕ) (path password : Text) → Engine Tx × ℕ
  begin_listing channel_id path password = elim (Map.get conn_id e.sessions) [
    | none ↦ reject e
    | some s ↦
        let id = request_id_of s.next_request_id in
        queued_or
          (queue_command send (update e conn_id (register_listing id channel_id path)) conn_id
            (request_file_list id channel_id password path))
          (λ e'. update e' conn_id (forget_listing channel_id path)) id
  ]

  pub ts_list_files : (channel_id : ℕ) (path channel_password : CString) → Engine Tx × ℕ
  ts_list_files channel_id none channel_password = reject e
  ts_list_files channel_id (some path) channel_password =
      if not (is_connected e conn_id)
      then reject e
      else if is_empty (trim path)
      then reject e
      else begin_listing channel_id (trim path) (or_empty channel_password)

  pub begin_info : (channel_id : ℕ) (name password : Text) → Engine Tx × ℕ
  begin_info channel_id name password = elim (Map.get conn_id e.sessions) [
    | none ↦ reject e
    | some s ↦
        let id = request_id_of s.next_request_id in
        queued_or
          (queue_command send (update e conn_id (register_info id channel_id name)) conn_id
            (file_info_request id channel_id password name))
          (λ e'. update e' conn_id (forget_info channel_id name)) id
  ]

  pub ts_file_info : (channel_id : ℕ) (name channel_password : CString) → Engine Tx × ℕ
  ts_file_info channel_id none channel_password = reject e
  ts_file_info channel_id (some name) channel_password =
      if not (is_connected e conn_id)
      then reject e
      else if is_empty (trim name)
      then reject e
      else begin_info channel_id (trim name) (or_empty channel_password)

unfoldable pub buffer : FileListEntry → TsConnection → TsConnection
buffer entry st = record st {
  file_list_buffers =
      Map.insert (entry.channel_id, entry.path)
        (or_default (Map.get (entry.channel_id, entry.path) st.file_list_buffers)
          ++ server_file entry ∷ [])
        st.file_list_buffers;
}

-- The answers, as `handle_control_item` takes them.
module _ {Tx : Type 0} (conn_id : ℕ) where
  unfoldable pub file_list : Engine Tx → List FileListEntry → Engine Tx
  unfolding buffer
  file_list e [] = e
  file_list e (entry ∷ entries) = file_list (update_state e conn_id (buffer entry)) entries

  -- The id and the files that the end of a listing is answered with.
  pub listing_of : Engine Tx → (channel_id : ℕ) (path : Text) → ℕ × List TsServerFile
  listing_of e channel_id path = elim (Map.get conn_id e.sessions) [
    | none ↦ (0, [])
    | some s ↦ (
      or_zero (Map.get (channel_id, path) s.pending_file_requests),
      or_default (Map.get (channel_id, path) s.state.file_list_buffers),
    )
  ]

  unfoldable pub file_list_finished : Engine Tx → List (ℕ × Text) → Engine Tx
  unfolding finish listing_of
  file_list_finished e [] = e
  file_list_finished e ((channel_id, path) ∷ items) =
      let (id, files) = listing_of e channel_id path in
      file_list_finished
        (push_event (update e conn_id (finish channel_id path)) conn_id
          (server_file_list id (as_u32 channel_id) path true none files))
        items

  pub request_of : Engine Tx → (channel_id : ℕ) (name : Text) → ℕ
  request_of e channel_id name = elim (Map.get conn_id e.sessions) [
    | none ↦ 0
    | some s ↦ or_zero (Map.get (channel_id, name) s.pending_file_info_requests)
  ]

  unfoldable pub file_info : Engine Tx → List FileInfoItem → Engine Tx
  unfolding request_of
  file_info e [] = e
  file_info e (item ∷ items) =
      file_info
        (push_event (update e conn_id (forget_info item.channel_id item.name)) conn_id (
          server_file_info (request_of e item.channel_id item.name) (as_u32 item.channel_id)
            item.path item.name item.size (nonnegative item.date_time) true))
        items
