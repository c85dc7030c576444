-- ===== src/Transfers/Listings/Requested.antt =====
-- Asking for the listing of a directory, up to the answer.
use Prim.Native.Nat.{ℕ}
use beta.Base.{
  Bool, true, false, not, Option, none, some, List, [], ◌∷◌, ◌++◌, Text, is_empty, nat_equal,
  text_equal, pair_equal, pair_eq_iff, ◌≡◌, ◌≢◌, refl, ap, ◌∙◌, arith, inl, inr, Option-cases,
  if◌then◌else◌,
}
use beta.Base.Map
use beta.Text.{CString, trim, or_empty}
use beta.Command.{Command, request_file_list}
use beta.Events.{EnvelopedEvent}
use beta.Engine.{Engine, Session, is_connected, update}
use beta.Engine.Laws.{get-update}
use beta.Requests.Queue.{send_to, reject}
use beta.Requests.Queue.Laws.{queue_command-cases}
use beta.Requests.Admission.{connected_found}
use beta.Transfers.{queued_or}
use beta.Transfers.Listings.{
  FileListEntry, request_id_of, register_listing, begin_listing, ts_list_files, file_list,
  file_list_finished,
}
use beta.Transfers.Listings.Answered.{files_of, listed_event, file_list_finished_lem}

module _ {Tx : Type 0} (send : Tx → Command → Option Tx) (e : Engine Tx) (conn_id : ℕ) where
  -- A listing that has an id: what was sent and what is kept.
  pub record Requested (channel_id : ℕ) (path password : CString) (result : Engine Tx × ℕ)
      : Type 0 where
    pub before : Session Tx
    pub after : Session Tx
    pub given : Text
    pub tx : Tx
    pub was_given : path ≡ some given
    pub not_blank : is_empty (trim given) ≡ false
    pub was_there : Map.get conn_id e.sessions ≡ some before
    pub is_there : Map.get conn_id result.0.sessions ≡ some after
    pub was_connected : before.state.connected ≡ true
    pub numbered : result.1 ≡ request_id_of before.next_request_id
    pub sent :
        send_to send before (request_file_list result.1 channel_id (or_empty password) (trim given))
        ≡ some tx
    pub registered : Map.get (channel_id, trim given) after.pending_file_requests ≡ some result.1
    pub same_state : after.state ≡ before.state
    pub same_events : result.0.event_queue ≡ e.event_queue

  begin_listing-Requested :
      (s : Session Tx) (channel_id : ℕ) (given : Text) (password : CString)
      → Map.get conn_id e.sessions ≡ some s
      → is_empty (trim given) ≡ false
      → s.state.connected ≡ true
      → (begin_listing send e conn_id channel_id (trim given) (or_empty password)).1 ≢ 0
      → Requested channel_id
          (some given)
          password
          (begin_listing send e conn_id channel_id (trim given) (or_empty password))
  unfolding begin_listing queued_or register_listing send_to
  begin_listing-Requested s channel_id given password there text on nonzero =
      let id : ℕ = request_id_of s.next_request_id in
      let path : Text = trim given in
      let e' : Engine Tx = update e conn_id (register_listing id channel_id path) in
      let there' = get-update e conn_id (register_listing id channel_id path) s there in
      elim (queue_command-cases send e' conn_id (register_listing id channel_id path s)
        (request_file_list id channel_id (or_empty password) path) there') [
          | inl shut ↦ absurd (nonzero (rw (there, shut, begin_listing) refl))
          | inr (tx, sends, taken) ↦
              rw (there, taken, begin_listing)
                (record {
                  before = s;
                  after = record (register_listing id channel_id path s) { command_tx = some tx };
                  given = given;
                  tx = tx;
                  was_given = refl;
                  not_blank = text;
                  was_there = there;
                  is_there =
                      get-update e' conn_id (λ s'. record s' { command_tx = some tx })
                        (register_listing id channel_id path s) there';
                  was_connected = on;
                  numbered = refl;
                  sent = sends;
                  registered = ground (
                    arith,
                    Map.get-insert (channel_id, path) (channel_id, path) id s.pending_file_requests,
                    pair_eq_iff nat_equal text_equal (channel_id, path) (channel_id, path),
                  );
                  same_state = refl;
                  same_events = refl;
                })
        ]

  unless_rejected :
      (test : Bool) {channel_id : ℕ} {path password : CString} {result : Engine Tx × ℕ}
      → (test ≡ false → result.1 ≢ 0 → Requested channel_id path password result)
      → (if test then reject e else result).1 ≢ 0
      → Requested channel_id path password (if test then reject e else result)
  unless_rejected true rest nonzero = absurd (nonzero refl)
  unless_rejected false rest nonzero = rest refl nonzero

  -- An id of ts_list_files other than 0 stands for a listing that a connected session has sent with
  -- the trimmed path, and that is kept under the channel and this path.
  pub ts_list_files-Requested :
      (channel_id : ℕ) (path password : CString)
      → (ts_list_files send e conn_id channel_id path password).1 ≢ 0
      → Requested channel_id path password (ts_list_files send e conn_id channel_id path password)
  unfolding ts_list_files begin_listing
  ts_list_files-Requested channel_id none password = λ nonzero. absurd (nonzero refl)
  ts_list_files-Requested channel_id (some given) password =
      unless_rejected (not (is_connected e conn_id)) λ on.
        unless_rejected (is_empty (trim given)) λ text nonzero.
          elim (Option-cases (Map.get conn_id e.sessions)) [
            | inl gone ↦ absurd (nonzero (rw (gone, begin_listing) refl))
            | inr (s, there) ↦
                begin_listing-Requested s channel_id given password there text
                  (connected_found send e conn_id s there on) nonzero
          ]

-- From the call to the answer: where ts_list_files returns an id other than 0 and the list in
-- waiting of the directory is empty, the entries of the directory that come are handed out in
-- their order in one event with this id once the server ends the listing.
pub ts_list_files-file_list_finished :
    {Tx : Type 0} (send : Tx → Command → Option Tx) (e : Engine Tx) (conn_id : ℕ) (s : Session Tx)
    (channel_id : ℕ) (path : Text) (password : CString) (entries : List FileListEntry)
    → Map.get conn_id e.sessions ≡ some s
    → Map.get (channel_id, trim path) s.state.file_list_buffers ≡ none
    → (ts_list_files send e conn_id channel_id (some path) password).1 ≢ 0
    → let (e', id) = ts_list_files send e conn_id channel_id (some path) password in
      (file_list_finished conn_id
        (file_list conn_id e' entries)
        ((channel_id, trim path) ∷ [])).event_queue
      ≡ e.event_queue
        ++ listed_event conn_id id channel_id (trim path) (files_of (channel_id, trim path) entries)
          ∷ []
ts_list_files-file_list_finished {Tx = Tx} send e conn_id s channel_id path password entries there
      empty nonzero =
    let call : Engine Tx × ℕ = ts_list_files send e conn_id channel_id (some path) password in
    let r : Requested send e conn_id channel_id (some path) password call =
      ts_list_files-Requested send e conn_id channel_id (some path) password nonzero in
    let key : ℕ × Text = (channel_id, trim path) in
    let asked : Map.get key r.after.pending_file_requests ≡ some call.1 =
      ground (arith, r.was_given, r.registered) in
    let waiting : Map.get key r.after.state.file_list_buffers ≡ none =
      ground (arith, r.same_state, r.was_there, there, empty) in
    let answer : List EnvelopedEvent =
      listed_event conn_id call.1 channel_id (trim path) (files_of key entries) ∷ [] in
    (file_list_finished_lem conn_id call.0 r.after entries channel_id (trim path) call.1 r.is_there
      asked waiting).0
    ∙ ap (λ queue. queue ++ answer) r.same_events
