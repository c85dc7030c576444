-- ===== src/Transfers/Listings/Answered.antt =====
-- The answer to the listing of a directory: the entries of other directories may come in between.
use Prim.Native.Nat.{ℕ}
use mathlib.Core.List.{append_assoc, append-nil}
use beta.Base.{
  true, none, some, List, [], ◌∷◌, ◌++◌, Text, map, keep, nat_equal, text_equal, pair_equal,
  pair_eq_iff, ◌===◌, ◌≡◌, refl, sym, ◌∙◌, arith,
}
use beta.Base.Map
use beta.Base.Map.{Map}
use beta.Base.Word.{as_u32}
use beta.Events.{TsServerFile, EnvelopedEvent, server_file_list}
use beta.Engine.{Engine, Session, TsConnection, update_state, push_event}
use beta.Engine.Laws.{get-update}
use beta.Transfers.Listings.{
  FileListEntry, server_file, or_default, buffer, file_list, finish, listing_of, file_list_finished,
}

-- The files of one directory among the entries.
abbrev pub files_of : ℕ × Text → List FileListEntry → List TsServerFile
files_of key entries = map server_file (keep (λ x. (x.channel_id, x.path) === key) entries)

buffer-Files :
    (key : ℕ × Text) (entry : FileListEntry) (entries : List FileListEntry) (st : TsConnection)
    → or_default (Map.get key (buffer entry st).file_list_buffers) ++ files_of key entries
      ≡ or_default (Map.get key st.file_list_buffers) ++ files_of key (entry ∷ entries)
unfolding buffer
buffer-Files key entry entries st =
    let own : ℕ × Text = (entry.channel_id, entry.path) in
    let old : List TsServerFile = or_default (Map.get own st.file_list_buffers) in
    ground (
      arith,
      Map.get-insert own key (old ++ server_file entry ∷ []) st.file_list_buffers,
      pair_eq_iff nat_equal text_equal own key,
      append_assoc old (server_file entry ∷ []) (files_of key entries),
    )

-- The event that the end of a listing is answered with.
abbrev pub listed_event :
    (conn_id id channel_id : ℕ) (path : Text) → List TsServerFile → EnvelopedEvent
listed_event conn_id id channel_id path files = record {
  connection_id = conn_id;
  event = server_file_list id (as_u32 channel_id) path true none files;
}

module _ {Tx : Type 0} (conn_id : ℕ) where
  -- The session after the entries: only the lists in waiting have changed.
  pub record Listed (e : Engine Tx) (s : Session Tx) (entries : List FileListEntry) : Type 0 where
    pub after : Session Tx
    pub found : Map.get conn_id (file_list conn_id e entries).sessions ≡ some after
    pub requests : after.pending_file_requests ≡ s.pending_file_requests
    pub buffers :
        (key : ℕ × Text)
        → or_default (Map.get key after.state.file_list_buffers)
          ≡ or_default (Map.get key s.state.file_list_buffers) ++ files_of key entries
    pub events : (file_list conn_id e entries).event_queue ≡ e.event_queue

  pub file_list-Listed :
      (e : Engine Tx) (s : Session Tx) (entries : List FileListEntry)
      → Map.get conn_id e.sessions ≡ some s
      → Listed e s entries
  unfolding file_list
  file_list-Listed e s [] there = record {
    after = s;
    found = there;
    requests = refl;
    buffers = λ key. sym (append-nil (or_default (Map.get key s.state.file_list_buffers)));
    events = refl;
  }
  file_list-Listed e s (entry ∷ entries) there =
      let next : Session Tx = record s { state = buffer entry s.state } in
      let rest : Listed (update_state e conn_id (buffer entry)) next entries =
        file_list-Listed (update_state e conn_id (buffer entry)) next entries
          (get-update e conn_id (λ s'. record s' { state = buffer entry s'.state }) s there) in
      record {
        after = rest.after;
        found = rest.found;
        requests = rest.requests;
        buffers = λ key. rest.buffers key ∙ buffer-Files key entry entries s.state;
        events = rest.events;
      }

  -- Where a listing of the directory is asked for and no file of it has come yet, the end of the
  -- listing gives one event: it has the id of the request and the files of the directory in the
  -- order in which they came, whatever came of others. The request is then no longer kept, and the
  -- list in waiting is empty.
  pub file_list_finished_lem :
      (e : Engine Tx) (s : Session Tx) (entries : List FileListEntry) (channel_id : ℕ) (path : Text)
      (id : ℕ)
      → Map.get conn_id e.sessions ≡ some s
      → Map.get (channel_id, path) s.pending_file_requests ≡ some id
      → Map.get (channel_id, path) s.state.file_list_buffers ≡ none
      → let after =
          file_list_finished conn_id (file_list conn_id e entries) ((channel_id, path) ∷ []) in
        (after.event_queue
          ≡ e.event_queue
            ++ listed_event conn_id id channel_id path (files_of (channel_id, path) entries) ∷ [])
        × (listing_of conn_id after channel_id path ≡ (0, []))
  unfolding file_list_finished listing_of finish push_event
  file_list_finished_lem e s entries channel_id path id there asked empty =
      let l : Listed e s entries = file_list-Listed e s entries there in
      let key : ℕ × Text = (channel_id, path) in
      let listing : listing_of conn_id (file_list conn_id e entries) channel_id path
          ≡ (id, files_of key entries) =
        ground (arith, l.found, l.requests, asked, empty, l.buffers key) in
      (
        ground (arith, listing, l.events),
        rw
            (
              get-update (file_list conn_id e entries) conn_id (finish channel_id path) l.after
                  l.found,
              listing_of,
            )
            (ground (
              arith,
              Map.get-remove key key l.after.pending_file_requests,
              Map.get-remove key key l.after.state.file_list_buffers,
              pair_eq_iff nat_equal text_equal key key,
            )),
      )
