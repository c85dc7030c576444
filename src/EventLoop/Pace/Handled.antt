-- ===== src/EventLoop/Pace/Handled.antt =====
-- What an item of the connection does to the budget of the session: only an error that tells of
-- flooding reaches it, and degrades it.
use Prim.Native.Nat.{ℕ, ◌≤◌}
use beta.Base.{
  true, Text, none, some, List, [], ◌∷◌, nat_equal, ◌≡◌, refl, ◌∙◌, arith, inl, inr, Option-cases,
  Bool-cases,
}
use beta.Base.Map
use beta.Budget.{CommandBudget, enter_degraded}
use beta.Budget.Runs.{Runs-none, Runs-enter_degraded}
use beta.Events.{TsEvent, server_file_list, server_file_info}
use beta.Engine.{Engine, Session, session, update, update_state, push_event}
use beta.Roster.{Book}
use beta.EventLoop.Incoming.{CommandError, for_each, is_ok, is_flooding}
use beta.EventLoop.Handlers.{Sight, push_all, refresh, command_failed}
use beta.EventLoop.Pace.{budget_of, Leads, Leads-append, budget_of-update}
use beta.Transfers.{take_download, take_upload, transfer_failed, forget_download, forget_upload}
use beta.Transfers.Listings.{
  FileListEntry, FileInfoItem, file_list, file_list_finished, file_info, buffer, finish,
  forget_info, listing_of, request_of, nonnegative,
}
use beta.Base.Word.{as_u32}

module _ {Tx : Type 0} (conn_id t : ℕ) where
  -- An engine whose budget is that of another has come from it without an operation.
  pub Leads-kept :
      (b : CommandBudget) (e e' : Engine Tx)
      → budget_of conn_id e' ≡ budget_of conn_id e
      → budget_of conn_id e ≡ some b
      → Leads conn_id t b [] e'
  Leads-kept b e e' same h = (b, Runs-none t b, same ∙ h)

  -- A loop whose rounds release nothing.
  pub Leads-for_each {ℓ} :
      {A : Type ℓ} (body : Engine Tx → A → Engine Tx)
      → ((b : CommandBudget) (e : Engine Tx) (x : A)
          → budget_of conn_id e ≡ some b
          → Leads conn_id t b [] (body e x))
      → (b : CommandBudget) (e : Engine Tx) (xs : List A) → budget_of conn_id e ≡ some b
      → Leads conn_id t b [] (for_each body e xs)
  Leads-for_each body one b e [] h = (b, Runs-none t b, h)
  Leads-for_each body one b e (x ∷ xs) h =
      Leads-append conn_id t b [] [] (body e x) (for_each body (body e x) xs) (one b e x h)
        (λ b' h'. Leads-for_each body one b' (body e x) xs h')

  pub Leads-update :
      (b : CommandBudget) (e : Engine Tx) (f : Session Tx → Session Tx)
      → ((s : Session Tx) → (f s).command_budget ≡ s.command_budget)
      → budget_of conn_id e ≡ some b
      → Leads conn_id t b [] (update e conn_id f)
  Leads-update b e f same h =
      Leads-kept b e (update e conn_id f) (budget_of-update conn_id e conn_id f same) h

  pub Leads-push_event :
      (event : TsEvent) (b : CommandBudget) (e : Engine Tx)
      → budget_of conn_id e ≡ some b
      → Leads conn_id t b [] (push_event e conn_id event)
  unfolding push_event
  Leads-push_event event b e h = Leads-kept b e (push_event e conn_id event) refl h

  pub Leads-command_failed :
      (now : ℕ)
      → now ≤ t
      → (b : CommandBudget) (e : Engine Tx) (failed : CommandError) → budget_of conn_id e ≡ some b
      → Leads conn_id t b [] (command_failed conn_id now e failed)
  unfolding command_failed push_event
  Leads-command_failed now early b e failed h = elim (Bool-cases (is_ok failed.id)) [
    | inl fine ↦ rw (fine, command_failed) (Leads-kept b e e refl h)
    | inr bad ↦ elim (Bool-cases (is_flooding failed.id)) [
      | inr other ↦ rw (bad, other, command_failed) (Leads-kept b e e refl h)
      | inl flooding ↦
          rw (bad, flooding, command_failed)
            (
              enter_degraded b now,
              Runs-enter_degraded t b now early,
              ground (
                arith,
                h,
                Map.get-adjust conn_id conn_id
                    (λ s. record s { command_budget = enter_degraded s.command_budget now })
                    e.sessions,
                nat_equal.test_iff conn_id conn_id,
              ),
            )
    ]
  ]

  pub Leads-refresh :
      (see : Sight) (book : Book) (b : CommandBudget) (e : Engine Tx)
      → budget_of conn_id e ≡ some b
      → Leads conn_id t b [] (refresh conn_id see e book)
  unfolding refresh push_event
  Leads-refresh see book b e h = elim (Option-cases (session e conn_id)) [
    | inl gone ↦ rw (gone, refresh) (Leads-kept b e e refl h)
    | inr (st, found) ↦ rw (found, refresh) (Leads-update b e _ (λ s. refl) h)
  ]

  pub Leads-take_download :
      (b : CommandBudget) (e : Engine Tx) (handle : ℕ)
      → budget_of conn_id e ≡ some b
      → Leads conn_id t b [] (take_download e conn_id handle).0
  unfolding take_download forget_download
  Leads-take_download b e handle h = elim (Option-cases (Map.get conn_id e.sessions)) [
    | inl gone ↦ rw (gone, take_download) (Leads-kept b e e refl h)
    | inr (s, there) ↦ rw (there, take_download) (Leads-update b e _ (λ s'. refl) h)
  ]

  pub Leads-take_upload :
      (b : CommandBudget) (e : Engine Tx) (handle : ℕ)
      → budget_of conn_id e ≡ some b
      → Leads conn_id t b [] (take_upload e conn_id handle).0
  unfolding take_upload forget_upload
  Leads-take_upload b e handle h = elim (Option-cases (Map.get conn_id e.sessions)) [
    | inl gone ↦ rw (gone, take_upload) (Leads-kept b e e refl h)
    | inr (s, there) ↦ rw (there, take_upload) (Leads-update b e _ (λ s'. refl) h)
  ]

  pub Leads-transfer_failed :
      (b : CommandBudget) (e : Engine Tx) (handle : ℕ)
      → budget_of conn_id e ≡ some b
      → Leads conn_id t b [] (transfer_failed e conn_id handle)
  unfolding transfer_failed push_event
  Leads-transfer_failed b e handle h = elim (Option-cases (take_upload e conn_id handle).1) [
    | inl unknown ↦ rw (unknown, transfer_failed) (Leads-take_upload b e handle h)
    | inr (job, known) ↦ rw (known, transfer_failed) (Leads-take_upload b e handle h)
  ]

  pub Leads-file_list :
      (b : CommandBudget) (e : Engine Tx) (entries : List FileListEntry)
      → budget_of conn_id e ≡ some b
      → Leads conn_id t b [] (file_list conn_id e entries)
  unfolding file_list buffer
  Leads-file_list b e [] h = Leads-kept b e e refl h
  Leads-file_list b e (entry ∷ entries) h =
      let e' : Engine Tx = update_state e conn_id (buffer entry) in
      Leads-append conn_id t b [] [] e' (file_list conn_id e' entries)
        (Leads-update b e (λ s. record s { state = buffer entry s.state }) (λ s. refl) h)
        (λ b' h'. Leads-file_list b' e' entries h')

  pub Leads-file_list_finished :
      (b : CommandBudget) (e : Engine Tx) (items : List (ℕ × Text))
      → budget_of conn_id e ≡ some b
      → Leads conn_id t b [] (file_list_finished conn_id e items)
  unfolding file_list_finished finish push_event
  Leads-file_list_finished b e [] h = Leads-kept b e e refl h
  Leads-file_list_finished b e ((channel_id, path) ∷ items) h =
      let (id, files) = listing_of conn_id e channel_id path in
      let e' : Engine Tx =
        push_event (update e conn_id (finish channel_id path)) conn_id
          (server_file_list id (as_u32 channel_id) path true none files) in
      Leads-append conn_id t b [] [] e' (file_list_finished conn_id e' items)
        (Leads-update b e (finish channel_id path) (λ s. refl) h)
        (λ b' h'. Leads-file_list_finished b' e' items h')

  pub Leads-file_info :
      (b : CommandBudget) (e : Engine Tx) (items : List FileInfoItem)
      → budget_of conn_id e ≡ some b
      → Leads conn_id t b [] (file_info conn_id e items)
  unfolding file_info forget_info push_event
  Leads-file_info b e [] h = Leads-kept b e e refl h
  Leads-file_info b e (item ∷ items) h =
      let e' : Engine Tx =
        push_event (update e conn_id (forget_info item.channel_id item.name)) conn_id (
          server_file_info (request_of conn_id e item.channel_id item.name) (as_u32 item.channel_id)
            item.path item.name item.size (nonnegative item.date_time) true) in
      Leads-append conn_id t b [] [] e' (file_info conn_id e' items)
        (Leads-update b e (forget_info item.channel_id item.name) (λ s. refl) h)
        (λ b' h'. Leads-file_info b' e' items h')

  pub Leads-push_all {ℓ} :
      {A : Type ℓ} (event : A → TsEvent) (b : CommandBudget) (e : Engine Tx) (items : List A)
      → budget_of conn_id e ≡ some b
      → Leads conn_id t b [] (push_all conn_id event e items)
  Leads-push_all event b e items h =
      Leads-for_each (λ e' item. push_event e' conn_id (event item))
        (λ b' e' item h'. Leads-push_event (event item) b' e' h') b e items h
