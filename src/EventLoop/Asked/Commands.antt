-- ===== src/EventLoop/Asked/Commands.antt =====
-- The command between what the user asks for and what the server is told.
use Prim.Native.Nat.{ℕ, ◌<◌}
use beta.Base.{
  Bool, true, false, none, some, List, [], Text, find, nat_equal, ◌==◌, ◌≡◌, ◌≢◌, refl, ap, ◌∙◌,
  arith,
}
use beta.Base.Map
use beta.Base.Word.{as_u16}
use beta.Text.{optional_reason, non_empty, or_empty}
use beta.Command.{Command}
use beta.Events.{TsClient}
use beta.Engine.{Engine, Session, own_client_id}
use beta.Requests.Moderation.{database_id_of}
use beta.Requests.Calls.{Request}
use beta.Requests.Admission.Accepted.{
  Asks, asks_channel_message, asks_private_message, asks_server_message, asks_move,
  asks_subscription, asks_unsubscription, asks_deletion, asks_kick, asks_ban, asks_group_addition,
  asks_group_removal, asks_silence, asks_poke, asks_nickname, asks_away, asks_mute,
  asks_file_deletion, asks_token,
}
use beta.EventLoop.Wire.{Message}
use beta.EventLoop.Messages.{message_of, no_update}
use beta.EventLoop.Round.{is_direct}
use beta.EventLoop.Asked.{
  Means, says_in_channel, says_to_client, says_on_server, goes_to_open_channel,
  goes_to_closed_channel, wants_channel, leaves_channel, deletes_empty, kicks_from_channel,
  kicks_from_server, bans_for_ever, bans_for, gives_group, takes_group, silences, gives_the_word,
  nudges, takes_name, goes_away, comes_back, mutes_microphone, deletes_a_file, uses_key,
}

module _ (is_ip_addr : Text → Bool) (e : Engine (List Command)) (conn_id : ℕ)
    (s : Session (List Command)) (there : Map.get conn_id e.sessions ≡ some s) where
  own_is : own_client_id e conn_id ≡ s.state.own_client_id
  unfolding own_client_id
  own_is = ground (arith, there)

  database_id_is :
      (client_id : ℕ) (c : TsClient)
      → find (λ x. as_u16 x.id == client_id) s.state.clients ≡ some c
      → database_id_of e conn_id client_id ≡ c.database_id
  unfolding database_id_of
  database_id_is client_id c known = ground (arith, there, known)

  nonzero_id : {n : ℕ} → 0 < n → n ≢ 0
  nonzero_id h = λ z. absurd (omega (arith, h, z))

  not_own : {n : ℕ} → n ≢ s.state.own_client_id → n ≢ own_client_id e conn_id
  not_own other = λ z. other (z ∙ own_is)

  -- The command between the two.
  abbrev pub Through : Request → Message → Type 0
  Through r m =
      (c : Command) × Asks e conn_id r c
      × (message_of is_ip_addr c ≡ some m)
      × (is_direct c ≡ false)

  pub Means-Through : (r : Request) (m : Message) → Means s.state r m → Through r m
  unfolding message_of is_direct non_empty or_empty optional_reason
  Means-Through _ _ (says_in_channel cid text h) = (_, asks_channel_message cid text h, refl, refl)
  Means-Through _ _ (says_on_server text h) = (_, asks_server_message text h, refl, refl)
  Means-Through _ _ (says_to_client client_id text pos_ small h) =
      (_, asks_private_message client_id text (nonzero_id pos_) (omega arith) h, ground arith, refl)
  Means-Through _ _ (goes_to_open_channel cid small) =
      (_, asks_move cid none, ground (arith, own_is, small), refl)
  Means-Through _ _ (goes_to_closed_channel cid password small h) =
      (_, asks_move cid (some password), ground (arith, own_is, small, h), refl)
  Means-Through _ _ (wants_channel channel_id h) =
      (_, asks_subscription channel_id (nonzero_id h), refl, refl)
  Means-Through _ _ (leaves_channel channel_id h) =
      (_, asks_unsubscription channel_id (nonzero_id h), refl, refl)
  Means-Through _ _ (deletes_empty channel_id h) =
      (_, asks_deletion channel_id 0 (nonzero_id h), refl, refl)
  Means-Through _ _ (kicks_from_channel client_id h other) =
      (_, asks_kick client_id 0 none (nonzero_id h) (not_own other), refl, refl)
  Means-Through _ _ (kicks_from_server client_id why reason h other given) = (
    _,
    asks_kick client_id 1 (some why) (nonzero_id h) (not_own other),
    ap (λ o. some (Message.client_kick client_id true o)) given,
    refl,
  )
  Means-Through _ _ (bans_for_ever client_id h other) =
      (_, asks_ban client_id 0 none (nonzero_id h) (not_own other), refl, refl)
  Means-Through _ _ (bans_for client_id seconds h other some_ small) = (
    _,
    asks_ban client_id seconds none (nonzero_id h) (not_own other),
    ground (arith, some_, small),
    refl,
  )
  Means-Through _ _ (gives_group client_id group_id c h known has) =
      let same = database_id_is client_id c known in
      (
        _,
        asks_group_addition client_id group_id (nonzero_id h) (rw same (nonzero_id has)),
        ap (λ n. some (Message.server_group_add_client group_id n)) same,
        refl,
      )
  Means-Through _ _ (takes_group client_id group_id c h known has) =
      let same = database_id_is client_id c known in
      (
        _,
        asks_group_removal client_id group_id (nonzero_id h) (rw same (nonzero_id has)),
        ap (λ n. some (Message.server_group_del_client group_id n)) same,
        refl,
      )
  Means-Through _ _ (silences client_id h other) =
      (_, asks_silence client_id 0 (nonzero_id h) (not_own other), refl, refl)
  Means-Through _ _ (gives_the_word client_id h other) =
      (_, asks_silence client_id 1 (nonzero_id h) (not_own other), refl, refl)
  Means-Through _ _ (nudges client_id typed text h given) =
      (_, asks_poke client_id typed text (nonzero_id h) given, refl, refl)
  Means-Through _ _ (takes_name typed name same low high) = (
    _,
    asks_nickname typed (rw same low) (rw same high),
    ap (λ n. some (Message.client_update (record no_update { name = some n }))) same,
    refl,
  )
  Means-Through _ _ (goes_away typed text given) =
      (_, asks_away 1 (some typed), ground (arith, given), refl)
  Means-Through _ _ (comes_back typed) = (_, asks_away 0 typed, refl, refl)
  Means-Through _ _ mutes_microphone = (_, asks_mute 1 0, refl, refl)
  Means-Through _ _ (deletes_a_file channel_id typed path same h) = (
    _,
    asks_file_deletion channel_id typed none (rw same h),
    ap (λ p. some (Message.delete_file channel_id [] p)) same,
    refl,
  )
  Means-Through _ _ (uses_key typed token same h) =
      (_, asks_token typed (rw same h), ap (λ t. some (Message.privilege_key_use t)) same, refl)
