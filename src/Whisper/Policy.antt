-- ===== src/Whisper/Policy.antt =====
-- Who may whisper to this client, and when the own whisper is armed.
use Prim.Native.Nat.{ℕ}
use beta.Base.{
  Bool, true, false, ◌&&◌, not, none, some, Text, ◌==◌, if◌then◌else◌, nat_equal, ◌≡◌, ◌≢◌, arith,
  inl, inr, Option-cases, Bool-cases, ap, ◌∙◌,
}
use beta.Base.Word.{saturating_add_u64}
use beta.Engine.{Engine, TsConnection, session, update_state}
use beta.Engine.Laws.{session-update_state}
use beta.Requests.Queue.{nonzero}
use beta.Whisper.{
  has_target, ts_set_whisper_active, listed, uid_of, sender_is_listed, whisper_is_allowed,
}

module _ {Tx : Type 0} (e : Engine Tx) (conn_id from_id : ℕ) (st : TsConnection) where
  -- One more refused whisper on the session's books, and no other change.
  abbrev counted : Engine Tx
  counted =
      update_state e conn_id
        (λ s. record s { whisper_ignored_count = saturating_add_u64 s.whisper_ignored_count 1 })

  -- What a whisper meets, and the result that it gets.
  pub data Verdict (result : Engine Tx × Bool) : Type 0 where
    list_off : st.whisper_allow_mode ≡ 0 → result ≡ (e, true) → Verdict result
    on_list :
        (uid : Text)
        → st.whisper_allow_mode ≢ 0
        → uid_of st from_id ≡ some uid
        → listed uid st.whisper_allowed_uids ≡ true
        → result ≡ (e, true)
        → Verdict result
    not_on_list :
        (uid : Text)
        → st.whisper_allow_mode ≢ 0
        → uid_of st from_id ≡ some uid
        → listed uid st.whisper_allowed_uids ≡ false
        → result ≡ (counted, false)
        → Verdict result
    unknown :
        st.whisper_allow_mode ≢ 0
        → uid_of st from_id ≡ none
        → result ≡ (counted, false)
        → Verdict result

  -- The part of `whisper_is_allowed` behind the session's lock.
  decided :
      session e conn_id ≡ some st
      → whisper_is_allowed e conn_id from_id ≡ (
          if st.whisper_allow_mode == 0
          then (e, true)
          else if sender_is_listed st from_id
          then (e, true)
          else (counted, false))
  unfolding whisper_is_allowed
  decided found = rw (found, whisper_is_allowed)

  -- With the allow list off every whisper passes. With it on a whisper passes exactly when the
  -- sender's uid is known and on the list; one that does not pass is counted, and nothing else
  -- changes.
  whisper_is_allowed_lem :
      session e conn_id ≡ some st → Verdict (whisper_is_allowed e conn_id from_id)
  unfolding sender_is_listed
  whisper_is_allowed_lem found = elim (Bool-cases (st.whisper_allow_mode == 0)) [
    | inl off ↦ list_off (ground arith) (rw (decided found) (rw off))
    | inr on ↦ elim (Option-cases (uid_of st from_id)) [
      | inl missing ↦
          unknown (ground arith) missing (rw (decided found) (rw (on, missing, sender_is_listed)))
      | inr (uid, known) ↦ elim (Bool-cases (listed uid st.whisper_allowed_uids)) [
        | inl yes_ ↦
            on_list uid (ground arith) known yes_
              (rw (decided found) (rw (on, known, sender_is_listed) (rw yes_)))
        | inr no_ ↦
            not_on_list uid (ground arith) known no_
              (rw (decided found) (rw (on, known, sender_is_listed) (rw no_)))
      ]
    ]
  ]

no_target : (active target : Bool) → (active && not target) ≡ true → false ≡ (active && target)
no_target active target h = ground arith

some_target : (active target : Bool) → (active && not target) ≡ false → active ≡ (active && target)
some_target active target h = ground arith

module _ {Tx : Type 0} (e : Engine Tx) (conn_id : ℕ) where
  set_active :
      (active : ℕ) (st : TsConnection)
      → session e conn_id ≡ some st
      → ts_set_whisper_active e conn_id active ≡ (
          if nonzero active && not (has_target st)
          then (update_state e conn_id (λ s. record s { whisper_active = false }), 0)
          else (update_state e conn_id (λ s. record s { whisper_active = nonzero active }), 1))
  unfolding ts_set_whisper_active
  set_active active st found = rw (found, ts_set_whisper_active)

  -- The whisper can be armed only while there is a target: asked to arm it without one, the call
  -- returns 0 and leaves it disarmed; else it returns 1 and the whisper is as asked for.
  ts_set_whisper_active_lem :
      (active : ℕ) (st : TsConnection)
      → session e conn_id ≡ some st
      → let armed = nonzero active && has_target st in
        (session (ts_set_whisper_active e conn_id active).0 conn_id
          ≡ some (record st { whisper_active = armed }))
        × ((ts_set_whisper_active e conn_id active).1
            ≡ (if nonzero active && not armed then 0 else 1))
  unfolding ts_set_whisper_active
  ts_set_whisper_active_lem active st found =
      elim (Bool-cases (nonzero active && not (has_target st))) [
        | inl refused ↦ rw (set_active active st found) (
            rw refused (
              session-update_state e conn_id (λ s. record s { whisper_active = false }) st found
                  ∙ ap (λ a. some (record st { whisper_active = a })) (no_target _ _ refused),
              ground (arith, refused),
            ))
        | inr accepted ↦ rw (set_active active st found) (
            rw accepted (
              session-update_state e conn_id (λ s. record s { whisper_active = nonzero active }) st
                    found
                  ∙ ap (λ a. some (record st { whisper_active = a })) (some_target _ _ accepted),
              ground (arith, accepted),
            ))
      ]
