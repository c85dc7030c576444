-- ===== src/Whisper.antt =====
-- native/src/api.rs, whispering: the target lists, the allow list, and the switches. The JSON texts
-- are parsed by serde_json, which is a parameter.
pub mod Targets
pub mod Policy
mod Tests
use Prim.Native.Nat.{ℕ}
use beta.Base.{
  Bool, true, false, ◌&&◌, ◌||◌, not, Option, none, some, List, [], ◌∷◌, map, Text, take, keep,
  find, is_empty, ltb, leb, ◌==◌, text_eq, if◌then◌else◌, nat_equal,
}
use beta.Base.Word.{as_u16, u16_max, saturating_add_u64}
use beta.Text.{CString}
use beta.Engine.{Engine, TsConnection, session, update_state}
use beta.Requests.Queue.{nonzero, let_some, reject}

abbrev pub whisper_max_targets : ℕ
whisper_max_targets = 100

-- `slice::sort_unstable` on integers.
pub insert_sorted : ℕ → List ℕ → List ℕ
insert_sorted x [] = x ∷ []
insert_sorted x (y ∷ ys) = if leb x y then x ∷ y ∷ ys else y ∷ insert_sorted x ys

pub sort : List ℕ → List ℕ
unfolding insert_sorted
sort [] = []
sort (x ∷ xs) = insert_sorted x (sort xs)

-- `Vec::dedup`: the entries that differ from the one before.
pub dedup_after : ℕ → List ℕ → List ℕ
dedup_after x [] = []
dedup_after x (y ∷ ys) = let rest = dedup_after y ys in if x == y then rest else y ∷ rest

pub dedup : List ℕ → List ℕ
unfolding dedup_after
dedup [] = []
dedup (x ∷ xs) = x ∷ dedup_after x xs

abbrev pub is_client_target : ℕ → ℕ → Bool
is_client_target own id = not (id == 0) && not (id == own) && leb id u16_max

unfoldable pub sanitize_whisper_targets : List ℕ → List ℕ → ℕ → List ℕ × List ℕ
unfolding sort dedup
sanitize_whisper_targets clients channels own = (
  take whisper_max_targets (dedup (sort (map as_u16 (keep (is_client_target own) clients)))),
  take whisper_max_targets (dedup (sort (keep (λ id. not (id == 0)) channels))),
)

unfoldable pub has_target : TsConnection → Bool
has_target st =
    not (is_empty st.whisper_target_clients) || not (is_empty st.whisper_target_channels)

module _ {Tx : Type 0} (e : Engine Tx) (conn_id : ℕ) where
  unfoldable pub ts_set_whisper_targets :
      (parse : Text → Option (List ℕ × List ℕ)) → CString → Engine Tx × ℕ
  ts_set_whisper_targets parse none = reject e
  ts_set_whisper_targets parse (some raw) = let_some e (parse raw) λ parsed.
      let_some e (session e conn_id) λ st. (
        update_state e conn_id (λ s. record s {
          whisper_target_clients = (sanitize_whisper_targets parsed.0 parsed.1 s.own_client_id).0;
          whisper_target_channels = (sanitize_whisper_targets parsed.0 parsed.1 s.own_client_id).1;
        }),
        1,
      )

  pub ts_set_whisper_active : ℕ → Engine Tx × ℕ
  unfolding has_target
  ts_set_whisper_active active = let_some e (session e conn_id) λ st.
      if nonzero active && not (has_target st)
      then (update_state e conn_id (λ s. record s { whisper_active = false }), 0)
      else (update_state e conn_id (λ s. record s { whisper_active = nonzero active }), 1)

  pub ts_set_whisper_allow_mode : ℕ → Engine Tx × ℕ
  ts_set_whisper_allow_mode mode =
      if ltb 1 mode
      then reject e
      else let_some e (session e conn_id)
          λ st. (update_state e conn_id (λ s. record s { whisper_allow_mode = mode }), 1)

  pub ts_set_whisper_allowlist : (parse : Text → Option (List Text)) → CString → Engine Tx × ℕ
  ts_set_whisper_allowlist parse none = reject e
  ts_set_whisper_allowlist parse (some raw) = let_some e (parse raw) λ uids.
      let_some e (session e conn_id) λ st. (
        update_state e conn_id
            (λ s. record s { whisper_allowed_uids = keep (λ uid. not (is_empty uid)) uids }),
        1,
      )

-- `HashSet::contains`.
abbrev pub listed : Text → List Text → Bool
listed uid [] = false
listed uid (u ∷ us) = text_eq u uid || listed uid us

-- The uid of the client with this id in the roster.
unfoldable pub uid_of : TsConnection → ℕ → Option Text
uid_of st from_id = elim (find (λ c. as_u16 c.id == from_id) st.clients) [
  | none ↦ none
  | some c ↦ c.uid
]

pub sender_is_listed : TsConnection → ℕ → Bool
unfolding uid_of
sender_is_listed st from_id = elim (uid_of st from_id) [
  | none ↦ false
  | some uid ↦ listed uid st.whisper_allowed_uids
]

unfoldable pub whisper_is_allowed : {Tx : Type 0} → Engine Tx → ℕ → ℕ → Engine Tx × Bool
unfolding sender_is_listed
whisper_is_allowed e conn_id from_id = elim (session e conn_id) [
  | none ↦ (e, false)
  | some st ↦
      if st.whisper_allow_mode == 0
      then (e, true)
      else if sender_is_listed st from_id
      then (e, true)
      else (
        update_state e conn_id (λ s. record s {
          whisper_ignored_count = saturating_add_u64 s.whisper_ignored_count 1;
        }),
        false,
      )
]
