-- ===== src/Whisper/Tests.antt =====
-- Whispering at concrete inputs.
use Prim.Native.Nat.{ℕ, ◌≤◌}
use beta.Base.{true, false, some, List, [], ◌∷◌, length, nat_equal, ◌≡◌, refl}
use beta.Engine.{Engine, TsConnection, new_connection, new_session, new_engine, session}
use beta.Whisper.{sanitize_whisper_targets, whisper_is_allowed}
use beta.Whisper.Targets.{Ascending, sanitize_whisper_targets-Ascending}

-- Client 7 is the own client; 0 and 70000 are no client ids.
abbrev asked : List ℕ
asked = 9 ∷ 0 ∷ 4 ∷ 7 ∷ 9 ∷ 70000 ∷ 2 ∷ []

sanitize-asked : sanitize_whisper_targets asked (3 ∷ 0 ∷ 3 ∷ []) 7 ≡ (2 ∷ 4 ∷ 9 ∷ [], 3 ∷ [])
unfolding sanitize_whisper_targets
sanitize-asked = refl

sanitize_whisper_targets-Ascending_example :
    let (to_clients, to_channels) = sanitize_whisper_targets asked (3 ∷ 0 ∷ 3 ∷ []) 7 in
    Ascending to_clients
    × (length to_clients ≤ 100)
    × Ascending to_channels
    × (length to_channels ≤ 100)
sanitize_whisper_targets-Ascending_example =
    sanitize_whisper_targets-Ascending asked (3 ∷ 0 ∷ 3 ∷ []) 7

-- The allow list is on, and no client is known.
abbrev guarded : TsConnection
guarded = record new_connection { connected = true; whisper_allow_mode = 1 }

abbrev engine : Engine (List ℕ)
engine = record new_engine { sessions = (1, new_session 1 guarded 0) ∷ [] }

stranger_is_counted :
    ((whisper_is_allowed engine 1 5).1 ≡ false)
    × (session (whisper_is_allowed engine 1 5).0 1
        ≡ some (record guarded { whisper_ignored_count = 1 }))
unfolding whisper_is_allowed
stranger_is_counted = (refl, refl)
