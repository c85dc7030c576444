-- ===== src/Maintenance/Tests.antt =====
-- Tests of Maintenance.
use Prim.Native.Nat.{ℕ, ◌*◌}
use beta.Base.{false, some, List, [], ◌∷◌, ◌≡◌}
use beta.Command.{Command}
use beta.Engine.{Engine, AudioKey, new_engine}
use beta.Jitter.{new_buffer}
use beta.Disconnect.{has_key}
use beta.EventLoop.Hearing.{Buffers}
use beta.Maintenance.{cleanup_tick}
use beta.Maintenance.Stale.{cleanup_tick_lem}

-- Client 4 was heard after four seconds, client 9 five seconds later.
abbrev engine : Engine (List Command)
engine = record new_engine {
  client_buffers = (1, 4) ∷ (1, 9) ∷ [];
  audio_decoders = (1, 4) ∷ (1, 9) ∷ (1, 5) ∷ [];
}

abbrev heard_at : AudioKey → ℕ
heard_at key = key.1 * 1_000_000_000

abbrev buffers : Buffers
buffers = λ key. record new_buffer { last_packet = some (heard_at key) }

abbrev soon : ℕ
soon = 15_000_000_000

cleanup_tick_lem_example :
    (has_key (1, 4) (cleanup_tick buffers soon engine).client_buffers ≡ false)
    × (has_key (1, 4) (cleanup_tick buffers soon engine).audio_decoders ≡ false)
cleanup_tick_lem_example = cleanup_tick_lem buffers soon (1, 4) engine
