-- ===== src/EventLoop/Rtt.antt =====
-- The jitter that the engine works out from the round trip times of the connection.
use Prim.Native.Nat.{ℕ, ◌<◌}
use beta.Base.{List, [], ◌∷◌, ◌≡◌, refl, sym, subst, ◌∙◌, arith}
use beta.Engine.{TsConnection}
use beta.EventLoop.Incoming.{note_rtt, for_each}

-- Each time is shorter than the one before.
abbrev pub Decreasing : ℕ → List ℕ → Type 0
Decreasing last [] = Unit {0}
Decreasing last (rtt ∷ rtts) = (rtt < last) × Decreasing rtt rtts

abbrev pub note_all : TsConnection → List ℕ → TsConnection
note_all = for_each (λ st rtt_ms. note_rtt rtt_ms st)

note_rtt_shorter :
    (st : TsConnection) (rtt : ℕ)
    → rtt < st.last_rtt_ms
    → ((note_rtt rtt st).jitter_ms ≡ st.jitter_ms) × ((note_rtt rtt st).last_rtt_ms ≡ rtt)
unfolding note_rtt
note_rtt_shorter st rtt h = ground arith

-- While the round trip times fall, however far from one to the next, the jitter stays as it was.
falling_rtts :
    (st : TsConnection) (rtts : List ℕ)
    → Decreasing st.last_rtt_ms rtts
    → (note_all st rtts).jitter_ms ≡ st.jitter_ms
falling_rtts st [] h = refl
falling_rtts st (rtt ∷ rtts) (shorter, rest) =
    let (same, now) = note_rtt_shorter st rtt shorter in
    falling_rtts (note_rtt rtt st) rtts (subst (λ n. Decreasing n rtts) (sym now) rest) ∙ same
