-- ===== src/EventLoop/Vad.antt =====
-- native/src/api.rs, `hybrid_vad_should_transmit`: the voice activity gate. An `f32` is its bit
-- pattern; the arithmetic on it is a parameter.
use Prim.Native.Nat.{ℕ, ◌+◌}
use beta.Base.{Bool, false, ◌&&◌, ◌||◌, not, List, [], ◌∷◌, length, if◌then◌else◌, ◌≡◌, refl}
use beta.Engine.{TsConnection, unit_gain}

-- The operations of `f32` that the engine uses; `of_nat` is `n as f32`.
pub record Floats : Type 0 where
  pub add : ℕ → ℕ → ℕ
  pub sub : ℕ → ℕ → ℕ
  pub mul : ℕ → ℕ → ℕ
  pub div : ℕ → ℕ → ℕ
  pub max : ℕ → ℕ → ℕ
  pub min : ℕ → ℕ → ℕ
  pub abs : ℕ → ℕ
  pub sqrt : ℕ → ℕ
  pub lt : ℕ → ℕ → Bool
  pub le : ℕ → ℕ → Bool
  pub is_finite : ℕ → Bool
  pub clamp : ℕ → ℕ → ℕ → ℕ
  pub of_nat : ℕ → ℕ

-- -1.0 as an `f32`; 0.0 is the pattern 0 and 1.0 is `unit_gain`.
abbrev pub minus_one : ℕ
minus_one = 0xbf80_0000

-- The loop variables of the scan.
pub record Shape : Type 0 where
  pub sum_sq : ℕ
  pub peak : ℕ
  pub zero_crossings : ℕ
  pub previous : ℕ

module _ (f32 : Floats) where
  open f32 use {add, mul, div, max, min, abs, sqrt, lt, le, is_finite, clamp, of_nat}

  pub clean_sample : ℕ → ℕ
  clean_sample sample = if is_finite sample then clamp sample minus_one unit_gain else 0

  pub scan_sample : Shape → ℕ → Shape
  unfolding clean_sample
  scan_sample s sample =
      let clean = clean_sample sample in
      record s {
        sum_sq = add s.sum_sq (mul clean clean);
        peak = max s.peak (abs clean);
        zero_crossings =
            if (if le 0 clean then not (le 0 s.previous) else le 0 s.previous)
            then s.zero_crossings + 1
            else s.zero_crossings;
        previous = clean;
      }

  pub scan : Shape → List ℕ → Shape
  unfolding scan_sample
  scan s [] = s
  scan s (sample ∷ samples) = scan (scan_sample s sample) samples

  -- 0.8, 0.0001, 0.98 and 0.02.
  pub learn_floor : (configured_gate rms noise_floor : ℕ) → ℕ
  learn_floor configured_gate rms noise_floor =
      if lt rms (mul configured_gate 0x3f4c_cccd)
      then if le noise_floor 0
        then max rms 0x38d1_b717
        else add (mul noise_floor 0x3f7a_e148) (mul rms 0x3ca3_d70a)
      else noise_floor

  -- 2.5 and 0.55.
  pub adaptive_gate : (configured_gate noise_floor : ℕ) → ℕ
  adaptive_gate configured_gate noise_floor =
      min (max (mul noise_floor 0x4020_0000) (mul configured_gate 0x3f0c_cccd)) configured_gate

  -- The range of zero crossings is 0.008 to 0.35, that of the crest 1.2 to 14.0, over at least
  -- 0.000001.
  pub speech_shape : Shape → (rms samples : ℕ) → Bool
  speech_shape s rms samples =
      let zcr = div (of_nat s.zero_crossings) (of_nat samples) in
      let crest = div s.peak (max rms 0x3586_37bd) in
      (le 0x3c03_126f zcr && le zcr 0x3eb3_3333) && (le 0x3f99_999a crest && le crest 0x4160_0000)

  pub gate : TsConnection → (s : Shape) (samples : ℕ) → TsConnection × Bool
  unfolding learn_floor adaptive_gate speech_shape
  gate state s samples =
      let rms = sqrt (div s.sum_sq (of_nat samples)) in
      let configured_gate = max state.vad_threshold 0x3a03_126f in
      let noise_floor = learn_floor configured_gate rms state.vad_noise_floor in
      (
        record state { vad_noise_floor = noise_floor },
        le configured_gate rms
            || (le (adaptive_gate configured_gate noise_floor) rms && speech_shape s rms samples),
      )

  unfoldable pub hybrid_vad_should_transmit : TsConnection → (frame : List ℕ) → TsConnection × Bool
  unfolding scan gate
  hybrid_vad_should_transmit state [] = (state, false)
  hybrid_vad_should_transmit state (sample ∷ samples) =
      gate state
        (scan (record { sum_sq = 0; peak = 0; zero_crossings = 0; previous = sample })
          (sample ∷ samples))
        (length (sample ∷ samples))

  -- The gate changes nothing but the noise that it has learned.
  pub hybrid_vad_should_transmit-floor :
      (st : TsConnection) (frame : List ℕ)
      → let st' = (hybrid_vad_should_transmit st frame).0 in
        st' ≡ record st { vad_noise_floor = st'.vad_noise_floor }
  unfolding hybrid_vad_should_transmit gate
  hybrid_vad_should_transmit-floor st [] = refl
  hybrid_vad_should_transmit-floor st (x ∷ xs) = refl
