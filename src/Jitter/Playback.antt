-- ===== src/Jitter/Playback.antt =====
-- What the reader finds of what the writer wrote.
use Prim.Native.Nat.{ℕ, zero, suc, ◌+◌, ◌-◌, ◌/◌, ◌%◌, ◌^◌, ◌≤◌, ◌<◌}
use beta.Base.{some, List, [], ◌∷◌, length, ◌≡◌, ◌∙◌, ◌≢◌, refl, ap, subst, arith}
use native.Mathlib.Nat.{mod-eq_of_lt}
use beta.Base.Word.{as_u16}
use beta.Jitter.{
  ClientJitterBuffer, Frame, frame_size, slot_count, get_elem?, set, new_buffer, unwrap_seq,
  expected_seq, slot_index, write_frame, put, read_index, take_frame,
}

length-set {ℓ} : {A : Type ℓ} (xs : List A) (i : ℕ) (v : A) → length (set xs i v) ≡ length xs
length-set [] i v = refl
length-set (x ∷ xs) zero v = refl
length-set (x ∷ xs) (suc i) v = ap suc (length-set xs i v)

get_elem?-set_self {ℓ} :
    {A : Type ℓ} (xs : List A) (i : ℕ) (v : A) → i < length xs → get_elem? (set xs i v) i ≡ some v
get_elem?-set_self [] i v h = absurd (omega arith)
get_elem?-set_self (x ∷ xs) zero v h = refl
get_elem?-set_self (x ∷ xs) (suc i) v h = get_elem?-set_self xs i v (omega arith)

get_elem?-set_ne {ℓ} :
    {A : Type ℓ} (xs : List A) (i j : ℕ) (v : A) → i ≢ j → get_elem? (set xs i v) j ≡ get_elem? xs j
get_elem?-set_ne [] i j v h = refl
get_elem?-set_ne (x ∷ xs) zero zero v h = absurd (h refl)
get_elem?-set_ne (x ∷ xs) zero (suc j) v h = refl
get_elem?-set_ne (x ∷ xs) (suc i) zero v h = refl
get_elem?-set_ne (x ∷ xs) (suc i) (suc j) v h = get_elem?-set_ne xs i j v (λ e. h (ap suc e))

-- A buffer with its 32 slots and its base set, and the slot at which it plays a number.
pub record IsOpen (b : ClientJitterBuffer) : Type 0 where
  pub slots_fit : length b.slots ≡ slot_count
  pub started : b.base_seq ≢ 0

abbrev pub play_slot : ClientJitterBuffer → ℕ → ℕ
play_slot b seq = b.base_slot + (seq - b.base_seq)

-- The reader asks at the slot for the number that the slot plays.
expected-play_slot :
    (b : ClientJitterBuffer) (seq : ℕ)
    → b.base_seq ≤ seq
    → seq < 2 ^ 32
    → play_slot b seq < 2 ^ 64
    → expected_seq b (play_slot b seq) ≡ seq
unfolding expected_seq
expected-play_slot b seq le small fits = omega arith

index-play_slot :
    (b : ClientJitterBuffer) (seq : ℕ)
    → b.base_seq ≤ seq
    → seq < 2 ^ 32
    → play_slot b seq < 2 ^ 64
    → (read_index b (play_slot b seq) ≡ (seq - b.base_seq) % 32)
      × (slot_index b seq ≡ (seq - b.base_seq) % 32)
index-play_slot b seq le small fits = omega (arith, expected-play_slot b seq le small fits)

take_frame_hit :
    (b : ClientJitterBuffer) (slot i : ℕ) (frame : Frame)
    → b.base_seq ≢ 0
    → expected_seq b slot ≤ b.write_seq
    → read_index b slot ≡ i
    → get_elem? b.slots i ≡ some (some frame)
    → (take_frame b slot).1 ≡ some frame
unfolding take_frame
take_frame_hit b slot i frame started published at found = ground (arith, at, found)

-- A frame that is written is what the reader gets at the slot of its number.
pub take_frame-write_frame :
    (b : ClientJitterBuffer) (seq : ℕ) (frame : Frame) (now : ℕ)
    → IsOpen b
    → b.base_seq ≤ seq
    → seq < 2 ^ 32
    → play_slot b seq < 2 ^ 64
    → (take_frame (write_frame b seq frame now) (play_slot b seq)).1 ≡ some frame
unfolding write_frame expected_seq
take_frame-write_frame b seq frame now o le small fits =
    let (r, w) = index-play_slot b seq le small fits in
    take_frame_hit (write_frame b seq frame now) (play_slot b seq) ((seq - b.base_seq) % 32) frame
      o.started (omega (arith, expected-play_slot b seq le small fits)) r
      (rw w (get_elem?-set_self b.slots ((seq - b.base_seq) % 32) (some frame) (omega arith)))

write_frame-IsOpen :
    (b : ClientJitterBuffer) (seq : ℕ) (frame : Frame) (now : ℕ)
    → IsOpen b
    → IsOpen (write_frame b seq frame now)
unfolding write_frame
write_frame-IsOpen b seq frame now o =
    ground (arith, length-set b.slots (slot_index b seq) (some frame))

-- A frame less than 32 places ahead of one that is still to be played does not take its place.
pub write_frame_keeps :
    (b : ClientJitterBuffer) (seq ahead : ℕ) (frame old : Frame) (now : ℕ)
    → IsOpen b
    → b.base_seq ≤ seq
    → 0 < ahead
    → ahead < 32
    → seq + ahead < 2 ^ 32
    → b.base_slot + 2 ^ 32 < 2 ^ 64
    → get_elem? b.slots (slot_index b seq) ≡ some (some old)
    → (take_frame (write_frame b (seq + ahead) frame now) (play_slot b seq)).1 ≡ some old
unfolding write_frame expected_seq
write_frame_keeps b seq ahead frame old now o le pos near small fits held =
    let (r, w) = index-play_slot b seq le (omega arith) (omega arith) in
    let (_, w') = index-play_slot b (seq + ahead) (omega arith) small (omega arith) in
    take_frame_hit (write_frame b (seq + ahead) frame now) (play_slot b seq)
      ((seq - b.base_seq) % 32) old o.started
      (omega (arith, expected-play_slot b seq le (omega arith) (omega arith))) r
      (get_elem?-set_ne b.slots (slot_index b (seq + ahead)) ((seq - b.base_seq) % 32) (some frame)
          (λ e. absurd (omega arith))
        ∙ (rw w at held))

-- The buffer of a speaker whose first packet is `seq`, to be played at `slot`.
abbrev started_at : ℕ → ℕ → ClientJitterBuffer
started_at seq slot = record new_buffer { base_seq = seq; base_slot = slot }

unwrap_seq-first :
    (seq : ℕ)
    → seq < 2 ^ 16
    → seq ≢ 0x8000
    → (unwrap_seq seq 0 ≡ seq) × (unwrap_seq seq (as_u16 seq) ≡ seq)
unfolding unwrap_seq
unwrap_seq-first seq small half = ground arith

put-started_at :
    (seq : ℕ) (frame : Frame) (played delay now : ℕ)
    → seq < 2 ^ 16
    → seq ≢ 0x8000
    → played / frame_size + delay < 2 ^ 64
    → put new_buffer seq frame played delay now
      ≡ write_frame (started_at seq (played / frame_size + delay)) seq frame now
unfolding put new_buffer
put-started_at seq frame played delay now small half fits =
    let (zero_, self) = unwrap_seq-first seq small half in rw zero_ (rw (self, mod-eq_of_lt fits))

-- The first packet of a speaker is played when the delay is over, whatever its number, but for 0
-- and 32768.
pub put-new_buffer :
    (seq : ℕ) (frame : Frame) (played delay now : ℕ)
    → seq < 2 ^ 16
    → seq ≢ 0
    → seq ≢ 0x8000
    → played / frame_size + delay < 2 ^ 64
    → (take_frame (put new_buffer seq frame played delay now) (played / frame_size + delay)).1
      ≡ some frame
unfolding new_buffer
put-new_buffer seq frame played delay now small nz half fits =
    rw (put-started_at seq frame played delay now small half fits) (
      subst
        (λ s.
          (take_frame (write_frame (started_at seq (played / frame_size + delay)) seq frame now)
            s).1
          ≡ some frame)
        (omega arith)
        (take_frame-write_frame (started_at seq (played / frame_size + delay)) seq frame now
          (record { slots_fit = refl; started = nz }) (omega arith) (omega arith) (omega arith)))
