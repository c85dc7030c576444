-- ===== src/Jitter.antt =====
-- The jitter buffer of one speaker: `ClientJitterBuffer` of native/src/lib.rs, and in
-- native/src/api.rs what `decode_to_client_buffer` (the writer) and the mixing callback of
-- `build_output_stream` (the reader) do with it.
pub mod Sequence
pub mod Playback
mod Tests
use Prim.Native.Nat.{ℕ, zero, suc, ◌+◌, ◌-◌, ◌*◌, ◌/◌, ◌%◌, ◌^◌, min}
use beta.Base.{
  Bool, true, false, ◌&&◌, not, Option, none, some, List, [], ◌∷◌, ◌++◌, map, ltb, leb, ◌==◌,
  if◌then◌else◌,
}
use beta.Base.Word.{as_u16, as_u32, as_u64, add_u32, sub_u32, add_u64, sub_u64}
use beta.Engine.{unit_gain}

-- 960 samples, each the bit pattern of an `i16`.
abbrev pub Frame : Type 0
Frame = List ℕ

abbrev pub frame_size : ℕ
frame_size = 960

pub record ClientJitterBuffer : Type 0 where
  pub slots : List (Option Frame)
  pub write_seq : ℕ
  pub base_seq : ℕ
  pub base_slot : ℕ
  pub last_packet : Option ℕ
  pub frame_pool : List Frame
  pub volume : ℕ

abbrev pub slot_count : ℕ
slot_count = 32

abbrev pub replicate {ℓ} : {A : Type ℓ} → ℕ → A → List A
replicate zero a = []
replicate (suc n) a = a ∷ replicate n a

abbrev pub get_elem? {ℓ} : {A : Type ℓ} → List A → ℕ → Option A
get_elem? [] i = none
get_elem? (x ∷ xs) zero = some x
get_elem? (x ∷ xs) (suc i) = get_elem? xs i

abbrev pub set {ℓ} : {A : Type ℓ} → List A → ℕ → A → List A
set [] i v = []
set (x ∷ xs) zero v = v ∷ xs
set (x ∷ xs) (suc i) v = x ∷ set xs i v

pub new_buffer : ClientJitterBuffer
new_buffer = record {
  slots = replicate slot_count none;
  write_seq = 0;
  base_seq = 0;
  base_slot = 0;
  last_packet = none;
  frame_pool = [];
  volume = unit_gain;
}

-- `i16 as i32 as u32` of a bit pattern: the sign is extended.
abbrev pub sign_extend : ℕ → ℕ
sign_extend d = if ltb d 0x8000 then d else d + (2 ^ 32 - 2 ^ 16)

pub unwrap_seq : ℕ → ℕ → ℕ
unwrap_seq seq base =
    let delta = (seq + 2 ^ 16 - base) % 2 ^ 16 in
    if ltb delta 0x8000
    then add_u32 base delta
    else if ltb 0x8000 delta
    then add_u32 base (add_u32 (2 ^ 16) (sign_extend delta))
    else add_u32 base (sign_extend delta)

-- BASE_DELAY_FRAMES, JITTER_TO_FRAMES_DIVISOR and MAX_DELAY_FRAMES, with the session's jitter in ms
-- (0 where there is no session).
pub adaptive_delay_frames : ℕ → ℕ
adaptive_delay_frames jitter_ms = min (2 + jitter_ms / 20) 8

-- `slot.swap(None)` over all slots, each frame going back to the pool.
pub recycle : List (Option Frame) → List Frame
recycle [] = []
recycle (none ∷ slots) = recycle slots
recycle (some frame ∷ slots) = frame ∷ recycle slots

pub clear_slots : ClientJitterBuffer → ClientJitterBuffer
unfolding recycle
clear_slots b = record b {
  slots = map (λ _. none) b.slots;
  frame_pool = b.frame_pool ++ recycle b.slots;
}

-- The first packet sets the base.
pub init_base : ClientJitterBuffer → ℕ → ℕ → ℕ → ClientJitterBuffer
unfolding unwrap_seq
init_base b seq played delay =
    if b.base_seq == 0
    then record b { base_seq = unwrap_seq seq 0; base_slot = as_u64 (played / frame_size + delay) }
    else b

-- More than 1000 frames from the last accepted one.
pub is_far : ClientJitterBuffer → ℕ → Bool
is_far b global_seq =
    not (b.write_seq == 0)
    && ltb 1000 (min (sub_u32 global_seq b.write_seq) (sub_u32 b.write_seq global_seq))

-- The sequence number that the reader plays at a slot.
pub expected_seq : ClientJitterBuffer → ℕ → ℕ
expected_seq b slot = add_u64 (sub_u64 slot b.base_slot) b.base_seq

pub rebase : ClientJitterBuffer → ℕ → ℕ → ℕ → ClientJitterBuffer
unfolding expected_seq clear_slots
rebase b global_seq played delay =
    if not (b.write_seq == 0)
      && ltb b.write_seq global_seq
      && ltb global_seq (expected_seq b (played / frame_size))
    then clear_slots
        (record b { base_seq = global_seq; base_slot = as_u64 (played / frame_size + delay) })
    else b

abbrev pub slot_index : ClientJitterBuffer → ℕ → ℕ
slot_index b global_seq = sub_u32 global_seq b.base_seq % slot_count

-- The frame that `swap` takes out of a slot.
abbrev pub frame_at : ClientJitterBuffer → ℕ → Option Frame
frame_at b i = elim (get_elem? b.slots i) [ none ↦ none | some slot ↦ slot ]

abbrev pub evicted : Option Frame → List Frame
evicted none = []
evicted (some frame) = frame ∷ []

-- Evict, take a frame from the pool, write, and publish. The pool's frame is overwritten.
pub write_frame : ClientJitterBuffer → ℕ → Frame → ℕ → ClientJitterBuffer
write_frame b global_seq frame now = record b {
  slots = set b.slots (slot_index b global_seq) (some frame);
  frame_pool = elim (b.frame_pool ++ evicted (frame_at b (slot_index b global_seq))) [
    | [] ↦ []
    | _ ∷ rest ↦ rest
  ];
  write_seq = global_seq;
  last_packet = some now;
}

-- The buffer's part of `decode_to_client_buffer`: a decoded frame with the packet's number.
pub put : ClientJitterBuffer → (seq : ℕ) → Frame → (played delay now : ℕ) → ClientJitterBuffer
unfolding init_base is_far rebase write_frame
put b seq frame played delay now =
    let b' = init_base b seq played delay in
    let global_seq = unwrap_seq seq (as_u16 b'.base_seq) in
    if is_far b' global_seq
    then b'
    else write_frame (rebase b' global_seq played delay) global_seq frame now

abbrev pub read_index : ClientJitterBuffer → ℕ → ℕ
read_index b slot = sub_u64 (expected_seq b slot) b.base_seq % slot_count

-- Phase A of the mixing callback for one buffer: the frame to play at a slot.
pub take_frame : ClientJitterBuffer → ℕ → ClientJitterBuffer × Option Frame
take_frame b slot =
    if b.base_seq == 0
    then (b, none)
    else if leb (expected_seq b slot) b.write_seq
    then elim (frame_at b (read_index b slot)) [
      | none ↦ (b, none)
      | some frame ↦ (
        record b {
          slots = set b.slots (read_index b slot) none;
          frame_pool = b.frame_pool ++ frame ∷ [];
        },
        some frame,
      )
    ]
    else (b, none)
