-- ===== src/Jitter/Tests.antt =====
-- The jitter buffer at concrete inputs.
use Prim.Native.Nat.{◌+◌, ◌-◌, ◌/◌, ◌%◌, ◌^◌, ◌≤◌, ◌<◌}
use beta.Base.{none, some, [], ◌∷◌, ◌≡◌, ◌⊎◌, refl, arith}
use beta.Jitter.{
  ClientJitterBuffer, Frame, frame_size, new_buffer, unwrap_seq, put, take_frame, write_frame,
  replicate, set,
}
use beta.Jitter.Sequence.{unwrap_seq_lem, put_wrapped_base}
use beta.Jitter.Playback.{
  IsOpen, play_slot, take_frame-write_frame, write_frame_keeps, put-new_buffer,
}

abbrev frame : Frame
frame = 1 ∷ 2 ∷ 3 ∷ []

-- The first packet has number 100 and arrives while slot 50 is played.
abbrev talking : ClientJitterBuffer
talking = record {
  slots = set (replicate 32 none) 0 (some frame);
  write_seq = 100;
  base_seq = 100;
  base_slot = 52;
  last_packet = some 0;
  frame_pool = [];
  volume = 0;
}

unwrap_seq_lem_example :
    ((unwrap_seq 3 65530 % 2 ^ 16 ≡ 3)
      × (65530 ≤ unwrap_seq 3 65530)
      × (unwrap_seq 3 65530 < 65530 + 2 ^ 16))
    ⊎ ((3 ≡ (65530 + 0x8000) % 2 ^ 16) × (unwrap_seq 3 65530 ≡ (65530 + 2 ^ 32 - 0x8000) % 2 ^ 32))
unwrap_seq_lem_example = unwrap_seq_lem 3 65530 (omega arith) (omega arith)

unwrap_seq_runs : unwrap_seq 3 65530 ≡ 65539
unfolding unwrap_seq
unwrap_seq_runs = refl

-- Rebased at 65600, the buffer throws packet 65 away, which is number 65601.
put_wrapped_base_example :
    put (record talking { base_seq = 65600; write_seq = 65600 }) 65 frame 0 2 7
    ≡ record talking { base_seq = 65600; write_seq = 65600 }
put_wrapped_base_example =
    put_wrapped_base (record talking { base_seq = 65600; write_seq = 65600 }) 1 frame 0 2 7 refl
      (omega arith) (omega arith) (omega arith) (omega arith)

talking-IsOpen : IsOpen talking
talking-IsOpen = record { slots_fit = refl; started = λ e. absurd (omega arith) }

take_frame-write_frame_example :
    (take_frame (write_frame talking 133 (9 ∷ []) 5) (play_slot talking 133)).1 ≡ some (9 ∷ [])
take_frame-write_frame_example =
    take_frame-write_frame talking 133 (9 ∷ []) 5 talking-IsOpen (omega arith) (omega arith)
      (omega arith)

write_frame_keeps_example :
    (take_frame (write_frame talking (100 + 31) (9 ∷ []) 5) (play_slot talking 100)).1 ≡ some frame
write_frame_keeps_example =
    write_frame_keeps talking 100 31 (9 ∷ []) frame 5 talking-IsOpen (omega arith) (omega arith)
      (omega arith) (omega arith) (omega arith) refl

put-new_buffer_example :
    (take_frame (put new_buffer 100 frame 48000 2 0) (48000 / frame_size + 2)).1 ≡ some frame
put-new_buffer_example =
    put-new_buffer 100 frame 48000 2 0 (omega arith) (λ e. absurd (omega arith))
      (λ e. absurd (omega arith)) (omega arith)
