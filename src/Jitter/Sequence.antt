-- ===== src/Jitter/Sequence.antt =====
-- How a 16-bit packet number is placed in the 32-bit sequence space.
use Prim.Native.Nat.{ℕ, ◌+◌, ◌-◌, ◌%◌, ◌^◌, ◌≤◌, ◌<◌}
use beta.Base.{true, ◌≡◌, ◌≢◌, ◌⊎◌, arith}
use beta.Base.Word.{as_u16}
use beta.Jitter.{ClientJitterBuffer, Frame, unwrap_seq, init_base, is_far, put}

-- Unless the packet is exactly half the number space away, the result is the next number from the
-- base on that has the packet's 16 bits; half the space away it is 32768 behind the base.
pub unwrap_seq_lem :
    (seq base : ℕ)
    → seq < 2 ^ 16
    → base < 2 ^ 16
    → ((unwrap_seq seq base % 2 ^ 16 ≡ seq)
        × (base ≤ unwrap_seq seq base)
        × (unwrap_seq seq base < base + 2 ^ 16))
      ⊎ ((seq ≡ (base + 0x8000) % 2 ^ 16)
          × (unwrap_seq seq base ≡ (base + 2 ^ 32 - 0x8000) % 2 ^ 32))
unfolding unwrap_seq
unwrap_seq_lem seq base hs hb = ground arith

-- So a packet that comes up to 32767 places too late is not given a number below the base: it is
-- taken for one from the next turn of the 16-bit counter.
unwrap_seq_backward :
    (base k : ℕ)
    → base < 2 ^ 16
    → 0 < k
    → k < 0x8000
    → unwrap_seq ((base + 2 ^ 16 - k) % 2 ^ 16) base ≡ base + 2 ^ 16 - k
unfolding unwrap_seq
unwrap_seq_backward base k hb pos small = ground arith

init_base_done :
    (b : ClientJitterBuffer) (seq played delay : ℕ)
    → b.base_seq ≢ 0
    → init_base b seq played delay ≡ b
unfolding init_base
init_base_done b seq played delay h = ground arith

far_from_wrapped :
    (b : ClientJitterBuffer) (n : ℕ)
    → b.write_seq ≡ b.base_seq
    → 2 ^ 16 ≤ b.base_seq
    → b.base_seq < 2 ^ 31
    → 0 < n
    → n < 64536
    → is_far b (unwrap_seq ((b.base_seq + n) % 2 ^ 16) (as_u16 b.base_seq)) ≡ true
unfolding is_far unwrap_seq
far_from_wrapped b n e lo hi pos small = ground arith

-- Once a buffer is rebased at a number beyond 16 bits, the packets that follow in order, for the
-- next 64535 of them, are thrown away and leave the buffer as it is: the packet's number is unwrapped from the low
-- 16 bits of the base, so it lands a whole turn of the counter behind the last accepted one.
pub put_wrapped_base :
    (b : ClientJitterBuffer) (n : ℕ) (frame : Frame) (played delay now : ℕ)
    → b.write_seq ≡ b.base_seq
    → 2 ^ 16 ≤ b.base_seq
    → b.base_seq < 2 ^ 31
    → 0 < n
    → n < 64536
    → put b ((b.base_seq + n) % 2 ^ 16) frame played delay now ≡ b
unfolding put
put_wrapped_base b n frame played delay now e lo hi pos small =
    rw (init_base_done b _ played delay (λ z. absurd (omega arith)))
      (rw (far_from_wrapped b n e lo hi pos small))
