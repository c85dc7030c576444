-- ===== src/Base/Word.antt =====
-- Machine integers: a value is a native number below 2 ^ w, and each operation wraps.
use Prim.Native.Nat.{ℕ, ◌+◌, ◌-◌, ◌%◌, ◌^◌}
use mathlib.Core.Bool.{Bool, true, false}
use beta.Base.Tests.{ltb}

abbrev pub u16_max : ℕ
u16_max = 0xffff

-- `x as u16`, `x as u32`.
abbrev pub as_u16 : ℕ → ℕ
as_u16 x = x % 2 ^ 16

abbrev pub as_u32 : ℕ → ℕ
as_u32 x = x % 2 ^ 32

-- `x as u64` of a sum: `+` of a `u64` in a release build.
abbrev pub as_u64 : ℕ → ℕ
as_u64 x = x % 2 ^ 64

-- `u32::wrapping_add`, `u32::wrapping_sub`.
abbrev pub add_u32 : ℕ → ℕ → ℕ
add_u32 a b = (a + b) % 2 ^ 32

abbrev pub sub_u32 : ℕ → ℕ → ℕ
sub_u32 a b = (a + 2 ^ 32 - b) % 2 ^ 32

-- `u64::wrapping_add`, `u64::wrapping_sub`.
abbrev pub add_u64 : ℕ → ℕ → ℕ
add_u64 a b = (a + b) % 2 ^ 64

abbrev pub sub_u64 : ℕ → ℕ → ℕ
sub_u64 a b = (a + 2 ^ 64 - b) % 2 ^ 64

-- `saturating_add` on a `u64`.
abbrev pub saturating_add_u64 : ℕ → ℕ → ℕ
saturating_add_u64 a b = elim (ltb (a + b) (2 ^ 64)) [ true ↦ a + b | false ↦ 2 ^ 64 - 1 ]

-- A Rust `i32`.
pub data Signed : Type 0 where
  pos : ℕ → Signed
  negsuc : ℕ → Signed

-- `x > 0`, `x >= 0`, `x != 0`.
abbrev pub is_positive : Signed → Bool
is_positive (pos n) = ltb 0 n
is_positive (negsuc n) = false

abbrev pub is_nonnegative : Signed → Bool
is_nonnegative (pos n) = true
is_nonnegative (negsuc n) = false

abbrev pub is_nonzero : Signed → Bool
is_nonzero (pos n) = ltb 0 n
is_nonzero (negsuc n) = true

-- `x as i32`.
abbrev pub as_i32 : ℕ → Signed
as_i32 x = elim (ltb (x % 2 ^ 32) (2 ^ 31)) [
  | true ↦ pos (x % 2 ^ 32)
  | false ↦ negsuc (2 ^ 32 - 1 - x % 2 ^ 32)
]
