-- ===== src/Text.antt =====
-- Text arguments of the entry points in native/src/api.rs. A C string is `none` for a null pointer,
-- else the code points of the text that `to_string_lossy` reads.
pub mod Laws
use Prim.Native.Nat.{ℕ}
use mathlib.Core.List.{reverse}
use beta.Base.{
  Bool, true, false, ◌&&◌, ◌||◌, not, Option, none, some, List, [], ◌∷◌, Text, take, is_empty, leb,
  ◌==◌, if◌then◌else◌,
}

abbrev pub CString : Type 0
CString = Option Text

-- `char::is_whitespace`: the code points with the Unicode property White_Space.
unfoldable pub is_whitespace : ℕ → Bool
is_whitespace c =
    (leb 9 c && leb c 13)
    || c == 0x20
    || c == 0x85
    || c == 0xa0
    || c == 0x1680
    || (leb 0x2000 c && leb c 0x200a)
    || c == 0x2028
    || c == 0x2029
    || c == 0x202f
    || c == 0x205f
    || c == 0x3000

unfoldable pub trim_start : Text → Text
unfolding is_whitespace
trim_start [] = []
trim_start (c ∷ s) = if is_whitespace c then trim_start s else c ∷ s

unfoldable pub trim : Text → Text
unfolding trim_start
trim s = reverse (trim_start (reverse (trim_start s)))

-- Rust `str::starts_with` and `str::contains` on texts.
abbrev pub starts_with : Text → Text → Bool
starts_with [] s = true
starts_with (c ∷ p) [] = false
starts_with (c ∷ p) (d ∷ s) = (c == d) && starts_with p s

abbrev pub contains : Text → Text → Bool
contains p [] = starts_with p []
contains p (d ∷ s) = starts_with p (d ∷ s) || contains p s

-- A text that is null or empty counts as missing.
unfoldable pub non_empty : CString → Option Text
non_empty none = none
non_empty (some s) = if is_empty s then none else some s

-- A password: the empty text for a null pointer.
unfoldable pub or_empty : CString → Text
or_empty none = []
or_empty (some s) = s

limited : ℕ → Text → Option Text
limited n trimmed = if is_empty trimmed then none else some (take n trimmed)

-- The text without its outer blanks, at most `n` characters of it; `none` where that is empty.
unfoldable pub opt_cstr : CString → ℕ → Option Text
unfolding limited trim
opt_cstr none n = none
opt_cstr (some s) n = limited n (trim s)

abbrev pub reason_max : ℕ
reason_max = 200

unfoldable pub optional_reason : CString → Option Text
unfolding limited trim
optional_reason none = none
optional_reason (some s) = limited reason_max (trim s)
