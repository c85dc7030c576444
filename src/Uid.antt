-- ===== src/Uid.antt =====
-- native/src/api.rs: `base64_decode_uid`. A byte of the text is its code point; a code point beyond
-- ASCII has only bytes that stand for no value either.
mod RoundTrip
mod Tests
use Prim.Native.Nat.{ℕ, ◌+◌, ◌-◌, ◌*◌, ◌/◌, ◌%◌, ◌^◌}
use beta.Base.{
  Bool, true, false, ◌&&◌, Option, none, some, List, [], ◌∷◌, ◌++◌, Text, is_empty, leb, ◌==◌,
  if◌then◌else◌,
}

pub value : ℕ → Option ℕ
value c =
    if leb 65 c && leb c 90
    then some (c - 65)
    else if leb 97 c && leb c 122
    then some (c - 97 + 26)
    else if leb 48 c && leb c 57
    then some (c - 48 + 52)
    else if c == 43
    then some 62
    else if c == 47
    then some 63
    else none

-- `trim_end_matches('=')`.
pub trim_padding : Text → Text
trim_padding [] = []
trim_padding (c ∷ s) =
    let rest = trim_padding s in if is_empty rest && c == 61 then [] else c ∷ rest

-- The loop: `buffer` is a `u32`, of which `bits` bits are still to be put out.
pub decode : (buffer bits : ℕ) (out : List ℕ) → Text → Option (List ℕ)
unfolding value
decode buffer bits out [] = some out
decode buffer bits out (c ∷ s) = elim (value c) [
  | none ↦ none
  | some v ↦
      let next = buffer * 64 % 2 ^ 32 + v in
      let shorter = decode next (bits + 6 - 8) (out ++ next / 2 ^ (bits + 6 - 8) % 256 ∷ []) s in
      let longer = decode next (bits + 6) out s in if leb 8 (bits + 6) then shorter else longer
]

non_empty_bytes : List ℕ → Option (List ℕ)
non_empty_bytes out = if is_empty out then none else some out

pub base64_decode_uid : Text → Option (List ℕ)
unfolding trim_padding decode non_empty_bytes
base64_decode_uid input =
    if is_empty (trim_padding input)
    then none
    else elim (decode 0 0 [] (trim_padding input)) [ none ↦ none | some out ↦ non_empty_bytes out ]
