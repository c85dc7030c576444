-- ===== src/Uid/Tests.antt =====
-- The decoder at concrete inputs.
use beta.Base.{none, some, [], ◌∷◌, ◌++◌, ◌≡◌, refl, arith}
use beta.Uid.{value, trim_padding, decode, non_empty_bytes, base64_decode_uid}
use beta.Uid.RoundTrip.{encode, padding, base64_decode_uid-encode}

-- "TWFu" is "Man", and a blank has no value.
decode_man : base64_decode_uid (84 ∷ 87 ∷ 70 ∷ 117 ∷ []) ≡ some (77 ∷ 97 ∷ 110 ∷ [])
unfolding base64_decode_uid value trim_padding decode non_empty_bytes
decode_man = refl

decode_blank : base64_decode_uid (84 ∷ 32 ∷ []) ≡ none
unfolding base64_decode_uid value trim_padding decode
decode_blank = refl

base64_decode_uid-encode_example :
    base64_decode_uid (encode (77 ∷ 255 ∷ 0 ∷ 7 ∷ []) ++ padding 2) ≡ some (77 ∷ 255 ∷ 0 ∷ 7 ∷ [])
base64_decode_uid-encode_example =
    base64_decode_uid-encode 77 (255 ∷ 0 ∷ 7 ∷ []) 2
      (omega arith, (omega arith, (omega arith, (omega arith, tt))))
