-- ===== src/Uid/RoundTrip.antt =====
-- Against the encoder of RFC 4648.
use Prim.Native.Nat.{ℕ, zero, suc, ◌+◌, ◌-◌, ◌*◌, ◌/◌, ◌%◌, ◌^◌, ◌≤◌, ◌<◌}
use mathlib.Core.List.{append_assoc, append-nil}
use beta.Base.{
  false, Option, some, List, [], ◌∷◌, ◌++◌, Text, All, is_empty, ltb, ◌==◌, if◌then◌else◌, ◌≡◌, ◌≢◌,
  refl, sym, ap, ◌∙◌, arith,
}
use beta.Uid.{value, trim_padding, decode, non_empty_bytes, base64_decode_uid}

-- The standard alphabet.
letter : ℕ → ℕ
letter v =
    if ltb v 26
    then 65 + v
    else if ltb v 52
    then 71 + v
    else if ltb v 62
    then v - 4
    else if v == 62
    then 43
    else 47

value-letter : (v : ℕ) → v < 64 → value (letter v) ≡ some v
unfolding value letter
value-letter v h = ground arith

-- The letters of the bytes, without padding.
pub encode : List ℕ → Text
unfolding letter
encode [] = []
encode (a ∷ []) = letter (a / 4) ∷ letter (a % 4 * 16) ∷ []
encode (a ∷ b ∷ []) = letter (a / 4) ∷ letter (a % 4 * 16 + b / 16) ∷ letter (b % 16 * 4) ∷ []
encode (a ∷ b ∷ c ∷ bytes) =
    letter (a / 4)
    ∷ letter (a % 4 * 16 + b / 16)
    ∷ letter (b % 16 * 4 + c / 64)
    ∷ letter (c % 64)
    ∷ encode bytes

abbrev pub AreBytes : List ℕ → Type 0
AreBytes = All λ b. b < 256

decode-letter_short :
    (buffer bits v : ℕ) (out : List ℕ) (s : Text)
    → v < 64
    → bits < 2
    → decode buffer bits out (letter v ∷ s) ≡ decode (buffer * 64 % 2 ^ 32 + v) (bits + 6) out s
unfolding decode
decode-letter_short buffer bits v out s h k = ground (arith, value-letter v h)

decode-letter_full :
    (buffer bits v : ℕ) (out : List ℕ) (s : Text)
    → v < 64
    → 2 ≤ bits
    → decode buffer bits out (letter v ∷ s)
      ≡ decode
          (buffer * 64 % 2 ^ 32 + v)
          (bits - 2)
          (out ++ (buffer * 64 % 2 ^ 32 + v) / 2 ^ (bits - 2) % 256 ∷ [])
          s
unfolding decode
decode-letter_full buffer bits v out s h k =
    let same : bits + 6 - 8 ≡ bits - 2 = omega arith in ground (arith, value-letter v h, same)

-- The buffer after a letter, and the byte that it gives.
abbrev after : ℕ → ℕ → ℕ
after buffer v = buffer * 64 % 2 ^ 32 + v

first_byte :
    (n a y : ℕ) → a < 256 → y < 16 → after (after n (a / 4)) (a % 4 * 16 + y) / 2 ^ 4 % 256 ≡ a
first_byte n a y h k = omega arith

first_byte_last : (n a : ℕ) → a < 256 → after (after n (a / 4)) (a % 4 * 16) / 2 ^ 4 % 256 ≡ a
first_byte_last n a h = omega arith

second_byte_last :
    (n b x : ℕ) → b < 256 → x < 4 → after (after n (x * 16 + b / 16)) (b % 16 * 4) / 2 ^ 2 % 256 ≡ b
second_byte_last n b x h k = omega arith

second_byte :
    (n b x y : ℕ)
    → b < 256
    → x < 4
    → y < 4
    → after (after n (x * 16 + b / 16)) (b % 16 * 4 + y) / 2 ^ 2 % 256 ≡ b
second_byte n b x y h k l = omega arith

third_byte :
    (n c x : ℕ) → c < 256 → x < 16 → after (after n (x * 4 + c / 64)) (c % 64) / 2 ^ 0 % 256 ≡ c
third_byte n c x h k = omega arith

decode-three :
    (n a b c : ℕ) (out : List ℕ) (s : Text)
    → a < 256
    → b < 256
    → c < 256
    → let n1 = after n (a / 4) in
      let n2 = after n1 (a % 4 * 16 + b / 16) in
      let n3 = after n2 (b % 16 * 4 + c / 64) in
      decode n 0 out (
        letter (a / 4)
        ∷ letter (a % 4 * 16 + b / 16)
        ∷ letter (b % 16 * 4 + c / 64)
        ∷ letter (c % 64)
        ∷ s)
      ≡ decode (after n3 (c % 64)) 0 (((out ++ a ∷ []) ++ b ∷ []) ++ c ∷ []) s
decode-three n a b c out s ha hb hc =
    let n1 : ℕ = after n (a / 4) in
    let n2 : ℕ = after n1 (a % 4 * 16 + b / 16) in
    let n3 : ℕ = after n2 (b % 16 * 4 + c / 64) in
    let s3 : Text = letter (c % 64) ∷ s in
    let s2 : Text = letter (b % 16 * 4 + c / 64) ∷ s3 in
    decode-letter_short n 0 (a / 4) out (letter (a % 4 * 16 + b / 16) ∷ s2) (omega arith)
      (omega arith)
    ∙ decode-letter_full n1 6 (a % 4 * 16 + b / 16) out s2 (omega arith) (omega arith)
    ∙ ap (λ x. decode n2 4 (out ++ x ∷ []) s2) (first_byte n a (b / 16) ha (omega arith))
    ∙ decode-letter_full n2 4 (b % 16 * 4 + c / 64) (out ++ a ∷ []) s3 (omega arith) (omega arith)
    ∙ ap (λ x. decode n3 2 ((out ++ a ∷ []) ++ x ∷ []) s3)
        (second_byte n1 b (a % 4) (c / 64) hb (omega arith) (omega arith))
    ∙ decode-letter_full n3 2 (c % 64) ((out ++ a ∷ []) ++ b ∷ []) s (omega arith) (omega arith)
    ∙ ap (λ x. decode (after n3 (c % 64)) 0 (((out ++ a ∷ []) ++ b ∷ []) ++ x ∷ []) s)
        (third_byte n2 c (b % 16) hc (omega arith))

decode-one :
    (n a : ℕ) (out : List ℕ)
    → a < 256
    → decode n 0 out (letter (a / 4) ∷ letter (a % 4 * 16) ∷ []) ≡ some (out ++ a ∷ [])
unfolding decode
decode-one n a out ha =
    decode-letter_short n 0 (a / 4) out (letter (a % 4 * 16) ∷ []) (omega arith) (omega arith)
    ∙ decode-letter_full (after n (a / 4)) 6 (a % 4 * 16) out [] (omega arith) (omega arith)
    ∙ ap (λ x. some (out ++ x ∷ [])) (first_byte_last n a ha)

decode-two :
    (n a b : ℕ) (out : List ℕ)
    → a < 256
    → b < 256
    → decode n 0 out (letter (a / 4) ∷ letter (a % 4 * 16 + b / 16) ∷ letter (b % 16 * 4) ∷ [])
      ≡ some ((out ++ a ∷ []) ++ b ∷ [])
unfolding decode
decode-two n a b out ha hb =
    let n1 : ℕ = after n (a / 4) in
    let n2 : ℕ = after n1 (a % 4 * 16 + b / 16) in
    let s2 : Text = letter (b % 16 * 4) ∷ [] in
    decode-letter_short n 0 (a / 4) out (letter (a % 4 * 16 + b / 16) ∷ s2) (omega arith)
      (omega arith)
    ∙ decode-letter_full n1 6 (a % 4 * 16 + b / 16) out s2 (omega arith) (omega arith)
    ∙ ap (λ x. decode n2 4 (out ++ x ∷ []) s2) (first_byte n a (b / 16) ha (omega arith))
    ∙ decode-letter_full n2 4 (b % 16 * 4) (out ++ a ∷ []) [] (omega arith) (omega arith)
    ∙ ap (λ x. some ((out ++ a ∷ []) ++ x ∷ [])) (second_byte_last n1 b (a % 4) hb (omega arith))

abbrev some_ : List ℕ → Option (List ℕ)
some_ bytes = some bytes

regroup :
    (out : List ℕ) (a b c : ℕ) (bytes : List ℕ)
    → (((out ++ a ∷ []) ++ b ∷ []) ++ c ∷ []) ++ bytes ≡ out ++ a ∷ b ∷ c ∷ bytes
regroup [] a b c bytes = refl
regroup (x ∷ out) a b c bytes = ap (λ ys. x ∷ ys) (regroup out a b c bytes)

decode-encode :
    (n : ℕ) (out bytes : List ℕ)
    → AreBytes bytes
    → decode n 0 out (encode bytes) ≡ some (out ++ bytes)
unfolding encode decode
decode-encode n out [] h = ap some_ (sym (append-nil out))
decode-encode n out (a ∷ []) h = decode-one n a out h.0
decode-encode n out (a ∷ b ∷ []) h =
    decode-two n a b out h.0 h.1.0 ∙ ap some_ (append_assoc out (a ∷ []) (b ∷ []))
decode-encode n out (a ∷ b ∷ c ∷ bytes) h =
    let n1 : ℕ = after n (a / 4) in
    let n2 : ℕ = after n1 (a % 4 * 16 + b / 16) in
    let n3 : ℕ = after n2 (b % 16 * 4 + c / 64) in
    decode-three n a b c out (encode bytes) h.0 h.1.0 h.1.1.0
    ∙ decode-encode (after n3 (c % 64)) (((out ++ a ∷ []) ++ b ∷ []) ++ c ∷ []) bytes h.1.1.1
    ∙ ap some_ (regroup out a b c bytes)

letter-padding : (v : ℕ) → letter v ≢ 61
unfolding letter
letter-padding v = ground arith

-- Any number of '='.
abbrev pub padding : ℕ → Text
padding zero = []
padding (suc n) = 61 ∷ padding n

trim_padding-padding : (n : ℕ) → trim_padding (padding n) ≡ []
unfolding trim_padding
trim_padding-padding zero = refl
trim_padding-padding (suc n) = rw (trim_padding-padding n) refl

trim_padding-letters :
    (s pad : Text) → All (λ c. c ≢ 61) s → trim_padding pad ≡ [] → trim_padding (s ++ pad) ≡ s
unfolding trim_padding
trim_padding-letters [] pad h k = k
trim_padding-letters (c ∷ s) pad h k = ground (arith, trim_padding-letters s pad h.1 k, h.0)

encode-letters : (bytes : List ℕ) → All (λ c. c ≢ 61) (encode bytes)
unfolding encode
encode-letters [] = tt
encode-letters (a ∷ []) = (letter-padding (a / 4), (letter-padding (a % 4 * 16), tt))
encode-letters (a ∷ b ∷ []) = (
  letter-padding (a / 4),
  (letter-padding (a % 4 * 16 + b / 16), (letter-padding (b % 16 * 4), tt)),
)
encode-letters (a ∷ b ∷ c ∷ bytes) = (
  letter-padding (a / 4),
  (
    letter-padding (a % 4 * 16 + b / 16),
    (letter-padding (b % 16 * 4 + c / 64), (letter-padding (c % 64), encode-letters bytes)),
  ),
)

encode-filled : (b : ℕ) (bytes : List ℕ) → is_empty (encode (b ∷ bytes)) ≡ false
unfolding encode
encode-filled a [] = refl
encode-filled a (b ∷ []) = refl
encode-filled a (b ∷ c ∷ bytes) = refl

-- The encoding of one or more bytes, padded with any number of '=', is decoded to these bytes.
pub base64_decode_uid-encode :
    (b : ℕ) (bytes : List ℕ) (pad : ℕ)
    → AreBytes (b ∷ bytes)
    → base64_decode_uid (encode (b ∷ bytes) ++ padding pad) ≡ some (b ∷ bytes)
unfolding base64_decode_uid non_empty_bytes
base64_decode_uid-encode b bytes pad h =
    let trimmed =
      trim_padding-letters (encode (b ∷ bytes)) (padding pad) (encode-letters (b ∷ bytes))
        (trim_padding-padding pad) in
    rw (trimmed, encode-filled b bytes, decode-encode 0 [] (b ∷ bytes) h, base64_decode_uid) refl
