-- ===== src/Redact.antt =====
-- native/src/lib.rs, `redact`: what a message may tell before it is logged. A text is its code points;
-- the source cuts by bytes, and where it would cut inside a character it panics: then there is no
-- result.
pub mod Cuts
pub mod Keys
pub mod Secrets
pub mod Leak
mod Tests
use Prim.Native.Nat.{ℕ, ◌+◌, ◌-◌}
use beta.Base.{
  Bool, true, false, ◌&&◌, ◌||◌, not, Option, none, some, List, [], ◌∷◌, ◌++◌, Text, length, take,
  drop, is_empty, ltb, leb, ◌==◌, ◌===◌, if◌then◌else◌, nat_equal, text_equal,
}
use beta.Text.{is_whitespace}

-- The bytes of a character in UTF-8, and of a text.
unfoldable pub utf8_len : ℕ → ℕ
utf8_len c = if ltb c 0x80 then 1 else if ltb c 0x800 then 2 else if ltb c 0x10000 then 3 else 4

abbrev pub byte_length : Text → ℕ
byte_length [] = 0
byte_length (c ∷ s) = utf8_len c + byte_length s

-- `&s[n..]`.
unfoldable pub skip_bytes : ℕ → Text → Option Text
unfolding utf8_len
skip_bytes n [] = if n == 0 then some [] else none
skip_bytes n (c ∷ s) =
    let rest = skip_bytes (n - utf8_len c) s in
    if n == 0 then some (c ∷ s) else if leb (utf8_len c) n then rest else none

-- `trim_start_matches` and `trim_end_matches`.
abbrev pub trim_start_matches : (ℕ → Bool) → Text → Text
trim_start_matches p [] = []
trim_start_matches p (c ∷ s) = if p c then trim_start_matches p s else c ∷ s

abbrev pub trim_end_matches : (ℕ → Bool) → Text → Text
trim_end_matches p [] = []
trim_end_matches p (c ∷ s) =
    let rest = trim_end_matches p s in if is_empty rest && p c then [] else c ∷ rest

-- `split_inclusive(char::is_whitespace)`.
abbrev pub begin_token : ℕ → List Text → List Text
begin_token c [] = (c ∷ []) ∷ []
begin_token c (t ∷ ts) = (c ∷ t) ∷ ts

abbrev pub split_inclusive : Text → List Text
split_inclusive [] = []
split_inclusive (c ∷ s) =
    let rest = split_inclusive s in if is_whitespace c then (c ∷ []) ∷ rest else begin_token c rest

abbrev pub any_char : (ℕ → Bool) → Text → Bool
any_char p [] = false
any_char p (c ∷ s) = p c || any_char p s

abbrev pub all_chars : (ℕ → Bool) → Text → Bool
all_chars p [] = true
all_chars p (c ∷ s) = p c && all_chars p s

-- The characters of "\"'([{", and of "\"',;()[]{}".
abbrev pub is_opening : ℕ → Bool
is_opening c = c == 34 || c == 39 || c == 40 || c == 91 || c == 123

abbrev pub is_mark : ℕ → Bool
is_mark c =
    c == 34
    || c == 39
    || c == 44
    || c == 59
    || c == 40
    || c == 41
    || c == 91
    || c == 93
    || c == 123
    || c == 125

abbrev pub is_alphabetic : ℕ → Bool
is_alphabetic c = (leb 65 c && leb c 90) || (leb 97 c && leb c 122)

abbrev pub is_alphanumeric : ℕ → Bool
is_alphanumeric c = is_alphabetic c || (leb 48 c && leb c 57)

abbrev pub to_ascii_lowercase : Text → Text
to_ascii_lowercase [] = []
to_ascii_lowercase (c ∷ s) = (if leb 65 c && leb c 90 then c + 32 else c) ∷ to_ascii_lowercase s

-- "<redacted>".
abbrev pub placeholder : Text
placeholder = 60 ∷ 114 ∷ 101 ∷ 100 ∷ 97 ∷ 99 ∷ 116 ∷ 101 ∷ 100 ∷ 62 ∷ []

-- password, passwd, pwd, token, secret, identity, client_identity, uid, nickname.
abbrev pub secret_keys : List Text
secret_keys =
    (112 ∷ 97 ∷ 115 ∷ 115 ∷ 119 ∷ 111 ∷ 114 ∷ 100 ∷ [])
    ∷ (112 ∷ 97 ∷ 115 ∷ 115 ∷ 119 ∷ 100 ∷ [])
    ∷ (112 ∷ 119 ∷ 100 ∷ [])
    ∷ (116 ∷ 111 ∷ 107 ∷ 101 ∷ 110 ∷ [])
    ∷ (115 ∷ 101 ∷ 99 ∷ 114 ∷ 101 ∷ 116 ∷ [])
    ∷ (105 ∷ 100 ∷ 101 ∷ 110 ∷ 116 ∷ 105 ∷ 116 ∷ 121 ∷ [])
    ∷ (99 ∷ 108 ∷ 105 ∷ 101 ∷ 110 ∷ 116 ∷ 95 ∷ 105 ∷ 100 ∷ 101 ∷ 110 ∷ 116 ∷ 105 ∷ 116 ∷ 121 ∷ [])
    ∷ (117 ∷ 105 ∷ 100 ∷ [])
    ∷ (110 ∷ 105 ∷ 99 ∷ 107 ∷ 110 ∷ 97 ∷ 109 ∷ 101 ∷ [])
    ∷ []

abbrev pub is_listed : Text → List Text → Bool
is_listed s [] = false
is_listed s (t ∷ ts) = (s === t) || is_listed s ts

abbrev pub is_secret_key : Text → Bool
is_secret_key key = is_listed (to_ascii_lowercase key) secret_keys

-- An address with a dot, or a long base64 text.
unfoldable pub looks_sensitive : Text → Bool
looks_sensitive value =
    (any_char (λ c. c == 46) value
      && ltb 3 (byte_length value)
      && all_chars (λ c. is_alphanumeric c || c == 46 || c == 58 || c == 45 || c == 95) value
      && any_char (λ c. is_alphabetic c || c == 58) value)
    || (leb 24 (byte_length value)
        && all_chars (λ c. is_alphanumeric c || c == 43 || c == 47 || c == 61) value)

abbrev pub is_separator : ℕ → Bool
is_separator c = c == 61 || c == 58

abbrev pub is_key_char : ℕ → Bool
is_key_char c = is_alphanumeric c || c == 95

-- The text before and after the first separator.
abbrev pub find_separator : Text → Option (Text × Text)
find_separator [] = none
find_separator (c ∷ s) =
    let rest = find_separator s in
    if is_separator c
    then some ([], s)
    else elim rest [ none ↦ none | some (key, value) ↦ some (c ∷ key, value) ]

-- The key before the separator is a word.
abbrev pub key_value : Text → Option (Text × Text)
key_value core = elim (find_separator core) [
  | none ↦ none
  | some (key, value) ↦
      if not (is_empty key) && all_chars is_key_char key then some (key, value) else none
]

unfoldable pub replacement : Text → Option Text
unfolding looks_sensitive
replacement core = elim (key_value core) [
  | none ↦ if looks_sensitive core then some placeholder else none
  | some (key, value) ↦
      if is_secret_key key || looks_sensitive value then some (key ++ 61 ∷ placeholder) else none
]

abbrev pub shown : Text → Text
shown core = elim (replacement core) [ none ↦ core | some value ↦ value ]

-- What becomes of the parts of a token.
unfoldable pub redact_core : (core lead tail whitespace : Text) → Option Text
unfolding replacement skip_bytes
redact_core core lead tail whitespace = elim (skip_bytes (byte_length core) tail) [
  | none ↦ none
  | some trail ↦ some (lead ++ (shown core ++ (trail ++ whitespace)))
]

unfoldable pub redact_trimmed : (token trimmed : Text) → Option Text
unfolding redact_core
redact_trimmed token trimmed =
    let core = trim_end_matches is_mark (trim_start_matches is_mark trimmed) in
    let tail = trim_start_matches is_opening trimmed in
    let lead = take (length trimmed - length tail) trimmed in
    redact_core core lead tail (drop (length trimmed) token)

unfoldable pub redact_token : Text → Option Text
unfolding redact_trimmed
redact_token token = redact_trimmed token (trim_end_matches is_whitespace token)

abbrev pub both : Option Text → Option Text → Option Text
both none t = none
both (some s) none = none
both (some s) (some t) = some (s ++ t)

abbrev pub redact_tokens : List Text → Option Text
redact_tokens [] = some []
redact_tokens (t ∷ ts) = both (redact_token t) (redact_tokens ts)

unfoldable pub redact : Text → Option Text
unfolding redact_token
redact message = redact_tokens (split_inclusive message)
