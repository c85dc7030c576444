-- ===== src/Redact/Keys.antt =====
-- The key of a word in `redact`: its characters, and what becomes of the value.
use Prim.Native.Nat.{ℕ, ◌<◌}
use beta.Base.{
  Bool, true, false, some, [], ◌∷◌, ◌++◌, Text, nat_equal, text_equal, ◌≡◌, refl, arith,
}
use beta.Text.{is_whitespace}
use beta.Redact.{
  trim_start_matches, all_chars, is_opening, is_mark, placeholder, is_secret_key, is_separator,
  is_key_char, find_separator, key_value, replacement,
}
use beta.Redact.Cuts.{Only, trim_start_matches-append}

-- Kinds of characters.
pub opening_is_mark : (c : ℕ) → is_opening c ≡ true → is_mark c ≡ true
opening_is_mark c h = ground arith

pub mark_not_blank : (c : ℕ) → is_mark c ≡ true → is_whitespace c ≡ false
unfolding is_whitespace
mark_not_blank c h = ground arith

pub key_not_blank : (c : ℕ) → is_key_char c ≡ true → is_whitespace c ≡ false
unfolding is_whitespace
key_not_blank c h = ground arith

pub key_not_mark : (c : ℕ) → is_key_char c ≡ true → is_mark c ≡ false
key_not_mark c h = ground arith

pub key_not_opening : (c : ℕ) → is_key_char c ≡ true → is_opening c ≡ false
key_not_opening c h = ground arith

key_not_separator : (c : ℕ) → is_key_char c ≡ true → is_separator c ≡ false
key_not_separator c h = ground arith

pub separator_not_blank : (c : ℕ) → is_separator c ≡ true → is_whitespace c ≡ false
unfolding is_whitespace
separator_not_blank c h = ground arith

pub separator_not_mark : (c : ℕ) → is_separator c ≡ true → is_mark c ≡ false
separator_not_mark c h = ground arith

all_chars-Only : (p : ℕ → Bool) (s : Text) → Only p s → all_chars p s ≡ true
all_chars-Only p [] h = refl
all_chars-Only p (c ∷ s) h = ground (arith, h.0, all_chars-Only p s h.1)

pub mark_ascii : (c : ℕ) → is_mark c ≡ true → c < 128
mark_ascii c h = ground arith

pub trim_start_matches-key :
    (p : ℕ → Bool) (lead key rest : Text)
    → Only p lead
    → ((c : ℕ) → is_key_char c ≡ true → p c ≡ false)
    → Only is_key_char key
    → is_secret_key key ≡ true
    → trim_start_matches p (lead ++ (key ++ rest)) ≡ key ++ rest
trim_start_matches-key p lead [] rest only stops names secret = cc
trim_start_matches-key p lead (c ∷ key) rest only stops names secret =
    trim_start_matches-append p lead c (key ++ rest) only (stops c names.0)

find_separator-key :
    (key value : Text) (sep : ℕ)
    → Only is_key_char key
    → is_separator sep ≡ true
    → find_separator (key ++ sep ∷ value) ≡ some (key, value)
find_separator-key [] value sep h k = ground (arith, k)
find_separator-key (c ∷ key) value sep h k =
    ground (arith, key_not_separator c h.0, find_separator-key key value sep h.1 k)

pub replacement-secret :
    (key value : Text) (sep : ℕ)
    → Only is_key_char key
    → is_separator sep ≡ true
    → is_secret_key key ≡ true
    → replacement (key ++ sep ∷ value) ≡ some (key ++ 61 ∷ placeholder)
unfolding replacement
replacement-secret [] value sep h k secret = cc
replacement-secret (c ∷ key) value sep h k secret =
    let found = find_separator-key (c ∷ key) value sep h k in
    let word = all_chars-Only is_key_char (c ∷ key) h in
    let split : key_value (c ∷ key ++ sep ∷ value) ≡ some (c ∷ key, value) =
      ground (arith, found, word) in
    rw (split, replacement) (rw secret refl)
