-- ===== src/Redact/Leak.antt =====
-- Where `redact` cuts at the wrong place.
use Prim.Native.Nat.{ℕ, ◌-◌, ◌<◌}
use mathlib.Core.List.{append_assoc, append-nil}
use beta.Base.{
  true, false, none, some, [], ◌∷◌, ◌++◌, Text, length, take, nat_equal, text_equal, ◌≡◌, refl, sym,
  ap, ap₂, ◌∙◌, arith,
}
use beta.Text.{is_whitespace}
use beta.Redact.{
  utf8_len, byte_length, skip_bytes, trim_start_matches, trim_end_matches, is_opening, is_mark,
  placeholder, is_secret_key, is_separator, is_key_char, shown, redact_core, redact_trimmed,
  redact_token, both, redact_tokens, redact,
}
use beta.Redact.Cuts.{
  All-append, All-weaken, Only, Without, byte_length-append, drop_all, skip_bytes-append,
  split_inclusive-only, take-append, trim_end_matches-kept, trim_end_matches-last,
  trim_end_matches-Without, utf8_len_ascii,
}
use beta.Redact.Keys.{
  key_not_blank, key_not_mark, mark_ascii, mark_not_blank, replacement-secret, separator_not_blank,
  separator_not_mark, trim_start_matches-key,
}

-- The trail is taken one byte too early.
redact_core-late :
    (mark : ℕ) (key value : Text) (sep c : ℕ)
    → is_mark mark ≡ true
    → Only is_key_char key
    → is_separator sep ≡ true
    → is_secret_key key ≡ true
    → c < 128
    → let core = key ++ (sep ∷ (value ++ c ∷ [])) in
      redact_core core [] (mark ∷ core) [] ≡ some ((key ++ (61 ∷ placeholder)) ++ c ∷ [])
unfolding redact_core utf8_len
redact_core-late mark key value sep c m names separates secret ascii =
    let last = c ∷ [] in
    let core = key ++ (sep ∷ (value ++ last)) in
    let front = mark ∷ (key ++ (sep ∷ value)) in
    let parts : core ≡ (key ++ (sep ∷ value)) ++ last = sym (append_assoc key (sep ∷ value) last) in
    let bytes : byte_length core ≡ byte_length front =
      ap byte_length parts
      ∙ byte_length-append (key ++ (sep ∷ value)) last
      ∙ ground (arith, utf8_len_ascii c ascii, utf8_len_ascii mark (mark_ascii mark m)) in
    let cut : skip_bytes (byte_length core) (mark ∷ core) ≡ some last =
      ap₂ (λ n s. skip_bytes n (mark ∷ s)) bytes parts ∙ skip_bytes-append front last in
    let seen = replacement-secret key (value ++ last) sep names separates secret in
    let named : shown core ≡ key ++ (61 ∷ placeholder) =
      ap (λ r. elim r [ none ↦ core | some v ↦ v ]) seen in
    rw (cut, redact_core) (rw named refl)

-- A mark in front of a secret that opens nothing, such as a comma: the last character of the secret
-- is shown if it is an ASCII character.
pub leaked_character :
    (mark : ℕ) (key value : Text) (sep c : ℕ)
    → is_mark mark ≡ true
    → is_opening mark ≡ false
    → Only is_key_char key
    → is_separator sep ≡ true
    → is_secret_key key ≡ true
    → Without is_whitespace (value ++ c ∷ [])
    → is_mark c ≡ false
    → c < 128
    → redact (mark ∷ (key ++ (sep ∷ (value ++ c ∷ []))))
      ≡ some ((key ++ (61 ∷ placeholder)) ++ c ∷ [])
unfolding redact redact_token redact_trimmed redact_core
leaked_character mark key value sep c m o names separates secret plain solid ascii =
    let last = c ∷ [] in
    let core = key ++ (sep ∷ (value ++ last)) in
    let whole = mark ∷ core in
    let blankless : Without is_whitespace whole = (
      mark_not_blank mark m,
      All-append (λ d. is_whitespace d ≡ false) key (sep ∷ (value ++ last))
          (All-weaken (λ d. is_key_char d ≡ true) (λ d. is_whitespace d ≡ false) key_not_blank key
            names)
          (separator_not_blank sep separates, plain),
    ) in
    let start : trim_start_matches is_mark whole ≡ core =
      trim_start_matches-key is_mark (mark ∷ []) key (sep ∷ (value ++ last)) (m, tt) key_not_mark
        names secret in
    let kept : trim_end_matches is_mark core ≡ core =
      trim_end_matches-kept is_mark key (sep ∷ (value ++ last))
        (All-weaken (λ d. is_key_char d ≡ true) (λ d. is_mark d ≡ false) key_not_mark key names)
        (trim_end_matches-kept is_mark (sep ∷ []) (value ++ last)
          (separator_not_mark sep separates, tt) (trim_end_matches-last is_mark value c solid)) in
    let core_of = ap (trim_end_matches is_mark) start ∙ kept in
    let tail_of : trim_start_matches is_opening whole ≡ whole = ground (arith, o) in
    let lead_of : take (length whole - length (trim_start_matches is_opening whole)) whole ≡ [] =
      ap (λ t. take (length whole - length t) whole) tail_of ∙ take-append [] whole in
    let parts : redact_trimmed whole whole ≡ redact_core core [] whole [] =
      ground (arith, core_of, lead_of, tail_of, drop_all whole) in
    ap redact_tokens (split_inclusive-only core mark blankless)
    ∙ ap (λ t. both t (some []))
        (ap (redact_trimmed whole) (trim_end_matches-Without is_whitespace whole blankless)
          ∙ parts
          ∙ redact_core-late mark key value sep c m names separates secret ascii)
    ∙ ap some (append-nil _)
