-- ===== src/Redact/Secrets.antt =====
-- What `redact` lets through of the value of a secret key.
use Prim.Native.Nat.{ℕ, ◌-◌}
use mathlib.Core.List.{append_assoc, append-nil}
use beta.Base.{
  Bool, true, false, Option, none, some, List, [], ◌∷◌, ◌++◌, Text, length, take, nat_equal,
  text_equal, ◌≡◌, refl, sym, ap, subst, ◌∙◌, arith,
}
use beta.Text.{is_whitespace}
use beta.Redact.{
  trim_start_matches, trim_end_matches, split_inclusive, is_opening, is_mark, placeholder,
  is_secret_key, is_separator, is_key_char, shown, redact_core, redact_trimmed, redact_token, both,
  redact_tokens, redact,
}
use beta.Redact.Cuts.{
  All-append, All-weaken, Only, Without, drop-append, nonempty-append, skip_bytes-append,
  split_inclusive-append, split_inclusive-last, take-append, trim_end_matches-append,
  trim_end_matches-kept, trim_end_matches-Without,
}
use beta.Redact.Keys.{
  key_not_blank, key_not_mark, key_not_opening, mark_not_blank, opening_is_mark, replacement-secret,
  separator_not_blank, separator_not_mark, trim_start_matches-key,
}

module _ (lead key value trail : Text) (sep blank : ℕ) where
  -- A word that gives a value to a secret key, between marks, before a blank.
  pub record IsSecret : Type 0 where
    pub opens : Only is_opening lead
    pub names : Only is_key_char key
    pub separates : is_separator sep ≡ true
    pub is_secret : is_secret_key key ≡ true
    pub closed : trim_end_matches is_mark value ≡ value
    pub in_one : Without is_whitespace value
    pub closes : Only is_mark trail
    pub ends : is_whitespace blank ≡ true

  abbrev core : Text
  core = key ++ sep ∷ value

  abbrev pub secret_word : Text
  secret_word = lead ++ (key ++ (sep ∷ (value ++ trail)))

  abbrev pub redacted_word : Text
  redacted_word = lead ++ ((key ++ (61 ∷ placeholder)) ++ trail)

  word_parts : secret_word ≡ lead ++ (core ++ trail)
  word_parts = ap (λ s. lead ++ s) (sym (append_assoc key (sep ∷ value) trail))

  module _ (h : IsSecret) where
    core-blank : Without is_whitespace core
    core-blank =
        All-append (λ c. is_whitespace c ≡ false) key (sep ∷ value)
          (All-weaken (λ c. is_key_char c ≡ true) (λ c. is_whitespace c ≡ false) key_not_blank key
            h.names)
          (separator_not_blank sep h.separates, h.in_one)

    word-blank : Without is_whitespace (lead ++ (core ++ trail))
    word-blank =
        All-append (λ c. is_whitespace c ≡ false) lead (core ++ trail)
          (All-weaken (λ c. is_opening c ≡ true) (λ c. is_whitespace c ≡ false)
            (λ c o. mark_not_blank c (opening_is_mark c o)) lead h.opens)
          (All-append (λ c. is_whitespace c ≡ false) core trail core-blank
            (All-weaken (λ c. is_mark c ≡ true) (λ c. is_whitespace c ≡ false) mark_not_blank trail
              h.closes))

    trim-word :
        trim_end_matches is_whitespace ((lead ++ (core ++ trail)) ++ blank ∷ [])
        ≡ lead ++ (core ++ trail)
    trim-word =
        trim_end_matches-append is_whitespace (lead ++ (core ++ trail)) (blank ∷ []) (h.ends, tt)
        ∙ trim_end_matches-Without is_whitespace (lead ++ (core ++ trail)) word-blank

    -- The key has a first character, where trimming stops.
    trim-start :
        (p : ℕ → Bool)
        → Only p lead
        → ((c : ℕ) → is_key_char c ≡ true → p c ≡ false)
        → trim_start_matches p (lead ++ (core ++ trail)) ≡ core ++ trail
    trim-start p only stops =
        let e : core ++ trail ≡ key ++ ((sep ∷ value) ++ trail) =
          append_assoc key (sep ∷ value) trail in
        ap (λ s. trim_start_matches p (lead ++ s)) e
        ∙ trim_start_matches-key p lead key ((sep ∷ value) ++ trail) only stops h.names h.is_secret
        ∙ sym e

    trim-core : trim_end_matches is_mark (core ++ trail) ≡ core
    trim-core =
        trim_end_matches-append is_mark core trail h.closes
        ∙ trim_end_matches-kept is_mark key (sep ∷ value)
            (All-weaken (λ c. is_key_char c ≡ true) (λ c. is_mark c ≡ false) key_not_mark key
              h.names)
            (trim_end_matches-kept is_mark (sep ∷ []) value (separator_not_mark sep h.separates, tt)
              h.closed)

    redact_core-secret :
        redact_core core lead (core ++ trail) (blank ∷ []) ≡ some (redacted_word ++ blank ∷ [])
    unfolding redact_core
    redact_core-secret =
        let seen = replacement-secret key value sep h.names h.separates h.is_secret in
        let name = key ++ 61 ∷ placeholder in
        let named : shown core ≡ name = ap (λ r. elim r [ none ↦ core | some v ↦ v ]) seen in
        rw (skip_bytes-append core trail, redact_core)
          (rw named (
            ap some (
              ap (λ s. lead ++ s) (sym (append_assoc name trail (blank ∷ [])))
              ∙ sym (append_assoc lead (name ++ trail) (blank ∷ [])))))

    redact_token-secret :
        redact_token (secret_word ++ blank ∷ []) ≡ some (redacted_word ++ blank ∷ [])
    unfolding redact_token redact_trimmed
    redact_token-secret =
        let whole = lead ++ (core ++ trail) in
        let e : secret_word ++ blank ∷ [] ≡ whole ++ blank ∷ [] =
          ap (λ s. s ++ blank ∷ []) word_parts in
        let marks =
          trim-start is_mark
            (All-weaken (λ c. is_opening c ≡ true) (λ c. is_mark c ≡ true) opening_is_mark lead
              h.opens)
            key_not_mark in
        let tail = trim-start is_opening h.opens key_not_opening in
        let core_of = ap (trim_end_matches is_mark) marks ∙ trim-core in
        let lead_of : take (length whole - length (trim_start_matches is_opening whole)) whole
            ≡ lead =
          ap (λ t. take (length whole - length t) whole) tail ∙ take-append lead (core ++ trail) in
        let parts : redact_trimmed (whole ++ blank ∷ []) whole
            ≡ redact_core core lead (core ++ trail) (blank ∷ []) =
          ground (arith, core_of, lead_of, tail, drop-append whole (blank ∷ [])) in
        ap redact_token e
        ∙ ap (redact_trimmed (whole ++ blank ∷ [])) trim-word
        ∙ parts
        ∙ redact_core-secret

both-append : (t u v : Option Text) → both (both t u) v ≡ both t (both u v)
both-append none u v = refl
both-append (some t) none v = refl
both-append (some t) (some u) none = refl
both-append (some t) (some u) (some v) = ap some (append_assoc t u v)

redact_tokens-append :
    (ts us : List Text) → redact_tokens (ts ++ us) ≡ both (redact_tokens ts) (redact_tokens us)
redact_tokens-append [] us = elim (redact_tokens us) as (λ r. r ≡ both (some []) r) [
  | none ↦ refl
  | some s ↦ refl
]
redact_tokens-append (t ∷ ts) us =
    ap (both (redact_token t)) (redact_tokens-append ts us)
    ∙ sym (both-append (redact_token t) (redact_tokens ts) (redact_tokens us))

-- A blank separates what is redacted.
redact-append :
    (s t : Text) (blank : ℕ)
    → is_whitespace blank ≡ true
    → redact (s ++ blank ∷ t) ≡ both (redact (s ++ blank ∷ [])) (redact t)
unfolding redact
redact-append s t blank h =
    ap redact_tokens (split_inclusive-append s t blank h)
    ∙ redact_tokens-append (split_inclusive (s ++ blank ∷ [])) (split_inclusive t)

module _ (lead key value trail : Text) (sep blank : ℕ)
    (h : IsSecret lead key value trail sep blank) where
  abbrev the_word : Text
  the_word = secret_word lead key value trail sep blank

  redact-secret_word :
      redact (the_word ++ blank ∷ [])
      ≡ some (redacted_word lead key value trail sep blank ++ blank ∷ [])
  unfolding redact
  redact-secret_word =
      let whole = lead ++ ((key ++ (sep ∷ value)) ++ trail) in
      let e : the_word ≡ whole = word_parts lead key value trail sep blank in
      let plain : Without is_whitespace the_word =
        subst (λ s. Without is_whitespace s) (sym e)
          (word-blank lead key value trail sep blank h) in
      let one =
        split_inclusive-last the_word blank plain
          (nonempty-append lead (key ++ (sep ∷ (value ++ trail)))
            (nonempty-append key (sep ∷ (value ++ trail)) refl))
          h.ends in
      let shut = redact_token-secret lead key value trail sep blank h in
      ap redact_tokens one ∙ ap (λ t. both t (some [])) shut ∙ ap some (append-nil _)

  -- In a message, a word that gives a value to a secret key, in opening marks and closing ones, is
  -- shown without the value, whatever stands before and after it: the rest is redacted by itself.
  pub redact-secret :
      (before after : Text) (blank' : ℕ)
      → is_whitespace blank' ≡ true
      → redact (before ++ blank' ∷ (the_word ++ blank ∷ after))
        ≡ both (redact (before ++ blank' ∷ [])) (
            both (some (redacted_word lead key value trail sep blank ++ blank ∷ [])) (redact after))
  redact-secret before after blank' b =
      redact-append before (the_word ++ blank ∷ after) blank' b
      ∙ ap (both (redact (before ++ blank' ∷ []))) (
          redact-append the_word after blank h.ends
          ∙ ap (λ t. both t (redact after)) redact-secret_word)
