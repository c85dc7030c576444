-- ===== src/Redact/Tests.antt =====
-- Tests of Redact.
use beta.Base.{Text, some, none, [], ◌∷◌, ◌++◌, ◌≡◌, refl, arith}
use beta.Text.{is_whitespace}
use beta.Redact.Secrets.{redacted_word, redact-secret}
use beta.Redact.Leak.{leaked_character}
use beta.Redact.{
  both, utf8_len, redact, placeholder, skip_bytes, redact_token, redact_trimmed, redact_core,
  replacement, looks_sensitive,
}

-- "a pwd=x1 b" and "a pwd=<redacted> b".
plain_word :
    redact (97 ∷ 32 ∷ 112 ∷ 119 ∷ 100 ∷ 61 ∷ 120 ∷ 49 ∷ 32 ∷ 98 ∷ [])
    ≡ some (97 ∷ 32 ∷ 112 ∷ 119 ∷ 100 ∷ 61 ∷ (placeholder ++ 32 ∷ 98 ∷ []))
unfolding redact redact_token redact_trimmed redact_core replacement looks_sensitive skip_bytes
    utf8_len is_whitespace
plain_word = refl

-- ",pwd=x1" lets the last character through.
comma_word :
    redact (44 ∷ 112 ∷ 119 ∷ 100 ∷ 61 ∷ 120 ∷ 49 ∷ [])
    ≡ some (112 ∷ 119 ∷ 100 ∷ 61 ∷ (placeholder ++ 49 ∷ []))
unfolding redact redact_token redact_trimmed redact_core replacement looks_sensitive skip_bytes
    utf8_len is_whitespace
comma_word = refl

-- ",é" is cut inside of a character.
cut_word : redact (44 ∷ 0xe9 ∷ []) ≡ none
unfolding redact redact_token redact_trimmed redact_core replacement looks_sensitive skip_bytes
    utf8_len is_whitespace
cut_word = refl

abbrev pwd : Text
pwd = 112 ∷ 119 ∷ 100 ∷ []

-- "a (pwd=x1) b".
redact-secret_example :
    redact (97 ∷ 32 ∷ 40 ∷ 112 ∷ 119 ∷ 100 ∷ 61 ∷ 120 ∷ 49 ∷ 41 ∷ 32 ∷ 98 ∷ [])
    ≡ both (redact (97 ∷ 32 ∷ [])) (
        both
          (some (redacted_word (40 ∷ []) pwd (120 ∷ 49 ∷ []) (41 ∷ []) 61 32 ++ 32 ∷ []))
          (redact (98 ∷ [])))
unfolding is_whitespace
redact-secret_example =
    redact-secret (40 ∷ []) pwd (120 ∷ 49 ∷ []) (41 ∷ []) 61 32
      (record {
        opens = (refl, tt);
        names = (refl, (refl, (refl, tt)));
        separates = refl;
        is_secret = refl;
        closed = refl;
        in_one = (refl, (refl, tt));
        closes = (refl, tt);
        ends = refl;
      })
      (97 ∷ []) (98 ∷ []) 32 refl

leaked_character_example :
    redact (44 ∷ 112 ∷ 119 ∷ 100 ∷ 61 ∷ 120 ∷ 49 ∷ [])
    ≡ some ((pwd ++ (61 ∷ placeholder)) ++ 49 ∷ [])
unfolding is_whitespace
leaked_character_example =
    leaked_character 44 pwd (120 ∷ []) 61 49 refl refl (refl, (refl, (refl, tt))) refl refl
      (refl, (refl, tt)) refl (omega arith)
