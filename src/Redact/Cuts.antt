-- ===== src/Redact/Cuts.antt =====
-- Trimming, cutting and splitting texts, as `redact` does it.
use Prim.Native.Nat.{ℕ, ◌+◌, ◌-◌, ◌<◌}
use beta.Base.{
  Bool, true, false, some, List, [], ◌∷◌, ◌++◌, Text, length, length-append, take, drop, All,
  is_empty, if◌then◌else◌, nat_equal, text_equal, ◌≡◌, refl, ap, ◌∙◌, arith, inl, inr, Bool-cases,
}
use beta.Text.{is_whitespace}
use beta.Redact.{
  utf8_len, byte_length, skip_bytes, trim_start_matches, trim_end_matches, begin_token,
  split_inclusive,
}

-- No character of the text is of the kind.
abbrev pub Without : (ℕ → Bool) → Text → Type 0
Without p = All λ c. p c ≡ false

abbrev pub Only : (ℕ → Bool) → Text → Type 0
Only p = All λ c. p c ≡ true

pub All-append {κ} : (P : ℕ → Type κ) (s t : Text) → All P s → All P t → All P (s ++ t)
All-append P [] t h k = k
All-append P (c ∷ s) t h k = (h.0, All-append P s t h.1 k)

pub All-weaken {κ λ'} :
    (P : ℕ → Type κ) (Q : ℕ → Type λ') → ((c : ℕ) → P c → Q c) → (s : Text) → All P s → All Q s
All-weaken P Q f [] h = tt
All-weaken P Q f (c ∷ s) h = (f c h.0, All-weaken P Q f s h.1)

-- Trimming.
pub trim_start_matches-append :
    (p : ℕ → Bool) (s : Text) (c : ℕ) (t : Text)
    → Only p s
    → p c ≡ false
    → trim_start_matches p (s ++ c ∷ t) ≡ c ∷ t
trim_start_matches-append p [] c t only stop = ground (arith, stop)
trim_start_matches-append p (d ∷ s) c t only stop =
    ground (arith, only.0, trim_start_matches-append p s c t only.1 stop)

trim_end_matches-Only : (p : ℕ → Bool) (s : Text) → Only p s → trim_end_matches p s ≡ []
trim_end_matches-Only p [] only = refl
trim_end_matches-Only p (c ∷ s) only = ground (arith, only.0, trim_end_matches-Only p s only.1)

pub trim_end_matches-append :
    (p : ℕ → Bool) (s t : Text) → Only p t → trim_end_matches p (s ++ t) ≡ trim_end_matches p s
trim_end_matches-append p [] t only = trim_end_matches-Only p t only
trim_end_matches-append p (c ∷ s) t only = ground (arith, trim_end_matches-append p s t only)

pub trim_end_matches-Without : (p : ℕ → Bool) (s : Text) → Without p s → trim_end_matches p s ≡ s
trim_end_matches-Without p [] h = refl
trim_end_matches-Without p (c ∷ s) h = ground (arith, h.0, trim_end_matches-Without p s h.1)

pub trim_end_matches-kept :
    (p : ℕ → Bool) (s t : Text)
    → Without p s
    → trim_end_matches p t ≡ t
    → trim_end_matches p (s ++ t) ≡ s ++ t
trim_end_matches-kept p [] t h k = k
trim_end_matches-kept p (c ∷ s) t h k = ground (arith, h.0, trim_end_matches-kept p s t h.1 k)

pub nonempty-append : (s t : Text) → is_empty t ≡ false → is_empty (s ++ t) ≡ false
nonempty-append [] t h = h
nonempty-append (c ∷ s) t h = refl

pub trim_end_matches-last :
    (p : ℕ → Bool) (s : Text) (c : ℕ) → p c ≡ false → trim_end_matches p (s ++ c ∷ []) ≡ s ++ c ∷ []
trim_end_matches-last p [] c h = ground (arith, h)
trim_end_matches-last p (d ∷ s) c h =
    ground (arith, trim_end_matches-last p s c h, nonempty-append s (c ∷ []) refl)

-- Cutting.
utf8_len_pos : (c : ℕ) → 0 < utf8_len c
unfolding utf8_len
utf8_len_pos c = ground arith

pub utf8_len_ascii : (c : ℕ) → c < 128 → utf8_len c ≡ 1
unfolding utf8_len
utf8_len_ascii c h = ground arith

pub skip_bytes-append : (s t : Text) → skip_bytes (byte_length s) (s ++ t) ≡ some t
unfolding skip_bytes
skip_bytes-append [] [] = refl
skip_bytes-append [] (c ∷ t) = refl
skip_bytes-append (c ∷ s) t =
    let one = utf8_len c in
    let e : (one + byte_length s) - one ≡ byte_length s = omega arith in
    ground (arith, utf8_len_pos c, ap (λ n. skip_bytes n (s ++ t)) e, skip_bytes-append s t)

pub byte_length-append : (s t : Text) → byte_length (s ++ t) ≡ byte_length s + byte_length t
byte_length-append [] t = omega arith
byte_length-append (c ∷ s) t = omega (arith, byte_length-append s t)

pub drop_all : (s : Text) → drop (length s) s ≡ []
drop_all [] = refl
drop_all (c ∷ s) = drop_all s

take_prefix : (s t : Text) → take (length s) (s ++ t) ≡ s
take_prefix [] t = refl
take_prefix (c ∷ s) t = ap (λ r. c ∷ r) (take_prefix s t)

pub take-append : (s t : Text) → take (length (s ++ t) - length t) (s ++ t) ≡ s
take-append s t =
    let e : length (s ++ t) - length t ≡ length s = omega (arith, length-append s t) in
    ap (λ n. take n (s ++ t)) e ∙ take_prefix s t

pub drop-append : (s t : Text) → drop (length s) (s ++ t) ≡ t
drop-append [] t = refl
drop-append (c ∷ s) t = drop-append s t

-- The tokens of a message.
begun :
    (b : Bool) (c : ℕ) (ts : List Text)
    → is_empty (if b then (c ∷ []) ∷ ts else begin_token c ts) ≡ false
begun true c ts = refl
begun false c [] = refl
begun false c (t ∷ ts) = refl

split_inclusive_some : (s t : Text) (c : ℕ) → is_empty (split_inclusive (s ++ c ∷ t)) ≡ false
split_inclusive_some [] t c = begun (is_whitespace c) c (split_inclusive t)
split_inclusive_some (d ∷ s) t c = begun (is_whitespace d) d (split_inclusive (s ++ c ∷ t))

begin_token-append :
    (c : ℕ) (ts us : List Text)
    → is_empty ts ≡ false
    → begin_token c (ts ++ us) ≡ begin_token c ts ++ us
begin_token-append c [] us h = cc
begin_token-append c (t ∷ ts) us h = refl

pub split_inclusive-append :
    (s t : Text) (blank : ℕ)
    → is_whitespace blank ≡ true
    → split_inclusive (s ++ blank ∷ t) ≡ split_inclusive (s ++ blank ∷ []) ++ split_inclusive t
split_inclusive-append [] t blank h = ground (arith, h)
split_inclusive-append (c ∷ s) t blank h = elim (Bool-cases (is_whitespace c)) [
  | inl here ↦ ground (arith, here, split_inclusive-append s t blank h)
  | inr not_here ↦ ground (
    arith,
    not_here,
    split_inclusive-append s t blank h,
    begin_token-append c (split_inclusive (s ++ blank ∷ [])) (split_inclusive t)
        (split_inclusive_some s [] blank),
  )
]

split_inclusive-word :
    (s : Text) (c blank : ℕ)
    → Without is_whitespace (c ∷ s)
    → is_whitespace blank ≡ true
    → split_inclusive (c ∷ s ++ blank ∷ []) ≡ (c ∷ s ++ blank ∷ []) ∷ []
split_inclusive-word [] c blank h k = ground (arith, h.0, k)
split_inclusive-word (d ∷ s) c blank h k = ground (arith, h.0, split_inclusive-word s d blank h.1 k)

pub split_inclusive-last :
    (s : Text) (blank : ℕ)
    → Without is_whitespace s
    → is_empty s ≡ false
    → is_whitespace blank ≡ true
    → split_inclusive (s ++ blank ∷ []) ≡ (s ++ blank ∷ []) ∷ []
split_inclusive-last [] blank h k b = cc
split_inclusive-last (c ∷ s) blank h k b = split_inclusive-word s c blank h b

pub split_inclusive-only :
    (s : Text) (c : ℕ) → Without is_whitespace (c ∷ s) → split_inclusive (c ∷ s) ≡ (c ∷ s) ∷ []
split_inclusive-only [] c h = ground (arith, h.0)
split_inclusive-only (d ∷ s) c h = ground (arith, h.0, split_inclusive-only s d h.1)
