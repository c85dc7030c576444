-- ===== src/Base/Eq.antt =====
-- Types with a Boolean equality test: the keys of the maps. A text is the list of its code points.
use Prim.Native.Nat.{ℕ}
use mathlib.Core.Path.{◌≡◌}
use mathlib.Core.Logic.{◌↔◌}
use mathlib.Core.Bool.{Bool, true, false, ◌&&◌}
use mathlib.Core.List.{List, [], ◌∷◌}
use native.Mathlib.Omega.{arith}
use beta.Base.Tests.{◌==◌, ==_iff}

pub record Equal {ℓ} (A : Type ℓ) : Type ℓ where
  pub test : A → A → Bool
  pub test_iff : (a b : A) → (test a b ≡ true) ↔ (a ≡ b)

infix 50 ◌===◌
abbrev pub ◌===◌ {ℓ} : {A : Type ℓ} ⦃e : Equal A⦄ → A → A → Bool
◌===◌ ⦃e⦄ = e.test

-- A Rust `String`, or a C string after `to_string_lossy`.
abbrev pub Text : Type 0
Text = List ℕ

abbrev pub text_eq : Text → Text → Bool
text_eq [] [] = true
text_eq [] (d ∷ t) = false
text_eq (c ∷ s) [] = false
text_eq (c ∷ s) (d ∷ t) = (c == d) && text_eq s t

pub text_eq_iff : (s t : Text) → (text_eq s t ≡ true) ↔ (s ≡ t)
text_eq_iff [] [] = ground arith
text_eq_iff [] (d ∷ t) = ground arith
text_eq_iff (c ∷ s) [] = ground arith
text_eq_iff (c ∷ s) (d ∷ t) = ground (arith, (text_eq_iff s t).0, (text_eq_iff s t).1)

abbrev pub pair_eq {ℓ κ} : {A : Type ℓ} {B : Type κ} → Equal A → Equal B → A × B → A × B → Bool
pair_eq ea eb (a, b) (c, d) = ea.test a c && eb.test b d

pub pair_eq_iff {ℓ κ} :
    {A : Type ℓ} {B : Type κ} (ea : Equal A) (eb : Equal B) (p q : A × B)
    → (pair_eq ea eb p q ≡ true) ↔ (p ≡ q)
pair_eq_iff ea eb (a, b) (c, d) = ground (arith, ea.test_iff a c, eb.test_iff b d)

instance abbrev pub nat_equal : Equal ℕ
nat_equal = record { test = ◌==◌; test_iff = ==_iff }

instance abbrev pub text_equal : Equal Text
text_equal = record { test = text_eq; test_iff = text_eq_iff }

instance abbrev pub pair_equal {ℓ κ} :
    {A : Type ℓ} {B : Type κ} ⦃ea : Equal A⦄ ⦃eb : Equal B⦄ → Equal (A × B)
pair_equal ⦃ea⦄ ⦃eb⦄ = record { test = pair_eq ea eb; test_iff = pair_eq_iff ea eb }
