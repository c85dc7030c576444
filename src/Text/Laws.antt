-- ===== src/Text/Laws.antt =====
-- What the readers of text arguments return.
use Prim.Native.Nat.{ℕ, zero, suc, ◌≤◌, ◌<◌}
use beta.Base.{Option, none, some, [], ◌∷◌, Text, length, length-take-le, arith}
use beta.Text.{CString, trim, limited, opt_cstr, reason_max, optional_reason}

-- A text of one to `n` characters, if there is one.
abbrev pub AtMost : ℕ → Option Text → Type 0
AtMost n none = Unit {0}
AtMost n (some s) = (0 < length s) × (length s ≤ n)

limited-AtMost : (n : ℕ) (s : Text) → 0 < n → AtMost n (limited n s)
unfolding limited
limited-AtMost n [] h = tt
limited-AtMost zero (c ∷ s) h = elim h [ ]
limited-AtMost (suc n) (c ∷ s) h = omega (arith, length-take-le n s)

pub opt_cstr-AtMost : (raw : CString) (n : ℕ) → 0 < n → AtMost n (opt_cstr raw n)
unfolding opt_cstr
opt_cstr-AtMost none n h = tt
opt_cstr-AtMost (some s) n h = limited-AtMost n (trim s) h

pub optional_reason-AtMost : (raw : CString) → AtMost reason_max (optional_reason raw)
unfolding optional_reason
optional_reason-AtMost none = tt
optional_reason-AtMost (some s) = limited-AtMost reason_max (trim s) (omega arith)
