-- ===== src/Connect/Hosts.antt =====
-- The host that file transfers fall back to: the address up to its last colon.
use beta.Base.{none, some, [], ◌∷◌, ◌++◌, Text, All, ◌≡◌, ◌≢◌, refl, arith}
use beta.Connect.{before_colon, trim_brackets, host_of}

abbrev pub NoColon : Text → Type 0
NoColon = All λ c. c ≢ 58

before_colon-none : (s : Text) → NoColon s → before_colon s ≡ none
unfolding before_colon
before_colon-none [] h = refl
before_colon-none (c ∷ s) h = ground (arith, before_colon-none s h.1, h.0)

before_colon-last : (host port : Text) → NoColon port → before_colon (host ++ 58 ∷ port) ≡ some host
unfolding before_colon
before_colon-last [] port h = ground (arith, before_colon-none port h)
before_colon-last (c ∷ host) port h = ground (arith, before_colon-last host port h)

-- A port without a colon is cut off with its colon, and an address without a colon stays whole;
-- brackets around what is left are dropped.
host_of_lem :
    (host port : Text)
    → NoColon port
    → (host_of (host ++ 58 ∷ port) ≡ trim_brackets host) × (host_of port ≡ trim_brackets port)
unfolding host_of
host_of_lem host port h =
    (rw (before_colon-last host port h) refl, rw (before_colon-none port h) refl)
