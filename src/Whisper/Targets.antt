-- ===== src/Whisper/Targets.antt =====
-- The whisper target lists after `sanitize_whisper_targets`.
use Prim.Native.Nat.{ℕ, zero, suc, ◌≤◌, ◌<◌}
use beta.Base.{
  Bool, true, false, ◌&&◌, ◌||◌, not, List, [], ◌∷◌, map, take, keep, length, length-take-le, ◌==◌,
  ◌≡◌, ◌≢◌, refl, ◌∙◌, ap, arith,
}
use beta.Base.Word.{as_u16, u16_max}
use beta.Whisper.{
  whisper_max_targets, insert_sorted, sort, dedup_after, dedup, is_client_target,
  sanitize_whisper_targets,
}

abbrev pub elem : ℕ → List ℕ → Bool
elem a [] = false
elem a (x ∷ xs) = x == a || elem a xs

-- Strictly increasing, from above `lo`.
abbrev pub Above : ℕ → List ℕ → Type 0
Above lo [] = Unit {0}
Above lo (x ∷ xs) = (lo < x) × Above x xs

-- Strictly increasing.
abbrev pub Ascending : List ℕ → Type 0
Ascending [] = Unit {0}
Ascending (x ∷ xs) = Above x xs

-- Increasing, from `lo` on.
abbrev From : ℕ → List ℕ → Type 0
From lo [] = Unit {0}
From lo (x ∷ xs) = (lo ≤ x) × From x xs

insert_sorted-From : (lo x : ℕ) (xs : List ℕ) → lo ≤ x → From lo xs → From lo (insert_sorted x xs)
unfolding insert_sorted
insert_sorted-From lo x [] h f = (h, tt)
insert_sorted-From lo x (y ∷ ys) h f = ground (arith, insert_sorted-From y x ys)

sort-From : (xs : List ℕ) → From 0 (sort xs)
unfolding sort
sort-From [] = tt
sort-From (x ∷ xs) = insert_sorted-From 0 x (sort xs) (omega arith) (sort-From xs)

dedup_after-Above : (x : ℕ) (xs : List ℕ) → From x xs → Above x (dedup_after x xs)
unfolding dedup_after
dedup_after-Above x [] f = tt
dedup_after-Above x (y ∷ ys) f = ground (arith, dedup_after-Above y ys)

elem-insert_sorted : (a x : ℕ) (xs : List ℕ) → elem a (insert_sorted x xs) ≡ (x == a || elem a xs)
unfolding insert_sorted
elem-insert_sorted a x [] = refl
elem-insert_sorted a x (y ∷ ys) = ground (arith, elem-insert_sorted a x ys)

elem-sort : (a : ℕ) (xs : List ℕ) → elem a (sort xs) ≡ elem a xs
unfolding sort
elem-sort a [] = refl
elem-sort a (x ∷ xs) = ground (arith, elem-insert_sorted a x (sort xs), elem-sort a xs)

elem-dedup_after :
    (a x : ℕ) (xs : List ℕ) → (x == a || elem a (dedup_after x xs)) ≡ (x == a || elem a xs)
unfolding dedup_after
elem-dedup_after a x [] = refl
elem-dedup_after a x (y ∷ ys) = ground (arith, elem-dedup_after a y ys)

elem-dedup : (a : ℕ) (xs : List ℕ) → elem a (dedup xs) ≡ elem a xs
unfolding dedup
elem-dedup a [] = refl
elem-dedup a (x ∷ xs) = elem-dedup_after a x xs

elem-keep : (p : ℕ → Bool) (a : ℕ) (xs : List ℕ) → elem a (keep p xs) ≡ (p a && elem a xs)
elem-keep p a [] = ground arith
elem-keep p a (x ∷ xs) = ground (arith, elem-keep p a xs, same)
  where
    same : x ≡ a → p x ≡ p a
    same e = ap p e

-- The list that comes of filtering, sorting, removing duplicates and cutting.
abbrev cleaned : (ℕ → Bool) → List ℕ → List ℕ
cleaned p xs = take whisper_max_targets (dedup (sort (keep p xs)))

elem-take : (a n : ℕ) (xs : List ℕ) → elem a (take n xs) ≡ true → elem a xs ≡ true
elem-take a zero xs h = cc
elem-take a (suc n) [] h = h
elem-take a (suc n) (x ∷ xs) h = ground (arith, elem-take a n xs)

take_short : (n : ℕ) (xs : List ℕ) → length (take n xs) < n → take n xs ≡ xs
take_short zero xs h = absurd (omega arith)
take_short (suc n) [] h = refl
take_short (suc n) (x ∷ xs) h = ap (λ ys. x ∷ ys) (take_short n xs (omega arith))

take-Above : (lo n : ℕ) (xs : List ℕ) → Above lo xs → Above lo (take n xs)
take-Above lo zero xs h = tt
take-Above lo (suc n) [] h = tt
take-Above lo (suc n) (x ∷ xs) h = (h.0, take-Above x n xs h.1)

elem-unsorted :
    (p : ℕ → Bool) (a : ℕ) (xs : List ℕ) → elem a (dedup (sort (keep p xs))) ≡ (p a && elem a xs)
elem-unsorted p a xs = elem-dedup a (sort (keep p xs)) ∙ elem-sort a (keep p xs) ∙ elem-keep p a xs

cleaned_sound :
    (p : ℕ → Bool) (a : ℕ) (xs : List ℕ)
    → elem a (cleaned p xs) ≡ true
    → (p a ≡ true) × (elem a xs ≡ true)
cleaned_sound p a xs h =
    ground
      (arith, elem-unsorted p a xs, elem-take a whisper_max_targets (dedup (sort (keep p xs))) h)

cleaned_complete :
    (p : ℕ → Bool) (a : ℕ) (xs : List ℕ)
    → length (cleaned p xs) < whisper_max_targets
    → p a ≡ true
    → elem a xs ≡ true
    → elem a (cleaned p xs) ≡ true
cleaned_complete p a xs short pa ea =
    rw (take_short whisper_max_targets (dedup (sort (keep p xs))) short)
      (rw (elem-unsorted p a xs) (ground arith))

dedup-Ascending : (xs : List ℕ) → From 0 xs → Ascending (dedup xs)
unfolding dedup
dedup-Ascending [] f = tt
dedup-Ascending (x ∷ xs) f = dedup_after-Above x xs f.1

take-Ascending : (n : ℕ) (xs : List ℕ) → Ascending xs → Ascending (take n xs)
take-Ascending zero xs h = tt
take-Ascending (suc n) [] h = tt
take-Ascending (suc n) (x ∷ xs) h = take-Above x n xs h

cleaned-Ascending : (p : ℕ → Bool) (xs : List ℕ) → Ascending (cleaned p xs)
cleaned-Ascending p xs =
    take-Ascending whisper_max_targets _ (dedup-Ascending _ (sort-From (keep p xs)))

map-as_u16 :
    (own : ℕ) (xs : List ℕ)
    → map as_u16 (keep (is_client_target own) xs) ≡ keep (is_client_target own) xs
map-as_u16 own [] = refl
map-as_u16 own (x ∷ xs) = ground (arith, map-as_u16 own xs)

clients_cleaned :
    (clients channels : List ℕ) (own : ℕ)
    → (sanitize_whisper_targets clients channels own).0 ≡ cleaned (is_client_target own) clients
unfolding sanitize_whisper_targets
clients_cleaned clients channels own = rw (map-as_u16 own clients)

-- Both target lists are strictly increasing, so without duplicates, and have at most 100 entries.
pub sanitize_whisper_targets-Ascending :
    (clients channels : List ℕ) (own : ℕ)
    → let (to_clients, to_channels) = sanitize_whisper_targets clients channels own in
      Ascending to_clients
      × (length to_clients ≤ 100)
      × Ascending to_channels
      × (length to_channels ≤ 100)
unfolding sanitize_whisper_targets
sanitize_whisper_targets-Ascending clients channels own = (
  rw (map-as_u16 own clients) (cleaned-Ascending (is_client_target own) clients),
  length-take-le whisper_max_targets _,
  cleaned-Ascending (λ id. not (id == 0)) channels,
  length-take-le whisper_max_targets _,
)

-- A client in the list was asked for, is neither 0 nor the own client, and is a `u16`.
sanitize_whisper_targets_sound :
    (clients channels : List ℕ) (own a : ℕ)
    → elem a (sanitize_whisper_targets clients channels own).0 ≡ true
    → (elem a clients ≡ true) × (a ≢ 0) × (a ≢ own) × (a ≤ u16_max)
sanitize_whisper_targets_sound clients channels own a h = ground (
  arith,
  cleaned_sound (is_client_target own) a clients (rw (clients_cleaned clients channels own) at h),
)

-- A list that the cap leaves whole has every client that was asked for and is a valid target.
sanitize_whisper_targets_complete :
    (clients channels : List ℕ) (own a : ℕ)
    → length (sanitize_whisper_targets clients channels own).0 < 100
    → elem a clients ≡ true
    → a ≢ 0
    → a ≢ own
    → a ≤ u16_max
    → elem a (sanitize_whisper_targets clients channels own).0 ≡ true
sanitize_whisper_targets_complete clients channels own a short asked nonzero other small =
    rw (clients_cleaned clients channels own) (
      cleaned_complete (is_client_target own) a clients
        (rw (clients_cleaned clients channels own) at short) (ground arith) asked)
