-- ===== src/Roster/Groups.antt =====
-- The server groups of a client in the roster: two lists that belong together by their places.
use Prim.Native.Nat.{ℕ}
use beta.Base.{
  Bool, true, false, Option, List, [], ◌∷◌, map, Text, ◌≡◌, refl, sym, ap, arith, ◌∙◌, inl, inr,
  Bool-cases,
}
use mathlib.Core.List.{Perm}
use mathlib.Core.List.Perm
use beta.Base.Map.{Map}
use beta.Roster.{
  Book, BookClient, text_leb, insert_by, sort_by, groups_of, group_names, group_icons, client_of,
}

-- The order of the groups by name.
abbrev pub by_name : Text × ℕ → Text × ℕ → Bool
by_name left right = text_leb left.0 right.0

-- Each entry is at most the next one.
abbrev pub Ascending : List Text → Type 0
Ascending [] = Unit
Ascending (s ∷ []) = Unit
Ascending (s ∷ t ∷ ts) = (text_leb s t ≡ true) × Ascending (t ∷ ts)

map-insert_by :
    (g : Text × ℕ) (gs : List (Text × ℕ))
    → map (λ x. x.0) (insert_by by_name g gs) ≡ insert_by text_leb g.0 (map (λ x. x.0) gs)
unfolding insert_by
map-insert_by g [] = refl
map-insert_by g (h ∷ hs) = ground (arith, map-insert_by g hs)

map-sort_by :
    (gs : List (Text × ℕ))
    → map (λ x. x.0) (sort_by by_name gs) ≡ sort_by text_leb (map (λ x. x.0) gs)
unfolding sort_by
map-sort_by [] = refl
map-sort_by (g ∷ gs) =
    map-insert_by g (sort_by by_name gs) ∙ ap (insert_by text_leb g.0) (map-sort_by gs)

text_leb_total : (s t : Text) → text_leb s t ≡ false → text_leb t s ≡ true
unfolding text_leb
text_leb_total [] t h = cc
text_leb_total (c ∷ s) [] h = refl
text_leb_total (c ∷ s) (d ∷ t) h = ground (arith, text_leb_total s t)

insert_by-Ascending :
    (s : Text) (ts : List Text) → Ascending ts → Ascending (insert_by text_leb s ts)
unfolding insert_by
insert_by-Ascending s [] h = tt
insert_by-Ascending s (t ∷ []) h = ground (arith, text_leb_total s t)
insert_by-Ascending s (t ∷ u ∷ us) h =
    ground (arith, text_leb_total s t, text_leb_total s u, insert_by-Ascending s (u ∷ us))

sort_by-Ascending : (ts : List Text) → Ascending (sort_by text_leb ts)
unfolding sort_by
sort_by-Ascending [] = tt
sort_by-Ascending (t ∷ ts) = insert_by-Ascending t (sort_by text_leb ts) (sort_by-Ascending ts)

insert_by-perm : (g : Text × ℕ) (gs : List (Text × ℕ)) → Perm (insert_by by_name g gs) (g ∷ gs)
unfolding insert_by
insert_by-perm g [] = Perm.refl (g ∷ [])
insert_by-perm g (h ∷ hs) = elim (Bool-cases (by_name g h)) [
  | inl first ↦ rw (first, insert_by) (Perm.refl (g ∷ h ∷ hs))
  | inr later ↦
      rw (later, insert_by) (Perm.trans (Perm.cons h (insert_by-perm g hs)) (Perm.swap g h hs))
]

sort_by-perm : (gs : List (Text × ℕ)) → Perm (sort_by by_name gs) gs
unfolding sort_by
sort_by-perm [] = Perm.refl []
sort_by-perm (g ∷ gs) =
    Perm.trans (insert_by-perm g (sort_by by_name gs)) (Perm.cons g (sort_by-perm gs))

-- The names and the icons of a client's server groups, which are sorted apart, are the two columns
-- of one arrangement of the groups that the book knows: the icon at a place is that of the group
-- whose name stands there, also where two groups share a name, and the names ascend.
pub client_of-groups :
    (now : ℕ) (volumes : Map Text ℕ) (decibels : ℕ → Option ℕ)
    (talking whispering permission_hints : Map ℕ ℕ) (book : Book) (c : BookClient)
    → let shown = client_of now volumes decibels talking whispering permission_hints book c in
      (groups : List (Text × ℕ)) × (shown.server_group_names ≡ map (λ g. g.0) groups)
      × (shown.server_group_icon_ids ≡ map (λ g. g.1) groups)
      × Perm groups (groups_of book.server_groups c.server_groups)
      × Ascending shown.server_group_names
unfolding client_of group_names group_icons
client_of-groups now volumes decibels talking whispering permission_hints book c =
    let known = groups_of book.server_groups c.server_groups in
    (
      sort_by by_name known,
      sym (map-sort_by known),
      refl,
      sort_by-perm known,
      sort_by-Ascending (map (λ g. g.0) known),
    )
