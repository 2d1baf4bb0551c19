-- ===== src/Prelude/Sorted.antt =====
-- `sorted(set(texts))`: Python's order on texts, and the list in that order without repeats.
use mathlib.Core.Path.{◌≡◌, refl}
use mathlib.Core.Bool.{Bool, true, false, ◌&&◌, ◌||◌}
use mathlib.Core.List.{List, [], ◌∷◌, ◌++◌}
use native.Mathlib.Omega.{arith}
use canis.Prelude.Tests.{ltb, ◌==◌, if◌then◌else◌}
use canis.Prelude.Texts.{Text, text_eq, text_eq_iff, elem}

-- `s < t`
unfoldable pub text_lt : Text → Text → Bool
text_lt s [] = false
text_lt [] (b ∷ t) = true
text_lt (a ∷ s) (b ∷ t) = ltb a b || (a == b) && text_lt s t

unfoldable pub insert_sorted : Text → List Text → List Text
insert_sorted s [] = s ∷ []
insert_sorted s (t ∷ ts) =
    let rest = insert_sorted s ts in
    if text_lt s t then s ∷ t ∷ ts else if text_eq s t then t ∷ ts else t ∷ rest

-- `sorted(set(texts))`
unfoldable pub sorted_set : List Text → List Text
unfolding insert_sorted text_lt text_eq
sorted_set [] = []
sorted_set (t ∷ ts) = insert_sorted t (sorted_set ts)

-- In strictly ascending order, so without repeats.
abbrev pub IsAscending : List Text → Type 0
IsAscending [] = Unit {0}
IsAscending (s ∷ []) = Unit {0}
IsAscending (s ∷ t ∷ ts) = (text_lt s t ≡ true) × IsAscending (t ∷ ts)

text_lt_total : (s t : Text) → text_lt s t ≡ false → text_eq s t ≡ false → text_lt t s ≡ true
unfolding text_lt text_eq
text_lt_total [] [] h e = cc
text_lt_total [] (b ∷ t) h e = cc
text_lt_total (a ∷ s) [] h e = refl
text_lt_total (a ∷ s) (b ∷ t) h e = ground (arith, text_lt_total s t)

insert_sorted-IsAscending :
    (s : Text) (ts : List Text) → IsAscending ts → IsAscending (insert_sorted s ts)
unfolding insert_sorted
insert_sorted-IsAscending s [] h = tt
insert_sorted-IsAscending s (t ∷ []) h = ground (arith, text_lt_total s t)
insert_sorted-IsAscending s (t ∷ u ∷ ts) h =
    ground (arith, text_lt_total s t, insert_sorted-IsAscending s (u ∷ ts) h.1)

pub sorted_set-IsAscending : (ts : List Text) → IsAscending (sorted_set ts)
unfolding sorted_set
sorted_set-IsAscending [] = tt
sorted_set-IsAscending (t ∷ ts) =
    insert_sorted-IsAscending t (sorted_set ts) (sorted_set-IsAscending ts)

elem-insert_sorted :
    (x s : Text) (ts : List Text) → elem x (insert_sorted s ts) ≡ (text_eq x s || elem x ts)
unfolding insert_sorted
elem-insert_sorted x s [] = refl
elem-insert_sorted x s (t ∷ ts) =
    ground (arith, text_eq_iff s t, text_eq_iff x s, text_eq_iff x t, elem-insert_sorted x s ts)

-- Sorting keeps exactly the members.
pub elem-sorted_set : (x : Text) (ts : List Text) → elem x (sorted_set ts) ≡ elem x ts
unfolding sorted_set
elem-sorted_set x [] = refl
elem-sorted_set x (t ∷ ts) =
    ground (arith, elem-insert_sorted x t (sorted_set ts), elem-sorted_set x ts)

pub elem-append : (x : Text) (ts us : List Text) → elem x (ts ++ us) ≡ (elem x ts || elem x us)
elem-append x [] us = refl
elem-append x (t ∷ ts) us = ground (arith, elem-append x ts us)
