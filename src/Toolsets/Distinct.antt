-- ===== src/Toolsets/Distinct.antt =====
-- The toolsets of a listing have distinct names (holmes/core/toolset_manager.py).
use canis.Prelude.{
  Bool, false, ◌≡◌, refl, sym, ap, ◌∙◌, inl, inr, Option, none, some, List, [], ◌∷◌, map, keep_if,
  arith, Bool-cases, Option-cases, Text, text_eq, text_eq_iff, Dict, dict_get, dict_set,
  dict_get-dict_set,
}
use canis.Toolsets.Prerequisites.{Machine}
use canis.Toolsets.Manager.{
  ToolsetTag, ManagedToolset, Sources, is_among, override_with, add_or_merge_onto_toolsets, by_name,
  values, has_tag, turn_on, list_toolsets,
}
use canis.Toolsets.Listing.{names}

abbrev pub AreDistinct : List Text → Type 0
AreDistinct [] = Unit
AreDistinct (x ∷ xs) = (is_among x xs ≡ false) × AreDistinct xs

module _ {W K : Type 0} (m : Machine W) (others : K → K → K) where
  -- A dictionary of toolsets by their names.
  abbrev IsByName : Dict (ManagedToolset W K) → Type 0
  IsByName [] = Unit
  IsByName ((k, t) ∷ d) = (t.name ≡ k) × (dict_get k d ≡ none) × IsByName d

  dict_set-IsByName :
      (k : Text) (t : ManagedToolset W K) (d : Dict (ManagedToolset W K))
      → t.name ≡ k
      → IsByName d
      → IsByName (dict_set k t d)
  unfolding dict_set dict_get
  dict_set-IsByName k t [] named h = (named, refl, tt)
  dict_set-IsByName k t ((i, v) ∷ d) named (own, fresh, h) = elim (Bool-cases (text_eq i k)) [
    | inl f ↦ rw f (named ∙ sym ((text_eq_iff i k).0 f), fresh, h)
    | inr f ↦ rw f (
      own,
      dict_get-dict_set i k t d ∙ ground (arith, text_eq_iff i k, text_eq_iff k i),
      dict_set-IsByName k t d named h,
    )
  ]

  -- What a dictionary by names binds has the name.
  dict_get-IsByName :
      (k : Text) (u : ManagedToolset W K) (d : Dict (ManagedToolset W K))
      → IsByName d
      → dict_get k d ≡ some u
      → u.name ≡ k
  unfolding dict_get
  dict_get-IsByName k u [] h e = absurd (ground arith)
  dict_get-IsByName k u ((i, v) ∷ d) (own, fresh, h) e = elim (Bool-cases (text_eq i k)) [
    | inl f ↦
        let same : v ≡ u = ground arith in
        ap (λ (t : ManagedToolset W K). t.name) (sym same) ∙ (own ∙ (text_eq_iff i k).0 f)
    | inr f ↦ dict_get-IsByName k u d h (ground arith)
  ]

  merge-IsByName :
      (ts : List (ManagedToolset W K)) (d : Dict (ManagedToolset W K))
      → IsByName d
      → IsByName (add_or_merge_onto_toolsets m others ts d)
  unfolding add_or_merge_onto_toolsets override_with
  merge-IsByName [] d h = h
  merge-IsByName (t ∷ ts) d h = elim (Option-cases (dict_get t.name d)) [
    | inl f ↦ rw f (merge-IsByName ts (dict_set t.name t d) (dict_set-IsByName t.name t d refl h))
    | inr (u, f) ↦ rw f (
        merge-IsByName ts (dict_set t.name (override_with m others u t) d) (
          dict_set-IsByName t.name (override_with m others u t) d (dict_get-IsByName t.name u d h f)
            h))
  ]

  by_name-IsByName :
      (b : Bool) (ts : List (ManagedToolset W K)) (d : Dict (ManagedToolset W K))
      → IsByName d
      → IsByName (by_name m others (map (turn_on m others b) ts) d)
  by_name-IsByName b [] d h = h
  by_name-IsByName b (t ∷ ts) d h =
      by_name-IsByName b ts (dict_set t.name (turn_on m others b t) d)
        (dict_set-IsByName t.name (turn_on m others b t) d refl h)

  is_among-values :
      (k : Text) (tags : Option (List ToolsetTag)) (d : Dict (ManagedToolset W K))
      → IsByName d
      → dict_get k d ≡ none
      → is_among k (names m others (keep_if (has_tag m others tags) (values m others d))) ≡ false
  unfolding dict_get
  is_among-values k tags [] h e = refl
  is_among-values k tags ((i, v) ∷ d) (own, fresh, h) e = elim (Bool-cases (text_eq i k)) [
    | inl f ↦ absurd (ground arith)
    | inr f ↦
        let rest = is_among-values k tags d h (ground arith) in
        elim (Bool-cases (has_tag m others tags v)) [
          | inl g ↦ rw g (rw own (ground (arith, text_eq_iff i k, text_eq_iff k i)))
          | inr g ↦ rw g rest
        ]
  ]

  values-AreDistinct :
      (tags : Option (List ToolsetTag)) (d : Dict (ManagedToolset W K))
      → IsByName d
      → AreDistinct (names m others (keep_if (has_tag m others tags) (values m others d)))
  values-AreDistinct tags [] h = tt
  values-AreDistinct tags ((i, v) ∷ d) (own, fresh, h) =
      let rest = values-AreDistinct tags d h in
      elim (Bool-cases (has_tag m others tags v)) [
        | inl g ↦ rw g (rw own (is_among-values i tags d h fresh, rest))
        | inr g ↦ rw g rest
      ]

  pub list_toolsets-AreDistinct :
      (sources : Sources W K) (b : Bool) (tags : Option (List ToolsetTag))
      → AreDistinct (names m others (list_toolsets m others sources b tags))
  unfolding list_toolsets
  list_toolsets-AreDistinct sources b tags =
      let known = by_name m others (map (turn_on m others b) sources.builtin_toolsets) [] in
      let half = add_or_merge_onto_toolsets m others sources.configured known in
      values-AreDistinct tags (add_or_merge_onto_toolsets m others sources.custom half) (
        merge-IsByName sources.custom half (
          merge-IsByName sources.configured known
            (by_name-IsByName b sources.builtin_toolsets [] tt)))
