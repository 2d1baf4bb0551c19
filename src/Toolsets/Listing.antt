-- ===== src/Toolsets/Listing.antt =====
-- The names in a listing of `ToolsetManager._list_all_toolsets` (holmes/core/toolset_manager.py).
use canis.Prelude.{
  Bool, ◌≡◌, refl, sym, ap, ◌∙◌, inl, inr, Option, none, some, List, [], ◌∷◌, map, any, keep_if,
  if◌then◌else◌, Bool-cases, Text, text_eq, text_eq_iff, Dict, dict_get, dict_set,
}
use canis.Toolsets.Prerequisites.{Machine}
use canis.Toolsets.Manager.{
  ToolsetTag, ManagedToolset, Sources, same_tag, tags_field, name_of, override_with,
  add_or_merge_onto_toolsets, by_name, values, has_tag, turn_on, list_toolsets,
}

module _ {W K : Type 0} (m : Machine W) (others : K → K → K) where
  -- Toolsets that a listing treats alike.
  abbrev pub Alike : ManagedToolset W K → ManagedToolset W K → Type 0
  Alike t u = (t.name ≡ u.name) × (t.tags ≡ u.tags)

  abbrev DictAlike : Dict (ManagedToolset W K) → Dict (ManagedToolset W K) → Type 0
  DictAlike [] [] = Unit
  DictAlike [] ((j, u) ∷ e) = ⊥
  DictAlike ((k, t) ∷ d) [] = ⊥
  DictAlike ((k, t) ∷ d) ((j, u) ∷ e) = (k ≡ j) × (t.name ≡ k) × Alike t u × DictAlike d e

  dict_set-DictAlike :
      (k : Text) (t u : ManagedToolset W K) (d e : Dict (ManagedToolset W K))
      → t.name ≡ k
      → Alike t u
      → DictAlike d e
      → DictAlike (dict_set k t d) (dict_set k u e)
  unfolding dict_set
  dict_set-DictAlike k t u [] [] named same h = (refl, named, same, tt)
  dict_set-DictAlike k t u [] ((j, v) ∷ e) named same h = absurd h
  dict_set-DictAlike k t u ((j, v) ∷ d) [] named same h = absurd h
  dict_set-DictAlike k t u ((i, v) ∷ d) ((j, w) ∷ e) named same (key, own, alike, h) =
      rw (← key) (elim (Bool-cases (text_eq i k)) [
        | inl f ↦ rw f (refl, named ∙ sym ((text_eq_iff i k).0 f), same, h)
        | inr f ↦ rw f (refl, own, alike, dict_set-DictAlike k t u d e named same h)
      ])

  abbrev GetAlike : Text → Option (ManagedToolset W K) → Option (ManagedToolset W K) → Type 0
  GetAlike k none none = Unit
  GetAlike k none (some u) = ⊥
  GetAlike k (some t) none = ⊥
  GetAlike k (some t) (some u) = (t.name ≡ k) × Alike t u

  dict_get-GetAlike :
      (k : Text) (d e : Dict (ManagedToolset W K))
      → DictAlike d e
      → GetAlike k (dict_get k d) (dict_get k e)
  unfolding dict_get
  dict_get-GetAlike k [] [] h = tt
  dict_get-GetAlike k [] ((j, v) ∷ e) h = absurd h
  dict_get-GetAlike k ((j, v) ∷ d) [] h = absurd h
  dict_get-GetAlike k ((i, v) ∷ d) ((j, w) ∷ e) (key, own, alike, h) =
      rw (← key) (elim (Bool-cases (text_eq i k)) [
        | inl f ↦ rw f (own ∙ (text_eq_iff i k).0 f, alike)
        | inr f ↦ rw f (dict_get-GetAlike k d e h)
      ])

  override_with-Alike :
      (t u o : ManagedToolset W K)
      → Alike t u
      → Alike (override_with m others t o) (override_with m others u o)
  unfolding override_with
  override_with-Alike t u o (named, tagged) = (named, overridden o.tags)
    where
      overridden :
          (tags : List ToolsetTag)
          → (elim tags [ [] ↦ t.tags | g ∷ gs ↦ if o.is_set tags_field then g ∷ gs else t.tags ])
            ≡ (elim tags [ [] ↦ u.tags | g ∷ gs ↦ if o.is_set tags_field then g ∷ gs else u.tags ])
      overridden [] = tagged
      overridden (g ∷ gs) = rw tagged refl

  -- One step of the merge, with what the name is bound to.
  abbrev merge_one :
      ManagedToolset W K
      → Option (ManagedToolset W K)
      → Dict (ManagedToolset W K)
      → Dict (ManagedToolset W K)
  merge_one t old d = elim old [
    | none ↦ dict_set t.name t d
    | some u ↦ dict_set t.name (override_with m others u t) d
  ]

  merge_one-DictAlike :
      (t : ManagedToolset W K) (a b : Option (ManagedToolset W K)) (d e : Dict (ManagedToolset W K))
      → GetAlike t.name a b
      → DictAlike d e
      → DictAlike (merge_one t a d) (merge_one t b e)
  unfolding override_with
  merge_one-DictAlike t none none d e got h = dict_set-DictAlike t.name t t d e refl (refl, refl) h
  merge_one-DictAlike t none (some v) d e got h = absurd got
  merge_one-DictAlike t (some u) none d e got h = absurd got
  merge_one-DictAlike t (some u) (some v) d e (named, alike) h =
      dict_set-DictAlike t.name (override_with m others u t) (override_with m others v t) d e named
        (override_with-Alike u v t alike) h

  merge-DictAlike :
      (ts : List (ManagedToolset W K)) (d e : Dict (ManagedToolset W K))
      → DictAlike d e
      → DictAlike
          (add_or_merge_onto_toolsets m others ts d)
          (add_or_merge_onto_toolsets m others ts e)
  unfolding add_or_merge_onto_toolsets
  merge-DictAlike [] d e h = h
  merge-DictAlike (t ∷ ts) d e h =
      merge-DictAlike ts (merge_one t (dict_get t.name d) d) (merge_one t (dict_get t.name e) e) (
        merge_one-DictAlike t (dict_get t.name d) (dict_get t.name e) d e
          (dict_get-GetAlike t.name d e h) h)

  by_name-DictAlike :
      (b c : Bool) (ts : List (ManagedToolset W K)) (d e : Dict (ManagedToolset W K))
      → DictAlike d e
      → DictAlike
          (by_name m others (map (turn_on m others b) ts) d)
          (by_name m others (map (turn_on m others c) ts) e)
  by_name-DictAlike b c [] d e h = h
  by_name-DictAlike b c (t ∷ ts) d e h =
      by_name-DictAlike b c ts (dict_set t.name (turn_on m others b t) d)
        (dict_set t.name (turn_on m others c t) e)
        (dict_set-DictAlike t.name (turn_on m others b t) (turn_on m others c t) d e refl
          (refl, refl) h)

  has_tag-Alike :
      (tags : Option (List ToolsetTag)) (t u : ManagedToolset W K)
      → Alike t u
      → has_tag m others tags t ≡ has_tag m others tags u
  has_tag-Alike none t u h = refl
  has_tag-Alike (some tags) t u (named, tagged) =
      ap (λ (gs : List ToolsetTag). any (λ g. any (same_tag g) tags) gs) tagged

  abbrev pub names : List (ManagedToolset W K) → List Text
  names ts = map (name_of m others) ts

  names-values :
      (tags : Option (List ToolsetTag)) (d e : Dict (ManagedToolset W K))
      → DictAlike d e
      → names (keep_if (has_tag m others tags) (values m others d))
        ≡ names (keep_if (has_tag m others tags) (values m others e))
  names-values tags [] [] h = refl
  names-values tags [] ((j, v) ∷ e) h = absurd h
  names-values tags ((j, v) ∷ d) [] h = absurd h
  names-values tags ((i, v) ∷ d) ((j, w) ∷ e) (key, own, alike, h) =
      let rest = names-values tags d e h in
      let same = has_tag-Alike tags v w alike in
      elim (Bool-cases (has_tag m others tags v)) [
        | inl f ↦ rw f (rw (← same) (rw f (rw alike.0 (ap (λ (l : List Text). w.name ∷ l) rest))))
        | inr f ↦ rw f (rw (← same) (rw f rest))
      ]

  -- The names do not depend on whether all toolsets are turned on.
  pub names-list_toolsets :
      (sources : Sources W K) (b c : Bool) (tags : Option (List ToolsetTag))
      → names (list_toolsets m others sources b tags)
        ≡ names (list_toolsets m others sources c tags)
  unfolding list_toolsets
  names-list_toolsets sources b c tags =
      let known = by_name-DictAlike b c sources.builtin_toolsets [] [] tt in
      let on = by_name m others (map (turn_on m others b) sources.builtin_toolsets) [] in
      let off = by_name m others (map (turn_on m others c) sources.builtin_toolsets) [] in
      let half = merge-DictAlike sources.configured on off known in
      let all_of =
        merge-DictAlike sources.custom (add_or_merge_onto_toolsets m others sources.configured on)
          (add_or_merge_onto_toolsets m others sources.configured off) half in
      names-values tags
        (add_or_merge_onto_toolsets m others sources.custom
          (add_or_merge_onto_toolsets m others sources.configured on))
        (add_or_merge_onto_toolsets m others sources.custom
          (add_or_merge_onto_toolsets m others sources.configured off))
        all_of
