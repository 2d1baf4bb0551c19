-- ===== src/Toolsets/Restored.antt =====
-- A start from the cache that a refresh wrote (holmes/core/toolset_manager.py,
-- `load_toolset_with_status`).
use canis.Prelude.{
  Bool, true, false, not, ◌&&◌, ◌≡◌, refl, sym, ap, ◌∙◌, inl, inr, Option, some, List, [], ◌∷◌, map,
  is_some, arith, All, Bool-cases, Option-cases, Text, text_eq_iff, Dict, dict_get, dict_set,
  dict_get-dict_set,
}
use canis.Tools.Result.{returned}
use canis.Toolsets.Logging.{is_enabled}
use canis.Toolsets.Prerequisites.{Machine, check_prerequisites}
use canis.Toolsets.Manager.{
  ToolsetTag, ToolsetType, ManagedToolset, Sources, is_among, list_toolsets, check_toolsets,
  turned_on, mark_disabled, list_all_toolsets,
}
use canis.Toolsets.StatusCache.{
  CachedStatus, cached, refresh_toolset_status, status_by_name, set_cached, restore_all,
}
use canis.Toolsets.Listing.{names, names-list_toolsets}
use canis.Toolsets.Distinct.{AreDistinct, list_toolsets-AreDistinct}

module _ {W K : Type 0} (m : Machine W) (others : K → K → K) where
  abbrev pub HasType : ManagedToolset W K → Type 0
  HasType t = is_some t.toolset_type ≡ true

  -- The cache has the status of the toolset.
  abbrev IsFound : Dict CachedStatus → ManagedToolset W K → Type 0
  IsFound d t = dict_get t.name d ≡ some (cached m others t)

  status_by_name_other :
      (k : Text) (ts : List (ManagedToolset W K)) (d : Dict CachedStatus)
      → is_among k (names m others ts) ≡ false
      → dict_get k (status_by_name m others (map (cached m others) ts) d) ≡ dict_get k d
  status_by_name_other k [] d h = refl
  status_by_name_other k (t ∷ ts) d h =
      status_by_name_other k ts (dict_set t.name (cached m others t) d) (ground arith)
      ∙ dict_get-dict_set k t.name (cached m others t) d
      ∙ ground (arith, text_eq_iff k t.name, text_eq_iff t.name k)

  status_by_name-IsFound :
      (ts : List (ManagedToolset W K)) (d : Dict CachedStatus)
      → AreDistinct (names m others ts)
      → All (IsFound (status_by_name m others (map (cached m others) ts) d)) ts
  status_by_name-IsFound [] d h = tt
  status_by_name-IsFound (t ∷ ts) d (fresh, h) = (
    status_by_name_other t.name ts (dict_set t.name (cached m others t) d) fresh
        ∙ dict_get-dict_set t.name t.name (cached m others t) d
        ∙ ground (arith, text_eq_iff t.name t.name),
    status_by_name-IsFound ts (dict_set t.name (cached m others t) d) h,
  )

  -- Toolsets with the same names get what the cache has.
  restore_all-cached :
      (d : Dict CachedStatus) (ts us : List (ManagedToolset W K))
      → names m others us ≡ names m others ts
      → All HasType ts
      → All (IsFound d) ts
      → (vs : List (ManagedToolset W K)) × ((restore_all m others d us ≡ returned vs)
          × (map (cached m others) vs ≡ map (cached m others) ts))
  unfolding restore_all
  restore_all-cached d [] [] same typed found = ([], (refl, refl))
  restore_all-cached d [] (u ∷ us) same typed found = absurd (ground arith)
  restore_all-cached d (t ∷ ts) [] same typed found = absurd (ground arith)
  restore_all-cached d (t ∷ ts) (u ∷ us) same (typed, all_typed) (found, all_found) =
      let named : u.name ≡ t.name = ground arith in
      let (vs, (done, equal)) = restore_all-cached d ts us (ground arith) all_typed all_found in
      let got : dict_get u.name d ≡ some (cached m others t) =
        ap (λ k. dict_get k d) named ∙ found in
      elim (Option-cases t.toolset_type) [
        | inl e ↦ absurd (ground arith)
        | inr (kind, e) ↦ (
          set_cached m others (cached m others t) u ∷ vs,
          (
            rw (restore_all, got)
                (rw e (
                  rw done (
                    ap
                      (λ (k : Option ToolsetType). returned (
                        record (set_cached m others (cached m others t) u) { toolset_type = k }
                        ∷ vs))
                      e))),
            rw named (ap (λ (l : List CachedStatus). cached m others t ∷ l) equal),
          ),
        )
      ]

  -- A toolset whose status is enabled is on.
  abbrev pub IsOn : ManagedToolset W K → Type 0
  IsOn t = (is_enabled t.checked.status && not t.is_on) ≡ false

  -- Off toolsets are not enabled, if only those that are on are checked.
  pub check_toolsets-IsOn :
      (chosen : ManagedToolset W K → Bool)
      → ((t : ManagedToolset W K) → chosen t ≡ true → t.is_on ≡ true)
      → (ts : List (ManagedToolset W K)) (w : W) → All IsOn ts
      → All IsOn (check_toolsets m others chosen ts w).0
  unfolding check_toolsets
  check_toolsets-IsOn chosen ok [] w all = tt
  check_toolsets-IsOn chosen ok (t ∷ ts) w (on, all) =
      let (s, w1) = check_prerequisites m t.prerequisites t.checked w in
      let first = check_toolsets-IsOn chosen ok ts w1 all in
      let second = check_toolsets-IsOn chosen ok ts w all in
      elim (Bool-cases (chosen t)) [
        | inl e ↦ rw e (rw (ok t e) (ground arith), first)
        | inr e ↦ rw e (on, second)
      ]

  names-check_toolsets :
      (chosen : ManagedToolset W K → Bool) (ts : List (ManagedToolset W K)) (w : W)
      → names m others (check_toolsets m others chosen ts w).0 ≡ names m others ts
  unfolding check_toolsets
  names-check_toolsets chosen [] w = refl
  names-check_toolsets chosen (t ∷ ts) w =
      let (s, w1) = check_prerequisites m t.prerequisites t.checked w in
      elim (Bool-cases (chosen t)) [
        | inl e ↦ rw e (ap (λ (l : List Text). t.name ∷ l) (names-check_toolsets chosen ts w1))
        | inr e ↦ rw e (ap (λ (l : List Text). t.name ∷ l) (names-check_toolsets chosen ts w))
      ]

  check_toolsets-HasType :
      (chosen : ManagedToolset W K → Bool) (ts : List (ManagedToolset W K)) (w : W)
      → All HasType ts
      → All HasType (check_toolsets m others chosen ts w).0
  unfolding check_toolsets
  check_toolsets-HasType chosen [] w all = tt
  check_toolsets-HasType chosen (t ∷ ts) w (typed, all) =
      let (s, w1) = check_prerequisites m t.prerequisites t.checked w in
      elim (Bool-cases (chosen t)) [
        | inl e ↦ rw e (typed, check_toolsets-HasType chosen ts w1 all)
        | inr e ↦ rw e (typed, check_toolsets-HasType chosen ts w all)
      ]

  marked_names :
      (ts : List (ManagedToolset W K))
      → names m others (map (mark_disabled m others) ts) ≡ names m others ts
  marked_names [] = refl
  marked_names (t ∷ ts) = elim (Bool-cases t.is_on) [
    | inl e ↦ rw e (ap (λ (l : List Text). t.name ∷ l) (marked_names ts))
    | inr e ↦ rw e (ap (λ (l : List Text). t.name ∷ l) (marked_names ts))
  ]

  marked-HasType :
      (ts : List (ManagedToolset W K))
      → All HasType ts
      → All HasType (map (mark_disabled m others) ts)
  marked-HasType [] all = tt
  marked-HasType (t ∷ ts) (typed, all) = elim (Bool-cases t.is_on) [
    | inl e ↦ rw e (typed, marked-HasType ts all)
    | inr e ↦ rw e (typed, marked-HasType ts all)
  ]

  pub marked-IsOn : (ts : List (ManagedToolset W K)) → All IsOn (map (mark_disabled m others) ts)
  marked-IsOn [] = tt
  marked-IsOn (t ∷ ts) = elim (Bool-cases t.is_on) [
    | inl e ↦ (rw e (ground arith), marked-IsOn ts)
    | inr e ↦ (rw e refl, marked-IsOn ts)
  ]

  -- What a refresh writes, a start from the cache gives back to the toolsets that it lists: their
  -- statuses, errors, switches, types and paths are those that the checks of the refresh gave. The
  -- toolsets have types, and the two listings may differ in turning all toolsets on.
  pub restore_all-refresh :
      (sources : Sources W K) (enable_all : Bool) (tags : Option (List ToolsetTag)) (w : W)
      → All HasType (list_toolsets m others sources enable_all tags)
      → let file = (refresh_toolset_status m others sources enable_all tags w).0 in
        (restored : List (ManagedToolset W K)) × ((restore_all m others
              (status_by_name m others file [])
              (list_toolsets m others sources false tags)
            ≡ returned restored)
          × (map (cached m others) restored ≡ file))
  unfolding refresh_toolset_status list_all_toolsets
  restore_all-refresh sources enable_all tags w typed =
      let listed = list_toolsets m others sources enable_all tags in
      let marked = map (mark_disabled m others) listed in
      let ts = (check_toolsets m others (turned_on m others) marked w).0 in
      let same : names m others ts ≡ names m others listed =
        names-check_toolsets (turned_on m others) marked w ∙ marked_names listed in
      restore_all-cached (status_by_name m others (map (cached m others) ts) []) ts
        (list_toolsets m others sources false tags)
        (names-list_toolsets m others sources false enable_all tags ∙ sym same)
        (check_toolsets-HasType (turned_on m others) marked w (marked-HasType listed typed))
        (status_by_name-IsFound ts []
          (rw same (list_toolsets-AreDistinct m others sources enable_all tags)))
