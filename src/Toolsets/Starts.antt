-- ===== src/Toolsets/Starts.antt =====
-- What a start from the cache runs and turns on (holmes/core/toolset_manager.py,
-- `load_toolset_with_status`).
use canis.Prelude.{
  Bool, true, false, not, ◌&&◌, ◌≡◌, refl, ap, inl, inr, subst, Option, some, List, [], ◌∷◌, ◌++◌,
  map, arith, All, Bool-cases, Option-cases, Text, text_eq, Dict, dict_get, dict_set,
}
use mathlib.Core.List.{append-nil}
use canis.Tools.Result.{returned}
use canis.Context.Limit.{Outcome-cases}
use canis.Toolsets.Logging.{is_enabled}
use canis.Toolsets.Prerequisites.{Machine}
use canis.Toolsets.Manager.{
  ToolsetTag, ManagedToolset, Sources, list_toolsets, check_toolsets, turned_on, mark_disabled,
  list_all_toolsets,
}
use canis.Toolsets.StatusCache.{
  CachedStatus, is_mcp, cached, refresh_toolset_status, status_by_name, set_cached, restore_all,
  is_rechecked, is_eager, is_lazy, check_lazily, check_restored, add_from_cli, load_cached,
}
use canis.Toolsets.Restored.{IsOn, HasType, check_toolsets-IsOn, marked-IsOn, restore_all-refresh}

module _ {W K : Type 0} (m : Machine W) (others : K → K → K) where
  abbrev IsOnCached : CachedStatus → Type 0
  IsOnCached c = (is_enabled c.cached_state && not c.cached_enabled) ≡ false

  cached-IsOnCached :
      (ts : List (ManagedToolset W K))
      → All (IsOn m others) ts
      → All IsOnCached (map (cached m others) ts)
  cached-IsOnCached [] all = tt
  cached-IsOnCached (t ∷ ts) (on, all) = (on, cached-IsOnCached ts all)

  cached-IsOn :
      (ts : List (ManagedToolset W K))
      → All IsOnCached (map (cached m others) ts)
      → All (IsOn m others) ts
  cached-IsOn [] all = tt
  cached-IsOn (t ∷ ts) (on, all) = (on, cached-IsOn ts all)

  lazily-IsOn :
      (ts : List (ManagedToolset W K))
      → All (IsOn m others) ts
      → All (IsOn m others) (map (check_lazily m others) ts)
  unfolding check_lazily
  lazily-IsOn [] all = tt
  lazily-IsOn (t ∷ ts) (on, all) = elim (Bool-cases (is_lazy m others t)) [
    | inl e ↦
        let kept : t.is_on ≡ true = ground arith in
        (rw e (rw kept (ground arith)), lazily-IsOn ts all)
    | inr e ↦ (rw e on, lazily-IsOn ts all)
  ]

  restored-IsOn :
      (using_cached : Bool) (ts : List (ManagedToolset W K)) (w : W)
      → All (IsOn m others) ts
      → All (IsOn m others) (check_restored m others using_cached ts w).0
  unfolding check_restored
  restored-IsOn true ts w all =
      check_toolsets-IsOn m others (is_eager m others) (λ t e. ground arith)
        (map (check_lazily m others) ts) w (lazily-IsOn ts all)
  restored-IsOn false ts w all =
      check_toolsets-IsOn m others (is_rechecked m others) (λ t e. ground arith) ts w all

  -- Without toolsets from the command line, a start from what a refresh wrote, be it the same one or a
  -- later one, succeeds, and each toolset that it leaves enabled is turned on. The toolsets that are
  -- listed have types.
  pub load_cached-refresh :
      (sources : Sources W K) (using_cached enable_all : Bool) (tags : Option (List ToolsetTag))
      (w w' : W)
      → sources.from_cli ≡ []
      → All (HasType m others) (list_toolsets m others sources enable_all tags)
      → let file = (refresh_toolset_status m others sources enable_all tags w).0 in
        (loaded : List (ManagedToolset W K)) × (((load_cached m others sources using_cached file
              tags w').0
            ≡ returned loaded)
          × All (IsOn m others) loaded)
  unfolding load_cached refresh_toolset_status list_all_toolsets add_from_cli check_toolsets
  load_cached-refresh sources using_cached enable_all tags w w' no_cli typed =
      let file = (refresh_toolset_status m others sources enable_all tags w).0 in
      let (restored, (f, same)) = restore_all-refresh m others sources enable_all tags w typed in
      let listed = map (mark_disabled m others) (list_toolsets m others sources enable_all tags) in
      let checked =
        check_toolsets-IsOn m others (turned_on m others) (λ t e. e) listed w
          (marked-IsOn m others (list_toolsets m others sources enable_all tags)) in
      let on = cached-IsOn restored (
        rw same
          (cached-IsOnCached (check_toolsets m others (turned_on m others) listed w).0 checked)) in
      let (done, w1) = check_restored m others using_cached restored w' in
      (
        done ++ [],
        (
          rw (load_cached, f) (rw no_cli refl),
          rw (append-nil done) (restored-IsOn using_cached restored w' on),
        ),
      )

  abbrev pub NotMcp : ManagedToolset W K → Type 0
  NotMcp t = is_mcp t.toolset_type ≡ false

  abbrev AllCached : Dict CachedStatus → Type 0
  AllCached [] = Unit
  AllCached ((k, c) ∷ d) = (is_mcp c.cached_type ≡ false) × AllCached d

  dict_set-AllCached :
      (k : Text) (c : CachedStatus) (d : Dict CachedStatus)
      → is_mcp c.cached_type ≡ false
      → AllCached d
      → AllCached (dict_set k c d)
  unfolding dict_set
  dict_set-AllCached k c [] h all = (h, tt)
  dict_set-AllCached k c ((j, b) ∷ d) h (g, all) = elim (Bool-cases (text_eq j k)) [
    | inl e ↦ rw e (h, all)
    | inr e ↦ rw e (g, dict_set-AllCached k c d h all)
  ]

  status_by_name-AllCached :
      (cs : List CachedStatus) (d : Dict CachedStatus)
      → All (λ c. is_mcp c.cached_type ≡ false) cs
      → AllCached d
      → AllCached (status_by_name m others cs d)
  status_by_name-AllCached [] d all h = h
  status_by_name-AllCached (c ∷ cs) d (g, all) h =
      status_by_name-AllCached cs (dict_set c.cached_name c d) all
        (dict_set-AllCached c.cached_name c d g h)

  dict_get-AllCached :
      (k : Text) (c : CachedStatus) (d : Dict CachedStatus)
      → AllCached d
      → dict_get k d ≡ some c
      → is_mcp c.cached_type ≡ false
  unfolding dict_get
  dict_get-AllCached k c [] all e = absurd (ground arith)
  dict_get-AllCached k c ((j, b) ∷ d) (g, all) e = elim (Bool-cases (text_eq j k)) [
    | inl f ↦ let same : b ≡ c = ground arith in rw (← same) g
    | inr f ↦ dict_get-AllCached k c d all (ground arith)
  ]

  restore_all-NotMcp :
      (d : Dict CachedStatus) (us vs : List (ManagedToolset W K))
      → AllCached d
      → All NotMcp us
      → restore_all m others d us ≡ returned vs
      → All NotMcp vs
  unfolding restore_all
  restore_all-NotMcp d [] vs known all h =
      let same : [] ≡ vs = ground arith in subst (All NotMcp) same tt
  restore_all-NotMcp d (u ∷ us) vs known (own, all) h =
      elim (Outcome-cases (restore_all m others d us)) [
        | inl (e, f) ↦ elim (Option-cases (dict_get u.name d)) [
          | inl g ↦ absurd (ground arith)
          | inr (c, g) ↦ elim (Option-cases c.cached_type) [
            | inl k ↦ absurd (ground arith)
            | inr (kind, k) ↦ absurd (ground arith)
          ]
        ]
        | inr (done, f) ↦
            let rest = restore_all-NotMcp d us done known all f in
            elim (Option-cases (dict_get u.name d)) [
              | inl g ↦
                  let same : (u ∷ done) ≡ vs = ground arith in subst (All NotMcp) same (own, rest)
              | inr (c, g) ↦ elim (Option-cases c.cached_type) [
                | inl k ↦ absurd (ground arith)
                | inr (kind, k) ↦
                    let same : (set_cached m others c u ∷ done) ≡ vs = ground arith in
                    subst (All NotMcp) same (dict_get-AllCached u.name c d known g, rest)
              ]
            ]
      ]

  -- Checks of none of the toolsets leave them and the world.
  check_toolsets_none :
      (chosen : ManagedToolset W K → Bool) (ts : List (ManagedToolset W K)) (w : W)
      → All (λ t. chosen t ≡ false) ts
      → check_toolsets m others chosen ts w ≡ (ts, w)
  unfolding check_toolsets
  check_toolsets_none chosen [] w all = refl
  check_toolsets_none chosen (t ∷ ts) w (off, all) =
      let rest = check_toolsets_none chosen ts w all in rw (check_toolsets, off) (rw rest refl)

  lazily-not_eager :
      (ts : List (ManagedToolset W K))
      → All NotMcp ts
      → All (λ t. is_eager m others t ≡ false) (map (check_lazily m others) ts)
  unfolding check_lazily
  lazily-not_eager [] all = tt
  lazily-not_eager (t ∷ ts) (own, all) = elim (Bool-cases (is_lazy m others t)) [
    | inl e ↦ (rw e (rw own (ground arith)), lazily-not_eager ts all)
    | inr e ↦ (rw e (rw own (ground arith)), lazily-not_eager ts all)
  ]

  -- When no toolset that is listed or cached is an MCP server and none comes from the command line, a
  -- start from a cache file, whatever is in it, runs no prerequisite and changes nothing.
  pub load_cached-lazily :
      (sources : Sources W K) (file : List CachedStatus) (tags : Option (List ToolsetTag)) (w : W)
      → sources.from_cli ≡ []
      → All NotMcp (list_toolsets m others sources false tags)
      → All (λ c. is_mcp c.cached_type ≡ false) file
      → (load_cached m others sources true file tags w).1 ≡ w
  unfolding load_cached check_restored add_from_cli check_toolsets
  load_cached-lazily sources file tags w no_cli listed cached_file =
      let d = status_by_name m others file [] in
      let us = list_toolsets m others sources false tags in
      elim (Outcome-cases (restore_all m others d us)) [
        | inl (e, f) ↦ rw (load_cached, f) refl
        | inr (ts, f) ↦
            let known = status_by_name-AllCached file [] cached_file tt in
            let idle =
              check_toolsets_none (is_eager m others) (map (check_lazily m others) ts) w
                (lazily-not_eager ts (restore_all-NotMcp d us ts known listed f)) in
            rw (load_cached, f) (rw no_cli (ap (λ (r : List (ManagedToolset W K) × W). r.1) idle))
      ]
