-- ===== src/Toolsets/StatusCache.antt =====
-- The cache of the statuses of toolsets and a start from it: `refresh_toolset_status` and
-- `load_toolset_with_status` of holmes/core/toolset_manager.py.
use canis.Prelude.{
  Bool, true, false, not, ◌&&◌, ◌||◌, Option, none, some, List, [], ◌∷◌, ◌++◌, map, any,
  if◌then◌else◌, is_some, Text, codes, Dict, dict_get, dict_set,
}
use canis.Tools.Result.{Outcome, returned, raised}
use canis.Toolsets.Logging.{ToolsetStatusEnum, is_enabled}
use canis.Toolsets.Prerequisites.{Machine, check_config_prerequisites}
use canis.Toolsets.Manager.{
  ToolsetTag, ToolsetType, builtin, customized, mcp, http, database, ManagedToolset, Sources,
  list_toolsets, check_toolsets, list_all_toolsets,
}

-- An element of the cache file.
pub record CachedStatus : Type 0 where
  pub cached_name : Text
  pub cached_state : ToolsetStatusEnum
  pub cached_error : Option Text
  pub cached_enabled : Bool
  pub cached_type : Option ToolsetType
  pub cached_path : Option Text

abbrev pub is_mcp : Option ToolsetType → Bool
is_mcp (some mcp) = true
is_mcp (some builtin) = false
is_mcp (some customized) = false
is_mcp (some http) = false
is_mcp (some database) = false
is_mcp none = false

-- `m` is the machine of the prerequisites; `others` overrides the other fields.
module _ {W K : Type 0} (m : Machine W) (others : K → K → K) where
  abbrev pub cached : ManagedToolset W K → CachedStatus
  cached t = record {
    cached_name = t.name;
    cached_state = t.checked.status;
    cached_error = t.checked.error_text;
    cached_enabled = t.is_on;
    cached_type = t.toolset_type;
    cached_path = t.path;
  }

  -- The list that is written to the cache.
  unfoldable pub refresh_toolset_status :
      Sources W K → Bool → Option (List ToolsetTag) → W → List CachedStatus × W
  unfolding list_all_toolsets
  refresh_toolset_status sources enable_all tags w =
      let (ts, w') = list_all_toolsets m others sources enable_all tags w in (map cached ts, w')

  -- `{cached["name"]: cached for cached in cached_toolsets}`, onto a dictionary
  abbrev pub status_by_name : List CachedStatus → Dict CachedStatus → Dict CachedStatus
  status_by_name [] d = d
  status_by_name (c ∷ cs) d = status_by_name cs (dict_set c.cached_name c d)

  abbrev pub set_cached : CachedStatus → ManagedToolset W K → ManagedToolset W K
  set_cached c t =
      let old = t.checked in
      record t {
        is_on = c.cached_enabled;
        toolset_type = c.cached_type;
        path = c.cached_path;
        checked = record old { status = c.cached_state; error_text = c.cached_error };
      }

  -- The status, the error and so on from the cache. A type that is null there is an error.
  unfoldable pub restore_all :
      Dict CachedStatus → List (ManagedToolset W K) → Outcome (List (ManagedToolset W K))
  restore_all d [] = returned []
  restore_all d (t ∷ ts) =
      let rest = restore_all d ts in
      elim (dict_get t.name d) [
        | none ↦ elim rest [ raised e ↦ raised e | returned done ↦ returned (t ∷ done) ]
        | some c ↦ elim c.cached_type [
          | none ↦ raised (codes "None is not a valid ToolsetType")
          | some kind ↦ elim rest [
            | raised e ↦ raised e
            | returned done ↦ returned (set_cached c t ∷ done)
          ]
        ]
      ]

  -- Enabled toolsets that are checked again.
  abbrev pub is_rechecked : ManagedToolset W K → Bool
  is_rechecked t = t.is_on && (is_enabled t.checked.status || is_mcp t.toolset_type)

  abbrev pub is_eager : ManagedToolset W K → Bool
  is_eager t = is_rechecked t && is_mcp t.toolset_type

  abbrev pub is_lazy : ManagedToolset W K → Bool
  is_lazy t = is_rechecked t && not (is_mcp t.toolset_type)

  -- `_check_config_prerequisites`
  unfoldable pub check_lazily : ManagedToolset W K → ManagedToolset W K
  unfolding check_config_prerequisites
  check_lazily t =
      if is_lazy t
      then record t { checked = check_config_prerequisites m t.prerequisites t.checked }
      else t

  unfoldable pub check_restored :
      Bool → List (ManagedToolset W K) → W → List (ManagedToolset W K) × W
  unfolding check_lazily check_toolsets
  check_restored using_cached ts w =
      if using_cached
      then check_toolsets m others is_eager (map check_lazily ts) w
      else check_toolsets m others is_rechecked ts w

  abbrev pub every : ManagedToolset W K → Bool
  every t = true

  -- The toolsets of the command line, whose names may not be in the cache.
  unfoldable pub add_from_cli :
      Dict CachedStatus
      → List (ManagedToolset W K)
      → List (ManagedToolset W K)
      → W
      → Outcome (List (ManagedToolset W K)) × W
  unfolding check_toolsets
  add_from_cli d extra ts w =
      let (done, w') = check_toolsets m others every extra w in
      if any (λ t. is_some (dict_get t.name d)) extra
      then (raised (codes "Toolset is already defined in the built-in toolsets"), w)
      else (returned (ts ++ done), w')

  -- After the cache file is there.
  unfoldable pub load_cached :
      Sources W K
      → Bool
      → List CachedStatus
      → Option (List ToolsetTag)
      → W
      → Outcome (List (ManagedToolset W K)) × W
  unfolding list_toolsets restore_all check_restored add_from_cli
  load_cached sources using_cached file tags w =
      let d = status_by_name file [] in
      elim (restore_all d (list_toolsets m others sources false tags)) [
        | raised e ↦ (raised e, w)
        | returned ts ↦
            let (done, w') = check_restored using_cached ts w in
            add_from_cli d sources.from_cli done w'
      ]

  -- `changed` is the test of the hashes of the configuration files. The file is `none` when it does
  -- not exist; what is in it afterwards is returned.
  unfoldable pub load_toolset_with_status :
      Sources W K
      → Bool
      → Bool
      → Bool
      → Option (List ToolsetTag)
      → Option (List CachedStatus)
      → W
      → Outcome (List (ManagedToolset W K)) × List CachedStatus × W
  unfolding refresh_toolset_status load_cached
  load_toolset_with_status sources changed refresh_status enable_all tags file w =
      let (fresh, w1) = refresh_toolset_status sources enable_all tags w in
      let (refreshed, w2) = load_cached sources false fresh tags w1 in
      elim (if refresh_status || changed then none else file) [
        | none ↦ (refreshed, fresh, w2)
        | some old ↦ let (loaded, w') = load_cached sources true old tags w in (loaded, old, w')
      ]
