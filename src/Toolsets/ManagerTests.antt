-- ===== src/Toolsets/ManagerTests.antt =====
-- Starts from the cache at concrete toolsets.
use canis.Prelude.{
  ℕ, ◌+◌, ltb, if◌then◌else◌, Bool, true, false, ◌≡◌, refl, some, none, List, [], ◌∷◌, map, All,
  Text, codes, text_eq, dict_get, dict_set,
}
use canis.Tools.Result.{returned}
use canis.Toolsets.Logging.{disabled, is_enabled}
use canis.Toolsets.Prerequisites.{
  command, Machine, exited, called_process_error, check_prerequisites,
}
use canis.Toolsets.Manager.{
  core, cli, builtin, enabled_field, ToolsetField, type_field, path_field, prerequisites_field,
  tags_field, ManagedToolset, Sources, list_toolsets,
}
use canis.Toolsets.StatusCache.{
  CachedStatus, is_mcp, cached, refresh_toolset_status, status_by_name, restore_all, load_cached,
}
use canis.Toolsets.Restored.{IsOn, HasType, restore_all-refresh}
use canis.Toolsets.Starts.{NotMcp, load_cached-refresh, load_cached-lazily}

-- The world counts the commands; the first one fails.
abbrev shell : Machine ℕ
shell = record {
  expandvars = λ s. s;
  is_set = λ s. true;
  run = λ s w. (if ltb w 1 then called_process_error (codes "1") else exited (codes "ok"), w + 1);
}

abbrev keep : ℕ → ℕ → ℕ
keep a b = a

abbrev built : Text → ManagedToolset ℕ ℕ
built name = record {
  name = name;
  is_on = false;
  toolset_type = some builtin;
  path = none;
  prerequisites = command (codes "kubectl version") none ∷ [];
  tags = core ∷ [];
  checked = record { status = disabled; error_text = none; lazy_init = false; initialized = true };
  is_set = λ f. true;
  rest = 0;
}

-- The configuration turns a toolset on.
abbrev only_enabled : ToolsetField → Bool
only_enabled enabled_field = true
only_enabled type_field = false
only_enabled path_field = false
only_enabled prerequisites_field = false
only_enabled tags_field = false

abbrev sources : Sources ℕ ℕ
sources = record {
  builtin_toolsets = built (codes "kubernetes/core") ∷ built (codes "aks/core") ∷ [];
  configured =
      record (built (codes "kubernetes/core")) {
        is_on = true;
        prerequisites = [];
        is_set = only_enabled;
      }
      ∷ [];
  custom = [];
  from_cli = [];
}

abbrev file : List CachedStatus
file = (refresh_toolset_status shell keep sources true (some (core ∷ cli ∷ [])) 0).0

-- Both commands run, and the first toolset fails.
file_of_two : map (λ (c : CachedStatus). is_enabled c.cached_state) file ≡ false ∷ true ∷ []
unfolding refresh_toolset_status text_eq dict_get dict_set check_prerequisites
file_of_two = refl

listed_have_types :
    All (HasType shell keep) (list_toolsets shell keep sources true (some (core ∷ cli ∷ [])))
unfolding list_toolsets text_eq dict_get dict_set
listed_have_types = (refl, (refl, tt))

no_listed_server :
    All (NotMcp shell keep) (list_toolsets shell keep sources false (some (core ∷ cli ∷ [])))
unfolding list_toolsets text_eq dict_get dict_set
no_listed_server = (refl, (refl, tt))

no_cached_server : All (λ c. is_mcp c.cached_type ≡ false) file
unfolding refresh_toolset_status text_eq dict_get dict_set
no_cached_server = (refl, (refl, tt))

restore_all-refresh_example :
    (restored : List (ManagedToolset ℕ ℕ)) × ((restore_all shell keep
          (status_by_name shell keep file [])
          (list_toolsets shell keep sources false (some (core ∷ cli ∷ [])))
        ≡ returned restored)
      × (map (cached shell keep) restored ≡ file))
restore_all-refresh_example =
    restore_all-refresh shell keep sources true (some (core ∷ cli ∷ [])) 0 listed_have_types

load_cached-refresh_example :
    (loaded : List (ManagedToolset ℕ ℕ)) × (((load_cached shell keep sources true file
          (some (core ∷ cli ∷ []))
          5).0
        ≡ returned loaded)
      × All (IsOn shell keep) loaded)
load_cached-refresh_example =
    load_cached-refresh shell keep sources true true (some (core ∷ cli ∷ [])) 0 5 refl
      listed_have_types

load_cached-lazily_example :
    (load_cached shell keep sources true file (some (core ∷ cli ∷ [])) 5).1 ≡ 5
load_cached-lazily_example =
    load_cached-lazily shell keep sources file (some (core ∷ cli ∷ [])) 5 refl no_listed_server
      no_cached_server
