-- ===== src/Toolsets/Manager.antt =====
-- The listing of `ToolsetManager` (holmes/core/toolset_manager.py) and its checks.
use canis.Prelude.{
  Bool, true, false, ◌&&◌, ◌||◌, Option, none, some, List, [], ◌∷◌, map, any, keep_if,
  if◌then◌else◌, is_some, Text, text_eq, Dict, dict_get, dict_set,
}
use canis.Toolsets.Logging.{disabled}
use canis.Toolsets.Prerequisites.{Prerequisite, Machine, ToolsetState, check_prerequisites}

pub data ToolsetTag : Type 0 where
  core : ToolsetTag
  cluster : ToolsetTag
  cli : ToolsetTag

pub data ToolsetType : Type 0 where
  builtin : ToolsetType
  customized : ToolsetType
  mcp : ToolsetType
  http : ToolsetType
  database : ToolsetType

-- The fields that a configuration may set; pydantic keeps which ones are set.
pub data ToolsetField : Type 0 where
  enabled_field : ToolsetField
  type_field : ToolsetField
  path_field : ToolsetField
  prerequisites_field : ToolsetField
  tags_field : ToolsetField

-- A `Toolset`, with what the manager uses; `K` is all else that it holds.
pub record ManagedToolset (W K : Type 0) : Type 0 where
  pub name : Text
  pub is_on : Bool
  pub toolset_type : Option ToolsetType
  pub path : Option Text
  pub prerequisites : List (Prerequisite W)
  pub tags : List ToolsetTag
  pub checked : ToolsetState
  pub is_set : ToolsetField → Bool
  pub rest : K

-- What is loaded for a listing: the built-in toolsets, those of the configuration, those of the
-- custom files, and those of the files of the command line.
pub record Sources (W K : Type 0) : Type 0 where
  pub builtin_toolsets : List (ManagedToolset W K)
  pub configured : List (ManagedToolset W K)
  pub custom : List (ManagedToolset W K)
  pub from_cli : List (ManagedToolset W K)

abbrev pub same_tag : ToolsetTag → ToolsetTag → Bool
same_tag core core = true
same_tag core cluster = false
same_tag core cli = false
same_tag cluster core = false
same_tag cluster cluster = true
same_tag cluster cli = false
same_tag cli core = false
same_tag cli cluster = false
same_tag cli cli = true

-- `name in names`
abbrev pub is_among : Text → List Text → Bool
is_among name names = any (text_eq name) names

-- `m` is the machine of the prerequisites; `others` overrides the other fields.
module _ {W K : Type 0} (m : Machine W) (others : K → K → K) where
  abbrev pub name_of : ManagedToolset W K → Text
  name_of t = t.name

  -- The fields that are set and not empty. `model_dump` turns the prerequisites into dicts, which
  -- no check reads.
  unfoldable pub override_with : ManagedToolset W K → ManagedToolset W K → ManagedToolset W K
  override_with t o = record t {
    is_on = if o.is_set enabled_field then o.is_on else t.is_on;
    toolset_type =
        if o.is_set type_field && is_some o.toolset_type then o.toolset_type else t.toolset_type;
    path = if o.is_set path_field && is_some o.path then o.path else t.path;
    prerequisites = elim o.prerequisites [
      | [] ↦ t.prerequisites
      | p ∷ ps ↦ if o.is_set prerequisites_field then [] else t.prerequisites
    ];
    tags = elim o.tags [ [] ↦ t.tags | g ∷ gs ↦ if o.is_set tags_field then g ∷ gs else t.tags ];
    is_set = λ f. t.is_set f || o.is_set f;
    rest = others t.rest o.rest;
  }

  unfoldable pub add_or_merge_onto_toolsets :
      List (ManagedToolset W K) → Dict (ManagedToolset W K) → Dict (ManagedToolset W K)
  unfolding override_with
  add_or_merge_onto_toolsets [] d = d
  add_or_merge_onto_toolsets (t ∷ ts) d = add_or_merge_onto_toolsets ts (elim (dict_get t.name d) [
    | none ↦ dict_set t.name t d
    | some old ↦ dict_set t.name (override_with old t) d
  ])

  abbrev pub by_name :
      List (ManagedToolset W K) → Dict (ManagedToolset W K) → Dict (ManagedToolset W K)
  by_name [] d = d
  by_name (t ∷ ts) d = by_name ts (dict_set t.name t d)

  abbrev pub values : Dict (ManagedToolset W K) → List (ManagedToolset W K)
  values [] = []
  values ((k, t) ∷ d) = t ∷ values d

  abbrev pub has_tag : Option (List ToolsetTag) → ManagedToolset W K → Bool
  has_tag none t = true
  has_tag (some tags) t = any (λ g. any (same_tag g) tags) t.tags

  abbrev pub turn_on : Bool → ManagedToolset W K → ManagedToolset W K
  turn_on enable_all t = record t { is_on = t.is_on || enable_all }

  -- `_list_all_toolsets` without its checks
  unfoldable pub list_toolsets :
      Sources W K → Bool → Option (List ToolsetTag) → List (ManagedToolset W K)
  unfolding add_or_merge_onto_toolsets
  list_toolsets sources enable_all tags =
      let known = by_name (map (turn_on enable_all) sources.builtin_toolsets) [] in
      let merged =
        add_or_merge_onto_toolsets sources.custom
          (add_or_merge_onto_toolsets sources.configured known) in
      keep_if (has_tag tags) (values merged)

  -- `check_toolset_prerequisites`, on the toolsets that pass the test
  unfoldable pub check_toolsets :
      (ManagedToolset W K → Bool) → List (ManagedToolset W K) → W → List (ManagedToolset W K) × W
  unfolding check_prerequisites
  check_toolsets chosen [] w = ([], w)
  check_toolsets chosen (t ∷ ts) w =
      let (s, w1) = check_prerequisites m t.prerequisites t.checked w in
      let (done, w2) = check_toolsets chosen ts w1 in
      let (skipped, w3) = check_toolsets chosen ts w in
      if chosen t then (record t { checked = s } ∷ done, w2) else (t ∷ skipped, w3)

  abbrev pub turned_on : ManagedToolset W K → Bool
  turned_on t = t.is_on

  -- `toolset.status = DISABLED` for those that are off
  abbrev pub mark_disabled : ManagedToolset W K → ManagedToolset W K
  mark_disabled t =
      let old = t.checked in
      if t.is_on then t else record t { checked = record old { status = disabled } }

  -- `_list_all_toolsets(check_prerequisites=True)`
  unfoldable pub list_all_toolsets :
      Sources W K → Bool → Option (List ToolsetTag) → W → List (ManagedToolset W K) × W
  unfolding list_toolsets check_toolsets
  list_all_toolsets sources enable_all tags w =
      check_toolsets turned_on (map mark_disabled (list_toolsets sources enable_all tags)) w
