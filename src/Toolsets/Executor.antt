-- ===== src/Toolsets/Executor.antt =====
-- `ToolExecutor`, holmes/core/tools_utils/tool_executor.py.
use canis.Prelude.{
  Bool, true, false, not, ◌||◌, Option, none, some, List, [], ◌∷◌, ◌++◌, map, keep_if,
  if◌then◌else◌, Text, codes, Dict, dict_get, dict_set,
}
use canis.Tools.Invoke.{Tool, Host, is_restricted}
use canis.Toolsets.Logging.{
  ToolsetStatusEnum, enabled, disabled, failed, is_enabled, Toolset,
  filter_out_default_logging_toolset,
}
use canis.Toolsets.Prerequisites.{
  Prerequisite, Machine, ToolsetState, needs_initialization, lazy_initialize,
}

-- What a toolset holds besides its name, its status at the start and its class: its tools over
-- arguments `P` and a state `S`, its prerequisites over the world `W`, and its icon.
pub record Contents (P S W : Type 0) : Type 0 where
  pub tools : List (Tool P S)
  pub prerequisites : List (Prerequisite W)
  pub icon_url : Option Text

-- The statuses of the toolsets as they change, by name, and the world outside.
pub record ToolsetWorld (W : Type 0) : Type 0 where
  pub states : Dict ToolsetState
  pub outside : W

pub record ToolExecutor (P S W : Type 0) : Type 0 where
  pub enabled_toolsets : List (Toolset (Contents P S W))
  pub tools_by_name : Dict (Tool P S)
  pub tool_to_toolset : Dict (Toolset (Contents P S W))

-- A toolset that was never written has the fields of a fresh one.
abbrev pub fresh_state : ToolsetState
fresh_state = record { status = disabled; error_text = none; lazy_init = false; initialized = true }

abbrev or_fresh : Option ToolsetState → ToolsetState
or_fresh none = fresh_state
or_fresh (some s) = s

unfoldable pub state_of : {W : Type 0} → Text → ToolsetWorld W → ToolsetState
state_of name w = or_fresh (dict_get name w.states)

abbrev pub with_state : {W : Type 0} → Text → ToolsetState → W → ToolsetWorld W → ToolsetWorld W
with_state name s outside w = record { states = dict_set name s w.states; outside = outside }

-- `f"{toolset.error}"`
abbrev pub show_error : Option Text → Text
show_error none = codes "None"
show_error (some e) = e

abbrev pub is_failed : ToolsetStatusEnum → Bool
is_failed failed = true
is_failed enabled = false
is_failed disabled = false

-- `if tool.icon_url is None and ts.icon_url is not None: tool.icon_url = ts.icon_url`
abbrev pub with_icon : {P S : Type 0} → Option Text → Tool P S → Tool P S
with_icon icon tool = elim tool.icon [
  | some own ↦ tool
  | none ↦ elim icon [ none ↦ tool | some url ↦ record tool { icon = some url } ]
]

abbrev pub initialize_message : Text → ToolsetState → Text
initialize_message name s =
    codes "Toolset '" ++ (name ++ (codes "' failed to initialize: " ++ show_error s.error_text))

abbrev pub unavailable_message : Text → ToolsetState → Text
unavailable_message name s =
    codes "Toolset '" ++ (name ++ (codes "' is unavailable: " ++ show_error s.error_text))

abbrev pub values : {A : Type 0} → Dict A → List A
values [] = []
values ((k, v) ∷ d) = v ∷ values d

module _ {P S W : Type 0} where
  unfoldable pub add_tools :
      Toolset (Contents P S W) → List (Tool P S) → ToolExecutor P S W → ToolExecutor P S W
  add_tools ts [] e = e
  add_tools ts (tool ∷ tools) e = add_tools ts tools (record e {
    tools_by_name = dict_set tool.name (with_icon ts.rest.icon_url tool) e.tools_by_name;
    tool_to_toolset = dict_set tool.name ts e.tool_to_toolset;
  })

  unfoldable pub add_toolsets :
      Dict (Toolset (Contents P S W)) → ToolExecutor P S W → ToolExecutor P S W
  unfolding add_tools
  add_toolsets [] e = e
  add_toolsets ((name, ts) ∷ rest) e = add_toolsets rest (add_tools ts ts.rest.tools e)

  unfoldable pub toolsets_by_name :
      List (Toolset (Contents P S W))
      → Dict (Toolset (Contents P S W))
      → Dict (Toolset (Contents P S W))
  toolsets_by_name [] d = d
  toolsets_by_name (ts ∷ rest) d = toolsets_by_name rest (dict_set ts.name ts d)

  -- `ToolExecutor(toolsets)`
  unfoldable pub tool_executor : List (Toolset (Contents P S W)) → ToolExecutor P S W
  unfolding add_toolsets toolsets_by_name
  tool_executor toolsets =
      let kept = filter_out_default_logging_toolset (keep_if (λ t. is_enabled t.status) toolsets) in
      add_toolsets (toolsets_by_name kept [])
        (record { enabled_toolsets = kept; tools_by_name = []; tool_to_toolset = [] })

  unfoldable pub get_tool_by_name : ToolExecutor P S W → Text → Option (Tool P S)
  get_tool_by_name e name = dict_get name e.tools_by_name

  unfoldable pub ensure_toolset :
      Machine W → Toolset (Contents P S W) → ToolsetWorld W → Option Text × ToolsetWorld W
  ensure_toolset m ts w =
      let s = state_of ts.name w in
      let (ok, s', outside) = lazy_initialize m ts.rest.prerequisites s w.outside in
      if needs_initialization m s
      then (
        if ok then none else some (initialize_message ts.name s'),
        with_state ts.name s' outside w,
      )
      else if is_failed s.status
      then (some (unavailable_message ts.name s), w)
      else (none, w)

  -- The error message, if the toolset of the tool cannot be used.
  unfoldable pub ensure_toolset_initialized :
      Machine W → ToolExecutor P S W → Text → ToolsetWorld W → Option Text × ToolsetWorld W
  unfolding ensure_toolset
  ensure_toolset_initialized m e tool_name w = elim (dict_get tool_name e.tool_to_toolset) [
    | none ↦ (none, w)
    | some ts ↦ ensure_toolset m ts w
  ]

  -- `F` is the format of a tool for the model.
  unfoldable pub get_all_tools_openai_format :
      {F : Type 0} → Host → (Tool P S → F) → ToolExecutor P S W → Bool → List F
  get_all_tools_openai_format host get_openai_format e include_restricted =
      map get_openai_format
        (keep_if (λ t. include_restricted || not (is_restricted host t)) (values e.tools_by_name))
