-- ===== src/Tools/Invoke.antt =====
-- `Tool.invoke`, the approval checks before it and the transformers after it (tools.py).
use canis.Prelude.{
  Bool, true, false, ◌&&◌, ◌||◌, not, Option, none, some, List, [], ◌∷◌, ◌++◌, leb, if◌then◌else◌,
  any, find, Text, codes, text_eq, length,
}
use canis.Tools.Json.{Json, null, str}
use canis.Tools.Result.{
  success, approval_required, status_eq, StructuredToolResult, get_stringified_data, Outcome,
  returned, raised,
}

pub record ToolInvokeContext : Type 0 where
  pub user_approved : Bool
  pub session_approved_prefixes : List Text

pub record ApprovalRequirement : Type 0 where
  pub needs_approval : Bool
  pub reason : Text
  pub prefixes_to_save : Option (List Text)

-- A transformer: its name, `should_apply`, and `transform`; each may raise.
pub record Transformer : Type 0 where
  pub transformer_name : Text
  pub should_apply : Text → Outcome Bool
  pub transform : Text → Outcome Text

-- A tool over arguments `P`; its own code may read and change a state `S`.
pub record Tool (P S : Type 0) : Type 0 where
  pub name : Text
  pub icon : Option Text
  pub restricted : Bool
  -- `toolset.restricted_tools` and `toolset.approval_required_tools`
  pub restricted_patterns : List Text
  pub approval_patterns : List Text
  pub transformers : List Transformer
  pub one_liner : P → Text
  -- `params["suggested_prefixes"] = prefixes`
  pub set_prefixes : P → List Text → P
  pub requires_approval : P → ToolInvokeContext → S → Outcome (Option ApprovalRequirement) × S
  pub run : P → ToolInvokeContext → S → Outcome (StructuredToolResult P) × S

-- `fnmatch.fnmatch` and `json.dumps`
pub record Host : Type 0 where
  pub fnmatch : Text → Text → Bool
  pub dumps : Bool → Json → Text

-- One round of the loop of `_apply_transformers`: the new text, and whether it counts as applied.
unfoldable pub apply_one : Transformer → Text → Text × Bool
apply_one t text = elim (t.should_apply text) [
  | raised e ↦ (text, false)
  | returned false ↦ (text, false)
  | returned true ↦ elim (t.transform text) [
    | raised e ↦ (text, false)
    | returned new ↦
        if text_eq t.transformer_name (codes "llm_summarize") && leb (length text) (length new)
        then (text, false)
        else (new, true)
  ]
]

unfoldable pub apply_all : List Transformer → Text → Bool → Text × Bool
apply_all [] text applied = (text, applied)
apply_all (t ∷ ts) text applied =
    let (new, done) = apply_one t text in apply_all ts new (applied || done)

abbrev is_empty : Text → Bool
is_empty [] = true
is_empty (c ∷ s) = false

module _ {P S : Type 0} (h : Host) (tool : Tool P S) where
  unfoldable pub apply_transformers : StructuredToolResult P → StructuredToolResult P
  unfolding apply_one apply_all get_stringified_data
  apply_transformers result =
      let text = get_stringified_data h.dumps result in
      let (new, applied) = apply_all tool.transformers text false in
      if not (status_eq result.status success) || is_empty text
      then result
      else if applied
      then record result { result_data = str new }
      else result

  unfoldable pub is_restricted : Bool
  is_restricted = tool.restricted || any (h.fnmatch tool.name) tool.restricted_patterns

  unfoldable pub check_approval_config : Option ApprovalRequirement
  check_approval_config = elim (find (h.fnmatch tool.name) tool.approval_patterns) [
    | none ↦ none
    | some pattern ↦ some (record {
      needs_approval = true;
      reason =
          codes "Tool '"
          ++ (tool.name ++ (codes "' matches approval pattern '" ++ (pattern ++ codes "'")));
      prefixes_to_save = none;
    })
  ]

  unfoldable pub get_approval_requirement :
      P → ToolInvokeContext → S → Outcome (Option ApprovalRequirement) × S
  unfolding check_approval_config
  get_approval_requirement params context s = elim check_approval_config [
    | some requirement ↦ (returned (some requirement), s)
    | none ↦ tool.requires_approval params context s
  ]

  -- The last part of `invoke`: run, set the icon, transform. Also the arguments after the call.
  unfoldable pub invoke_run : P → ToolInvokeContext → S → Outcome (StructuredToolResult P) × P × S
  unfolding apply_transformers
  invoke_run params context s =
      let (r, s') = tool.run params context s in
      elim r [
        | raised e ↦ (raised e, params, s')
        | returned result ↦
            (returned (apply_transformers (record result { icon_url = tool.icon })), params, s')
      ]

  abbrev pub saved : P → Option (List Text) → P
  saved params none = params
  saved params (some prefixes) = tool.set_prefixes params prefixes

  unfoldable pub ask : P → ApprovalRequirement → StructuredToolResult P
  ask params requirement = record {
    status = approval_required;
    error_text = some requirement.reason;
    return_code = none;
    result_data = null;
    url = none;
    invocation = some (tool.one_liner params);
    params = some params;
    icon_url = none;
  }

  -- The second field is the arguments as the call leaves them: `invoke` may change their dict.
  unfoldable pub invoke : P → ToolInvokeContext → S → Outcome (StructuredToolResult P) × P × S
  unfolding get_approval_requirement invoke_run ask
  invoke params context s =
      if context.user_approved
      then invoke_run params context s
      else let (check, s') = get_approval_requirement params context s in
        elim check [
          | raised e ↦ (raised e, params, s')
          | returned none ↦ invoke_run params context s'
          | returned (some requirement) ↦
              if requirement.needs_approval
              then (let params' = saved params requirement.prefixes_to_save in
                  (returned (ask params' requirement), params', s'))
              else invoke_run params context s'
        ]
