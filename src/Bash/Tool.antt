-- ===== src/Bash/Tool.antt =====
-- The bash tool, holmes/plugins/toolsets/bash/bash_toolset.py. Its arguments have the types that
-- the tool declares, so the two `isinstance` tests of `_invoke` have nothing to catch.
use canis.Prelude.{
  ℕ, Bool, true, false, not, ◌||◌, Option, none, some, List, [], ◌∷◌, ◌++◌, ltb, if◌then◌else◌,
  keep_if, length, take, Text, codes, elem, ℤ, pos, int_eq,
}
use canis.Tools.Json.{null, str}
use canis.Tools.Result.{
  success, error, no_data, StructuredToolResult, error_result, Outcome, returned,
}
use canis.Tools.Invoke.{ToolInvokeContext, ApprovalRequirement, Tool, Transformer}
use canis.Bash.Match.{Unicode}
use canis.Bash.Lists.{BashExecutorConfig, default_config, get_effective_lists}
use canis.Bash.Segment.{
  ValidationStatus, allowed, denied, approval_required, hardcoded_block, deny_list,
  prefix_not_in_command, ValidationResult,
}
use canis.Bash.Command.{Parse, validate_command, from_keys}

-- The arguments of a call; a missing one is `none`.
pub record BashParams : Type 0 where
  pub command : Option Text
  pub suggested_prefixes : Option (List Text)
  pub timeout : Option ℕ

pub record BashResult : Type 0 where
  pub stdout : Text
  pub return_code : Option ℤ
  pub timed_out : Bool

-- What the tool stands on: Unicode, bashlex, the printing of numbers, and, over a state `W` of the
-- world, the file of CLI-approved prefixes and `execute_bash_command` (`none`: no /bin/bash).
pub record BashHost (W : Type 0) : Type 0 where
  pub unicode : Unicode
  pub parse : Text → Parse
  pub show_nat : ℕ → Text
  pub show_int : Option ℤ → Text
  pub cli_prefixes : W → List Text
  pub execute : Text → ℕ → W → Option BashResult × W

-- `BashExecutorToolset.config`, and the world.
pub record BashState (W : Type 0) : Type 0 where
  pub config : Option BashExecutorConfig
  pub world : W

abbrev pub is_empty {ℓ} : {A : Type ℓ} → List A → Bool
is_empty [] = true
is_empty (c ∷ s) = false

-- `params.get(key, "")` and `params.get(key, [])`
abbrev pub or_empty {ℓ} : {A : Type ℓ} → Option (List A) → List A
or_empty none = []
or_empty (some l) = l

unfoldable pub bash_result_to_structured :
    {W : Type 0} → BashHost W → BashResult → Text → ℕ → BashParams → StructuredToolResult BashParams
bash_result_to_structured h result cmd timeout params =
    let output = cmd ++ (codes "\n" ++ result.stdout) in
    let exit_zero : Bool = elim result.return_code [
      | none ↦ false
      | some code ↦ int_eq code (pos 0)
    ] in
    if result.timed_out
    then record {
      status = error;
      error_text = some (
          codes "Error: Command '"
          ++ (cmd ++ (codes "' timed out after " ++ (h.show_nat timeout ++ codes " seconds."))));
      return_code = none;
      result_data = if is_empty result.stdout then null else str output;
      url = none;
      invocation = some cmd;
      params = some params;
      icon_url = none;
    }
    else record {
      status = if exit_zero then (if is_empty result.stdout then no_data else success) else error;
      error_text =
          if exit_zero
          then none
          else some (
              codes "Error: Command \""
              ++ (cmd
                  ++ (codes "\" returned non-zero exit status " ++ h.show_int result.return_code)));
      return_code = result.return_code;
      result_data = str output;
      url = none;
      invocation = some cmd;
      params = some params;
      icon_url = none;
    }

-- `_merge_cli_approved_prefixes` on the toolset's configuration
unfoldable pub merge_cli_approved_prefixes :
    List Text → Option BashExecutorConfig → Option BashExecutorConfig
merge_cli_approved_prefixes cli none = none
merge_cli_approved_prefixes [] (some config) = some config
merge_cli_approved_prefixes (p ∷ ps) (some config) =
    some (record config { allow = from_keys [] (config.allow ++ p ∷ ps) })

-- the allow list with the session's prefixes behind it
unfoldable pub merge_session_prefixes : List Text → List Text → List Text
merge_session_prefixes allow_list session =
    allow_list ++ keep_if (λ prefix. not (elem prefix allow_list)) session

-- `params.get("timeout", 30)`
abbrev get_or : ℕ → Option ℕ → ℕ
get_or d none = d
get_or d (some n) = n

abbrev pub config_or_default : Option BashExecutorConfig → BashExecutorConfig
config_or_default none = default_config
config_or_default (some config) = config

abbrev pub message_or : Option Text → Text → Text
message_or none d = d
message_or (some []) d = d
message_or (some (c ∷ s)) d = c ∷ s

-- an f-string of `None`
abbrev pub show_message : Option Text → Text
show_message none = codes "None"
show_message (some m) = m

unfoldable pub build_deny_error_message : ValidationResult → Text
build_deny_error_message v = elim v.deny_reason [
  | some hardcoded_block ↦ codes "Command blocked: " ++ show_message v.message
  | some deny_list ↦ codes "Command blocked by configuration: " ++ show_message v.message
  | some prefix_not_in_command ↦ codes "Invalid prefix: " ++ show_message v.message
  | none ↦ message_or v.message (codes "Command denied.")
]

unfoldable pub get_parameterized_one_liner : BashParams → Text
get_parameterized_one_liner params = elim params.command [
  | none ↦ codes "N/A"
  | some command ↦ if ltb 200 (length command) then take 200 command ++ codes "..." else command
]

abbrev execute_error : Text → Text → BashParams → StructuredToolResult BashParams
execute_error message cmd params = record (error_result message (some params)) {
  invocation = some cmd;
}

module _ {W : Type 0} (h : BashHost W) where
  -- `_validate_command`: the lists are read anew at every call.
  unfoldable pub validate :
      Text → List Text → List Text → BashState W → ValidationResult × BashState W
  unfolding merge_cli_approved_prefixes merge_session_prefixes get_effective_lists
  validate command suggested session s =
      let config = merge_cli_approved_prefixes (h.cli_prefixes s.world) s.config in
      let (allow_list, deny_prefixes) = get_effective_lists (config_or_default config) in
      (
        validate_command h.unicode h.parse command suggested
            (merge_session_prefixes allow_list session) deny_prefixes,
        record s { config = config },
      )

  abbrev pub requirement_of : ValidationStatus → ValidationResult → Option ApprovalRequirement
  requirement_of approval_required v = some (record {
    needs_approval = true;
    reason = codes "Command requires approval. " ++ show_message v.message;
    prefixes_to_save = v.prefixes_needing_approval;
  })
  requirement_of denied v = none
  requirement_of allowed v = none

  unfoldable pub requires_approval :
      BashParams
      → ToolInvokeContext
      → BashState W
      → Outcome (Option ApprovalRequirement) × BashState W
  requires_approval params context s =
      let command = or_empty params.command in
      let suggested = or_empty params.suggested_prefixes in
      let (v, s') = validate command suggested context.session_approved_prefixes s in
      if is_empty command || is_empty suggested
      then (returned none, s)
      else (returned (requirement_of v.status v), s')

  -- `execute_bash_command`, and its result; the command runs in the world.
  unfoldable pub run_command :
      Text → BashParams → BashState W → Outcome (StructuredToolResult BashParams) × BashState W
  unfolding bash_result_to_structured
  run_command command params s =
      let timeout = get_or 30 params.timeout in
      let (r, w) = h.execute command timeout s.world in
      (
        returned (elim r [
          | none ↦
              execute_error
                (codes "Error: Bash executable not found. Ensure /bin/bash is available.") command
                params
          | some result ↦ bash_result_to_structured h result command timeout params
        ]),
        record s { world = w },
      )

  -- The tests of a call that the user has not approved.
  unfoldable pub run_validated :
      ValidationStatus
      → ValidationResult
      → Text
      → BashParams
      → BashState W
      → Outcome (StructuredToolResult BashParams) × BashState W
  unfolding run_command build_deny_error_message
  run_validated denied v command params s =
      (returned (execute_error (build_deny_error_message v) command params), s)
  run_validated approval_required v command params s = (
    returned (
        execute_error (codes "Command requires approval but was not approved. This may be a bug.")
          command params),
    s,
  )
  run_validated allowed v command params s = run_command command params s

  -- `_invoke`
  unfoldable pub run_bash :
      BashParams
      → ToolInvokeContext
      → BashState W
      → Outcome (StructuredToolResult BashParams) × BashState W
  unfolding run_validated
  run_bash params context s =
      let command = or_empty params.command in
      let suggested = or_empty params.suggested_prefixes in
      let (v, s') = validate command suggested context.session_approved_prefixes s in
      if is_empty command
      then (
        returned (
            error_result (codes "The 'command' parameter is required and was not provided.")
              (some params)),
        s,
      )
      else if is_empty suggested
      then (
        returned (
            error_result
              (codes
                "The 'suggested_prefixes' parameter is required. Provide one prefix per command segment.")
              (some params)),
        s,
      )
      else if context.user_approved
      then run_command command params s
      else run_validated v.status v command params s'

  -- `RunBashCommand`, with what the toolset's configuration says of it.
  unfoldable pub bash_tool :
      List Text → List Text → List Transformer → Option Text → Tool BashParams (BashState W)
  unfolding requires_approval run_bash validate get_parameterized_one_liner
  bash_tool restricted_patterns approval_patterns transformers icon = record {
    name = codes "bash";
    icon = icon;
    restricted = false;
    restricted_patterns = restricted_patterns;
    approval_patterns = approval_patterns;
    transformers = transformers;
    one_liner = get_parameterized_one_liner;
    set_prefixes = λ params prefixes. record params { suggested_prefixes = some prefixes };
    requires_approval = requires_approval;
    run = run_bash;
  }
