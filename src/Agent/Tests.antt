-- ===== src/Agent/Tests.antt =====
-- The agent's theorems at a concrete executor.
use canis.Prelude.{
  ℕ, suc, ◌*◌, ◌≤◌, max, Bool, true, false, ◌==◌, ◌≡◌, ◌≢◌, refl, ◌⊎◌, inl, Option, none, some,
  List, [], ◌∷◌, ◌++◌, arith, if◌then◌else◌, Text, codes, text_eq, length, Any,
}
use canis.Tools.Json.{null, str}
use canis.Tools.Result.{
  success, error, approval_required, StructuredToolResult, error_result, Outcome, returned,
}
use canis.Tools.Invoke.{Tool, Host, ApprovalRequirement, invoke, check_approval_config}
use canis.Context.Llm.{ToolCall}
use canis.Agent.Safeguards.{
  Arguments, PastCall, FetchPodLogsParams, IsSameCall, ShowsNoLogs, pod_logging_tool_name,
  repeated_message, prevent_overly_repeated_tool_call, prevent_sound, prevent_complete,
}
use canis.Agent.Size.{
  ToolCallResult, SizeLimit, size_info, boilerplate, stored, prevent_overly_big_tool_response,
  prevent_overly_big_bounds,
}
use canis.Agent.Invoke.{
  Executor, AgentState, is_tool_call_already_approved, handle_tool_call_approval, answer_tool_call,
  invoke_llm_tool_call,
}
use canis.Agent.Approval.{AlwaysAsks}
use canis.Agent.Answers.{answer_tool_call-no_callback, handle_tool_call_approval-pattern}

abbrev pub host : Host
host = record { fnmatch = text_eq; dumps = λ compact v. codes "{}" }

-- The arguments are a number; no tool reads logs.
abbrev pub arguments : Arguments ℕ
arguments = record {
  same = λ p q. p == q;
  is_empty = λ p. p == 0;
  has_filter = λ p. false;
  read = λ p. none;
}

abbrev saves : Text → Text → Text → Bool → Option Text
saves name id text is_json = some (codes "/tmp/" ++ name)

abbrev pub limit : SizeLimit ℕ
limit = record {
  count_message = λ r. 100;
  max_tokens_allowed = 50;
  show_nat = λ n. codes "n";
  dumps = host.dumps;
  save = some saves;
}

abbrev pub done : StructuredToolResult ℕ
done = record (error_result {P = ℕ} [] none) { status = success; result_data = str (codes "done") }

abbrev plain : Text → Tool ℕ ℕ
plain tool_name = record {
  name = tool_name;
  icon = none;
  restricted = false;
  restricted_patterns = [];
  approval_patterns = [];
  transformers = [];
  one_liner = λ p. tool_name;
  set_prefixes = λ p prefixes. p;
  requires_approval = λ p c s. (returned none, s);
  run = λ p c s. (returned done, suc s);
}

abbrev needed : ApprovalRequirement
needed = record { needs_approval = true; reason = codes "dangerous"; prefixes_to_save = none }

-- A tool that asks by itself, and one that is matched by a pattern.
abbrev remove : Tool ℕ ℕ
remove = record (plain (codes "remove")) {
  requires_approval = λ p c s. (returned (some needed), s);
}

abbrev drop_table : Tool ℕ ℕ
drop_table = record (plain (codes "drop_table")) { approval_patterns = codes "drop_table" ∷ [] }

abbrev tools : Text → Option (Tool ℕ ℕ)
tools name =
    if text_eq name (codes "remove")
    then some remove
    else if text_eq name (codes "drop_table")
    then some drop_table
    else none

abbrev pub says_no : StructuredToolResult ℕ → ℕ → Outcome (Bool × Option Text) × ℕ
says_no r w = (returned (false, some (codes "no")), w)

abbrev pub executor : Executor ℕ ℕ
executor = record {
  host = host;
  get_tool_by_name = tools;
  ensure_toolset_initialized = λ name w. (none, w);
  arguments = arguments;
  limit = limit;
  loads = λ s. some (length s);
  no_params = 0;
  safeguards_enabled = true;
  approval_callback = some says_no;
}

abbrev pub removal : ToolCall
removal = record { id = codes "c1"; function = some (codes "remove", codes "{}") }

abbrev pub start : AgentState ℕ
start = record { runbook_in_use = false; world = 0 }

abbrev waiting : Text → ToolCallResult ℕ
waiting name = record {
  call_id = codes "c1";
  tool_name = name;
  description = name;
  result = record done { status = approval_required; params = some 2 };
}

denied_does_not_run : (answer_tool_call executor removal [] start).1.world ≡ 0
unfolding answer_tool_call prevent_overly_repeated_tool_call prevent_overly_big_tool_response invoke
    text_eq
denied_does_not_run = refl

abbrev past : List (PastCall ℕ)
past = record { past_name = codes "remove"; past_status = success; past_params = some 2 } ∷ []

repeated : Any (IsSameCall arguments (codes "remove") 2) past
repeated = inl (refl, (2, refl, refl))

abbrev two : ℕ
two = 2

prevent_sound_example :
    let r = error_result (repeated_message arguments) (some two) in
    (true ≡ true)
    × (r.status ≡ error)
    × (r.params ≡ some two)
    × (Any (IsSameCall arguments (codes "remove") two) past
        ⊎ ((codes "remove" ≡ pod_logging_tool_name)
            × (arguments.has_filter two ≡ true)
            × ((current : FetchPodLogsParams) × (arguments.read two ≡ some current)
                × Any (ShowsNoLogs arguments current) past)))
prevent_sound_example =
    prevent_sound arguments true (codes "remove") 2 past
      (error_result (repeated_message arguments) (some 2))
      (prevent_complete arguments (codes "remove") 2 past repeated)

abbrev big : ToolCallResult ℕ
big = record (waiting (codes "remove")) { result = done }

prevent_overly_big_bounds_example :
    let r' = (prevent_overly_big_tool_response limit big).0 in
    ((big.result.status ≢ success) → r' ≡ big)
    × (100 ≤ 50 → r' ≡ big)
    × (big.result.status ≡ success
        → 51 ≤ 100
        → ((r'.result.status ≡ error) × (r'.result.result_data ≡ null))
          ⊎ ((r'.result.status ≡ success)
              × ((text : Text) × (r'.result.result_data ≡ str text)
                  × ((p : Text) × (stored limit big ≡ some p)
                      × (length text
                          ≤ max (length (boilerplate limit (size_info limit 100) p)) (50 * 2))))))
prevent_overly_big_bounds_example = prevent_overly_big_bounds limit big

abbrev pub is_remove : Text → Bool
is_remove name = text_eq name (codes "remove")

pub remove_asks :
    (name : Text) (tool : Tool ℕ ℕ)
    → is_remove name ≡ true
    → tools name ≡ some tool
    → AlwaysAsks tool
remove_asks name tool e f params prefixes w = (needed, ground arith, refl)

pub says_no_denies :
    (ask_user : StructuredToolResult ℕ → ℕ → Outcome (Bool × Option Text) × ℕ)
    → executor.approval_callback ≡ some ask_user
    → (r : StructuredToolResult ℕ) (w : ℕ)
    → (feedback : Option Text) × ((ask_user r w).0 ≡ returned (false, feedback))
says_no_denies ask_user e r w = (some (codes "no"), ground arith)

answer_tool_call-no_callback_example :
    let x = record executor { approval_callback = none } in
    (r : ToolCallResult ℕ) × ((answer_tool_call x removal [] start).0 ≡ returned r)
    × (r.result.status ≢ approval_required)
    × ((answer_tool_call x removal [] start).1
        ≡ (invoke_llm_tool_call x removal [] false [] start).1)
answer_tool_call-no_callback_example =
    answer_tool_call-no_callback (record executor { approval_callback = none }) refl removal []
      start

abbrev by_pattern : ApprovalRequirement
by_pattern = record {
  needs_approval = true;
  reason =
      codes "Tool '"
      ++ (codes "drop_table"
          ++ (codes "' matches approval pattern '" ++ (codes "drop_table" ++ codes "'")));
  prefixes_to_save = none;
}

drop_table_found : tools (codes "drop_table") ≡ some drop_table
unfolding text_eq
drop_table_found = refl

drop_table_matches : check_approval_config host drop_table ≡ some by_pattern
unfolding check_approval_config text_eq
drop_table_matches = refl

remove_found : tools (codes "remove") ≡ some remove
unfolding text_eq
remove_found = refl

remove_waits :
    (is_tool_call_already_approved executor (waiting (codes "remove")) 0).0 ≡ returned false
unfolding is_tool_call_already_approved text_eq
remove_waits = refl

handle_tool_call_approval-pattern_example :
    (r' : ToolCallResult ℕ) × ((handle_tool_call_approval executor
        (waiting (codes "drop_table"))
        start).0
      ≡ returned r')
    × (r'.result.status ≡ approval_required)
    × ((handle_tool_call_approval executor (waiting (codes "drop_table")) start).1.world ≡ 0)
handle_tool_call_approval-pattern_example =
    handle_tool_call_approval-pattern executor says_no drop_table by_pattern
      (waiting (codes "drop_table")) start refl drop_table_found drop_table_matches (λ p w. refl)
      refl
