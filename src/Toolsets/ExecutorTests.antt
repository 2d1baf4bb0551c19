-- ===== src/Toolsets/ExecutorTests.antt =====
-- The executor and the lazy initialization at concrete toolsets.
use canis.Prelude.{
  ℕ, ◌+◌, ltb, if◌then◌else◌, true, false, ◌≡◌, refl, none, some, List, [], ◌∷◌, codes, text_eq,
  dict_get, dict_set,
}
use canis.Tools.Result.{returned, error_result}
use canis.Tools.Invoke.{Tool}
use canis.Agent.Invoke.{Executor, AgentState, directly_invoke_tool_call}
use canis.Agent.Tests.{host, arguments, limit, done}
use canis.Toolsets.Logging.{
  enabled, failed, is_enabled, Toolset, filter_out_default_logging_toolset,
}
use canis.Toolsets.Prerequisites.{
  Prerequisite, static, environment, command, Machine, exited, called_process_error, ToolsetState,
  needs_initialization, check_prerequisites, check_config_prerequisites,
}
use canis.Toolsets.Lazy.{use_toolset, check_prerequisites-use_toolset}
use canis.Toolsets.Executor.{
  Contents, ToolExecutor, ToolsetWorld, fresh_state, state_of, with_state, is_failed,
  initialize_message, unavailable_message, tool_executor,
}
use canis.Toolsets.Ready.{with_tools, directly_invoke-unavailable}

-- The world counts the commands; the first one fails.
abbrev machine : Machine ℕ
machine = record {
  expandvars = λ s. s;
  is_set = λ s. text_eq s (codes "HOME");
  run = λ s w. (if ltb w 1 then called_process_error (codes "1") else exited (codes "ok"), w + 1);
}

abbrev prerequisites : List (Prerequisite ℕ)
prerequisites =
    command (codes "kubectl version") none ∷ environment (codes "HOME" ∷ []) ∷ static true [] ∷ []

check_prerequisites-use_toolset_example :
    let (lazily, w') =
      use_toolset machine prerequisites
        (check_config_prerequisites machine prerequisites fresh_state)
        0 in
    let (eagerly, w'') = check_prerequisites machine prerequisites fresh_state 0 in
    (lazily.status ≡ eagerly.status) × (lazily.error_text ≡ eagerly.error_text) × (w' ≡ w'')
check_prerequisites-use_toolset_example =
    check_prerequisites-use_toolset machine prerequisites fresh_state 0 refl

abbrev kubectl : Tool ℕ (ToolsetWorld ℕ)
kubectl = record {
  name = codes "kubectl_get";
  icon = none;
  restricted = false;
  restricted_patterns = [];
  approval_patterns = [];
  transformers = [];
  one_liner = λ p. [];
  set_prefixes = λ p prefixes. p;
  requires_approval = λ p c s. (returned none, s);
  run = λ p c s. (returned done, s);
}

abbrev kubernetes : Toolset (Contents ℕ (ToolsetWorld ℕ) ℕ)
kubernetes = record {
  name = codes "kubernetes/core";
  status = enabled;
  is_pod_logging = false;
  rest = record { tools = kubectl ∷ []; prerequisites = prerequisites; icon_url = none };
}

abbrev deferred : ToolsetState
deferred = record { status = enabled; error_text = none; lazy_init = true; initialized = false }

abbrev world : ToolsetWorld ℕ
world = record { states = (codes "kubernetes/core", deferred) ∷ []; outside = 0 }

abbrev executor : ToolExecutor ℕ (ToolsetWorld ℕ) ℕ
executor = tool_executor (kubernetes ∷ [])

abbrev agent : Executor ℕ (ToolsetWorld ℕ)
agent = record {
  host = host;
  get_tool_by_name = λ name. none;
  ensure_toolset_initialized = λ name w. (none, w);
  arguments = arguments;
  limit = limit;
  loads = λ s. none;
  no_params = 0;
  safeguards_enabled = true;
  approval_callback = none;
}

abbrev start : AgentState (ToolsetWorld ℕ)
start = record { runbook_in_use = false; world = world }

owner : dict_get (codes "kubectl_get") executor.tool_to_toolset ≡ some kubernetes
unfolding dict_get dict_set text_eq tool_executor filter_out_default_logging_toolset
owner = refl

-- The first command fails, so the toolset cannot be used.
fails : (check_prerequisites machine prerequisites deferred 0).0.status ≡ failed
unfolding check_prerequisites text_eq
fails = refl

directly_invoke-unavailable_example :
    let (checked, outside) = check_prerequisites machine prerequisites deferred 0 in
    let called =
      directly_invoke_tool_call
        (with_tools machine executor agent)
        (codes "kubectl_get")
        1
        false
        []
        start in
    (needs_initialization machine deferred ≡ true
      → is_enabled checked.status ≡ false
      → called ≡ (
        error_result (initialize_message (codes "kubernetes/core") checked) (some 1),
        1,
        record start {
          world =
              with_state
                (codes "kubernetes/core")
                (record checked { initialized = true; lazy_init = false })
                outside
                world;
        },
      ))
    × (needs_initialization machine deferred ≡ false
        → is_failed enabled ≡ true
        → called ≡ (
          error_result (unavailable_message (codes "kubernetes/core") deferred) (some 1),
          1,
          start,
        ))
unfolding state_of dict_get text_eq
directly_invoke-unavailable_example =
    directly_invoke-unavailable machine executor agent kubernetes (codes "kubectl_get") 1 false []
      start owner
