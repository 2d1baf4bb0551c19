-- ===== src/Agent/Answers.antt =====
-- What comes of an approval, branch by branch (holmes/core/tool_calling_llm.py).
use canis.Prelude.{
  Bool, true, false, ◌≡◌, ◌≢◌, inl, inr, Option, none, some, List, [], arith, Text, Option-cases,
  Bool-cases, find,
}
use canis.Tools.Result.{approval_required, status_eq, StructuredToolResult, Outcome, returned}
use canis.Tools.Invoke.{
  Tool, Host, ApprovalRequirement, invoke, invoke_run, check_approval_config,
  get_approval_requirement,
}
use canis.Context.Llm.{ToolCall}
use canis.Agent.Safeguards.{PastCall}
use canis.Agent.Size.{ToolCallResult}
use canis.Agent.Invoke.{
  Executor, AgentState, context_of, finish_invoke, directly_invoke_tool_call,
  is_tool_call_already_approved, invoke_again, after_answer, handle_tool_call_approval,
  answer_tool_call, invoke_llm_tool_call, params_or_empty, deny, fail,
}

check_approval_config-asks :
    {P S : Type 0} (h : Host) (tool : Tool P S) (requirement : ApprovalRequirement)
    → check_approval_config h tool ≡ some requirement
    → requirement.needs_approval ≡ true
unfolding check_approval_config
check_approval_config-asks h tool requirement e =
    elim (Option-cases (find (h.fnmatch tool.name) tool.approval_patterns)) [
      | inl f ↦ absurd (ground arith)
      | inr (pattern, f) ↦ ground arith
    ]

module _ {P S : Type 0} (x : Executor P S) where
  -- Without a callback nothing waits: no answer has the status of an approval to be given.
  pub answer_tool_call-no_callback :
      x.approval_callback ≡ none
      → (call : ToolCall) (past : List (PastCall P)) (a : AgentState S)
      → (r : ToolCallResult P) × ((answer_tool_call x call past a).0 ≡ returned r)
        × (r.result.status ≢ approval_required)
        × ((answer_tool_call x call past a).1 ≡ (invoke_llm_tool_call x call past false [] a).1)
  unfolding answer_tool_call handle_tool_call_approval
  answer_tool_call-no_callback none_set call past a =
      let (r, a') = invoke_llm_tool_call x call past false [] a in
      elim (Bool-cases (status_eq r.result.status approval_required)) [
        | inl e ↦ (fail x r, ground arith, λ waits. absurd (ground arith), ground arith)
        | inr e ↦ (r, ground arith, λ waits. absurd (ground arith), ground arith)
      ]

  -- When the user is asked: a denial keeps the call from running and makes it an error, and an
  -- approval runs the tool on the arguments of the result, with no further check.
  pub handle_tool_call_approval_lem :
      (ask_user : StructuredToolResult P → S → Outcome (Bool × Option Text) × S) (tool : Tool P S)
      (r : ToolCallResult P) (a : AgentState S) (feedback : Option Text)
      → x.approval_callback ≡ some ask_user
      → x.get_tool_by_name r.tool_name ≡ some tool
      → (is_tool_call_already_approved x r a.world).0 ≡ returned false
      → let (answer, w) = ask_user r.result (is_tool_call_already_approved x r a.world).1 in
        let params = params_or_empty x r.result.params in
        (answer ≡ returned (false, feedback)
          → (handle_tool_call_approval x r a
              ≡ (returned (deny x r feedback), record a { world = w })))
        × (answer ≡ returned (true, feedback)
            → (x.ensure_toolset_initialized r.tool_name w).0 ≡ none
            → let (init_error, w') = x.ensure_toolset_initialized r.tool_name w in
              let (result, params', a') =
                finish_invoke x r.tool_name
                  (record a { world = w' })
                  (invoke_run x.host tool params (context_of true []) w') in
              handle_tool_call_approval x r a ≡ (returned (record r { result = result }), a'))
  unfolding handle_tool_call_approval invoke_again directly_invoke_tool_call invoke after_answer
  handle_tool_call_approval_lem ask_user tool r a feedback e f g =
      (λ denied. ground arith, λ approved ready. ground arith)

  -- A tool that is matched by a pattern of `approval_required_tools`, and whose own check asks for
  -- nothing, is taken for approved when its result waits: it is invoked again without an approval,
  -- which only makes another result that waits. The user is never asked, whoever the user is.
  pub handle_tool_call_approval-pattern :
      (ask_user : StructuredToolResult P → S → Outcome (Bool × Option Text) × S) (tool : Tool P S)
      (requirement : ApprovalRequirement) (r : ToolCallResult P) (a : AgentState S)
      → x.approval_callback ≡ some ask_user
      → x.get_tool_by_name r.tool_name ≡ some tool
      → check_approval_config x.host tool ≡ some requirement
      → ((params : P) (w : S)
          → tool.requires_approval params (context_of false []) w ≡ (returned none, w))
      → x.ensure_toolset_initialized r.tool_name a.world ≡ (none, a.world)
      → (r' : ToolCallResult P) × ((handle_tool_call_approval x r a).0 ≡ returned r')
        × (r'.result.status ≡ approval_required)
        × ((handle_tool_call_approval x r a).1.world ≡ a.world)
  unfolding handle_tool_call_approval is_tool_call_already_approved invoke_again
      directly_invoke_tool_call invoke get_approval_requirement finish_invoke
  handle_tool_call_approval-pattern ask_user tool requirement r a e f g h i =
      let quiet = h (params_or_empty x r.result.params) a.world in
      let asks = check_approval_config-asks x.host tool requirement g in
      (
        (invoke_again x false r (record a { world = a.world })).0,
        ground arith,
        ground arith,
        ground arith,
      )
