-- ===== src/Agent/Invoke.antt =====
-- Tool calls of holmes/core/tool_calling_llm.py: `_directly_invoke_tool_call`,
-- `_get_tool_call_result`, `_invoke_llm_tool_call` and the approval of a call.
use canis.Prelude.{
  Bool, true, false, ◌&&◌, Option, none, some, List, [], ◌∷◌, ◌++◌, if◌then◌else◌, Text, codes,
  text_eq,
}
use canis.Tools.Result.{
  success, error, approval_required, status_eq, StructuredToolResult, error_result, Outcome,
  returned, raised,
}
use canis.Tools.Invoke.{Tool, Host, ToolInvokeContext, ApprovalRequirement, invoke}
use canis.Context.Llm.{ToolCall}
use canis.Agent.Safeguards.{Arguments, PastCall, prevent_overly_repeated_tool_call}
use canis.Agent.Size.{ToolCallResult, SizeLimit, prevent_overly_big_tool_response}

-- What the agent holds: the tools by name and the initialization of their toolsets (the tool
-- executor), `json.loads` of arguments, the empty dict, and the callback that asks the user.
pub record Executor (P S : Type 0) : Type 0 where
  pub host : Host
  pub get_tool_by_name : Text → Option (Tool P S)
  pub ensure_toolset_initialized : Text → S → Option Text × S
  pub arguments : Arguments P
  pub limit : SizeLimit P
  pub loads : Text → Option P
  pub no_params : P
  pub safeguards_enabled : Bool
  pub approval_callback : Option (StructuredToolResult P → S → Outcome (Bool × Option Text) × S)

-- `_runbook_in_use`, and the state that the tools share
pub record AgentState (S : Type 0) : Type 0 where
  pub runbook_in_use : Bool
  pub world : S

-- The `context` of a call.
abbrev pub context_of : Bool → List Text → ToolInvokeContext
context_of approved prefixes = record {
  user_approved = approved;
  session_approved_prefixes = prefixes;
}

-- `f" User feedback: {feedback}" if feedback else ""`
abbrev pub feedback_text : Option Text → Text
feedback_text none = []
feedback_text (some []) = []
feedback_text (some (c ∷ s)) = codes " User feedback: " ++ (c ∷ s)

module _ {P S : Type 0} (x : Executor P S) where
  -- `tool_call_result.result.params or {}`
  abbrev pub params_or_empty : Option P → P
  params_or_empty none = x.no_params
  params_or_empty (some p) = p

  -- After `tool.invoke`: an exception becomes an error, and a runbook that was fetched is noted.
  unfoldable pub finish_invoke :
      Text
      → AgentState S
      → Outcome (StructuredToolResult P) × P × S
      → StructuredToolResult P × P × AgentState S
  finish_invoke name a (raised e, params, w) =
      (error_result (codes "Tool call failed: " ++ e) (some params), params, record a { world = w })
  finish_invoke name a (returned r, params, w) = (
    r,
    params,
    record {
      runbook_in_use =
          if text_eq name (codes "fetch_runbook") && status_eq r.status success
          then true
          else a.runbook_in_use;
      world = w;
    },
  )

  -- The result, the arguments as the call leaves them, and the state.
  unfoldable pub directly_invoke_tool_call :
      Text → P → Bool → List Text → AgentState S → StructuredToolResult P × P × AgentState S
  unfolding finish_invoke
  directly_invoke_tool_call name params user_approved prefixes a =
      let (init_error, w) = x.ensure_toolset_initialized name a.world in
      let a' = record a { world = w } in
      elim init_error [
        | some e ↦ (error_result e (some params), params, a')
        | none ↦ elim (x.get_tool_by_name name) [
          | none ↦ (error_result (codes "Failed to find tool " ++ name) (some params), params, a')
          | some tool ↦
              finish_invoke name a'
                (invoke x.host tool params (context_of user_approved prefixes) w)
        ]
      ]

  unfoldable pub description_of : Text → P → Text
  description_of name params = elim (x.get_tool_by_name name) [
    | none ↦ []
    | some tool ↦ tool.one_liner params
  ]

  -- A refusal of the safeguards stands in for the call.
  unfoldable pub refused_or_invoked :
      Option (StructuredToolResult P)
      → Text
      → P
      → Bool
      → List Text
      → AgentState S
      → StructuredToolResult P × P × AgentState S
  unfolding directly_invoke_tool_call
  refused_or_invoked (some refused) name params user_approved prefixes a = (refused, params, a)
  refused_or_invoked none name params user_approved prefixes a =
      directly_invoke_tool_call name params user_approved prefixes a

  unfoldable pub get_tool_call_result :
      Text
      → Text
      → Text
      → Bool
      → List (PastCall P)
      → List Text
      → AgentState S
      → ToolCallResult P × AgentState S
  unfolding refused_or_invoked description_of
  get_tool_call_result id name arguments user_approved past prefixes a =
      let params = params_or_empty (x.loads arguments) in
      let refusal =
        if user_approved
        then none
        else prevent_overly_repeated_tool_call x.arguments x.safeguards_enabled name params past in
      let (r, params', a') = refused_or_invoked refusal name params user_approved prefixes a in
      (
        record {
          call_id = id;
          tool_name = name;
          description = description_of name params';
          result = r;
        },
        a',
      )

  abbrev pub custom_tool_result : Text → ToolCallResult P
  custom_tool_result id = record {
    call_id = id;
    tool_name = codes "Unknown_Custom_Tool";
    description = codes "NA";
    result = error_result (codes "Custom tool calls are not supported") none;
  }

  unfoldable pub call_function :
      Text
      → Option (Text × Text)
      → List (PastCall P)
      → Bool
      → List Text
      → AgentState S
      → ToolCallResult P × AgentState S
  unfolding get_tool_call_result
  call_function id none past user_approved prefixes a = (custom_tool_result id, a)
  call_function id (some (name, arguments)) past user_approved prefixes a =
      get_tool_call_result id name arguments user_approved past prefixes a

  unfoldable pub invoke_llm_tool_call :
      ToolCall
      → List (PastCall P)
      → Bool
      → List Text
      → AgentState S
      → ToolCallResult P × AgentState S
  unfolding call_function
  invoke_llm_tool_call call past user_approved prefixes a =
      let (r, a') = call_function call.id call.function past user_approved prefixes a in
      ((prevent_overly_big_tool_response x.limit r).0, a')

  -- `not approval or not approval.needs_approval`
  abbrev pub needs_no_more : Outcome (Option ApprovalRequirement) → Outcome Bool
  needs_no_more (raised e) = raised e
  needs_no_more (returned none) = returned true
  needs_no_more (returned (some requirement)) =
      returned (if requirement.needs_approval then false else true)

  unfoldable pub is_tool_call_already_approved : ToolCallResult P → S → Outcome Bool × S
  is_tool_call_already_approved r w = elim (x.get_tool_by_name r.tool_name) [
    | none ↦ (returned false, w)
    | some tool ↦
        let (check, w') =
          tool.requires_approval (params_or_empty r.result.params) (context_of false []) w in
        (needs_no_more check, w')
  ]

  -- `tool_call_result.result = self._directly_invoke_tool_call(…)`
  unfoldable pub invoke_again :
      Bool → ToolCallResult P → AgentState S → ToolCallResult P × AgentState S
  unfolding directly_invoke_tool_call
  invoke_again user_approved r a =
      let (again, params, a') =
        directly_invoke_tool_call r.tool_name (params_or_empty r.result.params) user_approved []
          a in
      (record r { result = again }, a')

  abbrev pub fail : ToolCallResult P → ToolCallResult P
  fail r = let old = r.result in record r { result = record old { status = error } }

  abbrev pub deny : ToolCallResult P → Option Text → ToolCallResult P
  deny r feedback =
      let old = r.result in
      record r {
        result = record old {
          status = error;
          error_text = some (codes "User denied command execution." ++ feedback_text feedback);
        };
      }

  -- After the user's answer.
  unfoldable pub after_answer :
      ToolCallResult P
      → AgentState S
      → Outcome (Bool × Option Text)
      → Outcome (ToolCallResult P) × AgentState S
  unfolding invoke_again
  after_answer r a (raised e) = (raised e, a)
  after_answer r a (returned (false, feedback)) = (returned (deny r feedback), a)
  after_answer r a (returned (true, feedback)) =
      let (again, a') = invoke_again true r a in (returned again, a')

  unfoldable pub handle_tool_call_approval :
      ToolCallResult P → AgentState S → Outcome (ToolCallResult P) × AgentState S
  unfolding is_tool_call_already_approved after_answer
  handle_tool_call_approval r a = elim x.approval_callback [
    | none ↦ (returned (fail r), a)
    | some ask_user ↦
        let (already, w) = is_tool_call_already_approved r a.world in
        let a' = record a { world = w } in
        elim already [
          | raised e ↦ (raised e, a')
          | returned true ↦ let (again, a'') = invoke_again false r a' in (returned again, a'')
          | returned false ↦
              let (answer, w') = ask_user r.result w in
              after_answer r (record a { world = w' }) answer
        ]
  ]

  -- One tool call of a step: invoked, and then approved if it waits for approval.
  unfoldable pub answer_tool_call :
      ToolCall → List (PastCall P) → AgentState S → Outcome (ToolCallResult P) × AgentState S
  unfolding invoke_llm_tool_call handle_tool_call_approval
  answer_tool_call call past a =
      let (r, a') = invoke_llm_tool_call call past false [] a in
      if status_eq r.result.status approval_required
      then handle_tool_call_approval r a'
      else (returned r, a')
