-- ===== src/Agent/Approval.antt =====
-- What the approval of tool calls guarantees (holmes/core/tool_calling_llm.py).
use canis.Prelude.{
  Bool, true, false, ◌≡◌, refl, ◌⊎◌, inl, inr, Option, none, some, List, [], arith, if◌then◌else◌,
  Text, Option-cases, Bool-cases,
}
use canis.Tools.Result.{StructuredToolResult, Outcome, returned, raised}
use canis.Tools.Invoke.{
  Tool, Host, ToolInvokeContext, ApprovalRequirement, invoke, check_approval_config,
  get_approval_requirement,
}
use canis.Context.Llm.{ToolCall}
use canis.Agent.Safeguards.{PastCall, prevent_overly_repeated_tool_call}
use canis.Agent.Size.{ToolCallResult, prevent_overly_big_tool_response}
use canis.Agent.Invoke.{
  Executor, AgentState, context_of, directly_invoke_tool_call, description_of, refused_or_invoked,
  get_tool_call_result, call_function, invoke_llm_tool_call, is_tool_call_already_approved,
  invoke_again, after_answer, handle_tool_call_approval, answer_tool_call, params_or_empty,
}

-- The tool with other code to run.
abbrev pub with_run :
    {P S : Type 0}
    → (P → ToolInvokeContext → S → Outcome (StructuredToolResult P) × S)
    → Tool P S
    → Tool P S
with_run run tool = record tool { run = run }

-- A tool that asks for approval of every call that the user has not approved.
abbrev pub AlwaysAsks : {P S : Type 0} → Tool P S → Type 0
AlwaysAsks {P} {S} tool =
    (params : P) (prefixes : List Text) (w : S)
    → (requirement : ApprovalRequirement) × ((tool.requires_approval params
          (context_of false prefixes) w).0
        ≡ returned (some requirement))
      × (requirement.needs_approval ≡ true)

invoke-with_run :
    {P S : Type 0} (h : Host) (tool : Tool P S)
    (run : P → ToolInvokeContext → S → Outcome (StructuredToolResult P) × S)
    → AlwaysAsks tool
    → (params : P) (prefixes : List Text) (w : S)
    → invoke h (with_run run tool) params (context_of false prefixes) w
      ≡ invoke h tool params (context_of false prefixes) w
unfolding invoke get_approval_requirement check_approval_config
invoke-with_run h tool run asks params prefixes w =
    elim (Option-cases (check_approval_config h tool)) [
      | inl e ↦ let (requirement, f, g) = asks params prefixes w in ground arith
      | inr (requirement, e) ↦ ground arith
    ]

Answer-cases :
    (o : Outcome Bool)
    → ((t : Text) × (o ≡ raised t)) ⊎ ((o ≡ returned true) ⊎ (o ≡ returned false))
Answer-cases (raised t) = inl (t, refl)
Answer-cases (returned true) = inr (inl refl)
Answer-cases (returned false) = inr (inr refl)

module _ {P S : Type 0} (x : Executor P S) (guarded : Text → Bool)
    (run : P → ToolInvokeContext → S → Outcome (StructuredToolResult P) × S) where
  -- Every guarded tool runs other code.
  abbrev pub swap : Text → Option (Tool P S) → Option (Tool P S)
  swap name none = none
  swap name (some tool) = some (if guarded name then with_run run tool else tool)

  abbrev pub swapped : Executor P S
  swapped = record x { get_tool_by_name = λ name. swap name (x.get_tool_by_name name) }

  abbrev pub GuardedAsk : Type 0
  GuardedAsk =
      (name : Text) (tool : Tool P S)
      → guarded name ≡ true
      → x.get_tool_by_name name ≡ some tool
      → AlwaysAsks tool

  abbrev pub Denies : Type 0
  Denies =
      (ask_user : StructuredToolResult P → S → Outcome (Bool × Option Text) × S)
      → x.approval_callback ≡ some ask_user
      → (r : StructuredToolResult P) (w : S)
      → (feedback : Option Text) × ((ask_user r w).0 ≡ returned (false, feedback))

  directly_invoke-swapped :
      GuardedAsk
      → (name : Text) (params : P) (prefixes : List Text) (a : AgentState S)
      → directly_invoke_tool_call swapped name params false prefixes a
        ≡ directly_invoke_tool_call x name params false prefixes a
  unfolding directly_invoke_tool_call
  directly_invoke-swapped asks name params prefixes a =
      elim (Option-cases (x.ensure_toolset_initialized name a.world).0) [
        | inr (e, f) ↦ ground arith
        | inl f ↦ elim (Option-cases (x.get_tool_by_name name)) [
          | inl g ↦ ground arith
          | inr (tool, g) ↦ elim (Bool-cases (guarded name)) [
            | inr free ↦ ground arith
            | inl guard ↦
                let same =
                  invoke-with_run x.host tool run (asks name tool guard g) params prefixes
                    (x.ensure_toolset_initialized name a.world).1 in
                ground arith
          ]
        ]
      ]

  description_of-swapped :
      (name : Text) (params : P) → description_of swapped name params ≡ description_of x name params
  unfolding description_of
  description_of-swapped name params = elim (Option-cases (x.get_tool_by_name name)) [
    | inl g ↦ ground arith
    | inr (tool, g) ↦ elim (Bool-cases (guarded name)) [
      | inr free ↦ ground arith
      | inl guard ↦ ground arith
    ]
  ]

  refused_or_invoked-swapped :
      GuardedAsk
      → (refusal : Option (StructuredToolResult P)) (name : Text) (params : P)
        (prefixes : List Text) (a : AgentState S)
      → refused_or_invoked swapped refusal name params false prefixes a
        ≡ refused_or_invoked x refusal name params false prefixes a
  unfolding refused_or_invoked
  refused_or_invoked-swapped asks none name params prefixes a =
      directly_invoke-swapped asks name params prefixes a
  refused_or_invoked-swapped asks (some refused) name params prefixes a = refl

  pub call_function-swapped :
      GuardedAsk
      → (id : Text) (function : Option (Text × Text)) (past : List (PastCall P))
        (prefixes : List Text) (a : AgentState S)
      → call_function swapped id function past false prefixes a
        ≡ call_function x id function past false prefixes a
  unfolding call_function get_tool_call_result
  call_function-swapped asks id none past prefixes a = refl
  call_function-swapped asks id (some (name, arguments)) past prefixes a =
      let params = params_or_empty x (x.loads arguments) in
      let refusal =
        prevent_overly_repeated_tool_call x.arguments x.safeguards_enabled name params past in
      rw (refused_or_invoked-swapped asks refusal name params prefixes a) (
        rw
          (description_of-swapped name
            (refused_or_invoked x refusal name params false prefixes a).1)
          refl)

  already-swapped :
      (r : ToolCallResult P) (w : S)
      → is_tool_call_already_approved swapped r w ≡ is_tool_call_already_approved x r w
  unfolding is_tool_call_already_approved
  already-swapped r w = elim (Option-cases (x.get_tool_by_name r.tool_name)) [
    | inl g ↦ ground arith
    | inr (tool, g) ↦ elim (Bool-cases (guarded r.tool_name)) [
      | inr free ↦ ground arith
      | inl guard ↦ ground arith
    ]
  ]

  invoke_again-swapped :
      GuardedAsk
      → (r : ToolCallResult P) (a : AgentState S)
      → invoke_again swapped false r a ≡ invoke_again x false r a
  unfolding invoke_again
  invoke_again-swapped asks r a =
      rw (directly_invoke-swapped asks r.tool_name (params_or_empty x r.result.params) [] a) refl

  pub handle-swapped :
      GuardedAsk
      → Denies
      → (r : ToolCallResult P) (a : AgentState S)
      → handle_tool_call_approval swapped r a ≡ handle_tool_call_approval x r a
  unfolding handle_tool_call_approval after_answer
  handle-swapped asks denies r a = elim (Option-cases x.approval_callback) [
    | inl e ↦ ground arith
    | inr (ask_user, e) ↦
        let (already, w) = is_tool_call_already_approved x r a.world in
        let same = already-swapped r a.world in
        elim (Answer-cases already) [
          | inl (t, f) ↦ ground arith
          | inr (inl f) ↦
              let again = invoke_again-swapped asks r (record a { world = w }) in ground arith
          | inr (inr f) ↦ let (feedback, g) = denies ask_user e r.result w in ground arith
        ]
  ]

  -- While the user denies what is asked, a tool that asks for approval of every call never runs:
  -- an answer to a call is the same, with the state after it, whatever such tools would do.
  pub answer_tool_call-denied :
      GuardedAsk
      → Denies
      → (call : ToolCall) (past : List (PastCall P)) (a : AgentState S)
      → answer_tool_call swapped call past a ≡ answer_tool_call x call past a
  unfolding answer_tool_call invoke_llm_tool_call
  answer_tool_call-denied asks denies call past a =
      rw (call_function-swapped asks call.id call.function past [] a) (
        rw
          (handle-swapped asks denies
            (prevent_overly_big_tool_response x.limit
              (call_function x call.id call.function past false [] a).0).0
            (call_function x call.id call.function past false [] a).1)
          refl)
