-- ===== src/Agent/Loop.antt =====
-- `ToolCallingLLM.call`, the loop of the agent (holmes/core/tool_calling_llm.py), and
-- `as_tool_call_message` (holmes/core/models.py).
use canis.Prelude.{
  ℕ, suc, zero, Bool, true, false, ◌&&◌, Option, none, some, List, [], ◌∷◌, ◌++◌, if◌then◌else◌,
  Text, codes,
}
use canis.Tools.Json.{str}
use canis.Tools.Result.{
  error, approval_required, status_eq, StructuredToolResult, get_stringified_data, Outcome,
  returned, raised,
}
use canis.Context.Message.{Message, bare, count_tokens}
use canis.Context.Llm.{Llm, ToolCall, Reply}
use canis.Context.Limit.{Settings, ContextWindowLimiterOutput, limit_input_context_window}
use canis.Agent.Safeguards.{PastCall}
use canis.Agent.Size.{ToolCallResult}
use canis.Agent.Invoke.{Executor, AgentState, invoke_llm_tool_call, handle_tool_call_approval}

-- What the loop asks of its surroundings: `llm.completion` on messages with their tags parsed, with
-- a response format or without, and its first choice; the tools in the model's format, with the
-- restricted ones or without; the length of that list; the test of a structured answer;
-- `cancel_event.is_set()`; the order in which the calls of a round complete, `as_completed`; and the
-- text of `json.dumps` of arguments and of call metadata.
pub record Surroundings (P T S : Type 0) : Type 0 where
  pub llm : Llm T S
  pub settings : Settings
  pub respond : Bool → List Message → Option T → S → Outcome Reply × S
  pub get_tools : Bool → T
  pub same_length : T → T → Bool
  pub is_incorrect_tool_call : Reply → Bool
  pub is_cancelled : S → Bool
  pub arrive : List (ToolCallResult P) → List (ToolCallResult P)
  pub reset_after_compaction : Bool
  pub dumps_params : P → Text
  pub dumps_metadata : Text → Text → Text

pub record LlmResult (P : Type 0) : Type 0 where
  pub result : Option Text
  pub tool_calls : List (PastCall P)
  pub num_llm_calls : ℕ
  pub messages : List Message

-- The variables of the loop: `i`, `messages`, `tool_calls`, `all_tool_calls` and `tools`.
pub record LoopState (P T : Type 0) : Type 0 where
  pub i : ℕ
  pub messages : List Message
  pub past : List (PastCall P)
  pub all_past : List (PastCall P)
  pub tools : Option T

-- How a round ends: with an answer, with a retry without structured output, or with another round.
pub data Round (P T : Type 0) : Type 0 where
  answered : LlmResult P → Round P T
  retried : LoopState P T → Round P T
  continued : LoopState P T → Round P T

abbrev pub interrupted : Text
interrupted = codes "LLMInterruptedError"

module _ {P T S : Type 0} (x : Executor P S) (c : Surroundings P T S) where
  abbrev or_failed : Option Text → Text
  or_failed none = codes "Tool execution failed"
  or_failed (some []) = codes "Tool execution failed"
  or_failed (some (e ∷ s)) = e ∷ s

  abbrev with_params : Option P → Text → Text
  with_params none text = text
  with_params (some p) text =
      if x.arguments.is_empty p
      then text
      else codes "Params used for the tool call: "
        ++ (c.dumps_params p
            ++ (codes ". The tool call output follows on the next line.\n" ++ text))

  unfoldable pub format_tool_result_data : StructuredToolResult P → Text → Text → Text
  unfolding get_stringified_data
  format_tool_result_data r id name = with_params r.params (
      (codes "tool_call_metadata=" ++ c.dumps_metadata name id)
      ++ ((if status_eq r.status error then or_failed r.error_text ++ codes ":\n\n" else [])
          ++ get_stringified_data x.host.dumps r))

  unfoldable pub as_tool_call_message : ToolCallResult P → Message
  unfolding format_tool_result_data
  as_tool_call_message r =
      record (bare (codes "tool") (str (format_tool_result_data r.result r.call_id r.tool_name))) {
        tool_call_id = r.call_id;
        tool_name = r.tool_name;
      }

  -- `as_tool_result_response`, as far as it is read again
  abbrev pub as_past_call : ToolCallResult P → PastCall P
  as_past_call r = record {
    past_name = r.tool_name;
    past_status = r.result.status;
    past_params = r.result.params;
  }

  -- Every call of a round sees the calls of the rounds before it.
  unfoldable pub invoke_all :
      List ToolCall → List (PastCall P) → AgentState S → List (ToolCallResult P) × AgentState S
  invoke_all [] past a = ([], a)
  invoke_all (t ∷ ts) past a =
      let (r, a') = invoke_llm_tool_call x t past false [] a in
      let (rs, a'') = invoke_all ts past a' in (r ∷ rs, a'')

  unfoldable pub append_result : LoopState P T → ToolCallResult P → LoopState P T
  unfolding as_tool_call_message
  append_result s r = record s {
    past = s.past ++ as_past_call r ∷ [];
    all_past = s.all_past ++ as_past_call r ∷ [];
    messages = (count_tokens c.llm.counter (s.messages ++ as_tool_call_message r ∷ []) s.tools).1;
  }

  unfoldable pub approve_if_needed :
      ToolCallResult P → AgentState S → Outcome (ToolCallResult P) × AgentState S
  approve_if_needed r a =
      if status_eq r.result.status approval_required
      then handle_tool_call_approval x r a
      else (returned r, a)

  unfoldable pub collect :
      List (ToolCallResult P)
      → LoopState P T
      → AgentState S
      → Outcome (LoopState P T) × AgentState S
  unfolding approve_if_needed append_result
  collect [] s a = (returned s, a)
  collect (r ∷ rs) s a =
      if c.is_cancelled a.world
      then (raised interrupted, a)
      else (let (o, a') = approve_if_needed r a in
          elim o [ raised e ↦ (raised e, a') | returned r' ↦ collect rs (append_result s r') a' ])

  -- A runbook that was fetched may bring in restricted tools.
  abbrev pub refresh : Option T → AgentState S → Option T
  refresh none a = none
  refresh (some tools) a =
      if a.runbook_in_use
      then (let new = c.get_tools true in if c.same_length new tools then some tools else some new)
      else some tools

  unfoldable pub use_tool_calls :
      List ToolCall → LoopState P T → AgentState S → Outcome (Round P T) × AgentState S
  unfolding invoke_all collect
  use_tool_calls calls s a =
      let (rs, a') = invoke_all calls s.past a in
      let (o, a'') = collect (c.arrive rs) s a' in
      (
        elim o [
          | raised e ↦ raised e
          | returned s' ↦ returned (continued (record s' { tools = refresh s'.tools a'' }))
        ],
        a'',
      )

  -- The calls that a reply asks for; a reply that asks for none is the answer, and the messages are
  -- counted.
  unfoldable pub use_reply :
      Reply → LoopState P T → AgentState S → Outcome (Round P T) × AgentState S
  unfolding use_tool_calls
  use_reply reply s a =
      let s' = record s { messages = s.messages ++ reply.message ∷ [] } in
      elim reply.requested [
        | [] ↦ (
          returned (
              answered (record {
                result = reply.text;
                tool_calls = s.all_past;
                num_llm_calls = s.i;
                messages = (count_tokens c.llm.counter s'.messages s'.tools).1;
              })),
          a,
        )
        | t ∷ ts ↦ use_tool_calls (t ∷ ts) s' a
      ]

  -- `limit_input_context_window` and what it changes
  abbrev pub limited : LoopState P T → ContextWindowLimiterOutput → LoopState P T
  limited s out = record s {
    messages = out.messages;
    past = if out.conversation_history_compacted && c.reset_after_compaction then [] else s.past;
  }

  unfoldable pub ask_model :
      Bool → LoopState P T → AgentState S → Outcome (Round P T) × AgentState S
  unfolding use_reply
  ask_model formatted s a =
      let (o, w) = c.respond formatted s.messages s.tools a.world in
      let a' = record a { world = w } in
      elim o [
        | raised e ↦ (raised e, a')
        | returned reply ↦
            if c.is_cancelled w
            then (raised interrupted, a')
            else if formatted && c.is_incorrect_tool_call reply
            then (returned (retried s), a')
            else use_reply reply s a'
      ]

  -- One round. On the last one the model is given no tools.
  unfoldable pub round :
      Bool → Bool → LoopState P T → AgentState S → Outcome (Round P T) × AgentState S
  unfolding ask_model
  round formatted is_last s a =
      let tools = if is_last then none else s.tools in
      let (o, w) = limit_input_context_window c.llm c.settings s.messages tools a.world in
      let a' = record a { world = w } in
      if c.is_cancelled a.world then (raised interrupted, a) else elim o [
        | raised e ↦ (raised e, a')
        | returned out ↦
            ask_model formatted (limited (record s { i = suc s.i; tools = tools }) out) a'
      ]

  abbrev pub is_one : ℕ → Bool
  is_one (suc zero) = true
  is_one n = false

  abbrev too_many : Text
  too_many = codes "Too many LLM calls"

  -- The loop without structured output; the number is `max_steps - i`.
  unfoldable pub plain_loop :
      ℕ → LoopState P T → AgentState S → Outcome (LlmResult P) × AgentState S
  unfolding round
  plain_loop zero s a = (raised too_many, a)
  plain_loop (suc left) s a =
      let (o, a') = round false (is_one (suc left)) s a in
      elim o [
        | raised e ↦ (raised e, a')
        | returned (answered r) ↦ (returned r, a')
        | returned (retried s') ↦ plain_loop left s' a'
        | returned (continued s') ↦ plain_loop left s' a'
      ]

  -- With structured output: a retry turns it off and adds a step.
  unfoldable pub formatted_loop :
      ℕ → LoopState P T → AgentState S → Outcome (LlmResult P) × AgentState S
  unfolding round plain_loop
  formatted_loop zero s a = (raised too_many, a)
  formatted_loop (suc left) s a =
      let (o, a') = round true (is_one (suc left)) s a in
      elim o [
        | raised e ↦ (raised e, a')
        | returned (answered r) ↦ (returned r, a')
        | returned (retried s') ↦ plain_loop (suc left) s' a'
        | returned (continued s') ↦ formatted_loop left s' a'
      ]

  abbrev pub initial : List Message → AgentState S → LoopState P T
  initial messages a = record {
    i = 0;
    messages = messages;
    past = [];
    all_past = [];
    tools = some (c.get_tools a.runbook_in_use);
  }

  unfoldable pub call :
      Bool → ℕ → List Message → AgentState S → Outcome (LlmResult P) × AgentState S
  unfolding plain_loop formatted_loop
  call formatted max_steps messages a =
      if formatted
      then formatted_loop max_steps (initial messages a) a
      else plain_loop max_steps (initial messages a) a
