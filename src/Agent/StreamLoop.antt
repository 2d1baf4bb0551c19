-- ===== src/Agent/StreamLoop.antt =====
-- `ToolCallingLLM.call_stream` (holmes/core/tool_calling_llm.py): the loop of the agent as a stream of
-- events, which may stop for an approval and go on with the user's decisions.
use canis.Prelude.{
  ℕ, zero, suc, Bool, true, false, ◌&&◌, Option, none, some, List, [], ◌∷◌, ◌++◌, map,
  if◌then◌else◌, Text, codes,
}
use canis.Tools.Json.{str}
use canis.Tools.Result.{approval_required, status_eq, Outcome, returned, raised}
use canis.Context.Message.{Message, bare, count_tokens}
use canis.Context.Llm.{ToolCall, Reply}
use canis.Context.Limit.{ContextWindowLimiterOutput, limit_input_context_window}
use canis.Agent.Safeguards.{PastCall}
use canis.Agent.Size.{ToolCallResult}
use canis.Agent.Invoke.{Executor, AgentState, invoke_llm_tool_call}
use canis.Agent.Loop.{Surroundings, as_tool_call_message, as_past_call, refresh, is_one}
use canis.Agent.Decisions.{
  ToolApprovalDecision, Entry, Processed, extract_bash_session_prefixes, process_tool_decisions,
}
use canis.Agent.Stream.{
  StreamEvent, limiter_event, token_count, ai_message, start_tool, tool_result, answer_end,
  approvals_required, Streamed, StreamState, RoundEnd, closed, unformatted, again, Gathered, after,
  entry_message, plain_entry, attached, entry_of_reply, mark_all, reject,
}

-- `dumps` and `saved` are those of the decisions; `reasoning` is the reply's `reasoning_content`.
module _ {P T S : Type 0} (x : Executor P S) (c : Surroundings P T S)
    (dumps : List Text → Text → Text → Text) (saved : Message → List Text)
    (reasoning : Reply → Option Text) where
  -- The calls of a round are started in order; one without a function has no name to report.
  unfoldable pub start_all :
      List Text
      → List (PastCall P)
      → List ToolCall
      → AgentState S
      → Streamed P S (List (ToolCallResult P))
  unfolding invoke_llm_tool_call
  start_all prefixes past [] a = record { events = []; outcome = returned []; state = a }
  start_all prefixes past (t ∷ ts) a =
      let (r, a') = invoke_llm_tool_call x t past false prefixes a in
      let rest = start_all prefixes past ts a' in
      elim t.function [
        | none ↦ record { events = []; outcome = raised (codes "AttributeError"); state = a' }
        | some (name, arguments) ↦ record {
          events = start_tool name t.id ∷ rest.events;
          outcome = elim rest.outcome [ raised e ↦ raised e | returned rs ↦ returned (r ∷ rs) ];
          state = rest.state;
        }
      ]

  -- The result goes into the conversation.
  unfoldable pub settle : ToolCallResult P → Gathered P → Gathered P
  unfolding as_tool_call_message
  settle r g = record g {
    messages = g.messages ++ plain_entry (as_tool_call_message x c r) ∷ [];
    past = g.past ++ as_past_call x c r ∷ [];
    events = g.events ++ tool_result r ∷ [];
  }

  unfoldable pub gather_one : Bool → ToolCallResult P → Gathered P → Gathered P
  unfolding settle reject
  gather_one enable_tool_approval r g =
      if status_eq r.result.status approval_required
      then (if enable_tool_approval
          then record g { pending = g.pending ++ r ∷ []; events = g.events ++ tool_result r ∷ [] }
          else settle (reject r) g)
      else settle r g

  unfoldable pub gather : Bool → List (ToolCallResult P) → Gathered P → Gathered P
  unfolding gather_one
  gather enable_tool_approval [] g = g
  gather enable_tool_approval (r ∷ rs) g =
      gather enable_tool_approval rs (gather_one enable_tool_approval r g)

  -- Pending approvals end the stream, with their calls marked.
  unfoldable pub finish_round :
      Gathered P → StreamState P T → AgentState S → Streamed P S (RoundEnd P T)
  unfolding mark_all
  finish_round g s a = elim g.pending [
    | [] ↦ record {
      events = g.events;
      outcome =
          returned (
            again (record { messages = g.messages; past = g.past; tools = refresh x c s.tools a }));
      state = a;
    }
    | p ∷ ps ↦ elim (mark_all (p ∷ ps) g.messages) [
      | raised e ↦ record { events = g.events; outcome = raised e; state = a }
      | returned messages ↦ record {
        events = g.events ++ approvals_required messages (p ∷ ps) ∷ [];
        outcome = returned closed;
        state = a;
      }
    ]
  ]

  unfoldable pub use_calls :
      Bool → List ToolCall → StreamState P T → AgentState S → Streamed P S (RoundEnd P T)
  unfolding start_all gather finish_round extract_bash_session_prefixes
  use_calls enable_tool_approval calls s a =
      let prefixes = extract_bash_session_prefixes x c dumps saved s.messages in
      let started = start_all prefixes s.past calls a in
      elim started.outcome [
        | raised e ↦ record { events = started.events; outcome = raised e; state = started.state }
        | returned rs ↦
            finish_round
              (gather enable_tool_approval (c.arrive rs) (record {
                messages = s.messages;
                past = s.past;
                pending = [];
                events = started.events;
              }))
              s started.state
      ]

  abbrev pub some_text : Option Text → Bool
  some_text none = false
  some_text (some []) = false
  some_text (some (c ∷ s)) = true

  abbrev pub ai_messages : Reply → List (StreamEvent P)
  ai_messages reply =
      if some_text (reasoning reply)
      then ai_message reply.text ∷ []
      else if some_text reply.text
      then ai_message reply.text ∷ []
      else []

  -- The reply joins the conversation, whose messages are counted again.
  unfoldable pub stream_reply :
      Bool → Reply → StreamState P T → AgentState S → Streamed P S (RoundEnd P T)
  unfolding use_calls
  stream_reply enable_tool_approval reply s a =
      let messages = s.messages ++ entry_of_reply reply ∷ [] in
      let (tokens, marked) = count_tokens c.llm.counter (map entry_message messages) s.tools in
      let s' = record s { messages = attached marked messages } in
      elim reply.requested [
        | [] ↦ record {
          events = token_count tokens ∷ answer_end reply.text s'.messages ∷ [];
          outcome = returned closed;
          state = a;
        }
        | t ∷ ts ↦
            after (token_count tokens ∷ ai_messages reply)
              (use_calls enable_tool_approval (t ∷ ts) s' a)
      ]

  unfoldable pub stream_model :
      Bool → Bool → StreamState P T → AgentState S → Streamed P S (RoundEnd P T)
  unfolding stream_reply
  stream_model formatted enable_tool_approval s a =
      let (o, w) = c.respond formatted (map entry_message s.messages) s.tools a.world in
      let a' = record a { world = w } in
      elim o [
        | raised e ↦ record { events = []; outcome = raised e; state = a' }
        | returned reply ↦
            if formatted && c.is_incorrect_tool_call reply
            then record { events = []; outcome = returned (unformatted s); state = a' }
            else stream_reply enable_tool_approval reply s a'
      ]

  -- What the limiter leaves: a compacted history has no calls.
  abbrev pub stream_limited : StreamState P T → ContextWindowLimiterOutput → StreamState P T
  stream_limited s out = record s {
    messages =
        attached out.messages (if out.conversation_history_compacted then [] else s.messages);
    past = if out.conversation_history_compacted && c.reset_after_compaction then [] else s.past;
  }

  -- One round. On the last one the model is given no tools.
  unfoldable pub stream_round :
      Bool → Bool → Bool → StreamState P T → AgentState S → Streamed P S (RoundEnd P T)
  unfolding stream_model
  stream_round formatted enable_tool_approval is_last s a =
      let tools = if is_last then none else s.tools in
      let (o, w) =
        limit_input_context_window c.llm c.settings (map entry_message s.messages) tools a.world in
      let a' = record a { world = w } in
      elim o [
        | raised e ↦ record { events = []; outcome = raised e; state = a' }
        | returned out ↦ after (map limiter_event out.events) (
            stream_model formatted enable_tool_approval
              (stream_limited (record s { tools = tools }) out) a')
      ]

  abbrev over : {A : Type 0} → Streamed P S A → Outcome (Unit {0}) → Streamed P S (Unit {0})
  over r o = record { events = r.events; outcome = o; state = r.state }

  -- The loop without structured output; the number is `max_steps - i`.
  unfoldable pub plain_stream : Bool → ℕ → StreamState P T → AgentState S → Streamed P S (Unit {0})
  unfolding stream_round
  plain_stream enable_tool_approval zero s a = record {
    events = [];
    outcome = raised (codes "Too many LLM calls");
    state = a;
  }
  plain_stream enable_tool_approval (suc left) s a =
      let r = stream_round false enable_tool_approval (is_one x c (suc left)) s a in
      elim r.outcome [
        | raised e ↦ over r (raised e)
        | returned closed ↦ over r (returned tt)
        | returned (unformatted s') ↦
            after r.events (plain_stream enable_tool_approval left s' r.state)
        | returned (again s') ↦ after r.events (plain_stream enable_tool_approval left s' r.state)
      ]

  -- With structured output: a retry turns it off and adds a step.
  unfoldable pub formatted_stream :
      Bool → ℕ → StreamState P T → AgentState S → Streamed P S (Unit {0})
  unfolding stream_round plain_stream
  formatted_stream enable_tool_approval zero s a = record {
    events = [];
    outcome = raised (codes "Too many LLM calls");
    state = a;
  }
  formatted_stream enable_tool_approval (suc left) s a =
      let r = stream_round true enable_tool_approval (is_one x c (suc left)) s a in
      elim r.outcome [
        | raised e ↦ over r (raised e)
        | returned closed ↦ over r (returned tt)
        | returned (unformatted s') ↦
            after r.events (plain_stream enable_tool_approval (suc left) s' r.state)
        | returned (again s') ↦
            after r.events (formatted_stream enable_tool_approval left s' r.state)
      ]

  abbrev pub prompt : Option Text → Text → List Entry
  prompt none role = []
  prompt (some []) role = []
  prompt (some (c ∷ s)) role = plain_entry (bare role (str (c ∷ s))) ∷ []

  unfoldable pub stream : Bool → Bool → ℕ → List Entry → AgentState S → Streamed P S (Unit {0})
  unfolding plain_stream formatted_stream
  stream formatted enable_tool_approval max_steps messages a =
      let s : StreamState P T = record {
        messages = messages;
        past = [];
        tools = some (c.get_tools a.runbook_in_use);
      } in
      if formatted
      then formatted_stream enable_tool_approval max_steps s a
      else plain_stream enable_tool_approval max_steps s a

  -- `if msgs and tool_decisions`
  abbrev pub decided :
      List Entry → List ToolApprovalDecision → AgentState S → Outcome (Processed P S)
  decided [] decisions a = returned (record { messages = []; results = []; state = a })
  decided (m ∷ ms) decisions a = process_tool_decisions x c dumps saved (m ∷ ms) decisions a

  unfoldable pub call_stream :
      Bool
      → Bool
      → ℕ
      → Option Text
      → Option Text
      → List Entry
      → List ToolApprovalDecision
      → AgentState S
      → Streamed P S (Unit {0})
  unfolding stream process_tool_decisions
  call_stream formatted enable_tool_approval max_steps system_prompt user_prompt msgs decisions a =
      elim (decided msgs decisions a) [
        | raised e ↦ record { events = []; outcome = raised e; state = a }
        | returned p ↦ after (map tool_result p.results) (
            stream formatted enable_tool_approval max_steps
              (prompt system_prompt (codes "system")
                ++ (prompt user_prompt (codes "user") ++ p.messages))
              p.state)
      ]
