-- ===== src/Agent/StreamDenied.antt =====
-- Tools that ask for approval, through the whole of `call_stream` (holmes/core/tool_calling_llm.py).
use canis.Prelude.{
  ℕ, zero, suc, Bool, true, false, ◌≡◌, refl, ◌⊎◌, inl, inr, Option, none, some, List, [], ◌∷◌,
  ◌++◌, map, if◌then◌else◌, arith, All, Option-cases, Text, codes, codes,
}
use canis.Tools.Result.{StructuredToolResult, Outcome, returned, raised}
use canis.Tools.Invoke.{ToolInvokeContext}
use canis.Context.Message.{Message, count_tokens}
use canis.Context.Llm.{ToolCall, Reply}
use canis.Context.Limit.{Outcome-cases, limit_input_context_window}
use canis.Agent.Safeguards.{PastCall}
use canis.Agent.Size.{ToolCallResult}
use canis.Agent.Invoke.{Executor, AgentState, invoke_llm_tool_call}
use canis.Agent.Approval.{swapped, GuardedAsk, call_function-swapped}
use canis.Agent.Loop.{Surroundings, as_tool_call_message, format_tool_result_data, is_one}
use canis.Agent.Steps.{requested-cases}
use canis.Agent.Decisions.{
  ToolApprovalDecision, Entry, ToolCallWithDecision, add_decisions, pending_tool_calls,
  without_pending, is_approved, insert_at, extract_bash_session_prefixes, answer, answer_message,
  answer_all, process_tool_decisions,
}
use canis.Agent.Decided.{List-cases}
use canis.Agent.Undecided.{
  AllDenied, pending_tool_calls-AllDenied, add_decisions-Denies, empty-Denies,
}
use canis.Agent.Stream.{
  StreamState, RoundEnd, closed, unformatted, again, Gathered, entry_message, entry_of_reply,
  mark_all, attached,
}
use canis.Agent.StreamLoop.{
  start_all, settle, gather_one, gather, finish_round, use_calls, stream_reply, stream_model,
  stream_limited, stream_round, plain_stream, formatted_stream, stream, decided, call_stream,
  prompt,
}

pub RoundEnd-cases :
    {P T : Type 0} (o : Outcome (RoundEnd P T))
    → ((e : Text) × (o ≡ raised e))
      ⊎ ((o ≡ returned closed)
          ⊎ (((s : StreamState P T) × (o ≡ returned (unformatted s)))
              ⊎ ((s : StreamState P T) × (o ≡ returned (again s)))))
RoundEnd-cases (raised e) = inl (e, refl)
RoundEnd-cases (returned closed) = inr (inl refl)
RoundEnd-cases (returned (unformatted s)) = inr (inr (inl (s, refl)))
RoundEnd-cases (returned (again s)) = inr (inr (inr (s, refl)))

module _ {P T S : Type 0} (x : Executor P S) (c : Surroundings P T S)
    (dumps : List Text → Text → Text → Text) (saved : Message → List Text)
    (reasoning : Reply → Option Text) (guarded : Text → Bool)
    (run : P → ToolInvokeContext → S → Outcome (StructuredToolResult P) × S)
    (asks : GuardedAsk x guarded run) where
  abbrev y : Executor P S
  y = swapped x guarded run

  invoke_llm-swapped :
      (t : ToolCall) (past : List (PastCall P)) (prefixes : List Text) (a : AgentState S)
      → invoke_llm_tool_call y t past false prefixes a
        ≡ invoke_llm_tool_call x t past false prefixes a
  unfolding invoke_llm_tool_call
  invoke_llm-swapped t past prefixes a =
      rw (call_function-swapped x guarded run asks t.id t.function past prefixes a) refl

  start_all-swapped :
      (prefixes : List Text) (past : List (PastCall P)) (ts : List ToolCall) (a : AgentState S)
      → start_all y c dumps saved reasoning prefixes past ts a
        ≡ start_all x c dumps saved reasoning prefixes past ts a
  unfolding start_all
  start_all-swapped prefixes past [] a = refl
  start_all-swapped prefixes past (t ∷ ts) a =
      let same = invoke_llm-swapped t past prefixes a in
      let rest =
        start_all-swapped prefixes past ts (invoke_llm_tool_call x t past false prefixes a).1 in
      elim (Option-cases t.function) [ inl e ↦ ground arith | inr (f, e) ↦ ground arith ]

  gather-swapped :
      (enable : Bool) (rs : List (ToolCallResult P)) (g : Gathered P)
      → gather y c dumps saved reasoning enable rs g ≡ gather x c dumps saved reasoning enable rs g
  unfolding gather gather_one settle as_tool_call_message format_tool_result_data
  gather-swapped enable [] g = refl
  gather-swapped enable (r ∷ rs) g =
      gather-swapped enable rs (gather_one x c dumps saved reasoning enable r g)

  extract-swapped :
      (es : List Entry)
      → extract_bash_session_prefixes y c dumps saved es
        ≡ extract_bash_session_prefixes x c dumps saved es
  unfolding extract_bash_session_prefixes
  extract-swapped [] = refl
  extract-swapped (e ∷ es) = rw (extract-swapped es) refl

  finish_round-swapped :
      (g : Gathered P) (s : StreamState P T) (a : AgentState S)
      → finish_round y c dumps saved reasoning g s a ≡ finish_round x c dumps saved reasoning g s a
  unfolding finish_round
  finish_round-swapped g s a = elim (List-cases g.pending) [
    | inl e ↦ ground arith
    | inr (p, (ps, e)) ↦ elim (Outcome-cases (mark_all (p ∷ ps) g.messages)) [
      | inl (t, f) ↦ ground arith
      | inr (ms, f) ↦ ground arith
    ]
  ]

  use_calls-swapped :
      (enable : Bool) (ts : List ToolCall) (s : StreamState P T) (a : AgentState S)
      → use_calls y c dumps saved reasoning enable ts s a
        ≡ use_calls x c dumps saved reasoning enable ts s a
  unfolding use_calls
  use_calls-swapped enable ts s a =
      let prefixes = extract_bash_session_prefixes x c dumps saved s.messages in
      let read = extract-swapped s.messages in
      let same = start_all-swapped prefixes s.past ts a in
      let started = start_all x c dumps saved reasoning prefixes s.past ts a in
      elim (Outcome-cases started.outcome) [
        | inl (t, f) ↦ ground arith
        | inr (rs, f) ↦
            let g : Gathered P = record {
              messages = s.messages;
              past = s.past;
              pending = [];
              events = started.events;
            } in
            let gathered = gather-swapped enable (c.arrive rs) g in
            let finished =
              finish_round-swapped (gather x c dumps saved reasoning enable (c.arrive rs) g) s
                started.state in
            ground arith
      ]

  stream_reply-swapped :
      (enable : Bool) (reply : Reply) (s : StreamState P T) (a : AgentState S)
      → stream_reply y c dumps saved reasoning enable reply s a
        ≡ stream_reply x c dumps saved reasoning enable reply s a
  unfolding stream_reply
  stream_reply-swapped enable reply s a =
      let messages = s.messages ++ entry_of_reply reply ∷ [] in
      let (tokens, marked) = count_tokens c.llm.counter (map entry_message messages) s.tools in
      elim (requested-cases reply.requested) [
        | inl e ↦ ground arith
        | inr (t, ts, e) ↦
            let same =
              use_calls-swapped enable (t ∷ ts) (record s { messages = attached marked messages })
                a in
            ground arith
      ]

  stream_model-swapped :
      (formatted enable : Bool) (s : StreamState P T) (a : AgentState S)
      → stream_model y c dumps saved reasoning formatted enable s a
        ≡ stream_model x c dumps saved reasoning formatted enable s a
  unfolding stream_model
  stream_model-swapped formatted enable s a =
      let (o, w) = c.respond formatted (map entry_message s.messages) s.tools a.world in
      elim (Outcome-cases o) [
        | inl (e, f) ↦ ground arith
        | inr (reply, f) ↦
            let same = stream_reply-swapped enable reply s (record a { world = w }) in ground arith
      ]

  stream_round-swapped :
      (formatted enable is_last : Bool) (s : StreamState P T) (a : AgentState S)
      → stream_round y c dumps saved reasoning formatted enable is_last s a
        ≡ stream_round x c dumps saved reasoning formatted enable is_last s a
  unfolding stream_round
  stream_round-swapped formatted enable is_last s a =
      let tools = if is_last then none else s.tools in
      let (o, w) =
        limit_input_context_window c.llm c.settings (map entry_message s.messages) tools a.world in
      elim (Outcome-cases o) [
        | inl (e, f) ↦ ground arith
        | inr (out, f) ↦
            let same =
              stream_model-swapped formatted enable
                (stream_limited x c dumps saved reasoning (record s { tools = tools }) out)
                (record a { world = w }) in
            ground arith
      ]

  plain_stream-swapped :
      (enable : Bool) (left : ℕ) (s : StreamState P T) (a : AgentState S)
      → plain_stream y c dumps saved reasoning enable left s a
        ≡ plain_stream x c dumps saved reasoning enable left s a
  unfolding plain_stream
  plain_stream-swapped enable zero s a = refl
  plain_stream-swapped enable (suc left) s a =
      let same = stream_round-swapped false enable (is_one x c (suc left)) s a in
      let r = stream_round x c dumps saved reasoning false enable (is_one x c (suc left)) s a in
      elim (RoundEnd-cases r.outcome) [
        | inl (e, f) ↦ ground arith
        | inr (inl f) ↦ ground arith
        | inr (inr (inl (s', f))) ↦
            let rest = plain_stream-swapped enable left s' r.state in ground arith
        | inr (inr (inr (s', f))) ↦
            let rest = plain_stream-swapped enable left s' r.state in ground arith
      ]

  formatted_stream-swapped :
      (enable : Bool) (left : ℕ) (s : StreamState P T) (a : AgentState S)
      → formatted_stream y c dumps saved reasoning enable left s a
        ≡ formatted_stream x c dumps saved reasoning enable left s a
  unfolding formatted_stream
  formatted_stream-swapped enable zero s a = refl
  formatted_stream-swapped enable (suc left) s a =
      let same = stream_round-swapped true enable (is_one x c (suc left)) s a in
      let r = stream_round x c dumps saved reasoning true enable (is_one x c (suc left)) s a in
      elim (RoundEnd-cases r.outcome) [
        | inl (e, f) ↦ ground arith
        | inr (inl f) ↦ ground arith
        | inr (inr (inl (s', f))) ↦
            let rest = plain_stream-swapped enable (suc left) s' r.state in ground arith
        | inr (inr (inr (s', f))) ↦
            let rest = formatted_stream-swapped enable left s' r.state in ground arith
      ]

  answer-swapped :
      (prefixes : List Text) (p : ToolCallWithDecision) (a : AgentState S)
      → is_approved p.decision ≡ false
      → answer y c dumps saved prefixes p a ≡ answer x c dumps saved prefixes p a
  unfolding answer
  answer-swapped prefixes p a denied = rw (answer, denied)

  answer_message-swapped :
      (p : ToolCallWithDecision) (r : ToolCallResult P)
      → answer_message y c dumps saved p r ≡ answer_message x c dumps saved p r
  unfolding answer_message as_tool_call_message format_tool_result_data
  answer_message-swapped p r = refl

  answer_all-swapped :
      (prefixes : List Text) (ps : List ToolCallWithDecision) (es : List Entry) (a : AgentState S)
      → AllDenied ps
      → answer_all y c dumps saved prefixes ps es a ≡ answer_all x c dumps saved prefixes ps es a
  unfolding answer_all
  answer_all-swapped prefixes [] es a all = refl
  answer_all-swapped prefixes (p ∷ ps) es a (denied, all) =
      let (r, a') = answer x c dumps saved prefixes p a in
      let same = answer-swapped prefixes p a denied in
      let written = answer_message-swapped p r in
      let rest =
        answer_all-swapped prefixes ps
          (insert_at (suc p.message_index) (answer_message x c dumps saved p r) es) a' all in
      ground arith

  process-swapped :
      (es : List Entry) (ts : List ToolApprovalDecision) (a : AgentState S)
      → All (λ t. t.approved ≡ false) ts
      → process_tool_decisions y c dumps saved es ts a
        ≡ process_tool_decisions x c dumps saved es ts a
  unfolding process_tool_decisions
  process-swapped es [] a all = refl
  process-swapped es (t ∷ ts) a all =
      let d = add_decisions (t ∷ ts) [] in
      let read = extract-swapped es in
      let denied =
        pending_tool_calls-AllDenied d 0 es (add_decisions-Denies (t ∷ ts) [] all empty-Denies) in
      let same =
        answer_all-swapped (extract_bash_session_prefixes x c dumps saved es)
          (pending_tool_calls d 0 es) (map without_pending es) a denied in
      elim (List-cases (pending_tool_calls d 0 es)) [
        | inl e ↦ ground arith
        | inr (p, (ps, e)) ↦ ground arith
      ]

  decided-swapped :
      (es : List Entry) (ts : List ToolApprovalDecision) (a : AgentState S)
      → All (λ t. t.approved ≡ false) ts
      → decided y c dumps saved reasoning es ts a ≡ decided x c dumps saved reasoning es ts a
  decided-swapped [] ts a all = refl
  decided-swapped (e ∷ es) ts a all = process-swapped (e ∷ es) ts a all

  -- When the stream starts with no decision that approves, it never runs a tool that asks for approval
  -- of every call: its events, how it ends and the state after it are the same, whatever such tools
  -- would do, with approvals enabled or not.
  pub call_stream-swapped :
      (formatted enable_tool_approval : Bool) (max_steps : ℕ)
      (system_prompt user_prompt : Option Text) (msgs : List Entry)
      (decisions : List ToolApprovalDecision) (a : AgentState S)
      → All (λ t. t.approved ≡ false) decisions
      → call_stream y c dumps saved reasoning formatted enable_tool_approval max_steps system_prompt
          user_prompt msgs decisions a
        ≡ call_stream x c dumps saved reasoning formatted enable_tool_approval max_steps
            system_prompt user_prompt msgs decisions a
  unfolding call_stream stream
  call_stream-swapped formatted enable max_steps system_prompt user_prompt msgs decisions a all =
      let same = decided-swapped msgs decisions a all in
      elim (Outcome-cases (decided x c dumps saved reasoning msgs decisions a)) [
        | inl (e, f) ↦ ground arith
        | inr (p, f) ↦
            let messages =
              prompt x c dumps saved reasoning system_prompt (codes "system")
              ++ (prompt x c dumps saved reasoning user_prompt (codes "user") ++ p.messages) in
            let s : StreamState P T = record {
              messages = messages;
              past = [];
              tools = some (c.get_tools p.state.runbook_in_use);
            } in
            let plain = plain_stream-swapped enable max_steps s p.state in
            let shaped = formatted_stream-swapped enable max_steps s p.state in ground arith
      ]
