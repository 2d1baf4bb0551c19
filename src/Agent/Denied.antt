-- ===== src/Agent/Denied.antt =====
-- A user who denies, through the whole loop of `call` (holmes/core/tool_calling_llm.py).
use canis.Prelude.{
  ℕ, suc, zero, Bool, true, false, ◌≡◌, refl, inl, inr, Option, none, some, List, [], ◌∷◌, ◌++◌,
  if◌then◌else◌, arith, Text,
}
use canis.Tools.Result.{StructuredToolResult, Outcome}
use canis.Tools.Invoke.{ToolInvokeContext}
use canis.Context.Message.{Message}
use canis.Context.Llm.{ToolCall, Reply}
use canis.Context.Limit.{Outcome-cases, limit_input_context_window}
use canis.Agent.Safeguards.{PastCall}
use canis.Agent.Size.{ToolCallResult}
use canis.Agent.Invoke.{Executor, AgentState, invoke_llm_tool_call}
use canis.Agent.Approval.{swapped, GuardedAsk, Denies, call_function-swapped, handle-swapped}
use canis.Agent.Loop.{
  Surroundings, LoopState, approve_if_needed, as_tool_call_message, format_tool_result_data,
  append_result, collect, invoke_all, use_tool_calls, use_reply, ask_model, round, plain_loop,
  formatted_loop, call, is_one, initial, limited, refresh,
}
use canis.Agent.Steps.{Round-cases, requested-cases}

module _ {P T S : Type 0} (x : Executor P S) (c : Surroundings P T S) (guarded : Text → Bool)
    (run : P → ToolInvokeContext → S → Outcome (StructuredToolResult P) × S)
    (asks : GuardedAsk x guarded run) (denies : Denies x guarded run) where
  abbrev y : Executor P S
  y = swapped x guarded run

  invoke_llm-swapped :
      (t : ToolCall) (past : List (PastCall P)) (a : AgentState S)
      → invoke_llm_tool_call y t past false [] a ≡ invoke_llm_tool_call x t past false [] a
  unfolding invoke_llm_tool_call
  invoke_llm-swapped t past a =
      rw (call_function-swapped x guarded run asks t.id t.function past [] a) refl

  invoke_all-swapped :
      (ts : List ToolCall) (past : List (PastCall P)) (a : AgentState S)
      → invoke_all y c ts past a ≡ invoke_all x c ts past a
  unfolding invoke_all
  invoke_all-swapped [] past a = refl
  invoke_all-swapped (t ∷ ts) past a =
      rw (invoke_llm-swapped t past a)
        (rw (invoke_all-swapped ts past (invoke_llm_tool_call x t past false [] a).1) refl)

  approve-swapped :
      (r : ToolCallResult P) (a : AgentState S)
      → approve_if_needed y c r a ≡ approve_if_needed x c r a
  unfolding approve_if_needed
  approve-swapped r a = rw (handle-swapped x guarded run asks denies r a) refl

  append-swapped :
      (s : LoopState P T) (r : ToolCallResult P) → append_result y c s r ≡ append_result x c s r
  unfolding append_result as_tool_call_message format_tool_result_data
  append-swapped s r = refl

  collect-swapped :
      (rs : List (ToolCallResult P)) (s : LoopState P T) (a : AgentState S)
      → collect y c rs s a ≡ collect x c rs s a
  unfolding collect
  collect-swapped [] s a = refl
  collect-swapped (r ∷ rs) s a =
      let same = approve-swapped r a in
      elim (Outcome-cases (approve_if_needed x c r a).0) [
        | inl (e, f) ↦ ground arith
        | inr (r', f) ↦
            let same_state = append-swapped s r' in
            let rest = collect-swapped rs (append_result x c s r') (approve_if_needed x c r a).1 in
            ground arith
      ]

  refresh-swapped :
      (tools : Option T) (a : AgentState S) → refresh y c tools a ≡ refresh x c tools a
  refresh-swapped none a = refl
  refresh-swapped (some tools) a = refl

  use_tool_calls-swapped :
      (ts : List ToolCall) (s : LoopState P T) (a : AgentState S)
      → use_tool_calls y c ts s a ≡ use_tool_calls x c ts s a
  unfolding use_tool_calls
  use_tool_calls-swapped ts s a =
      let invoked = invoke_all-swapped ts s.past a in
      let (rs, a') = invoke_all x c ts s.past a in
      let gathered = collect-swapped (c.arrive rs) s a' in
      elim (Outcome-cases (collect x c (c.arrive rs) s a').0) [
        | inl (e, f) ↦ ground arith
        | inr (s', f) ↦
            let kept = refresh-swapped s'.tools (collect x c (c.arrive rs) s a').1 in ground arith
      ]

  use_reply-swapped :
      (reply : Reply) (s : LoopState P T) (a : AgentState S)
      → use_reply y c reply s a ≡ use_reply x c reply s a
  unfolding use_reply
  use_reply-swapped reply s a = elim (requested-cases reply.requested) [
    | inl e ↦ ground arith
    | inr (t, ts, e) ↦
        let same =
          use_tool_calls-swapped (t ∷ ts) (record s { messages = s.messages ++ reply.message ∷ [] })
            a in
        ground arith
  ]

  ask_model-swapped :
      (formatted : Bool) (s : LoopState P T) (a : AgentState S)
      → ask_model y c formatted s a ≡ ask_model x c formatted s a
  unfolding ask_model
  ask_model-swapped formatted s a =
      elim (Outcome-cases (c.respond formatted s.messages s.tools a.world).0) [
        | inl (e, f) ↦ ground arith
        | inr (reply, f) ↦
            let same =
              use_reply-swapped reply s
                (record a { world = (c.respond formatted s.messages s.tools a.world).1 }) in
            ground arith
      ]

  round-swapped :
      (formatted is_last : Bool) (s : LoopState P T) (a : AgentState S)
      → round y c formatted is_last s a ≡ round x c formatted is_last s a
  unfolding round
  round-swapped formatted is_last s a =
      let tools = if is_last then none else s.tools in
      let (o, w) = limit_input_context_window c.llm c.settings s.messages tools a.world in
      elim (Outcome-cases o) [
        | inl (e, f) ↦ ground arith
        | inr (out, f) ↦
            let same =
              ask_model-swapped formatted
                (limited x c (record s { i = suc s.i; tools = tools }) out)
                (record a { world = w }) in
            ground arith
      ]

  plain_loop-swapped :
      (left : ℕ) (s : LoopState P T) (a : AgentState S)
      → plain_loop y c left s a ≡ plain_loop x c left s a
  unfolding plain_loop
  plain_loop-swapped zero s a = refl
  plain_loop-swapped (suc left) s a =
      let same = round-swapped false (is_one x c (suc left)) s a in
      let (o, a') = round x c false (is_one x c (suc left)) s a in
      elim (Round-cases o) [
        | inl (e, f) ↦ ground arith
        | inr (inl (r, f)) ↦ ground arith
        | inr (inr (inl (s', f))) ↦ let rest = plain_loop-swapped left s' a' in ground arith
        | inr (inr (inr (s', f))) ↦ let rest = plain_loop-swapped left s' a' in ground arith
      ]

  formatted_loop-swapped :
      (left : ℕ) (s : LoopState P T) (a : AgentState S)
      → formatted_loop y c left s a ≡ formatted_loop x c left s a
  unfolding formatted_loop
  formatted_loop-swapped zero s a = refl
  formatted_loop-swapped (suc left) s a =
      let same = round-swapped true (is_one x c (suc left)) s a in
      let (o, a') = round x c true (is_one x c (suc left)) s a in
      elim (Round-cases o) [
        | inl (e, f) ↦ ground arith
        | inr (inl (r, f)) ↦ ground arith
        | inr (inr (inl (s', f))) ↦ let rest = plain_loop-swapped (suc left) s' a' in ground arith
        | inr (inr (inr (s', f))) ↦ let rest = formatted_loop-swapped left s' a' in ground arith
      ]

  -- While the user denies what is asked, no call of the agent ever runs a tool that asks for approval
  -- of every call: its outcome and the state after it are the same, whatever such tools would do.
  pub call-denied :
      (formatted : Bool) (max_steps : ℕ) (messages : List Message) (a : AgentState S)
      → call y c formatted max_steps messages a ≡ call x c formatted max_steps messages a
  unfolding call
  call-denied formatted max_steps messages a =
      rw
        (
          formatted_loop-swapped max_steps (initial x c messages a) a,
          plain_loop-swapped max_steps (initial x c messages a) a,
        )
        refl
