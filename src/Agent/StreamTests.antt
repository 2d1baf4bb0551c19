-- ===== src/Agent/StreamTests.antt =====
-- The theorems on the agent's streams at a concrete model.
use canis.Prelude.{
  ℕ, true, false, ◌≡◌, refl, Option, none, some, List, [], ◌∷◌, map, All, Any, Text, codes, length,
  text_eq,
}
use canis.Tools.Json.{str}
use canis.Tools.Result.{returned, raised}
use canis.Tools.Invoke.{invoke}
use canis.Context.Message.{bare, count_tokens}
use canis.Context.Llm.{Reply}
use canis.Context.Limit.{limit_input_context_window}
use canis.Agent.Safeguards.{prevent_overly_repeated_tool_call}
use canis.Agent.Size.{ToolCallResult, prevent_overly_big_tool_response}
use canis.Agent.Approval.{swapped}
use canis.Agent.Invoke.{invoke_llm_tool_call, handle_tool_call_approval}
use canis.Agent.Decisions.{Entry, not_pending}
use canis.Agent.Stream.{Streamed, plain_entry, mark_all}
use canis.Agent.StreamLoop.{stream, call_stream}
use canis.Agent.StreamDenied.{call_stream-swapped}
use canis.Agent.Protocol.{Arrived-refl}
use canis.Agent.Conforms.{Conforms, stream-Conforms}
use canis.Agent.Resume.{IsResultOf, call_stream-mark_all}
use canis.Agent.Tests.{executor, start, is_remove, remove_asks, done}
use canis.Agent.LoopTests.{surroundings}
use canis.Agent.DecisionTests.{dumps, saved, conversation, decision_of}

abbrev reasoning : Reply → Option Text
reasoning r = none

abbrev request : List Entry
request = plain_entry (bare (codes "user") (str (codes "remove it"))) ∷ []

abbrev streamed : Streamed ℕ ℕ (Unit {0})
streamed = stream executor surroundings dumps saved reasoning true true 3 request start

-- The count, the start of the call, its result and the end.
four_events : length streamed.events ≡ 4
unfolding stream limit_input_context_window count_tokens prevent_overly_repeated_tool_call
    prevent_overly_big_tool_response invoke text_eq invoke_llm_tool_call handle_tool_call_approval
four_events = refl

stream-Conforms_example : Conforms executor surroundings dumps saved reasoning streamed
stream-Conforms_example =
    stream-Conforms executor surroundings dumps saved reasoning Arrived-refl true true 3 request
      start

call_stream-swapped_example :
    call_stream
      (swapped executor is_remove (λ p c s. (raised [], s)))
      surroundings
      dumps
      saved
      reasoning
      true
      true
      3
      none
      (some (codes "remove it"))
      conversation
      (decision_of (codes "1") false ∷ [])
      start
    ≡ call_stream executor surroundings dumps saved reasoning true true 3 none
        (some (codes "remove it"))
        conversation
        (decision_of (codes "1") false ∷ [])
        start
call_stream-swapped_example =
    call_stream-swapped executor surroundings dumps saved reasoning is_remove
      (λ p c s. (raised [], s)) remove_asks true true 3 none (some (codes "remove it")) conversation
      (decision_of (codes "1") false ∷ []) start (refl, tt)

-- The conversation of the decisions before its calls are marked.
abbrev unmarked : List Entry
unmarked = map (λ (e : Entry). record e { requested = map not_pending e.requested }) conversation

abbrev waiting : List (ToolCallResult ℕ)
waiting =
    record { call_id = codes "1"; tool_name = codes "remove"; description = []; result = done }
    ∷ record { call_id = codes "2"; tool_name = codes "remove"; description = []; result = done }
    ∷ []

both_marked : mark_all waiting unmarked ≡ returned conversation
unfolding mark_all text_eq
both_marked = refl

call_stream-mark_all_example :
    All
      (λ r.
        Any
          (IsResultOf executor surroundings dumps saved reasoning r.call_id)
          (call_stream executor surroundings dumps saved reasoning true true 3 none none
            conversation
            (decision_of (codes "1") false ∷ [])
            start).events)
      waiting
call_stream-mark_all_example =
    call_stream-mark_all executor surroundings dumps saved reasoning true true 3 none none waiting
      unmarked conversation (decision_of (codes "1") false) [] start both_marked
