-- ===== src/Agent/Stream.antt =====
-- The events of `ToolCallingLLM.call_stream` (holmes/core/tool_calling_llm.py), its state, and the calls
-- that it marks for an approval.
use canis.Prelude.{
  true, false, Option, none, some, List, [], ◌∷◌, ◌++◌, map, if◌then◌else◌, Text, codes, text_eq,
}
use canis.Tools.Result.{error, Outcome, returned, raised}
use canis.Context.Message.{Message, TokenCountMetadata, is_role}
use canis.Context.Llm.{ToolCall, Reply}
use canis.Context.Limit.{Event}
use canis.Agent.Safeguards.{PastCall}
use canis.Agent.Size.{ToolCallResult}
use canis.Agent.Invoke.{AgentState}
use canis.Agent.Decisions.{RequestedCall, Entry}

-- `StreamMessage`, with what its readers use. An event of the limiter is kept as it is.
pub data StreamEvent (P : Type 0) : Type 0 where
  limiter_event : Event → StreamEvent P
  token_count : TokenCountMetadata → StreamEvent P
  ai_message : Option Text → StreamEvent P
  start_tool : Text → Text → StreamEvent P
  tool_result : ToolCallResult P → StreamEvent P
  answer_end : Option Text → List Entry → StreamEvent P
  approvals_required : List Entry → List (ToolCallResult P) → StreamEvent P

-- The events, how the generator ends, and the state after it.
pub record Streamed (P S A : Type 0) : Type 0 where
  pub events : List (StreamEvent P)
  pub outcome : Outcome A
  pub state : AgentState S

-- The variables of the loop: `messages`, `tool_calls` and `tools`.
pub record StreamState (P T : Type 0) : Type 0 where
  pub messages : List Entry
  pub past : List (PastCall P)
  pub tools : Option T

-- How a round ends: the stream is over, structured output is turned off, or another round follows.
pub data RoundEnd (P T : Type 0) : Type 0 where
  closed : RoundEnd P T
  unformatted : StreamState P T → RoundEnd P T
  again : StreamState P T → RoundEnd P T

-- What the results of a round leave: messages, calls, results that wait for an approval, and events.
pub record Gathered (P : Type 0) : Type 0 where
  pub messages : List Entry
  pub past : List (PastCall P)
  pub pending : List (ToolCallResult P)
  pub events : List (StreamEvent P)

abbrev pub after : {P S A : Type 0} → List (StreamEvent P) → Streamed P S A → Streamed P S A
after es r = record r { events = es ++ r.events }

abbrev pub entry_message : Entry → Message
entry_message e = e.message

abbrev pub plain_entry : Message → Entry
plain_entry m = record { message = m; requested = [] }

-- The messages at the same places, with the calls that they had.
abbrev pub attached : List Message → List Entry → List Entry
attached [] es = []
attached (m ∷ ms) [] = plain_entry m ∷ attached ms []
attached (m ∷ ms) (e ∷ es) = record e { message = m } ∷ attached ms es

abbrev pub requested_of : ToolCall → RequestedCall
requested_of t = record {
  id = t.id;
  name = elim t.function [ none ↦ [] | some (name, arguments) ↦ name ];
  arguments = elim t.function [ none ↦ [] | some (name, arguments) ↦ arguments ];
  pending_approval = false;
}

abbrev pub entry_of_reply : Reply → Entry
entry_of_reply reply = record {
  message = reply.message;
  requested = map requested_of reply.requested;
}

-- `tool_call["pending_approval"] = True` at the first call with the identifier
unfoldable pub mark_call : Text → List RequestedCall → Option (List RequestedCall)
mark_call id [] = none
mark_call id (c ∷ cs) =
    let rest = mark_call id cs in
    if text_eq c.id id
    then some (record c { pending_approval = true } ∷ cs)
    else elim rest [ none ↦ none | some cs' ↦ some (c ∷ cs') ]

abbrev pub calls_of : Entry → List RequestedCall
calls_of e = if is_role "assistant" e.message then e.requested else []

-- `find_assistant_tool_call_request`, and the mark on what it finds
unfoldable pub mark_pending : Text → List Entry → Option (List Entry)
unfolding mark_call
mark_pending id [] = none
mark_pending id (e ∷ es) =
    let rest = mark_pending id es in
    elim (mark_call id (calls_of e)) [
      | some cs ↦ some (record e { requested = cs } ∷ es)
      | none ↦ elim rest [ none ↦ none | some es' ↦ some (e ∷ es') ]
    ]

unfoldable pub mark_all : {P : Type 0} → List (ToolCallResult P) → List Entry → Outcome (List Entry)
unfolding mark_pending
mark_all [] es = returned es
mark_all (r ∷ rs) es = elim (mark_pending r.call_id es) [
  | none ↦ raised (
      codes
        "Failed to find assistant request for a tool_call in conversation history. tool_call_id="
      ++ r.call_id)
  | some es' ↦ mark_all rs es'
]

abbrev pub shown_error : Option Text → Text
shown_error none = codes "None"
shown_error (some e) = e

-- A call that may not be approved becomes an error.
unfoldable pub reject : {P : Type 0} → ToolCallResult P → ToolCallResult P
reject r =
    let old = r.result in
    record r {
      result = record old {
        status = error;
        error_text =
            some (codes "Tool call rejected for security reasons: " ++ shown_error old.error_text);
      };
    }
