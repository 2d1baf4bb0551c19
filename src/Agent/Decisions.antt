-- ===== src/Agent/Decisions.antt =====
-- `process_tool_decisions` (holmes/core/tool_calling_llm.py): the user's answers to the tool calls of
-- a conversation that wait for an approval.
use canis.Prelude.{
  ℕ, zero, suc, Bool, true, false, Option, none, some, List, [], ◌∷◌, ◌++◌, map, if◌then◌else◌,
  Text, codes, Dict, dict_get, dict_set,
}
use canis.Tools.Result.{StructuredToolResult, error_result, Outcome, returned, raised}
use canis.Context.Message.{Message, is_role}
use canis.Agent.Size.{ToolCallResult}
use canis.Agent.Invoke.{Executor, AgentState, invoke_llm_tool_call}
use canis.Agent.Loop.{Surroundings, as_tool_call_message}

pub record ToolApprovalDecision : Type 0 where
  pub tool_call_id : Text
  pub approved : Bool
  pub save_prefixes : Option (List Text)

-- An element of a message's `tool_calls`, with its `pending_approval`.
pub record RequestedCall : Type 0 where
  pub id : Text
  pub name : Text
  pub arguments : Text
  pub pending_approval : Bool

-- A message with its `tool_calls`.
pub record Entry : Type 0 where
  pub message : Message
  pub requested : List RequestedCall

pub record ToolCallWithDecision : Type 0 where
  pub message_index : ℕ
  pub tool_call : RequestedCall
  pub decision : Option ToolApprovalDecision

-- The messages, the results in the order of the events, and the state of the agent.
pub record Processed (P S : Type 0) : Type 0 where
  pub messages : List Entry
  pub results : List (ToolCallResult P)
  pub state : AgentState S

-- `{decision.tool_call_id: decision for decision in tool_decisions}`, onto a dictionary
unfoldable pub add_decisions :
    List ToolApprovalDecision → Dict ToolApprovalDecision → Dict ToolApprovalDecision
add_decisions [] d = d
add_decisions (t ∷ ts) d = add_decisions ts (dict_set t.tool_call_id t d)

unfoldable pub pending_in :
    Dict ToolApprovalDecision → ℕ → List RequestedCall → List ToolCallWithDecision
pending_in d i [] = []
pending_in d i (c ∷ cs) =
    let rest = pending_in d i cs in
    if c.pending_approval
    then record { message_index = i; tool_call = c; decision = dict_get c.id d } ∷ rest
    else rest

unfoldable pub pending_of : Dict ToolApprovalDecision → ℕ → Entry → List ToolCallWithDecision
unfolding pending_in
pending_of d i e = if is_role "assistant" e.message then pending_in d i e.requested else []

-- The last message first, each with its calls in order, from a message's index on.
unfoldable pub pending_tool_calls :
    Dict ToolApprovalDecision → ℕ → List Entry → List ToolCallWithDecision
unfolding pending_of
pending_tool_calls d i [] = []
pending_tool_calls d i (e ∷ es) = pending_tool_calls d (suc i) es ++ pending_of d i e

-- `del tool_call["pending_approval"]`
abbrev pub not_pending : RequestedCall → RequestedCall
not_pending c = record c { pending_approval = false }

unfoldable pub without_pending : Entry → Entry
without_pending e =
    if is_role "assistant" e.message
    then record e { requested = map not_pending e.requested }
    else e

-- `messages.insert(i, message)`
unfoldable pub insert_at : ℕ → Entry → List Entry → List Entry
insert_at zero e es = e ∷ es
insert_at (suc i) e [] = e ∷ []
insert_at (suc i) e (x ∷ es) = x ∷ insert_at i e es

abbrev pub is_approved : Option ToolApprovalDecision → Bool
is_approved none = false
is_approved (some d) = d.approved

abbrev pub nonempty : Option (List Text) → Option (List Text)
nonempty none = none
nonempty (some []) = none
nonempty (some (p ∷ ps)) = some (p ∷ ps)

abbrev pub prefixes_to_save : Option ToolApprovalDecision → Option (List Text)
prefixes_to_save none = none
prefixes_to_save (some d) = if d.approved then nonempty d.save_prefixes else none

abbrev pub denial : {P : Type 0} → StructuredToolResult P
denial = error_result (codes "Tool execution was denied by the user.") none

-- `dumps` is the text of the metadata with the prefixes to save, `saved` what the
-- metadata in the content of a message says of prefixes.
module _ {P T S : Type 0} (x : Executor P S) (c : Surroundings P T S)
    (dumps : List Text → Text → Text → Text) (saved : Message → List Text) where
  unfoldable pub extract_bash_session_prefixes : List Entry → List Text
  extract_bash_session_prefixes [] = []
  extract_bash_session_prefixes (e ∷ es) =
      let rest = extract_bash_session_prefixes es in
      if is_role "tool" e.message then saved e.message ++ rest else rest

  unfoldable pub answer :
      List Text → ToolCallWithDecision → AgentState S → ToolCallResult P × AgentState S
  unfolding invoke_llm_tool_call
  answer prefixes p a =
      let call = p.tool_call in
      if is_approved p.decision
      then invoke_llm_tool_call x
          (record { id = call.id; function = some (call.name, call.arguments) }) [] true prefixes a
      else (
        record {
          call_id = call.id;
          tool_name = call.name;
          description = call.name;
          result = denial;
        },
        a,
      )

  unfoldable pub answer_message : ToolCallWithDecision → ToolCallResult P → Entry
  unfolding as_tool_call_message
  answer_message p r = record {
    message = elim (prefixes_to_save p.decision) [
      | none ↦ as_tool_call_message x c r
      | some prefixes ↦ as_tool_call_message x (record c { dumps_metadata = dumps prefixes }) r
    ];
    requested = [];
  }

  unfoldable pub answer_all :
      List Text → List ToolCallWithDecision → List Entry → AgentState S → Processed P S
  unfolding answer answer_message insert_at
  answer_all prefixes [] messages a = record { messages = messages; results = []; state = a }
  answer_all prefixes (p ∷ ps) messages a =
      let (r, a') = answer prefixes p a in
      let rest =
        answer_all prefixes ps (insert_at (suc p.message_index) (answer_message p r) messages) a' in
      record rest { results = r ∷ rest.results }

  unfoldable pub process_tool_decisions :
      List Entry → List ToolApprovalDecision → AgentState S → Outcome (Processed P S)
  unfolding answer_all pending_tool_calls without_pending extract_bash_session_prefixes
      add_decisions
  process_tool_decisions messages [] a =
      returned (record { messages = messages; results = []; state = a })
  process_tool_decisions messages (t ∷ ts) a =
      elim (pending_tool_calls (add_decisions (t ∷ ts) []) 0 messages) [
        | [] ↦ raised (codes "Received tool decisions but no pending approvals found")
        | p ∷ ps ↦ returned (
            answer_all (extract_bash_session_prefixes messages) (p ∷ ps)
              (map without_pending messages) a)
      ]
