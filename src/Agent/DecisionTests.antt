-- ===== src/Agent/DecisionTests.antt =====
-- The user's decisions on a conversation with two waiting calls.
use canis.Prelude.{
  ℕ, Bool, true, false, ◌≡◌, ◌≢◌, refl, none, List, [], ◌∷◌, length, arith, Text, codes, text_eq,
  dict_get, dict_set,
}
use canis.Tools.Json.{str}
use canis.Tools.Result.{Outcome, returned, raised}
use canis.Context.Message.{Message, bare}
use canis.Agent.Decisions.{
  ToolApprovalDecision, RequestedCall, Entry, Processed, add_decisions, pending_tool_calls,
  process_tool_decisions, extract_bash_session_prefixes,
}
use canis.Agent.Decided.{answered, process_tool_decisions-answered}
use canis.Agent.Undecided.{IsDenied, process_tool_decisions-IsDenied}
use canis.Agent.Tests.{executor, start}
use canis.Agent.LoopTests.{surroundings}

abbrev call_of : Text → RequestedCall
call_of id = record {
  id = id;
  name = codes "remove";
  arguments = codes "{}";
  pending_approval = true;
}

abbrev pub decision_of : Text → Bool → ToolApprovalDecision
decision_of id approved = record { tool_call_id = id; approved = approved; save_prefixes = none }

abbrev pub conversation : List Entry
conversation =
    record { message = bare (codes "user") (str []); requested = [] }
    ∷ record {
      message = bare (codes "assistant") (str []);
      requested = call_of (codes "1") ∷ call_of (codes "2") ∷ [];
    }
    ∷ record { message = bare (codes "user") (str (codes "yes")); requested = [] }
    ∷ []

abbrev pub dumps : List Text → Text → Text → Text
dumps prefixes name id = id

abbrev pub saved : Message → List Text
saved m = []

abbrev or_nothing : Outcome (Processed ℕ ℕ) → Processed ℕ ℕ
or_nothing (returned r) = r
or_nothing (raised e) = record { messages = []; results = []; state = start }

abbrev denials : List ToolApprovalDecision
denials = decision_of (codes "1") false ∷ decision_of (codes "2") false ∷ []

abbrev after_denials : Outcome (Processed ℕ ℕ)
after_denials = process_tool_decisions executor surroundings dumps saved conversation denials start

-- The denials of both calls stand before the user's answer.
five_messages : length (or_nothing after_denials).messages ≡ 5
unfolding process_tool_decisions dict_set dict_get text_eq
five_messages = refl

denials_return : after_denials ≡ returned (or_nothing after_denials)
unfolding process_tool_decisions dict_set dict_get text_eq
denials_return = refl

process_tool_decisions-IsDenied_example :
    IsDenied executor surroundings dumps saved start (or_nothing after_denials)
process_tool_decisions-IsDenied_example =
    process_tool_decisions-IsDenied executor surroundings dumps saved denials conversation start
      (or_nothing after_denials) (refl, (refl, tt)) denials_return

abbrev approval : ToolApprovalDecision
approval = decision_of (codes "1") true

some_pending : pending_tool_calls (add_decisions (approval ∷ []) []) 0 conversation ≢ []
unfolding pending_tool_calls dict_set dict_get text_eq
some_pending e = ground arith

process_tool_decisions-answered_example :
    let d = add_decisions (approval ∷ []) [] in
    process_tool_decisions executor surroundings dumps saved conversation (approval ∷ []) start
    ≡ returned (
        answered executor surroundings dumps saved
          (extract_bash_session_prefixes executor surroundings dumps saved conversation)
          d
          0
          conversation
          start)
process_tool_decisions-answered_example =
    process_tool_decisions-answered executor surroundings dumps saved approval [] conversation start
      some_pending
