-- ===== src/Agent/LoopTests.antt =====
-- The theorems on the agent's loop at a concrete model.
use canis.Prelude.{
  ℕ, suc, true, false, ◌==◌, ◌≡◌, refl, none, some, List, [], ◌∷◌, if◌then◌else◌, codes, length,
  text_eq,
}
use canis.Tools.Json.{str}
use canis.Tools.Result.{Outcome, returned, raised}
use canis.Tools.Invoke.{invoke}
use canis.Context.Message.{Message, bare, count_tokens}
use canis.Context.Llm.{Llm, Reply}
use canis.Context.Limit.{limit_input_context_window}
use canis.Agent.Safeguards.{prevent_overly_repeated_tool_call}
use canis.Agent.Size.{prevent_overly_big_tool_response}
use canis.Agent.Loop.{Surroundings, LlmResult, call}
use canis.Agent.Approval.{swapped}
use canis.Agent.Denied.{call-denied}
use canis.Agent.Invoke.{Executor, AgentState, invoke_llm_tool_call, handle_tool_call_approval}
use canis.Agent.Tests.{removal, executor, start, is_remove, remove_asks, says_no_denies}

abbrev asks_for_remove : Reply
asks_for_remove = record {
  message = bare (codes "assistant") (str []);
  requested = removal ∷ [];
  text = none;
}

abbrev gives_up : Reply
gives_up = record {
  message = bare (codes "assistant") (str (codes "denied"));
  requested = [];
  text = some (codes "denied");
}

abbrev llm : Llm ℕ ℕ
llm = record {
  counter = record { count_messages = λ ms. length ms; count_with_tools = λ ms t. length ms };
  context_window_size = 100;
  maximum_output_token = 1;
  completion = λ ms tools w. (returned (some gives_up), w);
}

-- The model asks for a removal, and gives up when the conversation goes on.
abbrev pub surroundings : Surroundings ℕ ℕ ℕ
surroundings = record {
  llm = llm;
  settings = record {
    compaction_enabled = true;
    compaction_threshold_pct = 95;
    output_reservation = 5;
    instructions = [];
    py_str = λ v. [];
    too_large_message = λ a b c. [];
  };
  respond = λ formatted ms tools w.
      (if length ms == 1 then returned asks_for_remove else returned gives_up, w);
  get_tools = λ restricted. 2;
  same_length = λ a b. a == b;
  is_incorrect_tool_call = λ r. false;
  is_cancelled = λ w. false;
  arrive = λ rs. rs;
  reset_after_compaction = true;
  dumps_params = λ p. [];
  dumps_metadata = λ name id. [];
}

abbrev question : List Message
question = bare (codes "user") (str (codes "remove it")) ∷ []

abbrev result_of : Outcome (LlmResult ℕ) → LlmResult ℕ
result_of (returned r) = r
result_of (raised e) = record { result = none; tool_calls = []; num_llm_calls = 0; messages = [] }

abbrev outcome : Outcome (LlmResult ℕ)
outcome = (call executor surroundings true 3 question start).0

two_calls : (result_of outcome).num_llm_calls ≡ 2
unfolding call limit_input_context_window count_tokens prevent_overly_repeated_tool_call
    prevent_overly_big_tool_response invoke text_eq invoke_llm_tool_call handle_tool_call_approval
two_calls = refl

returns : outcome ≡ returned (result_of outcome)
unfolding call limit_input_context_window count_tokens prevent_overly_repeated_tool_call
    prevent_overly_big_tool_response invoke text_eq invoke_llm_tool_call handle_tool_call_approval
returns = refl

-- A model that counts its calls in the world, and an agent that has no tools.
abbrev counting : Surroundings ℕ ℕ ℕ
counting = record surroundings {
  llm = record llm { completion = λ ms tools w. (returned (some gives_up), suc w) };
  respond = λ formatted ms tools w.
      (if length ms == 1 then returned asks_for_remove else returned gives_up, suc w);
}

abbrev no_tools : Executor ℕ ℕ
no_tools = record executor {
  get_tool_by_name = λ name. none;
  ensure_toolset_initialized = λ name w. (none, w);
  approval_callback = none;
}

abbrev counted : Outcome (LlmResult ℕ) × AgentState ℕ
counted = call no_tools counting true 3 question start

asked_twice : counted.1.world ≡ 2
unfolding call limit_input_context_window count_tokens prevent_overly_repeated_tool_call
    prevent_overly_big_tool_response invoke text_eq invoke_llm_tool_call handle_tool_call_approval
asked_twice = refl

call-denied_example :
    call (swapped executor is_remove (λ p c s. (raised [], s))) surroundings true 3 question start
    ≡ call executor surroundings true 3 question start
call-denied_example =
    call-denied executor surroundings is_remove (λ p c s. (raised [], s)) remove_asks says_no_denies
      true 3 question start
