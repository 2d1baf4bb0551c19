-- ===== src/Context/WindowTests.antt =====
-- The theorems on compaction and on the whole limit at a concrete conversation.
use canis.Prelude.{
  ℕ, ◌+◌, ◌≡◌, refl, true, false, Option, none, some, List, [], ◌∷◌, ◌++◌, codes, length, text_eq,
}
use canis.Tools.Json.{str}
use canis.Tools.Result.{returned}
use canis.Context.Message.{Message, bare, count_tokens, mark}
use canis.Context.Llm.{Llm, Reply}
use canis.Context.Compaction.{
  StartsWithSystem, strip_system_prompt, compact_conversation_history, as_list, compaction_notice,
  IsLastUser, HasNoUser, compact_conversation_history_lem,
}
use canis.Context.Limit.{
  Settings, ContextWindowLimiterOutput, compacted_from, told_compacted, FitsOrCut, IsSource,
  over_threshold, limit_input_context_window, limit_input_context_window_lem,
}

abbrev question : Message
question = bare (codes "user") (str (codes "why?"))

abbrev answer : Message
answer = bare (codes "assistant") (str (codes "so far: nothing"))

abbrev found : Message
found = bare (codes "tool") (str (codes "ok"))

abbrev reply : Reply
reply = record { message = answer; requested = []; text = some (codes "so far: nothing") }

-- Counts messages, has room for six, and counts its calls.
abbrev llm : Llm (Unit {0}) ℕ
llm = record {
  counter = record { count_messages = λ ms. length ms; count_with_tools = λ ms t. length ms };
  context_window_size = 6;
  maximum_output_token = 1;
  completion = λ ms tools w. (returned (some reply), w + 1);
}

abbrev settings : Settings
settings = record {
  compaction_enabled = true;
  compaction_threshold_pct = 50;
  output_reservation = 5;
  instructions = codes "Summarize.";
  py_str = λ v. [];
  too_large_message = λ a b c. [];
}

abbrev conversation : List Message
conversation = question ∷ found ∷ found ∷ found ∷ found ∷ []

compact_conversation_history_example :
    let prompt = bare (codes "user") (str (codes "Summarize.")) in
    let (rest, system) = strip_system_prompt conversation in
    let (r, w') = llm.completion (rest ++ prompt ∷ []) none 0 in
    StartsWithSystem conversation system
    × (r ≡ returned none
        → compact_conversation_history llm (codes "Summarize.") conversation 0
          ≡ (returned conversation, w'))
    × ((made : Reply)
        → r ≡ returned (some made)
        → (user : Option Message) × (compact_conversation_history llm
              (codes "Summarize.")
              conversation
              0
            ≡ (
              returned
                  (as_list system ++ (as_list user ++ (made.message ∷ compaction_notice ∷ []))),
              w',
            ))
          × ((m : Message) → user ≡ some m → IsLastUser m conversation)
          × (user ≡ none → HasNoUser conversation))
compact_conversation_history_example =
    compact_conversation_history_lem llm (codes "Summarize.") question
      (found ∷ found ∷ found ∷ found ∷ []) 0

abbrev output : ContextWindowLimiterOutput
output = record {
  events = compacted_from 5 3 ∷ told_compacted 5 3 ∷ [];
  messages = (count_tokens llm.counter (question ∷ answer ∷ compaction_notice ∷ []) none).1;
  truncations = [];
  tokens = (count_tokens llm.counter (question ∷ answer ∷ compaction_notice ∷ []) none).0;
  conversation_history_compacted = true;
}

compacts : (limit_input_context_window llm settings conversation none 0).0 ≡ returned output
unfolding limit_input_context_window compact_conversation_history count_tokens mark text_eq
compacts = refl

limit_input_context_window_example :
    let (t, marked) = count_tokens llm.counter conversation none in
    ((kept : List Message) × IsSource llm settings marked none 0 t.total_tokens kept
        output.conversation_history_compacted output.events
      × FitsOrCut llm settings kept none output)
    × (over_threshold llm settings t.total_tokens ≡ false
        → FitsOrCut llm settings marked none output
          × (output.conversation_history_compacted ≡ false)
          × ((limit_input_context_window llm settings conversation none 0).1 ≡ 0))
limit_input_context_window_example =
    limit_input_context_window_lem llm settings conversation none 0 output compacts
