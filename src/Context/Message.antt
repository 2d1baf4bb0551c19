-- ===== src/Context/Message.antt =====
-- A message of the conversation, and `DefaultLLM.count_tokens` (holmes/core/llm.py).
use canis.Prelude.{
  ℕ, ◌+◌, ◌-◌, ◌≡◌, refl, Bool, Option, none, some, List, [], ◌∷◌, map, arith, if◌then◌else◌,
  String, Text, codes, text_eq,
}
use canis.Tools.Json.{Json, null}

-- The keys that the sources read. A message without an identifier or a name holds an empty text.
pub record Message : Type 0 where
  pub role : Text
  pub content : Json
  pub tool_call_id : Text
  pub tool_name : Text
  pub tool_calls : Json
  pub token_count : Option ℕ

-- `{"role": role, "content": content}`
abbrev pub bare : Text → Json → Message
bare role content = record {
  role = role;
  content = content;
  tool_call_id = [];
  tool_name = [];
  tool_calls = null;
  token_count = none;
}

abbrev pub is_role : String → Message → Bool
is_role role m = text_eq m.role (codes role)

pub record TokenCountMetadata : Type 0 where
  pub total_tokens : ℕ
  pub tools_tokens : ℕ
  pub system_tokens : ℕ
  pub user_tokens : ℕ
  pub tools_to_call_tokens : ℕ
  pub assistant_tokens : ℕ
  pub other_tokens : ℕ

-- `litellm.token_counter`: over messages, and over messages with the tools.
pub record Counter (T : Type 0) : Type 0 where
  pub count_messages : List Message → ℕ
  pub count_with_tools : List Message → T → ℕ

module _ {T : Type 0} (counter : Counter T) where
  abbrev pub one_count : Message → ℕ
  one_count m = counter.count_messages (m ∷ [])

  -- `message["token_count"] = token_count`
  unfoldable pub mark : Message → Message
  mark m = record m { token_count = some (one_count m) }

  unfoldable pub add_message : Message → TokenCountMetadata → TokenCountMetadata
  add_message m t =
      let n = one_count m in
      if is_role "system" m
      then record t { system_tokens = t.system_tokens + n }
      else if is_role "user" m
      then record t { user_tokens = t.user_tokens + n }
      else if is_role "tool" m
      then record t { tools_tokens = t.tools_tokens + n }
      else if is_role "assistant" m
      then record t { assistant_tokens = t.assistant_tokens + n }
      else record t { other_tokens = t.other_tokens + n }

  unfoldable pub add_messages : List Message → TokenCountMetadata → TokenCountMetadata
  unfolding add_message
  add_messages [] t = t
  add_messages (m ∷ ms) t = add_messages ms (add_message m t)

  abbrev pub total_count : List Message → Option T → ℕ
  total_count ms none = counter.count_messages ms
  total_count ms (some tools) = counter.count_with_tools ms tools

  abbrev pub zero_counts : TokenCountMetadata
  zero_counts = record {
    total_tokens = 0;
    tools_tokens = 0;
    system_tokens = 0;
    user_tokens = 0;
    tools_to_call_tokens = 0;
    assistant_tokens = 0;
    other_tokens = 0;
  }

  -- The counts, and the messages as the call leaves them.
  unfoldable pub count_tokens : List Message → Option T → TokenCountMetadata × List Message
  unfolding mark add_messages
  count_tokens messages tools =
      let marked = map mark messages in
      let total = total_count marked tools in
      let t = add_messages messages zero_counts in
      (
        record t {
          total_tokens = total;
          tools_to_call_tokens = total - counter.count_messages marked;
        },
        marked,
      )

  abbrev pub by_role : TokenCountMetadata → ℕ
  by_role t = t.system_tokens + t.user_tokens + t.tools_tokens + t.assistant_tokens + t.other_tokens

  abbrev pub sum_counts : List Message → ℕ
  sum_counts [] = 0
  sum_counts (m ∷ ms) = one_count m + sum_counts ms

  add_message-by_role :
      (m : Message) (t : TokenCountMetadata) → by_role (add_message m t) ≡ by_role t + one_count m
  unfolding add_message
  add_message-by_role m t = ground arith

  add_messages-by_role :
      (ms : List Message) (t : TokenCountMetadata)
      → by_role (add_messages ms t) ≡ by_role t + sum_counts ms
  unfolding add_messages
  add_messages-by_role [] t = omega arith
  add_messages-by_role (m ∷ ms) t =
      omega (arith, add_messages-by_role ms (add_message m t), add_message-by_role m t)

  -- Every message is counted under exactly one role: the five counts add up to the sum of the
  -- messages' own counts, and the call marks each message with its own count.
  pub count_tokens-by_role :
      (messages : List Message) (tools : Option T)
      → (by_role (count_tokens messages tools).0 ≡ sum_counts messages)
        × ((count_tokens messages tools).1 ≡ map mark messages)
  unfolding count_tokens
  count_tokens-by_role messages tools =
      (omega (arith, add_messages-by_role messages zero_counts), refl)
