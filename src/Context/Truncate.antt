-- ===== src/Context/Truncate.antt =====
-- `_truncate_tool_message` and `truncate_messages_to_fit_context` of
-- holmes/core/truncation/input_context_window_limiter.py. The list of tool messages and the list of
-- all messages share their dicts: a tool message is a reference, its place among all messages.
use canis.Prelude.{
  ℕ, zero, suc, ◌+◌, ◌-◌, min, not, none, some, List, [], ◌∷◌, ◌++◌, map, ltb, leb, if◌then◌else◌,
  keep_if, length, get_elem?, take, Text, codes,
}
use canis.Tools.Json.{Json, str}
use canis.Context.Message.{Message, bare, is_role}
use canis.Context.Shares.{share}

abbrev pub truncation_notice : Text
truncation_notice = codes "\n\n[TRUNCATED]"

pub record TruncationMetadata : Type 0 where
  pub tool_call_id : Text
  pub start_index : ℕ
  pub end_index : ℕ
  pub tool_name : Text
  pub original_token_count : ℕ

-- `MAX_OUTPUT_TOKEN_RESERVATION`, `str(…)` of content that is no text, the count of a list of
-- messages (`count_tokens_fn(…).total_tokens`), and what the count leaves in each message.
pub record Limits : Type 0 where
  pub max_output_token_reservation : ℕ
  pub py_str : Json → Text
  pub count : List Message → ℕ
  pub counted : Message → Message

-- A write through a reference.
abbrev pub set : List Message → ℕ → Message → List Message
set [] i m = []
set (x ∷ xs) zero m = m ∷ xs
set (x ∷ xs) (suc i) m = x ∷ set xs i m

-- `TruncationResult`, or the exception for prompts that leave no room, with its three numbers.
pub data TruncationOutcome : Type 0 where
  truncated : List Message × List TruncationMetadata → TruncationOutcome
  prompts_too_large : ℕ → ℕ → ℕ → TruncationOutcome

module _ (l : Limits) where
  -- `content if isinstance(content, str) else str(content)`
  unfoldable pub content_text : Json → Text
  content_text content = elim content [ str s ↦ s | other ↦ l.py_str other ]

  unfoldable pub truncated_text : Text → ℕ → Text
  truncated_text original allocated =
      if ltb (length truncation_notice) allocated
      then take (allocated - length truncation_notice) original ++ truncation_notice
      else take allocated truncation_notice

  unfoldable pub end_index_of : ℕ → ℕ
  end_index_of allocated =
      if ltb (length truncation_notice) allocated
      then allocated - length truncation_notice
      else allocated

  unfoldable pub truncate_tool_message : Message → ℕ → ℕ → Message × TruncationMetadata
  unfolding content_text truncated_text end_index_of
  truncate_tool_message msg allocated needed = (
    record msg {
      content = str (truncated_text (content_text msg.content) allocated);
      token_count = none;
    },
    record {
      tool_call_id = msg.tool_call_id;
      start_index = 0;
      end_index = end_index_of allocated;
      tool_name = msg.tool_name;
      original_token_count = needed;
    },
  )

  -- `count_tokens_fn([{"role": "tool", "content": content}]).total_tokens`
  unfoldable pub needed_space : Message → ℕ
  needed_space msg = l.count (bare (codes "tool") msg.content ∷ [])

  -- the places of the tool messages, in order
  unfoldable pub tool_refs : List Message → List ℕ
  tool_refs [] = []
  tool_refs (m ∷ ms) =
      let rest = map suc (tool_refs ms) in if is_role "tool" m then 0 ∷ rest else rest

  abbrev pub size_at : List Message → ℕ → ℕ
  size_at ms r = elim (get_elem? ms r) [ none ↦ 0 | some m ↦ needed_space m ]

  -- `list.sort(key=…)`, which is stable
  unfoldable pub insert_by : (ℕ → ℕ) → ℕ → List ℕ → List ℕ
  insert_by key r [] = r ∷ []
  insert_by key r (x ∷ xs) =
      let rest = insert_by key r xs in if leb (key r) (key x) then r ∷ x ∷ xs else x ∷ rest

  unfoldable pub sort_by : (ℕ → ℕ) → List ℕ → List ℕ
  unfolding insert_by
  sort_by key [] = []
  sort_by key (r ∷ rs) = insert_by key r (sort_by key rs)

  -- A message after its turn: cut down if it needs more than it is given.
  unfoldable pub cut : Message → ℕ → Message
  unfolding truncate_tool_message needed_space
  cut msg allocated =
      if ltb allocated (needed_space msg)
      then (truncate_tool_message msg allocated (needed_space msg)).0
      else msg

  abbrev pub note : Message → ℕ → List TruncationMetadata → List TruncationMetadata
  note msg allocated truncations =
      if ltb allocated (needed_space msg)
      then truncations ++ (truncate_tool_message msg allocated (needed_space msg)).1 ∷ []
      else truncations

  -- The loop, over the sorted references: what is left of the space, the messages, the report.
  unfoldable pub allocate :
      List ℕ → ℕ → List Message → List TruncationMetadata → List Message × List TruncationMetadata
  unfolding cut
  allocate [] remaining messages truncations = (messages, truncations)
  allocate (r ∷ rs) remaining messages truncations = elim (get_elem? messages r) [
    | none ↦ allocate rs remaining messages truncations
    | some msg ↦
        let allocated = share (needed_space msg) remaining (length rs) in
        allocate rs (remaining - allocated) (set messages r (cut msg allocated))
          (note msg allocated truncations)
  ]

  -- `count_tokens_fn(messages_except_tools)` writes its counts into the messages that it is given.
  unfoldable pub mark_except_tools : Message → Message
  mark_except_tools m = if is_role "tool" m then m else l.counted m

  unfoldable pub size_without_tools : List Message → ℕ
  size_without_tools messages = l.count (keep_if (λ m. not (is_role "tool" m)) messages)

  abbrev pub reserved : ℕ → ℕ
  reserved maximum_output_token = min maximum_output_token l.max_output_token_reservation

  -- Sort, divide, cut.
  unfoldable pub truncate_tools : List Message → ℕ → List Message × List TruncationMetadata
  unfolding allocate tool_refs sort_by needed_space
  truncate_tools messages available =
      allocate (sort_by (size_at messages) (tool_refs messages)) available messages []

  unfoldable pub truncate_messages_to_fit_context : List Message → ℕ → ℕ → TruncationOutcome
  unfolding truncate_tools mark_except_tools size_without_tools
  truncate_messages_to_fit_context messages max_context_size maximum_output_token =
      let size = size_without_tools messages in
      let room = reserved maximum_output_token in
      let marked = map mark_except_tools messages in
      if leb max_context_size (size + room)
      then prompts_too_large size max_context_size room
      else truncated (truncate_tools marked (max_context_size - size - room))
