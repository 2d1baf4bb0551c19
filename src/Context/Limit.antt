-- ===== src/Context/Limit.antt =====
-- `limit_input_context_window` of holmes/core/truncation/input_context_window_limiter.py.
use canis.Prelude.{
  ℕ, ◌+◌, ◌*◌, ◌≤◌, ◌<◌, ◌≡◌, refl, Bool, true, false, ◌&&◌, ◌⊎◌, inl, inr, Option, none, List, [],
  ◌∷◌, map, ◌-◌, arith, ltb, if◌then◌else◌, Text, codes, Bool-cases,
}
use canis.Tools.Json.{Json, str}
use canis.Tools.Result.{Outcome, returned, raised}
use canis.Context.Message.{Message, bare, TokenCountMetadata, count_tokens, mark}
use canis.Context.Truncate.{
  Limits, TruncationMetadata, truncated, prompts_too_large, truncate_messages_to_fit_context,
  mark_except_tools, size_without_tools, reserved,
}
use canis.Context.Shares.{sum}
use canis.Context.Fair.{IsDivided, truncate_messages_fits}
use canis.Context.Llm.{Llm}
use canis.Context.Compaction.{compact_conversation_history, after_append}

-- The environment variables and the prompt, `str(…)` of a value and the spelling of numbers.
pub record Settings : Type 0 where
  pub compaction_enabled : Bool
  pub compaction_threshold_pct : ℕ
  pub output_reservation : ℕ
  pub instructions : Text
  pub py_str : Json → Text
  pub too_large_message : ℕ → ℕ → ℕ → Text

-- The events of a compaction that was taken, `CONVERSATION_HISTORY_COMPACTED` and `AI_MESSAGE`, with
-- the same text: from how many tokens to how many.
pub data Event : Type 0 where
  compacted_from : ℕ → ℕ → Event
  told_compacted : ℕ → ℕ → Event

pub record ContextWindowLimiterOutput : Type 0 where
  pub events : List Event
  pub messages : List Message
  pub truncations : List TruncationMetadata
  pub tokens : TokenCountMetadata
  pub conversation_history_compacted : Bool

-- After the compaction: the messages, the events and whether it was taken.
pub record Compacted : Type 0 where
  pub kept : List Message
  pub notes : List Event
  pub taken : Bool

pub Outcome-cases :
    {A : Type 0} (o : Outcome A) → ((t : Text) × (o ≡ raised t)) ⊎ ((a : A) × (o ≡ returned a))
Outcome-cases (returned a) = inr (a, refl)
Outcome-cases (raised t) = inl (t, refl)

module _ {T W : Type 0} (llm : Llm T W) (c : Settings) where
  abbrev pub limits : Limits
  limits = record {
    max_output_token_reservation = c.output_reservation;
    py_str = c.py_str;
    count = λ ms. (count_tokens llm.counter ms none).0.total_tokens;
    counted = mark llm.counter;
  }

  -- A compaction is taken if it has fewer tokens.
  unfoldable pub take_if_smaller : ℕ → List Message → List Message → Option T → Compacted
  take_if_smaller initial messages compacted tools =
      let (t, marked) = count_tokens llm.counter compacted tools in
      if ltb t.total_tokens initial
      then record {
        kept = marked;
        notes = compacted_from initial t.total_tokens ∷ told_compacted initial t.total_tokens ∷ [];
        taken = true;
      }
      else record { kept = messages; notes = []; taken = false }

  -- `(initial + maximum_output_token) > (max_context_size * pct / 100)`
  unfoldable pub over_threshold : ℕ → Bool
  over_threshold initial =
      ltb (llm.context_window_size * c.compaction_threshold_pct)
        ((initial + llm.maximum_output_token) * 100)

  -- The list that is kept is the one that `compact_conversation_history` may have appended to.
  unfoldable pub compact_if_needed : ℕ → List Message → Option T → W → Outcome Compacted × W
  unfolding take_if_smaller over_threshold
  compact_if_needed initial messages tools w =
      if c.compaction_enabled && over_threshold initial
      then (let (r, w') = compact_conversation_history llm c.instructions messages w in
          (
            elim r [
              | raised e ↦ raised e
              | returned compacted ↦ returned (
                  take_if_smaller initial
                    (after_append messages (bare (codes "user") (str c.instructions))) compacted
                    tools)
            ],
            w',
          ))
      else (returned (record { kept = messages; notes = []; taken = false }), w)

  -- The last part: count again, and truncate what still does not fit.
  unfoldable pub truncate_if_needed : Compacted → Option T → Outcome ContextWindowLimiterOutput
  truncate_if_needed k tools =
      let (t, marked) = count_tokens llm.counter k.kept tools in
      if ltb llm.context_window_size (t.total_tokens + llm.maximum_output_token)
      then elim (truncate_messages_to_fit_context limits marked llm.context_window_size
          llm.maximum_output_token) [
            | prompts_too_large size window room ↦ raised (c.too_large_message size window room)
            | truncated (cut, truncations) ↦
                let (t', marked') = count_tokens llm.counter cut tools in
                returned (record {
                  events = k.notes;
                  messages = marked';
                  truncations = truncations;
                  tokens = t';
                  conversation_history_compacted = k.taken;
                })
          ]
      else returned (record {
        events = k.notes;
        messages = marked;
        truncations = [];
        tokens = t;
        conversation_history_compacted = k.taken;
      })

  unfoldable pub limit_input_context_window :
      List Message → Option T → W → Outcome ContextWindowLimiterOutput × W
  unfolding compact_if_needed truncate_if_needed
  limit_input_context_window messages tools w =
      let (t, marked) = count_tokens llm.counter messages tools in
      let (r, w') = compact_if_needed t.total_tokens marked tools w in
      (elim r [ raised e ↦ raised e | returned k ↦ truncate_if_needed k tools ], w')

  -- Messages that fit are returned as they are counted. Any other have their tool messages brought
  -- within fair shares of what the rest leaves of the window, and are counted again.
  abbrev pub FitsOrCut : List Message → Option T → ContextWindowLimiterOutput → Type 0
  FitsOrCut kept tools out =
      let (t, marked) = count_tokens llm.counter kept tools in
      let size = size_without_tools limits marked in
      let room = reserved limits llm.maximum_output_token in
      ((out.messages ≡ marked)
        × (out.tokens.total_tokens + llm.maximum_output_token ≤ llm.context_window_size))
      ⊎ ((llm.context_window_size < t.total_tokens + llm.maximum_output_token)
          × ((cut : List Message) × (given : List ℕ) × (size + room + sum given
                ≤ llm.context_window_size)
              × IsDivided limits (map (mark_except_tools limits) marked)
                  (llm.context_window_size - size - room) given cut
              × (out.messages ≡ (count_tokens llm.counter cut tools).1)))

  truncate_if_needed_lem :
      (k : Compacted) (tools : Option T) (out : ContextWindowLimiterOutput)
      → truncate_if_needed k tools ≡ returned out
      → (out.conversation_history_compacted ≡ k.taken)
        × (out.events ≡ k.notes)
        × FitsOrCut k.kept tools out
  unfolding truncate_if_needed
  truncate_if_needed_lem k tools out h =
      let (t, marked) = count_tokens llm.counter k.kept tools in
      elim (Bool-cases (ltb llm.context_window_size (t.total_tokens + llm.maximum_output_token))) [
        | inl e ↦
            elim (truncate_messages_fits limits marked llm.context_window_size
              llm.maximum_output_token) [
                | inl (full, f) ↦ absurd (ground arith)
                | inr (cut, notes, given, f, bound, divided) ↦ (
                  ground arith,
                  ground arith,
                  inr (ground arith, (cut, given, bound, divided, ground arith)),
                )
              ]
        | inr e ↦ (ground arith, ground arith, inl (ground arith, ground arith))
      ]

  -- Where the messages that are kept come from: they are the given ones, perhaps with the prompt of
  -- a compaction at their end, and nothing is reported, or they are those of a compaction with fewer
  -- tokens, which is reported.
  abbrev pub IsSource : List Message → Option T → W → ℕ → List Message → Bool → List Event → Type 0
  IsSource messages tools w initial kept taken events =
      ((taken ≡ false)
        × (events ≡ [])
        × ((kept ≡ messages)
            ⊎ (kept ≡ after_append messages (bare (codes "user") (str c.instructions)))))
      ⊎ ((taken ≡ true)
          × ((compacted : List Message) × (n : ℕ) × ((compact_conversation_history llm
                  c.instructions messages w).0
                ≡ returned compacted)
              × (kept ≡ (count_tokens llm.counter compacted tools).1)
              × (n ≡ (count_tokens llm.counter compacted tools).0.total_tokens)
              × (n < initial)
              × (events ≡ compacted_from initial n ∷ told_compacted initial n ∷ [])))

  compact_if_needed-IsSource :
      (initial : ℕ) (messages : List Message) (tools : Option T) (w : W) (k : Compacted)
      → (compact_if_needed initial messages tools w).0 ≡ returned k
      → IsSource messages tools w initial k.kept k.taken k.notes
  unfolding compact_if_needed take_if_smaller
  compact_if_needed-IsSource initial messages tools w k h =
      elim (Bool-cases (c.compaction_enabled && over_threshold initial)) [
        | inr e ↦ inl (ground arith, ground arith, inl (ground arith))
        | inl e ↦
            elim (Outcome-cases (compact_conversation_history llm c.instructions messages w).0) [
              | inl (t, f) ↦ absurd (ground arith)
              | inr (compacted, f) ↦
                  let n = (count_tokens llm.counter compacted tools).0.total_tokens in
                  elim (Bool-cases (ltb n initial)) [
                    | inl g ↦ inr (
                      ground arith,
                      (compacted, n, f, ground arith, refl, ground arith, ground arith),
                    )
                    | inr g ↦ inl (ground arith, ground arith, inr (ground arith))
                  ]
            ]
      ]

  compact_if_needed_below :
      (initial : ℕ) (messages : List Message) (tools : Option T) (w : W)
      → over_threshold initial ≡ false
      → compact_if_needed initial messages tools w
        ≡ (returned (record { kept = messages; notes = []; taken = false }), w)
  unfolding compact_if_needed
  compact_if_needed_below initial messages tools w e = ground arith

  -- If the call returns: the output fits the window by the model's own count, or its messages did
  -- not fit and their tool messages were brought within fair shares of the window. The messages are
  -- the given ones, or those of a compaction that has fewer tokens, which is then reported. Below
  -- the threshold there is no compaction, and the model is not asked.
  pub limit_input_context_window_lem :
      (messages : List Message) (tools : Option T) (w : W) (out : ContextWindowLimiterOutput)
      → (limit_input_context_window messages tools w).0 ≡ returned out
      → let (t, marked) = count_tokens llm.counter messages tools in
        ((kept : List Message) × IsSource marked tools w t.total_tokens kept
            out.conversation_history_compacted out.events
          × FitsOrCut kept tools out)
        × (over_threshold t.total_tokens ≡ false
            → FitsOrCut marked tools out
              × (out.conversation_history_compacted ≡ false)
              × ((limit_input_context_window messages tools w).1 ≡ w))
  unfolding limit_input_context_window
  limit_input_context_window_lem messages tools w out h =
      let (t, marked) = count_tokens llm.counter messages tools in
      (
        elim (Outcome-cases (compact_if_needed t.total_tokens marked tools w).0) [
          | inl (m, f) ↦ absurd (ground arith)
          | inr (k, f) ↦
              let (same, events, fits) = truncate_if_needed_lem k tools out (ground arith) in
              let source = compact_if_needed-IsSource t.total_tokens marked tools w k f in
              (k.kept, (rw same (rw events source)), fits)
        ],
        λ below.
            let f = compact_if_needed_below t.total_tokens marked tools w below in
            let (same, events, fits) =
              truncate_if_needed_lem (record { kept = marked; notes = []; taken = false }) tools out
                (rw (limit_input_context_window, f) at h) in
            (fits, same, ground arith),
      )
