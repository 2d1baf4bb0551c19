-- ===== src/Agent/Decided.antt =====
-- What the user's answers to waiting tool calls do (holmes/core/tool_calling_llm.py,
-- `process_tool_decisions`).
use canis.Prelude.{
  ℕ, suc, ◌≡◌, ◌≢◌, refl, ap, ◌∙◌, ◌⊎◌, inl, inr, List, [], ◌∷◌, ◌++◌, map, length, All, Bool-cases,
  Text, Dict,
}
use canis.Tools.Result.{returned}
use canis.Context.Message.{Message, is_role}
use canis.Agent.Size.{ToolCallResult}
use canis.Agent.Invoke.{Executor, AgentState}
use canis.Agent.Loop.{Surroundings}
use canis.Agent.Decisions.{
  ToolApprovalDecision, RequestedCall, Entry, ToolCallWithDecision, Processed, add_decisions,
  pending_in, pending_of, pending_tool_calls, without_pending, insert_at,
  extract_bash_session_prefixes, answer, answer_message, answer_all, process_tool_decisions,
}

pub List-cases :
    {A : Type 0} (xs : List A) → (xs ≡ []) ⊎ ((y : A) × ((ys : List A) × (xs ≡ y ∷ ys)))
List-cases [] = inl refl
List-cases (y ∷ ys) = inr (y, (ys, refl))

pending_in-indices :
    (d : Dict ToolApprovalDecision) (i : ℕ) (calls : List RequestedCall)
    → All (λ p. p.message_index ≡ i) (pending_in d i calls)
unfolding pending_in
pending_in-indices d i [] = tt
pending_in-indices d i (call ∷ calls) = elim (Bool-cases call.pending_approval) [
  | inl e ↦ rw e (refl, pending_in-indices d i calls)
  | inr e ↦ rw e (pending_in-indices d i calls)
]

pending_of-indices :
    (d : Dict ToolApprovalDecision) (i : ℕ) (e : Entry)
    → All (λ p. p.message_index ≡ i) (pending_of d i e)
unfolding pending_of
pending_of-indices d i e = elim (Bool-cases (is_role "assistant" e.message)) [
  | inl h ↦ rw h (pending_in-indices d i e.requested)
  | inr h ↦ rw h tt
]

module _ {P T S : Type 0} (x : Executor P S) (c : Surroundings P T S)
    (dumps : List Text → Text → Text → Text) (saved : Message → List Text) where
  -- The answers to the calls of one message, the last one first, before those that are there.
  abbrev pub answers_here :
      List Text → List ToolCallWithDecision → List Entry → AgentState S → Processed P S
  answers_here prefixes [] there a = record { messages = there; results = []; state = a }
  answers_here prefixes (p ∷ ps) there a =
      let (r, a') = answer x c dumps saved prefixes p a in
      let rest = answers_here prefixes ps (answer_message x c dumps saved p r ∷ there) a' in
      record rest { results = r ∷ rest.results }

  -- The conversation as it should be: each message is followed by the answers to its calls.
  abbrev pub answered :
      List Text → Dict ToolApprovalDecision → ℕ → List Entry → AgentState S → Processed P S
  answered prefixes d i [] a = record { messages = []; results = []; state = a }
  answered prefixes d i (e ∷ es) a =
      let later = answered prefixes d (suc i) es a in
      let here = answers_here prefixes (pending_of d i e) [] later.state in
      record {
        messages = without_pending e ∷ (here.messages ++ later.messages);
        results = later.results ++ here.results;
        state = here.state;
      }

  abbrev add_result : ToolCallResult P → Processed P S → Processed P S
  add_result r t = record t { results = r ∷ t.results }

  insert_at_end :
      (pre : List Entry) (e n : Entry) (es : List Entry)
      → insert_at (suc (length pre)) n (pre ++ e ∷ es) ≡ pre ++ e ∷ n ∷ es
  unfolding insert_at
  insert_at_end [] e n es = refl
  insert_at_end (y ∷ pre) e n es = ap (λ t. y ∷ t) (insert_at_end pre e n es)

  -- `answer_all` on the calls of one message
  answer_all_here :
      (prefixes : List Text) (pre : List Entry) (e : Entry) (ps : List ToolCallWithDecision)
      (there es : List Entry) (a : AgentState S)
      → All (λ p. p.message_index ≡ length pre) ps
      → let here = answers_here prefixes ps there a in
        answer_all x c dumps saved prefixes ps (pre ++ e ∷ (there ++ es)) a
        ≡ record here { messages = pre ++ e ∷ (here.messages ++ es) }
  unfolding answer_all
  answer_all_here prefixes pre e [] there es a all = refl
  answer_all_here prefixes pre e (p ∷ ps) there es a (same, all) =
      let (r, a') = answer x c dumps saved prefixes p a in
      let n = answer_message x c dumps saved p r in
      let placed : insert_at (suc p.message_index) n (pre ++ e ∷ (there ++ es))
          ≡ pre ++ e ∷ n ∷ (there ++ es) =
        rw same (insert_at_end pre e n (there ++ es)) in
      let rest = answer_all_here prefixes pre e ps (n ∷ there) es a' all in
      ap (λ (m : List Entry). add_result r (answer_all x c dumps saved prefixes ps m a')) placed
      ∙ ap (λ (t : Processed P S). add_result r t) rest

  -- The calls of later messages leave the earlier ones, and come first.
  answer_all_append :
      (prefixes : List Text) (ps qs : List ToolCallWithDecision) (es : List Entry)
      (a : AgentState S)
      → let first = answer_all x c dumps saved prefixes ps es a in
        let second = answer_all x c dumps saved prefixes qs first.messages first.state in
        answer_all x c dumps saved prefixes (ps ++ qs) es a
        ≡ record second { results = first.results ++ second.results }
  unfolding answer_all
  answer_all_append prefixes [] qs es a = refl
  answer_all_append prefixes (p ∷ ps) qs es a =
      let (r, a') = answer x c dumps saved prefixes p a in
      let n = answer_message x c dumps saved p r in
      ap (λ (t : Processed P S). add_result r t)
        (answer_all_append prefixes ps qs (insert_at (suc p.message_index) n es) a')

  length-snoc : (pre : List Entry) (e : Entry) → length (pre ++ e ∷ []) ≡ suc (length pre)
  length-snoc [] e = refl
  length-snoc (y ∷ pre) e = ap suc (length-snoc pre e)

  snoc_append :
      (pre : List Entry) (e : Entry) (es : List Entry) → (pre ++ e ∷ []) ++ es ≡ pre ++ e ∷ es
  snoc_append [] e es = refl
  snoc_append (y ∷ pre) e es = ap (λ t. y ∷ t) (snoc_append pre e es)

  abbrev after : List Entry → Processed P S → Processed P S
  after pre t = record t { messages = pre ++ t.messages }

  -- The claim for the messages that follow `pre`.
  abbrev IsAnswered :
      List Text → Dict ToolApprovalDecision → List Entry → List Entry → AgentState S → Type 0
  IsAnswered prefixes d pre es a =
      answer_all x c dumps saved prefixes (pending_tool_calls d (length pre) es)
        (pre ++ map without_pending es) a
      ≡ after pre (answered prefixes d (length pre) es a)

  later_answered :
      (prefixes : List Text) (d : Dict ToolApprovalDecision) (pre : List Entry) (e : Entry)
      (es : List Entry) (a : AgentState S)
      → IsAnswered prefixes d (pre ++ e ∷ []) es a
      → answer_all x c dumps saved prefixes
          (pending_tool_calls d (suc (length pre)) es)
          (pre ++ e ∷ map without_pending es)
          a
        ≡ after pre (
            let later = answered prefixes d (suc (length pre)) es a in
            record later { messages = e ∷ later.messages })
  later_answered prefixes d pre e es a h = rw (← length-snoc pre e) (
      rw (← snoc_append pre e (map without_pending es)) (
        h
        ∙ ap
            (λ (m : List Entry). record (answered prefixes d (length (pre ++ e ∷ [])) es a) {
              messages = m;
            })
            (snoc_append pre e (answered prefixes d (length (pre ++ e ∷ [])) es a).messages)))

  answer_all-IsAnswered :
      (prefixes : List Text) (d : Dict ToolApprovalDecision) (pre es : List Entry)
      (a : AgentState S)
      → IsAnswered prefixes d pre es a
  unfolding answer_all pending_tool_calls
  answer_all-IsAnswered prefixes d pre [] a = refl
  answer_all-IsAnswered prefixes d pre (e ∷ es) a =
      let here = pending_of d (length pre) e in
      let later = answered prefixes d (suc (length pre)) es a in
      let first =
        later_answered prefixes d pre (without_pending e) es a
          (answer_all-IsAnswered prefixes d (pre ++ without_pending e ∷ []) es a) in
      answer_all_append prefixes (pending_tool_calls d (suc (length pre)) es) here
        (pre ++ without_pending e ∷ map without_pending es) a
      ∙ rw first (
          ap (λ (t : Processed P S). record t { results = later.results ++ t.results })
            (answer_all_here prefixes pre (without_pending e) here [] later.messages later.state
              (pending_of-indices d (length pre) e)))

  -- When there are decisions and a call waits for an approval, the code, which inserts each answer at
  -- an index, gives what it should: from the last message to the first, each message is followed by
  -- the answers to its own waiting calls, the last call's answer first, and no call is pending any
  -- more.
  pub process_tool_decisions-answered :
      (t : ToolApprovalDecision) (ts : List ToolApprovalDecision) (messages : List Entry)
      (a : AgentState S)
      → pending_tool_calls (add_decisions (t ∷ ts) []) 0 messages ≢ []
      → process_tool_decisions x c dumps saved messages (t ∷ ts) a
        ≡ returned (
            answered
              (extract_bash_session_prefixes x c dumps saved messages)
              (add_decisions (t ∷ ts) [])
              0
              messages
              a)
  unfolding process_tool_decisions
  process_tool_decisions-answered t ts messages a some_pending =
      let d = add_decisions (t ∷ ts) [] in
      let prefixes = extract_bash_session_prefixes x c dumps saved messages in
      let done = answer_all-IsAnswered prefixes d [] messages a in
      elim (List-cases (pending_tool_calls d 0 messages)) [
        | inl e ↦ absurd (some_pending e)
        | inr (p, (ps, e)) ↦ rw (process_tool_decisions, e) (ap returned (rw e at done))
      ]
