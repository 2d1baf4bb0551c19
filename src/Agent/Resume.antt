-- ===== src/Agent/Resume.antt =====
-- A stream that stops for approvals can go on (holmes/core/tool_calling_llm.py: the end of a round of
-- `call_stream` and `process_tool_decisions`).
use canis.Prelude.{
  ℕ, suc, Bool, true, ◌≡◌, refl, ◌∙◌, inl, inr, Option, some, List, [], ◌∷◌, ◌++◌, map, arith, All,
  Any, implied, Bool-cases, Text, codes, Dict,
}
use canis.Tools.Result.{returned}
use canis.Context.Message.{Message, is_role}
use canis.Context.Llm.{Reply}
use canis.Agent.Size.{ToolCallResult}
use canis.Agent.Invoke.{Executor, AgentState}
use canis.Agent.Loop.{Surroundings}
use canis.Agent.Decisions.{
  ToolApprovalDecision, RequestedCall, Entry, ToolCallWithDecision, Processed, add_decisions,
  pending_in, pending_of, pending_tool_calls, without_pending, is_approved, insert_at,
  extract_bash_session_prefixes, answer, answer_message, answer_all, process_tool_decisions,
}
use canis.Agent.Decided.{List-cases}
use canis.Agent.Stream.{
  StreamEvent, limiter_event, token_count, ai_message, start_tool, tool_result, answer_end,
  approvals_required, calls_of, mark_all,
}
use canis.Agent.StreamLoop.{prompt, stream, decided, call_stream}
use canis.Agent.Protocol.{invoke_call_id}
use canis.Agent.Marks.{IsPending, Waits, mark_all-Waits}

-- The pending call is among those that the decisions are applied to.
abbrev IsFor : Text → ToolCallWithDecision → Type 0
IsFor id p = p.tool_call.id ≡ id

Any-append-left : {A : Type 0} (Q : A → Type 0) (xs ys : List A) → Any Q xs → Any Q (xs ++ ys)
Any-append-left Q [] ys h = absurd h
Any-append-left Q (x ∷ xs) ys (inl h) = inl h
Any-append-left Q (x ∷ xs) ys (inr h) = inr (Any-append-left Q xs ys h)

Any-append-right : {A : Type 0} (Q : A → Type 0) (xs ys : List A) → Any Q ys → Any Q (xs ++ ys)
Any-append-right Q [] ys h = h
Any-append-right Q (x ∷ xs) ys h = inr (Any-append-right Q xs ys h)

pending_in-IsFor :
    (id : Text) (d : Dict ToolApprovalDecision) (i : ℕ) (cs : List RequestedCall)
    → Any (IsPending id) cs
    → Any (IsFor id) (pending_in d i cs)
unfolding pending_in
pending_in-IsFor id d i [] waits = waits
pending_in-IsFor id d i (c ∷ cs) waits = elim (Bool-cases c.pending_approval) [
  | inl e ↦
      rw e (elim waits [ inl (named, w) ↦ inl named | inr w ↦ inr (pending_in-IsFor id d i cs w) ])
  | inr e ↦
      rw e (elim waits [
        | inl (named, w) ↦ absurd (ground arith)
        | inr w ↦ pending_in-IsFor id d i cs w
      ])
]

pending_of-IsFor :
    (id : Text) (d : Dict ToolApprovalDecision) (i : ℕ) (e : Entry)
    → Any (IsPending id) (calls_of e)
    → Any (IsFor id) (pending_of d i e)
unfolding pending_of
pending_of-IsFor id d i e waits = elim (Bool-cases (is_role "assistant" e.message)) [
  | inl h ↦ rw h (pending_in-IsFor id d i e.requested (rw h at waits))
  | inr h ↦ absurd (rw h at waits)
]

pending_tool_calls-IsFor :
    (id : Text) (d : Dict ToolApprovalDecision) (i : ℕ) (es : List Entry)
    → Waits id es
    → Any (IsFor id) (pending_tool_calls d i es)
unfolding pending_tool_calls
pending_tool_calls-IsFor id d i [] waits = waits
pending_tool_calls-IsFor id d i (e ∷ es) (inl w) =
    Any-append-right (IsFor id) (pending_tool_calls d (suc i) es) (pending_of d i e)
      (pending_of-IsFor id d i e w)
pending_tool_calls-IsFor id d i (e ∷ es) (inr w) =
    Any-append-left (IsFor id) (pending_tool_calls d (suc i) es) (pending_of d i e)
      (pending_tool_calls-IsFor id d (suc i) es w)

module _ {P T S : Type 0} (x : Executor P S) (c : Surroundings P T S)
    (dumps : List Text → Text → Text → Text) (saved : Message → List Text)
    (reasoning : Reply → Option Text) where
  -- The result of an answer is about the call that waited.
  answer_call_id :
      (prefixes : List Text) (p : ToolCallWithDecision) (a : AgentState S)
      → (answer x c dumps saved prefixes p a).0.call_id ≡ p.tool_call.id
  unfolding answer
  answer_call_id prefixes p a = elim (Bool-cases (is_approved p.decision)) [
    | inl e ↦
        rw (answer, e)
          (invoke_call_id x c dumps saved reasoning
            (record {
              id = p.tool_call.id;
              function = some (p.tool_call.name, p.tool_call.arguments);
            })
            [] true prefixes a)
    | inr e ↦ rw (answer, e) refl
  ]

  -- A result is about the call with the identifier.
  abbrev pub IsAbout : Text → ToolCallResult P → Type 0
  IsAbout id r = r.call_id ≡ id

  answer_all-IsAbout :
      (id : Text) (prefixes : List Text) (ps : List ToolCallWithDecision) (es : List Entry)
      (a : AgentState S)
      → Any (IsFor id) ps
      → Any (IsAbout id) (answer_all x c dumps saved prefixes ps es a).results
  unfolding answer_all
  answer_all-IsAbout id prefixes [] es a h = h
  answer_all-IsAbout id prefixes (p ∷ ps) es a h =
      let (r, a') = answer x c dumps saved prefixes p a in
      elim h [
        | inl e ↦ inl (answer_call_id prefixes p a ∙ e)
        | inr g ↦ inr (
            answer_all-IsAbout id prefixes ps
              (insert_at (suc p.message_index) (answer_message x c dumps saved p r) es) a' g)
      ]

  -- An event is the result of the call with the identifier.
  abbrev pub IsResultOf : Text → StreamEvent P → Type 0
  IsResultOf id (tool_result r) = r.call_id ≡ id
  IsResultOf id (limiter_event e) = ⊥
  IsResultOf id (token_count t) = ⊥
  IsResultOf id (ai_message t) = ⊥
  IsResultOf id (start_tool name i) = ⊥
  IsResultOf id (answer_end t es) = ⊥
  IsResultOf id (approvals_required es rs) = ⊥

  map-IsResultOf :
      (id : Text) (rs : List (ToolCallResult P))
      → Any (IsAbout id) rs
      → Any (IsResultOf id) (map tool_result rs)
  map-IsResultOf id [] h = h
  map-IsResultOf id (r ∷ rs) (inl h) = inl h
  map-IsResultOf id (r ∷ rs) (inr h) = inr (map-IsResultOf id rs h)

  -- A call that waits gets a result, when there are decisions.
  decided-IsAbout :
      (id : Text) (es : List Entry) (t : ToolApprovalDecision) (ts : List ToolApprovalDecision)
      (a : AgentState S)
      → Waits id es
      → (p : Processed P S) × ((decided x c dumps saved reasoning es (t ∷ ts) a ≡ returned p)
          × Any (IsAbout id) p.results)
  unfolding process_tool_decisions
  decided-IsAbout id [] t ts a waits = absurd waits
  decided-IsAbout id (e ∷ es) t ts a waits =
      let d = add_decisions (t ∷ ts) [] in
      let found = pending_tool_calls-IsFor id d 0 (e ∷ es) waits in
      let prefixes = extract_bash_session_prefixes x c dumps saved (e ∷ es) in
      elim (List-cases (pending_tool_calls d 0 (e ∷ es))) [
        | inl f ↦ absurd (rw f at found)
        | inr (p, (ps, f)) ↦ (
          answer_all x c dumps saved prefixes (p ∷ ps) (map without_pending (e ∷ es)) a,
          (
            rw (process_tool_decisions, f) refl,
            answer_all-IsAbout id prefixes (p ∷ ps) (map without_pending (e ∷ es)) a
                (rw f at found),
          ),
        )
      ]

  resumed :
      (id : Text) (formatted enable_tool_approval : Bool) (max_steps : ℕ)
      (system_prompt user_prompt : Option Text) (es : List Entry) (t : ToolApprovalDecision)
      (ts : List ToolApprovalDecision) (a : AgentState S)
      → Waits id es
      → Any
          (IsResultOf id)
          (call_stream x c dumps saved reasoning formatted enable_tool_approval max_steps
            system_prompt user_prompt es
            (t ∷ ts)
            a).events
  unfolding call_stream
  resumed id formatted enable max_steps system_prompt user_prompt es t ts a waits =
      let (p, (f, found)) = decided-IsAbout id es t ts a waits in
      let more =
        stream x c dumps saved reasoning formatted enable max_steps
          (prompt x c dumps saved reasoning system_prompt (codes "system")
            ++ (prompt x c dumps saved reasoning user_prompt (codes "user") ++ p.messages))
          p.state in
      rw (call_stream, f)
        (Any-append-left (IsResultOf id) (map tool_result p.results) more.events
          (map-IsResultOf id p.results found))

  -- A conversation that a stream leaves with calls marked for an approval can go on: whatever the
  -- decisions are, if there is one, the next stream has a result of every marked call.
  pub call_stream-mark_all :
      (formatted enable_tool_approval : Bool) (max_steps : ℕ)
      (system_prompt user_prompt : Option Text) (rs : List (ToolCallResult P))
      (messages marked : List Entry) (t : ToolApprovalDecision) (ts : List ToolApprovalDecision)
      (a : AgentState S)
      → mark_all rs messages ≡ returned marked
      → All
          (λ r.
            Any
              (IsResultOf r.call_id)
              (call_stream x c dumps saved reasoning formatted enable_tool_approval max_steps
                system_prompt user_prompt marked
                (t ∷ ts)
                a).events)
          rs
  call_stream-mark_all formatted enable max_steps system_prompt user_prompt rs messages marked t ts
        a h =
      implied
        (λ r. resumed r.call_id formatted enable max_steps system_prompt user_prompt marked t ts a)
        rs (mark_all-Waits rs messages marked h)
