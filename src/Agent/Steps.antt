-- ===== src/Agent/Steps.antt =====
-- How many rounds the loop of `call` takes and what an answer is (holmes/core/tool_calling_llm.py).
use canis.Prelude.{
  ℕ, suc, zero, ◌+◌, ◌≤◌, Bool, true, false, ◌&&◌, ◌≡◌, refl, ◌⊎◌, inl, inr, Option, none, List, [],
  ◌∷◌, ◌++◌, if◌then◌else◌, arith, Bool-cases, Text,
}
use canis.Tools.Result.{Outcome, returned, raised}
use canis.Context.Message.{Message, count_tokens}
use canis.Context.Llm.{ToolCall, Reply}
use canis.Context.Limit.{limit_input_context_window, Outcome-cases}
use canis.Agent.Size.{ToolCallResult}
use canis.Agent.Invoke.{Executor, AgentState}
use canis.Agent.Loop.{
  Surroundings, LlmResult, LoopState, Round, answered, retried, continued, approve_if_needed,
  append_result, collect, invoke_all, use_tool_calls, use_reply, ask_model, round, plain_loop,
  formatted_loop, call, limited, is_one, initial,
}

pub Round-cases :
    {P T : Type 0} (o : Outcome (Round P T))
    → ((e : Text) × (o ≡ raised e))
      ⊎ (((r : LlmResult P) × (o ≡ returned (answered r)))
          ⊎ (((s : LoopState P T) × (o ≡ returned (retried s)))
              ⊎ ((s : LoopState P T) × (o ≡ returned (continued s)))))
Round-cases (raised e) = inl (e, refl)
Round-cases (returned (answered r)) = inr (inl (r, refl))
Round-cases (returned (retried s)) = inr (inr (inl (s, refl)))
Round-cases (returned (continued s)) = inr (inr (inr (s, refl)))

pub requested-cases :
    (ts : List ToolCall) → (ts ≡ []) ⊎ ((t : ToolCall) × (ts' : List ToolCall) × (ts ≡ t ∷ ts'))
requested-cases [] = inl refl
requested-cases (t ∷ ts) = inr (t, ts, refl)

module _ {P T S : Type 0} (x : Executor P S) (c : Surroundings P T S) where
  collect-i :
      (rs : List (ToolCallResult P)) (s s' : LoopState P T) (a : AgentState S)
      → (collect x c rs s a).0 ≡ returned s'
      → s'.i ≡ s.i
  unfolding collect append_result
  collect-i [] s s' a h = ground arith
  collect-i (r ∷ rs) s s' a h = elim (Bool-cases (c.is_cancelled a.world)) [
    | inl e ↦ absurd (ground arith)
    | inr e ↦ elim (Outcome-cases (approve_if_needed x c r a).0) [
      | inl (t, f) ↦ absurd (ground arith)
      | inr (r', f) ↦
          collect-i rs (append_result x c s r') s' (approve_if_needed x c r a).1 (ground arith)
    ]
  ]

  -- An answer is a reply that asks for no tool, at the end of the messages.
  abbrev pub IsAnswer : LlmResult P → Type 0
  IsAnswer r =
      (reply : Reply) × (ms : List Message) × (tools : Option T) × (reply.requested ≡ [])
      × (r.result ≡ reply.text)
      × (r.messages ≡ (count_tokens c.llm.counter (ms ++ reply.message ∷ []) tools).1)

  abbrev EndsAt : ℕ → Bool → Round P T → Type 0
  EndsAt i formatted (answered r) = (r.num_llm_calls ≡ i) × IsAnswer r
  EndsAt i formatted (retried s) = (s.i ≡ i) × (formatted ≡ true)
  EndsAt i formatted (continued s) = s.i ≡ i

  collected : Reply → LoopState P T → AgentState S → Outcome (LoopState P T)
  collected reply s a =
      let (rs, a') = invoke_all x c reply.requested s.past a in
      (collect x c (c.arrive rs) (record s { messages = s.messages ++ reply.message ∷ [] }) a').0

  use_reply-EndsAt :
      (formatted : Bool) (reply : Reply) (s : LoopState P T) (a : AgentState S) (o : Round P T)
      → (use_reply x c reply s a).0 ≡ returned o
      → EndsAt s.i formatted o
  unfolding use_reply use_tool_calls collected
  use_reply-EndsAt formatted reply s a (answered r) h = elim (requested-cases reply.requested) [
    | inl e ↦ (ground arith, (reply, s.messages, s.tools, e, ground arith, ground arith))
    | inr (t, ts, e) ↦ elim (Outcome-cases (collected reply s a)) [
      | inl (m, f) ↦ absurd (ground arith)
      | inr (s', f) ↦ absurd (ground arith)
    ]
  ]
  use_reply-EndsAt formatted reply s a (retried s'') h = elim (requested-cases reply.requested) [
    | inl e ↦ absurd (ground arith)
    | inr (t, ts, e) ↦ elim (Outcome-cases (collected reply s a)) [
      | inl (m, f) ↦ absurd (ground arith)
      | inr (s', f) ↦ absurd (ground arith)
    ]
  ]
  use_reply-EndsAt formatted reply s a (continued s'') h = elim (requested-cases reply.requested) [
    | inl e ↦ absurd (ground arith)
    | inr (t, ts, e) ↦ elim (Outcome-cases (collected reply s a)) [
      | inl (m, f) ↦ absurd (ground arith)
      | inr (s', f) ↦
          let same =
            collect-i (c.arrive (invoke_all x c reply.requested s.past a).0)
              (record s { messages = s.messages ++ reply.message ∷ [] }) s'
              (invoke_all x c reply.requested s.past a).1 f in
          ground arith
    ]
  ]

  retried-EndsAt :
      (formatted : Bool) (s : LoopState P T) (o : Round P T)
      → formatted ≡ true
      → retried s ≡ o
      → EndsAt s.i formatted o
  retried-EndsAt formatted s (answered r) e h = absurd (ground arith)
  retried-EndsAt formatted s (retried s') e h = (ground arith, e)
  retried-EndsAt formatted s (continued s') e h = absurd (ground arith)

  ask_model-EndsAt :
      (formatted : Bool) (s : LoopState P T) (a : AgentState S) (o : Round P T)
      → (ask_model x c formatted s a).0 ≡ returned o
      → EndsAt s.i formatted o
  unfolding ask_model
  ask_model-EndsAt formatted s a o h =
      elim (Outcome-cases (c.respond formatted s.messages s.tools a.world).0) [
        | inl (m, f) ↦ absurd (ground arith)
        | inr (reply, f) ↦
            let w = (c.respond formatted s.messages s.tools a.world).1 in
            elim (Bool-cases (c.is_cancelled w)) [
              | inl g ↦ absurd (ground arith)
              | inr g ↦ elim (Bool-cases (formatted && c.is_incorrect_tool_call reply)) [
                | inl k ↦ retried-EndsAt formatted s o (ground arith) (ground arith)
                | inr k ↦
                    use_reply-EndsAt formatted reply s (record a { world = w }) o (ground arith)
              ]
            ]
      ]

  round-EndsAt :
      (formatted is_last : Bool) (s : LoopState P T) (a : AgentState S) (o : Round P T)
      → (round x c formatted is_last s a).0 ≡ returned o
      → EndsAt (suc s.i) formatted o
  unfolding round
  round-EndsAt formatted is_last s a o h =
      let tools = if is_last then none else s.tools in
      elim (Bool-cases (c.is_cancelled a.world)) [
        | inl g ↦ absurd (ground arith)
        | inr g ↦
            elim (Outcome-cases
              (limit_input_context_window c.llm c.settings s.messages tools a.world).0) [
                | inl (m, f) ↦ absurd (ground arith)
                | inr (out, f) ↦
                    ask_model-EndsAt formatted
                      (limited x c (record s { i = suc s.i; tools = tools }) out)
                      (record a {
                        world =
                            (limit_input_context_window c.llm c.settings s.messages tools
                              a.world).1;
                      })
                      o (ground arith)
              ]
      ]

  -- After `i` rounds, with `left` to go, an answer comes within them.
  abbrev IsWithin : ℕ → ℕ → LlmResult P → Type 0
  IsWithin i left r = (r.num_llm_calls ≤ i + left) × (suc i ≤ r.num_llm_calls) × IsAnswer r

  plain_loop-IsWithin :
      (left : ℕ) (s : LoopState P T) (a : AgentState S) (r : LlmResult P)
      → (plain_loop x c left s a).0 ≡ returned r
      → IsWithin s.i left r
  unfolding plain_loop
  plain_loop-IsWithin zero s a r h = absurd (ground arith)
  plain_loop-IsWithin (suc left) s a r h =
      let (o, a') = round x c false (is_one x c (suc left)) s a in
      elim (Round-cases o) [
        | inl (e, f) ↦ absurd (ground arith)
        | inr (inl (r', f)) ↦
            let (i, answer) = round-EndsAt false (is_one x c (suc left)) s a (answered r') f in
            let same : r' ≡ r = ground arith in (ground arith, ground arith, rw same at answer)
        | inr (inr (inl (s', f))) ↦
            absurd (ground (arith, round-EndsAt false (is_one x c (suc left)) s a (retried s') f))
        | inr (inr (inr (s', f))) ↦
            let i = round-EndsAt false (is_one x c (suc left)) s a (continued s') f in
            let (most, least, answer) = plain_loop-IsWithin left s' a' r (ground arith) in
            (ground arith, ground arith, answer)
      ]

  formatted_loop-IsWithin :
      (left : ℕ) (s : LoopState P T) (a : AgentState S) (r : LlmResult P)
      → (formatted_loop x c left s a).0 ≡ returned r
      → IsWithin s.i (suc left) r
  unfolding formatted_loop
  formatted_loop-IsWithin zero s a r h = absurd (ground arith)
  formatted_loop-IsWithin (suc left) s a r h =
      let (o, a') = round x c true (is_one x c (suc left)) s a in
      elim (Round-cases o) [
        | inl (e, f) ↦ absurd (ground arith)
        | inr (inl (r', f)) ↦
            let (i, answer) = round-EndsAt true (is_one x c (suc left)) s a (answered r') f in
            let same : r' ≡ r = ground arith in (ground arith, ground arith, rw same at answer)
        | inr (inr (inl (s', f))) ↦
            let (i, on) = round-EndsAt true (is_one x c (suc left)) s a (retried s') f in
            let (most, least, answer) = plain_loop-IsWithin (suc left) s' a' r (ground arith) in
            (ground arith, ground arith, answer)
        | inr (inr (inr (s', f))) ↦
            let i = round-EndsAt true (is_one x c (suc left)) s a (continued s') f in
            let (most, least, answer) = formatted_loop-IsWithin left s' a' r (ground arith) in
            (ground arith, ground arith, answer)
      ]

  -- A call that returns reports in `num_llm_calls` at least one and at most `max_steps` rounds of its
  -- loop, or one more with structured output. Its result is the text of a reply that asks for no tool, and that reply
  -- is the last of its messages.
  pub call-num_llm_calls :
      (formatted : Bool) (max_steps : ℕ) (messages : List Message) (a : AgentState S)
      (r : LlmResult P)
      → (call x c formatted max_steps messages a).0 ≡ returned r
      → (r.num_llm_calls ≤ max_steps + (if formatted then 1 else 0))
        × (1 ≤ r.num_llm_calls)
        × IsAnswer r
  unfolding call
  call-num_llm_calls true max_steps messages a r h =
      let (most, least, answer) =
        formatted_loop-IsWithin max_steps (initial x c messages a) a r h in
      (ground arith, ground arith, answer)
  call-num_llm_calls false max_steps messages a r h =
      let (most, least, answer) = plain_loop-IsWithin max_steps (initial x c messages a) a r h in
      (ground arith, ground arith, answer)
