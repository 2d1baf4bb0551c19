-- ===== src/Agent/Protocol.antt =====
-- The order of the events of `call_stream` (holmes/core/tool_calling_llm.py), as a step relation.
use canis.Prelude.{
  Bool, false, ◌≡◌, refl, sym, ap, ◌∙◌, ◌⊎◌, inl, inr, Option, none, some, List, [], ◌∷◌, ◌++◌, map,
  arith, Option-cases, Bool-cases, Text,
}
use mathlib.Core.List.{append-nil, append_assoc}
use canis.Tools.Result.{approval_required, status_eq, Outcome, returned, raised}
use canis.Context.Message.{Message}
use canis.Context.Llm.{ToolCall, Reply}
use canis.Context.Limit.{Outcome-cases}
use canis.Agent.Safeguards.{PastCall}
use canis.Agent.Size.{
  ToolCallResult, prevent_overly_big_tool_response, shrink, stored, size_info, drop_data,
  keep_preview,
}
use canis.Agent.Invoke.{
  Executor, AgentState, get_tool_call_result, call_function, invoke_llm_tool_call,
}
use canis.Agent.Loop.{Surroundings}
use canis.Agent.Decided.{List-cases}
use canis.Agent.Decisions.{extract_bash_session_prefixes}
use canis.Agent.Stream.{
  StreamEvent, limiter_event, token_count, ai_message, start_tool, tool_result, answer_end,
  approvals_required, Streamed, StreamState, RoundEnd, closed, unformatted, again, Gathered,
  mark_all, reject,
}
use canis.Agent.StreamLoop.{start_all, settle, gather_one, gather, finish_round, use_calls}

-- A stream is running, with the calls that were started and have no result yet, or it has finished.
pub data Phase : Type 0 where
  running : List Text → Phase
  finished : Phase

-- `rest` is `xs` without one `x`.
unfoldable pub Removed : {A : Type 0} → A → List A → List A → Type 0
Removed x [] rest = ⊥
Removed x (y ∷ ys) rest =
    ((y ≡ x) × (ys ≡ rest)) ⊎ ((others : List _) × Removed x ys others × (y ∷ others ≡ rest))

-- The members of `qs` are those of `rs`, in any order.
unfoldable pub Arrived : {A : Type 0} → List A → List A → Type 0
Arrived [] rs = rs ≡ []
Arrived (q ∷ qs) rs = (rest : List _) × Removed q rs rest × Arrived qs rest

-- One event: a result closes one of the calls that wait, whichever comes first. While a call waits
-- nothing but starts and results happens, and after the end there is no event.
unfoldable pub Step : {P : Type 0} → Phase → StreamEvent P → Phase → Type 0
Step finished e q = ⊥
Step (running waiting) (start_tool name id) q = running (waiting ++ id ∷ []) ≡ q
Step (running waiting) (tool_result r) q =
    (rest : List Text) × Removed r.call_id waiting rest × (running rest ≡ q)
Step (running []) (limiter_event e) q = running [] ≡ q
Step (running []) (token_count t) q = running [] ≡ q
Step (running []) (ai_message t) q = running [] ≡ q
Step (running []) (answer_end t ms) q = finished ≡ q
Step (running []) (approvals_required ms rs) q = finished ≡ q
Step (running (id ∷ waiting)) (limiter_event e) q = ⊥
Step (running (id ∷ waiting)) (token_count t) q = ⊥
Step (running (id ∷ waiting)) (ai_message t) q = ⊥
Step (running (id ∷ waiting)) (answer_end t ms) q = ⊥
Step (running (id ∷ waiting)) (approvals_required ms rs) q = ⊥

unfoldable pub Follows : {P : Type 0} → Phase → List (StreamEvent P) → Phase → Type 0
Follows p [] q = p ≡ q
Follows p (e ∷ es) q = (m : Phase) × Step p e m × Follows m es q

pub Follows-append :
    {P : Type 0} (p q r : Phase) (es fs : List (StreamEvent P))
    → Follows p es q
    → Follows q fs r
    → Follows p (es ++ fs) r
unfolding Follows
Follows-append p q r [] fs h k = rw h k
Follows-append p q r (e ∷ es) fs (m, s, h) k = (m, s, Follows-append m q r es fs h k)

Removed-map :
    {A B : Type 0} (f : A → B) (x : A) (xs rest : List A)
    → Removed x xs rest
    → Removed (f x) (map f xs) (map f rest)
unfolding Removed
Removed-map f x [] rest h = absurd h
Removed-map f x (y ∷ ys) rest (inl (e, h)) = inl (ap f e, ap (map f) h)
Removed-map f x (y ∷ ys) rest (inr (others, r, h)) =
    inr (map f others, Removed-map f x ys others r, ap (map f) h)

Arrived-map :
    {A B : Type 0} (f : A → B) (qs rs : List A) → Arrived qs rs → Arrived (map f qs) (map f rs)
unfolding Arrived
Arrived-map f [] rs h = ap (map f) h
Arrived-map f (q ∷ qs) rs (rest, r, h) =
    (map f rest, Removed-map f q rs rest r, Arrived-map f qs rest h)

pub Arrived-refl : {A : Type 0} (rs : List A) → Arrived rs rs
unfolding Arrived Removed
Arrived-refl [] = refl
Arrived-refl (r ∷ rs) = (rs, inl (refl, refl), Arrived-refl rs)

-- A round that fails leaves a running stream, one that closes it a finished one, and any other one
-- with no open call.
abbrev pub RoundPhase : {P T : Type 0} → Outcome (RoundEnd P T) → List (StreamEvent P) → Type 0
RoundPhase (raised e) es = (waiting : List Text) × Follows (running []) es (running waiting)
RoundPhase (returned closed) es = Follows (running []) es finished
RoundPhase (returned (unformatted s)) es = Follows (running []) es (running [])
RoundPhase (returned (again s)) es = Follows (running []) es (running [])

abbrev pub EndPhase : {P : Type 0} → Outcome (Unit {0}) → List (StreamEvent P) → Type 0
EndPhase (raised e) es = (waiting : List Text) × Follows (running []) es (running waiting)
EndPhase (returned u) es = Follows (running []) es finished

pub RoundPhase-after :
    {P T : Type 0} (o : Outcome (RoundEnd P T)) (es fs : List (StreamEvent P))
    → Follows (running []) es (running [])
    → RoundPhase o fs
    → RoundPhase o (es ++ fs)
RoundPhase-after (raised e) es fs h (waiting, k) =
    (waiting, Follows-append (running []) (running []) (running waiting) es fs h k)
RoundPhase-after (returned closed) es fs h k =
    Follows-append (running []) (running []) finished es fs h k
RoundPhase-after (returned (unformatted s)) es fs h k =
    Follows-append (running []) (running []) (running []) es fs h k
RoundPhase-after (returned (again s)) es fs h k =
    Follows-append (running []) (running []) (running []) es fs h k

pub EndPhase-after :
    {P : Type 0} (o : Outcome (Unit {0})) (es fs : List (StreamEvent P))
    → Follows (running []) es (running [])
    → EndPhase o fs
    → EndPhase o (es ++ fs)
EndPhase-after (raised e) es fs h (waiting, k) =
    (waiting, Follows-append (running []) (running []) (running waiting) es fs h k)
EndPhase-after (returned u) es fs h k = Follows-append (running []) (running []) finished es fs h k

abbrev call_ids : {P : Type 0} → List (ToolCallResult P) → List Text
call_ids rs = map (λ r. r.call_id) rs

module _ {P T S : Type 0} (x : Executor P S) (c : Surroundings P T S)
    (dumps : List Text → Text → Text → Text) (saved : Message → List Text)
    (reasoning : Reply → Option Text) where
  shrink_call_id :
      (path : Option Text) (r : ToolCallResult P) (info : Text)
      → (shrink x.limit path r info).call_id ≡ r.call_id
  unfolding drop_data keep_preview
  shrink_call_id none r info = refl
  shrink_call_id (some []) r info = refl
  shrink_call_id (some (d ∷ path)) r info = refl

  big_call_id :
      (r : ToolCallResult P) → (prevent_overly_big_tool_response x.limit r).0.call_id ≡ r.call_id
  unfolding prevent_overly_big_tool_response
  big_call_id r =
      ground
        (arith, shrink_call_id (stored x.limit r) r (size_info x.limit (x.limit.count_message r)))

  call_function_id :
      (id : Text) (function : Option (Text × Text)) (past : List (PastCall P)) (approved : Bool)
      (prefixes : List Text) (a : AgentState S)
      → (call_function x id function past approved prefixes a).0.call_id ≡ id
  unfolding call_function get_tool_call_result
  call_function_id id none past approved prefixes a = refl
  call_function_id id (some (name, arguments)) past approved prefixes a = refl

  pub invoke_call_id :
      (t : ToolCall) (past : List (PastCall P)) (approved : Bool) (prefixes : List Text)
      (a : AgentState S)
      → (invoke_llm_tool_call x t past approved prefixes a).0.call_id ≡ t.id
  unfolding invoke_llm_tool_call
  invoke_call_id t past approved prefixes a =
      big_call_id (call_function x t.id t.function past approved prefixes a).0
      ∙ call_function_id t.id t.function past approved prefixes a

  -- The calls that were started wait, if none of them failed to start.
  abbrev StartPhase : List Text → Outcome (List (ToolCallResult P)) → List (StreamEvent P) → Type 0
  StartPhase waiting (raised e) es =
      (more : List Text) × Follows (running waiting) es (running more)
  StartPhase waiting (returned rs) es =
      Follows (running waiting) es (running (waiting ++ call_ids rs))

  start_all-StartPhase :
      (waiting prefixes : List Text) (past : List (PastCall P)) (ts : List ToolCall)
      (a : AgentState S)
      → let r = start_all x c dumps saved reasoning prefixes past ts a in
        StartPhase waiting r.outcome r.events
  unfolding start_all Follows Step
  start_all-StartPhase waiting prefixes past [] a = rw (append-nil waiting) refl
  start_all-StartPhase waiting prefixes past (t ∷ ts) a = elim (Option-cases t.function) [
    | inl e ↦ rw (start_all, e) (waiting, refl)
    | inr ((name, arguments), e) ↦
        let (r, a') = invoke_llm_tool_call x t past false prefixes a in
        let id : r.call_id ≡ t.id = invoke_call_id t past false prefixes a in
        let rest = start_all-StartPhase (waiting ++ t.id ∷ []) prefixes past ts a' in
        elim (Outcome-cases (start_all x c dumps saved reasoning prefixes past ts a').outcome) [
          | inl (m, f) ↦
              let (more, h) = rw f at rest in
              rw (start_all, e) (rw f (more, (running (waiting ++ t.id ∷ []), refl, h)))
          | inr (rs, f) ↦
              let later = rw f at rest in
              let same : (waiting ++ t.id ∷ []) ++ call_ids rs
                  ≡ waiting ++ r.call_id ∷ call_ids rs =
                append_assoc waiting (t.id ∷ []) (call_ids rs)
                ∙ ap (λ (d : Text). waiting ++ d ∷ call_ids rs) (sym id) in
              rw (start_all, e) (rw f (running (waiting ++ t.id ∷ []), refl, (rw same at later)))
        ]
  ]

  -- A result closes the call that it answers.
  result_phase :
      (es : List (StreamEvent P)) (r : ToolCallResult P) (waiting rest : List Text)
      → Removed r.call_id waiting rest
      → Follows (running []) es (running waiting)
      → Follows (running []) (es ++ tool_result r ∷ []) (running rest)
  unfolding Follows Step
  result_phase es r waiting rest removed h =
      Follows-append (running []) (running waiting) (running rest) es (tool_result r ∷ []) h
        (running rest, (rest, removed, refl), refl)

  gather_one_phase :
      (enable : Bool) (r : ToolCallResult P) (g : Gathered P) (waiting rest : List Text)
      → Removed r.call_id waiting rest
      → Follows (running []) g.events (running waiting)
      → Follows (running []) (gather_one x c dumps saved reasoning enable r g).events (running rest)
  unfolding gather_one settle reject
  gather_one_phase enable r g waiting rest removed h =
      let plain = result_phase g.events r waiting rest removed h in
      let rejected = result_phase g.events (reject r) waiting rest removed h in
      elim (Bool-cases (status_eq r.result.status approval_required)) [
        | inr e ↦ rw e plain
        | inl e ↦ elim (Bool-cases enable) [
          | inl f ↦ rw e (rw f plain)
          | inr f ↦ rw e (rw f rejected)
        ]
      ]

  gather_phase :
      (enable : Bool) (rs : List (ToolCallResult P)) (g : Gathered P) (waiting : List Text)
      → Arrived (call_ids rs) waiting
      → Follows (running []) g.events (running waiting)
      → Follows (running []) (gather x c dumps saved reasoning enable rs g).events (running [])
  unfolding gather Arrived
  gather_phase enable [] g waiting arrived h = rw arrived at h
  gather_phase enable (r ∷ rs) g waiting (rest, removed, arrived) h =
      gather_phase enable rs (gather_one x c dumps saved reasoning enable r g) rest arrived
        (gather_one_phase enable r g waiting rest removed h)

  -- What a round leaves.
  abbrev pub RoundOk : Streamed P S (RoundEnd P T) → Type 0
  RoundOk r = RoundPhase r.outcome r.events

  finish_round-RoundOk :
      (g : Gathered P) (s : StreamState P T) (a : AgentState S)
      → Follows (running []) g.events (running [])
      → RoundOk (finish_round x c dumps saved reasoning g s a)
  unfolding finish_round Follows Step
  finish_round-RoundOk g s a h = elim (List-cases g.pending) [
    | inl e ↦ rw (finish_round, e) h
    | inr (p, (ps, e)) ↦ elim (Outcome-cases (mark_all (p ∷ ps) g.messages)) [
      | inl (m, f) ↦ rw (finish_round, e) (rw f ([], h))
      | inr (ms, f) ↦
          rw (finish_round, e)
            (rw f (
              Follows-append (running []) (running []) finished g.events
                (approvals_required ms (p ∷ ps) ∷ []) h (finished, refl, refl)))
    ]
  ]

  pub use_calls-RoundOk :
      ((rs : List (ToolCallResult P)) → Arrived (c.arrive rs) rs)
      → (enable : Bool) (ts : List ToolCall) (s : StreamState P T) (a : AgentState S)
      → RoundOk (use_calls x c dumps saved reasoning enable ts s a)
  unfolding use_calls
  use_calls-RoundOk arrives enable ts s a =
      let prefixes = extract_bash_session_prefixes x c dumps saved s.messages in
      let started = start_all x c dumps saved reasoning prefixes s.past ts a in
      let h = start_all-StartPhase [] prefixes s.past ts a in
      elim (Outcome-cases started.outcome) [
        | inl (m, f) ↦ rw (use_calls, f) (rw f at h)
        | inr (rs, f) ↦
            let g : Gathered P = record {
              messages = s.messages;
              past = s.past;
              pending = [];
              events = started.events;
            } in
            let gathered = gather x c dumps saved reasoning enable (c.arrive rs) g in
            let arrived = Arrived-map (λ r. r.call_id) (c.arrive rs) rs (arrives rs) in
            rw (use_calls, f)
              (finish_round-RoundOk gathered s started.state
                (gather_phase enable (c.arrive rs) g (call_ids rs) arrived (rw f at h)))
      ]
