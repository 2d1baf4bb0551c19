-- ===== src/Agent/Undecided.antt =====
-- Nothing runs without the user's approval (holmes/core/tool_calling_llm.py,
-- `process_tool_decisions`).
use canis.Prelude.{
  ℕ, suc, false, ◌≡◌, refl, ◌∙◌, inl, inr, List, [], ◌∷◌, ◌++◌, map, All, arith, Bool-cases, Text,
  codes, Dict, dict_get, dict_set, dict_get-dict_set,
}
use canis.Tools.Result.{returned, raised}
use canis.Context.Message.{Message, is_role}
use canis.Agent.Size.{ToolCallResult}
use canis.Agent.Invoke.{Executor, AgentState}
use canis.Agent.Loop.{Surroundings}
use canis.Agent.Decisions.{
  ToolApprovalDecision, RequestedCall, Entry, ToolCallWithDecision, Processed, add_decisions,
  pending_in, pending_of, pending_tool_calls, is_approved, denial, insert_at,
  extract_bash_session_prefixes, without_pending, answer, answer_message, answer_all,
  process_tool_decisions,
}
use canis.Agent.Decided.{List-cases}

returned_inj : {A : Type 0} (r s : A) → returned r ≡ returned s → r ≡ s
returned_inj r s e = ground arith

-- No decision of the dictionary is an approval.
abbrev pub Denies : Dict ToolApprovalDecision → Type 0
Denies d = (k : Text) → is_approved (dict_get k d) ≡ false

pub empty-Denies : Denies []
unfolding dict_get
empty-Denies = λ k. refl

pub add_decisions-Denies :
    (ts : List ToolApprovalDecision) (d : Dict ToolApprovalDecision)
    → All (λ t. t.approved ≡ false) ts
    → Denies d
    → Denies (add_decisions ts d)
unfolding add_decisions
add_decisions-Denies [] d all h = h
add_decisions-Denies (t ∷ ts) d (denied, all) h =
    add_decisions-Denies ts (dict_set t.tool_call_id t d) all
      (λ k. ground (arith, dict_get-dict_set k t.tool_call_id t d, h k))

abbrev pub AllDenied : List ToolCallWithDecision → Type 0
AllDenied ps = All (λ p. is_approved p.decision ≡ false) ps

pending_in-AllDenied :
    (d : Dict ToolApprovalDecision) (i : ℕ) (calls : List RequestedCall)
    → Denies d
    → AllDenied (pending_in d i calls)
unfolding pending_in
pending_in-AllDenied d i [] h = tt
pending_in-AllDenied d i (call ∷ calls) h = elim (Bool-cases call.pending_approval) [
  | inl e ↦ rw e (h call.id, pending_in-AllDenied d i calls h)
  | inr e ↦ rw e (pending_in-AllDenied d i calls h)
]

append-AllDenied :
    (ps qs : List ToolCallWithDecision) → AllDenied ps → AllDenied qs → AllDenied (ps ++ qs)
append-AllDenied [] qs h k = k
append-AllDenied (p ∷ ps) qs (e, h) k = (e, append-AllDenied ps qs h k)

pub pending_tool_calls-AllDenied :
    (d : Dict ToolApprovalDecision) (i : ℕ) (es : List Entry)
    → Denies d
    → AllDenied (pending_tool_calls d i es)
unfolding pending_tool_calls pending_of
pending_tool_calls-AllDenied d i [] h = tt
pending_tool_calls-AllDenied d i (e ∷ es) h =
    append-AllDenied (pending_tool_calls d (suc i) es) (pending_of d i e)
      (pending_tool_calls-AllDenied d (suc i) es h)
      (elim (Bool-cases (is_role "assistant" e.message)) [
        | inl a ↦ rw (pending_of, a) (pending_in-AllDenied d i e.requested h)
        | inr a ↦ rw (pending_of, a) tt
      ])

module _ {P T S : Type 0} (x : Executor P S) (c : Surroundings P T S)
    (dumps : List Text → Text → Text → Text) (saved : Message → List Text) where
  -- The state is as before, and each result is a denial.
  pub record IsDenied (a : AgentState S) (r : Processed P S) : Type 0 where
    pub unchanged : r.state ≡ a
    pub denials : All (λ (t : ToolCallResult P). t.result ≡ denial) r.results

  answer_denied :
      (prefixes : List Text) (p : ToolCallWithDecision) (a : AgentState S)
      → is_approved p.decision ≡ false
      → ((answer x c dumps saved prefixes p a).0.result ≡ denial)
        × ((answer x c dumps saved prefixes p a).1 ≡ a)
  unfolding answer
  answer_denied prefixes p a denied = (rw (answer, denied), rw (answer, denied))

  answer_all-IsDenied :
      (prefixes : List Text) (ps : List ToolCallWithDecision) (es : List Entry) (a : AgentState S)
      → AllDenied ps
      → IsDenied a (answer_all x c dumps saved prefixes ps es a)
  unfolding answer_all
  answer_all-IsDenied prefixes [] es a all = record { unchanged = refl; denials = tt }
  answer_all-IsDenied prefixes (p ∷ ps) es a (denied, all) =
      let (result, state) = answer_denied prefixes p a denied in
      let (r, a') = answer x c dumps saved prefixes p a in
      let rest =
        answer_all-IsDenied prefixes ps
          (insert_at (suc p.message_index) (answer_message x c dumps saved p r) es) a' all in
      record { unchanged = rest.unchanged ∙ state; denials = (result, rest.denials) }

  -- When no decision of the user is an approval, no tool runs for a waiting call: if the answers are
  -- processed, the state is as before, and each result is the denial.
  pub process_tool_decisions-IsDenied :
      (ts : List ToolApprovalDecision) (messages : List Entry) (a : AgentState S)
      (r : Processed P S)
      → All (λ t. t.approved ≡ false) ts
      → process_tool_decisions x c dumps saved messages ts a ≡ returned r
      → IsDenied a r
  unfolding process_tool_decisions
  process_tool_decisions-IsDenied [] messages a r all done =
      rw (← returned_inj _ _ done) (record { unchanged = refl; denials = tt })
  process_tool_decisions-IsDenied (t ∷ ts) messages a r all done =
      let d = add_decisions (t ∷ ts) [] in
      let prefixes = extract_bash_session_prefixes x c dumps saved messages in
      let denied =
        pending_tool_calls-AllDenied d 0 messages
          (add_decisions-Denies (t ∷ ts) [] all empty-Denies) in
      let h =
        answer_all-IsDenied prefixes (pending_tool_calls d 0 messages)
          (map without_pending messages) a denied in
      elim (List-cases (pending_tool_calls d 0 messages)) [
        | inl e ↦
            let bad : raised (codes "Received tool decisions but no pending approvals found")
                ≡ returned r =
              rw (process_tool_decisions, e) at done in
            absurd (ground arith)
        | inr (p, (ps, e)) ↦
            let same : returned
                  (answer_all x c dumps saved prefixes (p ∷ ps) (map without_pending messages) a)
                ≡ returned r =
              rw (process_tool_decisions, e) at done in
            rw (returned_inj _ _ same) at (rw e at h)
      ]
