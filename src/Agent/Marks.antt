-- ===== src/Agent/Marks.antt =====
-- The calls that a stream marks for an approval (holmes/core/tool_calling_llm.py, the end of a round of
-- `call_stream`).
use canis.Prelude.{
  true, ◌≡◌, refl, inl, inr, some, List, [], ◌∷◌, arith, All, Any, subst, Option-cases, Bool-cases,
  Text, text_eq, text_eq_iff,
}
use canis.Tools.Result.{returned}
use canis.Context.Message.{is_role}
use canis.Agent.Size.{ToolCallResult}
use canis.Agent.Decisions.{RequestedCall, Entry}
use canis.Agent.Stream.{calls_of, mark_call, mark_pending, mark_all}

-- A call with the identifier is pending.
abbrev pub IsPending : Text → RequestedCall → Type 0
IsPending id c = (c.id ≡ id) × (c.pending_approval ≡ true)

abbrev pub Waits : Text → List Entry → Type 0
Waits id es = Any (λ e. Any (IsPending id) (calls_of e)) es

mark_call-IsPending :
    (id : Text) (cs cs' : List RequestedCall) → mark_call id cs ≡ some cs' → Any (IsPending id) cs'
unfolding mark_call
mark_call-IsPending id [] cs' h = absurd (ground arith)
mark_call-IsPending id (c ∷ cs) cs' h = elim (Bool-cases (text_eq c.id id)) [
  | inl e ↦
      let same : (record c { pending_approval = true } ∷ cs) ≡ cs' = ground arith in
      subst (Any (IsPending id)) same (inl ((text_eq_iff c.id id).0 e, refl))
  | inr e ↦ elim (Option-cases (mark_call id cs)) [
    | inl f ↦ absurd (ground arith)
    | inr (rest, f) ↦
        let same : (c ∷ rest) ≡ cs' = ground arith in
        subst (Any (IsPending id)) same (inr (mark_call-IsPending id cs rest f))
  ]
]

mark_call-keeps :
    (id other : Text) (cs cs' : List RequestedCall)
    → mark_call id cs ≡ some cs'
    → Any (IsPending other) cs
    → Any (IsPending other) cs'
unfolding mark_call
mark_call-keeps id other [] cs' h waits = absurd waits
mark_call-keeps id other (c ∷ cs) cs' h waits = elim (Bool-cases (text_eq c.id id)) [
  | inl e ↦
      let same : (record c { pending_approval = true } ∷ cs) ≡ cs' = ground arith in
      subst (Any (IsPending other)) same
        (elim waits [ inl (named, w) ↦ inl (named, refl) | inr w ↦ inr w ])
  | inr e ↦ elim (Option-cases (mark_call id cs)) [
    | inl f ↦ absurd (ground arith)
    | inr (rest, f) ↦
        let same : (c ∷ rest) ≡ cs' = ground arith in
        subst (Any (IsPending other)) same
          (elim waits [ inl w ↦ inl w | inr w ↦ inr (mark_call-keeps id other cs rest f w) ])
  ]
]

-- Only a message of the assistant has calls to mark.
mark_calls_of :
    (id : Text) (e : Entry) (cs : List RequestedCall)
    → mark_call id (calls_of e) ≡ some cs
    → is_role "assistant" e.message ≡ true
unfolding mark_call
mark_calls_of id e cs h = elim (Bool-cases (is_role "assistant" e.message)) [
  | inl g ↦ g
  | inr g ↦ absurd (ground arith)
]

-- The message after the mark.
marked_calls :
    (id : Text) (e : Entry) (cs : List RequestedCall)
    → mark_call id (calls_of e) ≡ some cs
    → calls_of (record e { requested = cs }) ≡ cs
marked_calls id e cs h = let g = mark_calls_of id e cs h in ground arith

mark_pending-Waits :
    (id : Text) (es es' : List Entry) → mark_pending id es ≡ some es' → Waits id es'
unfolding mark_pending
mark_pending-Waits id [] es' h = absurd (ground arith)
mark_pending-Waits id (e ∷ es) es' h = elim (Option-cases (mark_call id (calls_of e))) [
  | inr (cs, f) ↦
      let same : (record e { requested = cs } ∷ es) ≡ es' = ground arith in
      subst (Waits id) same
        (inl (rw (marked_calls id e cs f) (mark_call-IsPending id (calls_of e) cs f)))
  | inl f ↦ elim (Option-cases (mark_pending id es)) [
    | inl g ↦ absurd (ground arith)
    | inr (rest, g) ↦
        let same : (e ∷ rest) ≡ es' = ground arith in
        subst (Waits id) same (inr (mark_pending-Waits id es rest g))
  ]
]

mark_pending-keeps :
    (id other : Text) (es es' : List Entry)
    → mark_pending id es ≡ some es'
    → Waits other es
    → Waits other es'
unfolding mark_pending
mark_pending-keeps id other [] es' h waits = absurd waits
mark_pending-keeps id other (e ∷ es) es' h waits = elim (Option-cases (mark_call id (calls_of e))) [
  | inr (cs, f) ↦
      let same : (record e { requested = cs } ∷ es) ≡ es' = ground arith in
      subst (Waits other) same (elim waits [
        | inl w ↦ inl (rw (marked_calls id e cs f) (mark_call-keeps id other (calls_of e) cs f w))
        | inr w ↦ inr w
      ])
  | inl f ↦ elim (Option-cases (mark_pending id es)) [
    | inl g ↦ absurd (ground arith)
    | inr (rest, g) ↦
        let same : (e ∷ rest) ≡ es' = ground arith in
        subst (Waits other) same
          (elim waits [ inl w ↦ inl w | inr w ↦ inr (mark_pending-keeps id other es rest g w) ])
  ]
]

module _ {P : Type 0} where
  mark_all-keeps :
      (other : Text) (rs : List (ToolCallResult P)) (es es' : List Entry)
      → mark_all rs es ≡ returned es'
      → Waits other es
      → Waits other es'
  unfolding mark_all
  mark_all-keeps other [] es es' h waits =
      let same : es ≡ es' = ground arith in subst (Waits other) same waits
  mark_all-keeps other (r ∷ rs) es es' h waits = elim (Option-cases (mark_pending r.call_id es)) [
    | inl f ↦ absurd (ground arith)
    | inr (here, f) ↦
        mark_all-keeps other rs here es' (ground arith)
          (mark_pending-keeps r.call_id other es here f waits)
  ]

  pub mark_all-Waits :
      (rs : List (ToolCallResult P)) (es es' : List Entry)
      → mark_all rs es ≡ returned es'
      → All (λ r. Waits r.call_id es') rs
  unfolding mark_all
  mark_all-Waits [] es es' h = tt
  mark_all-Waits (r ∷ rs) es es' h = elim (Option-cases (mark_pending r.call_id es)) [
    | inl f ↦ absurd (ground arith)
    | inr (here, f) ↦ (
      mark_all-keeps r.call_id rs here es' (ground arith) (mark_pending-Waits r.call_id es here f),
      mark_all-Waits rs here es' (ground arith),
    )
  ]
