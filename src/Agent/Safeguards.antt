-- ===== src/Agent/Safeguards.antt =====
-- `prevent_overly_repeated_tool_call`, holmes/core/safeguards.py. The environment variable that
-- turns the check off is the argument `enabled`.
use canis.Prelude.{
  ◌≡◌, ◌↔◌, refl, ap, Bool, true, false, not, ◌&&◌, Option, none, some, List, [], ◌∷◌, arith,
  if◌then◌else◌, any, Text, codes, text_eq, text_eq_iff, Any, any_iff, Option-cases, Bool-cases,
  inl, inr, ◌⊎◌,
}
use canis.Tools.Result.{
  StructuredToolResultStatus, success, error, no_data, approval_required, status_eq,
  StructuredToolResult, error_result,
}

-- `as_tool_result_response()`, as far as the safeguards read it
pub record PastCall (P : Type 0) : Type 0 where
  pub past_name : Text
  pub past_status : StructuredToolResultStatus
  pub past_params : Option P

pub record FetchPodLogsParams : Type 0 where
  pub namespace : Text
  pub pod_name : Text
  pub start_time : Option Text
  pub end_time : Option Text
  pub filter : Option Text

abbrev pub pod_logging_tool_name : Text
pod_logging_tool_name = codes "fetch_pod_logs"

-- What the check takes of a tool's arguments: Python's `==` and the truth of the dict,
-- `params.get("filter")` as a truth value, and pydantic's reading of the arguments of
-- `fetch_pod_logs`, `none` for a `ValidationError`.
pub record Arguments (P : Type 0) : Type 0 where
  pub same : P → P → Bool
  pub is_empty : P → Bool
  pub has_filter : P → Bool
  pub read : P → Option FetchPodLogsParams

-- `==` on optional texts
abbrev pub option_eq : Option Text → Option Text → Bool
option_eq none none = true
option_eq (some s) (some t) = text_eq s t
option_eq none (some t) = false
option_eq (some s) none = false

-- `not params.filter`
abbrev pub unfiltered : Option Text → Bool
unfiltered none = true
unfiltered (some []) = true
unfiltered (some (c ∷ s)) = false

module _ {P : Type 0} (a : Arguments P) where
  -- `tool_call.get("tool_name") == tool_name and params is not None and params == tool_params`
  unfoldable pub same_call : Text → P → PastCall P → Bool
  same_call name params past = elim past.past_params [
    | none ↦ false
    | some q ↦ text_eq past.past_name name && a.same q params
  ]

  unfoldable pub has_previous_exact_same_tool_call : Text → P → List (PastCall P) → Bool
  unfolding same_call
  has_previous_exact_same_tool_call name params past = any (same_call name params) past

  unfoldable pub same_window : FetchPodLogsParams → FetchPodLogsParams → Bool
  same_window current old =
      unfiltered old.filter
      && (option_eq current.end_time old.end_time
          && (option_eq current.start_time old.start_time
              && (text_eq current.pod_name old.pod_name
                  && text_eq current.namespace old.namespace)))

  -- a past `fetch_pod_logs` with no data and with arguments
  unfoldable pub no_data_params : PastCall P → Option P
  no_data_params past =
      if text_eq past.past_name pod_logging_tool_name && status_eq past.past_status no_data
      then elim past.past_params [ none ↦ none | some q ↦ if a.is_empty q then none else some q ]
      else none

  -- The loop; a past call that does not validate ends it with `False`.
  unfoldable pub unfiltered_before : FetchPodLogsParams → List (PastCall P) → Bool
  unfolding no_data_params same_window
  unfiltered_before current [] = false
  unfiltered_before current (past ∷ rest) =
      let later = unfiltered_before current rest in
      elim (no_data_params past) [
        | none ↦ later
        | some q ↦ elim (a.read q) [
          | none ↦ false
          | some old ↦ if same_window current old then true else later
        ]
      ]

  unfoldable pub has_previous_unfiltered_pod_logs_call : P → List (PastCall P) → Bool
  unfolding unfiltered_before
  has_previous_unfiltered_pod_logs_call params past = elim (a.read params) [
    | none ↦ false
    | some current ↦ unfiltered_before current past
  ]

  unfoldable pub is_redundant_fetch_pod_logs : Text → P → List (PastCall P) → Bool
  unfolding has_previous_unfiltered_pod_logs_call
  is_redundant_fetch_pod_logs name params past =
      text_eq name pod_logging_tool_name
      && (a.has_filter params && has_previous_unfiltered_pod_logs_call params past)

  abbrev pub repeated_message : Text
  repeated_message =
      codes
        "Refusing to run this tool call because it has already been called during this session with the exact same parameters.\nMove on with your investigation to a different tool or change the parameter values."

  abbrev pub redundant_message : Text
  redundant_message =
      codes
        "Refusing to run this tool call because the exact same fetch_pod_logs tool call without filter has already run and returned no data.\nThis tool call would also have returned no data.\nMove on with your investigation to a different tool or extend the time window of your search."

  unfoldable pub prevent_overly_repeated_tool_call :
      Bool → Text → P → List (PastCall P) → Option (StructuredToolResult P)
  unfolding has_previous_exact_same_tool_call is_redundant_fetch_pod_logs
  prevent_overly_repeated_tool_call enabled name params past =
      if not enabled
      then none
      else if has_previous_exact_same_tool_call name params past
      then some (error_result repeated_message (some params))
      else if is_redundant_fetch_pod_logs name params past
      then some (error_result redundant_message (some params))
      else none

  -- No filter, or an empty one.
  abbrev pub IsUnfiltered : Option Text → Type 0
  IsUnfiltered filter = (filter ≡ none) ⊎ (filter ≡ some [])

  abbrev pub IsSameWindow : FetchPodLogsParams → FetchPodLogsParams → Type 0
  IsSameWindow current old =
      IsUnfiltered old.filter
      × (current.end_time ≡ old.end_time)
      × (current.start_time ≡ old.start_time)
      × (current.pod_name ≡ old.pod_name)
      × (current.namespace ≡ old.namespace)

  -- A past call that shows that logs are missing whatever the filter.
  abbrev pub ShowsNoLogs : FetchPodLogsParams → PastCall P → Type 0
  ShowsNoLogs current past =
      (past.past_name ≡ pod_logging_tool_name)
      × (past.past_status ≡ no_data)
      × ((q : P) × (past.past_params ≡ some q)
          × (a.is_empty q ≡ false)
          × ((old : FetchPodLogsParams) × (a.read q ≡ some old) × IsSameWindow current old))

  unfiltered-IsUnfiltered : (filter : Option Text) → unfiltered filter ≡ true → IsUnfiltered filter
  unfiltered-IsUnfiltered none h = inl refl
  unfiltered-IsUnfiltered (some []) h = inr refl
  unfiltered-IsUnfiltered (some (c ∷ s)) h = cc

  option_eq_sound : (s t : Option Text) → option_eq s t ≡ true → s ≡ t
  option_eq_sound none none h = refl
  option_eq_sound (some s) (some t) h = ap some ((text_eq_iff s t).0 h)
  option_eq_sound none (some t) h = cc
  option_eq_sound (some s) none h = cc

  no_data_sound : (s : StructuredToolResultStatus) → status_eq s no_data ≡ true → s ≡ no_data
  no_data_sound no_data h = refl
  no_data_sound success h = cc
  no_data_sound error h = cc
  no_data_sound approval_required h = cc

  same_window-IsSameWindow :
      (current old : FetchPodLogsParams) → same_window current old ≡ true → IsSameWindow current old
  unfolding same_window
  same_window-IsSameWindow current old h = (
    unfiltered-IsUnfiltered old.filter (ground arith),
    option_eq_sound current.end_time old.end_time (ground arith),
    option_eq_sound current.start_time old.start_time (ground arith),
    ground (arith, text_eq_iff current.pod_name old.pod_name),
    ground (arith, text_eq_iff current.namespace old.namespace),
  )

  -- What `no_data_params` has looked at.
  abbrev IsWithoutData : PastCall P → P → Type 0
  IsWithoutData past q =
      (past.past_name ≡ pod_logging_tool_name)
      × (past.past_status ≡ no_data)
      × (past.past_params ≡ some q)
      × (a.is_empty q ≡ false)

  no_data_params-IsWithoutData :
      (past : PastCall P) (q : P) → no_data_params past ≡ some q → IsWithoutData past q
  unfolding no_data_params
  no_data_params-IsWithoutData past q h = (
    ground (arith, text_eq_iff past.past_name pod_logging_tool_name),
    no_data_sound past.past_status (ground arith),
    ground arith,
    ground arith,
  )

  unfiltered_before_sound :
      (current : FetchPodLogsParams) (past : List (PastCall P))
      → unfiltered_before current past ≡ true
      → Any (ShowsNoLogs current) past
  unfolding unfiltered_before
  unfiltered_before_sound current [] h = cc
  unfiltered_before_sound current (p ∷ past) h = elim (Option-cases (no_data_params p)) [
    | inl e ↦ inr (unfiltered_before_sound current past (ground arith))
    | inr (q, e) ↦ elim (Option-cases (a.read q)) [
      | inl f ↦ absurd (ground arith)
      | inr (old, f) ↦ elim (Bool-cases (same_window current old)) [
        | inl g ↦
            let (name, status, params, some_params) = no_data_params-IsWithoutData p q e in
            inl (
              name,
              status,
              (q, params, some_params, (old, f, same_window-IsSameWindow current old g)),
            )
        | inr g ↦ inr (unfiltered_before_sound current past (ground arith))
      ]
    ]
  ]

  -- A past call of the tool with the same arguments.
  abbrev pub IsSameCall : Text → P → PastCall P → Type 0
  IsSameCall name params past =
      (past.past_name ≡ name) × ((q : P) × (past.past_params ≡ some q) × (a.same q params ≡ true))

  same_call-IsSameCall :
      (name : Text) (params : P) (past : PastCall P)
      → (same_call name params past ≡ true) ↔ IsSameCall name params past
  unfolding same_call
  same_call-IsSameCall name params past = elim (Option-cases past.past_params) [
    | inl e ↦ (λ h. absurd (ground arith), λ h. absurd (ground arith))
    | inr (q, e) ↦ (
      λ h. (ground (arith, text_eq_iff past.past_name name), (q, e, ground arith)),
      λ (n, (q', e', t)). ground (arith, text_eq_iff past.past_name name),
    )
  ]

  map-Any :
      (Q R : PastCall P → Type 0) (past : List (PastCall P))
      → ((p : PastCall P) → Q p → R p)
      → Any Q past
      → Any R past
  map-Any Q R [] f h = h
  map-Any Q R (p ∷ past) f h = elim h [ inl q ↦ inl (f p q) | inr r ↦ inr (map-Any Q R past f r) ]

  -- A call is refused only while the check is on, and only because a past call of the tool had the
  -- same arguments, or because this is a filtered `fetch_pod_logs` and an unfiltered one for the
  -- same pod and window found no data. The refusal is an error that carries the arguments.
  pub prevent_sound :
      (enabled : Bool) (name : Text) (params : P) (past : List (PastCall P))
      (r : StructuredToolResult P)
      → prevent_overly_repeated_tool_call enabled name params past ≡ some r
      → (enabled ≡ true)
        × (r.status ≡ error)
        × (r.params ≡ some params)
        × (Any (IsSameCall name params) past
            ⊎ ((name ≡ pod_logging_tool_name)
                × (a.has_filter params ≡ true)
                × ((current : FetchPodLogsParams) × (a.read params ≡ some current)
                    × Any (ShowsNoLogs current) past)))
  unfolding prevent_overly_repeated_tool_call
  prevent_sound enabled name params past r h = (ground arith, ground arith, ground arith, why)
    where
      why :
          Any (IsSameCall name params) past
          ⊎ ((name ≡ pod_logging_tool_name)
              × (a.has_filter params ≡ true)
              × ((current : FetchPodLogsParams) × (a.read params ≡ some current)
                  × Any (ShowsNoLogs current) past))
      why = elim (Bool-cases (any (same_call name params) past)) [
        | inl e ↦ inl (
            map-Any (λ p. same_call name params p ≡ true) (IsSameCall name params) past
              (λ p. (same_call-IsSameCall name params p).0)
              ((any_iff (same_call name params) past).0 e))
        | inr e ↦ elim (Option-cases (a.read params)) [
          | inl f ↦ absurd (ground arith)
          | inr (current, f) ↦ inr (
            ground (arith, text_eq_iff name pod_logging_tool_name),
            ground arith,
            (current, f, unfiltered_before_sound current past (ground arith)),
          )
        ]
      ]

  -- While the check is on, every exact repetition is refused.
  pub prevent_complete :
      (name : Text) (params : P) (past : List (PastCall P))
      → Any (IsSameCall name params) past
      → prevent_overly_repeated_tool_call true name params past
        ≡ some (error_result repeated_message (some params))
  unfolding prevent_overly_repeated_tool_call
  prevent_complete name params past h = rw (
      (any_iff (same_call name params) past).1 (
        map-Any (IsSameCall name params) (λ p. same_call name params p ≡ true) past
          (λ p. (same_call-IsSameCall name params p).1) h))
