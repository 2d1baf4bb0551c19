-- ===== src/Logs/Fetch.antt =====
-- `_fetch_kubectl_logs`, `format_logs` and `fetch_pod_logs`
-- (holmes/plugins/toolsets/kubernetes_logs.py).
use canis.Prelude.{
  ℕ, Bool, true, false, not, ◌&&◌, ◌||◌, ◌≡◌, ◌≢◌, refl, inl, inr, Option, none, some, List, [],
  ◌∷◌, ◌++◌, map, if◌then◌else◌, arith, Text, codes, strip, join, length, ℤ, pos, int_eq,
  Bool-cases,
}
use canis.Tools.Json.{str}
use canis.Tools.Result.{
  StructuredToolResult, success, error, no_data, error_result, Outcome, returned, raised,
}
use canis.Logs.Lines.{StructuredLog, LogResult, Timestamps, newline, parse_kubectl_logs}
use canis.Logs.Filter.{LogQuery, Regex, Filtered, filter_logs}

-- What `subprocess.run` of kubectl does: it exits, times out or raises.
pub data KubectlRun : Type 0 where
  exited : ℤ → Text → KubectlRun
  timed_out : KubectlRun
  failed_to_run : Text → KubectlRun

-- `kubectl logs` of the pod, `--previous` or not; the parsers' parameters; the query that the
-- parameters of the call give, which raises for a time that cannot be read; the spelling of a
-- number; the lines of `add_metadata`; and the dumped parameters of the call.
pub record Kubectl (P : Type 0) : Type 0 where
  pub run : Bool → KubectlRun
  pub timestamps : Timestamps
  pub regex : Regex
  pub query : Outcome LogQuery
  pub show_int : ℤ → Text
  pub timeout_seconds : Text
  pub metadata : ℕ → Filtered → Bool → List Text
  pub dumped : P

abbrev pub failed_fetch : Text → Option ℤ → LogResult
failed_fetch message code = record {
  error_text = some message;
  return_code = code;
  has_multiple_containers = false;
  logs = [];
}

abbrev pub or_default : Text → Text → Text
or_default [] default = default
or_default (c ∷ s) default = c ∷ s

abbrev pub has_logs : LogResult → Bool
has_logs r = elim r.logs [ [] ↦ false | l ∷ ls ↦ true ]

-- `previous.error and current.error`, as truth values
abbrev pub has_error : LogResult → Bool
has_error r = elim r.error_text [ none ↦ false | some [] ↦ false | some (c ∷ s) ↦ true ]

-- `log.container or 'N/A'`
abbrev pub container_name : Option Text → Text
container_name none = codes "N/A"
container_name (some []) = codes "N/A"
container_name (some (c ∷ s)) = c ∷ s

unfoldable pub format_logs : List StructuredLog → Bool → Text
format_logs logs display_container_name =
    if display_container_name
    then join (newline ∷ [])
        (map (λ (l : StructuredLog). container_name l.container ++ (codes ": " ++ l.content)) logs)
    else join (newline ∷ []) (map (λ (l : StructuredLog). l.content) logs)

module _ {P : Type 0} (k : Kubectl P) where
  unfoldable pub fetch_kubectl_logs : Bool → LogResult
  unfolding parse_kubectl_logs strip
  fetch_kubectl_logs previous = elim (k.run previous) [
    | exited code output ↦
        if int_eq code (pos 0)
        then (let r = parse_kubectl_logs k.timestamps output in
            record r { return_code = some code })
        else failed_fetch
            (or_default (strip output)
              (codes "kubectl logs command failed with return code " ++ k.show_int code))
            (some code)
    | timed_out ↦
        failed_fetch
          (codes "kubectl logs command timed out after " ++ (k.timeout_seconds ++ codes " seconds"))
          none
    | failed_to_run e ↦ failed_fetch (codes "Error executing kubectl: " ++ e) none
  ]

  abbrev pub return_code_of : LogResult → LogResult → Option ℤ
  return_code_of previous current =
      if has_logs current
      then current.return_code
      else if has_logs previous
      then previous.return_code
      else current.return_code

  -- The answer for the logs that are left.
  unfoldable pub logs_result : ℕ → Bool → Option ℤ → Filtered → StructuredToolResult P
  unfolding format_logs
  logs_result total multiple code f =
      let notes = join (newline ∷ []) (k.metadata total f multiple) in
      let text : Text = elim f.filtered_logs [
        | [] ↦ notes
        | l ∷ ls ↦ format_logs (l ∷ ls) multiple ++ (newline ∷ notes)
      ] in
      record {
        status = elim f.filtered_logs [ [] ↦ no_data | l ∷ ls ↦ success ];
        error_text = none;
        return_code = code;
        result_data = str text;
        url = none;
        invocation = none;
        params = some k.dumped;
        icon_url = none;
      }

  -- The answer for what the two fetches gave.
  unfoldable pub answer_logs : LogResult → LogResult → StructuredToolResult P
  unfolding logs_result
  answer_logs previous current =
      let all_logs = previous.logs ++ current.logs in
      let code = return_code_of previous current in
      let failure = error_result {P = P} [] (some k.dumped) in
      if not (has_logs previous)
        && not (has_logs current)
        && (has_error previous && has_error current)
      then record failure { error_text = current.error_text; return_code = code }
      else elim k.query [
        | raised e ↦ error_result (codes "Error fetching logs: " ++ e) (some k.dumped)
        | returned q ↦
            logs_result (length all_logs)
              (previous.has_multiple_containers || current.has_multiple_containers) code
              (filter_logs k.regex q all_logs)
      ]

  unfoldable pub fetch_pod_logs : StructuredToolResult P
  unfolding fetch_kubectl_logs answer_logs
  fetch_pod_logs = answer_logs (fetch_kubectl_logs true) (fetch_kubectl_logs false)

  abbrev pub BothFail : LogResult → LogResult → Type 0
  BothFail previous current =
      (previous.logs ≡ [])
      × (current.logs ≡ [])
      × (has_error previous ≡ true)
      × (has_error current ≡ true)

  abbrev pub Answers : LogResult → LogResult → StructuredToolResult P → Type 0
  Answers previous current answer =
      (BothFail previous current
        → (answer.status ≡ error) × (answer.error_text ≡ current.error_text))
      × (¬ (BothFail previous current)
          → ((e : Text) → k.query ≡ raised e → answer.status ≡ error)
            × ((q : LogQuery)
                → k.query ≡ returned q
                → let passing =
                    (filter_logs k.regex q (previous.logs ++ current.logs)).filtered_logs in
                  (passing ≡ [] → answer.status ≡ no_data)
                  × (passing ≢ [] → answer.status ≡ success)))

  logs_result-status :
      (total : ℕ) (multiple : Bool) (code : Option ℤ) (f : Filtered)
      → (f.filtered_logs ≡ [] → (logs_result total multiple code f).status ≡ no_data)
        × (f.filtered_logs ≢ [] → (logs_result total multiple code f).status ≡ success)
  unfolding logs_result
  logs_result-status total multiple code f = (λ e. rw e refl, λ some_left. ground arith)

  has_logs-none : (r : LogResult) → has_logs r ≡ false → r.logs ≡ []
  has_logs-none r h = ground arith

  not_both : LogResult → LogResult → Bool
  not_both previous current =
      not (has_logs previous) && not (has_logs current) && (has_error previous && has_error current)

  answer_logs-Answers :
      (previous current : LogResult) → Answers previous current (answer_logs previous current)
  unfolding answer_logs not_both
  answer_logs-Answers previous current = (
    λ (a, b, c, d). (ground arith, ground arith),
    λ kept. elim (Bool-cases (not_both previous current)) [
      | inl both ↦ absurd (kept (ground arith, ground arith, ground arith, ground arith))
      | inr other ↦ (
        λ e q. ground arith,
        λ q e.
            let (none_left, some_left) =
              logs_result-status (length (previous.logs ++ current.logs))
                (previous.has_multiple_containers || current.has_multiple_containers)
                (return_code_of previous current)
                (filter_logs k.regex q (previous.logs ++ current.logs)) in
            (λ h. rw other (rw e (none_left h)), λ h. rw other (rw e (some_left h))),
      )
    ],
  )

  -- If both fetches fail, with no logs and an error each, the answer is the error of the current
  -- logs. Otherwise it is an error if the times cannot be read, and else it has no data exactly when
  -- no log of the previous and then the current container passes the filters.
  pub fetch_pod_logs_lem :
      Answers (fetch_kubectl_logs true) (fetch_kubectl_logs false) fetch_pod_logs
  unfolding fetch_pod_logs
  fetch_pod_logs_lem = answer_logs-Answers (fetch_kubectl_logs true) (fetch_kubectl_logs false)
