-- ===== src/Operator/Watch.antt =====
-- `watch_healthcheck_completion` (holmes_operator/scheduler/job_executor.py).
use canis.Prelude.{
  ℕ, zero, suc, ◌+◌, ◌-◌, ◌*◌, ◌/◌, min, ltb, Bool, false, ◌||◌, ◌==◌, Option, none, some, [], ◌++◌,
  if◌then◌else◌, Text, codes, text_eq,
}
use canis.Operator.Status.{
  CheckStatus, pass, fail, error, HistoryItem, HealthCheck, Reply, ok, api_exception, exception,
  KubeApi, remove_from_active, move_to_history,
}

unfoldable pub check_status : Option Text → CheckStatus
check_status none = error
check_status (some s) =
    if text_eq s (codes "pass") then pass else if text_eq s (codes "fail") then fail else error

unfoldable pub is_over : Option Text → Bool
is_over none = false
is_over (some phase) = text_eq phase (codes "Completed") || text_eq phase (codes "Failed")

abbrev pub text_or_empty : Option Text → Text
text_or_empty none = []
text_or_empty (some s) = s

abbrev pub number_or_zero : Option ℕ → ℕ
number_or_zero none = 0
number_or_zero (some n) = n

-- One turn of the loop ends it, or the watcher sleeps.
pub data Turn (K : Type 0) : Type 0 where
  done : Reply (Unit {0}) → K → Turn K
  again : K → Turn K

-- A watcher: the check, its start, the limits, in 160ths of a second, and the format of a duration.
pub record Watcher : Type 0 where
  pub check_name : Text
  pub start : ℕ
  pub max_wait : ℕ
  pub max_history : ℕ
  pub shown : ℕ → Text

module _ {K : Type 0} (api : KubeApi K) where
  abbrev pub item_of : Watcher → CheckStatus → Text → ℕ → HistoryItem
  item_of w result message duration = record {
    execution_time = api.iso w.start;
    result = result;
    duration = duration;
    check_name = w.check_name;
    message = message;
  }

  abbrev pub elapsed : Watcher → K → ℕ
  elapsed w k = api.now k - w.start

  -- Within the `try` statement: a status of 404 is taken for a deleted check, whichever call has it.
  unfoldable pub excepted : Watcher → ℕ → K → Turn K
  unfolding remove_from_active
  excepted w code k =
      if code == 404 then done (ok tt) (remove_from_active api w.check_name k) else again k

  unfoldable pub recorded : Watcher → HealthCheck → K → Turn K
  unfolding move_to_history excepted check_status
  recorded w hc k =
      let (r, k') =
        move_to_history api w.max_history
          (item_of w (check_status hc.result) (text_or_empty hc.message)
            (number_or_zero hc.duration))
          k in
      elim r [
        | ok u ↦ done (ok tt) k'
        | api_exception code ↦ excepted w code k'
        | exception e ↦ again k'
      ]

  unfoldable pub turn : Watcher → K → Turn K
  unfolding recorded is_over move_to_history
  turn w k =
      if ltb w.max_wait (elapsed w k)
      then (let message =
            codes "Watcher timeout after " ++ (w.shown (elapsed w k) ++ codes " seconds") in
          let (r, k') =
            move_to_history api w.max_history (item_of w error message (elapsed w k)) k in
          done r k')
      else (let (r, k') = api.get_check w.check_name k in
          elim r [
            | ok hc ↦ if is_over hc.phase then recorded w hc k' else again k'
            | api_exception code ↦ excepted w code k'
            | exception e ↦ again k'
          ])

  -- The loop with fuel, and the interval to the next poll: 5 seconds at first, half as long again
  -- each time, 30 seconds at most.
  unfoldable pub poll : ℕ → Watcher → ℕ → K → Option (Reply (Unit {0}) × K)
  unfolding turn
  poll zero w interval k = none
  poll (suc fuel) w interval k = elim (turn w k) [
    | done r k' ↦ some (r, k')
    | again k' ↦ poll fuel w (min (interval * 3 / 2) 4800) (api.sleep interval k')
  ]

  -- Each turn that does not end the loop takes 5 seconds or more.
  unfoldable pub watch_healthcheck_completion :
      Text → ℕ → ℕ → (ℕ → Text) → K → Option (Reply (Unit {0}) × K)
  unfolding poll
  watch_healthcheck_completion check_name max_wait max_history shown k =
      poll (suc (max_wait / 800 + 1))
        (record {
          check_name = check_name;
          start = api.now k;
          max_wait = max_wait;
          max_history = max_history;
          shown = shown;
        })
        800 k
