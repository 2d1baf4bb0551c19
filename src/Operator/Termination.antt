-- ===== src/Operator/Termination.antt =====
-- The watcher ends (holmes_operator/scheduler/job_executor.py, `watch_healthcheck_completion`).
use canis.Prelude.{
  ℕ, zero, suc, ◌+◌, ◌*◌, ◌/◌, ◌≤◌, ◌<◌, min, ltb, true, false, ◌==◌, ◌≡◌, refl, ◌⊎◌, inl, inr,
  some, ◌++◌, arith, Bool-cases, Text, codes,
}
use canis.Operator.Status.{
  Status, StatusUpdates, HistoryItem, HealthCheck, error, Reply, KubeApi, Attempt, ended, conflict,
  refused, attempt, attempts, patch_status_with_retry, history_updates, removal_updates,
  remove_from_active, move_to_history,
}
use canis.Operator.Watch.{
  Turn, done, again, Watcher, is_over, elapsed, item_of, text_or_empty, number_or_zero,
  check_status, excepted, recorded, turn, poll, watch_healthcheck_completion,
}
use canis.Operator.Atomic.{Reply-cases, Attempt-cases}

module _ {K : Type 0} (api : KubeApi K) where
  -- The clock is not set back, and `sleep` takes the time that it is given.
  pub record IsClock : Type 0 where
    pub after_get : (k : K) → api.now k ≤ api.now (api.get_scheduled k).1
    pub after_patch :
        (v : Text) (u : StatusUpdates) (k : K) → api.now k ≤ api.now (api.patch_status v u k).1
    pub after_check : (name : Text) (k : K) → api.now k ≤ api.now (api.get_check name k).1
    pub after_sleep : (n : ℕ) (k : K) → api.now k + n ≤ api.now (api.sleep n k)

Turn-cases :
    {K : Type 0} (t : Turn K)
    → ((r : Reply (Unit {0})) × ((k : K) × (t ≡ done r k))) ⊎ ((k : K) × (t ≡ again k))
Turn-cases (done r k) = inl (r, (k, refl))
Turn-cases (again k) = inr (k, refl)

module _ {K : Type 0} (api : KubeApi K) (clock : IsClock api) where
  abbrev state_of_attempt : Attempt K → K
  state_of_attempt (ended r k) = k
  state_of_attempt (conflict k) = k

  refused_clock :
      (code : ℕ) (j k : K)
      → api.now j ≤ api.now k
      → api.now j ≤ api.now (state_of_attempt (refused api code k))
  unfolding refused
  refused_clock code j k h = elim (Bool-cases (code == 409)) [ inl e ↦ rw e h | inr e ↦ rw e h ]

  attempt_clock :
      (modify : Text → Status → StatusUpdates) (k : K)
      → api.now k ≤ api.now (state_of_attempt (attempt api modify k))
  unfolding attempt
  attempt_clock modify k =
      let k1 = (api.get_scheduled k).1 in
      let got = clock.after_get k in
      elim (Reply-cases (api.get_scheduled k).0) [
        | inl (r, e) ↦
            let u = modify (api.iso (api.now k1)) r.status in
            let patched : api.now k ≤ api.now (api.patch_status r.version u k1).1 =
              omega (arith, clock.after_patch r.version u k1) in
            rw (attempt, e)
              (elim (Reply-cases (api.patch_status r.version u k1).0) [
                | inl (v, e2) ↦ rw (attempt, e2) patched
                | inr (inl (code, e2)) ↦ rw (attempt, e2) (refused_clock code k _ patched)
                | inr (inr (t, e2)) ↦ rw (attempt, e2) patched
              ])
        | inr (inl (code, e)) ↦ rw (attempt, e) (refused_clock code k k1 got)
        | inr (inr (t, e)) ↦ rw (attempt, e) got
      ]

  attempts_clock :
      (left i : ℕ) (modify : Text → Status → StatusUpdates) (k : K)
      → api.now k ≤ api.now (attempts api left i modify k).1
  unfolding attempts
  attempts_clock zero i modify k = omega arith
  attempts_clock (suc left) i modify k = elim (Attempt-cases (attempt api modify k)) [
    | inl (r, (k', e)) ↦ rw (attempts, e) (rw e at (attempt_clock modify k))
    | inr (k', e) ↦
        let now' : api.now k ≤ api.now k' = rw e at (attempt_clock modify k) in
        let rest : api.now k
            ≤ api.now (attempts api left (suc i) modify (api.sleep (16 * suc i) k')).1 =
          omega (
            arith,
            clock.after_sleep (16 * suc i) k',
            attempts_clock left (suc i) modify (api.sleep (16 * suc i) k'),
          ) in
        rw (attempts, e) (elim (Bool-cases (left == 0)) [ inl z ↦ rw z now' | inr z ↦ rw z rest ])
  ]

  remove_clock : (name : Text) (k : K) → api.now k ≤ api.now (remove_from_active api name k)
  unfolding remove_from_active patch_status_with_retry
  remove_clock name k = attempts_clock 5 0 (removal_updates name) k

  move_clock :
      (max_history : ℕ) (item : HistoryItem) (k : K)
      → api.now k ≤ api.now (move_to_history api max_history item k).1
  unfolding move_to_history patch_status_with_retry
  move_clock max_history item k =
      let moved = attempts_clock 5 0 (history_updates max_history item) k in
      let cleaned =
        remove_clock item.check_name
          (patch_status_with_retry api 5 (history_updates max_history item) k).1 in
      elim (Reply-cases (patch_status_with_retry api 5 (history_updates max_history item) k).0) [
        | inl (u, e) ↦ rw (move_to_history, e) moved
        | inr (inl (code, e)) ↦ rw (move_to_history, e) (omega arith)
        | inr (inr (t, e)) ↦ rw (move_to_history, e) (omega arith)
      ]

  -- The state in which a turn that does not end the loop leaves the world is not earlier.
  abbrev Later : K → Turn K → Type 0
  Later k (done r k') = Unit
  Later k (again k') = api.now k ≤ api.now k'

  excepted-Later :
      (w : Watcher) (code : ℕ) (j k : K) → api.now j ≤ api.now k → Later j (excepted api w code k)
  unfolding excepted
  excepted-Later w code j k h = elim (Bool-cases (code == 404)) [ inl e ↦ rw e tt | inr e ↦ rw e h ]

  recorded-Later :
      (w : Watcher) (hc : HealthCheck) (j k : K)
      → api.now j ≤ api.now k
      → Later j (recorded api w hc k)
  unfolding recorded
  recorded-Later w hc j k h =
      let item =
        item_of api w (check_status hc.result) (text_or_empty hc.message)
          (number_or_zero hc.duration) in
      let moved : api.now j ≤ api.now (move_to_history api w.max_history item k).1 =
        omega (arith, move_clock w.max_history item k) in
      elim (Reply-cases (move_to_history api w.max_history item k).0) [
        | inl (u, e) ↦ rw (recorded, e) tt
        | inr (inl (code, e)) ↦ rw (recorded, e) (excepted-Later w code j _ moved)
        | inr (inr (t, e)) ↦ rw (recorded, e) moved
      ]

  turn-Later :
      (w : Watcher) (k : K) → ltb w.max_wait (elapsed api w k) ≡ false → Later k (turn api w k)
  unfolding turn
  turn-Later w k on_time =
      let checked = clock.after_check w.check_name k in
      elim (Reply-cases (api.get_check w.check_name k).0) [
        | inl (hc, e) ↦
            rw (turn, on_time)
              (rw e (elim (Bool-cases (is_over hc.phase)) [
                | inl over ↦ rw over (recorded-Later w hc k _ checked)
                | inr running ↦ rw running checked
              ]))
        | inr (inl (code, e)) ↦ rw (turn, on_time) (rw e (excepted-Later w code k _ checked))
        | inr (inr (t, e)) ↦ rw (turn, on_time) (rw e checked)
      ]

  turn_late :
      (w : Watcher) (k : K)
      → ltb w.max_wait (elapsed api w k) ≡ true
      → (r : Reply (Unit {0})) × ((k' : K) × (turn api w k ≡ done r k'))
  unfolding turn
  turn_late w k late =
      let message =
        codes "Watcher timeout after " ++ (w.shown (elapsed api w k) ++ codes " seconds") in
      let (r, k') =
        move_to_history api w.max_history (item_of api w error message (elapsed api w k)) k in
      (r, (k', rw (turn, late)))

  again_later : (w : Watcher) (k k' : K) → turn api w k ≡ again k' → api.now k ≤ api.now k'
  again_later w k k' e = elim (Bool-cases (ltb w.max_wait (elapsed api w k))) [
    | inl late ↦ let (r, (k'', e2)) = turn_late w k late in absurd (ground arith)
    | inr on_time ↦ rw e at (turn-Later w k on_time)
  ]

  poll-done :
      (fuel : ℕ) (w : Watcher) (interval : ℕ) (k k' : K) (r : Reply (Unit {0}))
      → turn api w k ≡ done r k'
      → poll api (suc fuel) w interval k ≡ some (r, k')
  unfolding poll
  poll-done fuel w interval k k' r e = rw (poll, e)

  poll-again :
      (fuel : ℕ) (w : Watcher) (interval : ℕ) (k k' : K)
      → turn api w k ≡ again k'
      → poll api (suc fuel) w interval k
        ≡ poll api fuel w (min (interval * 3 / 2) 4800) (api.sleep interval k')
  unfolding poll
  poll-again fuel w interval k k' e = rw (poll, e)

  poll_total :
      (fuel : ℕ) (w : Watcher) (interval : ℕ) (k : K)
      → 800 ≤ interval
      → w.start + w.max_wait < api.now k + fuel * 800
      → (r : Reply (Unit {0}) × K) × (poll api (suc fuel) w interval k ≡ some r)
  poll_total zero w interval k enough time =
      let (r, (k', e)) = turn_late w k (ground arith) in ((r, k'), poll-done 0 w interval k k' r e)
  poll_total (suc fuel) w interval k enough time = elim (Turn-cases (turn api w k)) [
    | inl (r, (k', e)) ↦ ((r, k'), poll-done (suc fuel) w interval k k' r e)
    | inr (k', e) ↦
        let later : api.now k ≤ api.now k' = again_later w k k' e in
        rw (poll-again (suc fuel) w interval k k' e) (
          poll_total fuel w (min (interval * 3 / 2) 4800) (api.sleep interval k') (omega arith)
            (omega (arith, clock.after_sleep interval k')))
  ]

  -- When the clock is not set back and `sleep` takes the time that it is given, the watcher returns,
  -- whatever the server answers, with a fuel of one turn for each five seconds of `max_wait` and two
  -- more.
  pub watch_healthcheck_completion_lem :
      (check_name : Text) (max_wait max_history : ℕ) (shown : ℕ → Text) (k : K)
      → (r : Reply (Unit {0}) × K) × (watch_healthcheck_completion api check_name max_wait
            max_history shown k
          ≡ some r)
  unfolding watch_healthcheck_completion
  watch_healthcheck_completion_lem check_name max_wait max_history shown k =
      poll_total (max_wait / 800 + 1)
        (record {
          check_name = check_name;
          start = api.now k;
          max_wait = max_wait;
          max_history = max_history;
          shown = shown;
        })
        800 k (omega arith) (omega arith)
