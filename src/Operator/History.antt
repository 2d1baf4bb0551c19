-- ===== src/Operator/History.antt =====
-- The history of a scheduled health check (holmes_operator/scheduler/job_executor.py,
-- `_move_to_history`).
use canis.Prelude.{
  ℕ, ◌≤◌, false, ◌≡◌, refl, inl, inr, some, List, [], ◌∷◌, length, take, length-take, All, arith,
  Bool-cases, Text, text_eq,
}
use canis.Operator.Status.{
  ActiveRef, Status, Resource, HistoryItem, ok, api_exception, exception, KubeApi,
  patch_status_with_retry, history_updates, move_to_history, others,
}
use canis.Operator.Atomic.{
  IsVersioned, Waiting, merged, Reply-cases, patch_status_with_retry-Applied,
}

-- What the recording of a finished check leaves: the item first in a history of at most `max`
-- items, and no active reference to the check; the other references and the older items are those
-- of a status that the server had before.
pub record IsMoved (max_history : ℕ) (item : HistoryItem) (before after : Status) : Type 0 where
  pub active : after.active ≡ others item.check_name before.active
  pub gone : All (λ ref. text_eq ref.name item.check_name ≡ false) after.active
  pub history : after.history ≡ take max_history (item ∷ before.history)
  pub bounded : length after.history ≤ max_history
  pub last_result : after.last_result ≡ some item.result
  pub last_schedule_time : after.last_schedule_time ≡ before.last_schedule_time

others-All :
    (name : Text) (refs : List ActiveRef)
    → All (λ ref. text_eq ref.name name ≡ false) (others name refs)
others-All name [] = tt
others-All name (ref ∷ refs) = elim (Bool-cases (text_eq ref.name name)) [
  | inl e ↦ rw e (others-All name refs)
  | inr e ↦ rw e (e, others-All name refs)
]

merged-IsMoved :
    (max_history : ℕ) (item : HistoryItem) (time : Text) (s : Status)
    → IsMoved max_history item s (merged (history_updates max_history item time s) s)
unfolding history_updates
merged-IsMoved max_history item time s = record {
  active = refl;
  gone = others-All item.check_name s.active;
  history = refl;
  bounded = omega (arith, length-take max_history (item ∷ s.history));
  last_result = refl;
  last_schedule_time = refl;
}

module _ {K : Type 0} (api : KubeApi K) (current : K → Resource)
    (laws : IsVersioned api current) where
  -- Recording succeeds only if the update of the status did.
  move_to_history_done :
      (max_history : ℕ) (item : HistoryItem) (k : K)
      → (move_to_history api max_history item k).0 ≡ ok tt
      → ((patch_status_with_retry api 5 (history_updates max_history item) k).0 ≡ ok tt)
        × ((move_to_history api max_history item k).1
            ≡ (patch_status_with_retry api 5 (history_updates max_history item) k).1)
  unfolding move_to_history
  move_to_history_done max_history item k done =
      elim (Reply-cases (patch_status_with_retry api 5 (history_updates max_history item) k).0) [
        | inl (u, e) ↦ (e, rw (move_to_history, e))
        | inr (inl (code, e)) ↦
            let bad : api_exception code ≡ ok tt = rw (move_to_history, e) at done in
            absurd (ground arith)
        | inr (inr (t, e)) ↦
            let bad : exception t ≡ ok tt = rw (move_to_history, e) at done in absurd (ground arith)
      ]

  -- When the server checks versions and the recording of a finished check returns, the server had,
  -- after reads, refused patches and pauses only, a status of which it made the last one: the item
  -- comes first in the history, which has at most `max_history` items and goes on with the older
  -- ones, no active reference to the check is left, and the references to other checks are kept.
  pub move_to_history-IsMoved :
      (max_history : ℕ) (item : HistoryItem) (k : K)
      → (move_to_history api max_history item k).0 ≡ ok tt
      → (before : K) × (Waiting api k before
          × IsMoved max_history item
              (current before).status
              (current (move_to_history api max_history item k).1).status)
  move_to_history-IsMoved max_history item k done =
      let (fine, same) = move_to_history_done max_history item k done in
      let applied =
        patch_status_with_retry-Applied api current laws 5 (history_updates max_history item) k
          (omega arith) fine in
      (
        applied.before,
        (
          applied.waited,
          rw same (
              rw applied.result
                (merged-IsMoved max_history item applied.time (current applied.before).status)),
        ),
      )
