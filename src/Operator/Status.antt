-- ===== src/Operator/Status.antt =====
-- The status of a scheduled health check and its updates (holmes_operator/scheduler/job_executor.py:
-- `_patch_status_with_retry`, `_add_active_check`, `_move_to_history`, `_remove_from_active`).
use canis.Prelude.{
  ℕ, zero, suc, ◌*◌, Bool, true, false, not, ◌==◌, Option, none, some, List, [], ◌∷◌, ◌++◌,
  if◌then◌else◌, take, keep_if, Text, codes, text_eq,
}

pub data CheckStatus : Type 0 where
  pass fail error : CheckStatus

pub record ActiveRef : Type 0 where
  pub name : Text
  pub uid : Text
  pub start_time : Text

-- `duration` is in the unit of the clock.
pub record HistoryItem : Type 0 where
  pub execution_time : Text
  pub result : CheckStatus
  pub duration : ℕ
  pub check_name : Text
  pub message : Text

-- A missing list is empty.
pub record Status : Type 0 where
  pub active : List ActiveRef
  pub history : List HistoryItem
  pub last_schedule_time : Option Text
  pub last_result : Option CheckStatus
  pub message : Option Text
  pub last_successful_time : Option Text

-- The dictionary of status updates: `active` is in each, the others may be missing.
pub record StatusUpdates : Type 0 where
  pub active : List ActiveRef
  pub history : Option (List HistoryItem)
  pub last_schedule_time : Option Text
  pub last_result : Option CheckStatus
  pub message : Option Text
  pub last_successful_time : Option Text

pub record Resource : Type 0 where
  pub version : Text
  pub status : Status

pub record HealthCheck : Type 0 where
  pub uid : Option Text
  pub phase : Option Text
  pub result : Option Text
  pub message : Option Text
  pub duration : Option ℕ

-- What a call returns, the status of an `ApiException`, or the text of another exception.
pub data Reply (A : Type 0) : Type 0 where
  ok : A → Reply A
  api_exception : ℕ → Reply A
  exception : Text → Reply A

-- The client of the Kubernetes API, for one scheduled check, and the event loop's clock, in 160ths of
-- a second. `K` is the state of the world; other clients write in it during each call.
pub record KubeApi (K : Type 0) : Type 0 where
  pub get_scheduled : K → Reply Resource × K
  pub patch_status : Text → StatusUpdates → K → Reply (Unit {0}) × K
  pub get_check : Text → K → Reply HealthCheck × K
  pub sleep : ℕ → K → K
  pub now : K → ℕ
  pub iso : ℕ → Text

abbrev pub plain_updates : List ActiveRef → StatusUpdates
plain_updates active = record {
  active = active;
  history = none;
  last_schedule_time = none;
  last_result = none;
  message = none;
  last_successful_time = none;
}

abbrev pub others : Text → List ActiveRef → List ActiveRef
others check_name refs = keep_if (λ ref. not (text_eq ref.name check_name)) refs

-- The functions `modify_status`, with the time at which they are called.
unfoldable pub active_updates : Text → Text → Text → Text → Status → StatusUpdates
active_updates check_name check_uid start_time time status =
    record (plain_updates (
      status.active
      ++ (record { name = check_name; uid = check_uid; start_time = start_time } ∷ []))) {
        last_schedule_time = some start_time;
      }

abbrev pub is_pass : CheckStatus → Bool
is_pass pass = true
is_pass fail = false
is_pass error = false

unfoldable pub history_updates : ℕ → HistoryItem → Text → Status → StatusUpdates
history_updates max_history item time status = record {
  active = others item.check_name status.active;
  history = some (take max_history (item ∷ status.history));
  last_schedule_time = none;
  last_result = some item.result;
  message = some item.message;
  last_successful_time = if is_pass item.result then some time else none;
}

unfoldable pub removal_updates : Text → Text → Status → StatusUpdates
removal_updates check_name time status = plain_updates (others check_name status.active)

-- One attempt ends, or meets a conflict.
pub data Attempt (K : Type 0) : Type 0 where
  ended : Reply (Unit {0}) → K → Attempt K
  conflict : K → Attempt K

module _ {K : Type 0} (api : KubeApi K) where
  unfoldable pub refused : ℕ → K → Attempt K
  refused code k = if code == 409 then conflict k else ended (api_exception code) k

  unfoldable pub attempt : (Text → Status → StatusUpdates) → K → Attempt K
  unfolding refused
  attempt modify k =
      let (r, k1) = api.get_scheduled k in
      elim r [
        | api_exception code ↦ refused code k1
        | exception e ↦ ended (exception e) k1
        | ok resource ↦
            let (p, k2) =
              api.patch_status resource.version (modify (api.iso (api.now k1)) resource.status)
                k1 in
            elim p [
              | ok done ↦ ended (ok tt) k2
              | api_exception code ↦ refused code k2
              | exception e ↦ ended (exception e) k2
            ]
      ]

  -- The attempts that are left, and the number of the next one. The last message is without the
  -- number of retries.
  unfoldable pub attempts : ℕ → ℕ → (Text → Status → StatusUpdates) → K → Reply (Unit {0}) × K
  unfolding attempt
  attempts zero i modify k = (ok tt, k)
  attempts (suc left) i modify k = elim (attempt modify k) [
    | ended r k' ↦ (r, k')
    | conflict k' ↦
        if left == 0
        then (exception (codes "Max retries exceeded for status update"), k')
        else attempts left (suc i) modify (api.sleep (16 * suc i) k')
  ]

  unfoldable pub patch_status_with_retry :
      ℕ → (Text → Status → StatusUpdates) → K → Reply (Unit {0}) × K
  unfolding attempts
  patch_status_with_retry max_retries modify k = attempts max_retries 0 modify k

  unfoldable pub remove_from_active : Text → K → K
  unfolding patch_status_with_retry
  remove_from_active check_name k = (patch_status_with_retry 5 (removal_updates check_name) k).1

  unfoldable pub add_active_check : Text → Text → K → K
  unfolding patch_status_with_retry
  add_active_check check_name start_time k =
      let (r, k1) = api.get_check check_name k in
      elim r [
        | api_exception code ↦ k1
        | exception e ↦ k1
        | ok hc ↦
            (patch_status_with_retry 5
              (active_updates check_name (elim hc.uid [ none ↦ [] | some uid ↦ uid ]) start_time)
              k1).1
      ]

  unfoldable pub move_to_history : ℕ → HistoryItem → K → Reply (Unit {0}) × K
  unfolding patch_status_with_retry remove_from_active
  move_to_history max_history item k =
      let (r, k1) = patch_status_with_retry 5 (history_updates max_history item) k in
      let cleaned = remove_from_active item.check_name k1 in
      elim r [
        | ok done ↦ (ok tt, k1)
        | api_exception code ↦ (api_exception code, cleaned)
        | exception e ↦ (exception e, cleaned)
      ]
