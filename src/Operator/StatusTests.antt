-- ===== src/Operator/StatusTests.antt =====
-- The updates of the status and the watcher on a server with another writer.
use canis.Prelude.{
  ℕ, zero, suc, ◌+◌, ◌-◌, ◌≤◌, ◌<◌, ◌==◌, Bool, true, false, ◌≡◌, refl, Option, none, some, List,
  [], ◌∷◌, if◌then◌else◌, length, arith, Bool-cases, ◌⊎◌, inl, inr, Text, codes, text_eq,
  text_eq_iff,
}
use canis.Operator.Status.{
  fail, Status, StatusUpdates, Resource, HistoryItem, HealthCheck, Reply, ok, api_exception,
  KubeApi, patch_status_with_retry, removal_updates, history_updates, move_to_history,
}
use canis.Operator.Watch.{watch_healthcheck_completion}
use canis.Operator.Atomic.{merged, IsVersioned, Waiting, Applied, patch_status_with_retry-Applied}
use canis.Operator.History.{IsMoved, move_to_history-IsMoved}
use canis.Operator.Termination.{IsClock, watch_healthcheck_completion_lem}

-- A server, with the number of writes that another client still has to do, one after each read.
record Server : Type 0 where
  version : ℕ
  status : Status
  writes : ℕ
  clock : ℕ

abbrev current : Server → Resource
current s = record { version = s.version ∷ []; status = s.status }

abbrev other_write : ℕ → Server → Server
other_write zero s = s
other_write (suc n) s = record s {
  version = suc s.version;
  status = record s.status { message = some (codes "other") };
  writes = n;
}

abbrev patch : Text → StatusUpdates → Server → Reply (Unit {0}) × Server
patch v u s =
    if text_eq v (s.version ∷ [])
    then (ok tt, record s { version = suc s.version; status = merged u s.status })
    else (api_exception 409, s)

abbrev finished : HealthCheck
finished = record {
  uid = some (codes "u");
  phase = some (codes "Completed");
  result = some (codes "pass");
  message = none;
  duration = some 320;
}

abbrev api : KubeApi Server
api = record {
  get_scheduled = λ s. (ok (current s), other_write s.writes s);
  patch_status = patch;
  get_check = λ name s. (ok finished, s);
  sleep = λ n s. record s { clock = s.clock + n };
  now = λ s. s.clock;
  iso = λ n. n ∷ [];
}

other_write_version :
    (n : ℕ) (s : Server)
    → (current s).version ≡ (current (other_write n s)).version
    → s.status ≡ (other_write n s).status
other_write_version zero s same = refl
other_write_version (suc n) s same = absurd (ground arith)

api-IsVersioned : IsVersioned api current
api-IsVersioned = record {
  version_status = λ k r got same. ground (arith, other_write_version k.writes k (ground arith));
  accepted_version = λ k v u fine. ground (arith, text_eq_iff v (k.version ∷ []));
  accepted_status = λ k v u fine. ground arith;
}

other_write_clock : (n : ℕ) (s : Server) → s.clock ≤ (other_write n s).clock
other_write_clock zero s = omega arith
other_write_clock (suc n) s = omega arith

api-IsClock : IsClock api
api-IsClock = record {
  after_get = λ k. other_write_clock k.writes k;
  after_patch = λ v u k. ground arith;
  after_check = λ name k. omega arith;
  after_sleep = λ n k. omega arith;
}

abbrev fresh : Status
fresh = record {
  active = record { name = codes "c"; uid = codes "u"; start_time = [] } ∷ [];
  history = [];
  last_schedule_time = none;
  last_result = none;
  message = none;
  last_successful_time = none;
}

abbrev busy : Server
busy = record { version = 7; status = fresh; writes = 2; clock = 0 }

abbrev item : HistoryItem
item = record {
  execution_time = [];
  result = fail;
  duration = 320;
  check_name = codes "c";
  message = codes "down";
}

-- Two conflicts with the other writer, and the third attempt.
busy_history : length (move_to_history api 10 item busy).1.status.history ≡ 1
unfolding move_to_history history_updates canis.Prelude.text_eq
busy_history = refl

patch_status_with_retry-Applied_example :
    Applied api current
      (removal_updates (codes "c"))
      busy
      (patch_status_with_retry api 5 (removal_updates (codes "c")) busy).1
unfolding patch_status_with_retry removal_updates canis.Prelude.text_eq
patch_status_with_retry-Applied_example =
    patch_status_with_retry-Applied api current api-IsVersioned 5 (removal_updates (codes "c")) busy
      (omega arith) refl

move_to_history-IsMoved_example :
    (before : Server) × (Waiting api busy before
      × IsMoved 10 item before.status (move_to_history api 10 item busy).1.status)
unfolding move_to_history history_updates canis.Prelude.text_eq
move_to_history-IsMoved_example =
    move_to_history-IsMoved api current api-IsVersioned 10 item busy refl

watch_healthcheck_completion_example :
    (r : Reply (Unit {0}) × Server) × (watch_healthcheck_completion api
        (codes "c")
        96000
        10
        (λ n. [])
        busy
      ≡ some r)
watch_healthcheck_completion_example =
    watch_healthcheck_completion_lem api api-IsClock (codes "c") 96000 10 (λ n. []) busy
