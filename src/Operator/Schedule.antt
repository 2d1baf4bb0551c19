-- ===== src/Operator/Schedule.antt =====
-- `SchedulerManager` (holmes_operator/scheduler/manager.py) and the handlers of scheduled health
-- checks (holmes_operator/handlers/scheduledhealthcheck.py).
use canis.Prelude.{
  ℕ, Bool, true, false, not, ◌&&◌, ◌||◌, ◌==◌, Option, none, some, List, [], ◌∷◌, ◌++◌,
  if◌then◌else◌, Text, codes, text_eq, Dict, dict_get, dict_set, dict_pop,
}
use canis.Tools.Result.{Outcome, returned, raised}

pub data CheckMode : Type 0 where
  alert monitor : CheckMode

-- A destination is kept as its dump.
pub record ScheduledHealthCheckSpec : Type 0 where
  pub schedule : Text
  pub enabled : Bool
  pub query : Text
  pub timeout : ℕ
  pub mode : CheckMode
  pub model : Option Text
  pub destinations : List Text

-- The arguments of a job: the key `namespace/name`, the spec and the owner.
pub record Job : Type 0 where
  pub key : Text
  pub cron : Text
  pub spec : ScheduledHealthCheckSpec
  pub uid : Text

-- APScheduler: `add_job(replace_existing=True)` and `remove_job` of a scheduler state `J`, and the
-- job of an identifier. `CronTrigger.from_crontab` gives an error text for what it does not accept.
pub record Scheduler (J : Type 0) : Type 0 where
  pub from_crontab : Text → Option Text
  pub add_job : Text → Job → J → Outcome (Unit {0}) × J
  pub remove_job : Text → J → Outcome (Unit {0}) × J
  pub get_job : Text → J → Option Job

pub record SchedulerManager (J : Type 0) : Type 0 where
  pub scheduler : J
  pub job_registry : Dict Text
  -- the reasons of the conditions that were set, by key, the last first
  pub conditions : List (Text × Text)

-- A resource, or the text of the error that its validation raises.
pub data Event : Type 0 where
  created : Text → Text → Outcome ScheduledHealthCheckSpec → Event
  updated :
      Text → Text → Outcome ScheduledHealthCheckSpec → Outcome ScheduledHealthCheckSpec → Event
  deleted : Text → Event

abbrev pub mode_eq : CheckMode → CheckMode → Bool
mode_eq alert alert = true
mode_eq monitor monitor = true
mode_eq alert monitor = false
mode_eq monitor alert = false

abbrev pub option_text_eq : Option Text → Option Text → Bool
option_text_eq none none = true
option_text_eq (some s) (some t) = text_eq s t
option_text_eq none (some t) = false
option_text_eq (some s) none = false

abbrev pub texts_eq : List Text → List Text → Bool
texts_eq [] [] = true
texts_eq (s ∷ ss) (t ∷ ts) = text_eq s t && texts_eq ss ts
texts_eq [] (t ∷ ts) = false
texts_eq (s ∷ ss) [] = false

unfoldable pub spec_changed : ScheduledHealthCheckSpec → ScheduledHealthCheckSpec → Bool
spec_changed old new =
    not (text_eq old.schedule new.schedule)
    || (not (text_eq old.query new.query)
        || (not (old.timeout == new.timeout)
            || (not (mode_eq old.mode new.mode)
                || (not (option_text_eq old.model new.model)
                    || not (texts_eq old.destinations new.destinations)))))

abbrev pub bool_eq : Bool → Bool → Bool
bool_eq true b = b
bool_eq false b = not b

module _ {J : Type 0} (sch : Scheduler J) where
  abbrev pub set_condition : Text → Text → SchedulerManager J → SchedulerManager J
  set_condition key reason m = record m { conditions = (key, reason) ∷ m.conditions }

  -- The exception's text, and whether it is a `ValueError`.
  unfoldable pub add_schedule :
      Text
      → ScheduledHealthCheckSpec
      → Text
      → SchedulerManager J
      → Option (Text × Bool) × SchedulerManager J
  add_schedule key spec uid m = elim (sch.from_crontab spec.schedule) [
    | some e ↦
        (some (codes "Invalid cron expression '" ++ (spec.schedule ++ (codes "': " ++ e)), true), m)
    | none ↦
        let job : Job = record { key = key; cron = spec.schedule; spec = spec; uid = uid } in
        let (o, j) = sch.add_job key job m.scheduler in
        elim o [
          | raised e ↦ (some (e, false), record m { scheduler = j })
          | returned u ↦
              (none, record m { scheduler = j; job_registry = dict_set key key m.job_registry })
        ]
  ]

  unfoldable pub remove_schedule : Text → SchedulerManager J → SchedulerManager J
  remove_schedule key m = elim (dict_get key m.job_registry) [
    | none ↦ m
    | some job_id ↦
        let (o, j) = sch.remove_job job_id m.scheduler in
        record m { scheduler = j; job_registry = dict_pop key m.job_registry }
  ]

  abbrev pub finish_register :
      Text → Option (Text × Bool) × SchedulerManager J → Outcome (Unit {0}) × SchedulerManager J
  finish_register key (none, m) = (returned tt, set_condition key (codes "Registered") m)
  finish_register key (some (e, true), m) = (raised e, set_condition key (codes "InvalidCron") m)
  finish_register key (some (e, false), m) = (raised e, set_condition key (codes "InternalError") m)

  unfoldable pub register_scheduled_healthcheck :
      Text
      → Text
      → ScheduledHealthCheckSpec
      → SchedulerManager J
      → Outcome (Unit {0}) × SchedulerManager J
  unfolding add_schedule
  register_scheduled_healthcheck key uid spec m = finish_register key (add_schedule key spec uid m)

  unfoldable pub unregister_scheduled_healthcheck :
      Text → Bool → SchedulerManager J → SchedulerManager J
  unfolding remove_schedule
  unregister_scheduled_healthcheck key unschedule m =
      set_condition key (codes "Disabled") (if unschedule then remove_schedule key m else m)

  abbrev pub finish_update :
      Text → Option (Text × Bool) × SchedulerManager J → Outcome (Unit {0}) × SchedulerManager J
  finish_update key (none, m) = (returned tt, set_condition key (codes "Updated") m)
  finish_update key (some (e, is_value_error), m) = (raised e, m)

  unfoldable pub update_scheduled_healthcheck :
      Text
      → Text
      → ScheduledHealthCheckSpec
      → SchedulerManager J
      → Outcome (Unit {0}) × SchedulerManager J
  unfolding add_schedule
  update_scheduled_healthcheck key uid spec m = finish_update key (add_schedule key spec uid m)

  unfoldable pub on_create :
      Text
      → Text
      → Outcome ScheduledHealthCheckSpec
      → SchedulerManager J
      → Outcome (Unit {0}) × SchedulerManager J
  unfolding register_scheduled_healthcheck unregister_scheduled_healthcheck
  on_create key uid (raised e) m = (raised e, m)
  on_create key uid (returned spec) m =
      if spec.enabled
      then register_scheduled_healthcheck key uid spec m
      else (returned tt, unregister_scheduled_healthcheck key false m)

  unfoldable pub on_update :
      Text
      → Text
      → Outcome ScheduledHealthCheckSpec
      → Outcome ScheduledHealthCheckSpec
      → SchedulerManager J
      → Outcome (Unit {0}) × SchedulerManager J
  unfolding register_scheduled_healthcheck unregister_scheduled_healthcheck
      update_scheduled_healthcheck
  on_update key uid (raised e) new m = (raised e, m)
  on_update key uid (returned old) (raised e) m = (raised e, m)
  on_update key uid (returned old) (returned new) m =
      if not (bool_eq old.enabled new.enabled)
      then (if new.enabled
          then register_scheduled_healthcheck key uid new m
          else (returned tt, unregister_scheduled_healthcheck key true m))
      else if new.enabled && spec_changed old new
      then update_scheduled_healthcheck key uid new m
      else (returned tt, m)

  unfoldable pub on_delete : Text → SchedulerManager J → Outcome (Unit {0}) × SchedulerManager J
  unfolding unregister_scheduled_healthcheck
  on_delete key m = (returned tt, unregister_scheduled_healthcheck key true m)

  unfoldable pub handle : Event → SchedulerManager J → Outcome (Unit {0}) × SchedulerManager J
  unfolding on_create on_update on_delete
  handle (created key uid spec) m = on_create key uid spec m
  handle (updated key uid old new) m = on_update key uid old new m
  handle (deleted key) m = on_delete key m
