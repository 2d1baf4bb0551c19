-- ===== src/Operator/Startup.antt =====
-- `_load_existing_schedules` (holmes_operator/scheduler/manager.py): the schedules at the start of the
-- operator.
use canis.Prelude.{Bool, Option, none, some, List, [], ◌∷◌, ◌++◌, if◌then◌else◌, Text, codes}
use canis.Tools.Result.{Outcome, returned, raised}
use canis.Operator.Schedule.{ScheduledHealthCheckSpec, Scheduler, SchedulerManager, add_schedule}

-- A listed resource: its metadata, `spec.get("enabled", True)`, and the validation of its spec.
pub record ListedCheck : Type 0 where
  pub name : Option Text
  pub namespace : Option Text
  pub uid : Option Text
  pub enabled : Bool
  pub spec : Outcome ScheduledHealthCheckSpec

-- A text that is missing or empty is not truthy.
abbrev pub truthy_text : Option Text → Option Text
truthy_text none = none
truthy_text (some []) = none
truthy_text (some (c ∷ s)) = some (c ∷ s)

-- The key and the uid of a resource, if its metadata is complete.
unfoldable pub metadata_of : ListedCheck → Option (Text × Text)
metadata_of r = elim (truthy_text r.name) [
  | none ↦ none
  | some name ↦ elim (truthy_text r.namespace) [
    | none ↦ none
    | some namespace ↦ elim (truthy_text r.uid) [
      | none ↦ none
      | some uid ↦ some (namespace ++ (codes "/" ++ name), uid)
    ]
  ]
]

module _ {J : Type 0} (sch : Scheduler J) where
  -- A spec that cannot be read, or a schedule that cannot be added, leaves the manager as it is then.
  unfoldable pub load_spec :
      Text → Text → Outcome ScheduledHealthCheckSpec → SchedulerManager J → SchedulerManager J
  unfolding add_schedule
  load_spec key uid (raised e) m = m
  load_spec key uid (returned spec) m = (add_schedule sch key spec uid m).1

  unfoldable pub load_check : ListedCheck → SchedulerManager J → SchedulerManager J
  unfolding load_spec metadata_of
  load_check r m = elim (metadata_of r) [
    | none ↦ m
    | some metadata ↦
        let (key, uid) = metadata in if r.enabled then load_spec key uid r.spec m else m
  ]

  unfoldable pub load_existing_schedules :
      List ListedCheck → SchedulerManager J → SchedulerManager J
  unfolding load_check
  load_existing_schedules [] m = m
  load_existing_schedules (r ∷ rs) m = load_existing_schedules rs (load_check r m)
