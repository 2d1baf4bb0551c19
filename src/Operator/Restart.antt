-- ===== src/Operator/Restart.antt =====
-- The operator after a start (holmes_operator/scheduler/manager.py,
-- holmes_operator/handlers/scheduledhealthcheck.py).
use canis.Prelude.{
  true, false, ◌≡◌, ap, ◌∙◌, inl, inr, none, some, List, [], ◌∷◌, Bool-cases, Text, dict_get,
  dict_set,
}
use canis.Tools.Result.{returned}
use canis.Operator.Schedule.{ScheduledHealthCheckSpec, Scheduler, SchedulerManager, Event}
use canis.Operator.Matches.{
  IsScheduler, Cluster, Matches, with_job, with_job-Matches, add_schedule_succeeds,
  disabled_Matches,
}
use canis.Operator.Events.{Run, handle_all, handle_all-Matches}
use canis.Operator.Startup.{
  ListedCheck, metadata_of, load_spec, load_check, load_existing_schedules,
}

module _ {J : Type 0} (sch : Scheduler J) where
  -- The list of the resources of a cluster: each stands once, with a spec and a schedule that can be
  -- read, or with incomplete metadata, which is no resource.
  pub data Listing : Cluster → List ListedCheck → Cluster → Type 0 where
    end : {c : Cluster} → Listing c [] c
    nameless :
        {c d : Cluster} {rs : List ListedCheck} (r : ListedCheck)
        → metadata_of r ≡ none
        → Listing c rs d
        → Listing c (r ∷ rs) d
    listed :
        {c d : Cluster} {rs : List ListedCheck} (r : ListedCheck) (key uid : Text)
        (spec : ScheduledHealthCheckSpec)
        → metadata_of r ≡ some (key, uid)
        → r.spec ≡ returned spec
        → r.enabled ≡ spec.enabled
        → sch.from_crontab spec.schedule ≡ none
        → dict_get key c ≡ none
        → Listing (dict_set key (uid, spec) c) rs d
        → Listing c (r ∷ rs) d

module _ {J : Type 0} (sch : Scheduler J) (laws : IsScheduler sch) where
  load_nameless :
      (m : SchedulerManager J) (r : ListedCheck) → metadata_of r ≡ none → load_check sch r m ≡ m
  unfolding load_check
  load_nameless m r bad = rw (load_check, bad)

  load_disabled :
      (m : SchedulerManager J) (r : ListedCheck) (key uid : Text)
      → metadata_of r ≡ some (key, uid)
      → r.enabled ≡ false
      → load_check sch r m ≡ m
  unfolding load_check
  load_disabled m r key uid named off = rw (load_check, named) (rw off)

  load_enabled :
      (m : SchedulerManager J) (r : ListedCheck) (key uid : Text) (spec : ScheduledHealthCheckSpec)
      → metadata_of r ≡ some (key, uid)
      → r.spec ≡ returned spec
      → r.enabled ≡ true
      → sch.from_crontab spec.schedule ≡ none
      → load_check sch r m ≡ with_job sch laws key uid spec m
  unfolding load_check load_spec
  load_enabled m r key uid spec named read on cron =
      rw (load_check, named)
        (rw on (
          rw (load_spec, read)
            (ap (λ t. t.1) (add_schedule_succeeds sch laws m key uid spec cron))))

  load_check-Matches :
      (c : Cluster) (m : SchedulerManager J) (r : ListedCheck) (key uid : Text)
      (spec : ScheduledHealthCheckSpec)
      → metadata_of r ≡ some (key, uid)
      → r.spec ≡ returned spec
      → r.enabled ≡ spec.enabled
      → sch.from_crontab spec.schedule ≡ none
      → dict_get key c ≡ none
      → Matches sch c m
      → Matches sch (dict_set key (uid, spec) c) (load_check sch r m)
  load_check-Matches c m r key uid spec named read same cron fresh h =
      elim (Bool-cases spec.enabled) [
        | inl on ↦
            rw (load_enabled m r key uid spec named read (same ∙ on) cron)
              (with_job-Matches sch laws c m key uid spec on h)
        | inr off ↦
            rw (load_disabled m r key uid named (same ∙ off))
              (disabled_Matches sch laws c m key uid spec off (rw fresh) h)
      ]

  load_existing_schedules-Matches :
      (c d : Cluster) (rs : List ListedCheck) (m : SchedulerManager J)
      → Listing sch c rs d
      → Matches sch c m
      → Matches sch d (load_existing_schedules sch rs m)
  unfolding load_existing_schedules
  load_existing_schedules-Matches c _ _ m end h = h
  load_existing_schedules-Matches c d _ m (nameless {rs = rs} r bad rest) h =
      load_existing_schedules-Matches c d rs (load_check sch r m) rest
        (rw (load_nameless m r bad) h)
  load_existing_schedules-Matches c d _ m
        (listed {rs = rs} r key uid spec named read same cron fresh rest) h =
      load_existing_schedules-Matches (dict_set key (uid, spec) c) d rs (load_check sch r m) rest
        (load_check-Matches c m r key uid spec named read same cron fresh h)

  -- When the scheduler keeps its promises and has no job at first, and the operator loads the listed
  -- resources of a cluster and then handles the events of a run of it, with specs and cron
  -- expressions that can be read, no handler raises and the last state matches the last cluster:
  -- each key has exactly the job of its resource, with the resource's current spec, if that is
  -- enabled, and none otherwise.
  pub restart-Matches :
      (c d : Cluster) (rs : List ListedCheck) (es : List Event) (m : SchedulerManager J)
      → Matches sch [] m
      → Listing sch [] rs c
      → Run sch c es d
      → (m' : SchedulerManager J) × ((handle_all sch es (load_existing_schedules sch rs m)
            ≡ some m')
          × Matches sch d m')
  restart-Matches c d rs es m h listing run =
      handle_all-Matches sch laws c d es (load_existing_schedules sch rs m) run
        (load_existing_schedules-Matches [] c rs m listing h)
