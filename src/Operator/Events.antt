-- ===== src/Operator/Events.antt =====
-- The runs of the handlers (holmes_operator/handlers/scheduledhealthcheck.py) on the events of a
-- cluster.
use canis.Prelude.{
  true, ◌≡◌, refl, inl, inr, Option, none, some, List, [], ◌∷◌, arith, Bool-cases, Text, codes,
  dict_get, dict_set, dict_pop,
}
use canis.Tools.Result.{Outcome, returned, raised}
use canis.Operator.Schedule.{
  spec_changed, ScheduledHealthCheckSpec, Scheduler, SchedulerManager, Event, created, updated,
  deleted, register_scheduled_healthcheck, unregister_scheduled_healthcheck,
  update_scheduled_healthcheck, on_create, on_update, on_delete, handle,
}
use canis.Operator.Matches.{
  IsScheduler, Cluster, Matches, spec_changed_same, with_job-Matches, add_schedule_succeeds,
  remove_schedule-Matches, set_condition-Matches, disabled_Matches, same_Matches, removed_Matches,
}

module _ {J : Type 0} (sch : Scheduler J) where
  -- The events that Kubernetes sends for a change of the cluster, with schedules that can be read.
  pub data Step (c : Cluster) : Event → Cluster → Type 0 where
    create :
        (key uid : Text) (spec : ScheduledHealthCheckSpec)
        → dict_get key c ≡ none
        → sch.from_crontab spec.schedule ≡ none
        → Step c (created key uid (returned spec)) (dict_set key (uid, spec) c)
    update :
        (key uid : Text) (old new : ScheduledHealthCheckSpec)
        → dict_get key c ≡ some (uid, old)
        → sch.from_crontab new.schedule ≡ none
        → Step c (updated key uid (returned old) (returned new)) (dict_set key (uid, new) c)
    delete : (key : Text) → Step c (deleted key) (dict_pop key c)

  pub data Run : Cluster → List Event → Cluster → Type 0 where
    here : {c : Cluster} → Run c [] c
    next :
        {c d f : Cluster} {e : Event} {es : List Event} → Step c e d → Run d es f → Run c (e ∷ es) f

  -- The state after the handlers of the events, if none raises.
  unfoldable pub handle_all : List Event → SchedulerManager J → Option (SchedulerManager J)
  handle_all [] m = some m
  handle_all (e ∷ es) m =
      let (o, m') = handle sch e m in
      let rest = handle_all es m' in elim o [ raised t ↦ none | returned u ↦ rest ]

module _ {J : Type 0} (sch : Scheduler J) (laws : IsScheduler sch) where
  -- What a handler that does not raise leaves.
  abbrev Handled : Cluster → Outcome (Unit {0}) × SchedulerManager J → Type 0
  Handled c r = (r.0 ≡ returned tt) × Matches sch c r.1

  register-Handled :
      (c : Cluster) (m : SchedulerManager J) (key uid : Text) (spec : ScheduledHealthCheckSpec)
      → spec.enabled ≡ true
      → sch.from_crontab spec.schedule ≡ none
      → Matches sch c m
      → Handled (dict_set key (uid, spec) c) (register_scheduled_healthcheck sch key uid spec m)
  unfolding register_scheduled_healthcheck
  register-Handled c m key uid spec on cron h =
      rw (add_schedule_succeeds sch laws m key uid spec cron) (
        refl,
        set_condition-Matches sch laws _ _ key (codes "Registered")
            (with_job-Matches sch laws c m key uid spec on h),
      )

  update-Handled :
      (c : Cluster) (m : SchedulerManager J) (key uid : Text) (spec : ScheduledHealthCheckSpec)
      → spec.enabled ≡ true
      → sch.from_crontab spec.schedule ≡ none
      → Matches sch c m
      → Handled (dict_set key (uid, spec) c) (update_scheduled_healthcheck sch key uid spec m)
  unfolding update_scheduled_healthcheck
  update-Handled c m key uid spec on cron h =
      rw (add_schedule_succeeds sch laws m key uid spec cron) (
        refl,
        set_condition-Matches sch laws _ _ key (codes "Updated")
            (with_job-Matches sch laws c m key uid spec on h),
      )

  unregister-Matches :
      (c : Cluster) (m : SchedulerManager J) (key : Text)
      → Matches sch c m
      → Matches sch (dict_pop key c) (unregister_scheduled_healthcheck sch key true m)
  unfolding unregister_scheduled_healthcheck
  unregister-Matches c m key h =
      set_condition-Matches sch laws _ _ key (codes "Disabled")
        (remove_schedule-Matches sch laws c m key h)

  on_create-Handled :
      (c : Cluster) (m : SchedulerManager J) (key uid : Text) (spec : ScheduledHealthCheckSpec)
      → dict_get key c ≡ none
      → sch.from_crontab spec.schedule ≡ none
      → Matches sch c m
      → Handled (dict_set key (uid, spec) c) (on_create sch key uid (returned spec) m)
  unfolding on_create unregister_scheduled_healthcheck
  on_create-Handled c m key uid spec fresh cron h = elim (Bool-cases spec.enabled) [
    | inl on ↦ simp on (register-Handled c m key uid spec on cron h)
    | inr off ↦ simp off (
      refl,
      set_condition-Matches sch laws _ _ key (codes "Disabled")
          (disabled_Matches sch laws c m key uid spec off (rw fresh) h),
    )
  ]

  on_update-Handled :
      (c : Cluster) (m : SchedulerManager J) (key uid : Text) (old new : ScheduledHealthCheckSpec)
      → dict_get key c ≡ some (uid, old)
      → sch.from_crontab new.schedule ≡ none
      → Matches sch c m
      → Handled (dict_set key (uid, new) c) (on_update sch key uid (returned old) (returned new) m)
  unfolding on_update
  on_update-Handled c m key uid old new found cron h = elim (Bool-cases new.enabled) [
    | inl on ↦ elim (Bool-cases old.enabled) [
      | inl was_on ↦ elim (Bool-cases (spec_changed old new)) [
        | inl changed ↦ simp (was_on, on, changed) (update-Handled c m key uid new on cron h)
        | inr same ↦
            simp (was_on, on, same)
              (
                refl,
                same_Matches sch laws c m key uid old new found
                    (cc (spec_changed_same old new (ground arith) same)) h,
              )
      ]
      | inr was_off ↦ simp (was_off, on) (register-Handled c m key uid new on cron h)
    ]
    | inr off ↦ elim (Bool-cases old.enabled) [
      | inl was_on ↦
          simp (was_on, off)
            (refl, removed_Matches sch laws c _ key uid new off (unregister-Matches c m key h))
      | inr was_off ↦
          simp (was_off, off)
            (refl, same_Matches sch laws c m key uid old new found (ground arith) h)
    ]
  ]

  handle-Handled :
      (c d : Cluster) (e : Event) (m : SchedulerManager J)
      → Step sch c e d
      → Matches sch c m
      → Handled d (handle sch e m)
  unfolding handle on_delete
  handle-Handled c _ _ m (create key uid spec fresh cron) h =
      on_create-Handled c m key uid spec fresh cron h
  handle-Handled c _ _ m (update key uid old new found cron) h =
      on_update-Handled c m key uid old new found cron h
  handle-Handled c _ _ m (delete key) h = (refl, unregister-Matches c m key h)

  -- When the scheduler keeps its promises and the events are those of a run of the cluster, whose
  -- cron expressions can be read, from a cluster that the state matches, no handler raises and the
  -- last state matches the last cluster: each key has exactly the job of its resource, with the
  -- resource's current spec, if that is enabled, and none otherwise.
  pub handle_all-Matches :
      (c d : Cluster) (es : List Event) (m : SchedulerManager J)
      → Run sch c es d
      → Matches sch c m
      → (m' : SchedulerManager J) × ((handle_all sch es m ≡ some m') × Matches sch d m')
  unfolding handle_all
  handle_all-Matches c _ _ m here h = (m, (refl, h))
  handle_all-Matches c d _ m (next {d = b} {e = e} {es = es} step run) h =
      let (fine, after) = handle-Handled c b e m step h in
      let (m', (same, end)) = handle_all-Matches b d es (handle sch e m).1 run after in
      (m', (rw (handle_all, fine) same, end))
