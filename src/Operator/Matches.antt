-- ===== src/Operator/Matches.antt =====
-- The jobs of the scheduler follow the resources of the cluster
-- (holmes_operator/handlers/scheduledhealthcheck.py).
use canis.Prelude.{
  true, false, ==→eq, ◌≡◌, refl, Option, none, some, List, [], ◌∷◌, if◌then◌else◌, arith, Text,
  text_eq, text_eq_iff, Dict, dict_get, dict_set, dict_pop, dict_get-dict_set, dict_get-dict_pop,
}
use canis.Tools.Result.{returned}
use canis.Operator.Schedule.{
  CheckMode, alert, monitor, mode_eq, option_text_eq, texts_eq, spec_changed,
  ScheduledHealthCheckSpec, Job, Scheduler, SchedulerManager, set_condition, add_schedule,
  remove_schedule,
}

-- What APScheduler documents: adding a job succeeds and replaces the job of that identifier,
-- removing one leaves the others.
pub record IsScheduler {J : Type 0} (sch : Scheduler J) : Type 0 where
  pub add_succeeds : (id : Text) (job : Job) (j : J) → (sch.add_job id job j).0 ≡ returned tt
  pub get_add :
      (k id : Text) (job : Job) (j : J)
      → sch.get_job k (sch.add_job id job j).1
        ≡ (if text_eq id k then some job else sch.get_job k j)
  pub get_remove :
      (k id : Text) (j : J)
      → sch.get_job k (sch.remove_job id j).1 ≡ (if text_eq id k then none else sch.get_job k j)

-- The resources by key, each with its uid.
abbrev pub Cluster : Type 0
Cluster = Dict (Text × ScheduledHealthCheckSpec)

-- The job that a resource should have.
abbrev pub expected : Text → Option (Text × ScheduledHealthCheckSpec) → Option Job
expected key none = none
expected key (some (uid, spec)) =
    if spec.enabled
    then some (record { key = key; cron = spec.schedule; spec = spec; uid = uid })
    else none

abbrev pub registered : Text → Option Job → Option Text
registered key none = none
registered key (some job) = some key

module _ {J : Type 0} (sch : Scheduler J) where
  -- Each key has the job of its resource, and the registry knows which have one.
  pub record Matches (c : Cluster) (m : SchedulerManager J) : Type 0 where
    pub jobs : (k : Text) → sch.get_job k m.scheduler ≡ expected k (dict_get k c)
    pub known : (k : Text) → dict_get k m.job_registry ≡ registered k (expected k (dict_get k c))

mode_eq_sound : (a b : CheckMode) → mode_eq a b ≡ true → a ≡ b
mode_eq_sound alert alert h = refl
mode_eq_sound monitor monitor h = refl
mode_eq_sound alert monitor h = ground arith
mode_eq_sound monitor alert h = ground arith

option_text_eq_sound : (a b : Option Text) → option_text_eq a b ≡ true → a ≡ b
option_text_eq_sound none none h = refl
option_text_eq_sound (some s) (some t) h = ground (arith, text_eq_iff s t)
option_text_eq_sound none (some t) h = ground arith
option_text_eq_sound (some s) none h = ground arith

texts_eq_sound : (a b : List Text) → texts_eq a b ≡ true → a ≡ b
texts_eq_sound [] [] h = refl
texts_eq_sound (s ∷ ss) (t ∷ ts) h = ground (arith, text_eq_iff s t, texts_eq_sound ss ts)
texts_eq_sound [] (t ∷ ts) h = ground arith
texts_eq_sound (s ∷ ss) [] h = ground arith

pub spec_changed_same :
    (old new : ScheduledHealthCheckSpec)
    → old.enabled ≡ new.enabled
    → spec_changed old new ≡ false
    → old ≡ new
unfolding spec_changed
spec_changed_same old new e h = ground (
  arith,
  text_eq_iff old.schedule new.schedule,
  text_eq_iff old.query new.query,
  ==→eq old.timeout new.timeout,
  mode_eq_sound old.mode new.mode,
  option_text_eq_sound old.model new.model,
  texts_eq_sound old.destinations new.destinations,
)

abbrev pub job_of : Text → Text → ScheduledHealthCheckSpec → Job
job_of key uid spec = record { key = key; cron = spec.schedule; spec = spec; uid = uid }

module _ {J : Type 0} (sch : Scheduler J) (laws : IsScheduler sch) where
  abbrev pub with_job :
      Text → Text → ScheduledHealthCheckSpec → SchedulerManager J → SchedulerManager J
  with_job key uid spec m = record m {
    scheduler = (sch.add_job key (job_of key uid spec) m.scheduler).1;
    job_registry = dict_set key key m.job_registry;
  }

  pub with_job-Matches :
      (c : Cluster) (m : SchedulerManager J) (key uid : Text) (spec : ScheduledHealthCheckSpec)
      → spec.enabled ≡ true
      → Matches sch c m
      → Matches sch (dict_set key (uid, spec) c) (with_job key uid spec m)
  with_job-Matches c m key uid spec on h = record {
    jobs = λ k. ground (
      arith,
      laws.get_add k key (job_of key uid spec) m.scheduler,
      dict_get-dict_set k key (uid, spec) c,
      text_eq_iff key k,
      h.jobs k,
    );
    known = λ k. ground (
      arith,
      dict_get-dict_set k key key m.job_registry,
      dict_get-dict_set k key (uid, spec) c,
      text_eq_iff key k,
      h.known k,
    );
  }

  pub add_schedule_succeeds :
      (m : SchedulerManager J) (key uid : Text) (spec : ScheduledHealthCheckSpec)
      → sch.from_crontab spec.schedule ≡ none
      → add_schedule sch key spec uid m ≡ (none, with_job key uid spec m)
  unfolding add_schedule
  add_schedule_succeeds m key uid spec cron =
      ground (arith, laws.add_succeeds key (job_of key uid spec) m.scheduler)

  pub remove_schedule-Matches :
      (c : Cluster) (m : SchedulerManager J) (key : Text)
      → Matches sch c m
      → Matches sch (dict_pop key c) (remove_schedule sch key m)
  unfolding remove_schedule
  remove_schedule-Matches c m key h = record {
    jobs = λ k. ground (
      arith,
      laws.get_remove k key m.scheduler,
      dict_get-dict_pop k key c,
      text_eq_iff key k,
      h.jobs k,
      h.known key,
    );
    known = λ k. ground (
      arith,
      dict_get-dict_pop k key m.job_registry,
      dict_get-dict_pop k key c,
      text_eq_iff key k,
      h.known k,
    );
  }

  pub set_condition-Matches :
      (c : Cluster) (m : SchedulerManager J) (key reason : Text)
      → Matches sch c m
      → Matches sch c (set_condition sch key reason m)
  set_condition-Matches c m key reason h = record { jobs = h.jobs; known = h.known }

  -- A resource that is not enabled has no job, whatever its spec.
  pub disabled_Matches :
      (c : Cluster) (m : SchedulerManager J) (key uid : Text) (spec : ScheduledHealthCheckSpec)
      → spec.enabled ≡ false
      → expected key (dict_get key c) ≡ none
      → Matches sch c m
      → Matches sch (dict_set key (uid, spec) c) m
  disabled_Matches c m key uid spec off no_job h = record {
    jobs = λ k.
        ground
          (arith, dict_get-dict_set k key (uid, spec) c, text_eq_iff key k, h.jobs k, no_job, off);
    known = λ k.
        ground
          (arith, dict_get-dict_set k key (uid, spec) c, text_eq_iff key k, h.known k, no_job, off);
  }

  -- The same job is expected of the resource before and after.
  pub same_Matches :
      (c : Cluster) (m : SchedulerManager J) (key uid : Text) (old new : ScheduledHealthCheckSpec)
      → dict_get key c ≡ some (uid, old)
      → expected key (some (uid, old)) ≡ expected key (some (uid, new))
      → Matches sch c m
      → Matches sch (dict_set key (uid, new) c) m
  same_Matches c m key uid old new found same h = record {
    jobs = λ k.
        ground
          (arith, dict_get-dict_set k key (uid, new) c, text_eq_iff key k, h.jobs k, found, same);
    known = λ k.
        ground
          (arith, dict_get-dict_set k key (uid, new) c, text_eq_iff key k, h.known k, found, same);
  }

  -- Without its job, a resource is as one that was deleted, if it is not enabled.
  pub removed_Matches :
      (c : Cluster) (m : SchedulerManager J) (key uid : Text) (spec : ScheduledHealthCheckSpec)
      → spec.enabled ≡ false
      → Matches sch (dict_pop key c) m
      → Matches sch (dict_set key (uid, spec) c) m
  removed_Matches c m key uid spec off h = record {
    jobs = λ k. ground (
      arith,
      dict_get-dict_set k key (uid, spec) c,
      dict_get-dict_pop k key c,
      text_eq_iff key k,
      h.jobs k,
      off,
    );
    known = λ k. ground (
      arith,
      dict_get-dict_set k key (uid, spec) c,
      dict_get-dict_pop k key c,
      text_eq_iff key k,
      h.known k,
      off,
    );
  }
