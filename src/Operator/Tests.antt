-- ===== src/Operator/Tests.antt =====
-- The handlers of scheduled health checks on a scheduler that keeps its jobs in a dictionary.
use canis.Prelude.{
  ℕ, Bool, true, false, ◌≡◌, refl, Option, none, some, List, [], ◌∷◌, Text, codes, Dict, dict_get,
  dict_set, dict_pop, dict_get-dict_set, dict_get-dict_pop,
}
use canis.Tools.Result.{returned}
use canis.Operator.Schedule.{
  monitor, ScheduledHealthCheckSpec, Job, Scheduler, SchedulerManager, Event, created, updated,
  deleted,
}
use canis.Operator.Matches.{IsScheduler, Cluster, Matches}
use canis.Operator.Events.{create, update, delete, Run, here, next, handle_all}
use canis.Operator.Startup.{ListedCheck, metadata_of, load_existing_schedules}
use canis.Operator.Restart.{Listing, end, nameless, listed, restart-Matches}

abbrev jobs : Scheduler (Dict Job)
jobs = record {
  from_crontab = λ s. none;
  add_job = λ id job j. (returned tt, dict_set id job j);
  remove_job = λ id j. (returned tt, dict_pop id j);
  get_job = λ id j. dict_get id j;
}

jobs-IsScheduler : IsScheduler jobs
jobs-IsScheduler = record {
  add_succeeds = λ id job j. refl;
  get_add = λ k id job j. dict_get-dict_set k id job j;
  get_remove = λ k id j. dict_get-dict_pop k id j;
}

abbrev spec_of : Text → Bool → ScheduledHealthCheckSpec
spec_of cron on = record {
  schedule = cron;
  enabled = on;
  query = codes "Is the API up?";
  timeout = 30;
  mode = monitor;
  model = none;
  destinations = [];
}

abbrev hourly : ScheduledHealthCheckSpec
hourly = spec_of (codes "0 * * * *") true

abbrev daily : ScheduledHealthCheckSpec
daily = spec_of (codes "0 0 * * *") true

abbrev paused : ScheduledHealthCheckSpec
paused = spec_of (codes "0 * * * *") false

abbrev empty : SchedulerManager (Dict Job)
empty = record { scheduler = []; job_registry = []; conditions = [] }

abbrev api : Text
api = codes "ns/api"

abbrev db : Text
db = codes "ns/db"

abbrev listed_of : Text → Text → ScheduledHealthCheckSpec → ListedCheck
listed_of name uid spec = record {
  name = some name;
  namespace = some (codes "ns");
  uid = some uid;
  enabled = spec.enabled;
  spec = returned spec;
}

-- One check that is enabled, one without a name, and one that is not enabled.
abbrev items : List ListedCheck
items =
    listed_of (codes "api") (codes "1") hourly
    ∷ listed_of [] (codes "3") hourly
    ∷ listed_of (codes "db") (codes "2") paused
    ∷ []

abbrev first : Cluster
first = (api, (codes "1", hourly)) ∷ (db, (codes "2", paused)) ∷ []

items-Listing : Listing jobs [] items first
unfolding metadata_of dict_get dict_set canis.Prelude.text_eq
items-Listing =
    listed (listed_of (codes "api") (codes "1") hourly) api (codes "1") hourly refl refl refl refl
      refl
      (nameless (listed_of [] (codes "3") hourly) refl (
        listed (listed_of (codes "db") (codes "2") paused) db (codes "2") paused refl refl refl refl
          refl end))

abbrev web : Text
web = codes "ns/web"

abbrev events : List Event
events =
    created web (codes "4") (returned hourly)
    ∷ updated api (codes "1") (returned hourly) (returned daily)
    ∷ updated db (codes "2") (returned paused) (returned hourly)
    ∷ deleted db
    ∷ []

abbrev last : Cluster
last = (api, (codes "1", daily)) ∷ (web, (codes "4", hourly)) ∷ []

events-Run : Run jobs first events last
unfolding dict_get dict_set dict_pop canis.Prelude.text_eq
events-Run = next (create web (codes "4") hourly refl refl) (
    next (update api (codes "1") hourly daily refl refl)
      (next (update db (codes "2") paused hourly refl refl) (next (delete db) here)))

restart-Matches_example :
    (m' : SchedulerManager (Dict Job)) × ((handle_all jobs events
          (load_existing_schedules jobs items empty)
        ≡ some m')
      × Matches jobs last m')
unfolding dict_get
restart-Matches_example =
    restart-Matches jobs jobs-IsScheduler first last items events empty
      (record { jobs = λ k. refl; known = λ k. refl }) items-Listing events-Run
