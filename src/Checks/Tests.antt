-- ===== src/Checks/Tests.antt =====
-- Checks of an agent that gives no structured answer.
use canis.Prelude.{
  ℕ, ◌≡◌, refl, none, some, List, [], ◌∷◌, map, All, if◌then◌else◌, Text, codes, text_eq, dict_get,
  length, Dict,
}
use canis.Tools.Result.{Outcome, raised}
use canis.Context.Message.{count_tokens}
use canis.Context.Limit.{limit_input_context_window}
use canis.Agent.Invoke.{AgentState}
use canis.Agent.Loop.{call}
use canis.Agent.Tests.{executor, start}
use canis.Agent.LoopTests.{surroundings}
use canis.Checks.Run.{
  alert, Check, CheckResponse, CheckResult, Alert, Destinations, filter_checks, runner_destinations,
  run_checks,
}
use canis.Checks.Config.{load_checks_config, or_else, load_checks_config_lem}
use canis.Checks.Alerts.{IsDue, zip, named, name_of, run_checks-IsDue}

abbrev destinations : Destinations
destinations = runner_destinations none none (
    (
      codes "slack",
      record { webhook_url = some (codes "https"); channel = none; integration_key = none },
    )
    ∷ [])

abbrev pods : Check
pods = record {
  name = codes "pods";
  query = codes "are all pods running";
  tags = codes "daily" ∷ [];
  mode = alert;
  destinations = codes "slack" ∷ [];
}

abbrev unreadable : Text → Outcome CheckResponse
unreadable t = raised (codes "no json")

abbrev run : List CheckResult × List Alert × AgentState ℕ
run =
    run_checks executor surroundings 3 [] unreadable destinations none (codes "daily" ∷ [])
      (pods ∷ []) start

-- The answer is no JSON, so the check fails and an alert is sent.
one_alert : length run.1 ≡ 1
unfolding run_checks call limit_input_context_window count_tokens text_eq dict_get
    runner_destinations
one_alert = refl

run_checks-IsDue_example :
    let chosen = filter_checks none (codes "daily" ∷ []) (pods ∷ []) in
    (map (named executor surroundings 3 [] unreadable) run.0
      ≡ map (name_of executor surroundings 3 [] unreadable) chosen)
    × All (IsDue destinations (zip chosen run.0)) run.1
run_checks-IsDue_example =
    run_checks-IsDue executor surroundings 3 [] unreadable destinations none (codes "daily" ∷ [])
      (pods ∷ []) start

abbrev defaults : Dict ℕ
defaults = (codes "mode", 1) ∷ (codes "timeout", 60) ∷ []

load_checks_config_lem_example :
    map (dict_get (codes "timeout")) (load_checks_config defaults ([] ∷ []))
    ≡ map
        (λ check_data. or_else (dict_get (codes "timeout") check_data) (
          if text_eq (codes "mode") (codes "timeout")
          then none
          else dict_get (codes "timeout") defaults))
        ([] ∷ [])
load_checks_config_lem_example = load_checks_config_lem (codes "timeout") defaults ([] ∷ [])
