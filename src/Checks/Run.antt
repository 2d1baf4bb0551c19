-- ===== src/Checks/Run.antt =====
-- The execution of health checks by the agent and the alerts on them (holmes/checks/checks.py,
-- holmes/checks/models.py).
use canis.Prelude.{
  ℕ, Bool, true, false, not, ◌&&◌, Option, none, some, List, [], ◌∷◌, ◌++◌, any, keep_if,
  if◌then◌else◌, Text, codes, text_eq, Dict, dict_get, strip,
}
use canis.Tools.Json.{str}
use canis.Tools.Result.{Outcome, returned, raised}
use canis.Context.Message.{Message, bare}
use canis.Agent.Invoke.{Executor, AgentState}
use canis.Agent.Loop.{Surroundings, LlmResult, call}

pub data CheckMode : Type 0 where
  alert : CheckMode
  monitor : CheckMode

pub data CheckStatus : Type 0 where
  pass : CheckStatus
  fail : CheckStatus
  errored : CheckStatus

pub record DestinationConfig : Type 0 where
  pub webhook_url : Option Text
  pub channel : Option Text
  pub integration_key : Option Text

pub record Check : Type 0 where
  pub name : Text
  pub query : Text
  pub tags : List Text
  pub mode : CheckMode
  pub destinations : List Text

pub record CheckResponse : Type 0 where
  pub passed : Bool
  pub rationale : Text

pub record CheckResult : Type 0 where
  pub check_name : Text
  pub status : CheckStatus
  pub message : Text
  pub query : Text
  pub error_text : Option Text
  pub rationale : Option Text

-- What is posted, and where: a webhook, a channel of Slack, or a key of PagerDuty. What comes back is
-- only printed.
pub data Alert : Type 0 where
  slack_webhook : Text → Check → CheckResult → Alert
  slack_channel : Text → Check → CheckResult → Alert
  pagerduty : Text → Check → CheckResult → Alert

-- The Slack token and channel of `Config`, and the validated destinations.
pub record Destinations : Type 0 where
  pub slack_token : Option Text
  pub default_channel : Option Text
  pub configs : Dict DestinationConfig

-- `x or none`
abbrev pub filled : Option Text → Option Text
filled none = none
filled (some []) = none
filled (some (c ∷ s)) = some (c ∷ s)

abbrev pub or_default : Option Text → Option Text → Option Text
or_default none other = other
or_default (some s) other = some s

abbrev pub is_fail : CheckStatus → Bool
is_fail pass = false
is_fail fail = true
is_fail errored = false

abbrev pub is_alert : CheckMode → Bool
is_alert alert = true
is_alert monitor = false

abbrev pub is_empty_list : List Text → Bool
is_empty_list [] = true
is_empty_list (x ∷ xs) = false

-- `tag in tags`
abbrev pub lists_tag : List Text → Text → Bool
lists_tag tags tag = any (text_eq tag) tags

unfoldable pub filter_by_name : Option Text → List Check → List Check
filter_by_name none checks = checks
filter_by_name (some []) checks = checks
filter_by_name (some (c ∷ s)) checks = keep_if (λ k. text_eq k.name (c ∷ s)) checks

unfoldable pub filter_by_tags : List Text → List Check → List Check
filter_by_tags [] checks = checks
filter_by_tags (g ∷ gs) checks = keep_if (λ k. any (lists_tag k.tags) (g ∷ gs)) checks

unfoldable pub filter_checks : Option Text → List Text → List Check → List Check
unfolding filter_by_name filter_by_tags
filter_checks name_filter tag_filter checks =
    filter_by_tags tag_filter (filter_by_name name_filter checks)

-- The branch for `slack`
unfoldable pub slack_alerts : Destinations → Check → CheckResult → List Alert
slack_alerts d check result = elim (dict_get (codes "slack") d.configs) [
  | none ↦ []
  | some config ↦ elim (filled config.webhook_url) [
    | some url ↦ slack_webhook url check result ∷ []
    | none ↦ elim (filled d.slack_token) [
      | none ↦ []
      | some token ↦ elim (or_default (filled config.channel) (filled d.default_channel)) [
        | none ↦ []
        | some name ↦ slack_channel name check result ∷ []
      ]
    ]
  ]
]

unfoldable pub pagerduty_alerts : Destinations → Check → CheckResult → List Alert
pagerduty_alerts d check result = elim (dict_get (codes "pagerduty") d.configs) [
  | none ↦ []
  | some config ↦ elim (filled config.integration_key) [
    | none ↦ []
    | some key ↦ pagerduty key check result ∷ []
  ]
]

unfoldable pub send_alerts : Destinations → Check → CheckResult → List Text → List Alert
unfolding slack_alerts pagerduty_alerts
send_alerts d check result [] = []
send_alerts d check result (name ∷ names) =
    let rest = send_alerts d check result names in
    if text_eq name (codes "slack")
    then slack_alerts d check result ++ rest
    else if text_eq name (codes "pagerduty")
    then pagerduty_alerts d check result ++ rest
    else rest

-- A failed check in the mode of alerts with destinations
abbrev pub is_due : Check → CheckResult → Bool
is_due check result =
    is_fail result.status && is_alert check.mode && not (is_empty_list check.destinations)

unfoldable pub alerts_of : Destinations → Check → CheckResult → List Alert
unfolding send_alerts
alerts_of d check result =
    if is_due check result then send_alerts d check result check.destinations else []

-- One destination of `validate_destinations`; the token is its text.
unfoldable pub validate_destination : Destinations → Text → DestinationConfig → List Text
validate_destination d name config =
    if text_eq name (codes "slack")
    then elim (filled config.webhook_url) [
      | some url ↦ []
      | none ↦
          (elim (filled d.slack_token) [
            | none ↦ []
            | some token ↦ elim (strip token) [
              | [] ↦ (codes "Slack destination '" ++ (name ++ codes "': Token is empty")) ∷ []
              | c ∷ s ↦ []
            ]
          ])
          ++ elim (filled d.default_channel) [
            | none ↦
                (codes "Slack destination '"
                  ++ (name ++ codes "': Missing slack_channel in config"))
                ∷ []
            | some other ↦ []
          ]
    ]
    else if text_eq name (codes "pagerduty")
    then elim (filled config.integration_key) [
      | none ↦
          (codes "PagerDuty destination '"
            ++ (name ++ codes "': Missing integration_key in destination config"))
          ∷ []
      | some key ↦ []
    ]
    else (codes "Unknown destination type: " ++ name) ∷ []

unfoldable pub validate_destinations : Destinations → Dict DestinationConfig → List Text
unfolding validate_destination
validate_destinations d [] = []
validate_destinations d ((name, config) ∷ configs) =
    validate_destination d name config ++ validate_destinations d configs

-- `CheckRunner.__init__`: destinations with errors are left out, all of them.
unfoldable pub runner_destinations :
    Option Text → Option Text → Dict DestinationConfig → Destinations
unfolding validate_destinations
runner_destinations token channel configs =
    let unchecked : Destinations = record {
      slack_token = token;
      default_channel = channel;
      configs = [];
    } in
    elim (validate_destinations unchecked configs) [
      | [] ↦ record unchecked { configs = configs }
      | e ∷ es ↦ unchecked
    ]

-- `system` is the prompt with the time, and `read` is `json.loads` and the validation of the response.
module _ {P T S : Type 0} (x : Executor P S) (c : Surroundings P T S) (max_steps : ℕ)
    (system : Text) (read : Text → Outcome CheckResponse) where
  abbrev pub check_messages : Check → List Message
  check_messages check =
      bare (codes "system") (str system) ∷ bare (codes "user") (str check.query) ∷ []

  abbrev pub or_braces : Option Text → Text
  or_braces none = codes "{}"
  or_braces (some []) = codes "{}"
  or_braces (some (k ∷ s)) = k ∷ s

  unfoldable pub parse_check_response : LlmResult P → CheckResponse
  parse_check_response response = elim (read (or_braces response.result)) [
    | returned r ↦ r
    | raised e ↦ record { passed = false; rationale = codes "Failed to parse response: " ++ e }
  ]

  unfoldable pub execute_check : Check → AgentState S → CheckResult × AgentState S
  unfolding call parse_check_response
  execute_check check a =
      let (o, a') = call x c true max_steps (check_messages check) a in
      elim o [
        | raised e ↦ (
          record {
            check_name = check.name;
            status = errored;
            message = codes "Check errored: " ++ e;
            query = check.query;
            error_text = some e;
            rationale = none;
          },
          a',
        )
        | returned response ↦
            let r = parse_check_response response in
            (
              record {
                check_name = check.name;
                status = if r.passed then pass else fail;
                message =
                    (if r.passed then codes "Check passed. " else codes "Check failed. ")
                    ++ r.rationale;
                query = check.query;
                error_text = none;
                rationale = some r.rationale;
              },
              a',
            )
      ]

  -- The checks in order: their results, and the alerts that are sent.
  unfoldable pub run_in_order :
      Destinations → List Check → AgentState S → List CheckResult × List Alert × AgentState S
  unfolding execute_check alerts_of
  run_in_order d [] a = ([], [], a)
  run_in_order d (check ∷ checks) a =
      let (result, a1) = execute_check check a in
      let (results, alerts, a2) = run_in_order d checks a1 in
      (result ∷ results, alerts_of d check result ++ alerts, a2)

  unfoldable pub run_checks :
      Destinations
      → Option Text
      → List Text
      → List Check
      → AgentState S
      → List CheckResult × List Alert × AgentState S
  unfolding run_in_order filter_checks
  run_checks d name_filter tag_filter checks a =
      run_in_order d (filter_checks name_filter tag_filter checks) a
