-- ===== src/Checks/Alerts.antt =====
-- Which alerts a run of the checks sends (holmes/checks/checks.py, `CheckRunner`).
use canis.Prelude.{
  ℕ, true, ◌≡◌, refl, sym, ap, ◌∙◌, inl, inr, Option, none, some, List, [], ◌∷◌, map, arith, All,
  Any, implied, All-append, Bool-cases, Option-cases, Text, codes, text_eq, text_eq_iff, dict_get,
}
use canis.Tools.Result.{Outcome}
use canis.Agent.Invoke.{Executor, AgentState}
use canis.Agent.Loop.{Surroundings, call}
use canis.Context.Limit.{Outcome-cases}
use canis.Checks.Run.{
  DestinationConfig, Check, CheckResponse, CheckResult, Alert, slack_webhook, slack_channel,
  pagerduty, Destinations, filled, or_default, is_fail, is_alert, filter_checks, slack_alerts,
  pagerduty_alerts, send_alerts, is_due, alerts_of, check_messages, execute_check, run_in_order,
  run_checks,
}

abbrev Listed : Text → List Text → Type 0
Listed name names = Any (λ n. n ≡ name) names

-- Where an alert goes is what its destination is configured to.
abbrev GoesTo : Destinations → Alert → Type 0
GoesTo d (slack_webhook url check result) =
    (config : DestinationConfig) × ((dict_get (codes "slack") d.configs ≡ some config)
      × (filled config.webhook_url ≡ some url))
GoesTo d (slack_channel name check result) =
    (config : DestinationConfig) × ((dict_get (codes "slack") d.configs ≡ some config)
      × (filled config.webhook_url ≡ none)
      × (or_default (filled config.channel) (filled d.default_channel) ≡ some name))
GoesTo d (pagerduty key check result) =
    (config : DestinationConfig) × ((dict_get (codes "pagerduty") d.configs ≡ some config)
      × (filled config.integration_key ≡ some key))

abbrev destination_name : Alert → Text
destination_name (slack_webhook url check result) = codes "slack"
destination_name (slack_channel name check result) = codes "slack"
destination_name (pagerduty key check result) = codes "pagerduty"

abbrev check_of : Alert → Check
check_of (slack_webhook url check result) = check
check_of (slack_channel name check result) = check
check_of (pagerduty key check result) = check

abbrev result_of : Alert → CheckResult
result_of (slack_webhook url check result) = result
result_of (slack_channel name check result) = result
result_of (pagerduty key check result) = result

-- An alert of the check and the result, to one of the destinations.
abbrev IsSent : Destinations → Check → CheckResult → List Text → Alert → Type 0
IsSent d check result names al =
    (check_of al ≡ check)
    × (result_of al ≡ result)
    × Listed (destination_name al) names
    × GoesTo d al

abbrev IsSlack : Destinations → Check → CheckResult → Alert → Type 0
IsSlack d check result al =
    (check_of al ≡ check)
    × (result_of al ≡ result)
    × (destination_name al ≡ codes "slack")
    × GoesTo d al

slack_alerts-IsSlack :
    (d : Destinations) (check : Check) (result : CheckResult)
    → All (IsSlack d check result) (slack_alerts d check result)
unfolding slack_alerts
slack_alerts-IsSlack d check result = elim (Option-cases (dict_get (codes "slack") d.configs)) [
  | inl e ↦ rw (slack_alerts, e) tt
  | inr (config, e) ↦ elim (Option-cases (filled config.webhook_url)) [
    | inr (url, f) ↦ rw (slack_alerts, e) (rw f ((refl, refl, refl, (config, (e, f))), tt))
    | inl f ↦ elim (Option-cases (filled d.slack_token)) [
      | inl g ↦ rw (slack_alerts, e) (rw f (rw g tt))
      | inr (token, g) ↦
          elim (Option-cases (or_default (filled config.channel) (filled d.default_channel))) [
            | inl h ↦ rw (slack_alerts, e) (rw f (rw g (rw h tt)))
            | inr (name, h) ↦
                rw (slack_alerts, e)
                  (rw f (rw g (rw h ((refl, refl, refl, (config, (e, f, h))), tt))))
          ]
    ]
  ]
]

abbrev IsPagerduty : Destinations → Check → CheckResult → Alert → Type 0
IsPagerduty d check result al =
    (check_of al ≡ check)
    × (result_of al ≡ result)
    × (destination_name al ≡ codes "pagerduty")
    × GoesTo d al

pagerduty_alerts-IsPagerduty :
    (d : Destinations) (check : Check) (result : CheckResult)
    → All (IsPagerduty d check result) (pagerduty_alerts d check result)
unfolding pagerduty_alerts
pagerduty_alerts-IsPagerduty d check result =
    elim (Option-cases (dict_get (codes "pagerduty") d.configs)) [
      | inl e ↦ rw (pagerduty_alerts, e) tt
      | inr (config, e) ↦ elim (Option-cases (filled config.integration_key)) [
        | inl f ↦ rw (pagerduty_alerts, e) (rw f tt)
        | inr (key, f) ↦ rw (pagerduty_alerts, e) (rw f ((refl, refl, refl, (config, (e, f))), tt))
      ]
    ]

-- All alerts go to listed destinations that are configured.
send_alerts-IsSent :
    (d : Destinations) (check : Check) (result : CheckResult) (names : List Text)
    → All (IsSent d check result names) (send_alerts d check result names)
unfolding send_alerts
send_alerts-IsSent d check result [] = tt
send_alerts-IsSent d check result (name ∷ names) =
    let rest =
      implied {P = IsSent d check result names} {Q = IsSent d check result (name ∷ names)}
        (λ al (a, b, listed, e). (a, b, inr listed, e)) (send_alerts d check result names)
        (send_alerts-IsSent d check result names) in
    elim (Bool-cases (text_eq name (codes "slack"))) [
      | inl e ↦
          let here =
            implied {P = IsSlack d check result} {Q = IsSent d check result (name ∷ names)}
              (λ al (a, b, named, g).
                (a, b, inl ((text_eq_iff name (codes "slack")).0 e ∙ sym named), g))
              (slack_alerts d check result) (slack_alerts-IsSlack d check result) in
          rw (send_alerts, e)
            (All-append (IsSent d check result (name ∷ names)) (slack_alerts d check result)
              (send_alerts d check result names) here rest)
      | inr e ↦ elim (Bool-cases (text_eq name (codes "pagerduty"))) [
        | inl f ↦
            let here =
              implied {P = IsPagerduty d check result} {Q = IsSent d check result (name ∷ names)}
                (λ al (a, b, named, g).
                  (a, b, inl ((text_eq_iff name (codes "pagerduty")).0 f ∙ sym named), g))
                (pagerduty_alerts d check result) (pagerduty_alerts-IsPagerduty d check result) in
            rw (send_alerts, e)
              (rw f (
                All-append (IsSent d check result (name ∷ names)) (pagerduty_alerts d check result)
                  (send_alerts d check result names) here rest))
        | inr f ↦ rw (send_alerts, e) (rw f rest)
      ]
    ]

-- A check with its result.
abbrev pub zip : List Check → List CheckResult → List (Check × CheckResult)
zip [] rs = []
zip (k ∷ ks) [] = []
zip (k ∷ ks) (r ∷ rs) = (k, r) ∷ zip ks rs

-- The alert is about one of the checks, which is in the mode of alerts and failed, and it goes to a
-- destination that the check lists and that is configured.
abbrev pub IsDue : Destinations → List (Check × CheckResult) → Alert → Type 0
IsDue d runs al =
    Any (λ (p : Check × CheckResult). (check_of al ≡ p.0) × (result_of al ≡ p.1)) runs
    × (is_alert (check_of al).mode ≡ true)
    × (is_fail (result_of al).status ≡ true)
    × Listed (destination_name al) (check_of al).destinations
    × GoesTo d al

alerts_of-IsDue :
    (d : Destinations) (check : Check) (result : CheckResult) (runs : List (Check × CheckResult))
    → All (IsDue d ((check, result) ∷ runs)) (alerts_of d check result)
unfolding alerts_of
alerts_of-IsDue d check result runs = elim (Bool-cases (is_due check result)) [
  | inl e ↦
      rw (alerts_of, e)
        (implied {P = IsSent d check result check.destinations}
          {Q = IsDue d ((check, result) ∷ runs)}
          (λ al (a, b, listed, g).
            (inl (a, b), rw a (ground arith), rw b (ground arith), rw a listed, g))
          (send_alerts d check result check.destinations)
          (send_alerts-IsSent d check result check.destinations))
  | inr e ↦ rw (alerts_of, e) tt
]

module _ {P T S : Type 0} (x : Executor P S) (c : Surroundings P T S) (max_steps : ℕ)
    (system : Text) (read : Text → Outcome CheckResponse) where
  abbrev pub named : CheckResult → Text
  named r = r.check_name

  abbrev pub name_of : Check → Text
  name_of k = k.name

  execute_check_name :
      (check : Check) (a : AgentState S)
      → (execute_check x c max_steps system read check a).0.check_name ≡ check.name
  unfolding execute_check
  execute_check_name check a =
      elim (Outcome-cases
        (call x c true max_steps (check_messages x c max_steps system read check) a).0) [
          | inl (e, f) ↦ rw (execute_check, f) refl
          | inr (r, f) ↦ rw (execute_check, f) refl
        ]

  run_in_order-IsDue :
      (d : Destinations) (checks : List Check) (a : AgentState S)
      → let (results, alerts, a') = run_in_order x c max_steps system read d checks a in
        (map named results ≡ map name_of checks) × All (IsDue d (zip checks results)) alerts
  unfolding run_in_order
  run_in_order-IsDue d [] a = (refl, tt)
  run_in_order-IsDue d (check ∷ checks) a =
      let (result, a1) = execute_check x c max_steps system read check a in
      let (results, alerts, a2) = run_in_order x c max_steps system read d checks a1 in
      let (same, due) = run_in_order-IsDue d checks a1 in
      (
        rw (execute_check_name check a) (ap (λ (l : List Text). check.name ∷ l) same),
        All-append (IsDue d ((check, result) ∷ zip checks results)) (alerts_of d check result)
            alerts (alerts_of-IsDue d check result (zip checks results))
            (implied {P = IsDue d (zip checks results)}
              {Q = IsDue d ((check, result) ∷ zip checks results)}
              (λ al (found, a, b, listed, g). (inr found, a, b, listed, g)) alerts due),
      )

  -- A run has one result for each check that passes the filters, in order, and each alert that it
  -- sends is about a failed check in the mode of alerts, and goes to a destination that the check
  -- lists and that is configured.
  pub run_checks-IsDue :
      (d : Destinations) (name_filter : Option Text) (tag_filter : List Text) (checks : List Check)
      (a : AgentState S)
      → let chosen = filter_checks name_filter tag_filter checks in
        let (results, alerts, a') =
          run_checks x c max_steps system read d name_filter tag_filter checks a in
        (map named results ≡ map name_of chosen) × All (IsDue d (zip chosen results)) alerts
  unfolding run_checks
  run_checks-IsDue d name_filter tag_filter checks a =
      run_in_order-IsDue d (filter_checks name_filter tag_filter checks) a
