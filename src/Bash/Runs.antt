-- ===== src/Bash/Runs.antt =====
-- Which calls of the bash tool reach `execute_bash_command`.
use canis.Prelude.{
  ◌≡◌, ◌≢◌, ◌⊎◌, refl, true, false, ◌||◌, Option, none, some, List, [], ◌∷◌, arith, inl, inr,
  Bool-cases, Option-cases, Text,
}
use canis.Tools.Result.{returned}
use canis.Tools.Invoke.{
  Host, ToolInvokeContext, ApprovalRequirement, Tool, Transformer, check_approval_config,
  get_approval_requirement, invoke_run, invoke,
}
use canis.Bash.Lists.{BashExecutorConfig}
use canis.Bash.Segment.{ValidationStatus, allowed, denied, approval_required, ValidationResult}
use canis.Bash.Safety.{denied_any_allow_list}
use canis.Bash.Tool.{
  BashParams, BashHost, BashState, or_empty, is_empty, merge_cli_approved_prefixes,
  config_or_default, validate, requirement_of, requires_approval, run_validated, run_bash,
  bash_tool,
}

denied-ne-allowed : {status : ValidationStatus} → status ≡ denied → status ≢ allowed
denied-ne-allowed e f = cc

deny-merge :
    (cli : List Text) (config : Option BashExecutorConfig)
    → (config_or_default (merge_cli_approved_prefixes cli config)).deny
      ≡ (config_or_default config).deny
unfolding merge_cli_approved_prefixes
deny-merge cli none = refl
deny-merge [] (some config) = refl
deny-merge (p ∷ ps) (some config) = refl

module _ {W : Type 0} (h : BashHost W) where
  requirement-cases :
      (status : ValidationStatus) (v : ValidationResult)
      → status ≢ allowed
      → ((requirement : ApprovalRequirement) × (requirement_of h status v ≡ some requirement)
          × (requirement.needs_approval ≡ true))
        ⊎ ((requirement_of h status v ≡ none) × (status ≡ denied))
  requirement-cases approval_required v n = inl (_, refl, refl)
  requirement-cases denied v n = inr (refl, refl)
  requirement-cases allowed v n = absurd (n refl)

  validate-world :
      (command : Text) (suggested session : List Text) (s : BashState W)
      → (validate h command suggested session s).1.world ≡ s.world
  unfolding validate
  validate-world command suggested session s = refl

  validate_denied_again :
      (command : Text) (suggested session : List Text) (s : BashState W)
      → (validate h command suggested session s).0.status ≡ denied
      → (validate h command suggested session (validate h command suggested session s).1).0.status
        ≡ denied
  unfolding validate
  validate_denied_again command suggested session s e =
      rw
        (deny-merge (h.cli_prefixes s.world)
          (merge_cli_approved_prefixes (h.cli_prefixes s.world) s.config))
        (denied_any_allow_list h.unicode h.parse command suggested _ _ _ e)

  run_validated-world :
      (status : ValidationStatus) (v : ValidationResult) (command : Text) (params : BashParams)
      (s : BashState W)
      → status ≢ allowed
      → (run_validated h status v command params s).1.world ≡ s.world
  unfolding run_validated
  run_validated-world denied v command params s n = refl
  run_validated-world approval_required v command params s n = refl
  run_validated-world allowed v command params s n = absurd (n refl)

  -- The validation that a call of the tool makes first.
  abbrev pub check_of :
      BashParams → ToolInvokeContext → BashState W → ValidationResult × BashState W
  check_of params context s =
      validate h (or_empty params.command) (or_empty params.suggested_prefixes)
        context.session_approved_prefixes s

  -- The world after `_invoke` is the world before, unless the user approved or the lists allow.
  run_bash-world :
      (params : BashParams) (context : ToolInvokeContext) (s : BashState W)
      → context.user_approved ≡ false
      → (check_of params context s).0.status ≢ allowed
      → (run_bash h params context s).1.world ≡ s.world
  unfolding run_bash
  run_bash-world params context s e n =
      let (v, s') = check_of params context s in
      let world = run_validated-world v.status v (or_empty params.command) params s' n in
      let same =
        validate-world (or_empty params.command) (or_empty params.suggested_prefixes)
          context.session_approved_prefixes s in
      ground arith

  module _ (host : Host) (restricted approval : List Text) (transformers : List Transformer)
      (icon : Option Text) where
    abbrev pub the_tool : Tool BashParams (BashState W)
    the_tool = bash_tool h restricted approval transformers icon

    invoke_run-world :
        (params : BashParams) (context : ToolInvokeContext) (s : BashState W)
        → (invoke_run host the_tool params context s).2.world
          ≡ (run_bash h params context s).1.world
    unfolding invoke_run bash_tool
    invoke_run-world params context s = ground arith

    -- The three ways of `requires_approval` to let the call go on or stop it.
    asked-cases :
        (params : BashParams) (context : ToolInvokeContext) (s : BashState W)
        → (check_of params context s).0.status ≢ allowed
        → ((requirement : ApprovalRequirement) × (requires_approval h params context s
              ≡ (returned (some requirement), (check_of params context s).1))
            × (requirement.needs_approval ≡ true))
          ⊎ ((requires_approval h params context s ≡ (returned none, (check_of params context s).1))
              × ((check_of params context s).0.status ≡ denied))
          ⊎ (requires_approval h params context s ≡ (returned none, s))
    unfolding requires_approval
    asked-cases params context s n =
        elim (Bool-cases
          (is_empty (or_empty params.command) || is_empty (or_empty params.suggested_prefixes))) [
            | inl short ↦ inr (inr (rw short))
            | inr long ↦
                let (v, s') = check_of params context s in
                elim (requirement-cases v.status v n) [
                  | inl (requirement, e, needed) ↦ inl (requirement, rw (long, e), needed)
                  | inr (e, stopped) ↦ inr (inl (rw (long, e), stopped))
                ]
          ]

    go_on :
        (params : BashParams) (context : ToolInvokeContext) (s : BashState W)
        → context.user_approved ≡ false
        → (check_of params context s).0.status ≢ allowed
        → (get_approval_requirement host the_tool params context s
            ≡ requires_approval h params context s)
        → (invoke host the_tool params context s).2.world ≡ s.world
    unfolding invoke
    go_on params context s e n asked = elim (asked-cases params context s n) [
      | inl (requirement, found, needed) ↦ ground (
        arith,
        validate-world (or_empty params.command) (or_empty params.suggested_prefixes)
            context.session_approved_prefixes s,
      )
      | inr (inl (none_needed, stopped)) ↦ ground (
        arith,
        invoke_run-world params context (check_of params context s).1,
        run_bash-world params context (check_of params context s).1 e (
            denied-ne-allowed (
              validate_denied_again (or_empty params.command) (or_empty params.suggested_prefixes)
                context.session_approved_prefixes s stopped)),
        validate-world (or_empty params.command) (or_empty params.suggested_prefixes)
            context.session_approved_prefixes s,
      )
      | inr (inr short) ↦
          ground (arith, invoke_run-world params context s, run_bash-world params context s e n)
    ]

    -- A call that the user has not approved, and that the lists do not allow, executes nothing:
    -- the world after it is the world before, whatever the arguments are.
    pub invoke_unapproved :
        (params : BashParams) (context : ToolInvokeContext) (s : BashState W)
        → context.user_approved ≡ false
        → (check_of params context s).0.status ≢ allowed
        → (invoke host the_tool params context s).2.world ≡ s.world
    unfolding invoke get_approval_requirement bash_tool
    invoke_unapproved params context s e n =
        elim (Option-cases (check_approval_config host the_tool)) [
          | inl unlisted ↦ go_on params context s e n (rw unlisted)
          | inr (requirement, listed) ↦ ground arith
        ]
