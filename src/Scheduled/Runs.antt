-- ===== src/Scheduled/Runs.antt =====
-- Every claimed run of a prompt is reported once (holmes/core/scheduled_prompts/executor.py).
use canis.Prelude.{
  ℕ, zero, suc, ◌≡◌, refl, ap, ◌∙◌, ◌⊎◌, inl, inr, Option, none, some, List, [], ◌∷◌, ◌++◌, any,
  if◌then◌else◌, arith, Bool-cases, Option-cases, Text, text_eq, text_eq_iff,
}
use mathlib.Core.List.{append_assoc}
use canis.Tools.Result.{Outcome, returned, raised}
use canis.Context.Limit.{Outcome-cases}
use canis.Scheduled.Executor.{
  RunStatus, completed, failed, failed_no_retry, ScheduledPrompt, Services, RunCall, claimed,
  updated, finished, ExecutorState, noted, in_world, finish_run, extract_prompt_text,
  fetch_additional_system_prompt, execute_prompt, execute_scheduled_prompt, run_prompt,
  skip_payload, process_next_prompt, update_poll_interval, turn, run_loop,
}

-- The run that is claimed and not yet reported; any other order of the calls is refused.
abbrev pub settle_one : Option Text → RunCall → Option (Option Text)
settle_one none (claimed id) = some (some id)
settle_one none (updated status id) = none
settle_one none (finished status id) = none
settle_one (some run) (claimed id) = none
settle_one (some run) (updated status id) = if text_eq run id then some none else none
settle_one (some run) (finished status id) = if text_eq run id then some none else none

unfoldable pub settle_all : Option Text → List RunCall → Option (Option Text)
settle_all run [] = some run
settle_all run (call ∷ calls) = elim (settle_one run call) [
  | none ↦ none
  | some next ↦ settle_all next calls
]

settle_all-append :
    (run next : Option Text) (calls more : List RunCall)
    → settle_all run calls ≡ some next
    → settle_all run (calls ++ more) ≡ settle_all next more
unfolding settle_all
settle_all-append run next [] more h = let same : run ≡ next = cc in rw same refl
settle_all-append run next (call ∷ calls) more h = elim (Option-cases (settle_one run call)) [
  | inl e ↦ absurd (ground arith)
  | inr (middle, e) ↦ rw (settle_all, e) (settle_all-append middle next calls more (ground arith))
]

-- A claim with its report.
settle_all-finished :
    (id : Text) (status : RunStatus)
    → settle_all none (claimed id ∷ finished status id ∷ []) ≡ some none
unfolding settle_all
settle_all-finished id status = ground (arith, text_eq_iff id id)

settle_all-updated :
    (id : Text) (status : RunStatus)
    → settle_all none (claimed id ∷ updated status id ∷ []) ≡ some none
unfolding settle_all
settle_all-updated id status = ground (arith, text_eq_iff id id)

module _ {W : Type 0} (v : Services W)
    (finishes : (id : Text) (status : RunStatus) (w : W)
      → (v.finish_scheduled_prompt_run id status w).0 ≡ returned tt) where
  abbrev Settled : List RunCall → Type 0
  Settled calls = settle_all none calls ≡ some none

  -- The execution raised before it reported, or it reported the run.
  abbrev Ended : ScheduledPrompt → ExecutorState W → Outcome (Unit {0}) × ExecutorState W → Type 0
  Ended sp s (o, s') =
      ((e : Text) × ((o ≡ raised e) × (s'.calls ≡ s.calls)))
      ⊎ ((o ≡ returned tt)
          × ((status : RunStatus) × (s'.calls ≡ s.calls ++ finished status sp.id ∷ [])))

  finish_run-Ended :
      (status : RunStatus) (sp : ScheduledPrompt) (s : ExecutorState W)
      → Ended sp s (finish_run v status sp s)
  unfolding finish_run
  finish_run-Ended status sp s = inr (finishes sp.id status s.world, (status, refl))

  execute_prompt-Ended :
      (sp : ScheduledPrompt) (s : ExecutorState W) → Ended sp s (execute_prompt v sp s)
  unfolding execute_prompt
  execute_prompt-Ended sp s =
      let (fetched, w1) = fetch_additional_system_prompt v sp.additional_system_prompt s.world in
      elim (Outcome-cases fetched) [
        | inl (e, f) ↦ rw (execute_prompt, f) (inl (e, (refl, refl)))
        | inr (extra, f) ↦
            let (answer, w2) = v.chat (extract_prompt_text v sp) sp.model_name extra w1 in
            elim (Outcome-cases answer) [
              | inl (e, g) ↦ rw (execute_prompt, f) (rw g (inl (e, (refl, refl))))
              | inr (r, g) ↦
                  rw (execute_prompt, f) (rw g (finish_run-Ended completed sp (in_world v w2 s)))
            ]
      ]

  execute_scheduled_prompt-Ended :
      (sp : ScheduledPrompt) (s : ExecutorState W) → Ended sp s (execute_scheduled_prompt v sp s)
  unfolding execute_scheduled_prompt
  execute_scheduled_prompt-Ended sp s =
      let (models, w) = v.get_models_list s.world in
      elim (Outcome-cases models) [
        | inl (e, f) ↦ rw (execute_scheduled_prompt, f) (inl (e, (refl, refl)))
        | inr (names, f) ↦ elim (Bool-cases (any (text_eq sp.model_name) names)) [
          | inl g ↦
              rw (execute_scheduled_prompt, f) (rw g (execute_prompt-Ended sp (in_world v w s)))
          | inr g ↦
              rw (execute_scheduled_prompt, f) (rw g (finish_run-Ended failed sp (in_world v w s)))
        ]
      ]

  run_prompt_calls :
      (sp : ScheduledPrompt) (s : ExecutorState W)
      → (status : RunStatus) × ((run_prompt v sp s).1.calls ≡ s.calls ++ finished status sp.id ∷ [])
  unfolding run_prompt finish_run
  run_prompt_calls sp s = elim (execute_scheduled_prompt-Ended sp s) [
    | inl (e, (f, same)) ↦ (
      failed,
      rw (run_prompt, f)
          (rw (finishes sp.id failed (execute_scheduled_prompt v sp s).1.world)
            (ap (λ (l : List RunCall). l ++ finished failed sp.id ∷ []) same)),
    )
    | inr (f, (status, same)) ↦ (status, rw (run_prompt, f) same)
  ]

  -- New calls that settle_one keep the calls settled.
  Settled-append :
      (calls new : List RunCall)
      → Settled calls
      → settle_all none new ≡ some none
      → Settled (calls ++ new)
  Settled-append calls new h more = settle_all-append none none calls new h ∙ more

  run_claimed :
      (sp : ScheduledPrompt) (s : ExecutorState W)
      → Settled s.calls
      → Settled (run_prompt v sp (noted v (claimed sp.id) s)).1.calls
  run_claimed sp s h =
      let (status, same) = run_prompt_calls sp (noted v (claimed sp.id) s) in
      rw same (
        rw (append_assoc s.calls (claimed sp.id ∷ []) (finished status sp.id ∷ [])) (
          Settled-append s.calls (claimed sp.id ∷ finished status sp.id ∷ []) h
            (settle_all-finished sp.id status)))

  skip_payload-Settled :
      (id : Option Text) (s : ExecutorState W)
      → Settled s.calls
      → Settled (skip_payload v id s).1.calls
  unfolding skip_payload
  skip_payload-Settled none s h = h
  skip_payload-Settled (some []) s h = h
  skip_payload-Settled (some (c ∷ t)) s h =
      let id = c ∷ t in
      let more =
        Settled-append s.calls (claimed id ∷ updated failed_no_retry id ∷ []) h
          (settle_all-updated id failed_no_retry) in
      let (o, w) = v.update_run_status id failed_no_retry s.world in
      elim (Outcome-cases o) [
        | inl (e, f) ↦
            rw (skip_payload, f)
              (rw (append_assoc s.calls (claimed id ∷ []) (updated failed_no_retry id ∷ [])) more)
        | inr (r, f) ↦
            rw (skip_payload, f)
              (rw (append_assoc s.calls (claimed id ∷ []) (updated failed_no_retry id ∷ [])) more)
      ]

  process_next_prompt-Settled :
      (s : ExecutorState W) → Settled s.calls → Settled (process_next_prompt v s).1.calls
  unfolding process_next_prompt
  process_next_prompt-Settled s h =
      let (o, w) = v.claim_scheduled_prompt_run s.world in
      elim (Outcome-cases o) [
        | inl (e, f) ↦ rw (process_next_prompt, f) h
        | inr (found, f) ↦ elim (Option-cases found) [
          | inl g ↦ rw (process_next_prompt, f) (rw g h)
          | inr (payload, g) ↦ elim (Outcome-cases payload.validated) [
            | inl (e, k) ↦
                rw (process_next_prompt, f)
                  (rw g (rw k (skip_payload-Settled payload.payload_id (in_world v w s) h)))
            | inr (sp, k) ↦
                rw (process_next_prompt, f) (rw g (rw k (run_claimed sp (in_world v w s) h)))
          ]
        ]
      ]

  update_poll_interval_calls : (s : ExecutorState W) → (update_poll_interval v s).calls ≡ s.calls
  unfolding update_poll_interval
  update_poll_interval_calls s =
      elim (Outcome-cases (v.has_scheduled_prompt_definitions s.world).0) [
        | inl (e, f) ↦ rw (update_poll_interval, f) refl
        | inr (has, f) ↦ rw (update_poll_interval, f) refl
      ]

  turn-Settled : (s : ExecutorState W) → Settled s.calls → Settled (turn v s).calls
  unfolding turn
  turn-Settled s h =
      let done = process_next_prompt-Settled s h in
      let (o, s') = process_next_prompt v s in
      elim (Outcome-cases o) [
        | inl (e, f) ↦ rw (turn, f) done
        | inr (found, f) ↦ elim (Bool-cases found) [
          | inl g ↦ rw (turn, f) (rw g done)
          | inr g ↦ rw (turn, f) (rw g (rw (update_poll_interval_calls s') done))
        ]
      ]

  -- When the reports of the ends of runs do not raise, each run that the loop claims is reported exactly
  -- once, before the next one is claimed, however its execution ends: the calls that the loop adds to
  -- settled ones are settled.
  pub settle_all-run_loop :
      (turns : ℕ) (s : ExecutorState W)
      → settle_all none s.calls ≡ some none
      → settle_all none (run_loop v turns s).calls ≡ some none
  unfolding run_loop
  settle_all-run_loop zero s h = h
  settle_all-run_loop (suc turns) s h = settle_all-run_loop turns (turn v s) (turn-Settled s h)
