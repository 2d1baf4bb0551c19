-- ===== src/Scheduled/Executor.antt =====
-- `ScheduledPromptsExecutor` (holmes/core/scheduled_prompts/executor.py): it claims runs of prompts from
-- the database, asks the agent, and reports how each run ended.
use canis.Prelude.{
  ℕ, zero, suc, Bool, true, false, Option, none, some, List, [], ◌∷◌, ◌++◌, any, if◌then◌else◌,
  Text, text_eq,
}
use canis.Tools.Result.{Outcome, returned, raised}

pub data RunStatus : Type 0 where
  pending : RunStatus
  pulled : RunStatus
  running : RunStatus
  completed : RunStatus
  failed : RunStatus
  failed_no_retry : RunStatus

pub record ScheduledPrompt : Type 0 where
  pub id : Text
  pub model_name : Text
  pub raw_prompt : Option Text
  pub shown : Text
  pub additional_system_prompt : Option Text

-- A payload of the database: its `id`, and what the validation makes of it.
pub record Payload : Type 0 where
  pub payload_id : Option Text
  pub validated : Outcome ScheduledPrompt

-- What opening the address of the additional prompt gives: an error that is caught, another status
-- than 200, the prompt of the JSON object, if it has one, which may be null, or another error.
pub data Fetched : Type 0 where
  refused : Fetched
  other_status : Fetched
  loaded : Option (Option Text) → Fetched
  unexpected : Text → Fetched

-- The database, the models, the address of the additional prompt, and the chat, on a state of the world; a chat
-- is a question, a model and the additional prompt.
pub record Services (W : Type 0) : Type 0 where
  pub claim_scheduled_prompt_run : W → Outcome (Option Payload) × W
  pub update_run_status : Text → RunStatus → W → Outcome (Unit {0}) × W
  pub finish_scheduled_prompt_run : Text → RunStatus → W → Outcome (Unit {0}) × W
  pub has_scheduled_prompt_definitions : W → Outcome Bool × W
  pub get_models_list : W → Outcome (List Text) × W
  pub open_additional_prompt : W → Fetched × W
  pub chat : Text → Text → Option Text → W → Outcome (Unit {0}) × W
  pub active_interval : ℕ
  pub inactive_interval : ℕ

-- What is asked of the database about runs, in order. A claim is noted when its payload is read.
pub data RunCall : Type 0 where
  claimed : Text → RunCall
  updated : RunStatus → Text → RunCall
  finished : RunStatus → Text → RunCall

pub record ExecutorState (W : Type 0) : Type 0 where
  pub world : W
  pub calls : List RunCall
  pub poll_interval_seconds : ℕ

module _ {W : Type 0} (v : Services W) where
  abbrev pub noted : RunCall → ExecutorState W → ExecutorState W
  noted call s = record s { calls = s.calls ++ call ∷ [] }

  abbrev pub in_world : W → ExecutorState W → ExecutorState W
  in_world w s = record s { world = w }

  -- `_finish_run`
  unfoldable pub finish_run :
      RunStatus → ScheduledPrompt → ExecutorState W → Outcome (Unit {0}) × ExecutorState W
  finish_run status sp s =
      let (o, w) = v.finish_scheduled_prompt_run sp.id status s.world in
      (o, in_world w (noted (finished status sp.id) s))

  abbrev pub nonempty_or : Option Text → Text → Text
  nonempty_or none other = other
  nonempty_or (some []) other = other
  nonempty_or (some (c ∷ t)) other = c ∷ t

  -- `_extract_prompt_text`; `shown` is `str(prompt)`.
  unfoldable pub extract_prompt_text : ScheduledPrompt → Text
  extract_prompt_text sp = nonempty_or sp.raw_prompt sp.shown

  unfoldable pub fetch_additional_system_prompt : Option Text → W → Outcome (Option Text) × W
  fetch_additional_system_prompt fallback w =
      let (r, w') = v.open_additional_prompt w in
      elim r [
        | refused ↦ (returned fallback, w')
        | other_status ↦ (returned fallback, w')
        | loaded none ↦ (returned fallback, w')
        | loaded (some found) ↦ (returned found, w')
        | unexpected e ↦ (raised e, w')
      ]

  unfoldable pub execute_prompt :
      ScheduledPrompt → ExecutorState W → Outcome (Unit {0}) × ExecutorState W
  unfolding finish_run extract_prompt_text fetch_additional_system_prompt
  execute_prompt sp s =
      let (fetched, w1) = fetch_additional_system_prompt sp.additional_system_prompt s.world in
      elim fetched [
        | raised e ↦ (raised e, in_world w1 s)
        | returned extra ↦
            let (answer, w2) = v.chat (extract_prompt_text sp) sp.model_name extra w1 in
            elim answer [
              | raised e ↦ (raised e, in_world w2 s)
              | returned r ↦ finish_run completed sp (in_world w2 s)
            ]
      ]

  unfoldable pub execute_scheduled_prompt :
      ScheduledPrompt → ExecutorState W → Outcome (Unit {0}) × ExecutorState W
  unfolding execute_prompt finish_run
  execute_scheduled_prompt sp s =
      let (models, w) = v.get_models_list s.world in
      elim models [
        | raised e ↦ (raised e, in_world w s)
        | returned names ↦
            if any (text_eq sp.model_name) names
            then execute_prompt sp (in_world w s)
            else finish_run failed sp (in_world w s)
      ]

  -- After the validation: an exception of the execution fails the run.
  unfoldable pub run_prompt : ScheduledPrompt → ExecutorState W → Outcome Bool × ExecutorState W
  unfolding execute_scheduled_prompt finish_run
  run_prompt sp s =
      let (o, s1) = execute_scheduled_prompt sp s in
      elim o [
        | returned r ↦ (returned true, s1)
        | raised e ↦
            let (again, s2) = finish_run failed sp s1 in
            elim again [ raised f ↦ (raised f, s2) | returned r ↦ (returned true, s2) ]
      ]

  -- An invalid payload is not retried. Without an id there is no run to report; the rows of the
  -- database have one.
  unfoldable pub skip_payload : Option Text → ExecutorState W → Outcome Bool × ExecutorState W
  skip_payload none s = (returned true, s)
  skip_payload (some []) s = (returned true, s)
  skip_payload (some (c ∷ t)) s =
      let (o, w) = v.update_run_status (c ∷ t) failed_no_retry s.world in
      let s' = in_world w (noted (updated failed_no_retry (c ∷ t)) (noted (claimed (c ∷ t)) s)) in
      elim o [ raised e ↦ (raised e, s') | returned r ↦ (returned true, s') ]

  unfoldable pub process_next_prompt : ExecutorState W → Outcome Bool × ExecutorState W
  unfolding run_prompt skip_payload
  process_next_prompt s =
      let (o, w) = v.claim_scheduled_prompt_run s.world in
      elim o [
        | raised e ↦ (raised e, in_world w s)
        | returned none ↦ (returned false, in_world w s)
        | returned (some payload) ↦ elim payload.validated [
          | raised e ↦ skip_payload payload.payload_id (in_world w s)
          | returned sp ↦ run_prompt sp (noted (claimed sp.id) (in_world w s))
        ]
      ]

  unfoldable pub update_poll_interval : ExecutorState W → ExecutorState W
  update_poll_interval s =
      let (o, w) = v.has_scheduled_prompt_definitions s.world in
      elim o [
        | raised e ↦ in_world w s
        | returned has ↦ record s {
          world = w;
          poll_interval_seconds = if has then v.active_interval else v.inactive_interval;
        }
      ]

  -- One turn of `_run_loop`, which catches exceptions; the sleep is left out.
  unfoldable pub turn : ExecutorState W → ExecutorState W
  unfolding process_next_prompt update_poll_interval
  turn s =
      let (o, s') = process_next_prompt s in
      elim o [ raised e ↦ s' | returned true ↦ s' | returned false ↦ update_poll_interval s' ]

  -- The loop for a number of turns, after which `running` is false
  unfoldable pub run_loop : ℕ → ExecutorState W → ExecutorState W
  unfolding turn
  run_loop zero s = s
  run_loop (suc turns) s = run_loop turns (turn s)
