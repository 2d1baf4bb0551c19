-- ===== src/Scheduled/Tests.antt =====
-- The executor of scheduled prompts at a database with one run.
use canis.Prelude.{ℕ, ◌+◌, true, ltb, ◌≡◌, refl, none, some, [], ◌∷◌, if◌then◌else◌, codes, text_eq}
use canis.Tools.Result.{returned, raised}
use canis.Scheduled.Executor.{
  failed, ScheduledPrompt, Services, refused, claimed, finished, ExecutorState, run_loop,
}
use canis.Scheduled.Runs.{settle_all, settle_all-run_loop}

abbrev alert_prompt : ScheduledPrompt
alert_prompt = record {
  id = codes "1";
  model_name = codes "gpt";
  raw_prompt = some (codes "are there alerts");
  shown = codes "{}";
  additional_system_prompt = none;
}

-- The world counts the claims, and the chat raises.
abbrev services : Services ℕ
services = record {
  claim_scheduled_prompt_run = λ w. (
    returned (
        if ltb w 1
        then some (record { payload_id = some alert_prompt.id; validated = returned alert_prompt })
        else none),
    w + 1,
  );
  update_run_status = λ id status w. (returned tt, w);
  finish_scheduled_prompt_run = λ id status w. (returned tt, w);
  has_scheduled_prompt_definitions = λ w. (returned true, w);
  get_models_list = λ w. (returned (codes "gpt" ∷ []), w);
  open_additional_prompt = λ w. (refused, w);
  chat = λ ask model extra w. (raised (codes "no model"), w);
  active_interval = 60;
  inactive_interval = 900;
}

abbrev started : ExecutorState ℕ
started = record { world = 0; calls = []; poll_interval_seconds = 900 }

reported_once :
    (run_loop services 2 started).calls ≡ claimed (codes "1") ∷ finished failed (codes "1") ∷ []
unfolding run_loop text_eq
reported_once = refl

polls_often : (run_loop services 2 started).poll_interval_seconds ≡ 60
unfolding run_loop text_eq
polls_often = refl

nothing_claimed : settle_all none started.calls ≡ some none
unfolding settle_all
nothing_claimed = refl

settle_all-run_loop_example : settle_all none (run_loop services 3 started).calls ≡ some none
settle_all-run_loop_example =
    settle_all-run_loop services (λ id status w. refl) 3 started nothing_claimed
