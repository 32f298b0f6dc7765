-- ===== src/Tests/Scheduler.antt =====
-- The scheduler (autonomy/scheduler.py) with one job.
use cogito_agent.Prelude.{
  ◌≡◌, ◌⊎◌, inr, refl, true, false, none, some, [], ◌∷◌, ℕ, String, arith, ◌=s◌,
}
use cogito_agent.Sql.{find, update, rowcount}
use cogito_agent.Policy.{allow}
use cogito_agent.Runs.{Env, RunDb, empty, get, Run}
use cogito_agent.Runs.Create.{new_run, get_by_idempotency}
use cogito_agent.Runs.Spec.{IsKeyed}
use cogito_agent.Runs.Lifecycle.{claim}
use cogito_agent.Runs as Runs
use cogito_agent.Executor.{
  count_call, repeats_of, write_record, findings_of, attempt_loop, offload_large_result, returned,
}
use cogito_agent.Executor.Steps.{execute, guard_stage, policy_stage, invoke_stage}
use cogito_agent.Scheduler.{ScheduleJob, running, schedule, scheduled, get_job, has_id, running_job}
use cogito_agent.Scheduler.State.{Scheduler, JobWorld, SchedulerState, parsed, scheduled_run}
use cogito_agent.Scheduler.Stages.{call_capability, is_completed, outcome}
use cogito_agent.Scheduler.Execute.{quiet_stage, claim_stage, execute_job, unclaimed_job}
use cogito_agent.Scheduler.Due.{IsOver, never_fires_again}
use cogito_agent.Scheduler.Finish.{HasEnded, claimed_run_ends}
use cogito_agent.Scheduler.Governed.{MayCall, job_governed}
use cogito_agent.Scheduler.Once.{fired_once}
use cogito_agent.Scheduler.Table.{inserted_row, schedule-get_job}
use cogito_agent.Tests.Executor.{broken_tool, fresh}

-- An hourly job.
abbrev hourly : ScheduleJob
hourly = record {
  id = "j";
  name = "digest";
  workspace_id = "w";
  actor = "scheduler";
  capability_name = "digest.build";
  input_json = "{}";
  schedule_type = "interval";
  run_at = none;
  interval_seconds = some 3600;
  max_retries = 1;
  retry_count = 0;
  quiet_hours_start = none;
  quiet_hours_end = none;
  timezone = "UTC";
  enabled = true;
  dry_run = false;
  status = running;
  last_error = none;
  last_run_at = none;
  next_run_at = some 100;
  created_at = 50;
  updated_at = 100;
}

abbrev engine : Scheduler
engine = record {
  policy = λ r. record { decision = allow; reason = ""; approval_id = none };
  executor = broken_tool;
  worker_id = "scheduler:1";
  iso = λ t. "100";
  loads = parsed;
}

abbrev working : Scheduler
working = record engine {
  executor = record broken_tool {
    invoke = λ n r.
        returned
          (record { status = "ok"; summary = ""; error = none; payload = ""; artifacts = [] });
  };
}

abbrev at : ℕ → String → Env
at t u = record { now = t; event_now = λ n. t; uuid = λ n. u; dumps = λ xs. "{}"; redact = λ s. s }

abbrev world : JobWorld
world = record {
  now = 100;
  create_env = at 100 "r";
  claim_env = at 100 "e";
  finish_env = at 100 "f";
  trace_id = "t";
  span_id = "p";
}

abbrev state : SchedulerState
state = record {
  jobs = hourly ∷ [];
  runs = empty;
  settings = [];
  executor = fresh;
  audited = [];
  traced = [];
}

abbrev one_run : Run
one_run = new_run (at 100 "r") (scheduled_run working hourly 100)

abbrev started : SchedulerState
started = record state { runs = record { runs = one_run ∷ []; events = []; outputs = [] } }

abbrev spent_run : Run
spent_run = record one_run { status = Runs.succeeded; attempt_count = 1 }

abbrev finished : SchedulerState
finished = record state { runs = record { runs = spent_run ∷ []; events = []; outputs = [] } }

hourly_done : is_completed (call_capability working world hourly fresh).1.0 ≡ true
unfolding call_capability outcome execute guard_stage policy_stage invoke_stage count_call
    repeats_of write_record findings_of attempt_loop offload_large_result
hourly_done = refl

never_fires_again_example : IsOver "j" (quiet_stage working world hourly "r" state)
never_fires_again_example =
    never_fires_again working world hourly "r" state (inr (inr (inr hourly_done)))

hourly_found : find (has_id "j") (hourly ∷ []) ≡ some hourly
unfolding find
hourly_found = refl

started-IsKeyed : IsKeyed started.runs
unfolding rowcount
started-IsKeyed k = ground arith

finished-IsKeyed : IsKeyed finished.runs
unfolding rowcount
finished-IsKeyed k = ground arith

started_claimed : (claim (at 100 "e") "r" "scheduler:1" 300 started.runs).1 ≡ true
unfolding claim rowcount
started_claimed = refl

spent_found : get_by_idempotency "scheduled" "j:100" finished.runs ≡ some spent_run
unfolding get_by_idempotency find
spent_found = refl

spent_there : get finished.runs "r" ≡ some spent_run
unfolding get find
spent_there = refl

hourly-schedule : schedule 7 "u" hourly [] ≡ some (scheduled 7 "j" hourly ∷ [], "j")
unfolding schedule find
hourly-schedule = refl

claimed_run_ends_example : HasEnded "r" (claim_stage working world hourly "r" started).runs
claimed_run_ends_example =
    claimed_run_ends working world hourly "r" started started-IsKeyed started_claimed

fired_once_example :
    ((execute_job working world hourly finished).0.executor ≡ fresh)
    × ((r' : String)
        → get (execute_job working world hourly finished).0.runs r' ≡ get finished.runs r')
    × ((execute_job working world hourly finished).0.jobs
        ≡ update (running_job "j") (unclaimed_job 100) (hourly ∷ []))
fired_once_example =
    fired_once working world hourly finished spent_run finished-IsKeyed spent_found spent_there refl

schedule-get_job_example :
    (get_job "j" (scheduled 7 "j" hourly ∷ []) ≡ some (inserted_row 7 "j" hourly))
    × ((j : String) → ("j" =s j) ≡ false → get_job j (scheduled 7 "j" hourly ∷ []) ≡ get_job j [])
schedule-get_job_example =
    schedule-get_job 7 "u" hourly [] (scheduled 7 "j" hourly ∷ []) "j" hourly-schedule

job_governed_example :
    ((execute_job working world hourly state).0.executor.invocations ≡ [])
    ⊎ MayCall working world hourly state
job_governed_example = job_governed working world hourly state
