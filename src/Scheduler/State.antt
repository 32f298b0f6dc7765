-- ===== src/Scheduler/State.antt =====
-- autonomy/scheduler.py: the engine's collaborators and state, quiet hours, and skipped jobs.
use Prim.Native.String.{◌++◌ as append}
use cogito_agent.Prelude.{
  ℕ, zero, suc, ◌+◌, max, String, Bool, false, Option, none, some, List, [], ◌∷◌, ◌++◌, ◌=s◌,
  if◌then◌else◌,
}
use cogito_agent.Sql.{find, update}
use cogito_agent.Policy.{PolicyRequest, PolicyDecision, DecisionType}
use cogito_agent.Runs.{RunStatus, RunDb, Env}
use cogito_agent.Runs.Create.{NewRun}
use cogito_agent.Runs.Lifecycle.{finish}
use cogito_agent.Gate.{WorkspaceSettings}
use cogito_agent.Gate.Quiet.{window_test, minute_of_day}
use cogito_agent.Executor.{Executor, ExecutorState}
use cogito_agent.Scheduler.{ScheduleJob, skipped, has_id, first_time, time_or}

-- What `json.loads` and the validation of the request make of `input_json`.
pub data Arguments : Type 0 where
  parsed : String → Arguments
  malformed : String → Arguments

-- The engine's collaborators; `iso` is `datetime.isoformat`.
pub record Scheduler : Type 0 where
  pub policy : PolicyRequest → PolicyDecision
  pub executor : Executor
  pub worker_id : String
  pub iso : ℕ → String
  pub loads : String → Arguments

-- What one call of `_execute_job` takes from outside: the clock, the environments of the calls on
-- the runs, and the identifiers of the trace and of its span.
pub record JobWorld : Type 0 where
  pub now : ℕ
  pub create_env : Env
  pub claim_env : Env
  pub finish_env : Env
  pub trace_id : String
  pub span_id : String

pub record AuditRow : Type 0 where
  pub actor_id : String
  pub action : String
  pub job_id : String
  pub trace_id : String
  pub decision : DecisionType
  pub reason : String

pub data TraceEvent : Type 0 where
  trace_created trace_ended span_created span_ended : String → TraceEvent

pub record SchedulerState : Type 0 where
  pub jobs : List ScheduleJob
  pub runs : RunDb
  pub settings : List WorkspaceSettings
  pub executor : ExecutorState
  pub audited : List AuditRow
  pub traced : List TraceEvent

abbrev pub settings_of : String → WorkspaceSettings → Bool
settings_of w s = s.workspace_id =s w

abbrev pub by_settings : Option WorkspaceSettings → ℕ → Bool
by_settings none current = false
by_settings (some s) current = window_test s.quiet_hours_start s.quiet_hours_end current

abbrev pub own_window : Option ℕ → Option ℕ → Bool → ℕ → Bool
own_window none e workspace current = workspace
own_window (some s) none workspace current = workspace
own_window (some s) (some e) workspace current = window_test (some s) (some e) current

-- `_is_quiet_hours`: the job's own hours where both are given, else those of the workspace.
unfoldable pub is_quiet_hours : List WorkspaceSettings → ScheduleJob → ℕ → Bool
is_quiet_hours settings job now =
    own_window job.quiet_hours_start job.quiet_hours_end
      (by_settings (find (settings_of job.workspace_id) settings) (minute_of_day now))
      (minute_of_day now)

abbrev pub after_interval : Option ℕ → ℕ → Option ℕ
after_interval none now = none
after_interval (some zero) now = none
after_interval (some (suc n)) now = some (now + suc n)

-- `_compute_next_run`
unfoldable pub compute_next_run : ScheduleJob → ℕ → Option ℕ
compute_next_run job now =
    if job.schedule_type =s "interval" then after_interval job.interval_seconds now else none

abbrev pub fire_at : Scheduler → ScheduleJob → ℕ → String
fire_at S job now = S.iso (time_or (first_time job.next_run_at job.run_at) now)

abbrev pub run_key : Scheduler → ScheduleJob → ℕ → String
run_key S job now = append job.id (append ":" (fire_at S job now))

abbrev pub scheduled_run : Scheduler → ScheduleJob → ℕ → NewRun
scheduled_run S job now = record {
  run_type = "scheduled";
  workspace_id = job.workspace_id;
  definition_id = job.id;
  parent_run_id = none;
  idempotency_key = run_key S job now;
  scheduled_at = some (fire_at S job now);
  priority = "normal";
  max_attempts = max 1 (job.max_retries + 1);
  input_data =
      ("job_name", job.name)
      ∷ ("capability_name", job.capability_name)
      ∷ ("input_json", job.input_json)
      ∷ [];
}

abbrev pub job_resource : ScheduleJob → String
job_resource job = if job.actor =s "maintenance" then "database" else "*"

abbrev pub job_policy_request : ScheduleJob → PolicyRequest
job_policy_request job = record {
  actor_id = job.actor;
  capability_name = job.capability_name;
  resource = job_resource job;
  operation = "execute";
  context = "background";
}

-- `RunRepository.finish`, whose statuses are terminal at each call here.
unfoldable pub finish_run :
    Env → String → RunStatus → List (String × String) → String → String → RunDb → RunDb
unfolding finish
finish_run env run_id status result code message db =
    elim (finish env run_id status result code message db) [ none ↦ db | some x ↦ x.0 ]

abbrev pub set_job : ScheduleJob → (ScheduleJob → ScheduleJob) → SchedulerState → SchedulerState
set_job job f s = record s { jobs = update (has_id job.id) f s.jobs }

abbrev pub audit : AuditRow → SchedulerState → SchedulerState
audit row s = record s { audited = s.audited ++ row ∷ [] }

abbrev pub trace : TraceEvent → SchedulerState → SchedulerState
trace e s = record s { traced = s.traced ++ e ∷ [] }

abbrev pub skipped_job : ℕ → ScheduleJob → ScheduleJob
skipped_job now j = record j { status = skipped; updated_at = now }

-- The exits for quiet hours and for a refusal by the policy.
unfoldable pub skip_job :
    JobWorld
    → ScheduleJob
    → String
    → String
    → RunStatus
    → String
    → String
    → SchedulerState
    → SchedulerState
unfolding finish_run
skip_job w job run_id reason status code message s =
    let s1 = set_job job (skipped_job w.now) s in
    let s2 =
      audit
        (record {
          actor_id = job.actor;
          action = "job.skipped";
          job_id = job.id;
          trace_id = "";
          decision = DecisionType.deny;
          reason = reason;
        })
        s1 in
    record s2 { runs = finish_run w.finish_env run_id status [] code message s2.runs }
