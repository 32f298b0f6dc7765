-- ===== src/Scheduler/Execute.antt =====
-- autonomy/scheduler.py: `_execute_job`, from the run it creates to the run it finishes.
use cogito_agent.Prelude.{ℕ, String, Bool, true, false, Option, none, some, if◌then◌else◌}
use cogito_agent.Sql.{update}
use cogito_agent.Policy.{PolicyDecision}
use cogito_agent.Runs.{RunStatus, Run, RunDb}
use cogito_agent.Runs.Create.{create}
use cogito_agent.Runs.Lifecycle.{claim, set_trace_id}
use cogito_agent.Executor.Steps.{is_deny}
use cogito_agent.Scheduler.{ScheduleJob, running, completed, failed, running_job}
use cogito_agent.Scheduler.State.{
  JobWorld, Scheduler, SchedulerState, audit, is_quiet_hours, job_policy_request, scheduled_run,
  set_job, skip_job, span_created, trace, trace_created,
}
use cogito_agent.Scheduler.Stages.{capability_stage, settle_stage}

abbrev pub started_job : ℕ → ScheduleJob → ScheduleJob
started_job now j = record j { status = running; updated_at = now }

-- The trace, its span and the audit row before the execution.
unfoldable pub open_stage :
    JobWorld → ScheduleJob → String → PolicyDecision → SchedulerState → SchedulerState
unfolding set_trace_id
open_stage w job run_id d s =
    let s1 = trace (trace_created w.trace_id) (set_job job (started_job w.now) s) in
    let s2 =
      trace (span_created w.span_id)
        (record s1 { runs = set_trace_id run_id w.trace_id s1.runs }) in
    audit
      (record {
        actor_id = job.actor;
        action = "execute";
        job_id = job.id;
        trace_id = w.trace_id;
        decision = d.decision;
        reason = d.reason;
      })
      s2

unfoldable pub policy_stage :
    Scheduler → JobWorld → ScheduleJob → String → SchedulerState → SchedulerState
unfolding skip_job open_stage capability_stage settle_stage
policy_stage S w job run_id s =
    let d = S.policy (job_policy_request job) in
    if is_deny d.decision
    then skip_job w job run_id "policy_denied" RunStatus.failed "policy_denied" d.reason s
    else if job.dry_run
    then settle_stage S w job run_id (completed, none) (open_stage w job run_id d s)
    else capability_stage S w job run_id (open_stage w job run_id d s)

unfoldable pub quiet_stage :
    Scheduler → JobWorld → ScheduleJob → String → SchedulerState → SchedulerState
unfolding policy_stage is_quiet_hours skip_job
quiet_stage S w job run_id s =
    if is_quiet_hours s.settings job w.now
    then skip_job w job run_id "quiet_hours" RunStatus.cancelled "quiet_hours"
        "Execution skipped during quiet hours" s
    else policy_stage S w job run_id s

abbrev pub unclaimed_job : ℕ → ScheduleJob → ScheduleJob
unclaimed_job now j = record j {
  status = failed;
  last_error = some "run could not be claimed";
  updated_at = now;
}

unfoldable pub claim_stage :
    Scheduler → JobWorld → ScheduleJob → String → SchedulerState → SchedulerState
unfolding quiet_stage claim
claim_stage S w job run_id s =
    let c = claim w.claim_env run_id S.worker_id 300 s.runs in
    if c.1
    then quiet_stage S w job run_id (record s { runs = c.0 })
    else record s { runs = c.0; jobs = update (running_job job.id) (unclaimed_job w.now) s.jobs }

abbrev pub created_stage :
    Scheduler → JobWorld → ScheduleJob → RunDb × Option Run → SchedulerState → SchedulerState × Bool
created_stage S w job (db, none) s = (record s { runs = db }, false)
created_stage S w job (db, some run) s = (claim_stage S w job run.id (record s { runs = db }), true)

-- `_execute_job`, and whether it returned or `create` raised.
unfoldable pub execute_job :
    Scheduler → JobWorld → ScheduleJob → SchedulerState → SchedulerState × Bool
unfolding claim_stage create
execute_job S w job s =
    created_stage S w job (create w.create_env (scheduled_run S job w.now) s.runs) s
