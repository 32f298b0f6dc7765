-- ===== src/Scheduler/Finish.antt =====
-- autonomy/scheduler.py: what becomes of the run that a job has claimed.

use cogito_agent.Prelude.{
  ◌≡◌, refl, String, true, Option, none, some, List, [], arith, if◌then◌else◌, if-cases, ◌&&◌, ltb,
}
use cogito_agent.Executor.Steps.{is_deny}
use cogito_agent.Runs.{Run, RunDb, RunStatus, Env, get, is_terminal}
use cogito_agent.Runs.Lifecycle.{claim}
use cogito_agent.Runs.Spec.{IsKeyed}
use cogito_agent.Runs.Moves.{
  RunIs, running-CanFinish, set_trace_id-RunIs, finish-RunIs, claim-RunIs,
}
use cogito_agent.Scheduler.{ScheduleJob, JobStatus, completed}
use cogito_agent.Scheduler.State.{
  Scheduler, JobWorld, SchedulerState, skip_job, job_policy_request, is_quiet_hours, finish_run,
  set_job,
}
use cogito_agent.Scheduler.Stages.{
  settle_stage, retry_stage, after_call, is_failed, is_completed, call_capability, capability_stage,
  counted_retry,
}
use cogito_agent.Scheduler.Execute.{policy_stage, quiet_stage, open_stage, claim_stage}

-- The run is there and in a terminal status.
abbrev pub HasEnded : String → RunDb → Type 0
HasEnded k db = (r : Run) × (get db k ≡ some r) × (is_terminal r.status ≡ true)

finish_run-HasEnded :
    (env : Env) (k : String) (status : RunStatus) (result : List (String × String))
    (code message : String) (db : RunDb)
    → is_terminal status ≡ true
    → RunIs k RunStatus.running db
    → HasEnded k (finish_run env k status result code message db)
unfolding finish_run
finish_run-HasEnded env k status result code message db t run =
    let (r, found, same) =
      finish-RunIs env k status result code message db t (running-CanFinish k db run) in
    (r, found, rw same t)

skip_job-HasEnded :
    (w : JobWorld) (job : ScheduleJob) (k reason : String) (status : RunStatus)
    (code message : String) (s : SchedulerState)
    → is_terminal status ≡ true
    → RunIs k RunStatus.running s.runs
    → HasEnded k (skip_job w job k reason status code message s).runs
unfolding skip_job
skip_job-HasEnded w job k reason status code message s t run =
    finish_run-HasEnded w.finish_env k status [] code message s.runs t run

settle_stage-HasEnded :
    (S : Scheduler) (w : JobWorld) (job : ScheduleJob) (k : String) (o : JobStatus × Option String)
    (s : SchedulerState)
    → RunIs k RunStatus.running s.runs
    → HasEnded k (settle_stage S w job k o s).runs
unfolding settle_stage
settle_stage-HasEnded S w job k o s run =
    finish_run-HasEnded w.finish_env k
      (if is_completed o.0 then RunStatus.succeeded else RunStatus.failed) _ _ _ s.runs
      (ground arith) run

after_call-HasEnded :
    (S : Scheduler) (w : JobWorld) (job : ScheduleJob) (k : String) (o : JobStatus × Option String)
    (s : SchedulerState)
    → RunIs k RunStatus.running s.runs
    → HasEnded k (after_call S w job k o s).runs
unfolding after_call retry_stage
after_call-HasEnded S w job k o s run =
    if-cases (λ (x : SchedulerState). HasEnded k x.runs)
      (is_failed o.0 && ltb job.retry_count job.max_retries) _ _
      (λ e.
        finish_run-HasEnded w.finish_env k RunStatus.failed [] "capability_failed" _ s.runs refl
          run)
      (λ e. settle_stage-HasEnded S w job k o (set_job job counted_retry s) run)

policy_stage-HasEnded :
    (S : Scheduler) (w : JobWorld) (job : ScheduleJob) (k : String) (s : SchedulerState)
    → RunIs k RunStatus.running s.runs
    → HasEnded k (policy_stage S w job k s).runs
unfolding policy_stage capability_stage open_stage
policy_stage-HasEnded S w job k s run =
    let d = S.policy (job_policy_request job) in
    let opened = open_stage w job k d s in
    let called = record opened { executor = (call_capability S w job s.executor).0 } in
    let traced = set_trace_id-RunIs k w.trace_id RunStatus.running s.runs run in
    if-cases (λ (x : SchedulerState). HasEnded k x.runs) (is_deny d.decision) _ _
      (λ e.
        skip_job-HasEnded w job k "policy_denied" RunStatus.failed "policy_denied" d.reason s refl
          run)
      (λ e.
        if-cases (λ (x : SchedulerState). HasEnded k x.runs) job.dry_run _ _
          (λ e. settle_stage-HasEnded S w job k (completed, none) opened traced)
          (λ e. after_call-HasEnded S w job k (call_capability S w job s.executor).1 called traced))

quiet_stage-HasEnded :
    (S : Scheduler) (w : JobWorld) (job : ScheduleJob) (k : String) (s : SchedulerState)
    → RunIs k RunStatus.running s.runs
    → HasEnded k (quiet_stage S w job k s).runs
unfolding quiet_stage
quiet_stage-HasEnded S w job k s run =
    if-cases (λ (x : SchedulerState). HasEnded k x.runs) (is_quiet_hours s.settings job w.now) _ _
      (λ e. skip_job-HasEnded w job k "quiet_hours" RunStatus.cancelled "quiet_hours" _ s refl run)
      (λ e. policy_stage-HasEnded S w job k s run)

-- Whatever happens to a job whose run could be claimed, in quiet hours, refused, run dry, retried or
-- done, its run is in a terminal status afterwards.
pub claimed_run_ends :
    (S : Scheduler) (w : JobWorld) (job : ScheduleJob) (k : String) (s : SchedulerState)
    → IsKeyed s.runs
    → (claim w.claim_env k S.worker_id 300 s.runs).1 ≡ true
    → HasEnded k (claim_stage S w job k s).runs
unfolding claim_stage
claimed_run_ends S w job k s key won = rw won (
    quiet_stage-HasEnded S w job k
      (record s { runs = (claim w.claim_env k S.worker_id 300 s.runs).0 })
      (claim-RunIs w.claim_env k S.worker_id s.runs key won))
