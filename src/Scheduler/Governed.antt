-- ===== src/Scheduler/Governed.antt =====
-- autonomy/scheduler.py: the conditions under which a job's capability is called.
use cogito_agent.Prelude.{
  ◌≡◌, ◌∙◌, ◌⊎◌, inl, inr, refl, ap, String, false, Option, none, some, arith, if◌then◌else◌,
  if-cases, ◌=s◌,
}
use cogito_agent.Executor.{ExecutorState}
use cogito_agent.Executor.Steps.{is_deny}
use cogito_agent.Executor.Governed.{IsPermitted, execute-IsPermitted}
use cogito_agent.Runs.{Run, RunDb}
use cogito_agent.Runs.Create.{create}
use cogito_agent.Runs.Lifecycle.{claim}
use cogito_agent.Scheduler.{ScheduleJob, JobStatus}
use cogito_agent.Scheduler.State.{
  scheduled_run, Scheduler, JobWorld, SchedulerState, Arguments, parsed, malformed, skip_job,
  job_policy_request, is_quiet_hours,
}
use cogito_agent.Scheduler.Stages.{
  job_call, settle_stage, retry_stage, after_call, call_capability, call_with, capability_stage,
}
use cogito_agent.Scheduler.Execute.{
  policy_stage, quiet_stage, open_stage, claim_stage, created_stage, execute_job,
}

-- The job is awake, allowed, not dry, and the executor permits its call.
abbrev pub MayCall : Scheduler → JobWorld → ScheduleJob → SchedulerState → Type 0
MayCall S w job s =
    (is_quiet_hours s.settings job w.now ≡ false)
    × (is_deny (S.policy (job_policy_request job)).decision ≡ false)
    × (job.dry_run ≡ false)
    × ((arguments : String) × IsPermitted S.executor (job_call w job arguments) s.executor)

call_with-IsPermitted :
    (S : Scheduler) (w : JobWorld) (job : ScheduleJob) (x : ExecutorState) (a : Arguments)
    → ((call_with S w job x a).0.invocations ≡ x.invocations)
      ⊎ ((arguments : String) × IsPermitted S.executor (job_call w job arguments) x)
call_with-IsPermitted S w job x (malformed e) = inl refl
call_with-IsPermitted S w job x (parsed a) =
    elim (execute-IsPermitted S.executor (job_call w job a) x) [
      | inl same ↦ inl same
      | inr permitted ↦ inr (a, permitted)
    ]

after_call-executor :
    (S : Scheduler) (w : JobWorld) (job : ScheduleJob) (k : String) (o : JobStatus × Option String)
    (s : SchedulerState)
    → (after_call S w job k o s).executor ≡ s.executor
unfolding after_call retry_stage settle_stage
after_call-executor S w job k o s = ground arith

abbrev Governed : Scheduler → JobWorld → ScheduleJob → SchedulerState → SchedulerState → Type 0
Governed S w job s x = (x.executor.invocations ≡ s.executor.invocations) ⊎ MayCall S w job s

capability_stage-Governed :
    (S : Scheduler) (w : JobWorld) (job : ScheduleJob) (k : String) (s : SchedulerState)
    → is_quiet_hours s.settings job w.now ≡ false
    → is_deny (S.policy (job_policy_request job)).decision ≡ false
    → job.dry_run ≡ false
    → Governed S w job s (capability_stage S w job k s)
unfolding capability_stage call_capability
capability_stage-Governed S w job k s awake fine wet =
    let a = if job.input_json =s "" then parsed "{}" else S.loads job.input_json in
    let c = call_with S w job s.executor a in
    let kept =
      ap (λ (x : ExecutorState). x.invocations)
        (after_call-executor S w job k c.1 (record s { executor = c.0 })) in
    elim (call_with-IsPermitted S w job s.executor a) [
      | inl same ↦ inl (kept ∙ same)
      | inr permitted ↦ inr (awake, fine, wet, permitted)
    ]

policy_stage-Governed :
    (S : Scheduler) (w : JobWorld) (job : ScheduleJob) (k : String) (s : SchedulerState)
    → is_quiet_hours s.settings job w.now ≡ false
    → Governed S w job s (policy_stage S w job k s)
unfolding policy_stage skip_job open_stage settle_stage
policy_stage-Governed S w job k s awake =
    let d = S.policy (job_policy_request job) in
    if-cases (Governed S w job s) (is_deny d.decision) _ _ (λ e. inl refl)
      (λ fine.
        if-cases (Governed S w job s) job.dry_run _ _ (λ e. inl refl)
          (λ wet. capability_stage-Governed S w job k (open_stage w job k d s) awake fine wet))

claim_stage-Governed :
    (S : Scheduler) (w : JobWorld) (job : ScheduleJob) (k : String) (s : SchedulerState)
    → Governed S w job s (claim_stage S w job k s)
unfolding claim_stage quiet_stage skip_job
claim_stage-Governed S w job k s =
    let c = claim w.claim_env k S.worker_id 300 s.runs in
    if-cases (Governed S w job s) c.1 _ _
      (λ won.
        if-cases (Governed S w job s) (is_quiet_hours s.settings job w.now) _ _ (λ e. inl refl)
          (λ awake. policy_stage-Governed S w job k (record s { runs = c.0 }) awake))
      (λ lost. inl refl)

created_stage-Governed :
    (S : Scheduler) (w : JobWorld) (job : ScheduleJob) (c : RunDb × Option Run) (s : SchedulerState)
    → Governed S w job s (created_stage S w job c s).0
created_stage-Governed S w job (db, none) s = inl refl
created_stage-Governed S w job (db, some run) s =
    claim_stage-Governed S w job run.id (record s { runs = db })

-- The capability of a job is called only where the job is out of its quiet hours, the policy does not
-- deny it, it is not a dry run, and the executor permits the call.
pub job_governed :
    (S : Scheduler) (w : JobWorld) (job : ScheduleJob) (s : SchedulerState)
    → ((execute_job S w job s).0.executor.invocations ≡ s.executor.invocations) ⊎ MayCall S w job s
unfolding execute_job
job_governed S w job s =
    created_stage-Governed S w job (create w.create_env (scheduled_run S job w.now) s.runs) s
