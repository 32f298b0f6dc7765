-- ===== src/Scheduler/Due.antt =====
-- autonomy/scheduler.py: which jobs a later `tick` may select.

use cogito_agent.Prelude.{
  ℕ, ◌+◌, ◌*◌, ◌^◌, ◌≡◌, refl, String, Bool, true, false, Option, none, some, List, [], ◌∷◌, arith,
  ltb, leb, ◌⊎◌, if◌then◌else◌, Bool-cases, inl, inr, All, ◌&&◌, if-cases,
}
use cogito_agent.Sql.{find, update}
use cogito_agent.Sql.Laws.{find-update, find_holds}
use cogito_agent.Executor.Steps.{is_deny}
use cogito_agent.Runs.{RunStatus}
use cogito_agent.Scheduler.{
  ScheduleJob, JobStatus, completed, failed, has_id, is_due, is_open, reached,
}
use cogito_agent.Scheduler.State.{
  Scheduler, JobWorld, SchedulerState, skip_job, skipped_job, set_job, job_policy_request,
  is_quiet_hours,
}
use cogito_agent.Scheduler.Stages.{
  settle_stage, retry_stage, after_call, settled_job, retry_later, counted_retry, is_failed,
  is_completed, call_capability, capability_stage,
}
use cogito_agent.Scheduler.Execute.{policy_stage, quiet_stage, open_stage}

-- A row under another identifier, or one that no time makes due.
abbrev pub NeverDue : String → ScheduleJob → Type 0
NeverDue k j = has_id k j ≡ true → (now : ℕ) → is_due now j ≡ false

closed_NeverDue : (k : String) (j : ScheduleJob) → is_open j.status ≡ false → NeverDue k j
unfolding is_due
closed_NeverDue k j h same now = ground (arith, h)

-- No row under the identifier is ever due.
abbrev pub IsOver : String → SchedulerState → Type 0
IsOver k s = All (NeverDue k) s.jobs

set_over :
    (k : String) (f : ScheduleJob → ScheduleJob) (jobs : List ScheduleJob)
    → ((j : ScheduleJob) → is_open (f j).status ≡ false)
    → All (NeverDue k) (update (has_id k) f jobs)
unfolding update
set_over k f [] h = tt
set_over k f (j ∷ jobs) h = (
  if-cases (NeverDue k) (has_id k j) (f j) j (λ e. closed_NeverDue k (f j) (h j))
      (λ e same. absurd e same),
  set_over k f jobs h,
)
  where
    absurd : {A : Type 0} → has_id k j ≡ false → has_id k j ≡ true → A
    absurd a b = cc

skip_job-IsOver :
    (w : JobWorld) (job : ScheduleJob) (run_id reason : String) (st : RunStatus)
    (code message : String) (s : SchedulerState)
    → IsOver job.id (skip_job w job run_id reason st code message s)
unfolding skip_job
skip_job-IsOver w job run_id reason st code message s =
    set_over job.id (skipped_job w.now) s.jobs (λ j. refl)

settle_stage-IsOver :
    (S : Scheduler) (w : JobWorld) (job : ScheduleJob) (run_id : String)
    (o : JobStatus × Option String) (s : SchedulerState)
    → is_open o.0 ≡ false
    → IsOver job.id (settle_stage S w job run_id o s)
unfolding settle_stage
settle_stage-IsOver S w job run_id o s h =
    set_over job.id (settled_job w.now job o.0 o.1) s.jobs (λ j. h)

completed_over :
    (st : JobStatus) → is_completed st ≡ true → (is_open st ≡ false) × (is_failed st ≡ false)
completed_over st h = ground arith

after_completed :
    (S : Scheduler) (w : JobWorld) (job : ScheduleJob) (run_id : String)
    (o : JobStatus × Option String) (s : SchedulerState)
    → is_completed o.0 ≡ true
    → IsOver job.id (after_call S w job run_id o s)
unfolding after_call
after_completed S w job run_id o s h =
    rw ((completed_over o.0 h).1)
      (settle_stage-IsOver S w job run_id o (set_job job counted_retry s) (completed_over o.0 h).0)

last_case :
    (a b c d : Bool)
    → (a ≡ true) ⊎ ((b ≡ true) ⊎ ((c ≡ true) ⊎ (d ≡ true)))
    → a ≡ false
    → b ≡ false
    → c ≡ false
    → d ≡ true
last_case a b c d h p q r = ground arith

-- Once a claimed job is skipped for quiet hours, refused by the policy, run dry or completed, no row
-- with its identifier is due at any time again, whatever its schedule and its next run.
pub never_fires_again :
    (S : Scheduler) (w : JobWorld) (job : ScheduleJob) (run_id : String) (s : SchedulerState)
    → (is_quiet_hours s.settings job w.now ≡ true)
      ⊎ ((is_deny (S.policy (job_policy_request job)).decision ≡ true)
          ⊎ ((job.dry_run ≡ true) ⊎ (is_completed (call_capability S w job s.executor).1.0 ≡ true)))
    → IsOver job.id (quiet_stage S w job run_id s)
unfolding quiet_stage policy_stage capability_stage open_stage
never_fires_again S w job run_id s h =
    let opened = open_stage w job run_id (S.policy (job_policy_request job)) s in
    let outcome = (call_capability S w job s.executor).1 in
    let called = record opened { executor = (call_capability S w job s.executor).0 } in
    if-cases (IsOver job.id) (is_quiet_hours s.settings job w.now) _ _
      (λ e.
        skip_job-IsOver w job run_id "quiet_hours" RunStatus.cancelled "quiet_hours"
          "Execution skipped during quiet hours" s)
      (λ awake.
        if-cases (IsOver job.id) (is_deny (S.policy (job_policy_request job)).decision) _ _
          (λ e.
            skip_job-IsOver w job run_id "policy_denied" RunStatus.failed "policy_denied"
              (S.policy (job_policy_request job)).reason s)
          (λ fine.
            if-cases (IsOver job.id) job.dry_run _ _
              (λ e. settle_stage-IsOver S w job run_id (completed, none) opened refl)
              (λ wet.
                after_completed S w job run_id outcome called
                  (last_case _ _ _ _ h awake fine wet))))

set_twice :
    (k : String) (f g : ScheduleJob → ScheduleJob) (jobs : List ScheduleJob) (r : ScheduleJob)
    → ((j : ScheduleJob) → has_id k (f j) ≡ has_id k j)
    → ((j : ScheduleJob) → has_id k (g j) ≡ has_id k j)
    → find (has_id k) jobs ≡ some r
    → find (has_id k) (update (has_id k) g (update (has_id k) f jobs)) ≡ some (g (f r))
set_twice k f g jobs r a b found = ground (
  arith,
  find-update (has_id k) (has_id k) f jobs a,
  find-update (has_id k) (has_id k) g (update (has_id k) f jobs) b,
  find_holds (has_id k) jobs r found,
  a r,
)

-- The row of a job, after its capability failed: with retries left it is due again after a delay that
-- doubles each time, else at once.
pub failed_due :
    (S : Scheduler) (w : JobWorld) (job r : ScheduleJob) (run_id : String) (e : Option String)
    (s : SchedulerState)
    → find (has_id job.id) s.jobs ≡ some r
    → (r' : ScheduleJob) × (find (has_id job.id) (after_call S w job run_id (failed, e) s).jobs
        ≡ some r')
      × ((t : ℕ)
          → is_due t r' ≡ (
              r.enabled
              && ((if ltb job.retry_count job.max_retries
                    then leb (w.now + 60 * 2 ^ job.retry_count) t
                    else true)
                  && reached t r.run_at)))
unfolding after_call retry_stage settle_stage is_due
failed_due S w job r run_id e s found = elim (Bool-cases (ltb job.retry_count job.max_retries)) [
  | inl more ↦ rw more (
    retry_later w.now job e (counted_retry r),
    set_twice job.id counted_retry (retry_later w.now job e) s.jobs r (λ j. refl) (λ j. refl) found,
    λ t. refl,
  )
  | inr no_more ↦ rw no_more (
    settled_job w.now job failed e (counted_retry r),
    set_twice job.id counted_retry (settled_job w.now job failed e) s.jobs r (λ j. refl) (λ j. refl)
        found,
    λ t. refl,
  )
]
