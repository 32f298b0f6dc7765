-- ===== src/Scheduler/Tick.antt =====
-- autonomy/scheduler.py: `_recover_expired_runs` and `tick`.
use cogito_agent.Prelude.{
  ℕ, suc, Bool, true, false, Option, none, some, List, [], ◌∷◌, map, if◌then◌else◌,
}
use cogito_agent.Runs.{Run, Env}
use cogito_agent.Runs.Expiry.{abandon_expired}
use cogito_agent.Scheduler.{ScheduleJob, due_jobs, claim_job, release_jobs}
use cogito_agent.Scheduler.State.{Scheduler, JobWorld, SchedulerState}
use cogito_agent.Scheduler.Execute.{execute_job}

-- What one call of `tick` takes from outside: the clock, and what each job takes in turn.
pub record TickWorld : Type 0 where
  pub recover_env : Env
  pub recover_now : ℕ
  pub now : ℕ
  pub job_world : ℕ → JobWorld

-- `_recover_expired_runs`
unfoldable pub recover_expired_runs : TickWorld → SchedulerState → SchedulerState
unfolding abandon_expired release_jobs
recover_expired_runs t s =
    let a = abandon_expired t.recover_env (some "scheduled") s.runs in
    record s {
      runs = a.0;
      jobs = release_jobs t.recover_now (map (λ (r : Run). r.definition_id) a.1) s.jobs;
    }

-- The outcome of a `tick`: the state, and the jobs that were processed, or none where a job raised.
abbrev pub Ticked : Type 0
Ticked = SchedulerState × Option (List ScheduleJob)

abbrev pub with_processed : ScheduleJob → Ticked → Ticked
with_processed job (s, none) = (s, none)
with_processed job (s, some jobs) = (s, some (job ∷ jobs))

abbrev pub after_job : ScheduleJob → (SchedulerState → Ticked) → SchedulerState × Bool → Ticked
after_job job rest (s, false) = (s, none)
after_job job rest (s, true) = with_processed job (rest s)

-- One row: it is executed if it could be claimed.
unfoldable pub process_job :
    Scheduler → ℕ → JobWorld → ScheduleJob → (SchedulerState → Ticked) → SchedulerState → Ticked
unfolding claim_job execute_job
process_job S now w job rest s =
    let c = claim_job now job.id s.jobs in
    if c.1
    then after_job job rest (execute_job S w job (record s { jobs = c.0 }))
    else rest (record s { jobs = c.0 })

-- The loop over the rows.
unfoldable pub process_jobs : Scheduler → TickWorld → ℕ → List ScheduleJob → SchedulerState → Ticked
unfolding process_job
process_jobs S t n [] s = (s, some [])
process_jobs S t n (job ∷ jobs) s =
    process_job S t.now (t.job_world n) job (λ s'. process_jobs S t (suc n) jobs s') s

-- `tick`
unfoldable pub tick : Scheduler → TickWorld → SchedulerState → Ticked
unfolding recover_expired_runs process_jobs due_jobs
tick S t s = let s' = recover_expired_runs t s in process_jobs S t 0 (due_jobs t.now s'.jobs) s'
