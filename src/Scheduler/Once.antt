-- ===== src/Scheduler/Once.antt =====
-- autonomy/scheduler.py: a firing whose run exists already.
use cogito_agent.Prelude.{
  ℕ, suc, ◌+◌, ◌≡◌, ◌∙◌, inl, inr, sym, refl, ap, String, false, some, arith, ◌=s◌, eq_iff,
  Bool-cases,
}
use Prim.Native.String.{◌++◌ as append, len}
use text.Mathlib.TextPositions.{len-append}
use cogito_agent.Sql.{update}
use mathlib.Core.Path.{subst}
use cogito_agent.Runs.{Env, Run, RunDb, get}
use cogito_agent.Runs.Create.{create, get_by_idempotency}
use cogito_agent.Runs.Lifecycle.{claim, claimable, claimed}
use cogito_agent.Runs.Spec.{IsKeyed, permits, when_permitted}
use cogito_agent.Runs.Claims.{claim_exact}
use cogito_agent.Scheduler.{ScheduleJob, running_job}
use cogito_agent.Scheduler.State.{
  Scheduler, JobWorld, SchedulerState, scheduled_run, run_key, fire_at,
}
use cogito_agent.Scheduler.Execute.{claim_stage, execute_job, unclaimed_job}

len-colon : (k t : String) → len (append k (append ":" t)) ≡ len k + (suc (len t))
len-colon k t = omega (arith, len-append k (append ":" t), len-append ":" t)

long_ne-empty : (k t : String) → (append k (append ":" t) =s "") ≡ false
long_ne-empty k t = elim (Bool-cases (append k (append ":" t) =s "")) [
  | inr e ↦ e
  | inl e ↦ ground (arith, len-colon k t, ap len ((eq_iff (append k (append ":" t)) "").0 e))
]

-- `create` returns the run that the key of the firing already has.
second_create :
    (S : Scheduler) (w : JobWorld) (job : ScheduleJob) (db : RunDb) (r : Run)
    → get_by_idempotency "scheduled" (run_key S job w.now) db ≡ some r
    → create w.create_env (scheduled_run S job w.now) db ≡ (db, some r)
unfolding create
second_create S w job db r found =
    let key = long_ne-empty job.id (fire_at S job w.now) in ground arith

-- A claim that fails leaves every run as it was.
claim_lost :
    (env : Env) (id worker : String) (lease : ℕ) (db : RunDb) (r : Run)
    → IsKeyed db
    → get db id ≡ some r
    → claimable r ≡ false
    → ((claim env id worker lease db).1 ≡ false)
      × ((j : String) → get (claim env id worker lease db).0 j ≡ get db j)
claim_lost env id worker lease db r key there spent =
    let (result, here, others) = claim_exact env id worker lease db key in
    (
      result ∙ ap (permits claimable) there ∙ spent,
      λ j. elim (Bool-cases (id =s j)) [
        | inl same ↦
            let p = (eq_iff id j).0 same in
            subst (λ k. get (claim env id worker lease db).0 k ≡ get db k) p
              (here
                ∙ ap (when_permitted claimable (claimed env worker lease)) there
                ∙ unchanged r spent
                ∙ sym there)
        | inr other ↦ others j other
      ],
    )
  where
    unchanged :
        (r : Run)
        → claimable r ≡ false
        → when_permitted claimable (claimed env worker lease) (some r) ≡ some r
    unchanged r h = ground (arith, h)

-- A firing whose run exists and can no longer be claimed calls nothing and leaves the runs as they
-- are; the job, if it is running, fails with "run could not be claimed".
pub fired_once :
    (S : Scheduler) (w : JobWorld) (job : ScheduleJob) (s : SchedulerState) (r : Run)
    → IsKeyed s.runs
    → get_by_idempotency "scheduled" (run_key S job w.now) s.runs ≡ some r
    → get s.runs r.id ≡ some r
    → claimable r ≡ false
    → ((execute_job S w job s).0.executor ≡ s.executor)
      × ((r' : String) → get (execute_job S w job s).0.runs r' ≡ get s.runs r')
      × ((execute_job S w job s).0.jobs ≡ update (running_job job.id) (unclaimed_job w.now) s.jobs)
unfolding execute_job claim_stage
fired_once S w job s r key found there spent =
    let (lost, kept) = claim_lost w.claim_env r.id S.worker_id 300 s.runs r key there spent in
    rw (second_create S w job s.runs r found) (rw lost refl, rw lost kept, rw lost refl)
