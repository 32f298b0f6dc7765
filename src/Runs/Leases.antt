-- ===== src/Runs/Leases.antt =====
-- runs/repository.py: which runs hold a lease, and how many attempts they have made.
use cogito_agent.Prelude.{◌≤◌, ◌≡◌, true, false, List, is_some, arith}
use cogito_agent.Runs.{Env, Run, RunDb, is_running, is_pending}
use cogito_agent.Runs.Rows.{IsKept, EachRun, EachRun-apply}
use cogito_agent.Runs.Create.{NewRun, new_run}
use cogito_agent.Runs.Ops.{Op, run_ops, run_ops_induction}

-- A run has a lease exactly while it runs; a running run has a worker, a heartbeat and at least
-- one attempt; a run with an end time is not pending.
pub record IsConsistent (r : Run) : Type 0 where
  pub leased : is_some r.lease_expires_at ≡ is_running r.status
  pub held : is_running r.status ≡ true → is_some r.claimed_by ≡ true
  pub beating : is_running r.status ≡ true → is_some r.heartbeat_at ≡ true
  pub started : is_running r.status ≡ true → 1 ≤ r.attempt_count
  pub ended : is_some r.finished_at ≡ true → is_pending r.status ≡ false

IsConsistent-kept : IsKept IsConsistent
IsConsistent-kept = record {
  at_claim = λ env w l r p g. ground arith;
  at_heartbeat = λ env w l r p g. ground arith;
  at_pause = λ r p g. ground arith;
  at_resume = λ env w l r p g. ground arith;
  at_trace = λ t r p. ground arith;
  at_finish = λ env s d c m r p t g. ground arith;
  at_cancel = λ env why r p g. ground arith;
  at_retry = λ r p g. ground arith;
  at_abandon = λ now r p g. ground arith;
}

new_run-IsConsistent : (env : Env) (a : NewRun) → IsConsistent (new_run env a)
new_run-IsConsistent env a = ground arith

-- After any sequence of calls on consistent tables every run is consistent.
pub runs-IsConsistent :
    (os : List Op) (db : RunDb) → EachRun IsConsistent db → EachRun IsConsistent (run_ops os db)
runs-IsConsistent =
    run_ops_induction (EachRun IsConsistent)
      (EachRun-apply IsConsistent IsConsistent-kept new_run-IsConsistent)
