-- ===== src/Tests/Runs.antt =====
-- The run repository (runs/repository.py) on small tables.
use cogito_agent.Prelude.{ℕ, ◌≡◌, refl, true, false, none, some, String, List, [], ◌∷◌, arith, ◌=s◌}
use cogito_agent.Sql.{rowcount, find, select}
use cogito_agent.Runs.{Run, RunDb, Env, empty, succeeded, failed, get, append_event}
use cogito_agent.Runs.Lifecycle.{claim, claimed, retry, heartbeat}
use cogito_agent.Runs.Spec.{IsKeyed}
use cogito_agent.Runs.Claims.{IsFree, leased_row, claim_refines, claim_exclusive}
use cogito_agent.Runs.Create.{NewRun, create, new_run, get_by_idempotency}
use cogito_agent.Runs.Ops.{
  Op, create_op, claim_op, finish_op, retry_op, abandon_op, cancel_op, run_ops,
}
use cogito_agent.Runs.Rows.{EachRun}
use cogito_agent.Runs.Leases.{IsConsistent, runs-IsConsistent}
use cogito_agent.Runs.Terminal.{HasSucceeded, succeeded_is_final}
use cogito_agent.Runs.Events.{IsNumbered, events-IsNumbered}

abbrev pub env_at : ℕ → Env
env_at now = record {
  now = now;
  event_now = λ n. now;
  uuid = λ n. "r1";
  dumps = λ d. "{}";
  redact = λ s. s;
}

abbrev pub job : NewRun
job = record {
  run_type = "scheduled";
  workspace_id = "w";
  definition_id = "j";
  parent_run_id = none;
  idempotency_key = "j:1";
  scheduled_at = none;
  priority = "normal";
  max_attempts = 2;
  input_data = [];
}

abbrev pub first_run : Run
first_run = new_run (env_at 1) job

abbrev pub one_run : RunDb
one_run = record { runs = first_run ∷ []; events = []; outputs = [] }

abbrev leased : Run
leased = claimed (env_at 10) "w1" 300 first_run

abbrev one_leased : RunDb
one_leased = record { runs = leased ∷ []; events = []; outputs = [] }

abbrev one_failed : RunDb
one_failed = record {
  runs = (record first_run { status = failed; attempt_count = 2 }) ∷ [];
  events = [];
  outputs = [];
}

abbrev one_done : RunDb
one_done = record {
  runs =
      (record leased {
        status = succeeded;
        result_json = "{1}";
        finished_at = some 20;
        lease_expires_at = none;
      })
      ∷ [];
  events = [];
  outputs = [];
}

pub one_run-IsKeyed : IsKeyed one_run
unfolding rowcount
one_run-IsKeyed k = ground arith

one_leased-IsKeyed : IsKeyed one_leased
unfolding rowcount
one_leased-IsKeyed k = ground arith

one_failed-IsKeyed : IsKeyed one_failed
unfolding rowcount
one_failed-IsKeyed k = ground arith

claim_refines_example :
    let x = claim (env_at 10) "r1" "w1" 300 one_run in
    ((r : Run) → get one_run "r1" ≡ some r → IsFree r → x.1 ≡ true)
    × (x.1 ≡ true
        → (r : Run) × (get one_run "r1" ≡ some r)
          × IsFree r
          × (get x.0 "r1" ≡ some (leased_row 10 "w1" 300 r)))
    × (x.1 ≡ false → get x.0 "r1" ≡ get one_run "r1")
    × ((j : String) → ("r1" =s j) ≡ false → get x.0 j ≡ get one_run j)
claim_refines_example = claim_refines (env_at 10) "r1" "w1" 300 one_run one_run-IsKeyed

pub claim_won : (claim (env_at 10) "r1" "w1" 300 one_run).1 ≡ true
unfolding claim rowcount
claim_won = refl

claim_exclusive_example :
    let db' = (claim (env_at 10) "r1" "w1" 300 one_run).0 in
    ((claim (env_at 20) "r1" "w2" 300 db').1 ≡ false)
    × ((heartbeat (env_at 20) "r1" "w2" 300 db').1 ≡ ("w1" =s "w2"))
claim_exclusive_example =
    claim_exclusive (env_at 10) (env_at 20) "r1" "w1" "w2" 300 300 one_run one_run-IsKeyed claim_won

retry_done : (retry (env_at 30) "r1" one_failed).1 ≡ true
unfolding retry rowcount
retry_done = refl

create_made : (create (env_at 1) job empty).1 ≡ some first_run
unfolding create get get_by_idempotency find append_event
create_made = refl

abbrev life : List Op
life =
    create_op (env_at 1) job
    ∷ claim_op (env_at 10) "r1" "w1" 300
    ∷ abandon_op (env_at 400) none
    ∷ claim_op (env_at 401) "r1" "w2" 300
    ∷ finish_op (env_at 410) "r1" succeeded [] "" ""
    ∷ []

runs-IsConsistent_example : EachRun IsConsistent (run_ops life empty)
runs-IsConsistent_example = runs-IsConsistent life empty tt

events-IsNumbered_example : IsNumbered (run_ops life empty)
events-IsNumbered_example = events-IsNumbered life empty (unfold select in λ id. tt)

done_found :
    get one_done "r1"
    ≡ some (record leased {
      status = succeeded;
      result_json = "{1}";
      finished_at = some 20;
      lease_expires_at = none;
    })
unfolding get find
done_found = refl

succeeded_is_final_example :
    (r' : Run) × (get
        (run_ops (retry_op (env_at 30) "r1" ∷ cancel_op (env_at 31) "r1" "x" ∷ []) one_done)
        "r1"
      ≡ some r')
    × HasSucceeded "{1}" 1 (some 20) r'
succeeded_is_final_example =
    succeeded_is_final (retry_op (env_at 30) "r1" ∷ cancel_op (env_at 31) "r1" "x" ∷ []) one_done
      "r1"
      (record leased {
        status = succeeded;
        result_json = "{1}";
        finished_at = some 20;
        lease_expires_at = none;
      })
      done_found refl
