-- ===== src/Runs/Ops.antt =====
-- runs/repository.py: any sequence of calls of the repository.
use cogito_agent.Prelude.{ℕ, String, Option, none, some, List, [], ◌∷◌, Bool}
use cogito_agent.Runs.{RunStatus, RunDb, Env}
use cogito_agent.Runs.Lifecycle.{
  claim, heartbeat, pause_for_approval, resume_waiting, set_trace_id, finish, cancel, retry,
}
use cogito_agent.Runs.Create.{NewRun, create, add_output}
use cogito_agent.Runs.Expiry.{abandon_expired}

-- The methods that write, with the arguments of the call.
pub data Op : Type 0 where
  create_op : Env → NewRun → Op
  claim_op : Env → String → String → ℕ → Op
  heartbeat_op : Env → String → String → ℕ → Op
  pause_op : Env → String → String → Op
  resume_op : Env → String → String → ℕ → Op
  trace_op : String → String → Op
  finish_op : Env → String → RunStatus → List (String × String) → String → String → Op
  cancel_op : Env → String → String → Op
  retry_op : Env → String → Op
  abandon_op : Env → Option String → Op
  output_op : Env → String → String → String → Op

-- A call that raises leaves the tables as they were.
abbrev or_unchanged : RunDb → Option (RunDb × Bool) → RunDb
or_unchanged db none = db
or_unchanged db (some (db', done)) = db'

unfoldable pub apply : Op → RunDb → RunDb
apply (create_op env a) db = (create env a db).0
apply (claim_op env id w l) db = (claim env id w l db).0
apply (heartbeat_op env id w l) db = (heartbeat env id w l db).0
apply (pause_op env id approval) db = (pause_for_approval env id approval db).0
apply (resume_op env id w l) db = (resume_waiting env id w l db).0
apply (trace_op id t) db = set_trace_id id t db
apply (finish_op env id s d c m) db = or_unchanged db (finish env id s d c m db)
apply (cancel_op env id reason) db = (cancel env id reason db).0
apply (retry_op env id) db = (retry env id db).0
apply (abandon_op env t) db = (abandon_expired env t db).0
apply (output_op env id t ref) db = (add_output env id t ref db).0

unfoldable pub run_ops : List Op → RunDb → RunDb
run_ops [] db = db
run_ops (o ∷ os) db = run_ops os (apply o db)

-- What every call keeps holds after any sequence of calls.
pub run_ops_induction :
    (P : RunDb → Type 0)
    → ((o : Op) (db : RunDb) → P db → P (apply o db))
    → (os : List Op) (db : RunDb) → P db
    → P (run_ops os db)
unfolding run_ops
run_ops_induction P keep [] db h = h
run_ops_induction P keep (o ∷ os) db h = run_ops_induction P keep os (apply o db) (keep o db h)
