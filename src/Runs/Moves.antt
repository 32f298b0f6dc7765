-- ===== src/Runs/Moves.antt =====
-- runs/repository.py: the status of a run that is there, after the calls that its worker makes.
use cogito_agent.Prelude.{◌≡◌, ◌∙◌, refl, String, true, none, some, List, [], ◌∷◌, arith}
use cogito_agent.Sql.Laws.{find-update, find_holds}
use cogito_agent.Runs.{RunStatus, Run, RunDb, Env, get, has_id, is_terminal}
use cogito_agent.Runs.Lifecycle.{
  claim, finish, finishable, finished, set_trace_id, status_text, pause_for_approval, pausable,
  paused, resume_waiting, resumable, resumed,
}
use cogito_agent.Runs.Spec.{IsKeyed, get-update_run, update_run_result}
use cogito_agent.Runs.Claims.{claim_success}

-- The run is there, with the status.
abbrev pub RunIs : String → RunStatus → RunDb → Type 0
RunIs k st db = (r : Run) × (get db k ≡ some r) × (r.status ≡ st)

-- The run is there, and can be finished.
abbrev pub CanFinish : String → RunDb → Type 0
CanFinish k db = (r : Run) × (get db k ≡ some r) × (finishable r ≡ true)

pub running-CanFinish : (k : String) (db : RunDb) → RunIs k RunStatus.running db → CanFinish k db
running-CanFinish k db (r, found, is) = (r, found, rw is refl)

pub set_trace_id-RunIs :
    (k trace_id : String) (st : RunStatus) (db : RunDb)
    → RunIs k st db
    → RunIs k st (set_trace_id k trace_id db)
unfolding set_trace_id get
set_trace_id-RunIs k trace_id st db (r, found, same) = (
  record r { trace_id = trace_id },
  ground (
    arith,
    find-update (has_id k) (has_id k) (λ r. record r { trace_id = trace_id }) db.runs (λ r. refl),
    find_holds (has_id k) db.runs r found,
  ),
  same,
)

pub finish-RunIs :
    (env : Env) (k : String) (st : RunStatus) (result : List (String × String))
    (code message : String) (db : RunDb)
    → is_terminal st ≡ true
    → CanFinish k db
    → RunIs k st (elim (finish env k st result code message db) [ none ↦ db | some x ↦ x.0 ])
unfolding finish
finish-RunIs env k st result code message db t (r, found, ok) =
    let change = finished env st (env.redact (env.dumps result)) code (env.redact message) in
    let row =
      get-update_run env k "finished" (("status", status_text st) ∷ ("error_code", code) ∷ [])
        finishable change (λ r. refl) db in
    rw (finish, t) (change r, row ∙ rw found (rw ok refl), refl)

pub pause-RunIs :
    (env : Env) (k id : String) (db : RunDb)
    → RunIs k RunStatus.running db
    → RunIs k RunStatus.waiting_approval (pause_for_approval env k id db).0
unfolding pause_for_approval
pause-RunIs env k id db (r, found, is) =
    let row =
      get-update_run env k "waiting_approval" (("approval_id", id) ∷ []) pausable paused (λ r. refl)
        db in
    (paused r, row ∙ rw found (rw is refl), refl)

pub resume_waiting-RunIs :
    (env : Env) (k worker : String) (db : RunDb)
    → IsKeyed db
    → RunIs k RunStatus.waiting_approval db
    → ((resume_waiting env k worker 300 db).1 ≡ true)
      × RunIs k RunStatus.running (resume_waiting env k worker 300 db).0
unfolding resume_waiting
resume_waiting-RunIs env k worker db key (r, found, is) =
    let payload = ("worker_id", worker) ∷ [] in
    let result =
      update_run_result env k "resumed" payload resumable (resumed env worker 300) (λ r. refl) db
        key in
    let row =
      get-update_run env k "resumed" payload resumable (resumed env worker 300) (λ r. refl) db in
    (result ∙ rw found (rw is refl), (resumed env worker 300 r, row ∙ rw found (rw is refl), refl))

pub claim-RunIs :
    (env : Env) (k worker : String) (db : RunDb)
    → IsKeyed db
    → (claim env k worker 300 db).1 ≡ true
    → RunIs k RunStatus.running (claim env k worker 300 db).0
claim-RunIs env k worker db key won =
    let (r, found, ok, now) = claim_success env k worker 300 db key won in (_, now, refl)
