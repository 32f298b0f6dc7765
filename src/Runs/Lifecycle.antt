-- ===== src/Runs/Lifecycle.antt =====
-- runs/repository.py: the operations that move one run through its lifecycle.
use cogito_agent.Prelude.{
  ℕ, ◌+◌, String, Bool, true, false, ◌&&◌, ◌||◌, Option, none, some, List, [], ◌∷◌, leb, ltb, ◌==◌,
  ◌=s◌, if◌then◌else◌,
}
use cogito_agent.Sql.{update, rowcount}
use cogito_agent.Runs.{
  RunStatus, pending, running, waiting_approval, succeeded, failed, cancelled, abandoned, other,
  is_pending, is_running, is_waiting, is_abandoned, is_terminal, Run, RunDb, Env, has_id,
  update_run,
}

abbrev pub coalesce : Option ℕ → ℕ → Option ℕ
coalesce none n = some n
coalesce (some m) n = some m

abbrev pub claimable : Run → Bool
claimable r = (is_pending r.status || is_abandoned r.status) && ltb r.attempt_count r.max_attempts

abbrev pub claimed : Env → String → ℕ → Run → Run
claimed env worker_id lease_seconds r = record r {
  status = running;
  claimed_by = some worker_id;
  lease_expires_at = some (env.now + lease_seconds);
  heartbeat_at = some env.now;
  started_at = coalesce r.started_at env.now;
  attempt_count = r.attempt_count + 1;
}

unfoldable pub claim : Env → String → String → ℕ → RunDb → RunDb × Bool
unfolding update_run
claim env run_id worker_id lease_seconds =
    update_run env run_id "claimed" (("worker_id", worker_id) ∷ []) claimable
      (claimed env worker_id lease_seconds)

abbrev pub claimed_by_is : String → Option String → Bool
claimed_by_is w none = false
claimed_by_is w (some v) = v =s w

abbrev pub beats : String → Run → Bool
beats worker_id r = is_running r.status && claimed_by_is worker_id r.claimed_by

abbrev pub beaten : Env → ℕ → Run → Run
beaten env lease_seconds r = record r {
  lease_expires_at = some (env.now + lease_seconds);
  heartbeat_at = some env.now;
}

-- `heartbeat` writes no event.
unfoldable pub heartbeat : Env → String → String → ℕ → RunDb → RunDb × Bool
heartbeat env run_id worker_id lease_seconds db =
    let sel = λ (r : Run). has_id run_id r && beats worker_id r in
    (record db { runs = update sel (beaten env lease_seconds) db.runs }, rowcount sel db.runs == 1)

abbrev pub pausable : Run → Bool
pausable r = is_running r.status

abbrev pub paused : Run → Run
paused r = record r { status = waiting_approval; lease_expires_at = none }

unfoldable pub pause_for_approval : Env → String → String → RunDb → RunDb × Bool
unfolding update_run
pause_for_approval env run_id approval_id =
    update_run env run_id "waiting_approval" (("approval_id", approval_id) ∷ []) pausable paused

abbrev pub resumable : Run → Bool
resumable r = is_waiting r.status

abbrev pub resumed : Env → String → ℕ → Run → Run
resumed env worker_id lease_seconds r = record r {
  status = running;
  claimed_by = some worker_id;
  heartbeat_at = some env.now;
  lease_expires_at = some (env.now + lease_seconds);
  attempt_count = r.attempt_count + 1;
}

unfoldable pub resume_waiting : Env → String → String → ℕ → RunDb → RunDb × Bool
unfolding update_run
resume_waiting env run_id worker_id lease_seconds =
    update_run env run_id "resumed" (("worker_id", worker_id) ∷ []) resumable
      (resumed env worker_id lease_seconds)

unfoldable pub set_trace_id : String → String → RunDb → RunDb
set_trace_id run_id trace_id db = record db {
  runs = update (has_id run_id) (λ r. record r { trace_id = trace_id }) db.runs;
}

abbrev pub finishable : Run → Bool
finishable r =
    is_running r.status || is_pending r.status || is_abandoned r.status || is_waiting r.status

abbrev pub finished : Env → RunStatus → String → String → String → Run → Run
finished env status result error_code error_message r = record r {
  status = status;
  result_json = result;
  error_code = error_code;
  error_message = error_message;
  finished_at = some env.now;
  lease_expires_at = none;
}

-- The text of a terminal status, as the event records it.
unfoldable pub status_text : RunStatus → String
status_text pending = "pending"
status_text running = "running"
status_text waiting_approval = "waiting_approval"
status_text succeeded = "succeeded"
status_text failed = "failed"
status_text cancelled = "cancelled"
status_text abandoned = "abandoned"
status_text (other s) = s

-- `finish`; `none` is the ValueError on a status that is not terminal.
unfoldable pub finish :
    Env
    → String
    → RunStatus
    → List (String × String)
    → String
    → String
    → RunDb
    → Option (RunDb × Bool)
unfolding status_text
finish env run_id status result_data error_code error_message db =
    if is_terminal status
    then some (
        update_run env run_id "finished"
          (("status", status_text status) ∷ ("error_code", error_code) ∷ []) finishable
          (finished env status (env.redact (env.dumps result_data)) error_code
            (env.redact error_message))
          db)
    else none

abbrev pub cancellable : Run → Bool
cancellable r = elim r.status [ succeeded ↦ false | failed ↦ false | cancelled ↦ false | _ ↦ true ]

abbrev pub cancelled_run : Env → String → Run → Run
cancelled_run env reason r = record r {
  status = cancelled;
  error_code = "cancelled";
  error_message = reason;
  finished_at = some env.now;
  lease_expires_at = none;
}

unfoldable pub cancel : Env → String → String → RunDb → RunDb × Bool
unfolding update_run
cancel env run_id reason =
    let safe_reason = env.redact reason in
    update_run env run_id "cancelled" (("reason", safe_reason) ∷ []) cancellable
      (cancelled_run env safe_reason)

abbrev pub retryable : Run → Bool
retryable r = elim r.status [ failed ↦ true | cancelled ↦ true | abandoned ↦ true | _ ↦ false ]

abbrev pub retried : Run → Run
retried r = record r {
  status = pending;
  claimed_by = none;
  lease_expires_at = none;
  heartbeat_at = none;
  finished_at = none;
  error_code = "";
  error_message = "";
  max_attempts = if leb r.max_attempts r.attempt_count then r.attempt_count + 1 else r.max_attempts;
}

unfoldable pub retry : Env → String → RunDb → RunDb × Bool
unfolding update_run
retry env run_id = update_run env run_id "retry_requested" [] retryable retried
