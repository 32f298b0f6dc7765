-- ===== src/Scheduler/Stages.antt =====
-- autonomy/scheduler.py: the execution of a job's capability, its retry and its end.
use Prim.Native.String.{◌++◌ as append}
use cogito_agent.Prelude.{
  ℕ, ◌+◌, ◌*◌, ◌^◌, String, Bool, true, false, ◌&&◌, Option, none, some, [], ◌∷◌, ltb, ◌=s◌,
  if◌then◌else◌,
}
use cogito_agent.Runs.{RunStatus}
use cogito_agent.Executor.{
  ExecutorState, ExecutionRequest, ExecutionResult, ToolResult, ResultStatus,
}
use cogito_agent.Executor.Steps.{execute}
use cogito_agent.Scheduler.{ScheduleJob, JobStatus, running, completed, failed, skipped}
use cogito_agent.Scheduler.State.{
  Arguments, JobWorld, Scheduler, SchedulerState, compute_next_run, finish_run, job_resource,
  malformed, parsed, set_job, span_ended, trace, trace_ended,
}

abbrev pub job_call : JobWorld → ScheduleJob → String → ExecutionRequest
job_call w job arguments = record {
  capability_name = job.capability_name;
  arguments = arguments;
  workspace_id = job.workspace_id;
  actor_id = job.actor;
  source = "background";
  operation = "execute";
  resource = job_resource job;
  session_id = "";
  trace_id = w.trace_id;
  span_id = w.span_id;
  tool_call_id = "";
}

abbrev pub result_outcome : Option ToolResult → JobStatus × Option String
result_outcome none = (failed, some "capability returned None")
result_outcome (some t) = if t.status =s "error" then (failed, some t.status) else (completed, none)

-- The job's status and `last_error` after an execution.
unfoldable pub outcome : ExecutionResult → JobStatus × Option String
outcome x = elim x.status [
  | ResultStatus.approval_required ↦ (failed, some (append "approval_required:" x.approval_id))
  | ResultStatus.denied ↦ (failed, some x.reason)
  | ResultStatus.not_found ↦ (failed, some x.reason)
  | _ ↦ result_outcome x.tool_result
]

abbrev pub call_with :
    Scheduler
    → JobWorld
    → ScheduleJob
    → ExecutorState
    → Arguments
    → ExecutorState × (JobStatus × Option String)
call_with S w job x (malformed message) = (x, (failed, some message))
call_with S w job x (parsed arguments) =
    let r = execute S.executor (job_call w job arguments) x in (r.0, outcome r.1)

-- The `try` block around the executor.
unfoldable pub call_capability :
    Scheduler → JobWorld → ScheduleJob → ExecutorState → ExecutorState × (JobStatus × Option String)
unfolding outcome
call_capability S w job x =
    call_with S w job x (if job.input_json =s "" then parsed "{}" else S.loads job.input_json)

abbrev pub text_or : Option String → String → String
text_or none d = d
text_or (some t) d = if t =s "" then d else t

abbrev pub is_completed : JobStatus → Bool
is_completed s = elim s [ completed ↦ true | _ ↦ false ]

abbrev pub is_failed : JobStatus → Bool
is_failed s = elim s [ failed ↦ true | _ ↦ false ]

-- The columns after a failure with retries left.
abbrev pub retry_later : ℕ → ScheduleJob → Option String → ScheduleJob → ScheduleJob
retry_later now job e j = record j {
  status = failed;
  last_run_at = some now;
  next_run_at = some (now + 60 * 2 ^ job.retry_count);
  updated_at = now;
  retry_count = job.retry_count + 1;
  last_error = e;
}

unfoldable pub retry_stage :
    JobWorld → ScheduleJob → String → Option String → SchedulerState → SchedulerState
unfolding finish_run
retry_stage w job run_id e s =
    let s1 = set_job job (retry_later w.now job e) s in
    let s2 = trace (trace_ended w.trace_id) (trace (span_ended w.span_id) s1) in
    record s2 {
      runs =
          finish_run w.finish_env run_id RunStatus.failed [] "capability_failed"
            (text_or e "Capability execution failed") s2.runs;
    }

abbrev pub final_next : ScheduleJob → ℕ → JobStatus → Option ℕ
final_next job now status = if is_completed status then compute_next_run job now else none

-- The columns after the last attempt.
abbrev pub settled_job : ℕ → ScheduleJob → JobStatus → Option String → ScheduleJob → ScheduleJob
settled_job now job status e j = record j {
  status = status;
  last_run_at = some now;
  next_run_at = final_next job now status;
  updated_at = now;
  last_error = e;
}

abbrev pub job_status_text : JobStatus → String
job_status_text s = elim s [
  | JobStatus.pending ↦ "pending"
  | running ↦ "running"
  | completed ↦ "completed"
  | failed ↦ "failed"
  | skipped ↦ "skipped"
  | JobStatus.cancelled ↦ "cancelled"
]

abbrev pub next_text : Scheduler → Option ℕ → String
next_text S none = ""
next_text S (some t) = S.iso t

unfoldable pub settle_stage :
    Scheduler
    → JobWorld
    → ScheduleJob
    → String
    → JobStatus × Option String
    → SchedulerState
    → SchedulerState
unfolding finish_run compute_next_run
settle_stage S w job run_id o s =
    let s1 = trace (trace_ended w.trace_id) (trace (span_ended w.span_id) s) in
    let s2 = set_job job (settled_job w.now job o.0 o.1) s1 in
    record s2 {
      runs =
          finish_run w.finish_env run_id
            (if is_completed o.0 then RunStatus.succeeded else RunStatus.failed)
            (("job_status", job_status_text o.0)
              ∷ ("next_run_at", next_text S (final_next job w.now o.0))
              ∷ [])
            (if is_completed o.0 then "" else "capability_failed") (text_or o.1 "") s2.runs;
    }

abbrev pub counted_retry : ScheduleJob → ScheduleJob
counted_retry j = record j { retry_count = j.retry_count + 1 }

-- What follows the execution: a retry, or the end.
unfoldable pub after_call :
    Scheduler
    → JobWorld
    → ScheduleJob
    → String
    → JobStatus × Option String
    → SchedulerState
    → SchedulerState
unfolding retry_stage settle_stage
after_call S w job run_id o s =
    if is_failed o.0 && ltb job.retry_count job.max_retries
    then retry_stage w job run_id o.1 (set_job job counted_retry s)
    else settle_stage S w job run_id o (set_job job counted_retry s)

unfoldable pub capability_stage :
    Scheduler → JobWorld → ScheduleJob → String → SchedulerState → SchedulerState
unfolding call_capability after_call
capability_stage S w job run_id s =
    let c = call_capability S w job s.executor in
    after_call S w job run_id c.1 (record s { executor = c.0 })
