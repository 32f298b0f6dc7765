-- ===== src/Skill/Run.antt =====
-- skill/runner.py: `run`, from the claim of the durable run to its end.
use Prim.Native.String.{◌++◌ as append}
use cogito_agent.Prelude.{
  String, Bool, true, false, Option, none, some, List, [], ◌∷◌, ◌++◌, Dict, ◌=s◌, if◌then◌else◌,
}
use cogito_agent.Runs.{RunStatus, RunDb}
use cogito_agent.Runs.Create.{NewRun, create}
use cogito_agent.Runs.Lifecycle.{claim, set_trace_id, pause_for_approval, finish}
use cogito_agent.Skill.{
  SkillStep, SkillManifest, Attempted, done, raised, LogStatus, StepLog, logged, errored,
  SkillRunLog, ResumeData, trace_created, trace_ended, SkillState, SkillRunner, SkillWorld, trace,
}
use cogito_agent.Skill.Step.{StepPlace}
use cogito_agent.Skill.Preflight.{preflight_all, check_semver, preflight_error}
use cogito_agent.Skill.Loop.{Progress, LoopEnd, over, paused, step_loop}

-- The arguments of `run`.
pub record SkillCall : Type 0 where
  pub workspace_id : String
  pub session_id : String
  pub inputs : Dict String
  pub input_data : List (String × String)

abbrev pub skill_run : {F : Type 0} → SkillManifest F → SkillCall → NewRun
skill_run M c = record {
  run_type = "skill";
  workspace_id = c.workspace_id;
  definition_id = M.name;
  parent_run_id = none;
  idempotency_key = "";
  scheduled_at = none;
  priority = "normal";
  max_attempts = 2;
  input_data = c.input_data;
}

abbrev pub place_of : SkillCall → StepPlace
place_of c = record {
  workspace_id = c.workspace_id;
  session_id = c.session_id;
  inputs = c.inputs;
  context = [];
}

-- The status that a log gives its run.
abbrev pub run_status : LogStatus → RunStatus
run_status st = elim st [
  | LogStatus.completed ↦ RunStatus.succeeded
  | LogStatus.rejected ↦ RunStatus.cancelled
  | _ ↦ RunStatus.failed
]

abbrev pub log_text : LogStatus → String
log_text st = elim st [
  | LogStatus.running ↦ "running"
  | LogStatus.completed ↦ "completed"
  | LogStatus.failed ↦ "failed"
  | LogStatus.rolled_back ↦ "rolled_back"
  | LogStatus.pending_approval ↦ "pending_approval"
  | LogStatus.rejected ↦ "rejected"
]

abbrev pub is_failure : LogStatus → Bool
is_failure st = elim st [ LogStatus.completed ↦ false | LogStatus.rejected ↦ false | _ ↦ true ]

abbrev errors_of : List StepLog → List String
errors_of [] = []
errors_of (logged id st out ∷ ls) = errors_of ls
errors_of (errored id x ∷ ls) = if x =s "" then errors_of ls else x ∷ errors_of ls

abbrev pub completed_log : SkillRunLog → SkillRunLog
completed_log log = elim log.status [
  | LogStatus.running ↦ record log { status = LogStatus.completed }
  | _ ↦ log
]

abbrev pub result_of : SkillRunLog → List (String × String)
result_of log =
    ("skill_id", log.skill_id) ∷ ("status", log_text log.status) ∷ ("output_types", "[]") ∷ []

module _ {F : Type 0} (R : SkillRunner F) where
  -- `_persist_run_log`
  unfoldable pub persist_run_log :
      SkillWorld
      → SkillRunLog
      → String
      → String
      → Option (ResumeData F)
      → SkillState F
      → SkillState F
  persist_run_log w log workspace name saved s = record s {
    run_logs =
        s.run_logs
        ++ record {
          id = w.log_id;
          workspace_id = workspace;
          skill_name = name;
          trace_id = log.trace_id;
          status = log.status;
          step_logs = log.step_logs;
          resume_data = saved;
        }
          ∷ [];
  }

  -- The result of the run, and its error where the log has failed.
  abbrev pub finished_runs : SkillWorld → SkillRunLog → RunDb → RunDb
  finished_runs w log db =
      let code = if is_failure log.status then "skill_failed" else "" in
      let message = if is_failure log.status then R.join (errors_of log.step_logs) else "" in
      elim (finish w.finish_env log.run_id (run_status log.status) (result_of log) code message
        db) [ none ↦ db | some x ↦ x.0 ]

  -- `_finish_durable_run`
  unfoldable pub finish_durable_run : SkillWorld → SkillRunLog → SkillState F → SkillState F
  unfolding finish
  finish_durable_run w log s =
      if log.run_id =s "" then s else record s { runs = finished_runs w log s.runs }

  abbrev pub resume_data_of :
      SkillManifest F → SkillCall → SkillStep F → List (SkillStep F) → Progress F → ResumeData F
  resume_data_of M c step remaining p = record {
    durable_run_id = p.log.run_id;
    manifest = M;
    approval_step = step;
    remaining = remaining;
    step_context = p.context;
    total_cost = p.total_cost;
    executed_steps = p.executed;
    workspace_id = c.workspace_id;
    session_id = c.session_id;
    inputs = c.inputs;
  }

  -- The end of a log that is not paused.
  abbrev pub close_run :
      SkillWorld → String → SkillManifest F → String → SkillRunLog → SkillState F → SkillState F
  close_run w workspace M trace_id log s =
      finish_durable_run w log
        (persist_run_log w log workspace M.name none (trace (trace_ended trace_id) s))

  -- What follows the loop.
  unfoldable pub after_loop :
      SkillWorld
      → SkillManifest F
      → SkillCall
      → Progress F
      → SkillState F
      → LoopEnd F
      → SkillState F × Attempted SkillRunLog
  unfolding persist_run_log finish_durable_run pause_for_approval
  after_loop w M c p s over =
      let log = completed_log p.log in (close_run w c.workspace_id M w.trace_id log s, done log)
  after_loop w M c p s (paused id step remaining) =
      let saved = resume_data_of M c step remaining p in
      let s1 = persist_run_log w p.log c.workspace_id M.name (some saved) s in
      let s2 = record s1 { runs = (pause_for_approval w.pause_env p.log.run_id id s1.runs).0 } in
      (trace (trace_ended w.trace_id) s2, done p.log)

  abbrev pub new_log : SkillWorld → SkillManifest F → String → SkillRunLog
  new_log w M run_id = record {
    trace_id = w.trace_id;
    skill_id = M.name;
    status = LogStatus.running;
    run_id = run_id;
    step_logs = [];
  }

  abbrev pub first_progress : SkillRunLog → Progress F
  first_progress log = record { total_cost = R.zero_cost; executed = []; context = []; log = log }

  -- The claimed run.
  unfoldable pub claimed_stage :
      SkillWorld
      → SkillManifest F
      → SkillCall
      → String
      → SkillState F
      → SkillState F × Attempted SkillRunLog
  unfolding preflight_all check_semver step_loop after_loop persist_run_log finish_durable_run
      set_trace_id
  claimed_stage w M c run_id s =
      let s1 = trace (trace_created w.trace_id) s in
      let s2 = record s1 { runs = set_trace_id run_id w.trace_id s1.runs } in
      let log = new_log w M run_id in
      elim (preflight_error R M) [
        | some x ↦
            let failed = record log {
              status = LogStatus.failed;
              step_logs = errored "preflight" x ∷ [];
            } in
            (close_run w c.workspace_id M w.trace_id failed s2, raised x)
        | none ↦
            let x = step_loop R true w M (place_of c) M.steps (first_progress log) s2 in
            after_loop w M c x.1 x.0 x.2
      ]

  unfoldable pub claim_stage :
      SkillWorld
      → SkillManifest F
      → SkillCall
      → String
      → SkillState F
      → SkillState F × Attempted SkillRunLog
  unfolding claim claimed_stage
  claim_stage w M c run_id s =
      let x = claim w.claim_env run_id R.worker_id 300 s.runs in
      let s1 = record s { runs = x.0 } in
      if x.1
      then claimed_stage w M c run_id s1
      else (s1, raised (append "Could not claim skill run " run_id))

  -- The executor that `run` binds afresh, which has counted no repetition yet.
  abbrev pub rebound : SkillState F → SkillState F
  rebound s = record s { executor = record s.executor { last_call = none; repeat_count = 0 } }

  -- `run`, with the durable run that it is given or creates.
  unfoldable pub run :
      SkillWorld
      → SkillManifest F
      → SkillCall
      → Option String
      → SkillState F
      → SkillState F × Attempted SkillRunLog
  unfolding create claim_stage
  run w M c (some run_id) s = claim_stage w M c run_id (rebound s)
  run w M c none s =
      let x = create w.create_env (skill_run M c) s.runs in
      let s1 = record (rebound s) { runs = x.0 } in
      elim x.1 [
        | none ↦ (s1, raised "UNIQUE constraint failed: runs.id")
        | some r ↦ claim_stage w M c r.id s1
      ]
