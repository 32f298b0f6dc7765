-- ===== src/Skill/Resume.antt =====
-- skill/runner.py: `resume`, after the decision on an approval.
use Prim.Native.String.{◌++◌ as append}
use cogito_agent.Prelude.{
  String, Bool, true, false, Option, none, some, List, [], ◌∷◌, ◌=s◌, if◌then◌else◌,
}
use cogito_agent.Sql.{find}
use cogito_agent.Runs.Lifecycle.{resume_waiting}
use cogito_agent.Skill.{
  LogStatus, StepLog, logged, errored, SkillRunLog, ResumeData, RunLogRow, ApprovalRow,
  trace_created, SkillState, SkillRunner, SkillWorld, trace, audit,
}
use cogito_agent.Skill.Step.{StepPlace}
use cogito_agent.Skill.Loop.{Progress, step_loop, open_span, close_span}
use cogito_agent.Skill.Run.{completed_log, close_run, persist_run_log, finish_durable_run}

abbrev pub has_log_id : {F : Type 0} → String → RunLogRow F → Bool
has_log_id k r = r.id =s k

abbrev pub has_approval_id : String → ApprovalRow → Bool
has_approval_id k a = a.id =s k

abbrev pub entry_id : StepLog → String
entry_id (logged id st out) = id
entry_id (errored id x) = id

abbrev pub set_entry : String → StepLog → StepLog
set_entry st (logged id old out) = logged id st out
set_entry st (errored id x) = logged id st x

-- The first entry of the step gets the status.
unfoldable pub decide_entry : String → String → List StepLog → List StepLog
decide_entry id st [] = []
decide_entry id st (l ∷ ls) =
    let rest = decide_entry id st ls in if entry_id l =s id then set_entry st l ∷ ls else l ∷ rest

abbrev pub is_pending_log : LogStatus → Bool
is_pending_log st = elim st [ LogStatus.pending_approval ↦ true | _ ↦ false ]

module _ {F : Type 0} (R : SkillRunner F) where
  abbrev pub resume_place : ResumeData F → StepPlace
  resume_place d = record {
    workspace_id = d.workspace_id;
    session_id = d.session_id;
    inputs = d.inputs;
    context = [];
  }

  abbrev pub resumed_log :
      SkillWorld → ResumeData F → List StepLog → LogStatus → String → SkillRunLog
  resumed_log w d entries st word = record {
    trace_id = w.trace_id;
    skill_id = d.manifest.name;
    status = st;
    run_id = d.durable_run_id;
    step_logs = decide_entry d.approval_step.id word entries;
  }

  abbrev pub resumed_progress : SkillWorld → ResumeData F → List StepLog → Progress F
  resumed_progress w d entries = record {
    total_cost = d.total_cost;
    executed = d.executed_steps;
    context = d.step_context;
    log = resumed_log w d entries LogStatus.running "approved";
  }

  abbrev pub reopened : ResumeData F → SkillState F → SkillState F
  reopened d s =
      audit "skill.resume.approved" (append "step:" d.approval_step.id)
        (close_span R d.approval_step (open_span R d.approval_step s))

  -- The loop over the steps that remain, and the end of the run.
  unfoldable pub resumed_stage :
      SkillWorld
      → ResumeData F
      → List StepLog
      → String
      → SkillState F
      → SkillState F × Option SkillRunLog
  unfolding step_loop decide_entry persist_run_log finish_durable_run
  resumed_stage w d entries row_id s =
      let x =
        step_loop R false w d.manifest (resume_place d) d.remaining (resumed_progress w d entries)
          (reopened d s) in
      let log = completed_log x.1.log in
      (
        close_run R w d.workspace_id d.manifest w.trace_id log
            (audit "skill.resume.completed" (append "run:" row_id) x.0),
        some log,
      )

  -- The durable run has to be waiting, where there is one.
  unfoldable pub approved_stage :
      SkillWorld
      → ResumeData F
      → List StepLog
      → String
      → SkillState F
      → SkillState F × Option SkillRunLog
  unfolding resume_waiting resumed_stage
  approved_stage w d entries row_id s =
      let x = resume_waiting w.claim_env d.durable_run_id R.worker_id 300 s.runs in
      if d.durable_run_id =s ""
      then resumed_stage w d entries row_id s
      else if x.1
      then resumed_stage w d entries row_id (record s { runs = x.0 })
      else (record s { runs = x.0 }, none)

  unfoldable pub rejected_stage :
      SkillWorld → ResumeData F → List StepLog → SkillState F → SkillState F × Option SkillRunLog
  unfolding decide_entry persist_run_log finish_durable_run
  rejected_stage w d entries s =
      let log = resumed_log w d entries LogStatus.rejected "rejected" in
      (
        close_run R w d.workspace_id d.manifest w.trace_id log
            (audit "skill.resume.rejected" (append "step:" d.approval_step.id) s),
        some log,
      )

  abbrev pub decided_stage :
      SkillWorld
      → String
      → RunLogRow F
      → ResumeData F
      → SkillState F
      → SkillState F × Option SkillRunLog
  decided_stage w decision row d s =
      let s1 = trace (trace_created w.trace_id) s in
      if row.trace_id =s ""
      then (s, none)
      else if decision =s "approved"
      then approved_stage w d row.step_logs row.id s1
      else rejected_stage w d row.step_logs s1

  abbrev pub row_stage :
      SkillWorld → String → RunLogRow F → SkillState F → SkillState F × Option SkillRunLog
  row_stage w approval_id row s =
      if is_pending_log row.status
      then (elim row.resume_data [
        | none ↦ (s, none)
        | some d ↦ (elim (find (has_approval_id approval_id) s.approvals) [
          | none ↦ (s, none)
          | some a ↦ decided_stage w a.decision row d s
        ])
      ])
      else (s, none)

  -- `resume`
  unfoldable pub resume :
      SkillWorld → String → String → SkillState F → SkillState F × Option SkillRunLog
  unfolding approved_stage rejected_stage
  resume w run_log_id approval_id s = elim (find (has_log_id run_log_id) s.run_logs) [
    | none ↦ (s, none)
    | some row ↦ row_stage w approval_id row s
  ]
