-- ===== src/Skill/Resumed.antt =====
-- skill/runner.py: the durable run after `resume`.
use Prim.Native.String.{◌++◌ as append}
use mathlib.Core.Path.{subst}
use cogito_agent.Prelude.{
  ◌≡◌, ◌∙◌, ◌⊎◌, inl, inr, refl, sym, String, false, Option, some, List, ◌=s◌, if-cases,
}
use cogito_agent.Sql.{find}
use cogito_agent.Runs.{RunStatus}
use cogito_agent.Runs.Lifecycle.{resume_waiting}
use cogito_agent.Runs.Spec.{IsKeyed}
use cogito_agent.Skill.{
  LogStatus, StepLog, SkillRunLog, ResumeData, RunLogRow, ApprovalRow, SkillState, SkillRunner,
  SkillWorld, trace, trace_created, audit,
}
use cogito_agent.Skill.Loop.{Progress, LoopEnd, over, step_loop, open_span, close_span}
use cogito_agent.Skill.Loop
use cogito_agent.Skill.Run.{run_status, completed_log}
use cogito_agent.Skill.Resume.{
  has_log_id, has_approval_id, resume_place, resumed_progress, reopened, resumed_log, resumed_stage,
  approved_stage, rejected_stage, decided_stage, resume,
}
use cogito_agent.Skill.Settled.{IsOver, EndFits, step_loop-Fits, runs-open_span, runs-close_span}
use cogito_agent.Runs.Moves.{RunIs, resume_waiting-RunIs, running-CanFinish}
use cogito_agent.Skill.Ended.{
  HasResult, close_run-RunIs, completed_log-HasResult, completed_log_run,
}

-- The loop of `resume` does not end in a wait.
ends-IsOver : {F : Type 0} (e : LoopEnd F) (st : LogStatus) → EndFits false e st → IsOver st
ends-IsOver over st h = h
ends-IsOver (Loop.paused id step steps) st h = absurd (cc)

module _ {F : Type 0} (R : SkillRunner F) (w : SkillWorld) (d : ResumeData F)
    (named : (d.durable_run_id =s "") ≡ false) where
  -- The log that is returned, and its run.
  abbrev pub ResumeSettled : SkillState F × Option SkillRunLog → Type 0
  ResumeSettled x =
      (log : SkillRunLog) × (x.1 ≡ some log)
      × (HasResult R log.status ⊎ (log.status ≡ LogStatus.rejected))
      × RunIs d.durable_run_id (run_status log.status) x.0.runs

  resumed_stage-Settled :
      (entries : List StepLog) (row_id : String) (s : SkillState F)
      → RunIs d.durable_run_id RunStatus.running s.runs
      → ResumeSettled (resumed_stage R w d entries row_id s)
  unfolding resumed_stage
  resumed_stage-Settled entries row_id s is =
      let p = resumed_progress R w d entries in
      let s1 = reopened R d s in
      let x = step_loop R false w d.manifest (resume_place R d) d.remaining p s1 in
      let (runs, run_id, fits) =
        step_loop-Fits R false w d.manifest (resume_place R d) d.remaining p s1 refl in
      let ended = ends-IsOver x.2 x.1.log.status fits in
      let log = completed_log x.1.log in
      let id : log.run_id ≡ d.durable_run_id = completed_log_run R x.1.log ended ∙ run_id in
      let same : x.0.runs ≡ s.runs =
        runs
        ∙ runs-close_span R d.approval_step (open_span R d.approval_step s)
        ∙ runs-open_span R d.approval_step s in
      let run = subst (λ db. RunIs d.durable_run_id RunStatus.running db) (sym same) is in
      let final = audit "skill.resume.completed" (append "run:" row_id) x.0 in
      (
        log,
        refl,
        inl (completed_log-HasResult R x.1.log ended),
        close_run-RunIs R w d.workspace_id d.manifest w.trace_id log d.durable_run_id final id named
            (running-CanFinish d.durable_run_id x.0.runs run),
      )

  rejected_stage-Settled :
      (entries : List StepLog) (s : SkillState F)
      → RunIs d.durable_run_id RunStatus.waiting_approval s.runs
      → ResumeSettled (rejected_stage R w d entries s)
  unfolding rejected_stage
  rejected_stage-Settled entries s (r, found, is) = (
    resumed_log R w d entries LogStatus.rejected "rejected",
    refl,
    inr refl,
    close_run-RunIs R w d.workspace_id d.manifest w.trace_id
        (resumed_log R w d entries LogStatus.rejected "rejected") d.durable_run_id _ refl named
        (r, found, rw is refl),
  )

  decided_stage-Settled :
      (decision : String) (row : RunLogRow F) (s : SkillState F)
      → (row.trace_id =s "") ≡ false
      → IsKeyed s.runs
      → RunIs d.durable_run_id RunStatus.waiting_approval s.runs
      → ResumeSettled (decided_stage R w decision row d s)
  unfolding approved_stage
  decided_stage-Settled decision row s traced key is =
      let s1 = trace (trace_created w.trace_id) s in
      let (won, running) =
        resume_waiting-RunIs w.claim_env d.durable_run_id R.worker_id s.runs key is in
      let s2 = record s1 {
        runs = (resume_waiting w.claim_env d.durable_run_id R.worker_id 300 s.runs).0;
      } in
      rw traced (
        if-cases ResumeSettled (decision =s "approved") _ _
          (λ yes. rw named (rw won (resumed_stage-Settled row.step_logs row.id s2 running)))
          (λ no. rejected_stage-Settled row.step_logs s1 is))

-- Any approval of the table decides.
pub resume_decided :
    {F : Type 0} (R : SkillRunner F) (w : SkillWorld) (run_log_id approval_id : String)
    (s : SkillState F) (row : RunLogRow F) (d : ResumeData F) (a : ApprovalRow)
    → find (has_log_id run_log_id) s.run_logs ≡ some row
    → row.status ≡ LogStatus.pending_approval
    → row.resume_data ≡ some d
    → find (has_approval_id approval_id) s.approvals ≡ some a
    → resume R w run_log_id approval_id s ≡ decided_stage R w a.decision row d s
unfolding resume
resume_decided R w run_log_id approval_id s row d a found pending saved approval =
    rw (resume, found) (rw pending (rw saved (rw approval refl)))

-- Where a log that waits for an approval is resumed with any approval of the table, and its durable
-- run waits, the call returns a log that is completed, failed, rolled back or rejected, and the run
-- has the final status that fits it: also where further approval steps remain, for none of them is
-- waited for.
pub resume_settles :
    {F : Type 0} (R : SkillRunner F) (w : SkillWorld) (run_log_id approval_id : String)
    (s : SkillState F) (row : RunLogRow F) (d : ResumeData F) (a : ApprovalRow)
    → find (has_log_id run_log_id) s.run_logs ≡ some row
    → row.status ≡ LogStatus.pending_approval
    → row.resume_data ≡ some d
    → find (has_approval_id approval_id) s.approvals ≡ some a
    → (row.trace_id =s "") ≡ false
    → (named : (d.durable_run_id =s "") ≡ false) → IsKeyed s.runs
    → RunIs d.durable_run_id RunStatus.waiting_approval s.runs
    → ResumeSettled R w d named (resume R w run_log_id approval_id s)
resume_settles R w run_log_id approval_id s row d a found pending saved approval traced named key
      is =
    rw (resume_decided R w run_log_id approval_id s row d a found pending saved approval)
      (decided_stage-Settled R w d named a.decision row s traced key is)
