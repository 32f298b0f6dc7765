-- ===== src/Skill/Ended.antt =====
-- skill/runner.py: the durable run after `run`.
use mathlib.Core.Path.{subst}
use cogito_agent.Prelude.{◌≡◌, ◌∙◌, ◌⊎◌, inl, inr, refl, sym, String, true, false, some, ◌=s◌}
use cogito_agent.Runs.{RunStatus, is_terminal}
use cogito_agent.Runs.Lifecycle.{claim, set_trace_id, pause_for_approval}
use cogito_agent.Runs.Spec.{IsKeyed}
use cogito_agent.Runs.Moves.{
  RunIs, CanFinish, running-CanFinish, set_trace_id-RunIs, finish-RunIs, pause-RunIs, claim-RunIs,
}
use cogito_agent.Skill.{
  SkillManifest, Attempted, done, raised, LogStatus, SkillRunLog, SkillState, SkillRunner,
  SkillWorld, trace, trace_created,
}
use cogito_agent.Skill.Loop.{Progress, LoopEnd, over, step_loop}
use cogito_agent.Skill.Loop
use cogito_agent.Skill.Preflight.{preflight_error}
use cogito_agent.Skill.Run.{
  rebound, SkillCall, place_of, run_status, completed_log, persist_run_log, finish_durable_run,
  close_run, after_loop, new_log, first_progress, claimed_stage, claim_stage, run,
}
use cogito_agent.Kernel.Rules.{option_rule}
use cogito_agent.Skill.Settled.{IsOver, EndFits, step_loop-Fits}

run_status_ends : (st : LogStatus) → is_terminal (run_status st) ≡ true
run_status_ends LogStatus.running = refl
run_status_ends LogStatus.completed = refl
run_status_ends LogStatus.failed = refl
run_status_ends LogStatus.rolled_back = refl
run_status_ends LogStatus.pending_approval = refl
run_status_ends LogStatus.rejected = refl

module _ {F : Type 0} (R : SkillRunner F) where
  -- The end of a log gives its run the status that fits.
  pub close_run-RunIs :
      (w : SkillWorld) (workspace : String) (M : SkillManifest F) (trace_id : String)
      (log : SkillRunLog) (k : String) (s : SkillState F)
      → log.run_id ≡ k
      → (k =s "") ≡ false
      → CanFinish k s.runs
      → RunIs k (run_status log.status) (close_run R w workspace M trace_id log s).runs
  unfolding finish_durable_run persist_run_log
  close_run-RunIs w workspace M trace_id log k s same =
      subst
        (λ i.
          (i =s "") ≡ false
          → CanFinish i s.runs
          → RunIs i (run_status log.status) (close_run R w workspace M trace_id log s).runs)
        same
        (λ named can. rw named (
          finish-RunIs w.finish_env log.run_id (run_status log.status) _ _ _ s.runs
            (run_status_ends log.status) can))

  -- A log that is neither running nor waiting.
  abbrev pub HasResult : LogStatus → Type 0
  HasResult st =
      (st ≡ LogStatus.completed) ⊎ ((st ≡ LogStatus.failed) ⊎ (st ≡ LogStatus.rolled_back))

  pub completed_log-HasResult :
      (log : SkillRunLog) → IsOver log.status → HasResult (completed_log log).status
  completed_log-HasResult log (inl h) = rw h (inl refl)
  completed_log-HasResult log (inr (inl h)) = rw h (inr (inl refl))
  completed_log-HasResult log (inr (inr h)) = rw h (inr (inr refl))

  pub completed_log_run :
      (log : SkillRunLog) → IsOver log.status → (completed_log log).run_id ≡ log.run_id
  completed_log_run log (inl h) = rw h refl
  completed_log_run log (inr (inl h)) = rw h refl
  completed_log_run log (inr (inr h)) = rw h refl

  -- The run against what `run` returns or raises.
  abbrev pub RunSettled : String → SkillState F × Attempted SkillRunLog → Type 0
  RunSettled k (s, raised x) = RunIs k RunStatus.failed s.runs
  RunSettled k (s, done log) =
      ((log.status ≡ LogStatus.pending_approval) × RunIs k RunStatus.waiting_approval s.runs)
      ⊎ (HasResult log.status × RunIs k (run_status log.status) s.runs)

  after_loop-RunSettled :
      (w : SkillWorld) (M : SkillManifest F) (c : SkillCall) (k : String) (p : Progress F)
      (s : SkillState F) (e : LoopEnd F)
      → p.log.run_id ≡ k
      → (k =s "") ≡ false
      → EndFits true e p.log.status
      → RunIs k RunStatus.running s.runs
      → RunSettled k (after_loop R w M c p s e)
  unfolding after_loop persist_run_log pause_for_approval
  after_loop-RunSettled w M c k p s over same named fits is =
      let log = completed_log p.log in
      inr (
        completed_log-HasResult p.log fits,
        close_run-RunIs w c.workspace_id M w.trace_id log k s (completed_log_run p.log fits ∙ same)
            named (running-CanFinish k s.runs is),
      )
  after_loop-RunSettled w M c k p s (Loop.paused id step steps) same named fits is = inl (
    fits.1,
    subst (λ i. RunIs k RunStatus.waiting_approval (pause_for_approval w.pause_env i id s.runs).0)
        (sym same) (pause-RunIs w.pause_env k id s.runs is),
  )

  claimed_stage-RunSettled :
      (w : SkillWorld) (M : SkillManifest F) (c : SkillCall) (k : String) (s : SkillState F)
      → (k =s "") ≡ false
      → RunIs k RunStatus.running s.runs
      → RunSettled k (claimed_stage R w M c k s)
  unfolding claimed_stage
  claimed_stage-RunSettled w M c k s named is =
      let s1 = trace (trace_created w.trace_id) s in
      let s2 = record s1 { runs = set_trace_id k w.trace_id s1.runs } in
      let log = new_log R w M k in
      let run = set_trace_id-RunIs k w.trace_id RunStatus.running s.runs is in
      let x = step_loop R true w M (place_of c) M.steps (first_progress R log) s2 in
      let (runs, run_id, fits) =
        step_loop-Fits R true w M (place_of c) M.steps (first_progress R log) s2 refl in
      option_rule (RunSettled k) (preflight_error R M) _ _
        (after_loop-RunSettled w M c k x.1 x.0 x.2 run_id named fits
          (subst (λ db. RunIs k RunStatus.running db) (sym runs) run))
        (λ e.
          close_run-RunIs w c.workspace_id M w.trace_id _ k s2 refl named
            (running-CanFinish k s2.runs run))

-- Where the durable run can be claimed, it does not stay running: whatever the steps do, it waits for
-- an approval as its log does, or it has the final status that fits its log, which is completed,
-- failed or rolled back; and it failed where the preflight raises.
pub run_settles :
    {F : Type 0} (R : SkillRunner F) (w : SkillWorld) (M : SkillManifest F) (c : SkillCall)
    (k : String) (s : SkillState F)
    → IsKeyed s.runs
    → (k =s "") ≡ false
    → (claim w.claim_env k R.worker_id 300 s.runs).1 ≡ true
    → RunSettled R k (run R w M c (some k) s)
unfolding run claim_stage
run_settles R w M c k s key named won = rw won (
    claimed_stage-RunSettled R w M c k
      (record (rebound R s) { runs = (claim w.claim_env k R.worker_id 300 s.runs).0 }) named
      (claim-RunIs w.claim_env k R.worker_id s.runs key won))
