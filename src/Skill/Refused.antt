-- ===== src/Skill/Refused.antt =====
-- skill/runner.py: a manifest with a step that the policy denies.
use mathlib.Core.Path.{subst}
use cogito_agent.Prelude.{
  false, sym, ◌≡◌, refl, String, true, Option, none, some, List, [], ◌∷◌, ◌++◌, ◌=s◌, if-cases,
}
use cogito_agent.Policy.{PolicyRequest, deny}
use cogito_agent.Executor.{Manifest}
use cogito_agent.Runs.Lifecycle.{claim}
use cogito_agent.Runs.Create.{create}
use cogito_agent.Kernel.Rules.{option_rule}
use cogito_agent.Skill.{
  StepKind, SkillStep, SkillManifest, Attempted, raised, SkillRunLog, SkillState, SkillRunner,
  SkillWorld,
}
use cogito_agent.Skill.Preflight.{is_refused, preflight_all, preflight_error}
use cogito_agent.Skill.Run.{
  SkillCall, persist_run_log, finish_durable_run, close_run, claimed_stage, claim_stage, skill_run,
  rebound, run,
}

-- What holds where an option is there.
some_rule :
    {A B : Type 0} (P : B → Type 0) (o : Option A) (n : B) (g : A → B) (x : A)
    → o ≡ some x
    → P (g x)
    → P (elim o [ none ↦ n | some y ↦ g y ])
some_rule P o n g x h p = subst (λ o. P (elim o [ none ↦ n | some y ↦ g y ])) (sym h) p

module _ {F : Type 0} (R : SkillRunner F) where
  refused_preflight :
      (before : List (SkillStep F)) (step : SkillStep F) (after : List (SkillStep F))
      → is_refused R step ≡ true
      → (x : String) × (preflight_all R (before ++ step ∷ after) ≡ some x)
  unfolding preflight_all
  refused_preflight [] step after h = rw h (_, refl)
  refused_preflight (b ∷ before) step after h =
      if-cases (λ (o : Option String). (x : String) × (o ≡ some x)) (is_refused R b) _ _
        (λ e. (_, refl)) (λ e. refused_preflight before step after h)

  -- Nothing is called, nothing is asked, and the call raises.
  abbrev pub IsStopped : SkillState F → SkillState F × Attempted SkillRunLog → Type 0
  IsStopped s x =
      (x.0.executor ≡ s.executor)
      × (x.0.approvals ≡ s.approvals)
      × (x.0.executions ≡ s.executions)
      × ((e : String) × (x.1 ≡ raised e))

  close_run-IsStopped :
      (w : SkillWorld) (workspace trace_id e : String) (M : SkillManifest F) (log : SkillRunLog)
      (s t : SkillState F)
      → IsStopped s (t, raised e)
      → IsStopped s (close_run R w workspace M trace_id log t, raised e)
  unfolding finish_durable_run persist_run_log
  close_run-IsStopped w workspace trace_id e M log s t (x, a, n, r) =
      if-cases (λ (y : SkillState F). IsStopped s (y, raised e)) (log.run_id =s "") _ _
        (λ h. (x, a, n, r)) (λ h. (x, a, n, r))

  claim_stage-IsStopped :
      (w : SkillWorld) (M : SkillManifest F) (c : SkillCall) (k : String) (s : SkillState F)
      → (x : String) × (preflight_all R M.steps ≡ some x)
      → IsStopped s (claim_stage R w M c k s)
  unfolding claim_stage claimed_stage
  claim_stage-IsStopped w M c k s (x, h) =
      let y = claim w.claim_env k R.worker_id 300 s.runs in
      let fails : preflight_error R M ≡ some x =
        some_rule (λ o. o ≡ some x) (preflight_all R M.steps) _ (λ x. some x) x h refl in
      if-cases (IsStopped s) y.1 _ _
        (λ e.
          some_rule (IsStopped s) (preflight_error R M) _ _ x fails (
            close_run-IsStopped w c.workspace_id w.trace_id x M _ s _
              (refl, refl, refl, (x, refl))))
        (λ e. (refl, refl, refl, (_, refl)))

run-IsStopped :
    {F : Type 0} (R : SkillRunner F) (w : SkillWorld) (M : SkillManifest F) (c : SkillCall)
    (k : Option String) (s : SkillState F) (before : List (SkillStep F)) (step : SkillStep F)
    (after : List (SkillStep F))
    → M.steps ≡ before ++ step ∷ after
    → is_refused R step ≡ true
    → IsStopped R (rebound R s) (run R w M c k s)
unfolding run
run-IsStopped R w M c (some k) s before step after at denied =
    claim_stage-IsStopped R w M c k (rebound R s)
      (rw at (refused_preflight R before step after denied))
run-IsStopped R w M c none s before step after at denied =
    let x = create w.create_env (skill_run M c) s.runs in
    option_rule (IsStopped R (rebound R s)) x.1 _ _ (refl, refl, refl, (_, refl))
      (λ r.
        claim_stage-IsStopped R w M c r.id (record (rebound R s) { runs = x.0 })
          (rw at (refused_preflight R before step after denied)))

-- The request that the preflight makes for any capability, whatever the step does with it.
abbrev pub read_request : String → PolicyRequest
read_request capability = record {
  actor_id = "skill";
  capability_name = capability;
  resource = "workspace_file";
  operation = "read";
  context = "interactive";
}

-- Where a step of the manifest calls a registered capability for which the policy denies the skill an
-- interactive read of a workspace file, `run` raises before it executes any step: also the steps in
-- front of that one call nothing and ask for no approval.
pub refused_run :
    {F : Type 0} (R : SkillRunner F) (w : SkillWorld) (M : SkillManifest F) (c : SkillCall)
    (k : Option String) (s : SkillState F) (before : List (SkillStep F)) (step : SkillStep F)
    (after : List (SkillStep F)) (m : Manifest)
    → M.steps ≡ before ++ step ∷ after
    → step.kind ≡ StepKind.capability
    → (step.uses_capability =s "") ≡ false
    → R.executor.get_manifest step.uses_capability ≡ some m
    → (R.policy (read_request step.uses_capability)).decision ≡ deny
    → IsStopped R (rebound R s) (run R w M c k s)
refused_run R w M c k s before step after m at kind named registered denied =
    run-IsStopped R w M c k s before step after at
      (rw kind (rw named (rw registered (rw denied refl))))
