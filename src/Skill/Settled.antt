-- ===== src/Skill/Settled.antt =====
-- skill/runner.py: what the loop does to the run and to the status of its log.
use mathlib.Core.Path.{subst}
use cogito_agent.Prelude.{
  ℕ, zero, suc, ◌≡◌, ◌∙◌, ◌⊎◌, inl, inr, refl, String, Bool, true, false, List, [], ◌∷◌, ◌=s◌,
  if-cases,
}
use cogito_agent.Skill.{
  StepKind, OnError, SkillStep, SkillManifest, StepOutput, nothing, text, mapped, tool, verdict,
  pending_approval, Attempted, done, raised, LogStatus, SkillState, SkillRunner, SkillWorld,
}
use cogito_agent.Skill.Step.{
  StepPlace, execute_step, execute_approval_step, attempt, controlled, execute_step_with_controls,
  slept,
}
use cogito_agent.Skill.Loop.{
  Progress, StepNext, go_on, leave, pause_at, LoopEnd, over, paused, rollback_call, begun,
  execute_rollback, open_span, close_span, after_output, after_error, step_once, step_loop,
  is_exhausted, is_success,
}

-- The status of a log after a step, and after the loop; only the loop of `run` pauses.
abbrev pub NextFits : Bool → StepNext → LogStatus → Type 0
NextFits pauses go_on st = st ≡ LogStatus.running
NextFits pauses leave st = (st ≡ LogStatus.failed) ⊎ (st ≡ LogStatus.rolled_back)
NextFits pauses (pause_at id) st = (pauses ≡ true) × (st ≡ LogStatus.pending_approval)

abbrev pub IsOver : LogStatus → Type 0
IsOver st = (st ≡ LogStatus.running) ⊎ ((st ≡ LogStatus.failed) ⊎ (st ≡ LogStatus.rolled_back))

abbrev pub EndFits : {F : Type 0} → Bool → LoopEnd F → LogStatus → Type 0
EndFits pauses over st = IsOver st
EndFits pauses (paused id step steps) st = (pauses ≡ true) × (st ≡ LogStatus.pending_approval)

-- What holds in both cases of an attempt, and after each way to handle an error.
pub attempted_rule :
    {A B : Type 0} (P : B → Type 0) (a : Attempted A) (f : A → B) (g : String → B)
    → ((v : A) → P (f v))
    → ((x : String) → P (g x))
    → P (elim a [ done v ↦ f v | raised x ↦ g x ])
attempted_rule P (done v) f g h k = h v
attempted_rule P (raised x) f g h k = k x

pub on_error_rule :
    {B : Type 0} (P : B → Type 0) (o : OnError) (x y z : B)
    → P x
    → P y
    → P z
    → P (elim o [ OnError.stop ↦ x | OnError.skip ↦ y | OnError.rollback ↦ z ])
on_error_rule P OnError.stop x y z f g h = f
on_error_rule P OnError.skip x y z f g h = g
on_error_rule P OnError.rollback x y z f g h = h

pub next_rule :
    {B : Type 0} (P : B → Type 0) (n : StepNext) (x y : B) (z : String → B)
    → (n ≡ go_on → P x)
    → (n ≡ leave → P y)
    → ((id : String) → n ≡ pause_at id → P (z id))
    → P (elim n [ go_on ↦ x | leave ↦ y | pause_at id ↦ z id ])
next_rule P go_on x y z f g h = f refl
next_rule P leave x y z f g h = g refl
next_rule P (pause_at id) x y z f g h = h id refl

module _ {F : Type 0} (R : SkillRunner F) where
  runs-execute_step :
      (w : SkillWorld) (step : SkillStep F) (at : StepPlace) (s : SkillState F)
      → (execute_step R w step at s).0.runs ≡ s.runs
  unfolding execute_step execute_approval_step
  runs-execute_step w step at s = go step.kind refl
    where
      go : (k : StepKind) → step.kind ≡ k → (execute_step R w step at s).0.runs ≡ s.runs
      go StepKind.capability h = rw h (
          if-cases (λ (x : SkillState F × Attempted StepOutput). x.0.runs ≡ s.runs)
            (step.uses_capability =s "") _ _ (λ e. refl) (λ e. refl))
      go StepKind.llm h = rw h refl
      go StepKind.transform h = rw h refl
      go StepKind.condition h = rw h refl
      go StepKind.approval h = rw h refl

  runs-attempt :
      (w : SkillWorld) (step : SkillStep F) (at : StepPlace) (s : SkillState F)
      → (attempt R w step at s).0.runs ≡ s.runs
  unfolding attempt
  runs-attempt w step at s = runs-execute_step w step at s

  runs-controlled :
      (w : SkillWorld) (step : SkillStep F) (at : StepPlace) (left : ℕ) (s : SkillState F)
      → (controlled R w step at left s).0.runs ≡ s.runs
  unfolding controlled
  runs-controlled w step at zero s =
      attempted_rule (λ (x : SkillState F × Attempted StepOutput). x.0.runs ≡ s.runs)
        (attempt R w step at s).1 _ _ (λ v. runs-attempt w step at s)
        (λ x. runs-attempt w step at s)
  runs-controlled w step at (suc left) s =
      attempted_rule (λ (x : SkillState F × Attempted StepOutput). x.0.runs ≡ s.runs)
        (attempt R w step at s).1 _ _ (λ v. runs-attempt w step at s)
        (λ x.
          runs-controlled w step at left (slept R (attempt R w step at s).0)
          ∙ runs-attempt w step at s)

  runs-execute_rollback :
      (workspace : String) (cs : List String) (s : SkillState F)
      → (execute_rollback R workspace cs s).runs ≡ s.runs
  unfolding execute_rollback
  runs-execute_rollback workspace [] s = refl
  runs-execute_rollback workspace (c ∷ cs) s =
      let t = execute_rollback R workspace cs s in
      let kept = runs-execute_rollback workspace cs s in
      if-cases (λ (x : SkillState F). x.runs ≡ s.runs) (c =s "") _ _ (λ h. kept)
        (λ h.
          if-cases (λ (x : SkillState F). x.runs ≡ s.runs)
            (is_success (rollback_call R workspace c t).1) _ _ (λ h. kept) (λ h. kept))

  pub runs-close_span :
      (step : SkillStep F) (s : SkillState F) → (close_span R step s).runs ≡ s.runs
  runs-close_span step s =
      if-cases (λ (x : SkillState F). x.runs ≡ s.runs) step.trace_required _ _ (λ h. refl)
        (λ h. refl)

  pub runs-open_span : (step : SkillStep F) (s : SkillState F) → (open_span R step s).runs ≡ s.runs
  runs-open_span step s =
      if-cases (λ (x : SkillState F). x.runs ≡ s.runs) step.trace_required _ _ (λ h. refl)
        (λ h. refl)

  -- A step leaves the runs and the log's run as they are, and a status that fits what follows.
  abbrev StepFits : Bool → SkillState F → Progress F → SkillState F × Progress F × StepNext → Type 0
  StepFits pauses s p x =
      (x.0.runs ≡ s.runs) × (x.1.log.run_id ≡ p.log.run_id) × NextFits pauses x.2 x.1.log.status

  after_output-StepFits :
      (pauses : Bool) (step : SkillStep F) (v : StepOutput) (p : Progress F) (s : SkillState F)
      → p.log.status ≡ LogStatus.running
      → StepFits pauses s p (after_output R pauses step v p s)
  unfolding after_output
  after_output-StepFits true step (pending_approval id) p s h =
      (runs-close_span step s, refl, (refl, refl))
  after_output-StepFits false step (pending_approval id) p s h = (runs-close_span step s, refl, h)
  after_output-StepFits pauses step nothing p s h = (runs-close_span step s, refl, h)
  after_output-StepFits pauses step (text t) p s h = (runs-close_span step s, refl, h)
  after_output-StepFits pauses step (mapped m) p s h = (runs-close_span step s, refl, h)
  after_output-StepFits pauses step (tool t) p s h = (runs-close_span step s, refl, h)
  after_output-StepFits pauses step (verdict b) p s h = (runs-close_span step s, refl, h)

  after_error-StepFits :
      (pauses : Bool) (M : SkillManifest F) (workspace : String) (step : SkillStep F) (e : String)
      (p : Progress F) (s : SkillState F)
      → p.log.status ≡ LogStatus.running
      → StepFits pauses s p (after_error R M workspace step e p s)
  unfolding after_error
  after_error-StepFits pauses M workspace step e p s h =
      on_error_rule (StepFits pauses s p) step.on_error _ _ _
        (runs-close_span step s, refl, inl refl) (runs-close_span step s, refl, h)
        (
          runs-close_span step (execute_rollback R workspace M.rollback s)
              ∙ runs-execute_rollback workspace M.rollback s,
          refl,
          inr refl,
        )

  module _ (pauses : Bool) (w : SkillWorld) (M : SkillManifest F) (at : StepPlace) where
    step_once-StepFits :
        (step : SkillStep F) (p : Progress F) (s : SkillState F)
        → p.log.status ≡ LogStatus.running
        → StepFits pauses s p (step_once R pauses w M at step p s)
    unfolding step_once execute_step_with_controls
    step_once-StepFits step p s h =
        if-cases (StepFits pauses s p) (is_exhausted R step p) _ _
          (λ e. (runs-open_span step s, refl, inl refl))
          (λ e.
            let s2 = begun R step s in
            let x = execute_step_with_controls R w step (record at { context = p.context }) s2 in
            let same =
              runs-controlled w step (record at { context = p.context }) step.retry_count s2
              ∙ runs-open_span step s in
            attempted_rule (StepFits pauses s p) x.1 _ _
              (λ v.
                let (runs, run_id, fits) = after_output-StepFits pauses step v p x.0 h in
                (runs ∙ same, run_id, fits))
              (λ e.
                let (runs, run_id, fits) =
                  after_error-StepFits pauses M at.workspace_id step e p x.0 h in
                (runs ∙ same, run_id, fits)))

    abbrev pub LoopFits : Progress F → SkillState F → SkillState F × Progress F × LoopEnd F → Type 0
    LoopFits p s x =
        (x.0.runs ≡ s.runs) × (x.1.log.run_id ≡ p.log.run_id) × EndFits pauses x.2 x.1.log.status

    pub step_loop-Fits :
        (steps : List (SkillStep F)) (p : Progress F) (s : SkillState F)
        → p.log.status ≡ LogStatus.running
        → LoopFits p s (step_loop R pauses w M at steps p s)
    unfolding step_loop
    step_loop-Fits [] p s h = (refl, refl, inl h)
    step_loop-Fits (step ∷ steps) p s h =
        let x = step_once R pauses w M at step p s in
        let (runs, run_id, fits) = step_once-StepFits step p s h in
        next_rule (LoopFits p s) x.2 _ _ _
          (λ e.
            let st = subst (λ n. NextFits pauses n x.1.log.status) e fits in
            let (runs', run_id', fits') = step_loop-Fits steps x.1 x.0 st in
            (runs' ∙ runs, run_id' ∙ run_id, fits'))
          (λ e. (runs, run_id, inr (subst (λ n. NextFits pauses n x.1.log.status) e fits)))
          (λ id e. (runs, run_id, subst (λ n. NextFits pauses n x.1.log.status) e fits))
