-- ===== src/Skill/Attempts.antt =====
-- skill/runner.py: the number of executions of a step.
use cogito_agent.Prelude.{ℕ, zero, suc, ◌+◌, ◌≤◌, ◌≡◌, refl, ◌=s◌, arith, if-cases}
use cogito_agent.Skill.{
  StepKind, SkillStep, Attempted, StepOutput, SkillState, SkillRunner, SkillWorld,
}
use cogito_agent.Skill.Step.{
  StepPlace, execute_step, execute_approval_step, attempt, controlled, execute_step_with_controls,
  slept,
}
use cogito_agent.Skill.Settled.{attempted_rule}

module _ {F : Type 0} (R : SkillRunner F) (w : SkillWorld) (step : SkillStep F)
    (at : StepPlace) where
  -- The executions and the pauses so far.
  abbrev Counts : SkillState F → SkillState F → Type 0
  Counts s t = (t.executions ≡ s.executions) × (t.pauses ≡ s.pauses)

  execute_step-Counts : (s : SkillState F) → Counts s (execute_step R w step at s).0
  unfolding execute_step execute_approval_step
  execute_step-Counts s = go step.kind refl
    where
      go : (k : StepKind) → step.kind ≡ k → Counts s (execute_step R w step at s).0
      go StepKind.capability h = rw h (
          if-cases (λ (x : SkillState F × Attempted StepOutput). Counts s x.0)
            (step.uses_capability =s "") _ _ (λ e. (refl, refl)) (λ e. (refl, refl)))
      go StepKind.llm h = rw h (refl, refl)
      go StepKind.transform h = rw h (refl, refl)
      go StepKind.condition h = rw h (refl, refl)
      go StepKind.approval h = rw h (refl, refl)

  -- Each execution but the first follows a pause.
  abbrev pub Bounded : ℕ → SkillState F → SkillState F → Type 0
  Bounded left s t =
      (t.executions + s.pauses ≡ s.executions + 1 + t.pauses) × (t.pauses ≤ s.pauses + left)

  controlled-Bounded :
      (left : ℕ) (s : SkillState F) → Bounded left s (controlled R w step at left s).0
  unfolding controlled attempt
  controlled-Bounded zero s =
      let (executions, pauses) = execute_step-Counts s in
      attempted_rule (λ (x : SkillState F × Attempted StepOutput). Bounded 0 s x.0)
        (attempt R w step at s).1 _ _
        (λ v. (omega (arith, executions, pauses), omega (arith, pauses)))
        (λ e. (omega (arith, executions, pauses), omega (arith, pauses)))
  controlled-Bounded (suc left) s =
      let (executions, pauses) = execute_step-Counts s in
      let t = slept R (attempt R w step at s).0 in
      attempted_rule (λ (x : SkillState F × Attempted StepOutput). Bounded (suc left) s x.0)
        (attempt R w step at s).1 _ _
        (λ v. (omega (arith, executions, pauses), omega (arith, pauses)))
        (λ e.
          let (count, most) = controlled-Bounded left t in
          (omega (arith, executions, pauses, count), omega (arith, pauses, most)))

-- A step is executed once more than it pauses, and pauses at most as often as it has retries.
pub step_attempts :
    {F : Type 0} (R : SkillRunner F) (w : SkillWorld) (step : SkillStep F) (at : StepPlace)
    (s : SkillState F)
    → Bounded R w step at step.retry_count s (execute_step_with_controls R w step at s).0
unfolding execute_step_with_controls
step_attempts R w step at s = controlled-Bounded R w step at step.retry_count s
