-- ===== src/Skill/Stops.antt =====
-- skill/runner.py: the loop of `run` at an approval step.

use cogito_agent.Prelude.{
  Option, none, ℕ, zero, suc, ◌≡◌, refl, String, true, some, List, [], ◌∷◌, ◌++◌, if-cases,
}
use cogito_agent.Skill.{
  StepKind, SkillStep, SkillManifest, StepOutput, pending_approval, done, SkillState, SkillRunner,
  SkillWorld,
}
use cogito_agent.Skill.Step.{
  StepPlace, execute_step, execute_approval_step, attempt, controlled, execute_step_with_controls,
}
use cogito_agent.Skill.Loop.{
  Progress, StepNext, go_on, leave, pause_at, LoopEnd, over, paused, after_error, after_output,
  begun, step_once, step_loop, is_exhausted,
}

-- An approval step without a timeout and without a schema for its output.
abbrev pub IsPlainApproval : {F : Type 0} → SkillStep F → Type 0
IsPlainApproval a = (a.kind ≡ StepKind.approval) × (a.timeout ≡ 0) × (a.output_schema ≡ "")

-- Two ways to go on make no difference where the loop does not go on.
same_end :
    {A : Type 0} (P : A → A → Type 0) (n : StepNext) (x x' y y' : A) (z z' : String → A)
    → (n ≡ go_on → P x x')
    → P y y'
    → ((id : String) → P (z id) (z' id))
    → P
        (elim n [ go_on ↦ x | leave ↦ y | pause_at id ↦ z id ])
        (elim n [ go_on ↦ x' | leave ↦ y' | pause_at id ↦ z' id ])
same_end P go_on x x' y y' z z' f g h = f refl
same_end P leave x x' y y' z z' f g h = g
same_end P (pause_at id) x x' y y' z z' f g h = h id

module _ {F : Type 0} (R : SkillRunner F) (w : SkillWorld) where
  attempt_asks :
      (a : SkillStep F) (at : StepPlace) (s : SkillState F)
      → IsPlainApproval a
      → (attempt R w a at s).1 ≡ done (pending_approval (w.approval_id s.executions))
  unfolding attempt execute_step execute_approval_step
  attempt_asks a at s (kind, time, schema) =
      rw (attempt, execute_step, kind) (rw time (rw schema refl))

  controlled_once :
      (step : SkillStep F) (at : StepPlace) (left : ℕ) (s : SkillState F) (v : StepOutput)
      → (attempt R w step at s).1 ≡ done v
      → controlled R w step at left s ≡ ((attempt R w step at s).0, done v)
  unfolding controlled
  controlled_once step at zero s v h = rw (controlled, h) refl
  controlled_once step at (suc left) s v h = rw (controlled, h) refl

  -- The loop of `run` does not go on after an approval step.
  step_once_stops :
      (M : SkillManifest F) (at : StepPlace) (a : SkillStep F) (p : Progress F) (s : SkillState F)
      → IsPlainApproval a
      → (step_once R true w M at a p s).2 ≡ go_on
      → ⊥
  unfolding step_once execute_step_with_controls after_output
  step_once_stops M at a p s plain =
      let s2 = begun R a s in
      let here = record at { context = p.context } in
      let asks = attempt_asks a here s2 plain in
      let once = controlled_once a here a.retry_count s2 _ asks in
      if-cases (λ (x : SkillState F × Progress F × StepNext). x.2 ≡ go_on → ⊥) (is_exhausted R a p)
        _ _ (λ e h. cc) (λ e. rw once (λ h. cc))

  -- Where a loop pauses, whatever steps remain.
  abbrev pub pause_of : LoopEnd F → Option (String × SkillStep F)
  pause_of over = none
  pause_of (paused id step steps) = some (id, step)

  -- The same state, the same progress, and the same pause or none.
  abbrev pub SameEnd :
      SkillState F × Progress F × LoopEnd F → SkillState F × Progress F × LoopEnd F → Type 0
  SameEnd x y = (x.0 ≡ y.0) × (x.1 ≡ y.1) × (pause_of x.2 ≡ pause_of y.2)

  loops_alike :
      (M : SkillManifest F) (at : StepPlace) (a : SkillStep F) (rest rest' : List (SkillStep F))
      (p : Progress F) (s : SkillState F)
      → ((step_once R true w M at a p s).2 ≡ go_on
          → SameEnd
              (step_loop R true w M at rest
                (step_once R true w M at a p s).1
                (step_once R true w M at a p s).0)
              (step_loop R true w M at rest'
                (step_once R true w M at a p s).1
                (step_once R true w M at a p s).0))
      → SameEnd (step_loop R true w M at (a ∷ rest) p s) (step_loop R true w M at (a ∷ rest') p s)
  unfolding step_loop
  loops_alike M at a rest rest' p s h =
      let x = step_once R true w M at a p s in
      same_end SameEnd x.2 _ _ _ _ (λ id. (x.0, x.1, paused id a rest))
        (λ id. (x.0, x.1, paused id a rest')) h (refl, refl, refl) (λ id. (refl, refl, refl))

  -- The loop of `run` ends alike whatever comes behind an approval step.
  pub loop_stops :
      (M : SkillManifest F) (at : StepPlace) (before : List (SkillStep F)) (a : SkillStep F)
      (rest rest' : List (SkillStep F)) (p : Progress F) (s : SkillState F)
      → IsPlainApproval a
      → SameEnd
          (step_loop R true w M at (before ++ a ∷ rest) p s)
          (step_loop R true w M at (before ++ a ∷ rest') p s)
  loop_stops M at [] a rest rest' p s plain =
      loops_alike M at a rest rest' p s (λ h. absurd (step_once_stops M at a p s plain h))
  loop_stops M at (b ∷ before) a rest rest' p s plain =
      loops_alike M at b (before ++ a ∷ rest) (before ++ a ∷ rest') p s (λ h.
        loop_stops M at before a rest rest' (step_once R true w M at b p s).1
          (step_once R true w M at b p s).0 plain)

  -- The loop reads no steps of the manifest.
  pub loop_alone :
      (M : SkillManifest F) (l : List (SkillStep F)) (at : StepPlace) (steps : List (SkillStep F))
      (p : Progress F) (s : SkillState F)
      → step_loop R true w M at steps p s ≡ step_loop R true w (record M { steps = l }) at steps p s
  unfolding step_loop step_once after_error
  loop_alone M l at [] p s = refl
  loop_alone M l at (step ∷ steps) p s =
      let x = step_once R true w M at step p s in
      same_end (λ (u v : SkillState F × Progress F × LoopEnd F). u ≡ v) x.2 _ _ _ _
        (λ id. (x.0, x.1, paused id step steps)) (λ id. (x.0, x.1, paused id step steps))
        (λ h. loop_alone M l at steps x.1 x.0) refl (λ id. refl)
