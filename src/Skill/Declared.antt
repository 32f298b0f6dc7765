-- ===== src/Skill/Declared.antt =====
-- skill/runner.py: the capabilities that a skill calls.
use cogito_agent.Prelude.{
  ℕ, zero, suc, ◌≡◌, ◌⊎◌, refl, String, Bool, true, false, ◌||◌, Option, none, some, List, [], ◌∷◌,
  ◌=s◌, arith, eq_iff, if-cases,
}
use cogito_agent.Executor.{ExecutorState}
use cogito_agent.Executor.Steps.{execute}
use cogito_agent.Executor.Governed.{IsPermitted, execute-IsPermitted}
use cogito_agent.Runs.Lifecycle.{claim, set_trace_id}
use cogito_agent.Runs.Create.{create}
use cogito_agent.Kernel.Rules.{option_rule}
use cogito_agent.Skill.{
  StepKind, SkillStep, SkillManifest, StepOutput, nothing, text, mapped, tool, verdict,
  pending_approval, Attempted, SkillRunLog, SkillState, SkillRunner, SkillWorld, trace,
  trace_created,
}
use cogito_agent.Skill.Step.{
  StepPlace, skill_request, execute_step, execute_approval_step, attempt, controlled,
  execute_step_with_controls, slept,
}
use cogito_agent.Skill.Loop.{
  Progress, StepNext, LoopEnd, over, paused, rollback_call, begun, execute_rollback, open_span,
  close_span, after_output, after_error, step_once, step_loop, is_exhausted, is_success,
}
use cogito_agent.Skill.Preflight.{preflight_error}
use cogito_agent.Skill.Run.{
  SkillCall, place_of, completed_log, finish_durable_run, persist_run_log, close_run, after_loop,
  new_log, first_progress, claimed_stage, claim_stage, skill_run, rebound, run,
}
use cogito_agent.Skill.Settled.{attempted_rule, on_error_rule, next_rule}

abbrev pub uses : {F : Type 0} → String → List (SkillStep F) → Bool
uses name [] = false
uses name (step ∷ steps) = (step.uses_capability =s name) || uses name steps

abbrev pub listed : String → List String → Bool
listed name [] = false
listed name (c ∷ cs) = (c =s name) || listed name cs

-- The manifest names the capability in a step or for its rollback.
abbrev pub declares : {F : Type 0} → SkillManifest F → String → Bool
declares M name = uses name M.steps || listed name M.rollback

-- The executor's states that calls of declared capabilities lead to, each of which leaves the
-- invocations as they are or is permitted where it is made.
pub data Calls {F : Type 0} (R : SkillRunner F) (M : SkillManifest F) (s : ExecutorState)
    : ExecutorState → Type 0 where
  idle : Calls R M s s
  called :
      (t : ExecutorState) (name arguments workspace session : String)
      → Calls R M s t
      → declares M name ≡ true
      → ((execute R.executor (skill_request name arguments workspace session) t).0.invocations
          ≡ t.invocations)
        ⊎ IsPermitted R.executor (skill_request name arguments workspace session) t
      → Calls R M s (execute R.executor (skill_request name arguments workspace session) t).0

module _ {F : Type 0} (R : SkillRunner F) (w : SkillWorld) (M : SkillManifest F)
    (s0 : ExecutorState) where
  abbrev Reached : SkillState F → Type 0
  Reached s = Calls R M s0 s.executor

  call_more :
      (name arguments workspace session : String) (t : ExecutorState)
      → declares M name ≡ true
      → Calls R M s0 t
      → Calls R M s0 (execute R.executor (skill_request name arguments workspace session) t).0
  call_more name arguments workspace session t d c =
      called t name arguments workspace session c d
        (execute-IsPermitted R.executor (skill_request name arguments workspace session) t)

  execute_step-Reached :
      (step : SkillStep F) (at : StepPlace) (s : SkillState F)
      → declares M step.uses_capability ≡ true
      → Reached s
      → Reached (execute_step R w step at s).0
  unfolding execute_step execute_approval_step
  execute_step-Reached step at s d c = go step.kind refl
    where
      go : (k : StepKind) → step.kind ≡ k → Reached (execute_step R w step at s).0
      go StepKind.capability h = rw h (
          if-cases (λ (x : SkillState F × Attempted StepOutput). Reached x.0)
            (step.uses_capability =s "") _ _ (λ e. c)
            (λ e. call_more step.uses_capability _ at.workspace_id at.session_id s.executor d c))
      go StepKind.llm h = rw h c
      go StepKind.transform h = rw h c
      go StepKind.condition h = rw h c
      go StepKind.approval h = rw h c

  controlled-Reached :
      (step : SkillStep F) (at : StepPlace) (left : ℕ) (s : SkillState F)
      → declares M step.uses_capability ≡ true
      → Reached s
      → Reached (controlled R w step at left s).0
  unfolding controlled attempt
  controlled-Reached step at zero s d c =
      let now = execute_step-Reached step at s d c in
      attempted_rule (λ (x : SkillState F × Attempted StepOutput). Reached x.0)
        (attempt R w step at s).1 _ _ (λ v. now) (λ e. now)
  controlled-Reached step at (suc left) s d c =
      let now = execute_step-Reached step at s d c in
      attempted_rule (λ (x : SkillState F × Attempted StepOutput). Reached x.0)
        (attempt R w step at s).1 _ _ (λ v. now)
        (λ e. controlled-Reached step at left (slept R (attempt R w step at s).0) d now)

  execute_rollback-Reached :
      (workspace : String) (cs : List String) (s : SkillState F)
      → ((name : String) → listed name cs ≡ true → declares M name ≡ true)
      → Reached s
      → Reached (execute_rollback R workspace cs s)
  unfolding execute_rollback
  execute_rollback-Reached workspace [] s d c = c
  execute_rollback-Reached workspace (n ∷ cs) s d c =
      let t = execute_rollback R workspace cs s in
      let before =
        execute_rollback-Reached workspace cs s (λ name h. d name (ground (arith, h))) c in
      let after =
        call_more n (R.dumps (("workspace_id", workspace) ∷ [])) workspace "" t.executor
          (d n (ground (arith, eq_iff n n))) before in
      if-cases Reached (n =s "") _ _ (λ h. before)
        (λ h.
          if-cases Reached (is_success (rollback_call R workspace n t).1) _ _ (λ h. after)
            (λ h. after))

  open_span-Reached :
      (step : SkillStep F) (s : SkillState F) → Reached s → Reached (open_span R step s)
  open_span-Reached step s c = if-cases Reached step.trace_required _ _ (λ h. c) (λ h. c)

  close_span-Reached :
      (step : SkillStep F) (s : SkillState F) → Reached s → Reached (close_span R step s)
  close_span-Reached step s c = if-cases Reached step.trace_required _ _ (λ h. c) (λ h. c)

  after_output-Reached :
      (pauses : Bool) (step : SkillStep F) (v : StepOutput) (p : Progress F) (s : SkillState F)
      → Reached s
      → Reached (after_output R pauses step v p s).0
  unfolding after_output
  after_output-Reached true step (pending_approval id) p s c = close_span-Reached step s c
  after_output-Reached false step (pending_approval id) p s c = close_span-Reached step s c
  after_output-Reached pauses step nothing p s c = close_span-Reached step s c
  after_output-Reached pauses step (text t) p s c = close_span-Reached step s c
  after_output-Reached pauses step (mapped m) p s c = close_span-Reached step s c
  after_output-Reached pauses step (tool t) p s c = close_span-Reached step s c
  after_output-Reached pauses step (verdict b) p s c = close_span-Reached step s c

  step_once-Reached :
      (pauses : Bool) (at : StepPlace) (step : SkillStep F) (p : Progress F) (s : SkillState F)
      → declares M step.uses_capability ≡ true
      → Reached s
      → Reached (step_once R pauses w M at step p s).0
  unfolding step_once execute_step_with_controls after_error
  step_once-Reached pauses at step p s d c =
      let s2 = begun R step s in
      let here = record at { context = p.context } in
      let x = execute_step_with_controls R w step here s2 in
      let now = controlled-Reached step here step.retry_count s2 d (open_span-Reached step s c) in
      if-cases (λ (y : SkillState F × Progress F × StepNext). Reached y.0) (is_exhausted R step p) _
        _ (λ e. open_span-Reached step s c)
        (λ e.
          attempted_rule (λ (y : SkillState F × Progress F × StepNext). Reached y.0) x.1 _ _
            (λ v. after_output-Reached pauses step v p x.0 now)
            (λ e.
              on_error_rule (λ (y : SkillState F × Progress F × StepNext). Reached y.0)
                step.on_error _ _ _ (close_span-Reached step x.0 now)
                (close_span-Reached step x.0 now)
                (close_span-Reached step (execute_rollback R at.workspace_id M.rollback x.0) (
                  execute_rollback-Reached at.workspace_id M.rollback x.0
                    (λ name h. ground (arith, h)) now))))

  step_loop-Reached :
      (pauses : Bool) (at : StepPlace) (steps : List (SkillStep F)) (p : Progress F)
      (s : SkillState F)
      → ((name : String) → uses name steps ≡ true → declares M name ≡ true)
      → Reached s
      → Reached (step_loop R pauses w M at steps p s).0
  unfolding step_loop
  step_loop-Reached pauses at [] p s d c = c
  step_loop-Reached pauses at (step ∷ steps) p s d c =
      let x = step_once R pauses w M at step p s in
      let now =
        step_once-Reached pauses at step p s
          (d step.uses_capability
            (ground (arith, eq_iff step.uses_capability step.uses_capability)))
          c in
      next_rule (λ (y : SkillState F × Progress F × LoopEnd F). Reached y.0) x.2 _ _ _
        (λ e. step_loop-Reached pauses at steps x.1 x.0 (λ name h. d name (ground (arith, h))) now)
        (λ e. now) (λ id e. now)

  close_run-Reached :
      (workspace trace_id : String) (log : SkillRunLog) (s : SkillState F)
      → Reached s
      → Reached (close_run R w workspace M trace_id log s)
  unfolding finish_durable_run persist_run_log
  close_run-Reached workspace trace_id log s c =
      if-cases Reached (log.run_id =s "") _ _ (λ e. c) (λ e. c)

  after_loop-Reached :
      (c : SkillCall) (p : Progress F) (s : SkillState F) (e : LoopEnd F)
      → Reached s
      → Reached (after_loop R w M c p s e).0
  unfolding after_loop persist_run_log
  after_loop-Reached c p s over r =
      close_run-Reached c.workspace_id w.trace_id (completed_log p.log) s r
  after_loop-Reached c p s (paused id step steps) r = r

  claimed_stage-Reached :
      (c : SkillCall) (k : String) (s : SkillState F)
      → Reached s
      → Reached (claimed_stage R w M c k s).0
  unfolding claimed_stage
  claimed_stage-Reached c k s r =
      let s1 = trace (trace_created w.trace_id) s in
      let s2 = record s1 { runs = set_trace_id k w.trace_id s1.runs } in
      let p = first_progress R (new_log R w M k) in
      let x = step_loop R true w M (place_of c) M.steps p s2 in
      option_rule (λ (y : SkillState F × Attempted SkillRunLog). Reached y.0) (preflight_error R M)
        _ _
        (after_loop-Reached c x.1 x.0 x.2
          (step_loop-Reached true (place_of c) M.steps p s2 (λ name h. ground (arith, h)) r))
        (λ e. close_run-Reached c.workspace_id w.trace_id _ s2 r)

  claim_stage-Reached :
      (c : SkillCall) (k : String) (s : SkillState F)
      → Reached s
      → Reached (claim_stage R w M c k s).0
  unfolding claim_stage
  claim_stage-Reached c k s r =
      let x = claim w.claim_env k R.worker_id 300 s.runs in
      if-cases (λ (y : SkillState F × Attempted SkillRunLog). Reached y.0) x.1 _ _
        (λ e. claimed_stage-Reached c k (record s { runs = x.0 }) r) (λ e. r)

-- A run of a skill moves the executor, with its count of repetitions reset, only by calls of capabilities that its manifest names, in a step
-- or for its rollback, in the skill's own name; and each call that invokes one is of a registered
-- capability that no guardian, no repetition, the policy or the manifest of the capability holds back.
pub calls_declared :
    {F : Type 0} (R : SkillRunner F) (w : SkillWorld) (M : SkillManifest F) (c : SkillCall)
    (k : Option String) (s : SkillState F)
    → Calls R M (rebound R s).executor (run R w M c k s).0.executor
unfolding run
calls_declared R w M c (some k) s =
    claim_stage-Reached R w M (rebound R s).executor c k (rebound R s) idle
calls_declared {F = F} R w M c none s =
    let x = create w.create_env (skill_run M c) s.runs in
    option_rule
      (λ (y : SkillState F × Attempted SkillRunLog). Calls R M (rebound R s).executor y.0.executor)
      x.1 _ _ idle
      (λ r.
        claim_stage-Reached R w M (rebound R s).executor c r.id
          (record (rebound R s) { runs = x.0 }) idle)
