-- ===== src/Skill/Loop.antt =====
-- skill/runner.py: the loop over the steps, which `run` and `resume` each have a copy of.
use Prim.Native.String.{◌++◌ as append}
use cogito_agent.Prelude.{
  String, Bool, true, false, none, some, List, [], ◌∷◌, ◌++◌, Dict, dict_set, ◌=s◌, if◌then◌else◌,
}
use cogito_agent.Executor.{ExecutorState, ExecutionResult, ResultStatus}
use cogito_agent.Executor.Steps.{execute}
use cogito_agent.Skill.{
  StepKind, OnError, SkillStep, SkillManifest, StepOutput, nothing, text, pending_approval, done,
  raised, LogStatus, StepLog, logged, errored, SkillRunLog, StepContext, span_created, span_ended,
  SkillState, SkillRunner, SkillWorld, trace, audit,
}
use cogito_agent.Skill.Step.{StepPlace, skill_request, execute_step_with_controls}

pub record Progress (F : Type 0) : Type 0 where
  pub total_cost : F
  pub executed : List (SkillStep F)
  pub context : StepContext
  pub log : SkillRunLog

-- What follows a step: the next one, the end of the loop, or a wait for an approval.
pub data StepNext : Type 0 where
  go_on leave : StepNext
  pause_at : String → StepNext

-- How the loop ends; a pause gives its approval, its step and those that remain.
pub data LoopEnd (F : Type 0) : Type 0 where
  over : LoopEnd F
  paused : String → SkillStep F → List (SkillStep F) → LoopEnd F

abbrev pub is_success : ExecutionResult → Bool
is_success x = elim x.status [
  | ResultStatus.ok ↦ (elim x.tool_result [ none ↦ false | some t ↦ true ])
  | _ ↦ false
]

abbrev pub set_status : {F : Type 0} → LogStatus → Progress F → Progress F
set_status st p = record p { log = record p.log { status = st } }

abbrev pub add_entry : {F : Type 0} → StepLog → Progress F → Progress F
add_entry e p = record p { log = record p.log { step_logs = p.log.step_logs ++ e ∷ [] } }

abbrev pub with_outputs : Dict String → Dict String → Dict String
with_outputs [] d = d
with_outputs ((k, v) ∷ m) d = with_outputs m (dict_set k v d)

module _ {F : Type 0} (R : SkillRunner F) where
  -- `_normalize_output`
  unfoldable pub normalize_output : StepOutput → String
  normalize_output nothing = ""
  normalize_output (text t) = t
  normalize_output v = R.clip 500 (R.shown v)

  abbrev pub cost_of : SkillStep F → F
  cost_of step = elim step.kind [
    | StepKind.llm ↦ R.llm_cost
    | StepKind.capability ↦ R.capability_cost
    | _ ↦ R.zero_cost
  ]

  abbrev pub rollback_call : String → String → SkillState F → ExecutorState × ExecutionResult
  rollback_call workspace name s =
      execute R.executor
        (skill_request name (R.dumps (("workspace_id", workspace) ∷ [])) workspace "") s.executor

  -- One entry of `_execute_rollback`.
  abbrev pub rollback_one : String → String → SkillState F → SkillState F
  rollback_one workspace name s =
      let x = rollback_call workspace name s in
      let s1 = record s { executor = x.0 } in
      if name =s ""
      then s
      else if is_success x.1
      then s1
      else audit "skill.rollback.failed" (append "capability:" name) s1

  -- `_execute_rollback`: the entries from the last to the first, whatever was executed.
  unfoldable pub execute_rollback : String → List String → SkillState F → SkillState F
  unfolding execute
  execute_rollback workspace [] s = s
  execute_rollback workspace (c ∷ cs) s = rollback_one workspace c (execute_rollback workspace cs s)

  abbrev pub open_span : SkillStep F → SkillState F → SkillState F
  open_span step s = if step.trace_required then trace (span_created step.id) s else s

  abbrev pub close_span : SkillStep F → SkillState F → SkillState F
  close_span step s = if step.trace_required then trace (span_ended step.id) s else s

  abbrev pub is_exhausted : SkillStep F → Progress F → Bool
  is_exhausted step p = elim step.max_budget_cost [
    | none ↦ false
    | some most ↦ R.reaches p.total_cost most
  ]

  abbrev pub recorded : SkillStep F → StepOutput → Progress F → Progress F
  recorded step v p = record p {
    total_cost = R.add p.total_cost (cost_of step);
    executed = p.executed ++ step ∷ [];
    context =
        dict_set step.id (with_outputs step.output_mapping (("_output", normalize_output v) ∷ []))
          p.context;
  }

  -- What a step gave back; an approval that is pending ends the loop of `run`, and is one more entry
  -- in that of `resume`.
  unfoldable pub after_output :
      Bool
      → SkillStep F
      → StepOutput
      → Progress F
      → SkillState F
      → SkillState F × Progress F × StepNext
  unfolding dict_set normalize_output
  after_output pauses step (pending_approval id) p s =
      let q = recorded step (pending_approval id) p in
      let entry = add_entry (logged step.id "pending_approval" id) q in
      if pauses
      then (close_span step s, set_status LogStatus.pending_approval entry, pause_at id)
      else (close_span step s, entry, go_on)
  after_output pauses step v p s = (
    close_span step s,
    add_entry (logged step.id "ok" (R.clip 500 (normalize_output v))) (recorded step v p),
    go_on,
  )

  -- A step that raised.
  unfoldable pub after_error :
      SkillManifest F
      → String
      → SkillStep F
      → String
      → Progress F
      → SkillState F
      → SkillState F × Progress F × StepNext
  unfolding execute_rollback
  after_error M workspace step x p s =
      let q = add_entry (errored step.id x) p in
      elim step.on_error [
        | OnError.stop ↦ (close_span step s, set_status LogStatus.failed q, leave)
        | OnError.skip ↦ (close_span step s, q, go_on)
        | OnError.rollback ↦ (
          close_span step (execute_rollback workspace M.rollback s),
          set_status LogStatus.rolled_back q,
          leave,
        )
      ]

  -- The state in which a step is executed.
  abbrev pub begun : SkillStep F → SkillState F → SkillState F
  begun step s =
      audit (append "skill.step." (R.kind_name step.kind)) (append "step:" step.id)
        (open_span step s)

  -- The body of the loop.
  unfoldable pub step_once :
      Bool
      → SkillWorld
      → SkillManifest F
      → StepPlace
      → SkillStep F
      → Progress F
      → SkillState F
      → SkillState F × Progress F × StepNext
  unfolding after_output after_error execute_step_with_controls
  step_once pauses w M at step p s =
      let s2 = begun step s in
      let x = execute_step_with_controls R w step (record at { context = p.context }) s2 in
      if is_exhausted step p
      then (
        open_span step s,
        set_status LogStatus.failed (add_entry (errored step.id "Budget exhausted") p),
        leave,
      )
      else elim x.1 [
        | done v ↦ after_output pauses step v p x.0
        | raised e ↦ after_error M at.workspace_id step e p x.0
      ]

  unfoldable pub step_loop :
      Bool
      → SkillWorld
      → SkillManifest F
      → StepPlace
      → List (SkillStep F)
      → Progress F
      → SkillState F
      → SkillState F × Progress F × LoopEnd F
  unfolding step_once
  step_loop pauses w M at [] p s = (s, p, over)
  step_loop pauses w M at (step ∷ steps) p s =
      let x = step_once pauses w M at step p s in
      elim x.2 [
        | go_on ↦ step_loop pauses w M at steps x.1 x.0
        | leave ↦ (x.0, x.1, over)
        | pause_at id ↦ (x.0, x.1, paused id step steps)
      ]
