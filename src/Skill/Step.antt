-- ===== src/Skill/Step.antt =====
-- skill/runner.py: the execution of one step, with its retries.
use Prim.Native.String.{◌++◌ as append}
use cogito_agent.Prelude.{
  ℕ, zero, suc, ◌+◌, String, Bool, true, false, ◌&&◌, ◌||◌, Option, none, some, List, [], ◌∷◌, ◌++◌,
  Dict, dict_get, ◌=s◌, ltb, if◌then◌else◌,
}
use cogito_agent.Executor.{ExecutionRequest, ExecutionResult, ResultStatus, ToolResult}
use cogito_agent.Executor.Steps.{execute}
use cogito_agent.Skill.{
  StepKind, OnError, MappedValue, literal, reference, SkillStep, StepOutput, nothing, text, mapped,
  tool, verdict, pending_approval, Attempted, done, raised, StepContext, SkillState, SkillRunner,
  SkillWorld, audit,
}

abbrev pub or_blank : Option String → String
or_blank none = ""
or_blank (some t) = t

abbrev pub part_of : Option (Dict String) → String → String
part_of none key = ""
part_of (some d) key = or_blank (dict_get key d)

-- `_resolve_ref`
unfoldable pub resolve_ref : String → List String → Dict String → StepContext → String
unfolding dict_get
resolve_ref ref (p ∷ q ∷ []) inputs context =
    if p =s "input"
    then or_blank (dict_get q inputs)
    else if p =s "step"
    then part_of (dict_get q context) "_output"
    else or_blank (dict_get ref inputs)
resolve_ref ref (p ∷ q ∷ key ∷ more) inputs context =
    if p =s "step" then part_of (dict_get q context) key else or_blank (dict_get ref inputs)
resolve_ref ref _ inputs context = or_blank (dict_get ref inputs)

abbrev pub mapped_value : MappedValue → Dict String → StepContext → String
mapped_value (literal t) inputs context = t
mapped_value (reference ref parts) inputs context = resolve_ref ref parts inputs context

-- `_apply_mapping`
unfoldable pub apply_mapping : Dict MappedValue → Dict String → StepContext → Dict String
unfolding resolve_ref
apply_mapping [] inputs context = []
apply_mapping ((k, v) ∷ m) inputs context =
    (k, mapped_value v inputs context) ∷ apply_mapping m inputs context

-- Where a step runs: the workspace, the session, the inputs and the results so far.
pub record StepPlace : Type 0 where
  pub workspace_id : String
  pub session_id : String
  pub inputs : Dict String
  pub context : StepContext

abbrev pub skill_request : String → String → String → String → ExecutionRequest
skill_request capability arguments workspace session = record {
  capability_name = capability;
  arguments = arguments;
  workspace_id = workspace;
  actor_id = "skill";
  source = "interactive";
  operation = "tool";
  resource = "";
  session_id = session;
  trace_id = "";
  span_id = "";
  tool_call_id = "";
}

abbrev pub or_unregistered : String → Option ToolResult → Attempted StepOutput
or_unregistered name none = raised (append "Capability '" (append name "' not registered"))
or_unregistered name (some t) = done (tool t)

-- What a capability's execution makes of a step.
abbrev pub capability_output : String → ExecutionResult → Attempted StepOutput
capability_output name x = elim x.status [
  | ResultStatus.approval_required ↦ raised (
      append "Capability '"
        (append name (append "' requires approval (" (append x.approval_id ")"))))
  | ResultStatus.denied ↦
      raised (append "Capability '" (append name (append "' denied: " x.reason)))
  | ResultStatus.not_found ↦
      raised (append "Capability '" (append name (append "' denied: " x.reason)))
  | ResultStatus.ok ↦ or_unregistered name x.tool_result
  | ResultStatus.error ↦ or_unregistered name x.tool_result
]

abbrev is_nonempty : Dict String → Bool
is_nonempty [] = false
is_nonempty (_ ∷ _) = true

abbrev as_text : (String → String) → Attempted String → Attempted StepOutput
as_text f (done t) = done (text (f t))
as_text f (raised x) = raised x

module _ {F : Type 0} (R : SkillRunner F) where
  -- `_execute_llm_step`
  unfoldable pub execute_llm_step : SkillStep F → StepPlace → Attempted StepOutput
  unfolding apply_mapping
  execute_llm_step step at = elim R.chat [
    | none ↦
        let m = apply_mapping step.input_mapping at.inputs at.context in
        as_text (λ t. append "[llm stub] " (R.clip 200 t))
          (if is_nonempty m then R.fill step.prompt m else done step.prompt)
    | some chat ↦ as_text (λ t. t) (chat step.prompt)
  ]

  -- `_execute_approval_step`
  unfoldable pub execute_approval_step :
      SkillWorld → SkillStep F → SkillState F → SkillState F × Attempted StepOutput
  execute_approval_step w step s =
      let id = w.approval_id s.executions in
      (
        audit "skill.approval_required" step.id (record s {
          approvals =
              s.approvals
              ++ record { id = id; capability_name = append "skill." step.name; decision = "" }
                ∷ [];
        }),
        done (pending_approval id),
      )

  abbrev pub call_step :
      SkillStep F → StepPlace → SkillState F → SkillState F × Attempted StepOutput
  call_step step at s =
      let arguments = R.dumps (apply_mapping step.input_mapping at.inputs at.context) in
      let x =
        execute R.executor
          (skill_request step.uses_capability arguments at.workspace_id at.session_id) s.executor in
      (record s { executor = x.0 }, capability_output step.uses_capability x.1)

  -- `_execute_step`
  unfoldable pub execute_step :
      SkillWorld → SkillStep F → StepPlace → SkillState F → SkillState F × Attempted StepOutput
  unfolding apply_mapping execute_llm_step execute_approval_step execute
  execute_step w step at s = elim step.kind [
    | StepKind.transform ↦
        (s, done (mapped (apply_mapping step.input_mapping at.inputs at.context)))
    | StepKind.capability ↦
        if step.uses_capability =s "" then (s, done nothing) else call_step step at s
    | StepKind.llm ↦ (s, execute_llm_step step at)
    | StepKind.condition ↦ (
      s,
      done (
          verdict (
            step.condition_expression =s ""
            || R.evaluates step.condition_expression at.inputs at.context)),
    )
    | StepKind.approval ↦ execute_approval_step w step s
  ]

  -- `_validate_output`
  abbrev pub output_error : SkillStep F → StepOutput → Option String
  output_error step v = if step.output_schema =s "" then none else R.validate v step.output_schema

  abbrev pub is_late : ℕ → SkillStep F → Bool
  is_late n step = ltb 0 step.timeout && ltb step.timeout (R.elapsed n)

  -- The checks after an execution; the times in the text of a timeout are left out.
  abbrev pub checked : ℕ → SkillStep F → Attempted StepOutput → Attempted StepOutput
  checked n step (raised x) = raised x
  checked n step (done v) =
      if is_late n step
      then raised (append "Step '" (append step.id "' timed out"))
      else elim (output_error step v) [
        | none ↦ done v
        | some x ↦
            raised (append "Output validation failed for step '" (append step.id (append "': " x)))
      ]

  abbrev is_skip : OnError → Bool
  is_skip e = elim e [ OnError.skip ↦ true | _ ↦ false ]

  abbrev is_rollback : OnError → Bool
  is_rollback e = elim e [ OnError.rollback ↦ true | _ ↦ false ]

  -- The error of the last attempt.
  abbrev pub last_error : SkillStep F → String → Attempted StepOutput
  last_error step x =
      if is_skip step.failure_policy || is_skip step.on_error
      then done nothing
      else if is_rollback step.failure_policy || is_rollback step.on_error
      then raised (append "Step '" (append step.id (append "' failed with rollback: " x)))
      else raised x

  abbrev pub counted : SkillState F → SkillState F
  counted s = record s { executions = s.executions + 1 }

  abbrev pub slept : SkillState F → SkillState F
  slept s = record s { pauses = s.pauses + 1 }

  -- One attempt of `_execute_step_with_controls`.
  unfoldable pub attempt :
      SkillWorld → SkillStep F → StepPlace → SkillState F → SkillState F × Attempted StepOutput
  unfolding execute_step
  attempt w step at s =
      let x = execute_step w step at s in (counted x.0, checked s.executions step x.1)

  -- `_execute_step_with_controls`, with the retries that are left.
  unfoldable pub controlled :
      SkillWorld → SkillStep F → StepPlace → ℕ → SkillState F → SkillState F × Attempted StepOutput
  unfolding attempt
  controlled w step at zero s =
      let x = attempt w step at s in
      elim x.1 [ done v ↦ (x.0, done v) | raised e ↦ (x.0, last_error step e) ]
  controlled w step at (suc left) s =
      let x = attempt w step at s in
      elim x.1 [ done v ↦ (x.0, done v) | raised e ↦ controlled w step at left (slept x.0) ]

  unfoldable pub execute_step_with_controls :
      SkillWorld → SkillStep F → StepPlace → SkillState F → SkillState F × Attempted StepOutput
  unfolding controlled
  execute_step_with_controls w step at s = controlled w step at step.retry_count s
