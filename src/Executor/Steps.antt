-- ===== src/Executor/Steps.antt =====
-- execution/executor.py: `execute`, from its first guard to its last.
use Prim.Native.String.{◌++◌ as append}
use cogito_agent.Prelude.{
  String, Bool, true, false, ◌||◌, Option, none, some, List, [], ◌∷◌, leb, or_else, one_of,
  if◌then◌else◌,
}
use cogito_agent.Policy.{PolicyDecision, DecisionType}
use cogito_agent.Executor.{
  Manifest, ExecutionRequest, ToolResult, ResultStatus, not_found, denied, approval_required, ok,
  error, ExecutionResult, Executor, ExecutorState, max_repeat, count_call, write_record,
  findings_of, policy_request, attempts_of, attempt_loop, or_failed, offload_large_result,
  create_approval,
}

abbrev pub refusal : ResultStatus → DecisionType → String → List String → String → ExecutionResult
refusal status decision reason findings approval = record {
  status = status;
  decision = decision;
  reason = reason;
  tool_result = none;
  approval_id = approval;
  guardian_findings = findings;
}

abbrev pub is_deny : DecisionType → Bool
is_deny d = elim d [ DecisionType.deny ↦ true | _ ↦ false ]

abbrev pub is_approval : DecisionType → Bool
is_approval d = elim d [ DecisionType.require_approval ↦ true | _ ↦ false ]

-- Each exit of `execute` records its result.
abbrev pub finish :
    Executor → ExecutionRequest → ExecutionResult → ExecutorState → ExecutorState × ExecutionResult
finish e r result s = (write_record e r result s, result)

abbrev result_of : PolicyDecision → ToolResult → ExecutionResult
result_of d t = record {
  status = if one_of t.status ("ok" ∷ "success" ∷ []) then ok else error;
  decision = d.decision;
  reason = d.reason;
  tool_result = some t;
  approval_id = "";
  guardian_findings = [];
}

-- The invocation with its attempts.
unfoldable pub invoke_stage :
    Executor
    → ExecutionRequest
    → Manifest
    → PolicyDecision
    → ExecutorState
    → ExecutorState × ExecutionResult
unfolding attempt_loop offload_large_result write_record
invoke_stage e r m d s =
    let a = attempt_loop e r 0 (attempts_of m) none s in
    finish e r (result_of d (offload_large_result e r (or_failed a.1 a.2))) a.0

unfoldable pub approval_stage :
    Executor
    → ExecutionRequest
    → Manifest
    → PolicyDecision
    → ExecutorState
    → ExecutorState × ExecutionResult
unfolding create_approval write_record
approval_stage e r m d s =
    let reason = or_else d.reason "Manifest requires approval" in
    let a = create_approval e r m reason s in
    finish e r (refusal approval_required DecisionType.require_approval reason [] a.1) a.0

-- The policy's decision, and the manifest's.
unfoldable pub policy_stage :
    Executor → ExecutionRequest → Manifest → ExecutorState → ExecutorState × ExecutionResult
unfolding invoke_stage approval_stage write_record
policy_stage e r m s =
    let d = e.policy (policy_request r m) in
    if is_deny d.decision
    then finish e r (refusal denied d.decision d.reason [] "") s
    else if is_approval d.decision || m.approval_required
    then approval_stage e r m d s
    else invoke_stage e r m d s

abbrev pub loop_reason : ExecutionRequest → String
loop_reason r =
    append "Tool loop guard: "
      (append r.capability_name " called with identical arguments 3 times consecutively")

-- The tool-loop guard.
unfoldable pub guard_stage :
    Executor → ExecutionRequest → Manifest → ExecutorState → ExecutorState × ExecutionResult
unfolding policy_stage count_call write_record
guard_stage e r m s =
    let s' = count_call e r s in
    if leb max_repeat s'.repeat_count
    then finish e r (refusal denied DecisionType.deny (loop_reason r) [] "") s'
    else policy_stage e r m s'

-- The guardians' findings, where there are any.
abbrev pub guardian_stage :
    Executor
    → ExecutionRequest
    → Manifest
    → ExecutorState
    → List String
    → ExecutorState × ExecutionResult
guardian_stage e r m s [] = guard_stage e r m s
guardian_stage e r m s (f ∷ fs) =
    finish e r (refusal denied DecisionType.deny (e.join (f ∷ fs)) (f ∷ fs) "") s

abbrev pub manifest_stage :
    Executor → ExecutionRequest → ExecutorState → Option Manifest → ExecutorState × ExecutionResult
manifest_stage e r s none =
    finish e r (refusal not_found DecisionType.deny "Capability not registered" [] "") s
manifest_stage e r s (some m) = guardian_stage e r m s (findings_of r m e.guardians)

-- `execute`
unfoldable pub execute :
    Executor → ExecutionRequest → ExecutorState → ExecutorState × ExecutionResult
unfolding guard_stage findings_of write_record
execute e r s = manifest_stage e r s (e.get_manifest r.capability_name)
