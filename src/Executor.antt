-- ===== src/Executor.antt =====
-- execution/executor.py and execution/models.py: the one entry point for the side effects of
-- capabilities.
pub mod Steps
pub mod Governed
pub mod Stages
pub mod Repeats
use Prim.Native.String.{◌++◌ as append}
use cogito_agent.Prelude.{
  max, ℕ, zero, suc, ◌+◌, ◌*◌, ◌^◌, String, Bool, true, false, ◌&&◌, ◌||◌, not, Option, none, some,
  List, [], ◌∷◌, ◌++◌, leb, ltb, ◌=s◌, or_else, length, if◌then◌else◌,
}
use cogito_agent.Policy.{PolicyRequest, PolicyDecision, DecisionType}

-- What the executor reads of a manifest.
pub record Manifest : Type 0 where
  pub type_value : String
  pub approval_required : Bool
  pub idempotent : Bool

-- `arguments` is their JSON text with sorted keys.
pub record ExecutionRequest : Type 0 where
  pub capability_name : String
  pub arguments : String
  pub workspace_id : String
  pub actor_id : String
  pub source : String
  pub operation : String
  pub resource : String
  pub session_id : String
  pub trace_id : String
  pub span_id : String
  pub tool_call_id : String

pub record ToolResult : Type 0 where
  pub status : String
  pub summary : String
  pub error : Option String
  pub payload : String
  pub artifacts : List String

pub data ResultStatus : Type 0 where
  not_found denied approval_required ok error : ResultStatus

pub record ExecutionResult : Type 0 where
  pub status : ResultStatus
  pub decision : DecisionType
  pub reason : String
  pub tool_result : Option ToolResult
  pub approval_id : String
  pub guardian_findings : List String

-- What `registry.invoke` does: it returns a result or raises.
pub data Invocation : Type 0 where
  returned : ToolResult → Invocation
  raised : String → Invocation

-- The executor's collaborators. `invoke` is also given the number of invocations before, so that a
-- tool may answer differently each time; the writers give the identifiers of new rows.
pub record Executor : Type 0 where
  pub get_manifest : String → Option Manifest
  pub invoke : ℕ → ExecutionRequest → Invocation
  pub policy : PolicyRequest → PolicyDecision
  pub guardians : List (ExecutionRequest → Manifest → Option String)
  pub approvals : Option (ExecutionRequest → String → String → String → String)
  pub artifact_writer : Option (ExecutionRequest → ToolResult → String)
  pub has_audit : Bool
  pub has_tracer : Bool
  pub offload_threshold_chars : ℕ
  pub arg_hash : String → String
  -- `len` of the JSON text of a result, `[:1000]`, and `"; ".join`.
  pub payload_length : ToolResult → ℕ
  pub clip : String → String
  pub join : List String → String

-- The executor's own state, and what it has done to the outside, in order: the invocations, the
-- delays in tenths of a second, the approvals asked for, and the rows of the audit and of the trace.
pub record ExecutorState : Type 0 where
  pub last_call : Option (String × String)
  pub repeat_count : ℕ
  pub invocations : List ExecutionRequest
  pub slept : List ℕ
  pub approval_rows : List ExecutionRequest
  pub audited : List (ExecutionRequest × ExecutionResult)
  pub traced : List (ExecutionRequest × ExecutionResult)

-- `_MAX_REPEAT`
abbrev pub max_repeat : ℕ
max_repeat = 3

abbrev same_text : String × String → String × String → Bool
same_text (a, b) (a', b') = a =s a' && b =s b'

abbrev pub is_call : String × String → Option (String × String) → Bool
is_call c none = false
is_call c (some d) = same_text c d

abbrev pub current_call : Executor → ExecutionRequest → String × String
current_call e r = (r.capability_name, e.arg_hash r.arguments)

-- The count of the tool-loop guard after a call.
unfoldable pub repeats_of : Executor → ExecutionRequest → ExecutorState → ℕ
repeats_of e r s = if is_call (current_call e r) s.last_call then s.repeat_count + 1 else 0

unfoldable pub count_call : Executor → ExecutionRequest → ExecutorState → ExecutorState
unfolding repeats_of
count_call e r s = record s { last_call = some (current_call e r); repeat_count = repeats_of e r s }

-- `_record`
unfoldable pub write_record :
    Executor → ExecutionRequest → ExecutionResult → ExecutorState → ExecutorState
write_record e r result s = record s {
  audited = if e.has_audit then s.audited ++ (r, result) ∷ [] else s.audited;
  traced =
      if e.has_tracer && not (r.trace_id =s "") then s.traced ++ (r, result) ∷ [] else s.traced;
}

-- The findings of the guardians, in their order.
unfoldable pub findings_of :
    ExecutionRequest → Manifest → List (ExecutionRequest → Manifest → Option String) → List String
findings_of r m [] = []
findings_of r m (g ∷ gs) =
    let rest = findings_of r m gs in elim (g r m) [ none ↦ rest | some f ↦ f ∷ rest ]

-- The request to the policy.
abbrev pub policy_request : ExecutionRequest → Manifest → PolicyRequest
policy_request r m = record {
  actor_id = r.actor_id;
  capability_name = r.capability_name;
  operation = or_else r.operation m.type_value;
  resource = or_else r.resource r.capability_name;
  context = r.source;
}

abbrev pub attempts_of : Manifest → ℕ
attempts_of m = if m.idempotent then 3 else 1

abbrev pub invoked : ExecutionRequest → ExecutorState → ExecutorState
invoked r s = record s { invocations = s.invocations ++ r ∷ [] }

abbrev pub pause : ℕ → ℕ → ExecutorState → ExecutorState
pause attempt zero s = s
pause attempt (suc left) s = record s { slept = s.slept ++ 2 ^ attempt ∷ [] }

-- The loop over the attempts, with those that are left: the result, or the last error.
unfoldable pub attempt_loop :
    Executor
    → ExecutionRequest
    → ℕ
    → ℕ
    → Option String
    → ExecutorState
    → ExecutorState × Option ToolResult × Option String
attempt_loop e r attempt zero err s = (s, none, err)
attempt_loop e r attempt (suc left) err s = elim (e.invoke (length s.invocations) r) [
  | returned t ↦ (invoked r s, some t, err)
  | raised x ↦ attempt_loop e r (attempt + 1) left (some x) (pause attempt left (invoked r s))
]

abbrev error_text : Option String → String
error_text none = "Capability returned no result"
error_text (some x) = or_else x "Capability returned no result"

abbrev pub or_failed : Option ToolResult → Option String → ToolResult
or_failed (some t) err = t
or_failed none err = record {
  status = "error";
  summary = "Capability invocation failed";
  error = some (error_text err);
  payload = "";
  artifacts = [];
}

abbrev clip_error : Executor → Option String → Option String
clip_error e none = none
clip_error e (some x) = some (e.clip x)

-- `_offload_large_result`, less the strip of blanks at the ends of the summary.
unfoldable pub offload_large_result : Executor → ExecutionRequest → ToolResult → ToolResult
offload_large_result e r t = elim e.artifact_writer [
  | none ↦ t
  | some create ↦
      if leb (e.payload_length t) (max 1000 e.offload_threshold_chars)
      then t
      else let id = create r t in
        record t {
          artifacts = t.artifacts ++ id ∷ [];
          summary =
              append (e.clip t.summary)
                (append "\n[Full tool output stored as artifact:" (append id "]"));
          error = clip_error e t.error;
        }
]

abbrev approval_made : Executor → ExecutionRequest → ExecutorState → ExecutorState
approval_made e r s = elim e.approvals [
  | none ↦ s
  | some create ↦ record s { approval_rows = s.approval_rows ++ r ∷ [] }
]

-- `_create_approval`: the row, and its identifier.
unfoldable pub create_approval :
    Executor → ExecutionRequest → Manifest → String → ExecutorState → ExecutorState × String
create_approval e r m reason s = (
  approval_made e r s,
  elim e.approvals [
    | none ↦ ""
    | some create ↦ create r (policy_request r m).operation (policy_request r m).resource reason
  ],
)
