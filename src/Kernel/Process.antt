-- ===== src/Kernel/Process.antt =====
-- runtime/kernel.py: `process`, one turn from its event to its result.
use Prim.Native.String.{◌++◌ as append}
use cogito_agent.Prelude.{
  ℕ, zero, suc, String, Bool, true, false, ◌&&◌, Option, none, some, List, [], ◌∷◌, ◌=s◌,
  if◌then◌else◌,
}
use cogito_agent.Turn.{TurnState}
use cogito_agent.Kernel.{
  RuntimeEvent, ModelResponse, budget_error, policy_denied_error, approval_required_error,
  other_error, done, failure, ToolSummary, trace_started, trace_ended, summary_updated,
  consolidated, turn_audited, reply_saved, KernelState, Kernel, Stage, and_then, write,
}
use cogito_agent.Kernel.Model.{move, safe_move, pre_model_phase, generate_reply, plain}
use cogito_agent.Kernel.Tools.{dispatch_tools}

pub record TurnResult : Type 0 where
  pub state : TurnState
  pub output : String
  pub error : Option String
  pub tool_summaries : List ToolSummary
  pub approval_pending : Bool
  pub approval_id : Option String

abbrev pub wants_tools : ModelResponse → Bool
wants_tools r = elim r.tool_intents [ [] ↦ false | ◌∷◌ _ _ ↦ true ]

-- The loop over the rounds of tools, with the rounds that are left; it gives those left at its end.
unfoldable pub tool_rounds :
    Kernel → RuntimeEvent → ℕ → ModelResponse → KernelState → Stage (ModelResponse × ℕ)
unfolding dispatch_tools
tool_rounds K e zero r s = (s, done (r, zero))
tool_rounds K e (suc left) r s =
    let again = and_then (dispatch_tools K e r s) (λ r' s'. tool_rounds K e left r' s') in
    if wants_tools r && K.has_registry then again else (s, done (r, suc left))

-- `_TOOL_CHAIN_TERMINATED`
abbrev pub tool_chain_terminated : String
tool_chain_terminated =
    "Tool chain terminated: maximum tool rounds reached. Results from completed tools have been applied."

abbrev pub last_answer : ModelResponse × ℕ → ModelResponse
last_answer (r, zero) = if wants_tools r then plain tool_chain_terminated else r
last_answer (r, suc left) = r

-- The answer of `ResultComposer.compose`.
abbrev pub answer_of : ModelResponse → String
answer_of r = elim r.error [
  | none ↦ r.content
  | some x ↦ if x =s "" then r.content else append "Model error: " x
]

-- `_persist`, which may raise.
abbrev pub save_reply : Kernel → RuntimeEvent → String → KernelState → Stage Unit
save_reply K e output s = elim (K.persist e) [
  | none ↦ (write (reply_saved output) s, done tt)
  | some x ↦ (s, failure (other_error x))
]

-- `_run_after_turn`
unfoldable pub after_turn : Kernel → RuntimeEvent → ModelResponse → KernelState → Stage String
unfolding move
after_turn K e r s = and_then (move TurnState.composing_result s) (λ _ s1.
    and_then (save_reply K e (answer_of r) s1) (λ _ s2.
      let s3 = write turn_audited (write consolidated (write summary_updated s2)) in
      and_then (move TurnState.completed s3) (λ _ s4. (s4, done (answer_of r)))))

-- The body of the `try` block.
unfoldable pub run_turn : Kernel → RuntimeEvent → KernelState → Stage String
unfolding pre_model_phase generate_reply move tool_rounds after_turn
run_turn K e s = and_then (pre_model_phase K e s) (λ _ s1. and_then (generate_reply K e s1) (λ r s2.
    and_then (move TurnState.planning_tool s2) (λ _ s3.
      and_then (tool_rounds K e K.max_tool_rounds r s3)
        (λ x s4. after_turn K e (last_answer x) s4))))

abbrev failed_result : TurnState → String → TurnResult
failed_result st error = record {
  state = st;
  output = "";
  error = some error;
  tool_summaries = [];
  approval_pending = false;
  approval_id = none;
}

-- The `except` clauses, and the result of a turn that raised nothing.
unfoldable pub settle : Stage String → KernelState × TurnResult
unfolding safe_move
settle (s, done output) = (
  s,
  record {
    state = TurnState.completed;
    output = output;
    error = none;
    tool_summaries = s.tool_results;
    approval_pending = false;
    approval_id = none;
  },
)
settle (s, failure (budget_error x)) =
    (safe_move TurnState.failed s, record (failed_result TurnState.failed x) { output = x })
settle (s, failure (policy_denied_error x)) =
    (safe_move TurnState.denied s, failed_result TurnState.denied x)
settle (s, failure (approval_required_error x id)) = (
  safe_move TurnState.waiting_approval s,
  record (failed_result TurnState.waiting_approval x) {
    approval_pending = true;
    approval_id = some id;
  },
)
settle (s, failure (other_error x)) =
    (safe_move TurnState.failed s, failed_result TurnState.failed x)

abbrev pub is_final : TurnState → Bool
is_final st = elim st [
  | TurnState.completed ↦ true
  | TurnState.failed ↦ true
  | TurnState.denied ↦ true
  | TurnState.cancelled ↦ true
  | TurnState.budget_exceeded ↦ true
  | _ ↦ false
]

-- The machine of `_prepare_turn_setup`: a final state gives way to a new turn.
unfoldable pub restart : KernelState → KernelState
restart s =
    if is_final s.machine.state
    then record s { machine = record s.machine { state = TurnState.received } }
    else s

-- `process`: the state and the result, or none where `_prepare_turn_setup` raises, which it does with
-- a presence tracker, since `EventType.user_command` does not exist.
unfoldable pub process : Kernel → RuntimeEvent → KernelState → KernelState × Option TurnResult
unfolding restart run_turn settle
process K e s =
    let s1 = restart s in
    let r = settle (run_turn K e (write trace_started s1)) in
    if K.has_presence then (s1, none) else (write trace_ended r.0, some r.1)
