-- ===== src/Tests/Kernel.antt =====
-- The kernel (runtime/kernel.py) with a model that echoes, or that asks for one tool.
use cogito_agent.Prelude.{Bool, ℕ, zero, suc, ◌≡◌, inr, refl, true, false, none, some, [], ◌∷◌}
use cogito_agent.Turn.{TurnState, is_allowed, transition}
use cogito_agent.Policy.{DecisionType, allow}
use cogito_agent.Kernel.{
  RuntimeEvent, ModelResponse, ModelReply, replied, raised, KernelState, Kernel,
}
use cogito_agent.Kernel.Model.{
  run_vision_pipeline, ask_vision, move, check_budget_model, check_model_policy, pre_model_phase,
  retry_with_backoff, generate_reply,
}
use cogito_agent.Kernel.Tools.{dispatch_tool, dispatch_intents, dispatch_tools}
use cogito_agent.Kernel.Process.{
  tool_rounds, after_turn, run_turn, settle, restart, process, TurnResult,
}
use cogito_agent.Kernel.Ends.{Agrees, process-Agrees}
use cogito_agent.Kernel.Exhausted.{AllFail, exhausted-AllFail}
use cogito_agent.Tests.Executor.{broken_tool, fresh}

abbrev hello : RuntimeEvent
hello = record {
  workspace_id = "w";
  session_id = "s";
  actor_id = "user";
  source = "cli";
  is_user_message = true;
  text = "hello";
  has_content = false;
  trace_id = "t";
  span_id = "p";
}

abbrev answer : ModelResponse
answer = record { content = "hi"; tool_intents = []; error = none }

abbrev asks_for_tool : ModelResponse
asks_for_tool = record {
  content = "";
  tool_intents = record { capability_name = "fs_read"; arguments = "{}"; tool_call_id = "1" } ∷ [];
  error = none;
}

-- The first call of the adapter raises, and the later ones answer.
abbrev flaky : ℕ → ModelReply
flaky zero = raised "timeout"
flaky (suc n) = replied answer

abbrev kernel_with : (ℕ → ModelReply) → DecisionType → Kernel
kernel_with chat verdict = record {
  budget = record { max_model_calls = 10; max_tool_calls = 5; max_wall_time_seconds = 60 };
  max_tool_rounds = 3;
  has_registry = true;
  has_presence = false;
  chat = some chat;
  policy = λ r. record { decision = verdict; reason = "rule"; approval_id = none };
  executor = some broken_tool;
  context = λ e. none;
  persist = λ e. none;
  persist_user = λ e. none;
  delegates_vision = λ e. false;
  has_vision = false;
  inspects = λ e. false;
  observation_error = λ r. none;
  elapsed = λ e. 0;
  show_count = λ n. "";
  show_elapsed = λ n. "";
  is_blank = λ t. false;
  has_underscore = λ n. true;
  is_registered = λ n. true;
  replace_all = λ n sep. "fs.read";
  replace_first = λ n sep. "fs.read";
  mentions_denied = λ t. false;
}

abbrev echo : Kernel
echo = kernel_with flaky allow

abbrev at_state : TurnState → ℕ → KernelState
at_state st calls = record {
  machine = record { state = st };
  model_call_count = calls;
  tool_call_count = 0;
  tool_results = [];
  executor = fresh;
  asked = 0;
  slept = [];
  writes = [];
}

-- The call that raised is repeated after a pause of half a second.
answered_turn :
    ((process echo hello (at_state TurnState.received 0)).0.slept ≡ 5 ∷ [])
    × ((process echo hello (at_state TurnState.received 0)).0.asked ≡ 2)
    × ((process echo hello (at_state TurnState.received 0)).0.model_call_count ≡ 1)
    × ((process echo hello (at_state TurnState.received 0)).0.machine.state ≡ TurnState.completed)
unfolding process restart run_turn settle pre_model_phase move transition is_allowed
    check_budget_model check_model_policy generate_reply retry_with_backoff tool_rounds
    dispatch_tools dispatch_intents dispatch_tool after_turn
answered_turn = (refl, refl, refl, refl)

-- An image that the model cannot see, with a capable vision service that gives no result, or without one.
abbrev blind : Bool → Kernel
blind capable = record (kernel_with (λ n. replied answer) allow) {
  delegates_vision = λ e. true;
  has_vision = capable;
}

-- The analysis of an image is one more call of the adapter; with a capable vision service it is not
-- counted.
image_turn :
    ((process (blind false) hello (at_state TurnState.received 0)).0.asked ≡ 2)
    × ((process (blind false) hello (at_state TurnState.received 0)).0.model_call_count ≡ 2)
    × ((process (blind true) hello (at_state TurnState.received 0)).0.asked ≡ 2)
    × ((process (blind true) hello (at_state TurnState.received 0)).0.model_call_count ≡ 1)
unfolding process restart run_turn settle pre_model_phase move transition is_allowed
    check_budget_model check_model_policy generate_reply run_vision_pipeline ask_vision
    retry_with_backoff tool_rounds dispatch_tools dispatch_intents dispatch_tool after_turn
image_turn = (refl, refl, refl, refl)

process-Agrees_example :
    let out = process echo hello (at_state TurnState.failed 2) in
    (r : TurnResult) × (out.1 ≡ some r) × Agrees r.state out.0.machine.state
process-Agrees_example = process-Agrees echo hello (at_state TurnState.failed 2) refl (inr refl)

exhausted-AllFail_example : AllFail echo (hello ∷ hello ∷ []) (at_state TurnState.completed 10)
exhausted-AllFail_example =
    exhausted-AllFail echo (hello ∷ hello ∷ []) (at_state TurnState.completed 10) refl (inr refl)
      refl
