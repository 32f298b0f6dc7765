-- ===== src/Tests/Executor.antt =====
-- The capability executor (execution/executor.py) with a tool that always fails.
use cogito_agent.Prelude.{◌+◌, ◌≤◌, ◌≡◌, ◌⊎◌, refl, true, false, none, some, [], ◌∷◌, length}
use cogito_agent.Policy.{allow}
use cogito_agent.Executor.{
  ExecutionRequest, Executor, ExecutorState, raised, repeats_of, count_call, write_record,
  findings_of, attempt_loop, offload_large_result,
}
use cogito_agent.Executor.Steps.{execute, guard_stage, policy_stage, invoke_stage}
use cogito_agent.Executor.Governed.{IsPermitted, execute-IsPermitted}
use cogito_agent.Executor.Repeats.{execute_again, execute_again_bounded}

abbrev pub broken_tool : Executor
broken_tool = record {
  get_manifest =
      λ name. some (record { type_value = "tool"; approval_required = false; idempotent = true });
  invoke = λ n r. raised "broken";
  policy = λ r. record { decision = allow; reason = ""; approval_id = none };
  guardians = [];
  approvals = none;
  artifact_writer = none;
  has_audit = true;
  has_tracer = false;
  offload_threshold_chars = 4000;
  arg_hash = λ s. s;
  payload_length = λ t. 0;
  clip = λ s. s;
  join = λ fs. "";
}

abbrev pub fresh : ExecutorState
fresh = record {
  last_call = none;
  repeat_count = 0;
  invocations = [];
  slept = [];
  approval_rows = [];
  audited = [];
  traced = [];
}

abbrev read_file : ExecutionRequest
read_file = record {
  capability_name = "fs.read";
  arguments = "{}";
  workspace_id = "w";
  actor_id = "assistant";
  source = "interactive";
  operation = "";
  resource = "";
  session_id = "s";
  trace_id = "";
  span_id = "";
  tool_call_id = "";
}

-- Three attempts, with a delay after the first and the second.
three_attempts : (execute broken_tool read_file fresh).0.slept ≡ 1 ∷ 2 ∷ []
unfolding execute guard_stage policy_stage invoke_stage count_call repeats_of write_record
    findings_of attempt_loop offload_large_result
three_attempts = refl

-- Five calls make the nine invocations.
nine_invocations : length (execute_again broken_tool read_file 5 fresh).invocations ≡ 9
unfolding execute_again execute guard_stage policy_stage invoke_stage count_call repeats_of
    write_record findings_of attempt_loop offload_large_result
nine_invocations = refl

execute-IsPermitted_example :
    ((execute broken_tool read_file fresh).0.invocations ≡ [])
    ⊎ IsPermitted broken_tool read_file fresh
execute-IsPermitted_example = execute-IsPermitted broken_tool read_file fresh

execute_again_bounded_example :
    length (execute_again broken_tool read_file 100 fresh).invocations ≤ 0 + 9
execute_again_bounded_example = execute_again_bounded broken_tool read_file 100 fresh
