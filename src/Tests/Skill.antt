-- ===== src/Tests/Skill.antt =====
-- Skills (skill/runner.py) with approval steps, whole numbers as costs, and a tool that works.
use cogito_agent.Prelude.{
  ℕ, ◌+◌, ◌≡◌, refl, String, true, false, none, some, [], ◌∷◌, length, leb, dict_get, dict_set,
}
use cogito_agent.Policy.{deny, allow}
use cogito_agent.Executor.{
  Executor, returned, repeats_of, count_call, write_record, findings_of, attempt_loop,
  offload_large_result,
}
use cogito_agent.Executor.Steps.{execute, guard_stage, policy_stage, invoke_stage}
use cogito_agent.Skill.{
  raised, StepKind, OnError, SkillStep, SkillManifest, done, SkillState, SkillRunner, SkillWorld,
}
use cogito_agent.Skill.Step.{
  apply_mapping, execute_step, execute_llm_step, attempt, controlled, execute_step_with_controls,
}
use cogito_agent.Skill.Loop.{
  execute_rollback, normalize_output, after_output, after_error, step_once, step_loop, Progress,
}
use cogito_agent.Skill.Run.{rebound, SkillCall, run, place_of, first_progress, new_log}
use cogito_agent.Skill.Ended.{RunSettled, run_settles}
use cogito_agent.Skill.Declared.{Calls, calls_declared}
use cogito_agent.Skill.Refused.{IsStopped, refused_run}
use cogito_agent.Skill.Preflight.{preflight_all, check_semver, preflight_error}
use cogito_agent.Skill.Gate.{SameRun, with_steps, gate_holds}
use cogito_agent.Tests.Executor.{broken_tool, fresh}
use cogito_agent.Tests.Runs.{env_at, one_run, one_run-IsKeyed, claim_won}

abbrev working_tool : Executor
working_tool = record broken_tool {
  invoke = λ n r.
      returned (record { status = "ok"; summary = ""; error = none; payload = ""; artifacts = [] });
}

abbrev pub runner : SkillRunner ℕ
runner = record {
  executor = working_tool;
  policy = λ r. record { decision = allow; reason = ""; approval_id = none };
  worker_id = "w1";
  zero_cost = 0;
  llm_cost = 2;
  capability_cost = 1;
  add = λ a b. a + b;
  reaches = λ a b. leb b a;
  elapsed = λ n. 0;
  evaluates = λ e i c. true;
  chat = none;
  fill = λ t m. done t;
  validate = λ v t. none;
  shown = λ v. "";
  clip = λ n t. t;
  dumps = λ m. "{}";
  kind_name = λ k. "";
  join = λ xs. "";
  previous_version = λ n. none;
  parse_semver = λ v. none;
}

abbrev step_of : String → StepKind → SkillStep ℕ
step_of id kind = record {
  id = id;
  name = id;
  kind = kind;
  uses_capability = "fs.write";
  input_mapping = [];
  output_mapping = [];
  on_error = OnError.stop;
  failure_policy = OnError.stop;
  trace_required = false;
  prompt = "";
  condition_expression = "";
  output_schema = "";
  timeout = 0;
  retry_count = 0;
  max_budget_cost = none;
}

abbrev pub asks : SkillStep ℕ
asks = step_of "ask" StepKind.approval

abbrev pub writes : SkillStep ℕ
writes = step_of "write" StepKind.capability

abbrev pub asks_again : SkillStep ℕ
asks_again = step_of "ask again" StepKind.approval

abbrev pub two_gates : SkillManifest ℕ
two_gates = record {
  name = "publish";
  version = "1.0.0";
  steps = asks ∷ asks_again ∷ writes ∷ [];
  rollback = [];
}

abbrev call : SkillCall
call = record { workspace_id = "w"; session_id = "s"; inputs = []; input_data = [] }

abbrev pub world : SkillWorld
world = record {
  create_env = env_at 10;
  claim_env = env_at 10;
  pause_env = env_at 10;
  finish_env = env_at 10;
  trace_id = "t";
  approval_id = λ n. "a1";
  log_id = "l1";
}

abbrev pub start : SkillState ℕ
start = record {
  executor = fresh;
  runs = one_run;
  approvals = [];
  run_logs = [];
  traced = [];
  audited = [];
  executions = 0;
  pauses = 0;
}

run_settles_example : RunSettled runner "r1" (run runner world two_gates call (some "r1") start)
run_settles_example =
    run_settles runner world two_gates call "r1" start one_run-IsKeyed refl claim_won

two_gates_pass : preflight_error runner two_gates ≡ none
unfolding preflight_all check_semver
two_gates_pass = refl

one_gate_passes : preflight_error runner (with_steps (asks ∷ []) two_gates) ≡ none
unfolding preflight_all check_semver
one_gate_passes = refl

gate_holds_example :
    SameRun runner world
      (run runner world two_gates call (some "r1") start)
      (run runner world (with_steps (asks ∷ []) two_gates) call (some "r1") start)
gate_holds_example =
    gate_holds runner world two_gates call (some "r1") start [] asks (asks_again ∷ writes ∷ []) []
      (refl, refl, refl) refl two_gates_pass one_gate_passes

-- A step whose model raises.
abbrev fails : SkillStep ℕ
fails = record (step_of "fail" StepKind.llm) { on_error = OnError.rollback }

abbrev compensating : SkillManifest ℕ
compensating = record {
  name = "fail";
  version = "1.0.0";
  steps = fails ∷ [];
  rollback = "undo" ∷ [];
}

abbrev silent : SkillRunner ℕ
silent = record runner { chat = some (λ t. raised "no model") }

abbrev at_first : Progress ℕ
at_first = first_progress runner (new_log runner world two_gates "r1")

-- A compensation is called with no step executed.
compensated_nothing :
    (length
        (step_loop silent true world compensating
          (place_of call)
          (fails ∷ [])
          at_first
          start).0.executor.invocations
      ≡ 1)
    × ((step_loop silent true world compensating
          (place_of call)
          (fails ∷ [])
          at_first
          start).1.executed
        ≡ [])
unfolding step_loop step_once after_output after_error execute_rollback execute_step_with_controls
    controlled attempt execute_step execute_llm_step apply_mapping normalize_output dict_get
    dict_set execute guard_stage policy_stage invoke_stage count_call repeats_of write_record
    findings_of attempt_loop offload_large_result
compensated_nothing = (refl, refl)

-- A manifest whose second step is denied.
abbrev strict : SkillRunner ℕ
strict = record runner { policy = λ r. record { decision = deny; reason = ""; approval_id = none } }

abbrev asks_then_writes : SkillManifest ℕ
asks_then_writes = record {
  name = "publish";
  version = "1.0.0";
  steps = asks ∷ writes ∷ [];
  rollback = [];
}

refused_run_example :
    IsStopped strict
      (rebound strict start)
      (run strict world asks_then_writes call (some "r1") start)
refused_run_example =
    refused_run strict world asks_then_writes call (some "r1") start (asks ∷ []) writes [] _ refl
      refl refl refl refl

calls_declared_example :
    Calls runner two_gates
      (rebound runner start).executor
      (run runner world two_gates call none start).0.executor
calls_declared_example = calls_declared runner world two_gates call none start
