-- ===== src/Skill.antt =====
-- shared/skill.py and skill/runner.py: skills, the runner with its collaborators, and its state.
pub mod Step
pub mod Loop
pub mod Preflight
pub mod Run
pub mod Resume
pub mod Settled
pub mod Ended
pub mod Resumed
pub mod Stops
pub mod Gate
pub mod Attempts
pub mod Refused
pub mod Declared
use cogito_agent.Prelude.{
  ℕ, String, Bool, Option, none, some, List, [], ◌∷◌, ◌++◌, Dict, ◌=s◌, if◌then◌else◌,
}
use cogito_agent.Policy.{PolicyRequest, PolicyDecision}
use cogito_agent.Runs.{RunDb, Env}
use cogito_agent.Executor.{Executor, ExecutorState, ToolResult}

pub data StepKind : Type 0 where
  capability llm transform condition approval : StepKind

pub data OnError : Type 0 where
  stop skip rollback : OnError

-- A value of an input mapping: a text, or a reference with its parts between the dots.
pub data MappedValue : Type 0 where
  literal : String → MappedValue
  reference : String → List String → MappedValue

-- Times are microseconds; `output_schema` is empty where there is none.
pub record SkillStep (F : Type 0) : Type 0 where
  pub id : String
  pub name : String
  pub kind : StepKind
  pub uses_capability : String
  pub input_mapping : Dict MappedValue
  pub output_mapping : Dict String
  pub on_error : OnError
  pub failure_policy : OnError
  pub trace_required : Bool
  pub prompt : String
  pub condition_expression : String
  pub output_schema : String
  pub timeout : ℕ
  pub retry_count : ℕ
  pub max_budget_cost : Option F

-- What the runner reads of a manifest; `rollback` is its list of capabilities.
pub record SkillManifest (F : Type 0) : Type 0 where
  pub name : String
  pub version : String
  pub steps : List (SkillStep F)
  pub rollback : List String

-- What a step gives back.
pub data StepOutput : Type 0 where
  nothing : StepOutput
  text : String → StepOutput
  mapped : Dict String → StepOutput
  tool : ToolResult → StepOutput
  verdict : Bool → StepOutput
  pending_approval : String → StepOutput

-- A stage of a run returns or raises.
pub data Attempted (A : Type 0) : Type 0 where
  done : A → Attempted A
  raised : String → Attempted A

pub data LogStatus : Type 0 where
  running completed failed rolled_back pending_approval rejected : LogStatus

-- An entry of the step logs, with the output or the error.
pub data StepLog : Type 0 where
  logged : String → String → String → StepLog
  errored : String → String → StepLog

-- The lists of outputs of a log stay empty in the runner, and are left out.
pub record SkillRunLog : Type 0 where
  pub trace_id : String
  pub skill_id : String
  pub status : LogStatus
  pub run_id : String
  pub step_logs : List StepLog

abbrev pub StepContext : Type 0
StepContext = Dict (Dict String)

-- `approval_step` and `remaining` are what `resume` reads of the steps at `step_index` and behind it.
pub record ResumeData (F : Type 0) : Type 0 where
  pub durable_run_id : String
  pub manifest : SkillManifest F
  pub approval_step : SkillStep F
  pub remaining : List (SkillStep F)
  pub step_context : StepContext
  pub total_cost : F
  pub executed_steps : List (SkillStep F)
  pub workspace_id : String
  pub session_id : String
  pub inputs : Dict String

-- A row of `skill_run_logs`.
pub record RunLogRow (F : Type 0) : Type 0 where
  pub id : String
  pub workspace_id : String
  pub skill_name : String
  pub trace_id : String
  pub status : LogStatus
  pub step_logs : List StepLog
  pub resume_data : Option (ResumeData F)

-- A row of `approval_records`; `decision` is empty until it is resolved.
pub record ApprovalRow : Type 0 where
  pub id : String
  pub capability_name : String
  pub decision : String

pub data SkillTrace : Type 0 where
  trace_created trace_ended span_created span_ended : String → SkillTrace

pub record SkillState (F : Type 0) : Type 0 where
  pub executor : ExecutorState
  pub runs : RunDb
  pub approvals : List ApprovalRow
  pub run_logs : List (RunLogRow F)
  pub traced : List SkillTrace
  pub audited : List (String × String)
  -- The executions of steps, and the pauses before a retry.
  pub executions : ℕ
  pub pauses : ℕ

-- The runner's collaborators. `elapsed n` is the time that the nth execution of a step takes;
-- `evaluates` is the evaluation of an expression, false where it raises; `chat` and `fill` may raise,
-- the latter in `str.format`; `validate` is the check of an output against a schema; `shown` is
-- the text of an output, and `clip n` the first n characters of a text.
pub record SkillRunner (F : Type 0) : Type 0 where
  pub executor : Executor
  pub policy : PolicyRequest → PolicyDecision
  pub worker_id : String
  pub zero_cost : F
  pub llm_cost : F
  pub capability_cost : F
  pub add : F → F → F
  pub reaches : F → F → Bool
  pub elapsed : ℕ → ℕ
  pub evaluates : String → Dict String → StepContext → Bool
  pub chat : Option (String → Attempted String)
  pub fill : String → Dict String → Attempted String
  pub validate : StepOutput → String → Option String
  pub shown : StepOutput → String
  pub clip : ℕ → String → String
  pub dumps : Dict String → String
  pub kind_name : StepKind → String
  pub join : List String → String
  pub previous_version : String → Option String
  pub parse_semver : String → Option (ℕ × ℕ × ℕ)

-- What one call takes from outside: the environments of the calls on the runs, and identifiers of the
-- trace, of a new approval for each step, and of a new row of the logs.
pub record SkillWorld : Type 0 where
  pub create_env : Env
  pub claim_env : Env
  pub pause_env : Env
  pub finish_env : Env
  pub trace_id : String
  pub approval_id : ℕ → String
  pub log_id : String

abbrev pub trace : {F : Type 0} → SkillTrace → SkillState F → SkillState F
trace e s = record s { traced = s.traced ++ e ∷ [] }

abbrev pub audit : {F : Type 0} → String → String → SkillState F → SkillState F
audit action resource s = record s { audited = s.audited ++ (action, resource) ∷ [] }
