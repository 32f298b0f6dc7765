-- ===== src/Kernel.antt =====
-- runtime/kernel.py and runtime/budget.py: the state of the kernel, its collaborators, and how an
-- exception passes through its stages.
pub mod Model
pub mod Tools
pub mod Process
pub mod Rules
pub mod Settled
pub mod Turned
pub mod Ends
pub mod Spending
pub mod Counters
pub mod Exhausted
use cogito_agent.Prelude.{ℕ, String, Bool, Option, List, ◌++◌, [], ◌∷◌, ltb}
use cogito_agent.Turn.{TurnStateMachine}
use cogito_agent.Policy.{PolicyRequest, PolicyDecision}
use cogito_agent.Executor.{Executor, ExecutorState}

pub record TurnBudget : Type 0 where
  pub max_model_calls : ℕ
  pub max_tool_calls : ℕ
  pub max_wall_time_seconds : ℕ

-- `can_call_model` and `can_call_tool`
abbrev pub can_call_model : TurnBudget → ℕ → Bool
can_call_model b made = ltb made b.max_model_calls

abbrev pub can_call_tool : TurnBudget → ℕ → Bool
can_call_tool b made = ltb made b.max_tool_calls

-- What a turn reads of its event and of its payload, and the identifiers of its trace and its span.
pub record RuntimeEvent : Type 0 where
  pub workspace_id : String
  pub session_id : String
  pub actor_id : String
  pub source : String
  pub is_user_message : Bool
  pub text : String
  pub has_content : Bool
  pub trace_id : String
  pub span_id : String

-- A tool that the model asks for; `arguments` is their JSON text with sorted keys.
pub record ToolIntent : Type 0 where
  pub capability_name : String
  pub arguments : String
  pub tool_call_id : String

pub record ModelResponse : Type 0 where
  pub content : String
  pub tool_intents : List ToolIntent
  pub error : Option String

-- A call of the model adapter returns or raises.
pub data ModelReply : Type 0 where
  replied : ModelResponse → ModelReply
  raised : String → ModelReply

-- What a stage raises.
pub data TurnError : Type 0 where
  budget_error policy_denied_error other_error : String → TurnError
  approval_required_error : String → String → TurnError

pub data Outcome (A : Type 0) : Type 0 where
  done : A → Outcome A
  failure : TurnError → Outcome A

-- A result of a tool, as it is collected for the model.
pub record Collected : Type 0 where
  pub tool : String
  pub summary : String
  pub error : Option String

pub record ToolSummary : Type 0 where
  pub tool : String
  pub summary : String
  pub status : String

-- The writes of a turn, in order.
pub data KernelWrite : Type 0 where
  trace_started trace_ended user_message_saved summary_updated consolidated turn_audited
        model_call_logged model_denied :
      KernelWrite
  reply_saved : String → KernelWrite

-- The kernel's own state. `asked` counts the calls of the model adapter, and `slept` holds the pauses
-- between them in tenths of a second.
pub record KernelState : Type 0 where
  pub machine : TurnStateMachine
  pub model_call_count : ℕ
  pub tool_call_count : ℕ
  pub tool_results : List ToolSummary
  pub executor : ExecutorState
  pub asked : ℕ
  pub slept : List ℕ
  pub writes : List KernelWrite

-- The collaborators of a kernel. `chat` is given the number of the calls before; `context`,
-- `persist` and `persist_user` are the errors of the context engine and of the message store, for the
-- answer and for the user's message, where they raise; `delegates_vision` is whether the event has an
-- image that the model cannot see, `has_vision` whether there is a capable vision service, `inspects`
-- whether that gives a result, and `observation_error` the error of an answer that is no observation;
-- `elapsed` is in microseconds; `show_count` and `show_elapsed` print numbers; and `replace_all name sep`, `replace_first name sep` put a separator for the underscores of a name.
pub record Kernel : Type 0 where
  pub budget : TurnBudget
  pub max_tool_rounds : ℕ
  pub has_registry : Bool
  pub has_presence : Bool
  pub chat : Option (ℕ → ModelReply)
  pub policy : PolicyRequest → PolicyDecision
  pub executor : Option Executor
  pub context : RuntimeEvent → Option String
  pub persist : RuntimeEvent → Option String
  pub persist_user : RuntimeEvent → Option String
  pub delegates_vision : RuntimeEvent → Bool
  pub has_vision : Bool
  pub inspects : RuntimeEvent → Bool
  pub observation_error : ModelResponse → Option String
  pub elapsed : RuntimeEvent → ℕ
  pub show_count : ℕ → String
  pub show_elapsed : ℕ → String
  pub is_blank : String → Bool
  pub has_underscore : String → Bool
  pub is_registered : String → Bool
  pub replace_all : String → String → String
  pub replace_first : String → String → String
  pub mentions_denied : String → Bool

-- A stage leaves a state, and a result or an exception.
abbrev pub Stage : Type 0 → Type 0
Stage A = KernelState × Outcome A

-- The next stage, unless this one raised.
abbrev pub and_then : {A : Type 0} {B : Type 0} → Stage A → (A → KernelState → Stage B) → Stage B
and_then (s, done a) next = next a s
and_then (s, failure e) next = (s, failure e)

abbrev pub write : KernelWrite → KernelState → KernelState
write w s = record s { writes = s.writes ++ w ∷ [] }
