-- ===== src/Turn.antt =====
-- shared/state.py: the states of a turn, the table of allowed transitions and the machine.
pub mod Governed
pub mod Reach
use cogito_agent.Prelude.{
  String, Bool, Option, none, some, List, [], ◌∷◌, map, one_of, if◌then◌else◌,
}

pub data TurnState : Type 0 where
  received loading_session building_context model_calling planning_tool policy_checking
        waiting_approval executing_capability updating_context composing_result retrying interrupted
        resuming completed failed denied cancelled budget_exceeded :
      TurnState

-- The value of the StrEnum member; members are compared by it.
unfoldable pub value : TurnState → String
value received = "received"
value loading_session = "loading_session"
value building_context = "building_context"
value model_calling = "model_calling"
value planning_tool = "planning_tool"
value policy_checking = "policy_checking"
value waiting_approval = "waiting_approval"
value executing_capability = "executing_capability"
value updating_context = "updating_context"
value composing_result = "composing_result"
value retrying = "retrying"
value interrupted = "interrupted"
value resuming = "resuming"
value completed = "completed"
value failed = "failed"
value denied = "denied"
value cancelled = "cancelled"
value budget_exceeded = "budget_exceeded"

-- `_TRANSITIONS`; a state with no entry would have the empty set, and every state has one.
unfoldable pub transitions : TurnState → List TurnState
transitions received = loading_session ∷ failed ∷ interrupted ∷ cancelled ∷ budget_exceeded ∷ []
transitions loading_session =
    building_context ∷ failed ∷ interrupted ∷ cancelled ∷ budget_exceeded ∷ []
transitions building_context =
    model_calling ∷ failed ∷ interrupted ∷ cancelled ∷ budget_exceeded ∷ []
transitions model_calling =
    composing_result ∷ planning_tool ∷ failed ∷ interrupted ∷ cancelled ∷ budget_exceeded ∷ []
transitions planning_tool =
    policy_checking ∷ composing_result ∷ model_calling ∷ failed ∷ interrupted ∷ cancelled
    ∷ budget_exceeded ∷ []
transitions policy_checking =
    executing_capability ∷ waiting_approval ∷ model_calling ∷ failed ∷ interrupted ∷ cancelled
    ∷ budget_exceeded ∷ []
transitions waiting_approval =
    executing_capability ∷ denied ∷ interrupted ∷ cancelled ∷ budget_exceeded ∷ []
transitions executing_capability =
    updating_context ∷ retrying ∷ failed ∷ interrupted ∷ cancelled ∷ budget_exceeded ∷ []
transitions updating_context =
    model_calling ∷ composing_result ∷ failed ∷ interrupted ∷ cancelled ∷ budget_exceeded ∷ []
transitions composing_result =
    completed ∷ model_calling ∷ failed ∷ interrupted ∷ cancelled ∷ budget_exceeded ∷ []
transitions retrying =
    model_calling ∷ executing_capability ∷ failed ∷ interrupted ∷ cancelled ∷ budget_exceeded ∷ []
transitions interrupted = resuming ∷ cancelled ∷ failed ∷ []
transitions resuming =
    loading_session ∷ building_context ∷ model_calling ∷ executing_capability ∷ failed ∷ []
transitions completed = received ∷ []
transitions failed = received ∷ []
transitions denied = received ∷ []
transitions cancelled = received ∷ []
transitions budget_exceeded = received ∷ []

pub record TurnStateMachine : Type 0 where
  pub state : TurnState

-- A new machine.
abbrev pub new : TurnStateMachine
new = record { state = received }

-- `target in allowed`.
unfoldable pub is_allowed : TurnState → TurnState → Bool
unfolding value transitions
is_allowed s target = one_of (value target) (map value (transitions s))

-- `transition`; `none` is the ValueError, which leaves the machine as it was.
unfoldable pub transition : TurnStateMachine → TurnState → Option TurnStateMachine
transition m target = if is_allowed m.state target then some (record m { state = target }) else none

-- A caller that asks for one transition after another, until one is refused.
unfoldable pub follow : TurnStateMachine → List TurnState → Option TurnStateMachine
follow m [] = some m
follow m (t ∷ ts) = elim (transition m t) [ none ↦ none | some m' ↦ follow m' ts ]
