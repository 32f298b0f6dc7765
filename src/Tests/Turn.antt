-- ===== src/Tests/Turn.antt =====
-- The turn state machine (shared/state.py) at concrete turns.
use cogito_agent.Prelude.{◌≡◌, refl, true, none, some, List, [], ◌∷◌}
use cogito_agent.Turn.{TurnState, new, is_allowed, transition, follow}
use cogito_agent.Turn.Governed.{visits, policy_before_execution}

abbrev tool_turn : List TurnState
tool_turn =
    TurnState.loading_session ∷ TurnState.building_context ∷ TurnState.model_calling
    ∷ TurnState.planning_tool ∷ TurnState.policy_checking ∷ TurnState.executing_capability ∷ []

tool_turn_accepted : follow new tool_turn ≡ some (record { state = TurnState.executing_capability })
unfolding follow transition is_allowed
tool_turn_accepted = refl

no_short_cut : transition new TurnState.executing_capability ≡ none
unfolding transition is_allowed
no_short_cut = refl

policy_before_execution_example : visits TurnState.policy_checking tool_turn ≡ true
unfolding visits
policy_before_execution_example =
    policy_before_execution tool_turn (record { state = TurnState.executing_capability })
      tool_turn_accepted refl refl
