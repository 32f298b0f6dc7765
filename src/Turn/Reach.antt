-- ===== src/Turn/Reach.antt =====
-- shared/state.py: what the transition table allows: endings, cancellation, completion.
use cogito_agent.Prelude.{◌≡◌, refl, Bool, true, false, not, ◌||◌, some, List, [], ◌∷◌, ◌=s◌}
use mathlib.Core.Bool.{or-false}
use cogito_agent.Turn.{TurnState, value, is_allowed, transition, follow}

-- The states in which a turn has ended.
abbrev pub is_final : TurnState → Bool
is_final TurnState.completed = true
is_final TurnState.failed = true
is_final TurnState.denied = true
is_final TurnState.cancelled = true
is_final TurnState.budget_exceeded = true
is_final _ = false

-- From a final state the table allows `received` and nothing else.
pub final_only_restarts :
    (s t : TurnState) → is_final s ≡ true → is_allowed s t ≡ (value t =s "received")
unfolding is_allowed
final_only_restarts TurnState.completed t h = rw or-false
final_only_restarts TurnState.failed t h = rw or-false
final_only_restarts TurnState.denied t h = rw or-false
final_only_restarts TurnState.cancelled t h = rw or-false
final_only_restarts TurnState.budget_exceeded t h = rw or-false
final_only_restarts _ t h = cc

-- A turn can be cancelled exactly when it is neither final nor resuming, and can be
-- interrupted exactly when besides it is not interrupted.
pub cancel_exact :
    (s : TurnState)
    → (is_allowed s TurnState.cancelled ≡ not (is_final s || value s =s "resuming"))
      × (is_allowed s TurnState.interrupted
          ≡ not (is_final s || value s =s "resuming" || value s =s "interrupted"))
unfolding is_allowed
cancel_exact TurnState.received = (refl, refl)
cancel_exact _ = (refl, refl)

-- A turn completes from `composing_result` only.
pub completed_after_composing :
    (s : TurnState) → is_allowed s TurnState.completed ≡ (value s =s "composing_result")
unfolding is_allowed
completed_after_composing TurnState.received = refl
completed_after_composing _ = refl

-- One way to completion from each state.
abbrev pub route : TurnState → List TurnState
route TurnState.composing_result = TurnState.completed ∷ []
route TurnState.model_calling = TurnState.composing_result ∷ TurnState.completed ∷ []
route TurnState.planning_tool = TurnState.composing_result ∷ TurnState.completed ∷ []
route TurnState.updating_context = TurnState.composing_result ∷ TurnState.completed ∷ []
route TurnState.loading_session =
    TurnState.building_context ∷ TurnState.model_calling ∷ TurnState.composing_result
    ∷ TurnState.completed ∷ []
route TurnState.received =
    TurnState.loading_session ∷ TurnState.building_context ∷ TurnState.model_calling
    ∷ TurnState.composing_result ∷ TurnState.completed ∷ []
route TurnState.building_context =
    TurnState.model_calling ∷ TurnState.composing_result ∷ TurnState.completed ∷ []
route TurnState.policy_checking =
    TurnState.model_calling ∷ TurnState.composing_result ∷ TurnState.completed ∷ []
route TurnState.retrying =
    TurnState.model_calling ∷ TurnState.composing_result ∷ TurnState.completed ∷ []
route TurnState.resuming =
    TurnState.model_calling ∷ TurnState.composing_result ∷ TurnState.completed ∷ []
route TurnState.executing_capability =
    TurnState.updating_context ∷ TurnState.composing_result ∷ TurnState.completed ∷ []
route TurnState.waiting_approval =
    TurnState.executing_capability ∷ TurnState.updating_context ∷ TurnState.composing_result
    ∷ TurnState.completed ∷ []
route TurnState.interrupted =
    TurnState.resuming ∷ TurnState.model_calling ∷ TurnState.composing_result ∷ TurnState.completed
    ∷ []
route _ =
    TurnState.received ∷ TurnState.loading_session ∷ TurnState.building_context
    ∷ TurnState.model_calling ∷ TurnState.composing_result ∷ TurnState.completed ∷ []

-- From every state some sequence of accepted transitions ends in `completed`.
pub completion_reachable :
    (s : TurnState)
    → (ts : List TurnState) × (follow (record { state = s }) ts
        ≡ some (record { state = TurnState.completed }))
unfolding follow transition is_allowed
completion_reachable TurnState.received = (route TurnState.received, refl)
completion_reachable s = (route s, refl)
