-- ===== src/Turn/Governed.antt =====
-- shared/state.py: the policy check on the way to the execution of a capability.
use cogito_agent.Prelude.{
  ◌≡◌, ◌⊎◌, inl, inr, refl, Bool, true, false, some, List, [], ◌∷◌, arith, any, ◌=s◌, =s_refl, ◌≢◌,
  Option, none, sym, ◌∙◌,
}
use cogito_agent.Turn.{TurnState, TurnStateMachine, value, is_allowed, transition, follow, new}

-- The states that a turn enters only behind a policy check.
abbrev pub needs_policy : TurnState → Bool
needs_policy TurnState.policy_checking = true
needs_policy TurnState.waiting_approval = true
needs_policy TurnState.executing_capability = true
needs_policy TurnState.updating_context = true
needs_policy TurnState.retrying = true
needs_policy TurnState.denied = true
needs_policy _ = false

-- `s` stands among the states that were asked for.
unfoldable pub visits : TurnState → List TurnState → Bool
unfolding value
visits s ts = any (λ t. value t =s value s) ts

to_executing :
    (s : TurnState)
    → is_allowed s TurnState.executing_capability ≡ true
    → (needs_policy s ≡ true) ⊎ (s ≡ TurnState.resuming)
unfolding is_allowed
to_executing TurnState.resuming h = inr refl
to_executing TurnState.received h = cc
to_executing _ h = ground arith

to_waiting :
    (s : TurnState) → is_allowed s TurnState.waiting_approval ≡ true → needs_policy s ≡ true
unfolding is_allowed
to_waiting TurnState.received h = cc
to_waiting _ h = cc

to_updating :
    (s : TurnState) → is_allowed s TurnState.updating_context ≡ true → needs_policy s ≡ true
unfolding is_allowed
to_updating TurnState.received h = cc
to_updating _ h = cc

to_retrying : (s : TurnState) → is_allowed s TurnState.retrying ≡ true → needs_policy s ≡ true
unfolding is_allowed
to_retrying TurnState.received h = cc
to_retrying _ h = cc

to_denied : (s : TurnState) → is_allowed s TurnState.denied ≡ true → needs_policy s ≡ true
unfolding is_allowed
to_denied TurnState.received h = cc
to_denied _ h = cc

-- One step into such a state is the policy check, or starts in such a state or in `resuming`.
step_needs_policy :
    (s t : TurnState)
    → is_allowed s t ≡ true
    → needs_policy t ≡ true
    → (t ≡ TurnState.policy_checking) ⊎ ((needs_policy s ≡ true) ⊎ (s ≡ TurnState.resuming))
step_needs_policy s TurnState.policy_checking h n = inl refl
step_needs_policy s TurnState.waiting_approval h n = inr (inl (to_waiting s h))
step_needs_policy s TurnState.executing_capability h n = inr (to_executing s h)
step_needs_policy s TurnState.updating_context h n = inr (inl (to_updating s h))
step_needs_policy s TurnState.retrying h n = inr (inl (to_retrying s h))
step_needs_policy s TurnState.denied h n = inr (inl (to_denied s h))
step_needs_policy s _ h n = cc

visits_head : (s t : TurnState) (ts : List TurnState) → t ≡ s → visits s (t ∷ ts) ≡ true
unfolding visits
visits_head s t ts e = rw e (rw =s_refl)

visits_tail :
    (s t : TurnState) (ts : List TurnState) → visits s ts ≡ true → visits s (t ∷ ts) ≡ true
unfolding visits
visits_tail s t ts h = ground arith

not_visits_cons :
    (s t : TurnState) (ts : List TurnState)
    → visits s (t ∷ ts) ≡ false
    → (t ≢ s) × (visits s ts ≡ false)
not_visits_cons s t ts h = (λ e. cc (visits_head s t ts e), ground (arith, visits_tail s t ts))

-- An accepted request sets the state that was asked for, and was in the table.
transition_lem :
    (m m' : TurnStateMachine) (t : TurnState)
    → transition m t ≡ some m'
    → (is_allowed m.state t ≡ true) × (m'.state ≡ t)
unfolding transition
transition_lem m m' t h = ground arith

-- A sequence that is accepted whole begins with an accepted request.
follow-cons :
    (m m' : TurnStateMachine) (t : TurnState) (ts : List TurnState)
    → follow m (t ∷ ts) ≡ some m'
    → (n : TurnStateMachine) × (transition m t ≡ some n) × (follow n ts ≡ some m')
unfolding follow
follow-cons m m' t ts h = go (transition m t) refl
  where
    go :
        (o : Option TurnStateMachine)
        → transition m t ≡ o
        → (n : TurnStateMachine) × (transition m t ≡ some n) × (follow n ts ≡ some m')
    go none e = cc (rw (e, follow) at h)
    go (some n) e = (n, e, rw (e, follow) at h)

follow_nil :
    (m m' : TurnStateMachine)
    → follow m [] ≡ some m'
    → needs_policy m'.state ≡ true
    → needs_policy m.state ≡ true
unfolding follow
follow_nil m m' f n = cc

step_first :
    (s t : TurnState) (ts : List TurnState)
    → s ≢ TurnState.resuming
    → is_allowed s t ≡ true
    → needs_policy t ≡ true
    → (needs_policy s ≡ true) ⊎ (visits TurnState.policy_checking (t ∷ ts) ≡ true)
step_first s t ts r ok n = elim (step_needs_policy s t ok n) [
  | inl check ↦ inr (visits_head TurnState.policy_checking t ts check)
  | inr (inl before) ↦ inl before
  | inr (inr resumed) ↦ absurd (r resumed)
]

follow-needs_policy :
    (ts : List TurnState) (m m' : TurnStateMachine)
    → m.state ≢ TurnState.resuming
    → follow m ts ≡ some m'
    → visits TurnState.resuming ts ≡ false
    → needs_policy m'.state ≡ true
    → (needs_policy m.state ≡ true) ⊎ (visits TurnState.policy_checking ts ≡ true)
follow-needs_policy [] m m' r f v n = inl (follow_nil m m' f n)
follow-needs_policy (t ∷ ts) m m' r f v n =
    let (k, first, rest) = follow-cons m m' t ts f in
    let (ok, set) = transition_lem m k t first in
    let (not_here, later) = not_visits_cons TurnState.resuming t ts v in
    elim (follow-needs_policy ts k m' (λ e. not_here (sym set ∙ e)) rest later n) [
      | inr seen ↦ inr (visits_tail TurnState.policy_checking t ts seen)
      | inl now ↦ step_first m.state t ts r ok (rw (← set) now)
    ]

-- A turn that starts in `received` and follows accepted transitions, none of them into
-- `resuming`, and that stands in `waiting_approval`, `executing_capability`,
-- `updating_context`, `retrying`, `denied` or `policy_checking`, has passed `policy_checking`.
pub policy_before_execution :
    (ts : List TurnState) (m : TurnStateMachine)
    → follow new ts ≡ some m
    → visits TurnState.resuming ts ≡ false
    → needs_policy m.state ≡ true
    → visits TurnState.policy_checking ts ≡ true
policy_before_execution ts m f v n = elim (follow-needs_policy ts new m (λ e. cc) f v n) [
  | inl absurd_start ↦ cc
  | inr seen ↦ seen
]
