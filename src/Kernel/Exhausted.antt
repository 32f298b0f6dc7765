-- ===== src/Kernel/Exhausted.antt =====
-- runtime/kernel.py: the turns of a kernel whose model calls are used up.
use cogito_agent.Prelude.{
  not, if◌then◌else◌, ◌=s◌, ◌≡◌, inr, refl, String, true, false, Option, some, List, [], ◌∷◌,
  if-cases, ◌∙◌,
}
use cogito_agent.Turn.{TurnState, transition, is_allowed}
use cogito_agent.Kernel.{
  RuntimeEvent, TurnError, budget_error, policy_denied_error, approval_required_error, other_error,
  done, failure, KernelState, Kernel, Stage, can_call_model, write, trace_started, trace_ended,
  user_message_saved,
}
use cogito_agent.Kernel.Model.{
  move, check_budget_model, build_context, save_user_message, store_user_message, enter_context,
  pre_model_phase,
}
use cogito_agent.Kernel.Process.{run_turn, settle, restart, process, TurnResult, is_final}
use cogito_agent.Kernel.Rules.{Post, and_then-Post, option_rule}
use cogito_agent.Kernel.Settled.{At}
use cogito_agent.Kernel.Ends.{MayBegin, FailsQuietly, failed_move, restart-At}

abbrev Quiet : KernelState → KernelState → Type 0
Quiet s t =
    (t.asked ≡ s.asked) × (t.executor ≡ s.executor) × (t.model_call_count ≡ s.model_call_count)

-- The turn raises an exception that ends in `failed`, with nothing called.
abbrev Refused : KernelState → TurnError → KernelState → Type 0
Refused s (budget_error x) t = (is_allowed t.machine.state TurnState.failed ≡ true) × Quiet s t
Refused s (other_error x) t = (is_allowed t.machine.state TurnState.failed ≡ true) × Quiet s t
Refused s (policy_denied_error x) t = ⊥
Refused s (approval_required_error x id) t = ⊥

abbrev Holds : KernelState → TurnState → KernelState → Type 0
Holds s st t = At st t × Quiet s t

module _ (K : Kernel) (e : RuntimeEvent) (s : KernelState) where
  move-Holds :
      (from to : TurnState) (t : KernelState)
      → Holds s from t
      → is_allowed from to ≡ true
      → Post (λ _ u. Holds s to u) (Refused s) (move to t)
  unfolding move transition
  move-Holds from to t (at, quiet) ok = rw (move, transition, at, ok) (refl, quiet)

  save_user_message-Holds :
      (t : KernelState)
      → Holds s TurnState.loading_session t
      → Post (λ _ u. Holds s TurnState.loading_session u) (Refused s) (save_user_message K e t)
  unfolding is_allowed
  save_user_message-Holds t held =
      let P = Post {A = Unit} (λ _ u. Holds s TurnState.loading_session u) (Refused s) in
      if-cases P (if e.text =s "" then e.has_content else not (K.is_blank e.text))
        (store_user_message K e t) (t, done tt)
        (λ h.
          option_rule P (K.persist_user e) (write user_message_saved t, done tt)
            (λ x. (t, failure (other_error x))) held (λ x. (rw held.0 refl, held.1)))
        (λ h. held)

  enter_context-Holds :
      (t : KernelState)
      → Holds s TurnState.loading_session t
      → Post (λ _ u. Holds s TurnState.building_context u) (Refused s) (enter_context K e t)
  unfolding is_allowed
  enter_context-Holds t held =
      and_then-Post (λ _ u. Holds s TurnState.loading_session u)
        (λ _ u. Holds s TurnState.building_context u) (Refused s) (save_user_message K e t) _
        (save_user_message-Holds t held)
        (λ _ u h. move-Holds TurnState.loading_session TurnState.building_context u h refl)

  build_context-Holds :
      (t : KernelState)
      → Holds s TurnState.building_context t
      → Post (λ _ u. Holds s TurnState.building_context u) (Refused s) (build_context K e t)
  unfolding is_allowed
  build_context-Holds t held =
      option_rule (Post (λ _ u. Holds s TurnState.building_context u) (Refused s)) (K.context e)
        (t, done tt) (λ x. (t, failure (other_error x))) held (λ x. (rw held.0 refl, held.1))

  budget-Refused :
      (t : KernelState)
      → can_call_model K.budget s.model_call_count ≡ false
      → Holds s TurnState.model_calling t
      → Post (λ _ u. ⊥) (Refused s) (check_budget_model K e t)
  unfolding check_budget_model is_allowed
  budget-Refused t spent held =
      let still : can_call_model K.budget t.model_call_count ≡ false = rw held.1.2 spent in
      rw still (rw held.0 refl, held.1)

  pre_model_phase-Refused :
      can_call_model K.budget s.model_call_count ≡ false
      → At TurnState.received s
      → Post (λ _ u. ⊥) (Refused s) (pre_model_phase K e s)
  unfolding pre_model_phase is_allowed
  pre_model_phase-Refused spent at =
      and_then-Post (λ _ u. Holds s TurnState.loading_session u) (λ _ u. ⊥) (Refused s)
        (move TurnState.loading_session s) _
        (move-Holds TurnState.received TurnState.loading_session s (at, (refl, refl, refl)) refl)
        (λ _ s1 held1.
          and_then-Post (λ _ u. Holds s TurnState.building_context u) (λ _ u. ⊥) (Refused s)
            (enter_context K e s1) _ (enter_context-Holds s1 held1)
            (λ _ s2 held2.
              and_then-Post (λ _ u. Holds s TurnState.building_context u) (λ _ u. ⊥) (Refused s)
                (build_context K e s2) _ (build_context-Holds s2 held2)
                (λ _ s3 held3.
                  and_then-Post (λ _ u. Holds s TurnState.model_calling u) (λ _ u. ⊥) (Refused s)
                    (move TurnState.model_calling s3) _
                    (move-Holds TurnState.building_context TurnState.model_calling s3 held3 refl)
                    (λ _ s4 held4.
                      and_then-Post (λ _ u. ⊥) (λ _ u. ⊥) (Refused s) (check_budget_model K e s4) _
                        (budget-Refused s4 spent held4) (λ _ s5 none_here. elim none_here [ ])))))

  run_turn-Refused :
      can_call_model K.budget s.model_call_count ≡ false
      → At TurnState.received s
      → Post (λ _ u. ⊥) (Refused s) (run_turn K e s)
  unfolding run_turn
  run_turn-Refused spent at =
      and_then-Post (λ _ u. ⊥) (λ _ u. ⊥) (Refused s) (pre_model_phase K e s) _
        (pre_model_phase-Refused spent at) (λ _ t none_here. elim none_here [ ])

-- The turn failed with nothing called, and no model call was counted.
abbrev pub FailsUncounted : KernelState → KernelState × Option TurnResult → Type 0
FailsUncounted s out = FailsQuietly s out × (out.0.model_call_count ≡ s.model_call_count)

settle-Quiet :
    (s : KernelState) (x : Stage String)
    → Post (λ _ u. ⊥) (Refused s) x
    → let r = settle x in FailsUncounted s (write trace_ended r.0, some r.1)
unfolding settle
settle-Quiet s (t, done r) none_here = elim none_here [ ]
settle-Quiet s (t, failure (budget_error x)) (ok, quiet) =
    rw (failed_move t ok) (((_, refl, refl), refl, quiet.0, quiet.1), quiet.2)
settle-Quiet s (t, failure (other_error x)) (ok, quiet) =
    rw (failed_move t ok) (((_, refl, refl), refl, quiet.0, quiet.1), quiet.2)
settle-Quiet s (t, failure (policy_denied_error x)) none_here = elim none_here [ ]
settle-Quiet s (t, failure (approval_required_error x id)) none_here = elim none_here [ ]

restart-Quiet : (s : KernelState) → Quiet s (restart s)
unfolding restart
restart-Quiet s =
    if-cases (Quiet s) (is_final s.machine.state) _ _ (λ h. (refl, refl, refl))
      (λ h. (refl, refl, refl))

exhausted_turn :
    (K : Kernel) (e : RuntimeEvent) (s : KernelState)
    → K.has_presence ≡ false
    → MayBegin s
    → can_call_model K.budget s.model_call_count ≡ false
    → FailsUncounted s (process K e s)
unfolding process
exhausted_turn K e s off begins spent =
    let s1 = write trace_started (restart s) in
    let (asked, ran, count) = restart-Quiet s in
    let spent1 : can_call_model K.budget s1.model_call_count ≡ false = rw count spent in
    let ((r, failed, same_asked, same_ran), same_count) =
      settle-Quiet s1 (run_turn K e s1) (run_turn-Refused K e s1 spent1 (restart-At s begins)) in
    rw off ((r, failed, same_asked ∙ asked, same_ran ∙ ran), same_count ∙ count)

-- Every turn of the list fails, one after the other.
abbrev pub AllFail : Kernel → List RuntimeEvent → KernelState → Type 0
AllFail K [] s = Unit
AllFail K (e ∷ es) s =
    let later = AllFail K es (process K e s).0 in FailsUncounted s (process K e s) × later

-- Without a presence tracker, once a kernel's model calls are used up and a turn may begin, every
-- turn from then on fails, without a call of the model or of a tool: the counter is not reset.
pub exhausted-AllFail :
    (K : Kernel) (es : List RuntimeEvent) (s : KernelState)
    → K.has_presence ≡ false
    → MayBegin s
    → can_call_model K.budget s.model_call_count ≡ false
    → AllFail K es s
exhausted-AllFail K [] s off begins spent = tt
exhausted-AllFail K (e ∷ es) s off begins spent =
    let fails = exhausted_turn K e s off begins spent in
    let out = (process K e s).0 in
    let final : is_final out.machine.state ≡ true = rw fails.0.1 refl in
    let still : can_call_model K.budget out.model_call_count ≡ false = rw fails.1 spent in
    (fails, exhausted-AllFail K es out off (inr final) still)
