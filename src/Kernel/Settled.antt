-- ===== src/Kernel/Settled.antt =====
-- runtime/kernel.py: the state that the machine is left in by the stages of a turn, up to the answer of
-- the model.
use cogito_agent.Prelude.{
  ◌*◌, ℕ, zero, suc, ◌≡◌, ◌⊎◌, inl, inr, refl, String, true, not, ◌&&◌, if-cases, ltb,
  if◌then◌else◌, ◌=s◌,
}
use cogito_agent.Turn.{TurnState, transition, is_allowed}
use cogito_agent.Executor.Steps.{is_deny}
use cogito_agent.Kernel.{
  RuntimeEvent, ModelResponse, ModelReply, replied, raised, TurnError, budget_error,
  policy_denied_error, approval_required_error, other_error, done, failure, KernelState, Kernel,
  Stage, can_call_model,
}
use cogito_agent.Kernel.Model.{
  move, check_budget_model, check_model_policy, model_policy_request, build_context, enter_context,
  vision_error, ask_vision, run_vision_pipeline, see_images, save_user_message, message_of,
  pre_model_phase, retry_with_backoff, paused, asked_once, counted, generate_reply,
}
use cogito_agent.Kernel.Rules.{Post, and_then-Post, option_rule}

abbrev pub At : TurnState → KernelState → Type 0
At st s = s.machine.state ≡ st

-- The state of the machine where a turn raises: as it must be for the exception, and one from which
-- `failed` is allowed where the turn fails.
abbrev pub Raises : TurnError → KernelState → Type 0
Raises (policy_denied_error x) s = At TurnState.model_calling s
Raises (approval_required_error x id) s = At TurnState.planning_tool s
Raises (budget_error x) s = is_allowed s.machine.state TurnState.failed ≡ true
Raises (other_error x) s = is_allowed s.machine.state TurnState.failed ≡ true

-- A stage from one state of the machine to another.
abbrev pub Leads : {A : Type 0} → TurnState → Stage A → Type 0
Leads to x = Post (λ a s. At to s) Raises x

pub move-Leads :
    (from to : TurnState) (s : KernelState)
    → At from s
    → is_allowed from to ≡ true
    → Leads to (move to s)
unfolding move transition
move-Leads from to s at ok = rw (move, transition, at, ok) refl

pub may_fail :
    (st : TurnState) (s : KernelState)
    → At st s
    → is_allowed st TurnState.failed ≡ true
    → is_allowed s.machine.state TurnState.failed ≡ true
may_fail st s at ok = rw at ok

save_user_message-At :
    (K : Kernel) (e : RuntimeEvent) (st : TurnState) (s : KernelState)
    → At st s
    → is_allowed st TurnState.failed ≡ true
    → Leads st (save_user_message K e s)
save_user_message-At K e st s at ok =
    if-cases (Leads st) (if e.text =s "" then e.has_content else not (K.is_blank e.text)) _ _
      (λ h. option_rule (Leads st) (K.persist_user e) _ _ at (λ x. may_fail st s at ok)) (λ h. at)

enter_context-Leads :
    (K : Kernel) (e : RuntimeEvent) (s : KernelState)
    → At TurnState.loading_session s
    → Leads TurnState.building_context (enter_context K e s)
unfolding is_allowed
enter_context-Leads K e s at =
    and_then-Post (λ _ s. At TurnState.loading_session s) (λ _ s. At TurnState.building_context s)
      Raises (save_user_message K e s) _
      (save_user_message-At K e TurnState.loading_session s at refl)
      (λ _ s1 at1. move-Leads TurnState.loading_session TurnState.building_context s1 at1 refl)

build_context-Leads :
    (K : Kernel) (e : RuntimeEvent) (s : KernelState)
    → At TurnState.building_context s
    → Leads TurnState.building_context (build_context K e s)
unfolding is_allowed
build_context-Leads K e s at =
    option_rule (Leads TurnState.building_context) (K.context e) (s, done tt)
      (λ x. (s, failure (other_error x))) at (λ x. may_fail TurnState.building_context s at refl)

budget-Leads :
    (K : Kernel) (e : RuntimeEvent) (s : KernelState)
    → At TurnState.model_calling s
    → Leads TurnState.model_calling (check_budget_model K e s)
unfolding check_budget_model is_allowed
budget-Leads K e s at =
    let fails = may_fail TurnState.model_calling s at refl in
    if-cases (Leads TurnState.model_calling) (not (can_call_model K.budget s.model_call_count)) _ _
      (λ h. fails)
      (λ h.
        if-cases (Leads TurnState.model_calling)
          (ltb (K.budget.max_wall_time_seconds * 1000000) (K.elapsed e)) _ _ (λ k. fails) (λ k. at))

policy-Leads :
    (K : Kernel) (e : RuntimeEvent) (s : KernelState)
    → At TurnState.model_calling s
    → Leads TurnState.model_calling (check_model_policy K e s)
unfolding check_model_policy
policy-Leads K e s at =
    if-cases (Leads TurnState.model_calling) (is_deny (K.policy (model_policy_request e)).decision)
      _ _ (λ h. at) (λ h. at)

pub pre_model_phase-Leads :
    (K : Kernel) (e : RuntimeEvent) (s : KernelState)
    → At TurnState.received s
    → Leads TurnState.model_calling (pre_model_phase K e s)
unfolding pre_model_phase is_allowed
pre_model_phase-Leads K e s at =
    and_then-Post (λ _ s. At TurnState.loading_session s) (λ _ s. At TurnState.model_calling s)
      Raises _ _ (move-Leads TurnState.received TurnState.loading_session s at refl)
      (λ _ s1 at1.
        and_then-Post (λ _ s. At TurnState.building_context s) (λ _ s. At TurnState.model_calling s)
          Raises _ _ (enter_context-Leads K e s1 at1)
          (λ _ s2 at2.
            and_then-Post (λ _ s. At TurnState.building_context s)
              (λ _ s. At TurnState.model_calling s) Raises _ _ (build_context-Leads K e s2 at2)
              (λ _ s3 at3.
                and_then-Post (λ _ s. At TurnState.model_calling s)
                  (λ _ s. At TurnState.model_calling s) Raises _ _
                  (move-Leads TurnState.building_context TurnState.model_calling s3 at3 refl)
                  (λ _ s4 at4.
                    and_then-Post (λ _ s. At TurnState.model_calling s)
                      (λ _ s. At TurnState.model_calling s) Raises _ _ (budget-Leads K e s4 at4)
                      (λ _ s5 at5. policy-Leads K e s5 at5)))))

pub Reply-cases :
    (r : ModelReply) → ((m : ModelResponse) × (r ≡ replied m)) ⊎ ((x : String) × (r ≡ raised x))
Reply-cases (replied m) = inl (m, refl)
Reply-cases (raised x) = inr (x, refl)

paused-At : (n left : ℕ) (st : TurnState) (s : KernelState) → At st s → At st (paused n left s)
paused-At n zero st s at = at
paused-At n (suc left) st s at = at

retry-Leads :
    (chat : ℕ → ModelReply) (n left : ℕ) (last : String) (s : KernelState)
    → At TurnState.model_calling s
    → Leads TurnState.model_calling (retry_with_backoff chat n left last s)
unfolding retry_with_backoff is_allowed
retry-Leads chat n zero last s at = may_fail TurnState.model_calling s at refl
retry-Leads chat n (suc left) last s at = elim (Reply-cases (chat s.asked)) [
  | inl (m, h) ↦ rw (retry_with_backoff, h) at
  | inr (x, h) ↦
      rw (retry_with_backoff, h)
        (retry-Leads chat (suc n) left x (paused n left (asked_once s))
          (paused-At n left TurnState.model_calling (asked_once s) at))
]

ask_vision-Leads :
    (K : Kernel) (chat : ℕ → ModelReply) (s : KernelState)
    → At TurnState.model_calling s
    → Leads TurnState.model_calling (ask_vision K chat s)
unfolding ask_vision is_allowed
ask_vision-Leads K chat s at =
    let fails = may_fail TurnState.model_calling s at refl in
    elim (Reply-cases (chat s.asked)) [
      | inl (m, h) ↦
          rw (ask_vision, h)
            (option_rule (Leads TurnState.model_calling) (vision_error K m) _ _ at (λ x. fails))
      | inr (x, h) ↦ rw (ask_vision, h) fails
    ]

see_images-Leads :
    (K : Kernel) (e : RuntimeEvent) (chat : ℕ → ModelReply) (s : KernelState)
    → At TurnState.model_calling s
    → Leads TurnState.model_calling (see_images K e chat s)
unfolding run_vision_pipeline
see_images-Leads K e chat s at =
    let P = Leads {A = Unit} TurnState.model_calling in
    if-cases P (K.delegates_vision e) _ _
      (λ h.
        if-cases P K.has_vision _ _
          (λ v. if-cases P (K.inspects e) _ _ (λ i. at) (λ i. ask_vision-Leads K chat s at))
          (λ v.
            and_then-Post (λ _ s. At TurnState.model_calling s)
              (λ _ s. At TurnState.model_calling s) Raises (ask_vision K chat s) _
              (ask_vision-Leads K chat s at) (λ _ s1 at1. at1)))
      (λ h. at)

pub generate_reply-Leads :
    (K : Kernel) (e : RuntimeEvent) (s : KernelState)
    → At TurnState.model_calling s
    → Leads TurnState.model_calling (generate_reply K e s)
unfolding generate_reply
generate_reply-Leads K e s at =
    if-cases (Leads TurnState.model_calling) (K.is_blank (message_of e) && not e.has_content) _ _
      (λ h. at)
      (λ h. option_rule (Leads TurnState.model_calling) K.chat _ _ at (λ chat.
        and_then-Post (λ _ s. At TurnState.model_calling s) (λ _ s. At TurnState.model_calling s)
          Raises (see_images K e chat s) _ (see_images-Leads K e chat s at)
          (λ _ s1 at1.
            and_then-Post (λ _ s. At TurnState.model_calling s)
              (λ _ s. At TurnState.model_calling s) Raises (retry_with_backoff chat 0 3 "" s1)
              counted (retry-Leads chat 0 3 "" s1 at1) (λ m s2 at2. at2))))
