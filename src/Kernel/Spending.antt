-- ===== src/Kernel/Spending.antt =====
-- runtime/kernel.py: the numbers of model calls and of tool calls in the stages of a turn, up to the
-- answer of the model.
use cogito_agent.Prelude.{
  ℕ, zero, suc, ◌+◌, ◌*◌, ◌≤◌, inl, inr, String, not, ◌&&◌, arith, if◌then◌else◌, if-cases, ltb,
  ◌=s◌,
}
use cogito_agent.Turn.{TurnState, transition}
use cogito_agent.Executor.Steps.{is_deny}
use cogito_agent.Kernel.{
  RuntimeEvent, ModelReply, done, failure, KernelState, Kernel, Stage, and_then, can_call_model,
}
use cogito_agent.Kernel.Model.{
  ask_vision, vision_error, run_vision_pipeline, see_images, move, check_budget_model,
  check_model_policy, model_policy_request, save_user_message, message_of, pre_model_phase,
  retry_with_backoff, paused, asked_once, generate_reply,
}
use cogito_agent.Kernel.Rules.{Post, option_rule}
use cogito_agent.Kernel.Settled.{Reply-cases}

-- At most `k` more model calls are counted and the adapter is asked at most `a` times more, and the
-- count of tool calls does not go over its budget.
abbrev pub Spends : Kernel → ℕ → ℕ → KernelState → KernelState → Type 0
Spends K k a s s' =
    (s'.model_call_count ≤ s.model_call_count + k)
    × (s'.asked ≤ s.asked + a)
    × (s.tool_call_count ≤ K.budget.max_tool_calls → s'.tool_call_count ≤ K.budget.max_tool_calls)

-- A stage that spends so much, whether it returns or raises.
abbrev pub Within : {A : Type 0} → Kernel → ℕ → ℕ → KernelState → Stage A → Type 0
Within K k a s x = Post (λ r s'. Spends K k a s s') (λ e s'. Spends K k a s s') x

module _ (K : Kernel) where
  pub same-Spends : (s : KernelState) → Spends K 0 0 s s
  same-Spends s = (omega arith, omega arith, λ h. h)

  pub Spends-then :
      (k a k' a' : ℕ) (s t u : KernelState)
      → Spends K k a s t
      → Spends K k' a' t u
      → Spends K (k + k') (a + a') s u
  Spends-then k a k' a' s t u f g =
      (omega (arith, f.0, g.0), omega (arith, f.1, g.1), λ h. g.2 (f.2 h))

  pub Spends-more :
      (k a k' a' : ℕ) (s t : KernelState) → k ≤ k' → a ≤ a' → Spends K k a s t → Spends K k' a' s t
  Spends-more k a k' a' s t h j f = (omega (arith, f.0), omega (arith, f.1), f.2)

  pub moved-Within :
      {B : Type 0} (k a k' a' : ℕ) (s u : KernelState) (y : Stage B)
      → Spends K k a s u
      → Within K k' a' u y
      → Within K (k + k') (a + a') s y
  moved-Within k a k' a' s u (t, done b) h g = Spends-then k a k' a' s u t h g
  moved-Within k a k' a' s u (t, failure e) h g = Spends-then k a k' a' s u t h g

  pub Within-more :
      {B : Type 0} (k a k' a' : ℕ) (s : KernelState) (y : Stage B)
      → k ≤ k'
      → a ≤ a'
      → Within K k a s y
      → Within K k' a' s y
  Within-more k a k' a' s (t, done b) h j g = Spends-more k a k' a' s t h j g
  Within-more k a k' a' s (t, failure e) h j g = Spends-more k a k' a' s t h j g

  -- The rule of sequence adds up what the stages spend.
  pub and_then-Within :
      {A B : Type 0} (k a k' a' : ℕ) (s : KernelState) (x : Stage A)
      (next : A → KernelState → Stage B)
      → Within K k a s x
      → ((r : A) (t : KernelState) → Within K k' a' t (next r t))
      → Within K (k + k') (a + a') s (and_then x next)
  and_then-Within k a k' a' s (t, failure e) next h f =
      Spends-more k a (k + k') (a + a') s t (omega arith) (omega arith) h
  and_then-Within k a k' a' s (t, done r) next h f = moved-Within k a k' a' s t (next r t) h (f r t)

  pub seq :
      {A B : Type 0} (k a k' a' m b : ℕ) (s : KernelState)
      → k + k' ≤ m
      → a + a' ≤ b
      → (x : Stage A) (next : A → KernelState → Stage B) → Within K k a s x
      → ((r : A) (t : KernelState) → Within K k' a' t (next r t))
      → Within K m b s (and_then x next)
  seq k a k' a' m b s h j x next f g =
      Within-more (k + k') (a + a') m b s (and_then x next) h j
        (and_then-Within k a k' a' s x next f g)

  pub move-Within : (to : TurnState) (s : KernelState) → Within K 0 0 s (move to s)
  unfolding move
  move-Within to s =
      option_rule (Within K 0 0 s) (transition s.machine to) _ _ (same-Spends s)
        (λ m. same-Spends s)

  save_user_message-Within :
      (e : RuntimeEvent) (s : KernelState) → Within K 0 0 s (save_user_message K e s)
  save_user_message-Within e s =
      if-cases (Within K 0 0 s) (if e.text =s "" then e.has_content else not (K.is_blank e.text)) _
        _
        (λ h.
          option_rule (Within K 0 0 s) (K.persist_user e) _ _ (same-Spends s) (λ x. same-Spends s))
        (λ h. same-Spends s)

  budget-Within : (e : RuntimeEvent) (s : KernelState) → Within K 0 0 s (check_budget_model K e s)
  unfolding check_budget_model
  budget-Within e s =
      if-cases (Within K 0 0 s) (not (can_call_model K.budget s.model_call_count)) _ _
        (λ h. same-Spends s)
        (λ h.
          if-cases (Within K 0 0 s) (ltb (K.budget.max_wall_time_seconds * 1000000) (K.elapsed e)) _
            _ (λ k. same-Spends s) (λ k. same-Spends s))

  policy-Within : (e : RuntimeEvent) (s : KernelState) → Within K 0 0 s (check_model_policy K e s)
  unfolding check_model_policy
  policy-Within e s =
      if-cases (Within K 0 0 s) (is_deny (K.policy (model_policy_request e)).decision) _ _
        (λ h. same-Spends s) (λ h. same-Spends s)

  pub pre_model_phase-Within :
      (e : RuntimeEvent) (s : KernelState) → Within K 0 0 s (pre_model_phase K e s)
  unfolding pre_model_phase
  pre_model_phase-Within e s =
      and_then-Within 0 0 0 0 s _ _ (move-Within TurnState.loading_session s) (λ _ s1.
        and_then-Within 0 0 0 0 s1 _ _
          (and_then-Within 0 0 0 0 s1 (save_user_message K e s1) _ (save_user_message-Within e s1)
            (λ _ u. move-Within TurnState.building_context u))
          (λ _ s2.
            and_then-Within 0 0 0 0 s2 _ _
              (option_rule (Within K 0 0 s2) (K.context e) _ _ (same-Spends s2)
                (λ x. same-Spends s2))
              (λ _ s3.
                and_then-Within 0 0 0 0 s3 _ _ (move-Within TurnState.model_calling s3) (λ _ s4.
                  and_then-Within 0 0 0 0 s4 _ _ (budget-Within e s4)
                    (λ _ s5. policy-Within e s5)))))

  retry-Within :
      (chat : ℕ → ModelReply) (n left : ℕ) (last : String) (s : KernelState)
      → Within K 0 left s (retry_with_backoff chat n left last s)
  unfolding retry_with_backoff
  retry-Within chat n zero last s = same-Spends s
  retry-Within chat n (suc left) last s = elim (Reply-cases (chat s.asked)) [
    | inl (m, h) ↦ rw (retry_with_backoff, h) (omega arith, omega arith, λ k. k)
    | inr (x, h) ↦
        let u = paused n left (asked_once s) in
        let rest = retry_with_backoff chat (suc n) left x u in
        rw (retry_with_backoff, h)
          (Within-more (0 + 0) (1 + left) 0 (suc left) s rest (omega arith) (omega arith) (
            moved-Within 0 1 0 left s u rest (pause n left s) (retry-Within chat (suc n) left x u)))
  ]
    where
      pause : (n left : ℕ) (s : KernelState) → Spends K 0 1 s (paused n left (asked_once s))
      pause n zero s = (omega arith, omega arith, λ k. k)
      pause n (suc left) s = (omega arith, omega arith, λ k. k)

  ask_vision-Within :
      (chat : ℕ → ModelReply) (s : KernelState) → Within K 0 1 s (ask_vision K chat s)
  unfolding ask_vision
  ask_vision-Within chat s =
      let asked : Spends K 0 1 s (asked_once s) = (omega arith, omega arith, λ k. k) in
      elim (Reply-cases (chat s.asked)) [
        | inl (m, h) ↦
            rw (ask_vision, h)
              (option_rule (Within K 0 1 s) (vision_error K m) _ _ asked (λ x. asked))
        | inr (x, h) ↦ rw (ask_vision, h) asked
      ]

  see_images-Within :
      (e : RuntimeEvent) (chat : ℕ → ModelReply) (s : KernelState)
      → Within K 1 1 s (see_images K e chat s)
  unfolding run_vision_pipeline
  see_images-Within e chat s =
      let free = Spends-more 0 0 1 1 s s (omega arith) (omega arith) (same-Spends s) in
      let P = Within {A = Unit} K 1 1 s in
      if-cases P (K.delegates_vision e) _ _
        (λ h.
          if-cases P K.has_vision _ _
            (λ v.
              if-cases P (K.inspects e) _ _ (λ i. free)
                (λ i.
                  Within-more 0 1 1 1 s (ask_vision K chat s) (omega arith) (omega arith)
                    (ask_vision-Within chat s)))
            (λ v.
              and_then-Within 0 1 1 0 s (ask_vision K chat s) _ (ask_vision-Within chat s)
                (λ _ t. (omega arith, omega arith, λ k. k))))
        (λ h. free)

  pub generate_reply-Within :
      (e : RuntimeEvent) (s : KernelState) → Within K 2 4 s (generate_reply K e s)
  unfolding generate_reply
  generate_reply-Within e s =
      let free = Spends-more 0 0 2 4 s s (omega arith) (omega arith) (same-Spends s) in
      if-cases (Within K 2 4 s) (K.is_blank (message_of e) && not e.has_content) _ _ (λ h. free)
        (λ h. option_rule (Within K 2 4 s) K.chat _ _ free (λ chat.
          and_then-Within 1 1 1 3 s (see_images K e chat s) _ (see_images-Within e chat s) (λ _ s1.
            and_then-Within 0 3 1 0 s1 _ _ (retry-Within chat 0 3 "" s1)
              (λ m t. (omega arith, omega arith, λ k. k)))))
