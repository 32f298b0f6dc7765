-- ===== src/Kernel/Turned.antt =====
-- runtime/kernel.py: the state that the machine is left in by the tools, and by a whole turn.
use cogito_agent.Prelude.{
  ℕ, zero, suc, ◌≡◌, inl, inr, refl, String, not, ◌&&◌, List, [], ◌∷◌, ◌++◌, if-cases, ◌=s◌,
}
use cogito_agent.Turn.{TurnState, is_allowed}
use cogito_agent.Executor.{ResultStatus, ExecutionResult}
use cogito_agent.Executor.Steps.{execute}
use cogito_agent.Kernel.{
  RuntimeEvent, ToolIntent, ModelResponse, ModelReply, done, Collected, KernelState, Kernel,
  can_call_tool,
}
use cogito_agent.Kernel.Model.{build_context}
use cogito_agent.Kernel.Tools.{
  dispatch_tool, dispatch_intents, after_execution, tool_name, tool_request, tool_event, ask_again,
  follow_up, answered_with, dispatch_tools,
}
use cogito_agent.Kernel.Process.{
  tool_rounds, wants_tools, last_answer, save_reply, answer_of, after_turn, run_turn,
}
use cogito_agent.Kernel.Rules.{and_then-Post, option_rule}
use cogito_agent.Kernel.Settled.{
  At, Leads, Raises, Reply-cases, generate_reply-Leads, may_fail, move-Leads, pre_model_phase-Leads,
}

after_execution-Leads :
    (name : String) (x : ExecutionResult) (s : KernelState)
    → At TurnState.planning_tool s
    → Leads TurnState.planning_tool (after_execution name x s)
unfolding is_allowed
after_execution-Leads name x s at = go x.status refl
  where
    go :
        (st : ResultStatus)
        → x.status ≡ st
        → Leads TurnState.planning_tool (after_execution name x s)
    go ResultStatus.approval_required h = rw h at
    go ResultStatus.denied h = rw h at
    go ResultStatus.not_found h = rw h at
    go ResultStatus.error h = rw h (may_fail TurnState.planning_tool s at refl)
    go ResultStatus.ok h = rw h at

dispatch_tool-Leads :
    (K : Kernel) (e : RuntimeEvent) (i : ToolIntent) (s : KernelState)
    → At TurnState.planning_tool s
    → Leads TurnState.planning_tool (dispatch_tool K e i s)
unfolding dispatch_tool is_allowed
dispatch_tool-Leads K e i s at =
    if-cases (Leads TurnState.planning_tool) (not (can_call_tool K.budget s.tool_call_count)) _ _
      (λ h. may_fail TurnState.planning_tool s at refl)
      (λ h. option_rule (Leads TurnState.planning_tool) K.executor _ _ at (λ x.
        let r = execute x (tool_request e (tool_name K i.capability_name) i) s.executor in
        after_execution-Leads (tool_name K i.capability_name) r.1 (record s { executor = r.0 }) at))

dispatch_intents-Leads :
    (K : Kernel) (e : RuntimeEvent) (is : List ToolIntent) (collected : List Collected)
    (s : KernelState)
    → At TurnState.planning_tool s
    → Leads TurnState.planning_tool (dispatch_intents K e is collected s)
unfolding dispatch_intents
dispatch_intents-Leads K e [] collected s at = at
dispatch_intents-Leads K e (i ∷ is) collected s at =
    if-cases (Leads TurnState.planning_tool) (i.capability_name =s "") _ _
      (λ h. dispatch_intents-Leads K e is collected s at)
      (λ h.
        and_then-Post (λ _ s. At TurnState.planning_tool s) (λ _ s. At TurnState.planning_tool s)
          Raises (dispatch_tool K e i s) _ (dispatch_tool-Leads K e i s at)
          (λ c s1 at1. dispatch_intents-Leads K e is (collected ++ c ∷ []) s1 at1))

ask_again-Leads :
    (chat : ℕ → ModelReply) (s : KernelState)
    → At TurnState.planning_tool s
    → Leads TurnState.planning_tool (ask_again chat s)
unfolding ask_again is_allowed
ask_again-Leads chat s at = elim (Reply-cases (chat s.asked)) [
  | inl (m, h) ↦ rw (ask_again, h) at
  | inr (x, h) ↦ rw (ask_again, h) (may_fail TurnState.planning_tool s at refl)
]

follow_up-Leads :
    (K : Kernel) (e : RuntimeEvent) (chat : ℕ → ModelReply) (s : KernelState)
    → At TurnState.planning_tool s
    → Leads TurnState.planning_tool (follow_up K e chat s)
unfolding follow_up is_allowed
follow_up-Leads K e chat s at =
    and_then-Post (λ _ s. At TurnState.planning_tool s) (λ _ s. At TurnState.planning_tool s) Raises
      (build_context K (tool_event e) s) (λ _ s1. ask_again chat s1)
      (option_rule (Leads TurnState.planning_tool) (K.context (tool_event e)) _ _ at
        (λ x. may_fail TurnState.planning_tool s at refl))
      (λ _ s1 at1. ask_again-Leads chat s1 at1)

dispatch_tools-Leads :
    (K : Kernel) (e : RuntimeEvent) (r : ModelResponse) (s : KernelState)
    → At TurnState.planning_tool s
    → Leads TurnState.planning_tool (dispatch_tools K e r s)
unfolding dispatch_tools
dispatch_tools-Leads K e r s at =
    and_then-Post (λ _ s. At TurnState.planning_tool s) (λ _ s. At TurnState.planning_tool s) Raises
      (dispatch_intents K e r.tool_intents [] s) (answered_with K e r)
      (dispatch_intents-Leads K e r.tool_intents [] s at)
      (λ collected s1 at1. option_rule (Leads TurnState.planning_tool) K.chat _ _ at1 (λ chat.
        if-cases (Leads TurnState.planning_tool) _ (follow_up K e chat s1) (s1, done r)
          (λ h. follow_up-Leads K e chat s1 at1) (λ h. at1)))

tool_rounds-Leads :
    (K : Kernel) (e : RuntimeEvent) (left : ℕ) (r : ModelResponse) (s : KernelState)
    → At TurnState.planning_tool s
    → Leads TurnState.planning_tool (tool_rounds K e left r s)
unfolding tool_rounds
tool_rounds-Leads K e zero r s at = at
tool_rounds-Leads K e (suc left) r s at =
    if-cases (Leads TurnState.planning_tool) (wants_tools r && K.has_registry) _ _
      (λ h.
        and_then-Post (λ _ s. At TurnState.planning_tool s) (λ _ s. At TurnState.planning_tool s)
          Raises (dispatch_tools K e r s) _ (dispatch_tools-Leads K e r s at)
          (λ r1 s1 at1. tool_rounds-Leads K e left r1 s1 at1))
      (λ h. at)

after_turn-Leads :
    (K : Kernel) (e : RuntimeEvent) (r : ModelResponse) (s : KernelState)
    → At TurnState.planning_tool s
    → Leads TurnState.completed (after_turn K e r s)
unfolding after_turn is_allowed
after_turn-Leads K e r s at =
    and_then-Post (λ _ s. At TurnState.composing_result s) (λ _ s. At TurnState.completed s) Raises
      _ _ (move-Leads TurnState.planning_tool TurnState.composing_result s at refl)
      (λ _ s1 at1.
        and_then-Post (λ _ s. At TurnState.composing_result s) (λ _ s. At TurnState.completed s)
          Raises (save_reply K e (answer_of r) s1) _
          (option_rule (Leads TurnState.composing_result) (K.persist e) _ _ at1
            (λ x. may_fail TurnState.composing_result s1 at1 refl))
          (λ _ s2 at2.
            and_then-Post (λ _ s. At TurnState.completed s) (λ _ s. At TurnState.completed s) Raises
              _ _ (move-Leads TurnState.composing_result TurnState.completed _ at2 refl)
              (λ _ s4 at4. at4)))

pub run_turn-Leads :
    (K : Kernel) (e : RuntimeEvent) (s : KernelState)
    → At TurnState.received s
    → Leads TurnState.completed (run_turn K e s)
unfolding run_turn is_allowed
run_turn-Leads K e s at =
    and_then-Post (λ _ s. At TurnState.model_calling s) (λ _ s. At TurnState.completed s) Raises _ _
      (pre_model_phase-Leads K e s at)
      (λ _ s1 at1.
        and_then-Post (λ _ s. At TurnState.model_calling s) (λ _ s. At TurnState.completed s) Raises
          _ _ (generate_reply-Leads K e s1 at1)
          (λ r s2 at2.
            and_then-Post (λ _ s. At TurnState.planning_tool s) (λ _ s. At TurnState.completed s)
              Raises _ _ (move-Leads TurnState.model_calling TurnState.planning_tool s2 at2 refl)
              (λ _ s3 at3.
                and_then-Post (λ _ s. At TurnState.planning_tool s)
                  (λ _ s. At TurnState.completed s) Raises _ _
                  (tool_rounds-Leads K e K.max_tool_rounds r s3 at3)
                  (λ x s4 at4. after_turn-Leads K e (last_answer x) s4 at4))))
