-- ===== src/Kernel/Model.antt =====
-- runtime/kernel.py: the checks before a model call, and the call with its retries.
use Prim.Native.String.{◌++◌ as append}
use cogito_agent.Prelude.{
  ◌=s◌, Option, ℕ, zero, suc, ◌+◌, ◌*◌, ◌^◌, String, not, ◌&&◌, none, some, [], ◌∷◌, ◌++◌, ltb,
  or_else, if◌then◌else◌,
}
use cogito_agent.Turn.{TurnState, value, transition}
use cogito_agent.Policy.{PolicyRequest}
use cogito_agent.Executor.Steps.{is_deny}
use cogito_agent.Kernel.{
  RuntimeEvent, ModelResponse, ModelReply, replied, raised, budget_error, policy_denied_error,
  TurnError, other_error, done, failure, user_message_saved, model_denied, model_call_logged,
  KernelState, Kernel, Stage, and_then, write, can_call_model,
}

-- The text of the ValueError.
unfoldable pub refusal_text : TurnState → TurnState → String
unfolding value
refusal_text from to =
    append "Invalid transition: " (append (value from) (append " -> " (value to)))

-- `_transition`; a refused one raises ValueError and leaves the machine as it was.
unfoldable pub move : TurnState → KernelState → Stage Unit
unfolding transition refusal_text
move target s = elim (transition s.machine target) [
  | none ↦ (s, failure (other_error (refusal_text s.machine.state target)))
  | some m ↦ (record s { machine = m }, done tt)
]

-- `_safe_transition`
unfoldable pub safe_move : TurnState → KernelState → KernelState
unfolding transition
safe_move target s = elim (transition s.machine target) [
  | none ↦ s
  | some m ↦ record s { machine = m }
]

-- The text of a BudgetError on calls.
abbrev pub calls_text : String → Kernel → ℕ → ℕ → String
calls_text what K made most = append what (
    append " call budget exceeded ("
      (append (K.show_count made) (append "/" (append (K.show_count most) ")"))))

abbrev wall_clock_text : Kernel → RuntimeEvent → String
wall_clock_text K e = append "Wall clock budget exceeded (" (
    append (K.show_elapsed (K.elapsed e))
      (append "s > " (append (K.show_count K.budget.max_wall_time_seconds) "s)")))

-- `_check_budget_model`
unfoldable pub check_budget_model : Kernel → RuntimeEvent → KernelState → Stage Unit
check_budget_model K e s =
    if not (can_call_model K.budget s.model_call_count)
    then (
      s,
      failure (budget_error (calls_text "Model" K s.model_call_count K.budget.max_model_calls)),
    )
    else if ltb (K.budget.max_wall_time_seconds * 1000000) (K.elapsed e)
    then (s, failure (budget_error (wall_clock_text K e)))
    else (s, done tt)

abbrev pub model_policy_request : RuntimeEvent → PolicyRequest
model_policy_request e = record {
  actor_id = e.actor_id;
  capability_name = "*";
  resource = "model_provider";
  operation = "call_model";
  context = e.source;
}

-- `_check_model_policy`
unfoldable pub check_model_policy : Kernel → RuntimeEvent → KernelState → Stage Unit
check_model_policy K e s =
    let d = K.policy (model_policy_request e) in
    if is_deny d.decision
    then (
      write model_denied s,
      failure (policy_denied_error (append "Model call denied: " d.reason)),
    )
    else (s, done tt)

-- `_persist_user_message`, where there is something to save.
-- The message store may raise.
abbrev pub store_user_message : Kernel → RuntimeEvent → KernelState → Stage Unit
store_user_message K e s = elim (K.persist_user e) [
  | none ↦ (write user_message_saved s, done tt)
  | some x ↦ (s, failure (other_error x))
]

abbrev pub save_user_message : Kernel → RuntimeEvent → KernelState → Stage Unit
save_user_message K e s =
    if (if e.text =s "" then e.has_content else not (K.is_blank e.text))
    then store_user_message K e s
    else (s, done tt)

abbrev pub enter_context : Kernel → RuntimeEvent → KernelState → Stage Unit
enter_context K e s =
    and_then (save_user_message K e s) (λ _ s1. move TurnState.building_context s1)

abbrev pub message_of : RuntimeEvent → String
message_of e = if e.is_user_message then e.text else ""

-- `_build_context`, which may raise.
abbrev pub build_context : Kernel → RuntimeEvent → KernelState → Stage Unit
build_context K e s = elim (K.context e) [
  | none ↦ (s, done tt)
  | some x ↦ (s, failure (other_error x))
]

-- `_run_pre_model_phase`
unfoldable pub pre_model_phase : Kernel → RuntimeEvent → KernelState → Stage Unit
unfolding move check_budget_model check_model_policy
pre_model_phase K e s = and_then (move TurnState.loading_session s) (λ _ s1.
    and_then (enter_context K e s1) (λ _ s2. and_then (build_context K e s2) (λ _ s3.
      and_then (move TurnState.model_calling s3)
        (λ _ s4. and_then (check_budget_model K e s4) (λ _ s5. check_model_policy K e s5)))))

abbrev pub paused : ℕ → ℕ → KernelState → KernelState
paused n zero s = s
paused n (suc left) s = record s { slept = s.slept ++ 5 * 2 ^ n ∷ [] }

abbrev pub asked_once : KernelState → KernelState
asked_once s = record s { asked = s.asked + 1 }

-- `_retry_with_backoff` around the model call, with the attempts that are left.
unfoldable pub retry_with_backoff :
    (ℕ → ModelReply) → ℕ → ℕ → String → KernelState → Stage ModelResponse
retry_with_backoff chat n zero last s = (s, failure (other_error last))
retry_with_backoff chat n (suc left) last s =
    let s1 = asked_once s in
    let later = λ (x : String). retry_with_backoff chat (suc n) left x (paused n left s1) in
    elim (chat s.asked) [ replied r ↦ (s1, done r) | raised x ↦ later x ]

abbrev pub plain : String → ModelResponse
plain text = record { content = text; tool_intents = []; error = none }

abbrev pub counted : ModelResponse → KernelState → Stage ModelResponse
counted r s =
    (write model_call_logged (record s { model_call_count = s.model_call_count + 1 }), done r)

abbrev pub vision_failed : String → TurnError
vision_failed x = other_error (
    append "Vision analysis failed: "
      (append x ". Cannot proceed with primary model - images cannot be directly processed."))

-- The error of an answer to the analysis of an image.
abbrev pub vision_error : Kernel → ModelResponse → Option String
vision_error K r = elim r.error [
  | none ↦ K.observation_error r
  | some x ↦ if x =s "" then K.observation_error r else some (append "Vision model error: " x)
]

abbrev pub observed : Kernel → ModelResponse → KernelState → Stage Unit
observed K r s = elim (vision_error K r) [
  | none ↦ (s, done tt)
  | some x ↦ (s, failure (vision_failed x))
]

-- The fallback of `VisionPipeline.run_pipeline`, which asks the model itself, once.
unfoldable pub ask_vision : Kernel → (ℕ → ModelReply) → KernelState → Stage Unit
ask_vision K chat s = elim (chat s.asked) [
  | raised x ↦ (asked_once s, failure (vision_failed x))
  | replied r ↦ observed K r (write model_call_logged (asked_once s))
]

-- `_run_vision_pipeline`: the call is counted unless there is a capable vision service.
unfoldable pub run_vision_pipeline :
    Kernel → RuntimeEvent → (ℕ → ModelReply) → KernelState → Stage Unit
unfolding ask_vision
run_vision_pipeline K e chat s =
    if K.has_vision
    then (if K.inspects e then (s, done tt) else ask_vision K chat s)
    else and_then (ask_vision K chat s)
        (λ _ s1. (record s1 { model_call_count = s1.model_call_count + 1 }, done tt))

-- What `_build_model_messages` does before the call.
abbrev pub see_images : Kernel → RuntimeEvent → (ℕ → ModelReply) → KernelState → Stage Unit
see_images K e chat s =
    if K.delegates_vision e then run_vision_pipeline K e chat s else (s, done tt)

-- `_generate_reply`, with its three attempts.
unfoldable pub generate_reply : Kernel → RuntimeEvent → KernelState → Stage ModelResponse
unfolding retry_with_backoff run_vision_pipeline
generate_reply K e s =
    if K.is_blank (message_of e) && not e.has_content
    then (s, done (plain "I didn't receive any message."))
    else elim K.chat [
      | none ↦ (s, done (plain (append "You said: " (or_else (message_of e) " "))))
      | some chat ↦
          and_then (see_images K e chat s)
            (λ _ s1. and_then (retry_with_backoff chat 0 3 "" s1) counted)
    ]
