-- ===== src/Kernel/Tools.antt =====
-- runtime/kernel.py: `_dispatch_tools`, the tools that a model's answer asks for, and its follow-up.
use Prim.Native.String.{◌++◌ as append}
use cogito_agent.Prelude.{
  ℕ, ◌+◌, String, Bool, true, false, not, ◌&&◌, ◌||◌, Option, none, some, List, [], ◌∷◌, ◌++◌, any,
  ◌=s◌, if◌then◌else◌,
}
use cogito_agent.Executor.{ExecutionRequest, ExecutionResult, ResultStatus, ToolResult}
use cogito_agent.Executor.Steps.{execute}
use cogito_agent.Kernel.{
  RuntimeEvent, ToolIntent, ModelResponse, ModelReply, replied, raised, budget_error,
  approval_required_error, other_error, done, failure, Collected, KernelState, Kernel, Stage,
  and_then, can_call_tool,
}
use cogito_agent.Kernel.Model.{asked_once, build_context, calls_text}

abbrev pub first_registered : Kernel → String → List String → Option String
first_registered K name [] = none
first_registered K name (c ∷ cs) =
    let later = first_registered K name cs in
    if not (c =s name) && K.is_registered c then some c else later

-- `_resolve_tool_name`; the replacement of the first underscore always changes the name.
unfoldable pub resolve_tool_name : Kernel → String → Option String
resolve_tool_name K name =
    if (name =s "" || not (K.has_underscore name)) || not K.has_registry
    then none
    else first_registered K name (
        K.replace_all name "."
        ∷ K.replace_all name ":"
        ∷ K.replace_first name "."
        ∷ K.replace_first name ":"
        ∷ [])

abbrev pub tool_name : Kernel → String → String
tool_name K name =
    if K.has_registry then (elim (resolve_tool_name K name) [ none ↦ name | some n ↦ n ]) else name

abbrev pub tool_request : RuntimeEvent → String → ToolIntent → ExecutionRequest
tool_request e name i = record {
  capability_name = name;
  arguments = i.arguments;
  workspace_id = e.workspace_id;
  actor_id = e.actor_id;
  source = e.source;
  operation = "";
  resource = "";
  session_id = e.session_id;
  trace_id = e.trace_id;
  span_id = e.span_id;
  tool_call_id = i.tool_call_id;
}

abbrev pub refused : String → String → Collected
refused name reason = record { tool = name; summary = ""; error = some (append "Denied: " reason) }

abbrev error_of : Option ToolResult → Option String
error_of none = none
error_of (some t) = t.error

abbrev summary_of : Option ToolResult → String
summary_of none = ""
summary_of (some t) = t.summary

abbrev text_or : Option String → String → String
text_or none d = d
text_or (some t) d = if t =s "" then d else t

abbrev status_of : Option ToolResult → String
status_of none = "error"
status_of (some t) = if t.status =s "ok" then "ok" else "error"

abbrev pub called : KernelState → KernelState
called s = record s { tool_call_count = s.tool_call_count + 1 }

abbrev succeeded : String → ExecutionResult → KernelState → Stage Collected
succeeded name x s = (
  record s {
    tool_results =
        s.tool_results
        ++ record {
          tool = name;
          summary = summary_of x.tool_result;
          status = status_of x.tool_result;
        }
          ∷ [];
  },
  done (record { tool = name; summary = summary_of x.tool_result; error = error_of x.tool_result }),
)

-- What follows an execution.
abbrev pub after_execution : String → ExecutionResult → KernelState → Stage Collected
after_execution name x s = elim x.status [
  | ResultStatus.approval_required ↦
      (s, failure (approval_required_error (append "Approval required for " name) x.approval_id))
  | ResultStatus.denied ↦ (s, done (refused name x.reason))
  | ResultStatus.not_found ↦ (s, done (refused name x.reason))
  | ResultStatus.error ↦ (
    called s,
    failure (other_error (text_or (error_of x.tool_result) "Capability execution failed")),
  )
  | ResultStatus.ok ↦ succeeded name x (called s)
]

-- One tool with a name, within the budget.
unfoldable pub dispatch_tool : Kernel → RuntimeEvent → ToolIntent → KernelState → Stage Collected
unfolding resolve_tool_name execute
dispatch_tool K e i s =
    let name = tool_name K i.capability_name in
    if not (can_call_tool K.budget s.tool_call_count)
    then (s, failure (budget_error (calls_text "Tool" K s.tool_call_count K.budget.max_tool_calls)))
    else elim K.executor [
      | none ↦ (
        s,
        done (record { tool = name; summary = ""; error = some "Capability executor unavailable" }),
      )
      | some x ↦
          let r = execute x (tool_request e name i) s.executor in
          after_execution name r.1 (record s { executor = r.0 })
    ]

-- The loop over the tools that are asked for; those without a name are passed over.
unfoldable pub dispatch_intents :
    Kernel → RuntimeEvent → List ToolIntent → List Collected → KernelState → Stage (List Collected)
unfolding dispatch_tool
dispatch_intents K e [] collected s = (s, done collected)
dispatch_intents K e (i ∷ is) collected s =
    let skipped = dispatch_intents K e is collected s in
    let met =
      and_then (dispatch_tool K e i s) (λ c s'. dispatch_intents K e is (collected ++ c ∷ []) s') in
    if i.capability_name =s "" then skipped else met

abbrev is_nonempty : List Collected → Bool
is_nonempty [] = false
is_nonempty (_ ∷ _) = true

abbrev invoked : Kernel → Collected → Bool
invoked K c = elim c.error [ none ↦ true | some e ↦ not (K.mentions_denied e) ]

-- The event of the follow-up, which has no text and no image.
abbrev pub tool_event : RuntimeEvent → RuntimeEvent
tool_event e = record e { is_user_message = false; text = ""; has_content = false }

-- The follow-up call of the model, which is not repeated.
unfoldable pub ask_again : (ℕ → ModelReply) → KernelState → Stage ModelResponse
ask_again chat s =
    let s1 = asked_once s in
    elim (chat s.asked) [
      | raised x ↦ (s1, failure (other_error x))
      | replied r ↦ (record s1 { model_call_count = s1.model_call_count + 1 }, done r)
    ]

-- The follow-up, with a context of its own.
unfoldable pub follow_up :
    Kernel → RuntimeEvent → (ℕ → ModelReply) → KernelState → Stage ModelResponse
unfolding ask_again
follow_up K e chat s = and_then (build_context K (tool_event e) s) (λ _ s1. ask_again chat s1)

abbrev pub answered_with :
    Kernel → RuntimeEvent → ModelResponse → List Collected → KernelState → Stage ModelResponse
answered_with K e resp collected s = elim K.chat [
  | none ↦ (s, done resp)
  | some chat ↦
      if is_nonempty collected && any (invoked K) collected
      then follow_up K e chat s
      else (s, done resp)
]

-- `_dispatch_tools`
unfoldable pub dispatch_tools :
    Kernel → RuntimeEvent → ModelResponse → KernelState → Stage ModelResponse
unfolding dispatch_intents follow_up
dispatch_tools K e resp s =
    and_then (dispatch_intents K e resp.tool_intents [] s)
      (λ collected s1. answered_with K e resp collected s1)
