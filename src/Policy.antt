-- ===== src/Policy.antt =====
-- shared/policy.py and governance/policy.py: rules, strategies and the policy engine.
pub mod Safety
pub mod Dispatch
use Prim.Native.String.{◌++◌ as append}
use cogito_agent.Prelude.{
  String, Bool, true, false, ◌&&◌, ◌||◌, Option, none, some, List, [], ◌∷◌, map, one_of, ◌=s◌,
  if◌then◌else◌,
}

pub data DecisionType : Type 0 where
  allow allow_with_audit require_approval deny escalate : DecisionType

pub record PolicyRequest : Type 0 where
  pub actor_id : String
  pub capability_name : String
  pub resource : String
  pub operation : String
  pub context : String

pub record PolicyDecision : Type 0 where
  pub decision : DecisionType
  pub reason : String
  pub approval_id : Option String

pub record PolicyRule : Type 0 where
  pub actor : String
  pub operation : String
  pub context : String
  pub decision : DecisionType
  pub capability : String
  pub resource : String

abbrev pub rule : String → String → String → DecisionType → String → String → PolicyRule
rule a o c d k r = record {
  actor = a;
  operation = o;
  context = c;
  decision = d;
  capability = k;
  resource = r;
}

-- `PolicyRule.matches`: `all` of the five tests.
unfoldable pub matches : PolicyRule → PolicyRequest → Bool
matches p r =
    (p.actor =s "*" || r.actor_id =s p.actor)
    && ((p.operation =s "*" || r.operation =s p.operation)
        && ((p.context =s "*" || r.context =s p.context)
            && ((p.capability =s "*" || r.capability_name =s p.capability)
                && (p.resource =s "*" || r.resource =s p.resource))))

-- `_INTERACTIVE_SOURCES` and `_BACKGROUND_SOURCES`.
abbrev pub interactive_sources : List String
interactive_sources = "interactive" ∷ "cli" ∷ "api" ∷ []

abbrev pub background_sources : List String
background_sources = "background" ∷ "quiet_hours" ∷ "scheduler" ∷ "webhook" ∷ "skill" ∷ []

-- `InteractiveStrategy._RULES`
abbrev pub interactive_rules : List PolicyRule
interactive_rules =
    rule "assistant" "delete" "interactive" deny "*" "workspace_file"
    ∷ rule "assistant" "write" "interactive" require_approval "*" "workspace_file"
    ∷ rule "assistant" "write" "interactive" require_approval "*" "memory"
    ∷ rule "assistant" "write" "interactive" allow_with_audit "*" "trace_log"
    ∷ rule "assistant" "read" "interactive" allow_with_audit "*" "workspace_file"
    ∷ rule "assistant" "scan" "interactive" allow_with_audit "*" "workspace_file"
    ∷ rule "assistant" "search" "interactive" allow_with_audit "*" "workspace_file"
    ∷ rule "assistant" "write" "interactive" require_approval "*" "artifact"
    ∷ rule "assistant" "delete" "interactive" require_approval "*" "workspace_file"
    ∷ rule "user" "read" "interactive" allow_with_audit "*" "workspace_file"
    ∷ rule "user" "read" "interactive" allow "*" "memory"
    ∷ rule "skill" "read" "interactive" allow_with_audit "*" "workspace_file"
    ∷ rule "skill" "scan" "interactive" allow_with_audit "*" "workspace_file"
    ∷ rule "skill" "search" "interactive" allow_with_audit "*" "workspace_file"
    ∷ rule "skill" "write" "interactive" allow_with_audit "*" "artifact"
    ∷ rule "*" "call_model" "*" allow "*" "*"
    ∷ rule "*" "tool" "*" allow "*" "*"
    ∷ rule "*" "send" "*" allow_with_audit "notification.send" "*"
    ∷ []

-- `BackgroundStrategy._RULES`
abbrev pub background_rules : List PolicyRule
background_rules =
    rule "*" "delete" "background" deny "*" "*"
    ∷ rule "*" "write" "background" deny "*" "workspace_file"
    ∷ rule "*" "write" "background" deny "*" "memory"
    ∷ rule "*" "execute" "background" deny "*" "shell"
    ∷ rule "*" "read" "background" deny "*" "secret"
    ∷ rule "skill" "call" "background" deny "*" "network"
    ∷ rule "scheduler" "notify" "quiet_hours" deny "*" "*"
    ∷ rule "scheduler" "write" "background" deny "*" "artifact"
    ∷ rule "scheduler" "execute" "background" allow_with_audit "*" "*"
    ∷ rule "scheduler" "write" "background" require_approval "*" "artifact"
    ∷ rule "scheduler" "read" "background" allow_with_audit "*" "workspace_file"
    ∷ rule "scheduler" "scan" "background" allow_with_audit "*" "workspace_file"
    ∷ rule "scheduler" "search" "background" allow_with_audit "*" "workspace_file"
    ∷ rule "skill" "write" "background" require_approval "*" "artifact"
    ∷ rule "maintenance" "execute" "background" allow_with_audit "*" "database"
    ∷ rule "*" "notify" "background" allow_with_audit "*" "*"
    ∷ rule "*" "read" "background" allow_with_audit "*" "workspace_file"
    ∷ rule "*" "call_model" "background" allow_with_audit "*" "*"
    ∷ rule "*" "call_tool" "background" allow_with_audit "*" "*"
    ∷ []

abbrev pub decide : DecisionType → String → PolicyDecision
decide d why = record { decision = d; reason = why; approval_id = none }

matched_reason : PolicyRule → String
matched_reason p = append "Matched rule: actor=" (append p.actor (append ", op=" p.operation))

unfoldable pub matched : PolicyRule → PolicyDecision
unfolding matched_reason
matched p = decide p.decision (matched_reason p)

-- The loop over the rules: the first that matches.
unfoldable pub first_match : List PolicyRule → PolicyRequest → Option PolicyRule
first_match [] r = none
first_match (p ∷ ps) r = if matches p r then some p else first_match ps r

abbrev pub by_rules : Option PolicyRule → Option PolicyDecision
by_rules none = none
by_rules (some p) = some (matched p)

-- `InteractiveStrategy.evaluate` and `BackgroundStrategy.evaluate`.
unfoldable pub evaluate_interactive : PolicyRequest → Option PolicyDecision
evaluate_interactive r =
    if one_of r.context interactive_sources
    then by_rules (first_match interactive_rules r)
    else none

unfoldable pub evaluate_background : PolicyRequest → Option PolicyDecision
evaluate_background r =
    if one_of r.context background_sources then by_rules (first_match background_rules r) else none

-- The light model's answer once parsed: the decision stripped and in lower case, and the reason
-- cut to 200 characters.
pub record Judgement : Type 0 where
  pub decision : String
  pub reason : String

-- The adapter's chat and the JSON parser are outside: `none` is any exception that they raise.
abbrev pub ModelAdapter : Type 0
ModelAdapter = PolicyRequest → Option Judgement

-- `decision_map.get(decision_str, DecisionType.deny)`
unfoldable pub judged : String → DecisionType
judged s =
    if s =s "allow"
    then allow_with_audit
    else if s =s "deny"
    then deny
    else if s =s "require_approval"
    then require_approval
    else deny

-- `FallbackStrategy._llm_fallback`
unfoldable pub llm_fallback : Option ModelAdapter → PolicyRequest → PolicyDecision
unfolding judged
llm_fallback none r = decide deny "No matching policy rule and no LLM fallback"
llm_fallback (some llm) r = elim (llm r) [
  | none ↦ decide deny "LLM fallback failed, denied by default"
  | some j ↦ decide (judged j.decision) (append "LLM fallback: " j.reason)
]

abbrev pub is_escalate : DecisionType → Bool
is_escalate escalate = true
is_escalate _ = false

abbrev custom_result : Option PolicyRule → Option PolicyDecision
custom_result none = none
custom_result (some p) = if is_escalate p.decision then none else some (matched p)

-- `CustomRulesStrategy.evaluate`: a first match that escalates hands over.
unfoldable pub evaluate_custom : List PolicyRule → PolicyRequest → Option PolicyDecision
evaluate_custom rules r = custom_result (first_match rules r)

-- The subclasses of `PolicyStrategy`.
pub data PolicyStrategy : Type 0 where
  interactive : PolicyStrategy
  background : PolicyStrategy
  fallback : Option ModelAdapter → PolicyStrategy
  custom_rules : List PolicyRule → PolicyStrategy

unfoldable pub evaluate_strategy : PolicyStrategy → PolicyRequest → Option PolicyDecision
evaluate_strategy interactive r = evaluate_interactive r
evaluate_strategy background r = evaluate_background r
evaluate_strategy (fallback llm) r = some (llm_fallback llm r)
evaluate_strategy (custom_rules rules) r = evaluate_custom rules r

-- `has_fallback` is the presence of the attribute `_fallback`.
pub record PolicyEngine : Type 0 where
  pub llm : Option ModelAdapter
  pub has_fallback : Bool
  pub strategies : List PolicyStrategy

-- `PolicyEngine.__init__`
unfoldable pub new_engine : Option (List PolicyRule) → Option ModelAdapter → PolicyEngine
new_engine (some rules) l = record {
  llm = l;
  has_fallback = false;
  strategies = custom_rules rules ∷ fallback l ∷ [];
}
new_engine none l = record {
  llm = l;
  has_fallback = true;
  strategies = interactive ∷ background ∷ fallback l ∷ [];
}

-- `FallbackStrategy.set_llm_adapter`, on the one strategy object that is the fallback.
abbrev set_fallback : Option ModelAdapter → PolicyStrategy → PolicyStrategy
set_fallback l (fallback old) = fallback l
set_fallback l s = s

-- `PolicyEngine.set_llm_adapter`; the second part is false where `self._fallback` is missing and
-- AttributeError is raised.
unfoldable pub set_llm_adapter :
    PolicyEngine → Option ModelAdapter → record { engine : PolicyEngine; completed : Bool }
set_llm_adapter e l =
    if e.has_fallback
    then record {
      engine = record e { llm = l; strategies = map (set_fallback l) e.strategies };
      completed = true;
    }
    else record { engine = record e { llm = l }; completed = false }

-- The loop of `PolicyEngine.evaluate`.
unfoldable pub first_decision : List PolicyStrategy → PolicyRequest → PolicyDecision
first_decision [] r = decide deny "No policy strategy matched the request"
first_decision (s ∷ ss) r = elim (evaluate_strategy s r) [ some d ↦ d | none ↦ first_decision ss r ]

unfoldable pub evaluate : PolicyEngine → PolicyRequest → PolicyDecision
unfolding first_decision
evaluate e r = first_decision e.strategies r
