-- ===== src/Policy/Safety.antt =====
-- governance/policy.py: what the built-in rules forbid, and what happens where none matches.
use cogito_agent.Prelude.{
  ◌≡◌, refl, String, Bool, true, false, ◌&&◌, ◌||◌, Option, none, List, [], ◌∷◌, ◌=s◌, arith, ap,
  any,
}
use cogito_agent.Policy.{
  DecisionType, deny, PolicyRequest, PolicyDecision, PolicyRule, matches, matched, first_match,
  interactive_rules, background_rules, evaluate_interactive, evaluate_background, evaluate_strategy,
  ModelAdapter, llm_fallback, new_engine, evaluate,
}

abbrev pub request : String → String → String → String → String → PolicyRequest
request actor capability resource operation context = record {
  actor_id = actor;
  capability_name = capability;
  resource = resource;
  operation = operation;
  context = context;
}

abbrev pub default_decision : Option ModelAdapter → PolicyRequest → DecisionType
default_decision llm r = (evaluate (new_engine none llm) r).decision

-- In the background the default engine denies every deletion, writes to workspace files and to
-- memories, shell execution and the reading of secrets, for every actor, every capability and
-- whatever the light model says.
pub background_hard_denies :
    (llm : Option ModelAdapter) (actor capability resource : String)
    → (default_decision llm (request actor capability resource "delete" "background") ≡ deny)
      × (default_decision llm (request actor capability "workspace_file" "write" "background")
          ≡ deny)
      × (default_decision llm (request actor capability "memory" "write" "background") ≡ deny)
      × (default_decision llm (request actor capability "shell" "execute" "background") ≡ deny)
      × (default_decision llm (request actor capability "secret" "read" "background") ≡ deny)
unfolding evaluate new_engine evaluate_strategy evaluate_interactive evaluate_background first_match
    matches matched
background_hard_denies llm actor capability resource = (refl, refl, refl, refl, refl)

-- The tests of a rule on the operation and the context alone.
abbrev admits : String → String → PolicyRule → Bool
admits operation context p =
    (p.context =s "*" || context =s p.context) && (p.operation =s "*" || operation =s p.operation)

matches-admits :
    (p : PolicyRule) (r : PolicyRequest)
    → matches p r ≡ true
    → admits r.operation r.context p ≡ true
unfolding matches
matches-admits p r h = ground arith

-- Where no rule admits the operation in the context, none matches.
pub first_match-none :
    (ps : List PolicyRule) (r : PolicyRequest)
    → any (admits r.operation r.context) ps ≡ false
    → first_match ps r ≡ none
unfolding first_match
first_match-none [] r h = refl
first_match-none (p ∷ ps) r h = ground (arith, matches-admits p r, first_match-none ps r)

-- Where neither built-in strategy decides, the fallback does.
pub default_fallback :
    (llm : Option ModelAdapter) (r : PolicyRequest)
    → evaluate_interactive r ≡ none
    → evaluate_background r ≡ none
    → evaluate (new_engine none llm) r ≡ llm_fallback llm r
unfolding evaluate new_engine evaluate_strategy
default_fallback llm r i b = ground arith

default_deny :
    (r : PolicyRequest)
    → evaluate_interactive r ≡ none
    → evaluate_background r ≡ none
    → default_decision none r ≡ deny
unfolding llm_fallback
default_deny r i b = ap (λ (d : PolicyDecision). d.decision) (default_fallback none r i b)

-- No built-in rule covers the operation `send` in the background: without a light model the
-- default engine denies it for every actor, resource and capability.
pub background_send_denied :
    (actor capability resource : String)
    → default_decision none (request actor capability resource "send" "background") ≡ deny
unfolding evaluate_background evaluate_interactive
background_send_denied actor capability resource =
    let r = request actor capability resource "send" "background" in
    default_deny r refl (rw (first_match-none background_rules r refl))

-- A request whose context is the raw source `cli` or `api` is decided by the three rules with a
-- context wildcard alone: any operation but `call_model`, `tool` and `send` is denied without a
-- light model, for every actor, capability and resource.
pub raw_source_denied :
    (actor capability resource operation : String)
    → (operation =s "call_model") ≡ false
    → (operation =s "tool") ≡ false
    → (operation =s "send") ≡ false
    → (default_decision none (request actor capability resource operation "cli") ≡ deny)
      × (default_decision none (request actor capability resource operation "api") ≡ deny)
unfolding evaluate_background evaluate_interactive
raw_source_denied actor capability resource operation a b c =
    let cli = request actor capability resource operation "cli" in
    let api = request actor capability resource operation "api" in
    (
      default_deny cli (rw (first_match-none interactive_rules cli (rw (a, b, c)))) refl,
      default_deny api (rw (first_match-none interactive_rules api (rw (a, b, c)))) refl,
    )

-- The rules that let a deletion of a workspace file by the assistant, and a background write of
-- an artifact by the scheduler, wait for an approval are never reached: the default engine
-- denies both requests, whatever the light model says.
pub shadowed_approvals :
    (llm : Option ModelAdapter) (capability : String)
    → (default_decision llm (request "assistant" capability "workspace_file" "delete" "interactive")
        ≡ deny)
      × (default_decision llm (request "scheduler" capability "artifact" "write" "background")
          ≡ deny)
unfolding evaluate new_engine evaluate_strategy evaluate_interactive evaluate_background first_match
    matches matched
shadowed_approvals llm capability = (refl, refl)
