-- ===== src/Tests/Policy.antt =====
-- The policy engine (governance/policy.py) at concrete requests.
use cogito_agent.Prelude.{◌≡◌, refl, none, some, List, [], ◌∷◌}
use cogito_agent.Policy.{
  deny, allow, require_approval, PolicyRule, rule, new_engine, evaluate, evaluate_strategy,
  evaluate_interactive, first_match, matches, matched, ModelAdapter,
}
use cogito_agent.Policy.Safety.{request, default_decision, background_hard_denies}

abbrev lenient : ModelAdapter
lenient = λ r. some (record { decision = "allow"; reason = "fine" })

background_hard_denies_example :
    (default_decision (some lenient) (request "skill" "fs" "x" "delete" "background") ≡ deny)
    × (default_decision (some lenient) (request "skill" "fs" "workspace_file" "write" "background")
        ≡ deny)
    × (default_decision (some lenient) (request "skill" "fs" "memory" "write" "background") ≡ deny)
    × (default_decision (some lenient) (request "skill" "fs" "shell" "execute" "background") ≡ deny)
    × (default_decision (some lenient) (request "skill" "fs" "secret" "read" "background") ≡ deny)
background_hard_denies_example = background_hard_denies (some lenient) "skill" "fs" "x"

-- The same request under the category is allowed.
interactive_read : default_decision none (request "user" "fs" "memory" "read" "interactive") ≡ allow
unfolding evaluate new_engine evaluate_strategy evaluate_interactive first_match matches matched
interactive_read = refl

abbrev two_rules : List PolicyRule
two_rules =
    rule "*" "read" "*" allow "*" "secret" ∷ rule "user" "read" "*" require_approval "*" "*" ∷ []
