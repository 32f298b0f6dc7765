-- ===== src/Policy/Dispatch.antt =====
-- governance/policy.py: how the engine comes to a decision, for every list of rules.
use cogito_agent.Prelude.{
  not, is_some, ◌≡◌, refl, ◌≢◌, inl, inr, String, true, false, Option, none, some, List, [], ◌∷◌,
  ◌++◌, arith, Bool-cases, Option-cases, ap, any, All, if◌then◌else◌,
}
use cogito_agent.Policy.{
  deny, escalate, PolicyRequest, PolicyDecision, PolicyRule, matches, matched, first_match,
  interactive_rules, background_rules, evaluate_interactive, evaluate_background, evaluate_custom,
  evaluate_strategy, ModelAdapter, judged, llm_fallback, new_engine, evaluate, is_escalate,
  set_llm_adapter,
}

-- `rule` is the first of `ps` that matches `r`: nothing before it does.
pub record IsFirst (ps : List PolicyRule) (r : PolicyRequest) (p : PolicyRule) : Type 0 where
  pub before : List PolicyRule
  pub after : List PolicyRule
  pub split : ps ≡ before ++ (p ∷ after)
  pub misses : All (λ q. matches q r ≡ false) before
  pub hits : matches p r ≡ true

pub first_match-IsFirst :
    (ps : List PolicyRule) (r : PolicyRequest) (p : PolicyRule)
    → first_match ps r ≡ some p
    → IsFirst ps r p
unfolding first_match
first_match-IsFirst [] r p h = cc
first_match-IsFirst (q ∷ ps) r p h = elim (Bool-cases (matches q r)) [
  | inl hit ↦ record {
    before = [];
    after = ps;
    split = ground arith;
    misses = tt;
    hits = ground arith;
  }
  | inr miss ↦
      let rest = first_match-IsFirst ps r p (rw miss at h) in
      record {
        before = q ∷ rest.before;
        after = rest.after;
        split = ap (λ (l : List PolicyRule). q ∷ l) rest.split;
        misses = (miss, rest.misses);
        hits = rest.hits;
      }
]

-- Without a light model a custom engine that does not deny a request follows the first rule
-- that matches it, and takes that rule's decision.
pub custom_fail_closed :
    (rules : List PolicyRule) (r : PolicyRequest)
    → (evaluate (new_engine (some rules) none) r).decision ≢ deny
    → (p : PolicyRule) × IsFirst rules r p
      × ((evaluate (new_engine (some rules) none) r).decision ≡ p.decision)
unfolding evaluate new_engine evaluate_strategy evaluate_custom llm_fallback matched
custom_fail_closed rules r h = elim (Option-cases (first_match rules r)) [
  | inl nothing ↦ absurd (h (ground arith))
  | inr (p, found) ↦ (p, first_match-IsFirst rules r p found, ground arith)
]

judged_ne_escalate : (s : String) → judged s ≢ escalate
unfolding judged
judged_ne_escalate s = ground arith

fallback_ne_escalate :
    (llm : Option ModelAdapter) (r : PolicyRequest) → (llm_fallback llm r).decision ≢ escalate
unfolding llm_fallback
fallback_ne_escalate none r h = cc
fallback_ne_escalate (some llm) r h = elim (Option-cases (llm r)) [
  | inl failed ↦ ground arith
  | inr (j, asked) ↦ judged_ne_escalate j.decision (ground arith)
]

no_escalate :
    (ps : List PolicyRule) (r : PolicyRequest) (p : PolicyRule)
    → any (λ q. is_escalate q.decision) ps ≡ false
    → first_match ps r ≡ some p
    → p.decision ≢ escalate
unfolding first_match
no_escalate [] r p e h = cc
no_escalate (q ∷ ps) r p e h = ground (arith, no_escalate ps r p)

interactive_ne_escalate :
    (r : PolicyRequest) (d : PolicyDecision)
    → evaluate_interactive r ≡ some d
    → d.decision ≢ escalate
unfolding evaluate_interactive matched
interactive_ne_escalate r d h e = elim (Option-cases (first_match interactive_rules r)) [
  | inl nothing ↦ ground arith
  | inr (p, found) ↦ no_escalate interactive_rules r p refl found (ground arith)
]

background_ne_escalate :
    (r : PolicyRequest) (d : PolicyDecision)
    → evaluate_background r ≡ some d
    → d.decision ≢ escalate
unfolding evaluate_background matched
background_ne_escalate r d h e = elim (Option-cases (first_match background_rules r)) [
  | inl nothing ↦ ground arith
  | inr (p, found) ↦ no_escalate background_rules r p refl found (ground arith)
]

default_ne_escalate :
    (llm : Option ModelAdapter) (r : PolicyRequest)
    → (evaluate (new_engine none llm) r).decision ≢ escalate
unfolding evaluate new_engine evaluate_strategy
default_ne_escalate llm r e = elim (Option-cases (evaluate_interactive r)) [
  | inr (d, first) ↦ interactive_ne_escalate r d first (ground arith)
  | inl none_first ↦ elim (Option-cases (evaluate_background r)) [
    | inr (d, second) ↦ background_ne_escalate r d second (ground arith)
    | inl none_second ↦ fallback_ne_escalate llm r (ground arith)
  ]
]

custom_ne_escalate :
    (rules : List PolicyRule) (llm : Option ModelAdapter) (r : PolicyRequest)
    → (evaluate (new_engine (some rules) llm) r).decision ≢ escalate
unfolding evaluate new_engine evaluate_strategy evaluate_custom matched
custom_ne_escalate rules llm r = ground (arith, fallback_ne_escalate llm r)

-- No engine ever answers `escalate`, neither with the built-in rules nor with custom ones,
-- which may name it, and whatever the light model says.
pub evaluate-ne-escalate :
    (rules : Option (List PolicyRule)) (llm : Option ModelAdapter) (r : PolicyRequest)
    → (evaluate (new_engine rules llm) r).decision ≢ escalate
evaluate-ne-escalate none llm r = default_ne_escalate llm r
evaluate-ne-escalate (some rules) llm r = custom_ne_escalate rules llm r

-- After a completed injection of a light model the engine decides as one built with that model;
-- an engine built from custom rules has no fallback attribute, and the injection fails there.
pub set_llm_adapter_lem :
    (rules : Option (List PolicyRule)) (old llm : Option ModelAdapter) (r : PolicyRequest)
    → ((set_llm_adapter (new_engine rules old) llm).completed ≡ not (is_some rules))
      × (evaluate (set_llm_adapter (new_engine rules old) llm).engine r
          ≡ evaluate (new_engine rules (if is_some rules then old else llm)) r)
unfolding set_llm_adapter new_engine evaluate
set_llm_adapter_lem none old llm r = (refl, refl)
set_llm_adapter_lem (some rules) old llm r = (refl, refl)
