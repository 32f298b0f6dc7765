-- ===== src/Router/Preferred.antt =====
-- models/router.py: the model that a request prefers, in the order of `route`.
use Prim.Native.Nat.{Ordering}
use cogito_agent.Prelude.{
  refl, ◌≡◌, Bool, true, false, not, List, [], ◌∷◌, All, map, sort_by, IsLed, sort_by-IsLed,
}
use cogito_agent.Gate.Judge.{Floats}
use cogito_agent.Router.{RouteRequest, Candidate}
use cogito_agent.Router.Route.{
  Eligible, Exclusion, compare_bool, tuple_le, compare_keys, prefers_model, key_le, decided,
}
use cogito_agent.Router.Adapter.{ordered_candidates}

-- The first component of two keys decides where it differs.
first_yields :
    (p q : Bool) (os : List Ordering)
    → tuple_le (compare_bool (not p) (not q) ∷ os) ≡ true
    → q ≡ true
    → p ≡ true
unfolding tuple_le
first_yields true q os h k = refl
first_yields false true os h k = h
first_yields false false os h k = k

first_leads :
    (p q : Bool) (os : List Ordering)
    → tuple_le (compare_bool (not p) (not q) ∷ os) ≡ false
    → p ≡ true
    → q ≡ true
unfolding tuple_le
first_leads p true os h k = refl
first_leads true false os h k = absurd (cc)
first_leads false false os h k = k

module _ (F : Floats) (r : RouteRequest F) where
  abbrev is_preferred : Eligible F → Bool
  is_preferred e = prefers_model F r e.candidate

  pub sorted-IsLed : (es : List (Eligible F)) → IsLed is_preferred (sort_by (key_le F r) es)
  unfolding compare_keys
  sorted-IsLed =
      sort_by-IsLed (key_le F r) is_preferred
        (λ x y. first_yields (is_preferred x) (is_preferred y) _)
        (λ x y. first_leads (is_preferred x) (is_preferred y) _)

  candidates-All :
      (b : Bool) (es : List (Eligible F))
      → All (λ (e : Eligible F). is_preferred e ≡ true → b ≡ true) es
      → All
          (λ (c : Candidate F). prefers_model F r c ≡ true → b ≡ true)
          (map (λ (e : Eligible F). e.candidate) es)
  candidates-All b [] h = tt
  candidates-All b (e ∷ es) h = (h.0, candidates-All b es h.1)

  pub decided-IsLed :
      (xs : List (Exclusion F)) (es : List (Eligible F))
      → IsLed is_preferred es
      → IsLed (prefers_model F r) (ordered_candidates F (decided F r xs es))
  unfolding ordered_candidates
  decided-IsLed xs [] h = tt
  decided-IsLed xs (e ∷ es) h = candidates-All (is_preferred e) es h
