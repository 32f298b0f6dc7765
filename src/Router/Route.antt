-- ===== src/Router/Route.antt =====
-- models/router.py: `route`, from the exclusions to the order of the candidates that are left.
use Prim.Native.Nat.{compare, Ordering}
use Prim.Native.String.{compare as compare_text}
use cogito_agent.Prelude.{
  ℕ, suc, ◌+◌, String, Bool, true, false, not, ◌&&◌, ◌||◌, Option, none, some, List, [], ◌∷◌, ltb,
  ◌=s◌, length, keep, any, if◌then◌else◌, Dict, sort_by, map,
}
use cogito_agent.Gate.Judge.{Floats}
use cogito_agent.Router.{
  RouteErrorCode, no_model_candidate, no_vision_model_available, no_structured_output_model,
  HealthStatus, healthy, degraded, unhealthy, probing, is_unhealthy, RouteRequest, Candidate, id_of,
  estimated_cost, Health, get_health,
}

-- `x in xs`
abbrev pub member : String → List String → Bool
member x xs = any (λ y. y =s x) xs

-- `xs - ys` on sets.
abbrev pub without : List String → List String → List String
without xs ys = keep (λ x. not (member x ys)) xs

abbrev is_empty : List String → Bool
is_empty [] = true
is_empty (_ ∷ _) = false

-- `roles == frozenset({"chat"})`
abbrev only_chat : List String → Bool
only_chat roles = member "chat" roles && is_empty (without roles ("chat" ∷ []))

abbrev over_limit : Option ℕ → ℕ → Bool
over_limit none n = false
over_limit (some limit) n = ltb limit n

abbrev index_from : ℕ → String → List String → ℕ
index_from n k [] = 9999
index_from n k (x ∷ xs) = let later = index_from (suc n) k xs in if x =s k then n else later

-- The first comparison of two tuples that is not an equality decides.
unfoldable pub tuple_le : List Ordering → Bool
tuple_le [] = true
tuple_le (Ordering.lt ∷ os) = true
tuple_le (Ordering.eq ∷ os) = tuple_le os
tuple_le (Ordering.gt ∷ os) = false

abbrev pub compare_bool : Bool → Bool → Ordering
compare_bool false false = Ordering.eq
compare_bool false true = Ordering.lt
compare_bool true false = Ordering.gt
compare_bool true true = Ordering.eq

abbrev health_rank : HealthStatus → ℕ
health_rank s = elim s [ healthy ↦ 0 | probing ↦ 1 | degraded ↦ 2 | unhealthy ↦ 3 ]

module _ (F : Floats) where
  open F use {Float, lt}

  abbrev over_cost : Option Float → Float → Bool
  over_cost none x = false
  over_cost (some limit) x = lt limit x

  -- `_exclusion_reason`: the code of the reason; the texts of the details are left out.
  unfoldable pub exclusion_reason : Candidate F → RouteRequest F → Option String
  unfolding estimated_cost
  exclusion_reason c r =
      if not c.enabled
      then some "disabled"
      else if not (is_empty (without r.required_capabilities c.capabilities))
      then some "missing_capability"
      else if not (is_empty (without r.required_input_modalities c.input_modalities))
      then some "missing_input_modality"
      else if not (is_empty (without r.required_output_formats c.output_formats))
      then some "missing_output_format"
      else if (not (r.role =s "") && not (member r.role c.roles))
          && not (r.chat_fallback_role && only_chat c.roles)
      then some "role_mismatch"
      else if (r.strict_preferred_candidates && not (is_empty r.preferred_candidates))
          && not (member (id_of F c) r.preferred_candidates)
      then some "not_preferred"
      else if ltb c.context_window (r.estimated_input_tokens + r.max_output_tokens)
      then some "context_window"
      else if lt c.quality_score r.min_quality_score
      then some "quality"
      else if over_limit r.max_latency_ms c.expected_latency_ms
      then some "latency"
      else if over_cost r.max_cost_usd (estimated_cost F c r)
      then some "budget"
      else none

  pub record Exclusion : Type 0 where
    pub candidate_id : String
    pub reason_code : String

  -- A candidate that is left, with its health.
  pub record Eligible : Type 0 where
    pub candidate : Candidate F
    pub health : Health

  abbrev compare_float : Float → Float → Ordering
  compare_float x y = if lt x y then Ordering.lt else if lt y x then Ordering.gt else Ordering.eq

  abbrev pub prefers_model : RouteRequest F → Candidate F → Bool
  prefers_model r c =
      not (r.preferred_model =s "")
      && (c.model =s r.preferred_model
          && (r.preferred_provider =s "" || c.provider =s r.preferred_provider))

  abbrev pub prefers_provider : RouteRequest F → Candidate F → Bool
  prefers_provider r c = not (r.preferred_provider =s "") && c.provider =s r.preferred_provider

  -- The comparisons of the components of two `_sort_key` tuples.
  unfoldable pub compare_keys : RouteRequest F → Eligible → Eligible → List Ordering
  unfolding estimated_cost
  compare_keys r a b =
      let x = a.candidate in
      let y = b.candidate in
      compare_bool (not (prefers_model r x)) (not (prefers_model r y))
      ∷ compare_bool (not (prefers_provider r x)) (not (prefers_provider r y))
      ∷ compare (index_from 0 (id_of F x) r.preferred_candidates)
          (index_from 0 (id_of F y) r.preferred_candidates)
      ∷ compare (length (without x.input_modalities r.required_input_modalities))
          (length (without y.input_modalities r.required_input_modalities))
      ∷ compare (length (without x.capabilities r.required_capabilities))
          (length (without y.capabilities r.required_capabilities))
      ∷ compare (health_rank a.health.status) (health_rank b.health.status)
      ∷ compare x.priority y.priority
      ∷ compare_float y.quality_score x.quality_score
      ∷ compare_float (estimated_cost F x r) (estimated_cost F y r)
      ∷ compare x.expected_latency_ms y.expected_latency_ms
      ∷ compare_text (id_of F x) (id_of F y)
      ∷ []

  abbrev pub key_le : RouteRequest F → Eligible → Eligible → Bool
  key_le r a b = tuple_le (compare_keys r a b)

  pub record Decision : Type 0 where
    pub selected : Option (Candidate F)
    pub fallback_order : List (Candidate F)
    pub exclusions : List Exclusion
    pub error_code : Option RouteErrorCode

  -- The table of the candidates' health, those that are left, and those that are excluded.
  pub record Sifted : Type 0 where
    pub health : Dict Health
    pub eligible : List Eligible
    pub exclusions : List Exclusion

  abbrev pub excluded : Candidate F → String → Sifted → Sifted
  excluded c reason s = record s {
    exclusions = record { candidate_id = id_of F c; reason_code = reason } ∷ s.exclusions;
  }

  abbrev pub sift_healthy : Candidate F → Health → Sifted → Sifted
  sift_healthy c h s =
      if is_unhealthy h.status
      then excluded c "circuit_open" s
      else record s { eligible = record { candidate = c; health = h } ∷ s.eligible }

  -- One candidate: with a reason it joins the exclusions of `unmet`, else its health decides.
  abbrev pub sift_one : Candidate F → Option String → Health → Sifted → Sifted → Sifted
  sift_one c none h met unmet = sift_healthy c h met
  sift_one c (some reason) h met unmet = excluded c reason unmet

  -- The loop over the candidates; the clock is read anew for each.
  unfoldable pub sift : RouteRequest F → (ℕ → ℕ) → ℕ → List (Candidate F) → Dict Health → Sifted
  unfolding exclusion_reason get_health
  sift r clock n [] d = record { health = d; eligible = []; exclusions = [] }
  sift r clock n (c ∷ cs) d =
      let passed = get_health (clock n) (id_of F c) d in
      let met = sift r clock (suc n) cs passed.0 in
      let unmet = sift r clock (suc n) cs d in sift_one c (exclusion_reason c r) passed.1 met unmet

  abbrev wants_vision : RouteRequest F → Bool
  wants_vision r =
      member "vision" r.required_capabilities || member "image" r.required_input_modalities

  -- The error of a decision without a candidate.
  unfoldable pub route_error : RouteRequest F → RouteErrorCode
  route_error r =
      if wants_vision r
      then no_vision_model_available
      else if member "json" r.required_output_formats
      then no_structured_output_model
      else no_model_candidate

  abbrev pub decided : RouteRequest F → List Exclusion → List Eligible → Decision
  decided r exclusions [] = record {
    selected = none;
    fallback_order = [];
    exclusions = exclusions;
    error_code = some (route_error r);
  }
  decided r exclusions (e ∷ es) = record {
    selected = some e.candidate;
    fallback_order = map (λ (x : Eligible). x.candidate) es;
    exclusions = exclusions;
    error_code = none;
  }

  abbrev pub id_le : Candidate F → Candidate F → Bool
  id_le a b = tuple_le (compare_text (id_of F a) (id_of F b) ∷ [])

  -- `route`, on the registered candidates and the table of their health.
  unfoldable pub route :
      RouteRequest F → (ℕ → ℕ) → List (Candidate F) → Dict Health → Dict Health × Decision
  unfolding sift route_error
  route r clock candidates d =
      let s = sift r clock 0 (sort_by id_le candidates) d in
      (s.health, decided r s.exclusions (sort_by (key_le r) s.eligible))
