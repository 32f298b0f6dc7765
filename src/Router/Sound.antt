-- ===== src/Router/Sound.antt =====
-- models/router.py: which candidates a decision of `route` may contain.
use cogito_agent.Prelude.{
  IsLed, true, ◌≤◌, ◌∙◌, ℕ, suc, ◌+◌, ◌≡◌, sym, ap, refl, String, false, Option, none, some, List,
  [], ◌∷◌, arith, All, if-cases, ◌=s◌, eq_iff, Bool-cases, inl, inr, Dict, dict_set,
  dict_get-dict_set, dict_get-dict_set_other, sort_by, sort_by-All, map,
}
use mathlib.Core.Path.{subst}
use cogito_agent.Sql.{rowcount}
use cogito_agent.Gate.Judge.{Floats}
use cogito_agent.Router.{
  RouteRequest, Candidate, id_of, Health, is_unhealthy, health_of, probed, get_health,
}
use cogito_agent.Router.Preferred.{sorted-IsLed, decided-IsLed}
use cogito_agent.Router.Counts.{
  is_named, excludes, excludes_for, fails_for, sift-Counted, rowcount-decided, rowcount-sort_by,
}
use cogito_agent.Router.Route.{
  without, prefers_model, Eligible, Exclusion, Sifted, exclusion_reason, sift, sift_one, excluded,
  decided, route, key_le, id_le,
}
use cogito_agent.Router.Adapter.{ordered_candidates}

-- The circuit of a candidate is closed in a table.
abbrev pub IsClosed : String → Dict Health → Type 0
IsClosed k d = is_unhealthy (health_of k d).status ≡ false

probed_closed :
    (now : ℕ) (h : Health)
    → is_unhealthy h.status ≡ false
    → is_unhealthy (probed now h).status ≡ false
probed_closed now h c = ground arith

get_health-IsClosed :
    (now : ℕ) (j k : String) (d : Dict Health) → IsClosed k d → IsClosed k (get_health now j d).0
unfolding get_health
get_health-IsClosed now j k d c = elim (Bool-cases (j =s k)) [
  | inl same ↦
      let p = (eq_iff j k).0 same in
      subst (λ i. IsClosed i (dict_set j (probed now (health_of j d)) d)) p
        (rw (dict_get-dict_set j (probed now (health_of j d)) d)
          (probed_closed now (health_of j d) (subst (λ i. IsClosed i d) (sym p) c)))
  | inr other ↦ rw (dict_get-dict_set_other j k (probed now (health_of j d)) d other) c
]

module _ (F : Floats) where
  open F use {lt}

  abbrev included : Candidate F → Health → Sifted F → Sifted F
  included c h s = record s { eligible = record { candidate = c; health = h } ∷ s.eligible }

  -- What holds in each of the three outcomes for a candidate.
  sift_one-cases {κ} :
      (P : Sifted F → Type κ) (c : Candidate F) (o : Option String) (h : Health)
      (met unmet : Sifted F)
      → ((reason : String) → P (excluded F c reason unmet))
      → P (excluded F c "circuit_open" met)
      → (o ≡ none → is_unhealthy h.status ≡ false → P (included c h met))
      → P (sift_one F c o h met unmet)
  sift_one-cases P c (some reason) h met unmet a b e = a reason
  sift_one-cases P c none h met unmet a b e =
      if-cases P (is_unhealthy h.status) (excluded F c "circuit_open" met) (included c h met)
        (λ u. b) (λ u. e refl u)

  abbrev passed : (ℕ → ℕ) → ℕ → Candidate F → Dict Health → Dict Health × Health
  passed clock n c d = get_health (clock n) (id_of F c) d

  sift-IsClosed :
      (r : RouteRequest F) (clock : ℕ → ℕ) (n : ℕ) (cs : List (Candidate F)) (d : Dict Health)
      (k : String)
      → IsClosed k d
      → IsClosed k (sift F r clock n cs d).health
  unfolding sift
  sift-IsClosed r clock n [] d k c = c
  sift-IsClosed r clock n (x ∷ cs) d k c =
      let met =
        sift-IsClosed r clock (suc n) cs (passed clock n x d).0 k
          (get_health-IsClosed (clock n) (id_of F x) k d c) in
      sift_one-cases (λ s. IsClosed k s.health) x (exclusion_reason F x r) (passed clock n x d).1
        (sift F r clock (suc n) cs (passed clock n x d).0) (sift F r clock (suc n) cs d)
        (λ reason. sift-IsClosed r clock (suc n) cs d k c) met (λ e u. met)

  -- The request excludes the candidate for no reason, and its circuit is closed in the table.
  abbrev pub IsRoutable : RouteRequest F → Dict Health → Candidate F → Type 0
  IsRoutable r d c = (exclusion_reason F c r ≡ none) × IsClosed (id_of F c) d

  abbrev AllRoutable : RouteRequest F → Sifted F → Type 0
  AllRoutable r s = All (λ (e : Eligible F). IsRoutable r s.health e.candidate) s.eligible

  checked-IsClosed :
      (clock : ℕ → ℕ) (n : ℕ) (c : Candidate F) (d : Dict Health)
      → is_unhealthy (passed clock n c d).1.status ≡ false
      → IsClosed (id_of F c) (passed clock n c d).0
  unfolding get_health
  checked-IsClosed clock n c d u =
      rw (dict_get-dict_set (id_of F c) (probed (clock n) (health_of (id_of F c) d)) d) u

  sift-AllRoutable :
      (r : RouteRequest F) (clock : ℕ → ℕ) (n : ℕ) (cs : List (Candidate F)) (d : Dict Health)
      → AllRoutable r (sift F r clock n cs d)
  unfolding sift
  sift-AllRoutable r clock n [] d = tt
  sift-AllRoutable r clock n (x ∷ cs) d =
      let met = sift-AllRoutable r clock (suc n) cs (passed clock n x d).0 in
      sift_one-cases (AllRoutable r) x (exclusion_reason F x r) (passed clock n x d).1
        (sift F r clock (suc n) cs (passed clock n x d).0) (sift F r clock (suc n) cs d)
        (λ reason. sift-AllRoutable r clock (suc n) cs d) met
        (λ e u. (
          (
            e,
            sift-IsClosed r clock (suc n) cs (passed clock n x d).0 (id_of F x)
                (checked-IsClosed clock n x d u),
          ),
          met,
        ))

  map-All :
      (P : Candidate F → Type 0) (es : List (Eligible F))
      → All (λ (e : Eligible F). P e.candidate) es
      → All P (map (λ (e : Eligible F). e.candidate) es)
  map-All P [] h = tt
  map-All P (e ∷ es) h = (h.0, map-All P es h.1)

  decided-All :
      (P : Candidate F → Type 0) (r : RouteRequest F) (xs : List (Exclusion F))
      (es : List (Eligible F))
      → All (λ (e : Eligible F). P e.candidate) es
      → All P (ordered_candidates F (decided F r xs es))
  unfolding ordered_candidates
  decided-All P r xs [] h = tt
  decided-All P r xs (e ∷ es) h = (h.0, map-All P es h.1)

  exclusions-decided :
      (r : RouteRequest F) (xs : List (Exclusion F)) (es : List (Eligible F))
      → (decided F r xs es).exclusions ≡ xs
  exclusions-decided r xs [] = refl
  exclusions-decided r xs (e ∷ es) = refl

  -- What each candidate of a decision meets of its request.
  abbrev pub IsFit : RouteRequest F → Candidate F → Type 0
  IsFit r c =
      (c.enabled ≡ true)
      × (without r.required_capabilities c.capabilities ≡ [])
      × (without r.required_input_modalities c.input_modalities ≡ [])
      × (without r.required_output_formats c.output_formats ≡ [])
      × (r.estimated_input_tokens + r.max_output_tokens ≤ c.context_window)
      × (lt c.quality_score r.min_quality_score ≡ false)

  fit : (r : RouteRequest F) (c : Candidate F) → exclusion_reason F c r ≡ none → IsFit r c
  unfolding exclusion_reason
  fit r c h = ground (arith, h)

  routable-IsFit :
      (r : RouteRequest F) (d : Dict Health) (cs : List (Candidate F))
      → All (IsRoutable r d) cs
      → All (IsFit r) cs
  routable-IsFit r d [] h = tt
  routable-IsFit r d (c ∷ cs) h = (fit r c h.0.0, routable-IsFit r d cs h.1)

  -- Each candidate that a decision selects or falls back to is enabled, has the capabilities, the
  -- modalities, the formats, the context and the quality that the request asks for, is excluded for no
  -- reason, and its circuit is not open in the table that `route` leaves; where one of them is of the
  -- preferred model, the selected one is; for each identifier there are
  -- as many of them and of the exclusions as there are candidates; and there are as many exclusions of
  -- it for a reason, other than an open circuit, as there are candidates that the request excludes for
  -- this reason.
  pub route_exact :
      (r : RouteRequest F) (clock : ℕ → ℕ) (cs : List (Candidate F)) (d : Dict Health)
      → let out = route F r clock cs d in
        All (IsFit r) (ordered_candidates F out.1)
        × IsLed (prefers_model F r) (ordered_candidates F out.1)
        × All (IsRoutable r out.0) (ordered_candidates F out.1)
        × ((k : String)
            → rowcount (is_named F k) (ordered_candidates F out.1)
                + rowcount (excludes F k) out.1.exclusions
              ≡ rowcount (is_named F k) cs)
        × ((k reason : String)
            → (reason =s "circuit_open") ≡ false
            → rowcount (excludes_for F k reason) out.1.exclusions
              ≡ rowcount (fails_for F r k reason) cs)
  unfolding route
  route_exact r clock cs d =
      let sorted = sort_by (id_le F) cs in
      let s = sift F r clock 0 sorted d in
      let es = sort_by (key_le F r) s.eligible in
      let (both, reasons) = sift-Counted F r clock 0 sorted d in
      let all = decided-All (IsRoutable r s.health) r s.exclusions es (
        sort_by-All (key_le F r) (λ (e : Eligible F). IsRoutable r s.health e.candidate) s.eligible
          (sift-AllRoutable r clock 0 sorted d)) in
      (
        routable-IsFit r s.health (ordered_candidates F (decided F r s.exclusions es)) all,
        decided-IsLed F r s.exclusions es (sorted-IsLed F r s.eligible),
        all,
        λ k. omega (
          arith,
          rowcount-decided F k r s.exclusions es,
          ap (rowcount (excludes F k)) (exclusions-decided r s.exclusions es),
          rowcount-sort_by (key_le F r) (λ (e : Eligible F). is_named F k e.candidate) s.eligible,
          rowcount-sort_by (id_le F) (is_named F k) cs,
          both k,
        ),
        λ k reason other.
            ap (rowcount (excludes_for F k reason)) (exclusions-decided r s.exclusions es)
            ∙ reasons k reason other
            ∙ rowcount-sort_by (id_le F) (fails_for F r k reason) cs,
      )
