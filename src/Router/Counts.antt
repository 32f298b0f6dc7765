-- ===== src/Router/Counts.antt =====
-- models/router.py: how often the candidates of a list come back from `route`.
use cogito_agent.Prelude.{
  ℕ, suc, ◌+◌, ◌≡◌, refl, String, Bool, false, ◌&&◌, Option, none, some, List, [], ◌∷◌, arith,
  if-cases, if◌then◌else◌, ◌=s◌, eq_iff, Dict, sort_by, insert_by, map,
}
use cogito_agent.Sql.{rowcount}
use cogito_agent.Gate.Judge.{Floats}
use cogito_agent.Router.{RouteRequest, Candidate, id_of, Health, is_unhealthy, get_health}
use cogito_agent.Router.Route.{
  Eligible, Exclusion, Sifted, exclusion_reason, sift, sift_one, decided,
}
use cogito_agent.Router.Adapter.{ordered_candidates}

module _ {A : Type 0} (le : A → A → Bool) (q : A → Bool) where
  rowcount-insert_by :
      (r : A) (xs : List A)
      → rowcount q (insert_by le r xs) ≡ (if q r then 1 else 0) + rowcount q xs
  unfolding insert_by rowcount
  rowcount-insert_by r [] = refl
  rowcount-insert_by r (x ∷ xs) = ground (arith, rowcount-insert_by r xs)

  pub rowcount-sort_by : (xs : List A) → rowcount q (sort_by le xs) ≡ rowcount q xs
  unfolding sort_by rowcount
  rowcount-sort_by [] = refl
  rowcount-sort_by (x ∷ xs) =
      omega (arith, rowcount-insert_by x (sort_by le xs), rowcount-sort_by xs)

module _ (F : Floats) where
  -- The candidates with an identifier, and the exclusions with it.
  abbrev pub is_named : String → Candidate F → Bool
  is_named k c = id_of F c =s k

  abbrev pub excludes : String → Exclusion F → Bool
  excludes k x = x.candidate_id =s k

  -- The exclusions of an identifier for a reason, and the candidates that the request excludes for it.
  abbrev pub excludes_for : String → String → Exclusion F → Bool
  excludes_for k reason x = x.candidate_id =s k && x.reason_code =s reason

  abbrev is_reason : String → Option String → Bool
  is_reason reason none = false
  is_reason reason (some x) = x =s reason

  abbrev pub fails_for : RouteRequest F → String → String → Candidate F → Bool
  fails_for r k reason c = id_of F c =s k && is_reason reason (exclusion_reason F c r)

  abbrev picks : String → Eligible F → Bool
  picks k e = is_named k e.candidate

  -- The candidates of an identifier are all left or excluded, and all with a reason are excluded for
  -- it.
  abbrev Counted : RouteRequest F → List (Candidate F) → Sifted F → Type 0
  Counted r cs s =
      ((k : String)
        → rowcount (picks k) s.eligible + rowcount (excludes k) s.exclusions
          ≡ rowcount (is_named k) cs)
      × ((k reason : String)
          → (reason =s "circuit_open") ≡ false
          → rowcount (excludes_for k reason) s.exclusions ≡ rowcount (fails_for r k reason) cs)

  sift_one-Counted :
      (r : RouteRequest F) (c : Candidate F) (cs : List (Candidate F)) (o : Option String)
      (h : Health) (met unmet : Sifted F)
      → exclusion_reason F c r ≡ o
      → Counted r cs met
      → Counted r cs unmet
      → Counted r (c ∷ cs) (sift_one F c o h met unmet)
  unfolding rowcount
  sift_one-Counted r c cs (some x) h met unmet e a b =
      (λ k. ground (arith, b.0 k), λ k reason other. ground (arith, e, b.1 k reason other))
  sift_one-Counted r c cs none h met unmet e a b =
      if-cases (Counted r (c ∷ cs)) (is_unhealthy h.status) _ _
        (λ broken. (
          λ k. ground (arith, a.0 k),
          λ k reason other. ground (
            arith,
            e,
            other,
            a.1 k reason other,
            eq_iff "circuit_open" reason,
            eq_iff reason "circuit_open",
          ),
        ))
        (λ closed.
          (λ k. ground (arith, a.0 k), λ k reason other. ground (arith, e, a.1 k reason other)))

  pub sift-Counted :
      (r : RouteRequest F) (clock : ℕ → ℕ) (n : ℕ) (cs : List (Candidate F)) (d : Dict Health)
      → Counted r cs (sift F r clock n cs d)
  unfolding sift rowcount
  sift-Counted r clock n [] d = ((λ k. refl), (λ k reason other. refl))
  sift-Counted r clock n (c ∷ cs) d =
      let passed = get_health (clock n) (id_of F c) d in
      sift_one-Counted r c cs (exclusion_reason F c r) passed.1 (sift F r clock (suc n) cs passed.0)
        (sift F r clock (suc n) cs d) refl (sift-Counted r clock (suc n) cs passed.0)
        (sift-Counted r clock (suc n) cs d)

  rowcount-candidates :
      (k : String) (es : List (Eligible F))
      → rowcount (is_named k) (map (λ (e : Eligible F). e.candidate) es) ≡ rowcount (picks k) es
  unfolding rowcount
  rowcount-candidates k [] = refl
  rowcount-candidates k (e ∷ es) = omega (arith, rowcount-candidates k es)

  pub rowcount-decided :
      (k : String) (r : RouteRequest F) (xs : List (Exclusion F)) (es : List (Eligible F))
      → rowcount (is_named k) (ordered_candidates F (decided F r xs es)) ≡ rowcount (picks k) es
  unfolding ordered_candidates rowcount
  rowcount-decided k r xs [] = refl
  rowcount-decided k r xs (e ∷ es) = omega (arith, rowcount-candidates k es)
