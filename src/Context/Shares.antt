-- ===== src/Context/Shares.antt =====
-- context/engine.py: what the shares of the budget leave of each category.
use cogito_agent.Prelude.{
  ℕ, ◌+◌, ◌≤◌, ◌≡◌, ◌⊎◌, inl, inr, refl, String, Bool, false, ◌&&◌, List, [], ◌∷◌, map, ◌=s◌,
  eq_iff, ltb, sort_by, insert_by, arith, ap, if◌then◌else◌, if-cases, Bool-cases, Dict, dict_set,
  dict_get-dict_set, dict_get-dict_set_other, ◌∙◌, sym,
}
use cogito_agent.Context.{ContextItem, ContextEngine}
use cogito_agent.Context.Select.{
  Placed, place, by_rank, by_place, put_back, category_for_source, cat_budget, used_of, share_out,
  apply_budget_shares, sum_by,
}

-- The tokens of an item that is included in the category.
abbrev pub tokens_in : String → ContextItem → ℕ
tokens_in cat i =
    if i.included && (category_for_source i.source_type =s cat) then i.token_estimate else 0

-- Sums do not depend on the order.
sum_by-insert_by :
    {A : Type 0} (le : A → A → Bool) (f : A → ℕ) (x : A) (xs : List A)
    → sum_by f (insert_by le x xs) ≡ f x + sum_by f xs
unfolding insert_by
sum_by-insert_by le f x [] = refl
sum_by-insert_by le f x (y ∷ ys) = elim (Bool-cases (le x y)) [
  | inl h ↦ rw h refl
  | inr h ↦ rw h (omega (arith, sum_by-insert_by le f x ys))
]

pub sum_by-sort_by :
    {A : Type 0} (le : A → A → Bool) (f : A → ℕ) (xs : List A)
    → sum_by f (sort_by le xs) ≡ sum_by f xs
unfolding sort_by
sum_by-sort_by le f [] = refl
sum_by-sort_by le f (x ∷ xs) =
    omega (arith, sum_by-insert_by le f x (sort_by le xs), sum_by-sort_by le f xs)

sum_by-map :
    {A B : Type 0} (f : B → ℕ) (g : A → B) (xs : List A)
    → sum_by f (map g xs) ≡ sum_by (λ x. f (g x)) xs
sum_by-map f g [] = refl
sum_by-map f g (x ∷ xs) = omega (arith, sum_by-map f g xs)

pub sum_by-put_back :
    (f : ContextItem → ℕ) (ps : List Placed) → sum_by f (put_back ps) ≡ sum_by (λ p. f p.1) ps
unfolding put_back
sum_by-put_back f ps =
    sum_by-map f (λ p. p.1) (sort_by by_place ps) ∙ sum_by-sort_by by_place (λ p. f p.1) ps

pub sum_by-place :
    (f : ContextItem → ℕ) (n : ℕ) (is : List ContextItem)
    → sum_by (λ p. f p.1) (place n is) ≡ sum_by f is
unfolding place
sum_by-place f n [] = refl
sum_by-place f n (i ∷ is) = omega (arith, sum_by-place f (n + 1) is)

used_of_same : (c : String) (n : ℕ) (u : Dict ℕ) → used_of c (dict_set c n u) ≡ n
used_of_same c n u = rw (used_of, dict_get-dict_set c n u) refl

used_of_set :
    (c d : String) (n : ℕ) (u : Dict ℕ)
    → ((c ≡ d) × (used_of c (dict_set d n u) ≡ n))
      ⊎ (((d =s c) ≡ false) × (used_of c (dict_set d n u) ≡ used_of c u))
used_of_set c d n u = elim (Bool-cases (d =s c)) [
  | inl h ↦ (let eq = (eq_iff d c).0 h in inl (sym eq, rw eq (used_of_same c n u)))
  | inr h ↦ inr (h, rw (used_of, dict_get-dict_set_other d c n u h) refl)
]

tokens_in_le : (c : String) (i : ContextItem) → tokens_in c i ≤ i.token_estimate
tokens_in_le c i = ground arith

tokens_in_other :
    (c : String) (i : ContextItem)
    → (category_for_source i.source_type =s c) ≡ false
    → tokens_in c i ≡ 0
tokens_in_other c i h = ground (arith, h)

-- What is shared out in a category, with what was used, is within its budget.
share_out-IsWithin :
    (E : ContextEngine) (c : String) (is : List Placed) (u : Dict ℕ)
    → used_of c u ≤ cat_budget E c
    → sum_by (λ p. tokens_in c p.1) (share_out E is u) + used_of c u ≤ cat_budget E c
unfolding share_out
share_out-IsWithin E c [] u h = omega (arith, h)
share_out-IsWithin E c ((p, i) ∷ is) u h =
    let d = category_for_source i.source_type in
    let n = used_of d u + i.token_estimate in
    let u' = dict_set d n u in
    if-cases (λ (ps : List Placed). sum_by (λ p. tokens_in c p.1) ps + used_of c u ≤ cat_budget E c)
      (ltb (cat_budget E d) n) _ _ (λ over. omega (arith, share_out-IsWithin E c is u h))
      (λ fits. elim (used_of_set c d n u) [
        | inl (same, now) ↦
            (let budgets : cat_budget E c ≡ cat_budget E d = ap (λ x. cat_budget E x) same in
              let uses : used_of c u ≡ used_of d u = ap (λ x. used_of x u) same in
              let small : n ≤ cat_budget E d = ground (arith, fits) in
              omega (
                arith,
                uses,
                now,
                tokens_in_le c i,
                share_out-IsWithin E c is u' (omega (arith, now, budgets, small)),
              ))
        | inr (ne, now) ↦ omega (
          arith,
          now,
          tokens_in_other c i ne,
          share_out-IsWithin E c is u' (omega (arith, now, h)),
        )
      ])

-- After the sharing, what is included of a category is within its budget.
pub apply_budget_shares-IsWithin :
    (E : ContextEngine) (c : String) (items : List ContextItem)
    → sum_by (tokens_in c) (apply_budget_shares E items) ≤ cat_budget E c
unfolding apply_budget_shares
apply_budget_shares-IsWithin E c items =
    let ps = share_out E (sort_by by_rank (place 0 items)) [] in
    omega (
      arith,
      sum_by-put_back (tokens_in c) ps,
      share_out-IsWithin E c (sort_by by_rank (place 0 items)) [] (omega arith),
    )
