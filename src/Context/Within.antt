-- ===== src/Context/Within.antt =====
-- context/engine.py: what `build` includes, in each category and in all.
use cogito_agent.Prelude.{
  ℕ, ◌+◌, ◌-◌, ◌*◌, ◌≤◌, ◌≡◌, refl, String, Bool, not, ◌&&◌, ◌||◌, List, [], ◌∷◌, ◌++◌, ◌=s◌, leb,
  sort_by, arith, if◌then◌else◌, if-cases, Bool-cases, inl, inr,
}
use cogito_agent.Context.{ContextItem, ContextEngine, ContextSources, collect_items}
use cogito_agent.Context.Select.{
  Placed, place, category_for_source, cat_budget, apply_budget_shares, sum_by, included_tokens,
  trim, trim_loop, is_current, filter_by, by_trim_key, build,
}
use cogito_agent.Context.Shares.{
  tokens_in, sum_by-sort_by, sum_by-put_back, sum_by-place, apply_budget_shares-IsWithin,
}

sum_by-append :
    {A : Type 0} (f : A → ℕ) (xs ys : List A) → sum_by f (xs ++ ys) ≡ sum_by f xs + sum_by f ys
sum_by-append f [] ys = omega arith
sum_by-append f (x ∷ xs) ys = omega (arith, sum_by-append f xs ys)

sum_by-filter_by :
    {A : Type 0} (f : A → ℕ) (p : A → Bool) (xs : List A)
    → sum_by f (filter_by p xs) + sum_by f (filter_by (λ x. not (p x)) xs) ≡ sum_by f xs
sum_by-filter_by f p [] = refl
sum_by-filter_by f p (x ∷ xs) = elim (Bool-cases (p x)) [
  | inl h ↦ rw h (omega (arith, sum_by-filter_by f p xs))
  | inr h ↦ rw h (omega (arith, sum_by-filter_by f p xs))
]

trim_loop_le :
    (c : String) (budget total : ℕ) (ps : List Placed)
    → sum_by (λ p. tokens_in c p.1) (trim_loop budget total ps) ≤ sum_by (λ p. tokens_in c p.1) ps
unfolding trim_loop
trim_loop_le c budget total [] = omega arith
trim_loop_le c budget total ((p, i) ∷ is) =
    if-cases
      (λ (ps : List Placed).
        sum_by (λ p. tokens_in c p.1) ps ≤ tokens_in c i + sum_by (λ p. tokens_in c p.1) is)
      (leb total budget) _ _ (λ h. omega arith)
      (λ h. omega (arith, trim_loop_le c budget (total - i.token_estimate) is))

trim_le :
    (E : ContextEngine) (c : String) (items : List ContextItem)
    → sum_by (tokens_in c) (trim E items) ≤ sum_by (tokens_in c) items
unfolding trim
trim_le E c items =
    let f = λ (p : Placed). tokens_in c p.1 in
    let placed = place 0 items in
    let others = filter_by (λ p. not (is_current p)) placed in
    let order = sort_by by_trim_key others in
    let trimmed = trim_loop E.budget (sum_by included_tokens items) order in
    if-cases (λ is. sum_by (tokens_in c) is ≤ sum_by (tokens_in c) items)
      (leb (sum_by included_tokens items) E.budget) _ _ (λ h. omega arith)
      (λ h. omega (
        arith,
        sum_by-put_back (tokens_in c) (filter_by is_current placed ++ trimmed),
        sum_by-append f (filter_by is_current placed) trimmed,
        trim_loop_le c E.budget (sum_by included_tokens items) order,
        sum_by-sort_by by_trim_key f others,
        sum_by-filter_by f is_current placed,
        sum_by-place (tokens_in c) 0 items,
      ))

-- Whatever the sources are, the items of a category that `build` includes are within the budget of
-- the category.
pub build-IsWithin :
    (E : ContextEngine) (x : ContextSources) (c : String)
    → sum_by (tokens_in c) (build E x) ≤ cat_budget E c
unfolding build
build-IsWithin E x c =
    let shared = apply_budget_shares E (collect_items E x) in
    omega (arith, trim_le E c shared, apply_budget_shares-IsWithin E c (collect_items E x))

-- A percentage that is cut to an integer is not above the percentage.
abbrev pub IsCut : (ℕ → ℕ → ℕ) → Type 0
IsCut part = (percent n : ℕ) → 100 * part percent n ≤ percent * n

abbrev five : (String → ℕ) → ℕ
five f =
    f "system"
    + (f "recent_messages" + (f "retrieved_memory" + (f "memory_file" + f "tool_file_context")))

category-cases :
    (P : String → Type 0) (t : String)
    → P "system"
    → P "retrieved_memory"
    → P "memory_file"
    → P "tool_file_context"
    → P "recent_messages"
    → P (category_for_source t)
unfolding category_for_source
category-cases P t a b c d e =
    let tools = (t =s "tool" || t =s "file") || t =s "skill" in
    let memories = (t =s "memory" || t =s "memory_resident") || t =s "memory_retrieved" in
    let last = if tools then "tool_file_context" else "recent_messages" in
    let third = if t =s "memory_file" then "memory_file" else last in
    if-cases P (t =s "current_message" || t =s "system") "system"
      (if memories then "retrieved_memory" else third) (λ h. a)
      (λ h.
        if-cases P memories "retrieved_memory" third (λ h. b)
          (λ h.
            if-cases P (t =s "memory_file") "memory_file" last (λ h. c)
              (λ h. if-cases P tools "tool_file_context" "recent_messages" (λ h. d) (λ h. e))))

included_le : (i : ContextItem) → included_tokens i ≤ five (λ c. tokens_in c i)
included_le i =
    category-cases
      (λ k. included_tokens i ≤ five (λ c. if i.included && (k =s c) then i.token_estimate else 0))
      i.source_type (ground arith) (ground arith) (ground arith) (ground arith) (ground arith)

included_sum_le :
    (is : List ContextItem) → sum_by included_tokens is ≤ five (λ c. sum_by (tokens_in c) is)
included_sum_le [] = omega arith
included_sum_le (i ∷ is) = omega (arith, included_le i, included_sum_le is)

budgets_le : (E : ContextEngine) → IsCut E.part → 640 ≤ E.budget → five (cat_budget E) ≤ E.budget
unfolding cat_budget
budgets_le E cut big =
    omega (arith, cut 15 E.budget, cut 35 E.budget, cut 10 E.budget, cut 20 E.budget)

shared_le :
    (E : ContextEngine) (items : List ContextItem)
    → IsCut E.part
    → 640 ≤ E.budget
    → sum_by included_tokens (apply_budget_shares E items) ≤ E.budget
shared_le E items cut big =
    let within = λ (c : String). apply_budget_shares-IsWithin E c items in
    omega (
      arith,
      budgets_le E cut big,
      included_sum_le (apply_budget_shares E items),
      within "system",
      within "recent_messages",
      within "retrieved_memory",
      within "memory_file",
      within "tool_file_context",
    )

-- From a budget of 640 tokens on, what `build` includes is within the budget, and nothing is trimmed:
-- the shares alone decide.
pub build-Fits :
    (E : ContextEngine) (x : ContextSources)
    → IsCut E.part
    → 640 ≤ E.budget
    → (sum_by included_tokens (build E x) ≤ E.budget)
      × (build E x ≡ apply_budget_shares E (collect_items E x))
unfolding build trim
build-Fits E x cut big =
    let items = apply_budget_shares E (collect_items E x) in
    let fits = shared_le E (collect_items E x) cut big in
    let kept : trim E items ≡ items = ground (arith, fits) in (rw kept fits, kept)
