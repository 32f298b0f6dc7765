-- ===== src/Context/Select.antt =====
-- context/engine.py: `_apply_budget_shares`, `_trim` and `build`. The source changes the items through
-- lists in another order; here an item carries its place, and is put back there.
use Prim.Native.String.{◌++◌ as append}
use cogito_agent.Prelude.{
  ℕ, ◌+◌, ◌-◌, max, String, Bool, false, not, ◌&&◌, ◌||◌, none, some, List, [], ◌∷◌, ◌++◌, map,
  ◌=s◌, ltb, leb, ◌==◌, sort_by, if◌then◌else◌, Dict, dict_get, dict_set,
}
use cogito_agent.Context.{ContextItem, ContextEngine, ContextSources, collect_items}

-- An item with its place in the list.
abbrev pub Placed : Type 0
Placed = ℕ × ContextItem

unfoldable pub place : ℕ → List ContextItem → List Placed
place n [] = []
place n (i ∷ is) = (n, i) ∷ place (n + 1) is

abbrev pub by_place : Placed → Placed → Bool
by_place a b = leb a.0 b.0

abbrev pub by_rank : Placed → Placed → Bool
by_rank a b = leb a.1.rank b.1.rank

-- `(-x.rank, x.token_estimate)`
abbrev pub by_trim_key : Placed → Placed → Bool
by_trim_key a b =
    ltb b.1.rank a.1.rank || ((a.1.rank == b.1.rank) && leb a.1.token_estimate b.1.token_estimate)

unfoldable pub put_back : List Placed → List ContextItem
unfolding sort_by
put_back ps = map (λ p. p.1) (sort_by by_place ps)

-- `_category_for_source`
unfoldable pub category_for_source : String → String
category_for_source t =
    if t =s "current_message" || t =s "system"
    then "system"
    else if (t =s "memory" || t =s "memory_resident") || t =s "memory_retrieved"
    then "retrieved_memory"
    else if t =s "memory_file"
    then "memory_file"
    else if (t =s "tool" || t =s "file") || t =s "skill"
    then "tool_file_context"
    else "recent_messages"

-- `_DEFAULT_BUDGET_SHARES`, in percent.
abbrev pub default_budget_shares : Dict ℕ
default_budget_shares =
    ("system", 15)
    ∷ ("recent_messages", 35)
    ∷ ("retrieved_memory", 10)
    ∷ ("memory_file", 10)
    ∷ ("tool_file_context", 20)
    ∷ ("response_reserve", 10)
    ∷ []

-- `budgets.get(cat, self._budget)`
unfoldable pub cat_budget : ContextEngine → String → ℕ
unfolding dict_get
cat_budget E cat = elim (dict_get cat default_budget_shares) [
  | none ↦ E.budget
  | some percent ↦ max 64 (E.part percent E.budget)
]

abbrev pub used_of : String → Dict ℕ → ℕ
used_of cat usage = elim (dict_get cat usage) [ none ↦ 0 | some n ↦ n ]

abbrev pub excluded : String → ContextItem → ContextItem
excluded why i = record i { included = false; exclusion_reason = why }

-- The loop of `_apply_budget_shares`.
unfoldable pub share_out : ContextEngine → List Placed → Dict ℕ → List Placed
unfolding category_for_source cat_budget dict_set
share_out E [] usage = []
share_out E ((p, i) ∷ is) usage =
    let cat = category_for_source i.source_type in
    let n = used_of cat usage + i.token_estimate in
    let over = share_out E is usage in
    let fits = share_out E is (dict_set cat n usage) in
    if ltb (cat_budget E cat) n
    then (p, excluded (append "exceeded_" (append cat "_budget")) i) ∷ over
    else (p, i) ∷ fits

-- `_apply_budget_shares`
unfoldable pub apply_budget_shares : ContextEngine → List ContextItem → List ContextItem
unfolding share_out place put_back
apply_budget_shares E items = put_back (share_out E (sort_by by_rank (place 0 items)) [])

abbrev pub sum_by : {A : Type 0} → (A → ℕ) → List A → ℕ
sum_by f [] = 0
sum_by f (x ∷ xs) = f x + sum_by f xs

abbrev pub included_tokens : ContextItem → ℕ
included_tokens i = if i.included then i.token_estimate else 0

abbrev pub is_current : Placed → Bool
is_current p = p.1.source_type =s "current_message"

abbrev pub filter_by : {A : Type 0} → (A → Bool) → List A → List A
filter_by p [] = []
filter_by p (x ∷ xs) = let rest = filter_by p xs in if p x then x ∷ rest else rest

-- The loop of `_trim`; a total below zero is zero here, and within every budget.
unfoldable pub trim_loop : ℕ → ℕ → List Placed → List Placed
trim_loop budget total [] = []
trim_loop budget total ((p, i) ∷ is) =
    let rest = trim_loop budget (total - i.token_estimate) is in
    if leb total budget then (p, i) ∷ is else (p, excluded "trimmed_budget" i) ∷ rest

-- `_trim`
unfoldable pub trim : ContextEngine → List ContextItem → List ContextItem
unfolding trim_loop place put_back
trim E items =
    let total = sum_by included_tokens items in
    let placed = place 0 items in
    let order = sort_by by_trim_key (filter_by (λ p. not (is_current p)) placed) in
    if leb total E.budget
    then items
    else put_back (filter_by is_current placed ++ trim_loop E.budget total order)

-- `build`
unfoldable pub build : ContextEngine → ContextSources → List ContextItem
unfolding collect_items apply_budget_shares trim
build E x = trim E (apply_budget_shares E (collect_items E x))
