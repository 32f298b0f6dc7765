-- ===== src/Injection/Build.antt =====
-- retrieval/injection.py: the sections of the block, within its characters.
use Prim.Native.String.{◌++◌ as append, count}
use cogito_agent.Prelude.{
  ℕ, ◌+◌, ◌-◌, String, List, [], ◌∷◌, ◌++◌, map, ◌=s◌, ltb, leb, sort_by, if◌then◌else◌,
}
use cogito_agent.Injection.{
  Retrieved, InjectionBuilder, Thresholds, Section, Picked, ranks_before, pick_all,
}

abbrev pub no_entries : Section
no_entries = record { entries = []; size = 0 }

abbrev pub no_picks : Picked
no_picks = record { forced = no_entries; norms = no_entries; events = no_entries }

-- The loop of `_truncate_section`.
unfoldable pub fit_lines : ℕ → String → List String → String
fit_lines budget result [] = result
fit_lines budget result (l ∷ ls) =
    let candidate = append result (append "  " (append l "\n")) in
    let more = fit_lines budget candidate ls in
    if ltb budget (count candidate) then result else more

-- `_truncate_section`
unfoldable pub truncate_section : String → List String → ℕ → String
unfolding fit_lines
truncate_section header lines budget =
    let result = fit_lines budget header lines in if result =s header then "" else result

abbrev pub joined_from : String → List String → String
joined_from sep [] = ""
joined_from sep (t ∷ ts) = append sep (append t (joined_from sep ts))

-- `sep.join(texts)`
abbrev pub joined : String → List String → String
joined sep [] = ""
joined sep (t ∷ ts) = append t (joined_from sep ts)

abbrev pub block_of : String → List (String × String) → String
block_of header es = append header (joined "\n" (map (λ e. append "  " e.1) es))

abbrev pub forced_header : String
forced_header = "## 【强制约束】必须执行的记忆规则\n"

abbrev pub norms_header : String
norms_header = "## 【流程规范】用户偏好与规则\n"

abbrev pub events_header : String
events_header = "## 【相关历史】过往对话与画像\n"

-- The parts of the block, the identifiers that are reported, and the characters.
pub record Assembly : Type 0 where
  pub parts : List String
  pub injected_ids : List String
  pub total_chars : ℕ

abbrev pub ids : List (String × String) → List String
ids es = map (λ e. e.0) es

abbrev pub lines : List (String × String) → List String
lines es = map (λ e. e.1) es

abbrev pub with_block : String → List String → Assembly → Assembly
with_block block names a = record {
  parts = a.parts ++ block ∷ [];
  injected_ids = a.injected_ids ++ names;
  total_chars = a.total_chars + count block;
}

abbrev pub add_forced : List (String × String) → Assembly → Assembly
add_forced [] a = a
add_forced (e ∷ es) a = with_block (block_of forced_header (e ∷ es)) (ids (e ∷ es)) a

-- The loop that counts the lines of the norms again.
unfoldable pub count_lines : ℕ → List (String × String) → Assembly → Assembly
count_lines most [] a = a
count_lines most (e ∷ es) a =
    let n = a.total_chars + count (append "  " (append e.1 "\n")) in
    let more =
      count_lines most es
        (record a { injected_ids = a.injected_ids ++ e.0 ∷ []; total_chars = n }) in
    if ltb most n then a else more

abbrev pub add_part : String → Assembly → Assembly
add_part part a = record a { parts = a.parts ++ part ∷ [] }

unfoldable pub add_norms : ℕ → List (String × String) → Assembly → Assembly
unfolding truncate_section count_lines
add_norms most [] a = a
add_norms most (e ∷ es) a =
    let block = block_of norms_header (e ∷ es) in
    let part = truncate_section norms_header (lines (e ∷ es)) (most - a.total_chars) in
    if leb most a.total_chars
    then a
    else if leb (count block) (most - a.total_chars)
    then with_block block (ids (e ∷ es)) a
    else if part =s ""
    then a
    else count_lines most (e ∷ es) (add_part part a)

-- Where all events fit, it is their lines that are reported.
unfoldable pub add_events : ℕ → List (String × String) → Assembly → Assembly
unfolding truncate_section
add_events most [] a = a
add_events most (e ∷ es) a =
    let block = block_of events_header (e ∷ es) in
    let part = truncate_section events_header (lines (e ∷ es)) (most - a.total_chars) in
    if leb most a.total_chars
    then a
    else if leb (count block) (most - a.total_chars)
    then with_block block (lines (e ∷ es)) a
    else if part =s ""
    then a
    else add_part part a

abbrev pub nothing : Assembly
nothing = record { parts = []; injected_ids = []; total_chars = 0 }

-- What `build` selects.
abbrev pub picked_from :
    {F : Type 0} → InjectionBuilder F → Thresholds F → List (Retrieved F) → Picked
picked_from B T items = pick_all B T (sort_by (ranks_before B T) items) no_picks

-- `build`
unfoldable pub build_injection :
    {F : Type 0} → InjectionBuilder F → Thresholds F → List (Retrieved F) → String × List String
unfolding add_norms add_events pick_all sort_by
build_injection B T items =
    let p = picked_from B T items in
    let a =
      add_events B.max_chars p.events.entries
        (add_norms B.max_chars p.norms.entries (add_forced p.forced.entries nothing)) in
    (joined "\n\n" a.parts, a.injected_ids)
