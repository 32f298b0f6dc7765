-- ===== src/Tests/Context.antt =====
-- The context engine (context/engine.py), in a small budget and in the default one.
use cogito_agent.Prelude.{
  ℕ, ◌*◌, ◌/◌, ◌≤◌, ◌≡◌, refl, String, true, false, none, some, [], ◌∷◌, ◌=s◌, map, if◌then◌else◌,
  arith, sort_by, insert_by, dict_get, dict_set,
}
use cogito_agent.Context.{ContextEngine, ContextSources, collect_items}
use cogito_agent.Context.Select.{
  place, put_back, category_for_source, cat_budget, share_out, apply_budget_shares, sum_by,
  included_tokens, trim, trim_loop, build,
}
use cogito_agent.Context.Shares.{tokens_in}
use cogito_agent.Context.Within.{IsCut, build-IsWithin}

-- A text counts as many tokens as it says.
abbrev tokens_of : String → ℕ
tokens_of t =
    if t =s "600"
    then 600
    else if t =s "100"
    then 100
    else if t =s "60"
    then 60
    else if t =s "50"
    then 50
    else 10

abbrev percentage : ℕ → ℕ → ℕ
percentage percent n = percent * n / 100

percentage-IsCut : IsCut percentage
percentage-IsCut percent n = omega arith

abbrev engine : ℕ → ContextEngine
engine budget = record {
  budget = budget;
  estimate_tokens = tokens_of;
  part = percentage;
  load_memory_file = λ path name. "";
  show_number = λ n. "";
}

abbrev two_tools : ContextSources
two_tools = record {
  recent_messages = record { id = "1"; content = "60"; role = "user" } ∷ [];
  memories = [];
  current_message = "hello";
  tool_results =
      record { tool = some "a"; summary = "60"; error = "" }
      ∷ record { tool = some "b"; summary = "50"; error = "" }
      ∷ [];
  file_context = [];
  system_text = "";
  session_summary = none;
  workspace_path = "";
}

-- In a budget of 100 tokens the first step of the trimming takes off an item that the shares had left
-- out already, and the context keeps 130 tokens.
trimmed_twice : sum_by included_tokens (build (engine 100) two_tools) ≡ 130
unfolding build collect_items apply_budget_shares trim trim_loop share_out place put_back
    category_for_source cat_budget sort_by insert_by dict_get dict_set
trimmed_twice = refl

abbrev long_message : ContextSources
long_message = record two_tools { system_text = "600"; current_message = "100" }

-- In the default budget a message of 100 tokens is left out after a system text of 600.
message_left_out :
    map (λ i. i.included) (build (engine 4096) long_message)
    ≡ true ∷ false ∷ true ∷ true ∷ true ∷ []
unfolding build collect_items apply_budget_shares trim trim_loop share_out place put_back
    category_for_source cat_budget sort_by insert_by dict_get dict_set
message_left_out = refl

build-IsWithin_example :
    sum_by (tokens_in "tool_file_context") (build (engine 100) two_tools)
    ≤ cat_budget (engine 100) "tool_file_context"
build-IsWithin_example = build-IsWithin (engine 100) two_tools "tool_file_context"
