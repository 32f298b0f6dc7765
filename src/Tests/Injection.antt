-- ===== src/Tests/Injection.antt =====
-- The injection block (retrieval/injection.py) with whole numbers as scores.
use cogito_agent.Prelude.{
  ℕ, ◌+◌, ◌≤◌, ◌≡◌, refl, String, false, some, List, [], ◌∷◌, ltb, length, sort_by, insert_by,
}
use cogito_agent.Injection.{
  Retrieved, InjectionBuilder, Thresholds, pick_one, pick_all, format_line,
}
use cogito_agent.Injection.Build.{
  picked_from, build_injection, add_norms, add_events, truncate_section, fit_lines, count_lines,
}
use cogito_agent.Injection.Quotas.{quotas_kept}

abbrev builder : ℕ → InjectionBuilder ℕ
builder most = record {
  scores = record { zero_score = 0; add = λ a b. a + b; less = ltb };
  max_chars = most;
  max_forced = 3;
  max_procedure_preference = 4;
  max_event_profile = 2;
  line_max = 180;
  high_inject_delta = 0;
  clip = λ n t. t;
  strip = λ t. t;
  show_time = λ t. t;
}

abbrev thresholds : Thresholds ℕ
thresholds = record { procedure = 0; preference = 0; event = 0; profile = 0; default_threshold = 0 }

abbrev memory : String → String → Retrieved ℕ
memory id type_name = record {
  id = id;
  memory_id = "";
  mem_type = type_name;
  text = "1234567890";
  summary = "";
  final_score = some 5;
  rrf_score = 0;
  has_tool_requirement = false;
  happened_at = "";
  created_at = "";
}

abbrev events : List (Retrieved ℕ)
events = memory "a" "event" ∷ memory "b" "profile" ∷ memory "c" "event" ∷ []

-- The identifiers that are reported for events are their lines.
lines_for_ids :
    (build_injection (builder 1200) thresholds events).1 ≡ "1234567890" ∷ "1234567890" ∷ []
unfolding build_injection add_norms add_events truncate_section fit_lines count_lines pick_all
    pick_one format_line sort_by insert_by
lines_for_ids = refl

-- Of two preferences one line fits, and both identifiers are reported.
one_line_two_ids :
    (build_injection
      (builder 40)
      thresholds
      (memory "a" "preference" ∷ memory "b" "preference" ∷ [])).1
    ≡ "a" ∷ "b" ∷ []
unfolding build_injection add_norms add_events truncate_section fit_lines count_lines pick_all
    pick_one format_line sort_by insert_by
one_line_two_ids = refl

quotas_kept_example :
    let p = picked_from (builder 1200) thresholds events in
    (length p.forced.entries ≤ 3) × (length p.norms.entries ≤ 4) × (length p.events.entries ≤ 2)
quotas_kept_example = quotas_kept (builder 1200) thresholds events
