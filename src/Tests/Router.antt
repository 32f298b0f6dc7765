-- ===== src/Tests/Router.antt =====
-- The model router (models/router.py) with two candidates.
use cogito_agent.Prelude.{
  IsLed, false, ◌=s◌, String, if◌then◌else◌, ◌=s◌, ◌+◌, ◌≡◌, ◌⊎◌, refl, String, true, false, none,
  some, List, [], ◌∷◌, arith, length, All, sort_by, insert_by, dict_get, dict_set,
}
use cogito_agent.Router.{
  Candidate, Breaker, new_breaker, health_of, estimated_cost, get_health, report_failure,
  report_success,
}
use cogito_agent.Router.Route.{prefers_model, route, sift, exclusion_reason, tuple_le, compare_keys}
use cogito_agent.Router.Request.{RouteArguments, text_content, request_for}
use cogito_agent.Router.Adapter.{
  RouterWorld, AdapterState, answered, raised, response, all_failed, chat, chat_loop,
  ordered_candidates, note_failure, note_success,
}
use cogito_agent.Router.Stream.{Streams, stream_loop}
use cogito_agent.Sql.{rowcount}
use cogito_agent.Router.Counts.{is_named, excludes, excludes_for, fails_for}
use cogito_agent.Router.Sound.{IsRoutable, IsFit, route_exact}
use cogito_agent.Router.Fallback.{
  AllFail, FirstAnswer, chat_loop_exact, AllSilent, FromOne, stream_loop_one,
}
use cogito_agent.Router.Circuit.{
  HealthCall, failed_call, looked_up, apply_calls, HasCounted, health-HasCounted,
}
use cogito_agent.Tests.Gate.{thousandths}

abbrev small : Candidate thousandths
small = record {
  candidate_id = "small";
  provider = "p";
  model = "s";
  capabilities = "chat" ∷ [];
  roles = "chat" ∷ [];
  input_modalities = "text" ∷ [];
  output_formats = [];
  context_window = 8192;
  quality_score = 500;
  expected_latency_ms = 1000;
  input_cost_per_million = 0;
  output_cost_per_million = 0;
  priority = 100;
  enabled = true;
}

abbrev large : Candidate thousandths
large = record small { candidate_id = "large"; model = "l"; quality_score = 900 }

abbrev off : Candidate thousandths
off = record small { candidate_id = "off"; enabled = false }

abbrev keywords : RouteArguments thousandths
keywords = record {
  route_request = none;
  role = "";
  task_kind = "";
  has_tools = false;
  max_tokens = none;
  preferred_candidates = [];
  strict_preferred = false;
}

abbrev breaker : Breaker
breaker = new_breaker 3 30000

-- The larger model is down.
abbrev half_down : RouterWorld thousandths
half_down = record {
  candidates = off ∷ small ∷ large ∷ [];
  breaker = breaker;
  clock = λ n. 100;
  attempt_clock = λ n. 200;
  call = λ n c.
      if c.model =s "l"
      then raised "down"
      else answered (record { content = "hello"; model = ""; provider = ""; error = none });
}

abbrev idle : AdapterState thousandths
idle = record { health = []; provider = ""; model = ""; events = [] }

-- The larger model is first, and the smaller one answers.
falls_back :
    (chat thousandths half_down (text_content 400 ∷ []) keywords idle).1
    ≡ response (record { content = "hello"; model = "s"; provider = "p"; error = none })
unfolding chat request_for route ordered_candidates chat_loop note_failure note_success sift sort_by
    insert_by exclusion_reason tuple_le compare_keys estimated_cost get_health report_failure
    report_success dict_get dict_set
falls_back = refl

route_exact_example :
    let r = request_for thousandths (text_content 400 ∷ []) keywords in
    let out = route thousandths r (λ n. 100) (off ∷ small ∷ large ∷ []) [] in
    let cs = off ∷ small ∷ large ∷ [] in
    let left = ordered_candidates thousandths out.1 in
    All (IsFit thousandths r) left
    × IsLed (prefers_model thousandths r) left
    × All (IsRoutable thousandths r out.0) left
    × ((k : String)
        → rowcount (is_named thousandths k) left
            + rowcount (excludes thousandths k) out.1.exclusions
          ≡ rowcount (is_named thousandths k) cs)
    × ((k reason : String)
        → (reason =s "circuit_open") ≡ false
        → rowcount (excludes_for thousandths k reason) out.1.exclusions
          ≡ rowcount (fails_for thousandths r k reason) cs)
route_exact_example =
    route_exact thousandths (request_for thousandths (text_content 400 ∷ []) keywords) (λ n. 100)
      (off ∷ small ∷ large ∷ []) []

chat_loop_exact_example :
    let out = chat_loop thousandths half_down 1 (large ∷ small ∷ []) [] idle in
    (AllFail thousandths half_down 1 (large ∷ small ∷ [])
      × ((es : List String) × (out.1 ≡ all_failed es) × (length es ≡ 0 + 2)))
    ⊎ FirstAnswer thousandths half_down 1 (large ∷ small ∷ []) out
chat_loop_exact_example = chat_loop_exact thousandths half_down 1 (large ∷ small ∷ []) [] idle

abbrev streams : Streams thousandths
streams = record {
  supports_streaming = λ c. true;
  stream_chat = λ n c. if c.model =s "l" then ([], some "down") else ("hel" ∷ "lo" ∷ [], none);
}

stream_loop_one_example :
    let out = stream_loop thousandths half_down streams 1 (large ∷ small ∷ []) [] idle in
    (AllSilent thousandths half_down streams 1 (large ∷ small ∷ []) × (out.1 ≡ []))
    ⊎ FromOne thousandths half_down streams 1 (large ∷ small ∷ []) out.1
stream_loop_one_example =
    stream_loop_one thousandths half_down streams 1 (large ∷ small ∷ []) [] idle

abbrev three_failures : List HealthCall
three_failures =
    failed_call 3 "large" "x"
    ∷ looked_up 2 "small"
    ∷ failed_call 2 "large" "x"
    ∷ failed_call 1 "large" "x"
    ∷ []

health-HasCounted_example :
    HasCounted breaker 3 3 true
      (health_of "large" (apply_calls breaker (looked_up 900000 "large" ∷ three_failures)))
health-HasCounted_example =
    health-HasCounted breaker "large" (looked_up 900000 "large" ∷ three_failures) (omega arith)
