-- ===== src/Tests/Gate.antt =====
-- The notification gate (autonomy/gate.py) at concrete events, with numbers of three decimals.
use cogito_agent.Prelude.{
  ℕ, ◌+◌, ◌-◌, ◌*◌, ◌/◌, ◌%◌, ◌^◌, ◌≤◌, ◌≡◌, ◌⊎◌, refl, String, true, false, none, [], ◌∷◌, max,
  min, ltb, leb, ◌==◌, arith,
}
use cogito_agent.Policy.{new_engine}
use cogito_agent.Sql.{find, rowcount, select}
use cogito_agent.Gate.{
  AutonomyEvent, push, no_config, GateDb, Notification, is_expired, build_dedup_key,
}
use cogito_agent.Gate.Quiet.{in_window, in_window_clock, is_quiet_hours}
use cogito_agent.Gate.Quota.{
  is_duplicate, exceeded_daily_quota, exceeded_hourly_quota, daily_limit, compute_cost_score,
  total_feedback_cost, recent_feedback_of, newest_sent, feedback_texts,
}
use cogito_agent.Gate.Judge.{Floats, default_judge}
use cogito_agent.Gate.Evaluate.{
  Gate, evaluate, assessed, branch, quiet_hit, quota_hit_of, dedup_hit_of, judge_score_of, dims_of,
  governance_check, allowed,
}
use cogito_agent.Gate.Pushes.{push_requires}
use cogito_agent.Gate.Notify.{NotifyDb, NotifyEnv, plain_event, should_notify, priority_level}
use cogito_agent.Gate.Once.{notify_once}

in_window_clock_example :
    in_window 1320 480 30 ≡ leb ((30 + 1440 - 1320) % 1440) ((480 + 1440 - 1320) % 1440)
in_window_clock_example = in_window_clock 1320 480 30 (omega arith) (omega arith) (omega arith)

abbrev pub thousandths : Floats
thousandths = record {
  Float = ℕ;
  decimal = λ m k. m * 1000 / 10 ^ k;
  add = λ a b. a + b;
  sub = λ a b. a - b;
  mul = λ a b. a * b / 1000;
  div = λ a b. a * 1000 / b;
  max_of = max;
  min_of = min;
  lt = ltb;
  is_zero = λ a. a == 0;
}

abbrev plain_gate : Gate
plain_gate = record { policy = new_engine none none; llm = none; sha256 = λ s. s }

abbrev sent : String → ℕ → Notification
sent id at = record {
  id = id;
  workspace_id = "w";
  event_hash = id;
  title = id;
  body = "";
  decision = "push";
  priority = "normal";
  sent_at = at;
  feedback = none;
}

-- Noon of the first day, after two pushes in the hour.
abbrev noon : ℕ
noon = 43200

abbrev busy : GateDb
busy = record { notifications = sent "a" 43200 ∷ sent "b" 43200 ∷ []; settings = [] }

abbrev quiet : GateDb
quiet = record { notifications = []; settings = [] }

abbrev env_at : ℕ → NotifyEnv
env_at now = record {
  now = now;
  event_id = "e";
  decision_id = "d";
  notification_id = "n";
  inbox_id = "i";
  trace_id = "";
}

abbrev event : String → AutonomyEvent
event priority = plain_event (env_at noon) "w" "news" "" priority

-- A low event over the quota is pushed.
low_pushed :
    (evaluate thousandths plain_gate none
      (default_judge thousandths)
      busy
      noon
      (event "low")).action
    ≡ push
unfolding quiet_hit is_quiet_hours find quota_hit_of exceeded_daily_quota exceeded_hourly_quota
    daily_limit rowcount dedup_hit_of is_duplicate build_dedup_key total_feedback_cost
    recent_feedback_of newest_sent feedback_texts select is_expired priority_level evaluate assessed
    branch compute_cost_score
low_pushed = refl

push_requires_example :
    (is_expired noon (event "low") ≡ false)
    × (quiet_hit busy none noon (event "low") ≡ false)
    × (dedup_hit_of (λ s. s) busy no_config noon (event "low") ≡ false)
    × (((quota_hit_of busy no_config noon (event "low") ≡ true)
          × (10
              ≤ compute_cost_score
                  (event "low").priority
                  (quiet_hit busy none noon (event "low"))
                  (quota_hit_of busy no_config noon (event "low"))
                  (recent_feedback_of busy "w")))
        ⊎ ((quota_hit_of busy no_config noon (event "low") ≡ false)
            × (governance_check (new_engine none none) (event "low") ≡ allowed)
            × (ltb
                  (judge_score_of thousandths
                    (default_judge thousandths)
                    busy
                    noon
                    (event "low")
                    (dims_of plain_gate busy (event "low")))
                  600
                ≡ false)))
push_requires_example =
    push_requires thousandths plain_gate none (default_judge thousandths) busy noon (event "low")
      low_pushed

abbrev busy_db : NotifyDb
busy_db = record { gate_db = busy; decisions = []; inbox = [] }

notify_once_example :
    (should_notify thousandths plain_gate
      (env_at 50000)
      "w"
      "news"
      "again"
      "low"
      (should_notify thousandths plain_gate (env_at noon) "w" "news" "" "low" busy_db).0).1
    ≡ false
unfolding quiet_hit is_quiet_hours find quota_hit_of exceeded_daily_quota exceeded_hourly_quota
    daily_limit rowcount dedup_hit_of is_duplicate build_dedup_key total_feedback_cost
    recent_feedback_of newest_sent feedback_texts select is_expired priority_level evaluate assessed
    branch compute_cost_score should_notify
notify_once_example =
    notify_once thousandths plain_gate (env_at noon) (env_at 50000) "w" "news" "" "again" "low"
      "low" busy_db refl (omega arith)
