-- ===== src/Gate/Quota.antt =====
-- autonomy/gate.py: duplicates, quotas and the cost score.
use cogito_agent.Prelude.{
  ℕ, ◌+◌, ◌*◌, ◌/◌, String, Bool, true, false, ◌&&◌, Option, none, some, List, [], ◌∷◌, leb, ltb,
  ◌==◌, ◌=s◌, if◌then◌else◌, take,
}
use cogito_agent.Sql.{find, rowcount, select}
use cogito_agent.Gate.{
  GateDb, Notification, WorkspaceSettings, PriorityLevel, low, normal, high, urgent,
}

-- `_is_duplicate`: the same key in the workspace, sent within the window.
unfoldable pub is_duplicate : GateDb → String → String → ℕ → ℕ → Bool
is_duplicate db w key window_minutes now = ltb 0 (
    rowcount
      (λ n.
        n.workspace_id =s w && (n.event_hash =s key && leb now (n.sent_at + window_minutes * 60)))
      db.notifications)

abbrev settings_of : String → WorkspaceSettings → Bool
settings_of w s = s.workspace_id =s w

abbrev from_settings : ℕ → Option WorkspaceSettings → ℕ
from_settings n none = n
from_settings n (some s) = elim s.max_daily_notifications [ none ↦ n | some m ↦ m ]

-- A limit of 5 gives way to the one of the workspace, where that is set.
unfoldable pub daily_limit : GateDb → String → ℕ → ℕ
daily_limit db w max_daily =
    if max_daily == 5 then from_settings max_daily (find (settings_of w) db.settings) else max_daily

abbrev pushed_in : String → Notification → Bool
pushed_in w n = n.workspace_id =s w && n.decision =s "push"

-- `_exceeded_daily_quota`: the pushes of the same day in UTC.
unfoldable pub exceeded_daily_quota : GateDb → String → ℕ → ℕ → Bool
unfolding daily_limit
exceeded_daily_quota db w now max_daily =
    leb (daily_limit db w max_daily)
      (rowcount (λ n. pushed_in w n && n.sent_at / 86400 == now / 86400) db.notifications)

-- `_exceeded_hourly_quota`: the pushes since the hour began.
unfoldable pub exceeded_hourly_quota : GateDb → String → ℕ → ℕ → Bool
exceeded_hourly_quota db w now max_hourly =
    leb max_hourly
      (rowcount (λ n. pushed_in w n && leb (now / 3600 * 3600) n.sent_at) db.notifications)

-- Scores are in halves: the source's 0.5 is 1.
abbrev pub priority_cost : PriorityLevel → ℕ
priority_cost low = 6
priority_cost normal = 4
priority_cost high = 1
priority_cost urgent = 0

unfoldable pub feedback_cost : String → ℕ
feedback_cost fb =
    if fb =s "too_many"
    then 4
    else if fb =s "wrong_time"
    then 3
    else if fb =s "not_useful"
    then 2
    else 0

unfoldable pub total_feedback_cost : List String → ℕ
unfolding feedback_cost
total_feedback_cost [] = 0
total_feedback_cost (fb ∷ fbs) = feedback_cost fb + total_feedback_cost fbs

-- `_compute_cost_score`
unfoldable pub compute_cost_score : PriorityLevel → Bool → Bool → List String → ℕ
compute_cost_score p quiet_hours_hit quota_hit recent_feedback =
    priority_cost p
    + (if quiet_hours_hit then 10 else 0)
    + (if quota_hit then 6 else 0)
    + total_feedback_cost recent_feedback

-- `SELECT feedback … ORDER BY sent_at DESC LIMIT 5`: the newest first.
abbrev has_feedback : String → Notification → Bool
has_feedback w n = n.workspace_id =s w && elim n.feedback [ none ↦ false | some f ↦ true ]

unfoldable pub insert_sent : Notification → List Notification → List Notification
insert_sent n [] = n ∷ []
insert_sent n (m ∷ ms) = if leb m.sent_at n.sent_at then n ∷ m ∷ ms else m ∷ insert_sent n ms

unfoldable pub newest_sent : List Notification → List Notification
unfolding insert_sent
newest_sent [] = []
newest_sent (n ∷ ns) = insert_sent n (newest_sent ns)

-- `[r["feedback"] for r in rows if r["feedback"]]`
unfoldable pub feedback_texts : List Notification → List String
feedback_texts [] = []
feedback_texts (n ∷ ns) =
    let rest = feedback_texts ns in
    elim n.feedback [ none ↦ rest | some f ↦ if f =s "" then rest else f ∷ rest ]

unfoldable pub recent_feedback_of : GateDb → String → List String
unfolding newest_sent feedback_texts
recent_feedback_of db w =
    feedback_texts (take 5 (newest_sent (select (has_feedback w) db.notifications)))
