-- ===== src/Gate/Evaluate.antt =====
-- autonomy/gate.py: `evaluate` and `_governance_check`.
use Prim.Native.String.{◌++◌ as append}
use cogito_agent.Prelude.{
  ℕ, ◌+◌, ◌-◌, String, Bool, true, false, not, ◌&&◌, ◌||◌, Option, none, some, List, [], ◌∷◌, leb,
  ltb, ◌=s◌, or_else, if◌then◌else◌, take,
}
use cogito_agent.Sql.{rowcount, select}
use cogito_agent.Policy.{PolicyEngine, PolicyRequest, DecisionType, deny}
use cogito_agent.Policy
use cogito_agent.Gate.{
  AutonomyEvent, DecisionAction, push, skip, defer, PriorityLevel, low, normal, high, urgent,
  is_urgent, Config, no_config, get_default, GateDb, Notification, build_dedup_key, is_expired,
}
use cogito_agent.Gate.Quiet.{is_quiet_hours}
use cogito_agent.Gate.Quota.{
  is_duplicate, exceeded_daily_quota, exceeded_hourly_quota, compute_cost_score, recent_feedback_of,
  newest_sent,
}
use cogito_agent.Gate.Judge.{
  Floats, Dimensions, JudgeConfig, judge_llm_dims, judge_final_score, balance, low_dims,
}

pub record NotificationDecision : Type 0 where
  pub event_id : String
  pub action : DecisionAction
  pub reason_code : String
  pub cost_score : ℕ
  pub priority_score : ℕ
  pub dedup_hit : Bool
  pub quiet_hours_hit : Bool
  pub quota_hit : Bool
  pub requires_approval : Bool
  pub workspace_id : String
  pub user_id : String
  pub trace_id : String
  pub llm_dimensions : Option Dimensions

-- The adapter's chat and the JSON parser; none is any exception. The texts are the titles of the
-- last pushes.
abbrev pub JudgeModel : Type 0
JudgeModel = AutonomyEvent → List String → Option Dimensions

-- The gate with the collaborators that its constructor takes.
pub record Gate : Type 0 where
  pub policy : PolicyEngine
  pub llm : Option JudgeModel
  pub sha256 : String → String

-- `quiet_hours_hit`
unfoldable pub quiet_hit : GateDb → Option Config → ℕ → AutonomyEvent → Bool
quiet_hit db config now e =
    let c = get_default config no_config in
    (get_default c.quiet_hours_enabled true
      && not (
          e.quiet_hours_override
          || (is_urgent e.priority && get_default c.urgent_bypass_quiet_hours true)))
    && is_quiet_hours db e.workspace_id now config

-- `quota_hit`
unfoldable pub quota_hit_of : GateDb → Config → ℕ → AutonomyEvent → Bool
quota_hit_of db c now e =
    not (is_urgent e.priority && get_default c.urgent_bypass_quota true)
    && (exceeded_daily_quota db e.workspace_id now (get_default c.daily_quota 5)
        || exceeded_hourly_quota db e.workspace_id now (get_default c.hourly_quota 2))

unfoldable pub dedup_hit_of : (String → String) → GateDb → Config → ℕ → AutonomyEvent → Bool
dedup_hit_of sha256 db c now e =
    is_duplicate db e.workspace_id (build_dedup_key sha256 e)
      (get_default c.dedup_window_minutes 120) now

abbrev pub priority_score_of : PriorityLevel → ℕ
priority_score_of low = 1
priority_score_of normal = 2
priority_score_of high = 3
priority_score_of urgent = 4

-- A skip on expiry is built afresh, with every score and flag at its default.
abbrev pub expired_decision : AutonomyEvent → NotificationDecision
expired_decision e = record {
  event_id = e.event_id;
  action = skip;
  reason_code = "expired";
  cost_score = 0;
  priority_score = 0;
  dedup_hit = false;
  quiet_hours_hit = false;
  quota_hit = false;
  requires_approval = false;
  workspace_id = e.workspace_id;
  user_id = e.user_id;
  trace_id = e.trace_id;
  llm_dimensions = none;
}

abbrev pub decided : DecisionAction → String → NotificationDecision → NotificationDecision
decided a code d = record d { action = a; reason_code = code }

-- The request of `_governance_check`.
abbrev pub governance_request : AutonomyEvent → PolicyRequest
governance_request e = record {
  actor_id = or_else e.source "proactive_loop";
  capability_name = "notification.send";
  resource = append "workspace/" e.workspace_id;
  operation = "send";
  context = "background";
}

-- `_governance_check`: allowed, denied, or to be approved.
pub data Governance : Type 0 where
  allowed denied needs_approval : Governance

abbrev governance_of : DecisionType → Governance
governance_of DecisionType.deny = denied
governance_of DecisionType.require_approval = needs_approval
governance_of DecisionType.allow = allowed
governance_of DecisionType.allow_with_audit = allowed
governance_of DecisionType.escalate = allowed

unfoldable pub governance_check : PolicyEngine → AutonomyEvent → Governance
governance_check policy e = governance_of (Policy.evaluate policy (governance_request e)).decision

abbrev is_push : String → Notification → Bool
is_push w n = n.workspace_id =s w && n.decision =s "push"

abbrev titles : List Notification → List String
titles [] = []
titles (n ∷ ns) = if n.title =s "" then titles ns else n.title ∷ titles ns

unfoldable pub recent_titles : GateDb → String → List String
unfolding newest_sent
recent_titles db w = titles (take 5 (newest_sent (select (is_push w) db.notifications)))

abbrev ask_judge : Option JudgeModel → AutonomyEvent → List String → Option Dimensions
ask_judge none e recent = judge_llm_dims none
ask_judge (some llm) e recent = judge_llm_dims (some (llm e recent))

unfoldable pub dims_of : Gate → GateDb → AutonomyEvent → Option Dimensions
dims_of g db e = ask_judge g.llm e (recent_titles db e.workspace_id)

-- The pushes of the last 24 hours.
unfoldable pub sent_24h : GateDb → String → ℕ → ℕ
sent_24h db w now = rowcount (λ n. is_push w n && leb now (n.sent_at + 86400)) db.notifications

-- `interrupt_factor`
abbrev pub interrupting : PriorityLevel → Bool
interrupting low = false
interrupting normal = false
interrupting high = true
interrupting urgent = true

module _ (F : Floats) where
  open F use {Float, decimal, div, lt, is_zero}

  unfoldable pub judge_score_of :
      JudgeConfig F → GateDb → ℕ → AutonomyEvent → Option Dimensions → Float
  judge_score_of jc db now e dims =
      judge_final_score F jc (div (decimal (now - e.created_at) 0) (decimal 3600 0))
        (sent_24h db e.workspace_id now)
        (if interrupting e.priority then decimal 1 0 else decimal 0 0) dims

  -- The end of `evaluate`: the vetoes of the judge and the threshold.
  unfoldable pub judge_stage :
      JudgeConfig F
      → GateDb
      → ℕ
      → AutonomyEvent
      → Option Dimensions
      → NotificationDecision
      → NotificationDecision
  judge_stage jc db now e dims d =
      let score = judge_score_of jc db now e dims in
      let asked = record d { llm_dimensions = dims } in
      if is_zero score && lt (balance F jc (sent_24h db e.workspace_id now)) jc.veto_balance_min
      then decided skip "balance_veto" asked
      else if is_zero score && low_dims F jc dims
      then decided skip "llm_veto" asked
      else if lt score jc.send_threshold
      then decided skip "below_threshold" asked
      else decided push "allowed" asked

  -- The part of `evaluate` from the governance check on.
  unfoldable pub governed_stage :
      Gate
      → JudgeConfig F
      → GateDb
      → ℕ
      → AutonomyEvent
      → NotificationDecision
      → NotificationDecision
  governed_stage g jc db now e d = elim (governance_check g.policy e) [
    | denied ↦ decided skip "governance_denied" d
    | needs_approval ↦ record d {
      action = DecisionAction.require_approval;
      reason_code = "requires_approval";
      requires_approval = true;
    }
    | allowed ↦ judge_stage jc db now e (dims_of g db e) d
  ]

  -- The decision before any branch is taken.
  unfoldable pub assessed : Gate → Option Config → GateDb → ℕ → AutonomyEvent → NotificationDecision
  assessed g config db now e =
      let c = get_default config no_config in
      let quiet = quiet_hit db config now e in
      let quota = quota_hit_of db c now e in
      record {
        event_id = e.event_id;
        action = push;
        reason_code = "";
        cost_score =
            compute_cost_score e.priority quiet quota (recent_feedback_of db e.workspace_id);
        priority_score = priority_score_of e.priority;
        dedup_hit = dedup_hit_of g.sha256 db c now e;
        quiet_hours_hit = quiet;
        quota_hit = quota;
        requires_approval = false;
        workspace_id = e.workspace_id;
        user_id = e.user_id;
        trace_id = e.trace_id;
        llm_dimensions = none;
      }

  -- The branches, in their order.
  unfoldable pub branch :
      Gate
      → JudgeConfig F
      → GateDb
      → ℕ
      → AutonomyEvent
      → NotificationDecision
      → NotificationDecision
  branch g jc db now e d =
      if d.quiet_hours_hit
      then decided skip "quiet_hours" d
      else if d.dedup_hit
      then decided skip "dedup" d
      else if d.quota_hit
      then if ltb d.cost_score 10
        then decided defer "quota_deferred" d
        else decided push "quota_exceeded_high_priority" d
      else governed_stage g jc db now e d

  -- `evaluate`
  unfoldable pub evaluate :
      Gate → Option Config → JudgeConfig F → GateDb → ℕ → AutonomyEvent → NotificationDecision
  evaluate g config jc db now e =
      if is_expired now e
      then expired_decision e
      else branch g jc db now e (assessed g config db now e)
