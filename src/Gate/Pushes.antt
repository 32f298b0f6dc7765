-- ===== src/Gate/Pushes.antt =====
-- autonomy/gate.py: which events `evaluate` lets through.
use cogito_agent.Prelude.{ℕ, ◌≡◌, ◌⊎◌, true, false, Option, none, arith, ◌≤◌}
use cogito_agent.Policy.{new_engine}
use cogito_agent.Policy.Safety.{background_send_denied}
use cogito_agent.Gate.{
  AutonomyEvent, push, defer, low, normal, high, urgent, Config, no_config, get_default, GateDb,
  is_expired,
}
use cogito_agent.Gate.Quota.{compute_cost_score, total_feedback_cost, recent_feedback_of}
use cogito_agent.Gate.Judge.{Floats, Dimensions, JudgeConfig}
use cogito_agent.Gate.Evaluate.{
  NotificationDecision, Gate, quiet_hit, quota_hit_of, dedup_hit_of, allowed, denied,
  governance_check, judge_stage, judge_score_of, governed_stage, assessed, branch, evaluate,
  dims_of,
}

module _ (F : Floats) where
  open F use {lt}

  -- The judge stage pushes at the threshold only.
  judge_stage-push :
      (jc : JudgeConfig F) (db : GateDb) (now : ℕ) (e : AutonomyEvent) (dims : Option Dimensions)
      (d : NotificationDecision)
      → (judge_stage F jc db now e dims d).action ≡ push
      → lt (judge_score_of F jc db now e dims) jc.send_threshold ≡ false
  unfolding judge_stage
  judge_stage-push jc db now e dims d h = ground arith

  governed_stage-push :
      (g : Gate) (jc : JudgeConfig F) (db : GateDb) (now : ℕ) (e : AutonomyEvent)
      (d : NotificationDecision)
      → (governed_stage F g jc db now e d).action ≡ push
      → (governance_check g.policy e ≡ allowed)
        × (lt (judge_score_of F jc db now e (dims_of g db e)) jc.send_threshold ≡ false)
  unfolding governed_stage
  governed_stage-push g jc db now e d h =
      ground (arith, judge_stage-push jc db now e (dims_of g db e) d)

  branch-push :
      (g : Gate) (jc : JudgeConfig F) (db : GateDb) (now : ℕ) (e : AutonomyEvent)
      (d : NotificationDecision)
      → (branch F g jc db now e d).action ≡ push
      → (d.quiet_hours_hit ≡ false)
        × (d.dedup_hit ≡ false)
        × (((d.quota_hit ≡ true) × (10 ≤ d.cost_score))
            ⊎ ((d.quota_hit ≡ false)
                × (governance_check g.policy e ≡ allowed)
                × (lt (judge_score_of F jc db now e (dims_of g db e)) jc.send_threshold ≡ false)))
  unfolding branch
  branch-push g jc db now e d h = ground (arith, governed_stage-push g jc db now e d)

  -- An event is pushed only where it is neither expired, nor in quiet hours without a bypass, nor a
  -- duplicate, and either is over its quota at a cost of 5.0 or more, or within its quota, with
  -- governance allowing it and the judge's score at the threshold at least.
  pub push_requires :
      (g : Gate) (config : Option Config) (jc : JudgeConfig F) (db : GateDb) (now : ℕ)
      (e : AutonomyEvent)
      → (evaluate F g config jc db now e).action ≡ push
      → let c = get_default config no_config in
        let quiet = quiet_hit db config now e in
        let quota = quota_hit_of db c now e in
        (is_expired now e ≡ false)
        × (quiet ≡ false)
        × (dedup_hit_of g.sha256 db c now e ≡ false)
        × (((quota ≡ true)
              × (10
                  ≤ compute_cost_score e.priority quiet quota
                      (recent_feedback_of db e.workspace_id)))
            ⊎ ((quota ≡ false)
                × (governance_check g.policy e ≡ allowed)
                × (lt (judge_score_of F jc db now e (dims_of g db e)) jc.send_threshold ≡ false)))
  unfolding evaluate assessed
  push_requires g config jc db now e h =
      ground (arith, branch-push g jc db now e (assessed F g config db now e))

  -- Over its quota, outside quiet hours, with no feedback that costs, an event of priority low or
  -- normal is pushed, past governance and judge, while one of priority high or urgent is deferred.
  pub quota_favours_low :
      (g : Gate) (config : Option Config) (jc : JudgeConfig F) (db : GateDb) (now : ℕ)
      (e : AutonomyEvent)
      → is_expired now e ≡ false
      → quiet_hit db config now e ≡ false
      → dedup_hit_of g.sha256 db (get_default config no_config) now e ≡ false
      → quota_hit_of db (get_default config no_config) now e ≡ true
      → total_feedback_cost (recent_feedback_of db e.workspace_id) ≡ 0
      → (evaluate F g config jc db now e).action
        ≡ elim e.priority [ low ↦ push | normal ↦ push | high ↦ defer | urgent ↦ defer ]
  unfolding evaluate assessed branch compute_cost_score
  quota_favours_low g config jc db now e x q d t f = ground arith

-- With the default policy engine and no light model governance denies every event.
default_governance_denies : (e : AutonomyEvent) → governance_check (new_engine none none) e ≡ denied
unfolding governance_check
default_governance_denies e = rw (background_send_denied _ _ _)

-- With the default policy engine and no light model in it, only an event that is over its quota
-- is ever pushed.
pub default_pushes_over_quota :
    (F : Floats) (g : Gate) (config : Option Config) (jc : JudgeConfig F) (db : GateDb) (now : ℕ)
    (e : AutonomyEvent)
    → g.policy ≡ new_engine none none
    → (evaluate F g config jc db now e).action ≡ push
    → quota_hit_of db (get_default config no_config) now e ≡ true
default_pushes_over_quota F g config jc db now e d h =
    let denies : governance_check g.policy e ≡ denied = rw (d, default_governance_denies e) in
    ground (arith, denies, push_requires F g config jc db now e h)
