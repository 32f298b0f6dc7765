-- ===== src/Tests/Resume.antt =====
-- Skills that wait for an approval, and are resumed.
use cogito_agent.Prelude.{ℕ, ◌≡◌, refl, String, some, [], ◌∷◌, length, dict_get, dict_set, arith}
use cogito_agent.Sql.{find, update, rowcount}
use cogito_agent.Runs.{Run, RunStatus, get, max_sequence, append_event}
use cogito_agent.Runs.Lifecycle.{resume_waiting, finish, status_text}
use cogito_agent.Runs.Spec.{IsKeyed}
use cogito_agent.Executor.{
  repeats_of, count_call, write_record, findings_of, attempt_loop, offload_large_result,
}
use cogito_agent.Executor.Steps.{execute, guard_stage, policy_stage, invoke_stage}
use cogito_agent.Skill.{LogStatus, logged, ResumeData, RunLogRow, ApprovalRow, SkillState}
use cogito_agent.Skill.Step.{
  apply_mapping, execute_step, execute_approval_step, attempt, controlled,
  execute_step_with_controls,
}
use cogito_agent.Skill.Loop.{normalize_output, after_output, after_error, step_once, step_loop}
use cogito_agent.Skill.Run.{persist_run_log, finish_durable_run}
use cogito_agent.Skill.Resume.{
  resume, approved_stage, resumed_stage, decide_entry, has_log_id, has_approval_id,
}
use cogito_agent.Runs.Moves.{RunIs}
use cogito_agent.Skill.Resumed.{ResumeSettled, resume_settles}
use cogito_agent.Skill.Gate.{any_approval_resumes}
use cogito_agent.Tests.Runs.{first_run}
use cogito_agent.Tests.Skill.{runner, asks, writes, asks_again, two_gates, world, start}

abbrev saved : ResumeData ℕ
saved = record {
  durable_run_id = "r1";
  manifest = two_gates;
  approval_step = asks;
  remaining = asks_again ∷ writes ∷ [];
  step_context = [];
  total_cost = 0;
  executed_steps = asks ∷ [];
  workspace_id = "w";
  session_id = "s";
  inputs = [];
}

abbrev waiting_row : RunLogRow ℕ
waiting_row = record {
  id = "l1";
  workspace_id = "w";
  skill_name = "publish";
  trace_id = "t";
  status = LogStatus.pending_approval;
  step_logs = logged "ask" "pending_approval" "a1" ∷ [];
  resume_data = some saved;
}

abbrev approved : String → ApprovalRow
approved id = record { id = id; capability_name = "skill.other"; decision = "approved" }

abbrev waiting_run : Run
waiting_run = record first_run { status = RunStatus.waiting_approval }

abbrev waiting : SkillState ℕ
waiting = record start {
  runs = record { runs = waiting_run ∷ []; events = []; outputs = [] };
  approvals = approved "a1" ∷ approved "a2" ∷ [];
  run_logs = waiting_row ∷ [];
}

-- The second approval step is asked for and not waited for: the capability behind it is called.
passed_unasked :
    (length (resume runner world "l1" "a1" waiting).0.executor.invocations ≡ 1)
    × (length (resume runner world "l1" "a1" waiting).0.approvals ≡ 3)
unfolding resume approved_stage resumed_stage decide_entry persist_run_log finish_durable_run find
    resume_waiting update rowcount step_loop step_once after_output after_error
    execute_step_with_controls controlled attempt execute_step execute_approval_step apply_mapping
    normalize_output dict_get dict_set execute guard_stage policy_stage invoke_stage count_call
    repeats_of write_record findings_of attempt_loop offload_large_result append_event max_sequence
    finish status_text
passed_unasked = (refl, refl)

waiting-IsKeyed : IsKeyed waiting.runs
unfolding rowcount
waiting-IsKeyed k = ground arith

waits : RunIs "r1" RunStatus.waiting_approval waiting.runs
unfolding get find
waits = (waiting_run, refl, refl)

row_found : find (has_log_id "l1") waiting.run_logs ≡ some waiting_row
unfolding find
row_found = refl

first_found : find (has_approval_id "a1") waiting.approvals ≡ some (approved "a1")
unfolding find
first_found = refl

second_found : find (has_approval_id "a2") waiting.approvals ≡ some (approved "a2")
unfolding find
second_found = refl

resume_settles_example :
    ResumeSettled runner world saved refl (resume runner world "l1" "a1" waiting)
resume_settles_example =
    resume_settles runner world "l1" "a1" waiting waiting_row saved (approved "a1") row_found refl
      refl first_found refl refl waiting-IsKeyed waits

-- An approval that was asked for something else resumes the log alike.
resumed_by_another : resume runner world "l1" "a1" waiting ≡ resume runner world "l1" "a2" waiting
resumed_by_another =
    any_approval_resumes runner world "l1" "a1" "a2" waiting waiting_row saved (approved "a1")
      (approved "a2") row_found refl refl first_found second_found refl
