-- ===== src/Tests/Queue.antt =====
-- The message queue and the agent loop (queue/, storage/input_queue_repository.py) at work.

use cogito_agent.Prelude.{ℕ, ◌≡◌, refl, String, Option, none, some, List, [], ◌∷◌, length}
use cogito_agent.Sql.{find, select, update}
use cogito_agent.Queue.{
  InboundMessage, QueueRow, QueueStatus, pending, processing, failed, reset_rows, recover_pending,
  by_created, insert_created, insert, set_status, update_status,
}
use cogito_agent.Queue.Loop.{
  LoopState, empty, output, complete_message, publish, enqueue_recovered, Step, step, steps,
  publish_step, begin_step, consume_step, consume, restart_step, mark, begin, put, put_all, restart,
}
use cogito_agent.Queue.Pending.{IsQueued}
use cogito_agent.Queue.Kept.{pending_kept}
use cogito_agent.Queue.Outcome.{statuses, complete_verdict}
use cogito_agent.Queue.Counter.{IsCounted, unfinished-IsCounted}

abbrev hello : InboundMessage
hello = record {
  channel = "cli";
  session_id = "s";
  workspace_id = "w";
  content = "hello";
  media = "null";
  metadata = "{}";
  queue_id = none;
}

-- Published at 0, taken at 1, and the process dies; it starts again at 500.
abbrev crash : List Step
crash =
    publish_step 0 "q1" hello
    ∷ consume_step
    ∷ begin_step 1
    ∷ publish_step 2 "q2" hello
    ∷ restart_step 500
    ∷ []

abbrev crashed : LoopState
crashed = steps crash empty

-- Both messages are back in memory.
crashed_memory : length crashed.memory ≡ 2
unfolding steps step consume publish begin mark restart enqueue_recovered put put_all insert
    update_status set_status recover_pending by_created insert_created select update reset_rows
crashed_memory = refl

pending_kept_example : IsQueued crashed
pending_kept_example = pending_kept crash (refl, (tt, (tt, (refl, (tt, tt)))))

unfinished-IsCounted_example : IsCounted crashed
unfinished-IsCounted_example = unfinished-IsCounted crash (tt, (tt, (tt, (tt, (tt, tt)))))

abbrev row : String → QueueStatus → Option ℕ → QueueRow
row id status started = record {
  id = id;
  payload = hello;
  status = status;
  task_type = "user_message";
  retry_count = 0;
  started_at = started;
  done_at = none;
  error = none;
  created_at = 0;
}

abbrev stale_rows : List QueueRow
stale_rows =
    row "a" processing (some 10) ∷ row "b" processing (some 900) ∷ row "c" pending none ∷ []

abbrev named : InboundMessage
named = record hello { queue_id = some "a" }

abbrev in_work : LoopState
in_work = record empty { rows = stale_rows; unfinished = 1 }

-- The callback raises, and the row that was done ends as failed.
complete_verdict_example :
    statuses "a" (complete_message 1000 named (output "hi") (some "broken pipe") in_work)
    ≡ some failed
unfolding find
complete_verdict_example =
    complete_verdict 1000 named (output "hi") (some "broken pipe") in_work refl
