-- ===== src/Tests/Dispatcher.antt =====
-- The outbox (autonomy/dispatcher.py, autonomy/outbox.py) with concrete messages.
use cogito_agent.Prelude.{ℕ, ◌≡◌, refl, String, none, some, List, [], ◌∷◌, arith}
use cogito_agent.Policy.{
  new_engine, rule, allow, evaluate, evaluate_strategy, evaluate_custom, first_match, matches,
  matched,
}
use cogito_agent.Sql.{find, rowcount}
use cogito_agent.Dispatcher.{delivering, Message, OutboxStatus, pending, retrying, dead_letter}
use cogito_agent.Dispatcher.Send.{
  Dispatcher, delivered, refused, compute_backoff, process_message, deliver_one, check_policy,
}
use cogito_agent.Dispatcher.Drain.{HasDrained, process_all-HasDrained}
use cogito_agent.Dispatcher.Verdict.{fate, fates, process_message-fate}

abbrev message : String → OutboxStatus → String → ℕ → Message
message id status priority attempts = record {
  id = id;
  event_id = "e";
  decision_id = "d";
  workspace_id = "w";
  user_id = "u";
  title = "news";
  body = "";
  status = status;
  priority = priority;
  source = "system";
  trace_id = "";
  delivery_attempts = attempts;
  last_error = none;
  next_retry_at = none;
  created_at = attempts;
  updated_at = none;
  delivered_at = none;
  failed_at = none;
  read_at = none;
  dismissed_at = none;
  sent_at = none;
}

abbrev failing : Dispatcher
failing = record {
  policy = new_engine (some (rule "*" "*" "*" allow "*" "*" ∷ [])) none;
  deliver = λ now m. refused "offline";
  clip = λ s. s;
}

abbrev default_dispatcher : Dispatcher
default_dispatcher = record failing { policy = new_engine none none; deliver = λ now m. delivered }

abbrev low_one : Message
low_one = message "a" pending "low" 0

abbrev dead_one : Message
dead_one = message "b" dead_letter "normal" 5

abbrev high_one : Message
high_one = message "c" pending "high" 1

abbrev box : List Message
box = low_one ∷ dead_one ∷ high_one ∷ []

process_all-HasDrained_example : HasDrained failing (λ j. 100) 0 5 box
unfolding rowcount
process_all-HasDrained_example =
    process_all-HasDrained failing (λ j. 100) 100 0 5 box (λ j. (omega arith, omega arith))
      (omega arith)

process_message-fate_example :
    fates "a" (process_message failing 100 low_one box)
    ≡ some (fate 100 (deliver_one failing 100 low_one).0 low_one)
unfolding find
process_message-fate_example = process_message-fate failing 100 low_one box refl

-- The first failure waits for half a minute.
first_retry :
    fates "a" (process_message failing 100 low_one box)
    ≡ some (record { status = retrying; attempts = 1; next_retry = some 130 })
unfolding find deliver_one check_policy evaluate new_engine evaluate_strategy evaluate_custom
    first_match matches matched compute_backoff
first_retry = process_message-fate failing 100 low_one box refl

-- The process died after the row was marked.
abbrev left_over : Message
left_over = message "x" delivering "urgent" 1
