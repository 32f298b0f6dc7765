-- ===== src/Queue/Loop.antt =====
-- queue/message_queue.py and queue/agent_loop.py: the queue in memory, the futures, and the steps of
-- the loop, each up to the next point where the event loop may switch tasks.
use cogito_agent.Prelude.{
  ℕ, zero, suc, ◌+◌, ◌-◌, String, Bool, not, Option, none, some, List, [], ◌∷◌, ◌++◌, ◌==◌, ◌=s◌,
  one_of, keep, map, if◌then◌else◌,
}
use cogito_agent.Queue.{
  QueueRow, InboundMessage, QueueStatus, processing, done, failed, insert, update_status,
  recover_pending, row_to_inbound,
}

-- What a future is settled with: the output, or the error.
pub data Outcome : Type 0 where
  result : String → Outcome
  exception : String → Outcome

-- `waiting` holds the keys of `_pending_futures` and `settled` the futures that were settled, in
-- order; `unfinished` is the counter of `asyncio.Queue`; `tasks` the messages whose task was made
-- and has not begun, in turn; `in_flight` the messages whose task waits
-- for the kernel.
pub record LoopState : Type 0 where
  pub rows : List QueueRow
  pub memory : List InboundMessage
  pub unfinished : ℕ
  pub tasks : List InboundMessage
  pub in_flight : List InboundMessage
  pub waiting : List String
  pub settled : List (String × Outcome)

abbrev pub empty : LoopState
empty = record {
  rows = [];
  memory = [];
  unfinished = 0;
  tasks = [];
  in_flight = [];
  waiting = [];
  settled = [];
}

-- `metadata.get("queue_id", "")`
abbrev pub queue_id_of : InboundMessage → String
queue_id_of m = elim m.queue_id [ none ↦ "" | some k ↦ k ]

unfoldable pub put : InboundMessage → LoopState → LoopState
put m s = record s { memory = s.memory ++ m ∷ []; unfinished = s.unfinished + 1 }

-- `publish`
unfoldable pub publish : ℕ → String → InboundMessage → LoopState → LoopState
unfolding put insert
publish now id m s =
    put (record m { queue_id = some id })
      (record s { rows = insert now id m "user_message" s.rows })

-- `publish_and_wait`, up to the wait.
unfoldable pub publish_and_wait : ℕ → String → InboundMessage → LoopState → LoopState
unfolding publish
publish_and_wait now id m s = let s' = publish now id m s in record s' { waiting = id ∷ s'.waiting }

abbrev pub pop : String → LoopState → LoopState
pop id s = record s { waiting = keep (λ k. not (k =s id)) s.waiting }

-- `publish_and_wait` when the wait times out.
unfoldable pub response_timeout : String → LoopState → LoopState
response_timeout id s = pop id s

-- `resolve_future` and `fail_future`
unfoldable pub settle_future : String → Outcome → LoopState → LoopState
settle_future id o s =
    if one_of id s.waiting then record (pop id s) { settled = s.settled ++ (id, o) ∷ [] } else s

-- `mark_processing`, `mark_done`, `mark_failed`: the write to the table, where there is an id.
unfoldable pub mark : ℕ → InboundMessage → QueueStatus → String → LoopState → LoopState
unfolding update_status
mark now m status e s =
    if queue_id_of m =s ""
    then s
    else record s { rows = update_status now (queue_id_of m) status e s.rows }

-- `task_done`: true where it raises ValueError.
unfoldable pub task_done : LoopState → LoopState × Bool
task_done s = (record s { unfinished = s.unfinished - 1 }, s.unfinished == 0)

abbrev pub consumed : LoopState → List InboundMessage → LoopState
consumed s [] = s
consumed s (m ∷ ms) = record s { memory = ms; tasks = s.tasks ++ m ∷ [] }

-- `consume`, and the task that `_run` makes.
unfoldable pub consume : LoopState → LoopState
consume s = consumed s s.memory

abbrev pub begun : ℕ → LoopState → List InboundMessage → LoopState
begun now s [] = s
begun now s (m ∷ ms) =
    mark now m processing "" (record s { tasks = ms; in_flight = s.in_flight ++ m ∷ [] })

-- The next task begins: `_process` up to the kernel.
unfoldable pub begin : ℕ → LoopState → LoopState
unfolding mark
begin now s = begun now s s.tasks

abbrev pub settle_by : InboundMessage → Outcome → LoopState → LoopState
settle_by m o s = if queue_id_of m =s "" then s else settle_future (queue_id_of m) o s

-- The except branch of `_process`; a ValueError from `mark_failed` leaves it.
unfoldable pub fail_message : ℕ → InboundMessage → String → LoopState → LoopState
unfolding mark task_done settle_future
fail_message now m e s =
    let r = task_done (mark now m failed e s) in if r.1 then r.0 else settle_by m (exception e) r.0

-- `_dispatch_outbound` calls `on_outbound`: none where it returns, the error where it raises.
abbrev pub called_back : ℕ → InboundMessage → Option String → LoopState → LoopState
called_back now m none s = s
called_back now m (some e) s = fail_message now m e s

-- What the kernel's `process_from_queue` does.
pub data KernelResult : Type 0 where
  output : String → KernelResult
  raised : String → KernelResult

-- `_process` from the kernel's answer on.
unfoldable pub complete_message :
    ℕ → InboundMessage → KernelResult → Option String → LoopState → LoopState
unfolding mark task_done settle_future fail_message
complete_message now m (raised e) callback s = fail_message now m e s
complete_message now m (output text) callback s =
    let r = task_done (mark now m done "" s) in
    if r.1
    then fail_message now m "task_done() called too many times" r.0
    else let s' = settle_by m (result text) r.0 in called_back now m callback s'

abbrev pub after_head {ℓ} : {A : Type ℓ} → A → Option (A × List A) → Option (A × List A)
after_head m none = none
after_head m (some (a, rest)) = some (a, m ∷ rest)

-- The message at a place of a list, and the others.
unfoldable pub take_at {ℓ} : {A : Type ℓ} → ℕ → List A → Option (A × List A)
take_at k [] = none
take_at zero (m ∷ ms) = some (m, ms)
take_at (suc k) (m ∷ ms) = after_head m (take_at k ms)

abbrev pub complete_taken :
    ℕ
    → KernelResult
    → Option String
    → LoopState
    → Option (InboundMessage × List InboundMessage)
    → LoopState
complete_taken now answer callback s none = s
complete_taken now answer callback s (some (m, rest)) =
    complete_message now m answer callback (record s { in_flight = rest })

-- One of the tasks ends.
unfoldable pub complete : ℕ → ℕ → KernelResult → Option String → LoopState → LoopState
unfolding take_at complete_message
complete now k answer callback s = complete_taken now answer callback s (take_at k s.in_flight)

unfoldable pub put_all : List InboundMessage → LoopState → LoopState
unfolding put
put_all [] s = s
put_all (m ∷ ms) s = put_all ms (put m s)

-- `enqueue_recovered`, with which `start` begins.
unfoldable pub enqueue_recovered : ℕ → LoopState → LoopState
unfolding recover_pending put_all
enqueue_recovered now s =
    let r = recover_pending now 300 none s.rows in
    put_all (map row_to_inbound r.1) (record s { rows = r.0 })

-- The process dies, and a new one starts on the same database.
unfoldable pub restart : ℕ → LoopState → LoopState
unfolding enqueue_recovered
restart now s =
    enqueue_recovered now
      (record s { memory = []; unfinished = 0; tasks = []; in_flight = []; waiting = [] })

-- The steps, in any order.
pub data Step : Type 0 where
  publish_step : ℕ → String → InboundMessage → Step
  publish_and_wait_step : ℕ → String → InboundMessage → Step
  timeout_step : String → Step
  consume_step : Step
  begin_step : ℕ → Step
  complete_step : ℕ → ℕ → KernelResult → Option String → Step
  start_step : ℕ → Step
  restart_step : ℕ → Step

unfoldable pub step : Step → LoopState → LoopState
step (publish_step now id m) s = publish now id m s
step (publish_and_wait_step now id m) s = publish_and_wait now id m s
step (timeout_step id) s = response_timeout id s
step consume_step s = consume s
step (begin_step now) s = begin now s
step (complete_step now k answer callback) s = complete now k answer callback s
step (start_step now) s = enqueue_recovered now s
step (restart_step now) s = restart now s

unfoldable pub steps : List Step → LoopState → LoopState
unfolding step
steps [] s = s
steps (x ∷ xs) s = steps xs (step x s)
