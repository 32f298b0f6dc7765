-- ===== src/Lib.antt =====
-- Cogito-Agent: a model of the core of the agent runtime. Paths are those below src/cogito_agent.
--
-- The program's parts and how they interact. A message enters the queue of queue/message_queue.py,
-- and the loop of queue/agent_loop.py hands it to the kernel of runtime/kernel.py, whose turn walks
-- through the states of shared/state.py: it selects a context (context/engine.py), calls a model
-- through the routes of models/router.py, and runs the tools that the model asks for. Every capability
-- is called through execution/executor.py, which asks the guardians and the policy engine
-- (governance/policy.py); those of MCP servers are registered by mcp/manager.py under the grants of
-- mcp/trust.py. Background work is a durable run with a lease in the repository of
-- runs/repository.py, as the jobs of autonomy/scheduler.py are. What the agent wants to tell on its
-- own passes the notification gate (autonomy/gate.py), which asks the policy engine too, and waits in
-- the outbox until autonomy/dispatcher.py has delivered it. A skill (skill/runner.py) is a durable run
-- too: its steps call capabilities through the executor, and it waits where a step asks for an
-- approval.
--
-- Prelude: tests, lists and texts that all files share.
-- Sql: the statements that the repositories run, on a table as the list of its rows.
-- Turn: shared/state.py. `transition` returns none where the code raises ValueError.
-- Policy: shared/policy.py and governance/policy.py. The strategies are the constructors of one
--   type; the light model with the parsing of its answer is an argument.
-- Runs: runs/repository.py. A method takes the tables and returns them with its result; the clock,
--   uuid4, json.dumps and the redaction are the argument `Env`.
-- Gate: autonomy/gate.py with autonomy/events.py and autonomy/decision.py. The cost score is in
--   halves; the numbers of the judge are floats, a type with its operations as an argument
--   (`Floats`), so that nothing is claimed of their rounding. The light model and the hash are
--   arguments of the gate.
-- Queue: storage/input_queue_repository.py, queue/message_queue.py and queue/agent_loop.py. The
--   coroutines are steps, each up to its next point of waiting, in any order; a crash is a step that
--   empties the memory. The kernel's answer and the callback's are arguments of a step.
-- Dispatcher: autonomy/dispatcher.py and autonomy/outbox.py. The delivery adapter is an argument.
-- Executor: execution/executor.py. `execute` is a chain of stages, one for each guard. The registry,
--   the tools, the policy, the guardians and the writers are fields of `Executor`; what the executor
--   does to the outside is kept in lists, in order.
-- Scheduler: autonomy/scheduler.py. It shares the runs and the executor with their own files. A job's
--   plain fields are a record, its statements are on a list of them; what is read of the world within
--   one job, the clock, identifiers and zones, is the argument `JobWorld`.
-- Mcp: mcp/trust.py, mcp/manager.py and the synchronisation. The hashes, the clients, the tools that a
--   server lists and the files are the argument `McpWorld`; the registry is the list of the
--   capabilities that it registered.
-- Router: models/router.py. Costs and latencies are floats, a type with its comparison as an argument;
--   an adapter answers or raises, or yields chunks and ends or raises.
-- Context: context/engine.py. Items carry their place where the code changes them through a list in
--   another order. Token counts, the percentages of a budget and the files are arguments.
-- Compression: context/compression.py. The strategy is an argument.
-- Injection: retrieval/injection.py. Scores are floats, as those of Router.
-- Kernel: runtime/kernel.py, `process` and what it calls, with runtime/budget.py. A stage leaves a
--   state and a result or an exception. The images of a turn are analysed by the pipeline of
--   runtime/vision_pipeline.py, whose vision service and parsing are fields of `Kernel`. The model, the policy, the context engine, the message store
--   and the clock are fields of `Kernel`, the executor is the one of Executor.
-- Skill: skill/runner.py with shared/skill.py, on the runs and the executor of their own files. `run`
--   and `resume` have a copy of the loop over the steps each, which differ in the wait for an approval:
--   they are one function with a flag. Costs are floats, as those of Router; the time that a step
--   takes, the model, conditions and schemas are fields of `SkillRunner`.
-- Tests: tests, and each theorem at an input that meets its hypotheses.
--
-- Times are seconds since the epoch in UTC, a quiet hour is a minute of the day, and one call reads
-- the clock once; the wall time of a turn is in microseconds.
--
-- A loop is a recursion on a list or on the number of attempts that are left. `process_all` alone
-- loops until nothing is left: it takes fuel, one unit for a batch, and answers none where the fuel
-- runs out; one unit more than there are messages due is enough, since each batch that is not empty
-- takes a message from those that are due.
--
-- Not modelled: user interfaces, network and model adapters, file and process I/O, encryption; the
-- texts of reasons and logs, which nothing reads; the identifiers that uuid4 makes are taken as they
-- come, and a clash of one or a foreign key that is missing is not treated as an error. Of the kernel,
-- the streamed turn, the messages that it sends and the consolidation are left out, and of its
-- collaborators only the model, the context engine and the message store raise. The resolver of the
-- router's adapters does not raise, and a crash of the queue is one step with the recovery after it. Drift,
-- subagents, the retrieval of memories, memory and workspaces are not modelled.
pub mod Prelude
pub mod Sql
pub mod Turn
pub mod Policy
pub mod Runs
pub mod Gate
pub mod Queue
pub mod Dispatcher
pub mod Executor
pub mod Compression
pub mod Context
pub mod Injection
pub mod Kernel
pub mod Mcp
pub mod Router
pub mod Scheduler
pub mod Skill
pub mod Tests
