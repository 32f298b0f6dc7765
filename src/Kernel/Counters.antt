-- ===== src/Kernel/Counters.antt =====
-- runtime/kernel.py: the numbers of model calls and of tool calls in the tools and in a whole turn.
use cogito_agent.Kernel.{Kernel}
