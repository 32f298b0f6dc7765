-- ===== src/Tests.antt =====
-- Tests of the definitions, and each theorem with hypotheses at an input that meets them.
mod Turn
mod Policy
mod Runs
mod Gate
mod Queue
mod Dispatcher
mod Executor
mod Scheduler
mod Mcp
mod Router
mod Kernel
mod Context
mod Compression
mod Injection
mod Skill
mod Resume
