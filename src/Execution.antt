-- ===== src/Execution.antt =====
-- src/revenue_recovery/executor: the idempotency store and the executor of authorized actions.
pub mod Idempotency
pub mod Executor
pub mod SandboxGuard
