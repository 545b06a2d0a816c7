-- ===== src/Governance.antt =====
-- src/revenue_recovery/governance: the policy engine, the compliance scheduler and the arbitrator.
pub mod Policy
pub mod Scheduler
pub mod Arbitrator
