-- ===== src/Evidence.antt =====
-- src/revenue_recovery/evidence: who is in which arm of an experiment, and what is reported of it.
pub mod Experiment
pub mod Engine
