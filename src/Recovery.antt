-- ===== src/Recovery.antt =====
-- src/revenue_recovery/recovery_engine: the lifecycle of the recovery cases and the diagnosis.
pub mod Cases
pub mod Diagnosis
