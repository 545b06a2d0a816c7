-- ===== src/Reconciliation.antt =====
-- src/revenue_recovery/reconciliation: the revenue ledger and the handler of settlements and disputes.
pub mod Ledger
pub mod Handler
