-- ===== src/Foundation.antt =====
-- src/revenue_recovery/foundation: the domain enums and records, payload values, the exceptions of
-- all components, and the audit log.
pub mod Events
pub mod Errors
pub mod Value
pub mod Runtime
pub mod Audit
pub mod Audited
pub mod Config
