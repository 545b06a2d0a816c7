-- ===== src/Foundation/Audited.antt =====
-- An audit logger that a component may have been given: `if self.audit_logger is not None`.
use ai_revenue_recovery.Prelude.{ℕ, String, Option, none, some}
use ai_revenue_recovery.Foundation.Value.{Value}
use ai_revenue_recovery.Foundation.Runtime.{Runtime}
use ai_revenue_recovery.Foundation.Audit.{AuditLog, append}
use ai_revenue_recovery.Foundation.Audit.Chain.{IsChained, append-IsChained}
use ai_revenue_recovery.Foundation.Audit.{genesis_previous_hash}

module _ (rt : Runtime) where
  unfoldable pub log_event : String → Value → ℕ → Option AuditLog → Option AuditLog
  log_event event_type payload timestamp none = none
  log_event event_type payload timestamp (some log) =
      some (append rt event_type payload timestamp log).1

  -- An attached log passes its verification.
  abbrev pub IsVerified : Option AuditLog → Type 0
  IsVerified none = Unit
  IsVerified (some log) = IsChained rt 0 genesis_previous_hash log

  pub log_event-IsVerified :
      (event_type : String) (payload : Value) (timestamp : ℕ) (audit : Option AuditLog)
      → IsVerified audit
      → IsVerified (log_event event_type payload timestamp audit)
  unfolding log_event
  log_event-IsVerified event_type payload timestamp none h = h
  log_event-IsVerified event_type payload timestamp (some log) h =
      append-IsChained rt event_type payload timestamp log h
