-- ===== src/Safety.antt =====
-- src/revenue_recovery/safety: kill switches, circuit breakers, the capacity governor, and the
-- signed authorization tokens.
pub mod Breaker
pub mod Registry
pub mod Capacity
pub mod KillSwitch
pub mod Authorizer
