-- ===== src/AiDecision.antt =====
-- src/revenue_recovery/ai_decision: the recommendation for a diagnosed case, without authority.
pub mod Artifacts
pub mod Engine
