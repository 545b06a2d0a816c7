-- ===== src/Execution/Executor/Scope.antt =====
-- Which tokens gate 1 accepts for a request.
use ai_revenue_recovery.Prelude.{ℕ, String, some, ◌≡◌, ◌↔◌, arith, eq_iff}
use ai_revenue_recovery.Prelude.Exec.{IsOk}
use ai_revenue_recovery.Foundation.Runtime.{Runtime}
use ai_revenue_recovery.Safety.Authorizer.{ActionAuthorization}
use ai_revenue_recovery.Safety.Authorizer.Verification.{
  IsGenuine, verify_authorization_iff, verify_authorization-IsOk,
}
use ai_revenue_recovery.Execution.Idempotency.{ExecutionRequest}
use ai_revenue_recovery.Execution.Executor.{check_authorization}

module _ (rt : Runtime) (secret : String) where
  -- The token is genuine for all that the request asks, and bound to the request.
  pub record IsScoped (request : ExecutionRequest) (token : ActionAuthorization) (now : ℕ)
      : Type 0 where
    pub genuine :
        IsGenuine rt secret token
          (some request.customer_id)
          (some request.currency)
          (some request.amount_in_cents)
          (some request.channel)
          now
    pub case_id : token.grant.case_id ≡ request.case_id
    pub action_type : token.grant.action_type ≡ request.action_type
    pub key : token.grant.idempotency_key ≡ request.idempotency_key

  module _ (request : ExecutionRequest) (token : ActionAuthorization) (now : ℕ) where
    check_authorization_sound :
        IsOk (check_authorization rt secret request token now) → IsScoped request token now
    unfolding check_authorization
    check_authorization_sound h = record {
      genuine =
          (verify_authorization_iff rt secret token (some request.customer_id)
              (some request.currency) (some request.amount_in_cents) (some request.channel) now).0
            (verify_authorization-IsOk rt secret token (some request.customer_id)
              (some request.currency) (some request.amount_in_cents) (some request.channel) now
              (ground arith));
      case_id = ground (arith, eq_iff token.grant.case_id request.case_id);
      action_type = ground arith;
      key = ground (arith, eq_iff token.grant.idempotency_key request.idempotency_key);
    }

    check_authorization_complete :
        IsScoped request token now → IsOk (check_authorization rt secret request token now)
    unfolding check_authorization
    check_authorization_complete h = ground (
      arith,
      (verify_authorization_iff rt secret token (some request.customer_id) (some request.currency)
            (some request.amount_in_cents) (some request.channel) now).1
          h.genuine,
      eq_iff token.grant.case_id request.case_id,
      eq_iff token.grant.idempotency_key request.idempotency_key,
      h.case_id,
      h.action_type,
      h.key,
    )

  -- The first gate is open exactly for a token that is genuine for the request's customer,
  -- currency, channel and positive amount up to the token's bound, and that is bound to the
  -- request's case, action type and idempotency key.
  pub check_authorization_iff :
      (request : ExecutionRequest) (token : ActionAuthorization) (now : ℕ)
      → IsOk (check_authorization rt secret request token now) ↔ IsScoped request token now
  check_authorization_iff request token now =
      (check_authorization_sound request token now, check_authorization_complete request token now)
