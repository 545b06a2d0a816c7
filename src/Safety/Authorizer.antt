-- ===== src/Safety/Authorizer.antt =====
-- src/revenue_recovery/safety/authorizer.py: tokens that are signed when they are minted and checked
-- before an action. The secret is an argument; a hex digest passes the format check of `signature`.
pub mod Verification
pub mod Minting
pub mod Fields
pub mod Commitment
use ai_revenue_recovery.Prelude.{
  ℕ, zero, suc, ◌+◌, String, Bool, true, false, Option, none, some, ◌==◌, eqb, leb, ltb, not, ◌&&◌,
  ◌||◌, if◌then◌else◌, upper, decimal, is_code,
}
use ai_revenue_recovery.Prelude.Int.{ℤ, pos, negsuc}
use ai_revenue_recovery.Prelude.Exec.{Result, ok, err}
use ai_revenue_recovery.Foundation.Errors.{
  Error, value_error, validation_error, authorization_verification, AuthCheck, status, signature,
  expiration, customer_id, currency, amount_bound, amount_positive, channel,
}
use ai_revenue_recovery.Foundation.Events.{
  ActionType, ActionChannel, action_type_value, channel_value, eq_channel,
}
use ai_revenue_recovery.Foundation.Runtime.{Runtime}
use ai_revenue_recovery.Foundation.Audit.{◌&◌}

pub data AuthorizationStatus : Type 0 where
  issued consumed expired revoked : AuthorizationStatus

abbrev pub is_issued : AuthorizationStatus → Bool
is_issued issued = true
is_issued _ = false

-- The parameters that a signature covers.
pub record Grant : Type 0 where
  pub authorization_id : String
  pub case_id : String
  pub action_type : ActionType
  pub customer_id : String
  pub max_amount_in_cents : ℕ
  pub currency : String
  pub channel : ActionChannel
  pub policy_version : String
  pub decision_id : String
  pub expires_at : ℕ
  pub idempotency_key : String

-- `ActionAuthorization`; `created_at`, which nothing reads, is left out.
pub record ActionAuthorization : Type 0 where
  pub grant : Grant
  pub signature : String
  pub status : AuthorizationStatus

module _ (rt : Runtime) where
  unfoldable pub canonical_signing_string : Grant → String
  canonical_signing_string g =
      "AUTH_V1"
      & "|"
      & g.authorization_id
      & "|"
      & g.case_id
      & "|"
      & action_type_value g.action_type
      & "|"
      & g.customer_id
      & "|"
      & decimal g.max_amount_in_cents
      & "|"
      & upper g.currency
      & "|"
      & channel_value g.channel
      & "|"
      & g.policy_version
      & "|"
      & g.decision_id
      & "|"
      & rt.isoformat g.expires_at
      & "|"
      & g.idempotency_key

  -- `_compute_signature`
  unfoldable pub compute_signature : String → String → String
  compute_signature secret canonical_str = rt.hmac_sha256 secret canonical_str

  abbrev pub sign : String → Grant → String
  sign secret g = compute_signature secret (canonical_signing_string g)

  -- The constructor of `ActionAuthorization`, which stores the currency in capitals.
  abbrev pub accepts : Grant → Bool
  accepts g =
      not (g.case_id == "")
      && not (g.customer_id == "")
      && ltb 0 g.max_amount_in_cents
      && is_code g.currency
      && not (g.policy_version == "")
      && not (g.decision_id == "")
      && not (g.idempotency_key == "")

  unfoldable pub authorization_of : Grant → String → Result Error ActionAuthorization
  authorization_of g digest =
      if accepts g
      then ok (record {
        grant = record g { currency = upper g.currency };
        signature = digest;
        status = issued;
      })
      else err validation_error

  -- `mint_authorization`. A bound below 0, which the constructor refuses as it does 0, is not modelled.
  unfoldable pub mint_authorization : String → Grant → ℕ → Result Error ActionAuthorization
  unfolding authorization_of
  mint_authorization secret g now =
      if leb g.expires_at now then err value_error else authorization_of g (sign secret g)

  -- The checks on what a caller expects, each made only where it expects something.
  abbrev wrong_text : Option String → String → Bool
  wrong_text none actual = false
  wrong_text (some expected) actual = not (actual == expected)

  abbrev wrong_currency : Option String → String → Bool
  wrong_currency none actual = false
  wrong_currency (some expected) actual = not (actual == upper expected)

  abbrev above : Option ℤ → ℕ → Bool
  above (some (pos amount)) bound = ltb bound amount
  above _ bound = false

  abbrev not_positive : Option ℤ → Bool
  not_positive none = false
  not_positive (some (pos amount)) = eqb amount 0
  not_positive (some (negsuc _)) = true

  abbrev wrong_channel : Option ActionChannel → ActionChannel → Bool
  wrong_channel none actual = false
  wrong_channel (some expected) actual = not (eq_channel actual expected)

  abbrev failed : AuthCheck → Result Error Bool
  failed check = err (authorization_verification check)

  unfoldable pub verify_authorization :
      String
      → ActionAuthorization
      → Option String
      → Option String
      → Option ℤ
      → Option ActionChannel
      → ℕ
      → Result Error Bool
  verify_authorization secret token customer code amount chan now =
      let g = token.grant in
      if not (is_issued token.status)
      then failed status
      else if not (sign secret g == token.signature)
      then failed signature
      else if leb g.expires_at now
      then failed expiration
      else if wrong_text customer g.customer_id
      then failed customer_id
      else if wrong_currency code g.currency
      then failed currency
      else if above amount g.max_amount_in_cents
      then failed amount_bound
      else if not_positive amount
      then failed amount_positive
      else if wrong_channel chan g.channel
      then failed channel
      else ok true
