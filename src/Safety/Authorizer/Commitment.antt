-- ===== src/Safety/Authorizer/Commitment.antt =====
-- The signature against the parameters of a token.
use Prim.Native.Char.{code}
use ai_revenue_recovery.Prelude.{
  ℕ, String, ◌≡◌, refl, sym, ◌∙◌, upper, decimal, true, none, decimal-IsBelow,
}
use ai_revenue_recovery.Foundation.Runtime.{Runtime}
use ai_revenue_recovery.Safety.Authorizer.{
  Grant, ActionAuthorization, sign, canonical_signing_string, verify_authorization,
}
use ai_revenue_recovery.Safety.Authorizer.Verification.{verify_authorization_iff}
use ai_revenue_recovery.Prelude.Exec.{ok}
use ai_revenue_recovery.Safety.Authorizer.Fields.{
  HasNoBar, split_bar, has_no_bar, HasNoBar-has_no_bar, action_type_value-HasNoBar,
  channel_value-HasNoBar, action_type_value-injective, channel_value-injective, HasNoBar-IsBelow,
  decimal-injective,
}

-- The texts that a caller chooses do not have the separator; the key comes last and may have it.
pub record IsBarFree (g : Grant) : Type 0 where
  pub authorization_id : HasNoBar g.authorization_id
  pub case_id : HasNoBar g.case_id
  pub customer_id : HasNoBar g.customer_id
  pub currency : HasNoBar (upper g.currency)
  pub policy_version : HasNoBar g.policy_version
  pub decision_id : HasNoBar g.decision_id

-- The same parameters, the currency in any case of letters.
pub record SameTerms (g g' : Grant) : Type 0 where
  pub authorization_id : g.authorization_id ≡ g'.authorization_id
  pub case_id : g.case_id ≡ g'.case_id
  pub action_type : g.action_type ≡ g'.action_type
  pub customer_id : g.customer_id ≡ g'.customer_id
  pub max_amount : g.max_amount_in_cents ≡ g'.max_amount_in_cents
  pub currency : upper g.currency ≡ upper g'.currency
  pub channel : g.channel ≡ g'.channel
  pub policy_version : g.policy_version ≡ g'.policy_version
  pub decision_id : g.decision_id ≡ g'.decision_id
  pub expires_at : g.expires_at ≡ g'.expires_at
  pub key : g.idempotency_key ≡ g'.idempotency_key

module _ (rt : Runtime) (isoformat_bar : (t : ℕ) → HasNoBar (rt.isoformat t))
    (isoformat_injective : (s t : ℕ) → rt.isoformat s ≡ rt.isoformat t → s ≡ t) where
  canonical_signing_string-injective :
      (g g' : Grant)
      → IsBarFree g
      → IsBarFree g'
      → canonical_signing_string rt g ≡ canonical_signing_string rt g'
      → SameTerms g g'
  unfolding canonical_signing_string has_no_bar
  canonical_signing_string-injective g g' h k e =
      let version = HasNoBar-has_no_bar "AUTH_V1" refl in
      let amount = λ (n : ℕ). HasNoBar-IsBelow (decimal n) (decimal-IsBelow n) in
      let (_, e0) = split_bar "AUTH_V1" "AUTH_V1" _ _ version version e in
      let (id, e1) = split_bar _ _ _ _ h.authorization_id k.authorization_id e0 in
      let (case, e2) = split_bar _ _ _ _ h.case_id k.case_id e1 in
      let (action, e3) =
        split_bar _ _ _ _ (action_type_value-HasNoBar g.action_type)
          (action_type_value-HasNoBar g'.action_type) e2 in
      let (customer, e4) = split_bar _ _ _ _ h.customer_id k.customer_id e3 in
      let (bound, e5) =
        split_bar _ _ _ _ (amount g.max_amount_in_cents) (amount g'.max_amount_in_cents) e4 in
      let (code, e6) = split_bar _ _ _ _ h.currency k.currency e5 in
      let (chan, e7) =
        split_bar _ _ _ _ (channel_value-HasNoBar g.channel) (channel_value-HasNoBar g'.channel)
          e6 in
      let (policy, e8) = split_bar _ _ _ _ h.policy_version k.policy_version e7 in
      let (decision, e9) = split_bar _ _ _ _ h.decision_id k.decision_id e8 in
      let (expiry, key) =
        split_bar _ _ _ _ (isoformat_bar g.expires_at) (isoformat_bar g'.expires_at) e9 in
      record {
        authorization_id = id;
        case_id = case;
        action_type = action_type_value-injective g.action_type g'.action_type action;
        customer_id = customer;
        max_amount = decimal-injective g.max_amount_in_cents g'.max_amount_in_cents bound;
        currency = code;
        channel = channel_value-injective g.channel g'.channel chan;
        policy_version = policy;
        decision_id = decision;
        expires_at = isoformat_injective g.expires_at g'.expires_at expiry;
        key = key;
      }

  -- A signature fixes what it authorizes: two accepted tokens with one signature have the same
  -- parameters, the currency in any case of letters, if the HMAC does not collide on their two
  -- canonical strings, their identifiers do not have the separator `|`, and isoformat is injective
  -- and never prints it.
  pub verify_authorization-SameTerms :
      (secret : String) (token token' : ActionAuthorization) (now : ℕ)
      → IsBarFree token.grant
      → IsBarFree token'.grant
      → (sign rt secret token.grant ≡ sign rt secret token'.grant
          → canonical_signing_string rt token.grant ≡ canonical_signing_string rt token'.grant)
      → verify_authorization rt secret token none none none none now ≡ ok true
      → verify_authorization rt secret token' none none none none now ≡ ok true
      → token.signature ≡ token'.signature
      → SameTerms token.grant token'.grant
  verify_authorization-SameTerms secret token token' now h k collide v w e =
      let genuine = (verify_authorization_iff rt secret token none none none none now).0 v in
      let genuine' = (verify_authorization_iff rt secret token' none none none none now).0 w in
      canonical_signing_string-injective token.grant token'.grant h k
        (collide (sym genuine.signature ∙ e ∙ genuine'.signature))
