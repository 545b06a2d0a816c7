-- ===== src/Examples/Tokens.antt =====
-- Two tokens with one signature, and canonical strings that the separator makes equal.
use ai_revenue_recovery.Prelude.{◌≡◌, refl, decimal, decimal-IsBelow, upper}
use ai_revenue_recovery.Foundation.Events.{send_notification, email}
use ai_revenue_recovery.Foundation.Runtime.{Runtime}
use ai_revenue_recovery.Safety.Authorizer.{
  ActionAuthorization, Grant, issued, sign, canonical_signing_string, verify_authorization,
}
use ai_revenue_recovery.Safety.Authorizer.Fields.{
  has_no_bar, HasNoBar-has_no_bar, HasNoBar-IsBelow, decimal-injective,
}
use ai_revenue_recovery.Safety.Authorizer.Commitment.{
  IsBarFree, SameTerms, verify_authorization-SameTerms,
}
use ai_revenue_recovery.Examples.Logs.{runtime}

-- A digest that never collides, and times that print as numbers.
abbrev plain : Runtime
plain = record runtime { hmac_sha256 = λ secret s. s; isoformat = decimal }

abbrev in_capitals : Grant
in_capitals = record {
  authorization_id = "a1";
  case_id = "c1";
  action_type = send_notification;
  customer_id = "cus_1";
  max_amount_in_cents = 500;
  currency = "INR";
  channel = email;
  policy_version = "v1";
  decision_id = "d1";
  expires_at = 100;
  idempotency_key = "k|1";
}

abbrev in_small_letters : Grant
in_small_letters = record in_capitals { currency = "inr" }

abbrev first : ActionAuthorization
first = record { grant = in_capitals; signature = sign plain "secret" in_capitals; status = issued }

abbrev second : ActionAuthorization
second = record {
  grant = in_small_letters;
  signature = sign plain "secret" in_small_letters;
  status = issued;
}

first-IsBarFree : IsBarFree in_capitals
unfolding has_no_bar upper
first-IsBarFree = record {
  authorization_id = HasNoBar-has_no_bar "a1" refl;
  case_id = HasNoBar-has_no_bar "c1" refl;
  customer_id = HasNoBar-has_no_bar "cus_1" refl;
  currency = HasNoBar-has_no_bar "INR" refl;
  policy_version = HasNoBar-has_no_bar "v1" refl;
  decision_id = HasNoBar-has_no_bar "d1" refl;
}

second-IsBarFree : IsBarFree in_small_letters
unfolding has_no_bar upper
second-IsBarFree = record {
  authorization_id = HasNoBar-has_no_bar "a1" refl;
  case_id = HasNoBar-has_no_bar "c1" refl;
  customer_id = HasNoBar-has_no_bar "cus_1" refl;
  currency = HasNoBar-has_no_bar "INR" refl;
  policy_version = HasNoBar-has_no_bar "v1" refl;
  decision_id = HasNoBar-has_no_bar "d1" refl;
}

verify_authorization-SameTerms_example : SameTerms in_capitals in_small_letters
unfolding verify_authorization canonical_signing_string
    ai_revenue_recovery.Safety.Authorizer.compute_signature decimal upper
verify_authorization-SameTerms_example =
    verify_authorization-SameTerms plain (λ t. HasNoBar-IsBelow (decimal t) (decimal-IsBelow t))
      decimal-injective "secret" first second 50 first-IsBarFree second-IsBarFree (λ e. e) refl refl
      refl

-- With the separator in the identifiers, two different tokens share one canonical string.
bars_collide :
    canonical_signing_string plain (record in_capitals { authorization_id = "a"; case_id = "b|c" })
    ≡ canonical_signing_string plain
        (record in_capitals { authorization_id = "a|b"; case_id = "c" })
unfolding canonical_signing_string decimal upper
bars_collide = refl
