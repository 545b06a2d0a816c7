-- ===== src/Foundation/Config.antt =====
-- The constants of src/revenue_recovery/foundation/config.py that the sandbox guard reads.
use ai_revenue_recovery.Prelude.{String, List, [], ◌∷◌}

-- `FORBIDDEN_PRODUCTION_DOMAINS`
abbrev pub forbidden_production_domains : List String
forbidden_production_domains =
    "api.stripe.com" ∷ "api.razorpay.com" ∷ "api.paypal.com" ∷ "api.braintreegateway.com"
    ∷ "api.adyen.com" ∷ "api.squareup.com" ∷ "api.twilio.com" ∷ "api.sendgrid.com"
    ∷ "api.mailgun.net" ∷ "graph.facebook.com" ∷ "api.whatsapp.com" ∷ "api.plaid.com"
    ∷ "api.checkout.com" ∷ []
