-- ===== src/Safety/Authorizer/Minting.antt =====
-- Minting against verification.
use mathlib.Core.Path.{subst}
use ai_revenue_recovery.Prelude.{
  ℕ, ◌≤◌, ◌<◌, String, true, some, ◌≡◌, refl, sym, ap, arith, upper, upper_idem,
}
use ai_revenue_recovery.Prelude.Int.{pos}
use ai_revenue_recovery.Prelude.Exec.{ok}
use ai_revenue_recovery.Foundation.Runtime.{Runtime}
use ai_revenue_recovery.Safety.Authorizer.{
  ActionAuthorization, issued, Grant, sign, accepts, mint_authorization, verify_authorization,
  canonical_signing_string, compute_signature,
}
use ai_revenue_recovery.Safety.Authorizer.Verification.{verify_authorization_iff}

module _ (rt : Runtime) where
  abbrev capital : Grant → Grant
  capital g = record g { currency = upper g.currency }

  abbrev pub minted : String → Grant → ActionAuthorization
  minted secret g = record { grant = capital g; signature = sign rt secret g; status = issued }

  canonical_signing_string-capital :
      (g : Grant) → canonical_signing_string rt (capital g) ≡ canonical_signing_string rt g
  unfolding canonical_signing_string
  canonical_signing_string-capital g = rw (upper_idem g.currency) refl

  mint_authorization_result :
      (secret : String) (g : Grant) (now : ℕ) (token : ActionAuthorization)
      → mint_authorization rt secret g now ≡ ok token
      → (token ≡ minted secret g) × (now < g.expires_at) × (accepts rt g ≡ true)
  unfolding mint_authorization
  mint_authorization_result secret g now token h = ground arith

  -- A token that was minted passes the verification with the same secret at any time before it
  -- expires, for the grant's customer, its channel, its currency in any case of letters, and any
  -- positive amount up to its bound.
  pub verify_authorization-mint_authorization :
      (secret : String) (g : Grant) (now later : ℕ) (code : String) (amount : ℕ)
      {token : ActionAuthorization}
      → mint_authorization rt secret g now ≡ ok token
      → later < g.expires_at
      → upper code ≡ upper g.currency
      → 0 < amount
      → amount ≤ g.max_amount_in_cents
      → verify_authorization rt secret token
          (some g.customer_id)
          (some code)
          (some (pos amount))
          (some g.channel)
          later
        ≡ ok true
  verify_authorization-mint_authorization secret g now later code amount {token} h t c p a =
      subst
        (λ token.
          verify_authorization rt secret token (some g.customer_id) (some code) (some (pos amount))
            (some g.channel) later
          ≡ ok true)
        (sym (mint_authorization_result secret g now token h).0)
        ((verify_authorization_iff rt secret (minted secret g) (some g.customer_id) (some code)
            (some (pos amount)) (some g.channel) later).1
          (record {
            status = refl;
            signature = ap (compute_signature rt secret) (sym (canonical_signing_string-capital g));
            unexpired = t;
            customer = refl;
            currency = sym c;
            amount = (p, a);
            channel = refl;
          }))
