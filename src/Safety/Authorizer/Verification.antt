-- ===== src/Safety/Authorizer/Verification.antt =====
-- Which tokens the verification accepts.
use ai_revenue_recovery.Prelude.{
  ℕ, ◌≤◌, ◌<◌, String, true, false, Option, none, some, ◌≡◌, refl, ◌↔◌, arith, eq_iff, upper,
}
use ai_revenue_recovery.Prelude.Int.{ℤ, pos, negsuc}
use ai_revenue_recovery.Prelude.Exec.{ok, IsOk}
use ai_revenue_recovery.Foundation.Events.{ActionChannel}
use ai_revenue_recovery.Foundation.Runtime.{Runtime}
use ai_revenue_recovery.Safety.Authorizer.{
  ActionAuthorization, issued, sign, verify_authorization, wrong_text, wrong_currency,
}

abbrev pub Expects : Option String → String → Type 0
Expects none actual = Unit
Expects (some expected) actual = actual ≡ expected

abbrev pub ExpectsCode : Option String → String → Type 0
ExpectsCode none actual = Unit
ExpectsCode (some expected) actual = actual ≡ upper expected

abbrev pub IsCovered : Option ℤ → ℕ → Type 0
IsCovered none bound = Unit
IsCovered (some (pos amount)) bound = (0 < amount) × (amount ≤ bound)
IsCovered (some (negsuc _)) bound = ⊥

abbrev pub ExpectsChannel : Option ActionChannel → ActionChannel → Type 0
ExpectsChannel none actual = Unit
ExpectsChannel (some expected) actual = actual ≡ expected

module _ (rt : Runtime) where
  -- What a token has to be for a caller who expects something of it.
  pub record IsGenuine (secret : String) (token : ActionAuthorization)
      (for_customer for_code : Option String) (for_amount : Option ℤ)
      (for_channel : Option ActionChannel) (now : ℕ) : Type 0 where
    pub status : token.status ≡ issued
    pub signature : token.signature ≡ sign rt secret token.grant
    pub unexpired : now < token.grant.expires_at
    pub customer : Expects for_customer token.grant.customer_id
    pub currency : ExpectsCode for_code token.grant.currency
    pub amount : IsCovered for_amount token.grant.max_amount_in_cents
    pub channel : ExpectsChannel for_channel token.grant.channel

  module _ (secret : String) (token : ActionAuthorization) (customer code : Option String)
      (amount : Option ℤ) (chan : Option ActionChannel) (now : ℕ) where
    verify_authorization_sound :
        verify_authorization rt secret token customer code amount chan now ≡ ok true
        → IsGenuine secret token customer code amount chan now
    unfolding verify_authorization
    verify_authorization_sound h = record {
      status = ground arith;
      signature = ground (arith, eq_iff (sign rt secret token.grant) token.signature);
      unexpired = ground arith;
      customer = customer_ok customer (ground arith);
      currency = code_ok code (ground arith);
      amount = ground arith;
      channel = ground arith;
    }
      where
        customer_ok :
            (o : Option String)
            → wrong_text rt o token.grant.customer_id ≡ false
            → Expects o token.grant.customer_id
        customer_ok none e = tt
        customer_ok (some x) e = ground (arith, eq_iff token.grant.customer_id x)

        code_ok :
            (o : Option String)
            → wrong_currency rt o token.grant.currency ≡ false
            → ExpectsCode o token.grant.currency
        code_ok none e = tt
        code_ok (some x) e = ground (arith, eq_iff token.grant.currency (upper x))

    pub verify_authorization-IsOk :
        IsOk (verify_authorization rt secret token customer code amount chan now)
        → verify_authorization rt secret token customer code amount chan now ≡ ok true
    unfolding verify_authorization
    verify_authorization-IsOk h = ground arith

    verify_authorization_complete :
        IsGenuine secret token customer code amount chan now
        → verify_authorization rt secret token customer code amount chan now ≡ ok true
    unfolding verify_authorization
    verify_authorization_complete h = ground (
      arith,
      h.status,
      h.signature,
      h.unexpired,
      eq_iff (sign rt secret token.grant) token.signature,
      customer_ok customer h.customer,
      code_ok code h.currency,
      h.amount,
      h.channel,
    )
      where
        customer_ok :
            (o : Option String)
            → Expects o token.grant.customer_id
            → wrong_text rt o token.grant.customer_id ≡ false
        customer_ok none e = refl
        customer_ok (some x) e = ground (arith, eq_iff token.grant.customer_id x)

        code_ok :
            (o : Option String)
            → ExpectsCode o token.grant.currency
            → wrong_currency rt o token.grant.currency ≡ false
        code_ok none e = refl
        code_ok (some x) e = ground (arith, eq_iff token.grant.currency (upper x))

  -- A token is accepted exactly if it is issued, carries the signature of its own parameters, has
  -- not expired, and is bound to the customer, currency (in any case of letters), positive amount
  -- up to the bound, and channel that the caller expects, as far as the caller expects any.
  pub verify_authorization_iff :
      (secret : String) (token : ActionAuthorization) (customer code : Option String)
      (amount : Option ℤ) (chan : Option ActionChannel) (now : ℕ)
      → (verify_authorization rt secret token customer code amount chan now ≡ ok true)
        ↔ IsGenuine secret token customer code amount chan now
  verify_authorization_iff secret token customer code amount chan now = (
    verify_authorization_sound secret token customer code amount chan now,
    verify_authorization_complete secret token customer code amount chan now,
  )
