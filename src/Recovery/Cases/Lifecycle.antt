-- ===== src/Recovery/Cases/Lifecycle.antt =====
-- The history of one case over any calls on its manager.
use mathlib.Core.Path.{subst}
use ai_revenue_recovery.Prelude.{
  ℕ, ◌≤◌, String, Bool, true, Option, some, List, [], ◌∷◌, ◌≡◌, ◌≢◌, refl, sym, arith, Bool-cases,
  inl, inr, ◌==◌, eq_iff, All, ◌∙◌,
}
use ai_revenue_recovery.Prelude.Dict.{Dict, lookup, lookup-insert}
use ai_revenue_recovery.Foundation.Events.{CaseState, RiskTier, RecoveryCase}
use ai_revenue_recovery.Foundation.Runtime.{Runtime}
use ai_revenue_recovery.Recovery.Cases.{CaseManager, is_in, terminal_states}
use ai_revenue_recovery.Recovery.Cases.Transition.{◌⟶◌, Succeeds, not-terminal}
use ai_revenue_recovery.Recovery.Cases.Invariant.{
  Call, create, Effect, unchanged, created, moved, step, steps, step-Effect,
}

infix 40 ◌⟶*◌
pub data ◌⟶*◌ : CaseState → CaseState → Type 0 where
  stay : {s : CaseState} → s ⟶* s
  go : {s t u : CaseState} → s ⟶ t → t ⟶* u → s ⟶* u

-- What may become of a case.
pub record Evolves (before after : RecoveryCase) : Type 0 where
  pub path : before.state ⟶* after.state
  pub attempts : before.attempt_count ≤ after.attempt_count
  pub updated : before.updated_at ≤ after.updated_at
  pub case_id : after.case_id ≡ before.case_id
  pub customer_id : after.customer_id ≡ before.customer_id
  pub trigger : after.trigger_event_id ≡ before.trigger_event_id
  pub amount : after.amount_in_cents ≡ before.amount_in_cents
  pub currency : after.currency ≡ before.currency
  pub max_attempts : after.max_attempts ≡ before.max_attempts
  pub created : after.created_at ≡ before.created_at
  pub ended : is_in before.state terminal_states ≡ true → after ≡ before

-- The call does not open a case under this id: the source draws a new random id each time.
abbrev pub IsFreshFor : String → Call → Type 0
IsFreshFor id (create new_id event max_attempts now) = new_id ≢ id
IsFreshFor id _ = Unit

⟶*-append : {s t u : CaseState} → s ⟶* t → t ⟶* u → s ⟶* u
⟶*-append stay q = q
⟶*-append (go e p) q = go e (⟶*-append p q)

Evolves-refl : (c : RecoveryCase) → Evolves c c
Evolves-refl c = record {
  path = stay;
  attempts = omega arith;
  updated = omega arith;
  case_id = refl;
  customer_id = refl;
  trigger = refl;
  amount = refl;
  currency = refl;
  max_attempts = refl;
  created = refl;
  ended = λ _. refl;
}

Evolves-trans : (a b c : RecoveryCase) → Evolves a b → Evolves b c → Evolves a c
Evolves-trans a b c g h = record {
  path = ⟶*-append g.path h.path;
  attempts = omega (arith, g.attempts, h.attempts);
  updated = omega (arith, g.updated, h.updated);
  case_id = h.case_id ∙ g.case_id;
  customer_id = h.customer_id ∙ g.customer_id;
  trigger = h.trigger ∙ g.trigger;
  amount = h.amount ∙ g.amount;
  currency = h.currency ∙ g.currency;
  max_attempts = h.max_attempts ∙ g.max_attempts;
  created = h.created ∙ g.created;
  ended = λ e.
      h.ended (subst (λ x. is_in x.state terminal_states ≡ true) (sym (g.ended e)) e) ∙ g.ended e;
}

module _ {target : CaseState} {risk_tier : Option RiskTier} {increment : Bool} {now : ℕ}
    {c c' : RecoveryCase} where
  Succeeds-Evolves : Succeeds target risk_tier increment now c c' → Evolves c c'
  Succeeds-Evolves s = subst (Evolves c) (sym s.result) (record {
    path = go s.edge stay;
    attempts = ground arith;
    updated = ground arith;
    case_id = refl;
    customer_id = refl;
    trigger = refl;
    amount = refl;
    currency = refl;
    max_attempts = refl;
    created = refl;
    ended = λ e. absurd (cc (e, not-terminal s.edge));
  })

abbrev pub EvolvesTo : String → RecoveryCase → Dict RecoveryCase → Type 0
EvolvesTo id c d = (c' : RecoveryCase) × (lookup id d ≡ some c') × Evolves c c'

Effect-Evolves :
    {call : Call} {before after : Dict RecoveryCase} (id : String) (c : RecoveryCase)
    → Effect call before after
    → IsFreshFor id call
    → lookup id before ≡ some c
    → EvolvesTo id c after
Effect-Evolves id c (unchanged e) fresh found = (c, (rw e found), Evolves-refl c)
Effect-Evolves {before} id c (created new_id event max_attempts now c' call opened e) fresh found =
    (
      c,
      rw e (
          ground (
            arith,
            lookup-insert id new_id c' before,
            eq_iff new_id id,
            subst (IsFreshFor id) call fresh,
          )),
      Evolves-refl c,
    )
Effect-Evolves {before} id c (moved other target risk_tier increment now b b' was s e) fresh found =
    elim (Bool-cases (other == id)) [
      | inl same ↦ (
        b',
        rw e (ground (arith, lookup-insert id other b' before)),
        subst (λ x. Evolves x b') {x = b} (ground (arith, eq_iff other id)) (Succeeds-Evolves s),
      )
      | inr different ↦ (c, rw e (ground (arith, lookup-insert id other b' before)), Evolves-refl c)
    ]

module _ (rt : Runtime) where
  -- Whatever is called, as long as no new case takes its id, a case stays in the manager and its
  -- state follows the edges of the lifecycle; its customer, event, amount, currency, maximum and
  -- creation never change, its attempts and its time of update never go back, and once it is
  -- resolved or abandoned it never changes again.
  pub steps-Evolves :
      (calls : List Call) (m : CaseManager) (id : String) (c : RecoveryCase)
      → lookup id m.cases ≡ some c
      → All (IsFreshFor id) calls
      → EvolvesTo id c (steps rt calls m).cases
  steps-Evolves [] m id c found fresh = (c, found, Evolves-refl c)
  steps-Evolves (call ∷ calls) m id c found fresh =
      let (b, now, g) = Effect-Evolves id c (step-Effect rt call m) fresh.0 found in
      let (d, later, h) = steps-Evolves calls (step rt call m) id b now fresh.1 in
      (d, later, Evolves-trans c b d g h)
