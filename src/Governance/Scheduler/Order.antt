-- ===== src/Governance/Scheduler/Order.antt =====
-- The order of the obligations, by time and by precedence, and filters of them.
use mathlib.Core.List.{Perm, perm_middle}
use mathlib.Core.List.Perm
use ai_revenue_recovery.Prelude.{
  ◌≤◌, ◌<◌, Bool, true, false, [], ◌∷◌, ◌≡◌, ◌⊎◌, inl, inr, refl, ap, sym, ◌∙◌, ◌++◌, not, arith,
  Bool-cases, All,
}
use ai_revenue_recovery.Prelude.Sorting.{
  leb_text, leb_text_total, leb_text_trans, IsOrdered, sort, sort-IsOrdered,
}
use ai_revenue_recovery.Foundation.Events.{
  ComplianceObligation, ObligationType, mandatory_disclosure, consent_check, cooling_off,
  retry_window,
}
use ai_revenue_recovery.Governance.Scheduler.{Obligations, filter, type_rank, not_after}

abbrev pub Precedes : ComplianceObligation → ComplianceObligation → Type 0
Precedes a b = not_after a b ≡ true

not_after_trans : (a b c : ComplianceObligation) → Precedes a b → Precedes b c → Precedes a c
unfolding not_after
not_after_trans a b c h k =
    ground (arith, leb_text_trans a.obligation_id b.obligation_id c.obligation_id)

not_after_total : (a b : ComplianceObligation) → not_after a b ≡ false → Precedes b a
unfolding not_after
not_after_total a b h = ground (arith, leb_text_total a.obligation_id b.obligation_id)

pub sort-Precedes : (os : Obligations) → IsOrdered Precedes (sort not_after os)
sort-Precedes = sort-IsOrdered not_after Precedes not_after_trans (λ a b h. h) not_after_total

module _ {ℓ} (P : ComplianceObligation → Type ℓ) (test : ComplianceObligation → Bool) where
  pub All-filter : (os : Obligations) → All P os → All P (filter test os)
  unfolding filter
  All-filter [] h = tt
  All-filter (o ∷ os) h = elim (Bool-cases (test o)) [
    | inl e ↦ rw e (h.0, All-filter os h.1)
    | inr e ↦ rw e (All-filter os h.1)
  ]

pub filter-All :
    (test : ComplianceObligation → Bool) (os : Obligations)
    → All (λ o. test o ≡ true) (filter test os)
unfolding filter
filter-All test [] = tt
filter-All test (o ∷ os) = elim (Bool-cases (test o)) [
  | inl e ↦ rw e (e, filter-All test os)
  | inr e ↦ rw e (filter-All test os)
]

pub filter-Perm :
    (test : ComplianceObligation → Bool) (os : Obligations)
    → Perm (filter test os ++ filter (λ o. not (test o)) os) os
unfolding filter
filter-Perm test [] = Perm.rfl
filter-Perm test (o ∷ os) = elim (Bool-cases (test o)) [
  | inl e ↦ rw e (Perm.cons o (filter-Perm test os))
  | inr e ↦ rw e (
      Perm.trans (perm_middle (filter test os) (filter (λ o. not (test o)) os))
        (Perm.cons o (filter-Perm test os)))
]

-- The types in their precedence: disclosure, consent check, cooling off, retry window.
abbrev pub Before : ObligationType → ObligationType → Type 0
Before mandatory_disclosure mandatory_disclosure = ⊥
Before mandatory_disclosure _ = Unit
Before consent_check cooling_off = Unit
Before consent_check retry_window = Unit
Before cooling_off retry_window = Unit
Before _ _ = ⊥

-- The precedence among obligations of one time: a mandatory one comes before one that is not;
-- otherwise the type decides, and last the id.
abbrev pub Outranks : ComplianceObligation → ComplianceObligation → Type 0
Outranks a b =
    ((a.is_mandatory ≡ true) × (b.is_mandatory ≡ false))
    ⊎ ((a.is_mandatory ≡ b.is_mandatory)
        × (Before a.obligation_type b.obligation_type
            ⊎ ((a.obligation_type ≡ b.obligation_type)
                × (leb_text a.obligation_id b.obligation_id ≡ true))))

-- The order of a plan or a query: by time, then by precedence.
abbrev pub Comes : ComplianceObligation → ComplianceObligation → Type 0
Comes a b =
    (a.scheduled_time < b.scheduled_time) ⊎ ((a.scheduled_time ≡ b.scheduled_time) × Outranks a b)

type_rank-cases : (a b : ObligationType) → type_rank a ≤ type_rank b → Before a b ⊎ (a ≡ b)
type_rank-cases mandatory_disclosure mandatory_disclosure h = inr refl
type_rank-cases mandatory_disclosure consent_check h = inl tt
type_rank-cases mandatory_disclosure cooling_off h = inl tt
type_rank-cases mandatory_disclosure retry_window h = inl tt
type_rank-cases consent_check mandatory_disclosure h = absurd (omega (arith, h))
type_rank-cases consent_check consent_check h = inr refl
type_rank-cases consent_check cooling_off h = inl tt
type_rank-cases consent_check retry_window h = inl tt
type_rank-cases cooling_off mandatory_disclosure h = absurd (omega (arith, h))
type_rank-cases cooling_off consent_check h = absurd (omega (arith, h))
type_rank-cases cooling_off cooling_off h = inr refl
type_rank-cases cooling_off retry_window h = inl tt
type_rank-cases retry_window mandatory_disclosure h = absurd (omega (arith, h))
type_rank-cases retry_window consent_check h = absurd (omega (arith, h))
type_rank-cases retry_window cooling_off h = absurd (omega (arith, h))
type_rank-cases retry_window retry_window h = inr refl

-- Of two types with the same rank, or the first with the smaller one, and the texts where they tie.
ranked :
    (a b : ObligationType) (tie : Bool)
    → (type_rank a < type_rank b) ⊎ ((type_rank a ≡ type_rank b) × (tie ≡ true))
    → Before a b ⊎ ((a ≡ b) × (tie ≡ true))
ranked a b tie (inl h) = elim (type_rank-cases a b (omega arith)) [
  | inl before ↦ inl before
  | inr same ↦ absurd (omega (arith, ap type_rank same))
]
ranked a b tie (inr (h, t)) = elim (type_rank-cases a b (omega arith)) [
  | inl before ↦ inl before
  | inr same ↦ inr (same, t)
]

pub outranks_of :
    (a b : ComplianceObligation) → a.scheduled_time ≡ b.scheduled_time → Precedes a b → Outranks a b
unfolding not_after
outranks_of a b h k =
    let types =
      ranked a.obligation_type b.obligation_type (leb_text a.obligation_id b.obligation_id) in
    elim (Bool-cases a.is_mandatory) [
      | inl m ↦ elim (Bool-cases b.is_mandatory) [
        | inl n ↦ inr (m ∙ sym n, types (ground (arith, h, k, m, n)))
        | inr n ↦ inl (m, n)
      ]
      | inr m ↦ elim (Bool-cases b.is_mandatory) [
        | inl n ↦ absurd (ground (arith, h, k, m, n))
        | inr n ↦ inr (m ∙ sym n, types (ground (arith, h, k, m, n)))
      ]
    ]

lt_or_same :
    (a b : ComplianceObligation)
    → Precedes a b
    → (a.scheduled_time < b.scheduled_time) ⊎ (a.scheduled_time ≡ b.scheduled_time)
unfolding not_after
lt_or_same a b k = ground arith

pub All-map :
    {P Q : ComplianceObligation → Type 0}
    → ((o : ComplianceObligation) → P o → Q o)
    → (os : Obligations) → All P os
    → All Q os
All-map f [] h = tt
All-map f (o ∷ os) h = (f o h.0, All-map f os h.1)

IsOrdered-map :
    {R S : ComplianceObligation → ComplianceObligation → Type 0}
    → ((a b : ComplianceObligation) → R a b → S a b)
    → (os : Obligations) → IsOrdered R os
    → IsOrdered S os
IsOrdered-map f [] h = tt
IsOrdered-map f (o ∷ os) h = (All-map (f o) os h.0, IsOrdered-map f os h.1)

Precedes-Comes : (a b : ComplianceObligation) → Precedes a b → Comes a b
Precedes-Comes a b k = elim (lt_or_same a b k) [
  | inl early ↦ inl early
  | inr same ↦ inr (same, outranks_of a b same k)
]

-- In the order of precedence.
pub sort-Comes : (os : Obligations) → IsOrdered Comes (sort not_after os)
sort-Comes os = IsOrdered-map Precedes-Comes (sort not_after os) (sort-Precedes os)
