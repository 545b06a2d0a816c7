-- ===== src/Safety/Capacity/Window.antt =====
-- The requests that a governor accepts, against its limits in a rolling window.
use ai_revenue_recovery.Prelude.{
  ℕ, ◌+◌, ◌≤◌, List, [], ◌∷◌, ◌++◌, ◌≡◌, refl, sym, ap, ◌∙◌, arith, length, length-append,
  All-append, inl, inr, Bool-cases, ltb,
}
use ai_revenue_recovery.Prelude.Int.{ℤ, pos, negsuc}
use ai_revenue_recovery.Prelude.Exec.{Result, ok, err}
use ai_revenue_recovery.Foundation.Errors.{Error, value_error}
use ai_revenue_recovery.Safety.Capacity.{
  Actions, CapacityGovernor, new, volume, purge, purge_expired, record_action, exceeded,
}
use ai_revenue_recovery.Safety.Capacity.Purge.{
  IsOrdered, IsUpTo, recent, recent-append, purge-eq-recent, recent-purge, purge-IsOrdered,
  purge-IsUpTo, length-recent-le, volume-recent-le, volume-append, IsOrdered-append, IsUpTo-mono,
}

-- The two limits, for a list of actions.
abbrev pub IsWithin : CapacityGovernor → Actions → Type 0
IsWithin g h = (length h ≤ g.max_actions) × (volume h ≤ g.max_volume)

abbrev pub with_history : CapacityGovernor → Actions → CapacityGovernor
with_history g h = record g { history = h }

-- What an accepted request adds to the list of all accepted actions.
abbrev pub log_accepted : {A : Type 0} → Result Error A → ℕ → ℤ → Actions → Actions
log_accepted (ok _) now (pos amount) trace = trace ++ (now, amount) ∷ []
log_accepted _ now amount trace = trace

-- The governor after some requests, and all actions that it accepted since it was made.
abbrev pub serve : List (ℕ × ℤ) → CapacityGovernor → Actions → CapacityGovernor × Actions
serve [] g trace = (g, trace)
serve ((now, amount) ∷ requests) g trace =
    let (r, g') = record_action amount now g in serve requests g' (log_accepted r now amount trace)

-- The times of the requests do not fall.
abbrev pub IsMonotone : ℕ → List (ℕ × ℤ) → Type 0
IsMonotone last [] = Unit
IsMonotone last ((now, _) ∷ requests) = (last ≤ now) × IsMonotone now requests

-- `limits` holds the governor's configuration, which no request changes.
record Tracks (limits : CapacityGovernor) (last : ℕ) (history trace : Actions) : Type 0 where
  ordered : IsOrdered history
  upto : IsUpTo last history
  trace_upto : IsUpTo last trace
  agrees :
      (now : ℕ) → last ≤ now → recent limits.window now trace ≡ recent limits.window now history
  within : (now : ℕ) → IsWithin limits (recent limits.window now trace)

-- A request is accepted and appended, or refused with the history purged (or left, where the amount
-- is negative).
data Outcome (g : CapacityGovernor) (now : ℕ) (amount : ℤ) : Type 0 where
  accepted :
      (a : ℕ)
      → amount ≡ pos a
      → length (purge g.window now g.history) + 1 ≤ g.max_actions
      → volume (purge g.window now g.history) + a ≤ g.max_volume
      → record_action amount now g
        ≡ (ok tt, with_history g (purge g.window now g.history ++ (now, a) ∷ []))
      → Outcome g now amount
  refused :
      (e : Error)
      → record_action amount now g ≡ (err e, with_history g (purge g.window now g.history))
      → Outcome g now amount
  rejected : (e : Error) → record_action amount now g ≡ (err e, g) → Outcome g now amount

outcome : (g : CapacityGovernor) (now : ℕ) (amount : ℤ) → Outcome g now amount
unfolding record_action purge_expired
outcome g now (negsuc n) = rejected value_error refl
outcome g now (pos a) = elim (Bool-cases (ltb g.max_actions (length kept + 1))) [
  | inl many ↦ refused (exceeded (with_history g kept)) (rw many)
  | inr few ↦ elim (Bool-cases (ltb g.max_volume (volume kept + a))) [
    | inl much ↦ refused (exceeded (with_history g kept)) (rw (few, much))
    | inr room ↦ accepted a refl (ground arith) (ground arith) (rw (few, room))
  ]
]
  where
    kept : Actions
    kept = purge g.window now g.history

module _ (limits : CapacityGovernor) (last now : ℕ) (h trace : Actions)
    (t : Tracks limits last h trace) (le : last ≤ now) where
  Tracks-purge : Tracks limits now (purge limits.window now h) trace
  Tracks-purge = record {
    ordered = purge-IsOrdered limits.window now h t.ordered;
    upto = purge-IsUpTo limits.window now now h (IsUpTo-mono last now h le t.upto);
    trace_upto = IsUpTo-mono last now trace le t.trace_upto;
    agrees =
        λ later n. t.agrees later (omega arith) ∙ sym (recent-purge limits.window now later h n);
    within = t.within;
  }

  Tracks-wait : Tracks limits now h trace
  Tracks-wait = record {
    ordered = t.ordered;
    upto = IsUpTo-mono last now h le t.upto;
    trace_upto = IsUpTo-mono last now trace le t.trace_upto;
    agrees = λ later n. t.agrees later (omega arith);
    within = t.within;
  }

  -- The window that ends now holds what the purge has kept.
  recent_now : recent limits.window now trace ≡ purge limits.window now h
  recent_now =
      t.agrees now le
      ∙ sym (purge-eq-recent limits.window now h t.ordered (IsUpTo-mono last now h le t.upto))

  module _ (a : ℕ) (count_fits : length (purge limits.window now h) + 1 ≤ limits.max_actions)
      (volume_fits : volume (purge limits.window now h) + a ≤ limits.max_volume) where
    IsWithin-after :
        (later : ℕ) → IsWithin limits (recent limits.window later (trace ++ (now, a) ∷ []))
    IsWithin-after later = rw recent-append (
        ground (
          arith,
          t.within later,
          ap length recent_now,
          ap volume recent_now,
          length-recent-le limits.window now later trace,
          volume-recent-le limits.window now later trace,
          IsUpTo-mono last now trace le t.trace_upto,
          length-append (recent limits.window later trace) ((now, a) ∷ []),
          length-append (recent limits.window later trace) [],
          volume-append (recent limits.window later trace) ((now, a) ∷ []),
          volume-append (recent limits.window later trace) [],
        ))

    Tracks-accept :
        Tracks limits now (purge limits.window now h ++ (now, a) ∷ []) (trace ++ (now, a) ∷ [])
    Tracks-accept = record {
      ordered =
          IsOrdered-append now (now, a) _ (omega arith) Tracks-purge.ordered Tracks-purge.upto;
      upto = All-append _ _ _ Tracks-purge.upto (omega arith, tt);
      trace_upto = All-append _ _ _ Tracks-purge.trace_upto (omega arith, tt);
      agrees = λ later n.
          recent-append limits.window later trace _
          ∙ ap (λ r. r ++ recent limits.window later ((now, a) ∷ [])) (Tracks-purge.agrees later n)
          ∙ sym (recent-append limits.window later (purge limits.window now h) _);
      within = IsWithin-after;
    }

new-history :
    (max_actions max_volume window : ℕ) (g : CapacityGovernor)
    → new max_actions max_volume window ≡ ok g
    → with_history g [] ≡ g
unfolding new
new-history max_actions max_volume window g e = ground arith

serve-Tracks :
    (limits : CapacityGovernor) (last : ℕ) (requests : List (ℕ × ℤ)) (h trace : Actions)
    → IsMonotone last requests
    → Tracks limits last h trace
    → (now : ℕ)
    → IsWithin limits (recent limits.window now (serve requests (with_history limits h) trace).1)
serve-Tracks limits last [] h trace m t now = t.within now
serve-Tracks limits last ((now, amount) ∷ requests) h trace m t later =
    go (outcome (with_history limits h) now amount)
      (λ h' trace' t'. serve-Tracks limits now requests h' trace' m.1 t' later)
  where
    go :
        Outcome (with_history limits h) now amount
        → ((h' trace' : Actions)
            → Tracks limits now h' trace'
            → IsWithin limits
                (recent limits.window later (serve requests (with_history limits h') trace').1))
        → IsWithin limits (
            recent limits.window later
              (serve requests (record_action amount now (with_history limits h)).1 (
                log_accepted
                  (record_action amount now (with_history limits h)).0
                  now
                  amount
                  trace)).1)
    go (accepted a e c v r) rest =
        rw (r, e) (rest _ _ (Tracks-accept limits last now h trace t m.0 a c v))
    go (refused e r) rest = rw r (rest _ _ (Tracks-purge limits last now h trace t m.0))
    go (rejected e r) rest = rw r (rest _ _ (Tracks-wait limits last now h trace t m.0))

-- A new governor, served requests whose times do not fall: of all actions that it accepted, at most
-- `max_actions` lie in any one window `[now - window, now]`, and their amounts sum to at most
-- `max_volume`.
pub serve-IsWithin :
    (max_actions max_volume window : ℕ) (g : CapacityGovernor) (requests : List (ℕ × ℤ)) (now : ℕ)
    → new max_actions max_volume window ≡ ok g
    → IsMonotone 0 requests
    → IsWithin g (recent g.window now (serve requests g []).1)
serve-IsWithin max_actions max_volume window g requests now e m =
    rw (← new-history max_actions max_volume window g e) (
      serve-Tracks g 0 requests [] [] m
        (record {
          ordered = tt;
          upto = tt;
          trace_upto = tt;
          agrees = λ later n. refl;
          within = λ later. omega arith;
        })
        now)
