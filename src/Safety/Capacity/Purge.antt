-- ===== src/Safety/Capacity/Purge.antt =====
-- The purge against the actions of a rolling window.
use ai_revenue_recovery.Prelude.{
  ℕ, ◌+◌, ◌≤◌, [], ◌∷◌, ◌++◌, ◌≡◌, refl, leb, ltb, ◌&&◌, arith, if◌then◌else◌, length, All,
  All-append, Bool-cases, inl, inr,
}
use ai_revenue_recovery.Safety.Capacity.{Actions, volume, purge}

-- In the order of time, oldest first.
abbrev pub IsOrdered : Actions → Type 0
IsOrdered [] = Unit
IsOrdered (x ∷ h) = All (λ y. x.0 ≤ y.0) h × IsOrdered h

abbrev pub IsUpTo : ℕ → Actions → Type 0
IsUpTo now = All (λ x. x.0 ≤ now)

module _ (window : ℕ) where
  -- The actions from `now - window` to `now`, both included.
  abbrev pub recent : ℕ → Actions → Actions
  recent now [] = []
  recent now (x ∷ h) =
      let rest = recent now h in if leb now (x.0 + window) && leb x.0 now then x ∷ rest else rest

  pub recent-append : (now : ℕ) (g h : Actions) → recent now (g ++ h) ≡ recent now g ++ recent now h
  recent-append now [] h = refl
  recent-append now (x ∷ g) h = ground (arith, recent-append now g h)

  recent_whole :
      (now t : ℕ) (h : Actions)
      → now ≤ t + window
      → All (λ y. t ≤ y.0) h
      → IsUpTo now h
      → recent now h ≡ h
  recent_whole now t [] n later upto = refl
  recent_whole now t (x ∷ h) n later upto = ground (arith, recent_whole now t h n later.1 upto.1)

  -- On an ordered history that does not pass `now` the purge keeps what is recent.
  pub purge-eq-recent :
      (now : ℕ) (h : Actions) → IsOrdered h → IsUpTo now h → purge window now h ≡ recent now h
  unfolding purge
  purge-eq-recent now [] o u = refl
  purge-eq-recent now (x ∷ h) o u =
      ground (arith, purge-eq-recent now h o.1 u.1, recent_whole now x.0 h)

  -- What was purged is in no later window.
  pub recent-purge :
      (now later : ℕ) (h : Actions)
      → now ≤ later
      → recent later (purge window now h) ≡ recent later h
  unfolding purge
  recent-purge now later [] n = refl
  recent-purge now later (x ∷ h) n = ground (arith, recent-purge now later h n)

  pub purge-IsOrdered : (now : ℕ) (h : Actions) → IsOrdered h → IsOrdered (purge window now h)
  unfolding purge
  purge-IsOrdered now [] o = tt
  purge-IsOrdered now (x ∷ h) o = elim (Bool-cases (ltb (x.0 + window) now)) [
    | inl old ↦ rw old (purge-IsOrdered now h o.1)
    | inr new ↦ rw new o
  ]

  pub purge-IsUpTo :
      (now later : ℕ) (h : Actions) → IsUpTo later h → IsUpTo later (purge window now h)
  unfolding purge
  purge-IsUpTo now later [] u = tt
  purge-IsUpTo now later (x ∷ h) u = elim (Bool-cases (ltb (x.0 + window) now)) [
    | inl old ↦ rw old (purge-IsUpTo now later h u.1)
    | inr new ↦ rw new u
  ]

  -- A later window holds no more of the actions that an earlier one has all passed.
  pub length-recent-le :
      (now later : ℕ) (h : Actions)
      → now ≤ later
      → IsUpTo now h
      → length (recent later h) ≤ length (recent now h)
  length-recent-le now later [] n u = omega arith
  length-recent-le now later (x ∷ h) n u = ground (arith, length-recent-le now later h n u.1)

  pub volume-recent-le :
      (now later : ℕ) (h : Actions)
      → now ≤ later
      → IsUpTo now h
      → volume (recent later h) ≤ volume (recent now h)
  volume-recent-le now later [] n u = omega arith
  volume-recent-le now later (x ∷ h) n u = ground (arith, volume-recent-le now later h n u.1)

pub volume-append : (g h : Actions) → volume (g ++ h) ≡ volume g + volume h
volume-append [] h = omega arith
volume-append (x ∷ g) h = omega (arith, volume-append g h)

pub IsOrdered-append :
    (now : ℕ) (x : ℕ × ℕ) (h : Actions)
    → now ≤ x.0
    → IsOrdered h
    → IsUpTo now h
    → IsOrdered (h ++ x ∷ [])
IsOrdered-append now x [] n o u = (tt, tt)
IsOrdered-append now x (y ∷ h) n o u =
    (All-append _ h (x ∷ []) o.0 (omega arith, tt), IsOrdered-append now x h n o.1 u.1)

pub IsUpTo-mono : (now later : ℕ) (h : Actions) → now ≤ later → IsUpTo now h → IsUpTo later h
IsUpTo-mono now later [] n u = tt
IsUpTo-mono now later (x ∷ h) n u = (omega arith, IsUpTo-mono now later h n u.1)
