-- ===== src/Prelude/Sorting.antt =====
-- Python's stable `sorted` and the order of texts.
use Prim.Native.Nat.{Ordering}
use Prim.Native.String.compare
use Prim.Native.String.{String, [] as ε, ◌∷◌ as ◌◂◌, compare}
use mathlib.Core.Path.{◌≡◌, refl}
use mathlib.Core.Logic.{inl, inr}
use mathlib.Core.Bool.{Bool, true, false}
use mathlib.Core.List.{List, [], ◌∷◌, Perm}
use mathlib.Core.List.Perm
use native.Mathlib.Omega.{arith}
use ai_revenue_recovery.Prelude.Tests.{if◌then◌else◌, Bool-cases}
use ai_revenue_recovery.Prelude.Lists.{All}

-- `<=` of two texts.
abbrev pub leb_text : String → String → Bool
leb_text s t = elim (compare s t) [ Ordering.gt ↦ false | _ ↦ true ]

pub leb_text_total : (s t : String) → leb_text s t ≡ false → leb_text t s ≡ true
leb_text_total ε ε h = refl
leb_text_total ε (d ◂ t) h = absurd (ground (arith, compare.nil-cons d t))
leb_text_total (c ◂ s) ε h = ground (arith, compare.nil-cons c s)
leb_text_total (c ◂ s) (d ◂ t) h =
    ground (arith, compare.cons-cons c d s t, compare.cons-cons d c t s, leb_text_total s t)

pub leb_text_trans :
    (s t u : String) → leb_text s t ≡ true → leb_text t u ≡ true → leb_text s u ≡ true
leb_text_trans ε t ε h k = refl
leb_text_trans ε t (e ◂ u) h k = ground (arith, compare.nil-cons e u)
leb_text_trans (c ◂ s) ε u h k = absurd (ground (arith, compare.cons-nil c s))
leb_text_trans (c ◂ s) (d ◂ t) ε h k = absurd (ground (arith, compare.cons-nil d t))
leb_text_trans (c ◂ s) (d ◂ t) (e ◂ u) h k = ground (
  arith,
  compare.cons-cons c d s t,
  compare.cons-cons d e t u,
  compare.cons-cons c e s u,
  leb_text_trans s t u,
)

module _ {A : Type 0} (not_after : A → A → Bool) where
  unfoldable pub insert_sorted : A → List A → List A
  insert_sorted x [] = x ∷ []
  insert_sorted x (y ∷ ys) =
      let rest = insert_sorted x ys in if not_after x y then x ∷ y ∷ ys else y ∷ rest

  -- Equal elements keep their order, as in `sorted`.
  unfoldable pub sort : List A → List A
  sort [] = []
  sort (x ∷ xs) = insert_sorted x (sort xs)

  module _ {ℓ} (P : A → Type ℓ) where
    All-insert_sorted : (x : A) (xs : List A) → P x → All P xs → All P (insert_sorted x xs)
    unfolding insert_sorted
    All-insert_sorted x [] p h = (p, tt)
    All-insert_sorted x (y ∷ ys) p h = elim (Bool-cases (not_after x y)) [
      | inl first ↦ rw first (p, h)
      | inr later ↦ rw later (h.0, All-insert_sorted x ys p h.1)
    ]

    pub All-sort : (xs : List A) → All P xs → All P (sort xs)
    unfolding sort
    All-sort [] h = tt
    All-sort (x ∷ xs) h = All-insert_sorted x (sort xs) h.0 (All-sort xs h.1)

  module _ {ℓ} (P : A → Type ℓ) where
    All-of-insert_sorted : (x : A) (xs : List A) → All P (insert_sorted x xs) → P x × All P xs
    unfolding insert_sorted
    All-of-insert_sorted x [] h = h
    All-of-insert_sorted x (y ∷ ys) h = elim (Bool-cases (not_after x y)) [
      | inl first ↦ (rw first at h)
      | inr later ↦
          let k = rw later at h in
          let rest = All-of-insert_sorted x ys k.1 in (rest.0, (k.0, rest.1))
    ]

    pub All-of-sort : (xs : List A) → All P (sort xs) → All P xs
    unfolding sort
    All-of-sort [] h = tt
    All-of-sort (x ∷ xs) h =
        let found = All-of-insert_sorted x (sort xs) h in (found.0, All-of-sort xs found.1)

  insert_sorted-Perm : (x : A) (xs : List A) → Perm (insert_sorted x xs) (x ∷ xs)
  unfolding insert_sorted
  insert_sorted-Perm x [] = Perm.rfl
  insert_sorted-Perm x (y ∷ ys) = elim (Bool-cases (not_after x y)) [
    | inl first ↦ rw first Perm.rfl
    | inr later ↦ rw later (Perm.trans (Perm.cons y (insert_sorted-Perm x ys)) (Perm.swap x y ys))
  ]

  pub sort-Perm : (xs : List A) → Perm (sort xs) xs
  unfolding sort
  sort-Perm [] = Perm.rfl
  sort-Perm (x ∷ xs) = Perm.trans (insert_sorted-Perm x (sort xs)) (Perm.cons x (sort-Perm xs))

-- Each element is related to all after it.
abbrev pub IsOrdered {ℓ} : {A : Type 0} → (A → A → Type ℓ) → List A → Type ℓ
IsOrdered R [] = Unit
IsOrdered R (x ∷ xs) = All (R x) xs × IsOrdered R xs

All-trans {ℓ} :
    {A : Type 0} (R : A → A → Type ℓ)
    → ((a b c : A) → R a b → R b c → R a c)
    → (x y : A) (xs : List A) → R x y
    → All (R y) xs
    → All (R x) xs
All-trans R trans x y [] h k = tt
All-trans R trans x y (z ∷ zs) h k = (trans x y z h k.0, All-trans R trans x y zs h k.1)

-- The order that is sorted by may be finer than the relation.
module _ {ℓ} {A : Type 0} (not_after : A → A → Bool) (R : A → A → Type ℓ)
    (trans : (a b c : A) → R a b → R b c → R a c)
    (first_le : (a b : A) → not_after a b ≡ true → R a b)
    (later_le : (a b : A) → not_after a b ≡ false → R b a) where
  insert_sorted-IsOrdered :
      (x : A) (xs : List A) → IsOrdered R xs → IsOrdered R (insert_sorted not_after x xs)
  unfolding insert_sorted
  insert_sorted-IsOrdered x [] h = (tt, tt)
  insert_sorted-IsOrdered x (y ∷ ys) h = elim (Bool-cases (not_after x y)) [
    | inl first ↦
        rw first ((first_le x y first, All-trans R trans x y ys (first_le x y first) h.0), h)
    | inr later ↦ rw later (
      All-insert_sorted not_after (R y) x ys (later_le x y later) h.0,
      insert_sorted-IsOrdered x ys h.1,
    )
  ]

  pub sort-IsOrdered : (xs : List A) → IsOrdered R (sort not_after xs)
  unfolding sort
  sort-IsOrdered [] = tt
  sort-IsOrdered (x ∷ xs) = insert_sorted-IsOrdered x (sort not_after xs) (sort-IsOrdered xs)
