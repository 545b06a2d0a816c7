-- ===== src/Prelude/Decimal.antt =====
-- Python's `str` of a number that is not negative.
use Prim.Native.Nat.{ℕ, zero, suc, ◌+◌, ◌-◌, ◌*◌, ◌/◌, ◌%◌, ◌<◌}
use Prim.Native.Char.{code}
use Prim.Native.String.{String, [], ◌∷◌, ◌++◌}
use text.Mathlib.TextLemmas.{cons-append, nil-append}
use mathlib.Core.Path.{◌≡◌, refl, sym, ap, ◌∙◌, subst}
use mathlib.Core.Logic.{inl, inr}
use mathlib.Core.Bool.{Bool, true, false}
use native.Mathlib.Omega.{arith}
use ai_revenue_recovery.Prelude.Tests.{ltb, eqb, if◌then◌else◌, Bool-cases}
use ai_revenue_recovery.Prelude.Text.{IsBelow}

abbrev digit : ℕ → String
digit n =
    if eqb n 0
    then "0"
    else if eqb n 1
    then "1"
    else if eqb n 2
    then "2"
    else if eqb n 3
    then "3"
    else if eqb n 4
    then "4"
    else if eqb n 5
    then "5"
    else if eqb n 6
    then "6"
    else if eqb n 7
    then "7"
    else if eqb n 8
    then "8"
    else "9"

-- The fuel `suc n` is more than the count of digits.
decimal_from : ℕ → ℕ → String
decimal_from zero n = ""
decimal_from (suc fuel) n =
    let front = decimal_from fuel (n / 10) in if ltb n 10 then digit n else front ++ digit (n % 10)

unfoldable pub decimal : ℕ → String
unfolding decimal_from
decimal n = decimal_from (suc n) n

decimal_runs : decimal 1050 ≡ "1050"
unfolding decimal
decimal_runs = refl

-- The number that a text of digits stands for, after the digits so far.
read_from : ℕ → String → ℕ
read_from n [] = n
read_from n (c ∷ s) = read_from (n * 10 + (code c - 48)) s

unfoldable pub read_decimal : String → ℕ
unfolding read_from
read_decimal s = read_from 0 s

read_from-append : (n : ℕ) (s t : String) → read_from n (s ++ t) ≡ read_from (read_from n s) t
unfolding read_from
read_from-append n [] t = ap (read_from n) (nil-append t)
read_from-append n (c ∷ s) t =
    ap (read_from n) (cons-append c s t) ∙ read_from-append (n * 10 + (code c - 48)) s t

read_from-if :
    (n : ℕ) (b : Bool) (s t : String)
    → read_from n (if b then s else t) ≡ (if b then read_from n s else read_from n t)
read_from-if n true s t = refl
read_from-if n false s t = refl

read_from-digit : (n d : ℕ) → d < 10 → read_from n (digit d) ≡ n * 10 + d
unfolding read_from
read_from-digit n d h = simp read_from-if (ground arith)

read_from-decimal_from : (fuel n : ℕ) → n < fuel → read_from 0 (decimal_from fuel n) ≡ n
unfolding decimal_from
read_from-decimal_from zero n h = absurd (omega arith)
read_from-decimal_from (suc fuel) n h = elim (Bool-cases (ltb n 10)) [
  | inl small ↦ rw small (read_from-digit 0 n (ground arith) ∙ omega arith)
  | inr large ↦ rw large (
      read_from-append 0 (decimal_from fuel (n / 10)) (digit (n % 10))
      ∙ ap (λ m. read_from m (digit (n % 10))) (read_from-decimal_from fuel (n / 10) (ground arith))
      ∙ read_from-digit (n / 10) (n % 10) (omega arith)
      ∙ omega arith)
]

-- Reading a printed number gives it back.
pub read_decimal-decimal : (n : ℕ) → read_decimal (decimal n) ≡ n
unfolding decimal read_decimal
read_decimal-decimal n = read_from-decimal_from (suc n) n (omega arith)

IsBelow-append : (n : ℕ) (s t : String) → IsBelow n s → IsBelow n t → IsBelow n (s ++ t)
IsBelow-append n [] t h k = subst (IsBelow n) (sym (nil-append t)) k
IsBelow-append n (c ∷ s) t h k =
    subst (IsBelow n) (sym (cons-append c s t)) (h.0, IsBelow-append n s t h.1 k)

IsBelow-if :
    (n : ℕ) (b : Bool) (s t : String) → IsBelow n s → IsBelow n t → IsBelow n (if b then s else t)
IsBelow-if n true s t h k = h
IsBelow-if n false s t h k = k

digit-IsBelow : (d : ℕ) → IsBelow 58 (digit d)
digit-IsBelow d = IsBelow-if 58 (eqb d 0) "0" _ (omega arith) (
    IsBelow-if 58 (eqb d 1) "1" _ (omega arith) (
      IsBelow-if 58 (eqb d 2) "2" _ (omega arith) (
        IsBelow-if 58 (eqb d 3) "3" _ (omega arith) (
          IsBelow-if 58 (eqb d 4) "4" _ (omega arith) (
            IsBelow-if 58 (eqb d 5) "5" _ (omega arith) (
              IsBelow-if 58 (eqb d 6) "6" _ (omega arith) (
                IsBelow-if 58 (eqb d 7) "7" _ (omega arith)
                  (IsBelow-if 58 (eqb d 8) "8" _ (omega arith) (omega arith)))))))))

decimal_from-IsBelow : (fuel n : ℕ) → IsBelow 58 (decimal_from fuel n)
unfolding decimal_from
decimal_from-IsBelow zero n = tt
decimal_from-IsBelow (suc fuel) n = elim (Bool-cases (ltb n 10)) [
  | inl small ↦ rw small (digit-IsBelow n)
  | inr large ↦ rw large (
      IsBelow-append 58 (decimal_from fuel (n / 10)) (digit (n % 10))
        (decimal_from-IsBelow fuel (n / 10)) (digit-IsBelow (n % 10)))
]

pub decimal-IsBelow : (n : ℕ) → IsBelow 58 (decimal n)
unfolding decimal
decimal-IsBelow n = decimal_from-IsBelow (suc n) n
