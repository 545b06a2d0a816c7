-- ===== src/Prelude/Text.antt =====
-- Python's `str.upper`, `str.lower` and `str.strip`, on ASCII text; other characters are left as they are.
use ai_revenue_recovery.Prelude.Tests.{leb, eqb, if◌then◌else◌, Bool-cases}
use Prim.Native.Nat.{ℕ, ◌<◌}
use Prim.Native.Char.{Char, code}
use Prim.Native.String.{String, [], ◌∷◌, count}
use mathlib.Core.Path.{◌≡◌, refl, ap₂}
use mathlib.Core.Logic.{◌⊎◌, inl, inr}
use mathlib.Core.Bool.{Bool, true, ◌&&◌, ◌||◌}
use native.Mathlib.Omega.{arith}

-- The character of the second text that stands where `c` stands in the first, or `c`.
translate : String → String → Char → Char
translate (a ∷ from) (b ∷ to) c = if eqb (code c) (code a) then b else translate from to c
translate _ _ c = c

abbrev lower_case : String
lower_case = "abcdefghijklmnopqrstuvwxyz"

abbrev upper_case : String
upper_case = "ABCDEFGHIJKLMNOPQRSTUVWXYZ"

upper_char : Char → Char
unfolding translate
upper_char c = if leb 97 (code c) && leb (code c) 122 then translate lower_case upper_case c else c

-- `s.upper()`
unfoldable pub upper : String → String
unfolding upper_char
upper [] = []
upper (c ∷ s) = upper_char c ∷ upper s

lower_char : Char → Char
unfolding translate
lower_char c = if leb 65 (code c) && leb (code c) 90 then translate upper_case lower_case c else c

-- `s.lower()`
unfoldable pub lower : String → String
unfolding lower_char
lower [] = []
lower (c ∷ s) = lower_char c ∷ lower s

-- `all(c in "0123456789abcdef" for c in s)`
unfoldable pub is_hex : String → Bool
is_hex [] = true
is_hex (c ∷ s) = let n = code c in ((leb 48 n && leb n 57) || (leb 97 n && leb n 102)) && is_hex s

pub lower-is_hex : (s : String) → is_hex s ≡ true → lower s ≡ s
unfolding lower is_hex
lower-is_hex [] h = refl
lower-is_hex (c ∷ s) h = ap₂ ◌∷◌ (ground arith) (lower-is_hex s (ground arith))

-- ASCII's part of `str.isspace`, for one character.
abbrev pub is_space : Char → Bool
is_space c = let n = code c in (leb 9 n && leb n 13) || (leb 28 n && leb n 32)

left_strip : String → String
left_strip [] = []
left_strip (c ∷ s) = if is_space c then left_strip s else c ∷ s

right_strip : String → String
right_strip [] = []
right_strip (c ∷ s) = elim (right_strip s) [
  | [] ↦ if is_space c then [] else c ∷ []
  | d ∷ t ↦ c ∷ d ∷ t
]

-- `s.strip()`
unfoldable pub strip : String → String
unfolding left_strip right_strip
strip s = right_strip (left_strip s)

abbrev pub IsBelow : ℕ → String → Type 0
IsBelow n [] = Unit
IsBelow n (c ∷ s) = (code c < n) × IsBelow n s

translate-cases :
    (n : ℕ) (from to : String) (c : Char)
    → IsBelow n to
    → (translate from to c ≡ c) ⊎ (code (translate from to c) < n)
unfolding translate
translate-cases n [] to c h = inl refl
translate-cases n (a ∷ from) [] c h = inl refl
translate-cases n (a ∷ from) (b ∷ to) c h = elim (Bool-cases (eqb (code c) (code a))) [
  | inl e ↦ inr (rw e h.0)
  | inr e ↦ rw e (translate-cases n from to c h.1)
]

upper_char_idem : (c : Char) → upper_char (upper_char c) ≡ upper_char c
unfolding upper_char
upper_char_idem c = elim (Bool-cases (leb 97 (code c) && leb (code c) 122)) [
  | inr e ↦ simp e
  | inl e ↦ elim (translate-cases 97 lower_case upper_case c (omega arith)) [
    | inl same ↦ simp (e, same)
    | inr low ↦ ground arith
  ]
]

pub upper_idem : (s : String) → upper (upper s) ≡ upper s
unfolding upper
upper_idem [] = refl
upper_idem (c ∷ s) = ap₂ ◌∷◌ (unfold upper_char in upper_char_idem c) (upper_idem s)

upper_runs : upper "inr 10" ≡ "INR 10"
unfolding upper
upper_runs = refl

strip_runs : strip "  a b " ≡ "a b"
unfolding strip
strip_runs = refl

-- ASCII's part of `str.isalpha`, for a text that is not empty.
is_alpha : String → Bool
is_alpha [] = true
is_alpha (c ∷ s) =
    let n = code c in ((leb 65 n && leb n 90) || (leb 97 n && leb n 122)) && is_alpha s

-- The validator of a currency: three letters.
unfoldable pub is_code : String → Bool
unfolding is_alpha
is_code s = eqb (count s) 3 && is_alpha (upper s)
