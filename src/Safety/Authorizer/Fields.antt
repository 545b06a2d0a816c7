-- ===== src/Safety/Authorizer/Fields.antt =====
-- The fields of a canonical string: texts without the separator, and what two joined texts share.
use Prim.Native.Char.{Char, code}
use Prim.Native.String.{[], ◌∷◌}
use text.Mathlib.TextLemmas.{cons-append, nil-append}
use ai_revenue_recovery.Prelude.{
  ℕ, String, Bool, ◌≡◌, ◌≢◌, refl, sym, ap, ap₂, not, ◌&&◌, eqb, if◌then◌else◌, ◌==◌, ◌∙◌, arith,
  decimal, true, IsBelow, read_decimal, read_decimal-decimal,
}
use ai_revenue_recovery.Foundation.Events.{
  ActionType, retry_charge, send_notification, update_payment_method_request, offer_payment_plan,
  apply_grace_period, no_action, ActionChannel, direct_payment_gateway, email, sms, whatsapp,
  internal_system, action_type_value, channel_value, action_type_index, channel_index,
}
use ai_revenue_recovery.Foundation.Audit.{◌&◌}

-- The separator `|` does not stand in the text.
abbrev pub HasNoBar : String → Type 0
HasNoBar [] = Unit
HasNoBar (c ∷ s) = (code c ≢ 124) × HasNoBar s

head_code : String → ℕ
head_code [] = 0
head_code (c ∷ s) = code c

head_or : Char → String → Char
head_or d [] = d
head_or d (c ∷ s) = c

tail : String → String
tail [] = []
tail (c ∷ s) = s

-- A text that begins with a character or with the separator.
module _ (s : String) where
  tail-bar : tail ("|" & s) ≡ s
  unfolding tail
  tail-bar = ap tail (cons-append "|" [] s) ∙ nil-append s

  head_code-bar : head_code ("|" & s) ≡ 124
  unfolding head_code
  head_code-bar = ap head_code (cons-append "|" [] s)

module _ (c d : Char) (a s : String) where
  tail-cons : tail ((c ∷ a) & s) ≡ a & s
  unfolding tail
  tail-cons = ap tail (cons-append c a s)

  head_code-cons : head_code ((c ∷ a) & s) ≡ code c
  unfolding head_code
  head_code-cons = ap head_code (cons-append c a s)

  head_or-cons : head_or d ((c ∷ a) & s) ≡ c
  unfolding head_or
  head_or-cons = ap (head_or d) (cons-append c a s)

pub split_bar :
    (a b s t : String) → HasNoBar a → HasNoBar b → (a & "|" & s) ≡ (b & "|" & t) → (a ≡ b) × (s ≡ t)
split_bar [] [] s t h k e =
    let e' = sym (nil-append ("|" & s)) ∙ e ∙ nil-append ("|" & t) in
    (refl, sym (tail-bar s) ∙ ap tail e' ∙ tail-bar t)
split_bar [] (d ∷ b) s t h k e = absurd (
    k.0 (
      sym (head_code-cons d d b ("|" & t))
      ∙ sym (ap head_code e)
      ∙ ap head_code (nil-append ("|" & s))
      ∙ head_code-bar s))
split_bar (c ∷ a) [] s t h k e = absurd (
    h.0 (
      sym (head_code-cons c c a ("|" & s))
      ∙ ap head_code e
      ∙ ap head_code (nil-append ("|" & t))
      ∙ head_code-bar t))
split_bar (c ∷ a) (d ∷ b) s t h k e =
    let (heads, tails) =
      split_bar a b s t h.1 k.1
        (sym (tail-cons c c a ("|" & s)) ∙ ap tail e ∙ tail-cons d d b ("|" & t)) in
    (
      ap₂ ◌∷◌ (sym (head_or-cons c c a ("|" & s)) ∙ ap (head_or c) e ∙ head_or-cons d c b ("|" & t))
          heads,
      tails,
    )

unfoldable pub has_no_bar : String → Bool
has_no_bar [] = true
has_no_bar (c ∷ s) = not (eqb (code c) 124) && has_no_bar s

pub HasNoBar-has_no_bar : (s : String) → has_no_bar s ≡ true → HasNoBar s
unfolding has_no_bar
HasNoBar-has_no_bar [] h = tt
HasNoBar-has_no_bar (c ∷ s) h = (ground arith, HasNoBar-has_no_bar s (ground arith))

pub action_type_value-HasNoBar : (a : ActionType) → HasNoBar (action_type_value a)
unfolding has_no_bar
action_type_value-HasNoBar retry_charge = HasNoBar-has_no_bar "RETRY_CHARGE" refl
action_type_value-HasNoBar send_notification = HasNoBar-has_no_bar "SEND_NOTIFICATION" refl
action_type_value-HasNoBar update_payment_method_request =
    HasNoBar-has_no_bar "UPDATE_PAYMENT_METHOD_REQUEST" refl
action_type_value-HasNoBar offer_payment_plan = HasNoBar-has_no_bar "OFFER_PAYMENT_PLAN" refl
action_type_value-HasNoBar apply_grace_period = HasNoBar-has_no_bar "APPLY_GRACE_PERIOD" refl
action_type_value-HasNoBar no_action = HasNoBar-has_no_bar "NO_ACTION" refl

pub channel_value-HasNoBar : (c : ActionChannel) → HasNoBar (channel_value c)
unfolding has_no_bar
channel_value-HasNoBar direct_payment_gateway = HasNoBar-has_no_bar "DIRECT_PAYMENT_GATEWAY" refl
channel_value-HasNoBar email = HasNoBar-has_no_bar "EMAIL" refl
channel_value-HasNoBar sms = HasNoBar-has_no_bar "SMS" refl
channel_value-HasNoBar whatsapp = HasNoBar-has_no_bar "WHATSAPP" refl
channel_value-HasNoBar internal_system = HasNoBar-has_no_bar "INTERNAL_SYSTEM" refl

-- The place of the member with a value.
action_type_at : String → ℕ
action_type_at s =
    if s == "RETRY_CHARGE"
    then 0
    else if s == "SEND_NOTIFICATION"
    then 1
    else if s == "UPDATE_PAYMENT_METHOD_REQUEST"
    then 2
    else if s == "OFFER_PAYMENT_PLAN"
    then 3
    else if s == "APPLY_GRACE_PERIOD"
    then 4
    else 5

action_type_at_value : (a : ActionType) → action_type_at (action_type_value a) ≡ action_type_index a
unfolding action_type_at
action_type_at_value retry_charge = refl
action_type_at_value send_notification = refl
action_type_at_value update_payment_method_request = refl
action_type_at_value offer_payment_plan = refl
action_type_at_value apply_grace_period = refl
action_type_at_value no_action = refl

channel_at : String → ℕ
channel_at s =
    if s == "DIRECT_PAYMENT_GATEWAY"
    then 0
    else if s == "EMAIL"
    then 1
    else if s == "SMS"
    then 2
    else if s == "WHATSAPP"
    then 3
    else 4

channel_at_value : (c : ActionChannel) → channel_at (channel_value c) ≡ channel_index c
unfolding channel_at
channel_at_value direct_payment_gateway = refl
channel_at_value email = refl
channel_at_value sms = refl
channel_at_value whatsapp = refl
channel_at_value internal_system = refl

pub action_type_value-injective :
    (a b : ActionType) → action_type_value a ≡ action_type_value b → a ≡ b
action_type_value-injective a b e =
    ground (arith, sym (action_type_at_value a) ∙ ap action_type_at e ∙ action_type_at_value b)

pub channel_value-injective : (a b : ActionChannel) → channel_value a ≡ channel_value b → a ≡ b
channel_value-injective a b e =
    ground (arith, sym (channel_at_value a) ∙ ap channel_at e ∙ channel_at_value b)

pub HasNoBar-IsBelow : (s : String) → IsBelow 58 s → HasNoBar s
HasNoBar-IsBelow [] h = tt
HasNoBar-IsBelow (c ∷ s) h = (λ e. absurd (omega (arith, e, h.0)), HasNoBar-IsBelow s h.1)

pub decimal-injective : (m n : ℕ) → decimal m ≡ decimal n → m ≡ n
decimal-injective m n e = sym (read_decimal-decimal m) ∙ ap read_decimal e ∙ read_decimal-decimal n
