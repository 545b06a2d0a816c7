-- ===== src/Foundation/Value.antt =====
-- The values of a payload in src/revenue_recovery/foundation/audit.py, frozen and plain. Sets,
-- which no component logs, are left out.
-- A float is counted in ten-thousandths.
use ai_revenue_recovery.Prelude.{
  ℕ, String, Bool, List, [], ◌∷◌, ◌≡◌, refl, ap, ap₂, ◌==◌, if◌then◌else◌,
}
use ai_revenue_recovery.Prelude.Int.{ℤ, pos}

mutual
  pub data Value : Type 0 where
    null : Value
    bool : Bool → Value
    int : ℤ → Value
    float : ℤ → Value
    text : String → Value
    list tuple : Items → Value
    dict immutable_dict : Fields → Value

  pub data Items : Type 0 where
    nil : Items
    cons : Value → Items → Items

  pub data Fields : Type 0 where
    end : Fields
    field : String → Value → Fields → Fields

-- `freeze_payload`: a mapping becomes an `ImmutableDict`, a sequence a tuple.
unfoldable mutual
  pub freeze_payload : Value → Value
  freeze_payload (dict fs) = immutable_dict (freeze_fields fs)
  freeze_payload (immutable_dict fs) = immutable_dict (freeze_fields fs)
  freeze_payload (list xs) = tuple (freeze_items xs)
  freeze_payload (tuple xs) = tuple (freeze_items xs)
  freeze_payload null = null
  freeze_payload (bool b) = bool b
  freeze_payload (int n) = int n
  freeze_payload (float n) = float n
  freeze_payload (text s) = text s

  pub freeze_items : Items → Items
  freeze_items nil = nil
  freeze_items (cons x xs) = cons (freeze_payload x) (freeze_items xs)

  pub freeze_fields : Fields → Fields
  freeze_fields end = end
  freeze_fields (field k v fs) = field k (freeze_payload v) (freeze_fields fs)

-- `_to_serializable`: back to plain dictionaries and lists.
unfoldable mutual
  pub to_serializable : Value → Value
  to_serializable (dict fs) = dict (to_serializable_fields fs)
  to_serializable (immutable_dict fs) = dict (to_serializable_fields fs)
  to_serializable (list xs) = list (to_serializable_items xs)
  to_serializable (tuple xs) = list (to_serializable_items xs)
  to_serializable null = null
  to_serializable (bool b) = bool b
  to_serializable (int n) = int n
  to_serializable (float n) = float n
  to_serializable (text s) = text s

  pub to_serializable_items : Items → Items
  to_serializable_items nil = nil
  to_serializable_items (cons x xs) = cons (to_serializable x) (to_serializable_items xs)

  pub to_serializable_fields : Fields → Fields
  to_serializable_fields end = end
  to_serializable_fields (field k v fs) = field k (to_serializable v) (to_serializable_fields fs)

mutual
  unfolding freeze_payload to_serializable

  plain_freeze : (v : Value) → to_serializable (freeze_payload v) ≡ to_serializable v
  plain_freeze (dict fs) = ap dict (plain_freeze_fields fs)
  plain_freeze (immutable_dict fs) = ap dict (plain_freeze_fields fs)
  plain_freeze (list xs) = ap list (plain_freeze_items xs)
  plain_freeze (tuple xs) = ap list (plain_freeze_items xs)
  plain_freeze null = refl
  plain_freeze (bool b) = refl
  plain_freeze (int n) = refl
  plain_freeze (float n) = refl
  plain_freeze (text s) = refl

  plain_freeze_items :
      (xs : Items) → to_serializable_items (freeze_items xs) ≡ to_serializable_items xs
  plain_freeze_items nil = refl
  plain_freeze_items (cons x xs) = ap₂ cons (plain_freeze x) (plain_freeze_items xs)

  plain_freeze_fields :
      (fs : Fields) → to_serializable_fields (freeze_fields fs) ≡ to_serializable_fields fs
  plain_freeze_fields end = refl
  plain_freeze_fields (field k v fs) = ap₂ (field k) (plain_freeze v) (plain_freeze_fields fs)

-- Freezing does not change what is serialised.
pub to_serializable-freeze_payload :
    (v : Value) → to_serializable (freeze_payload v) ≡ to_serializable v
to_serializable-freeze_payload v = plain_freeze v

-- The fields of a dict literal.
abbrev pub fields : List (String × Value) → Fields
fields [] = end
fields ((k, v) ∷ kvs) = field k v (fields kvs)

abbrev pub dict_of : List (String × Value) → Value
dict_of kvs = dict (fields kvs)

abbrev pub nat : ℕ → Value
nat n = int (pos n)

-- `payload.get(key)`: `null` stands for `None`.
unfoldable pub get : String → Fields → Value
get key end = null
get key (field k v fs) = if k == key then v else get key fs
