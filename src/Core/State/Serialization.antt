-- ===== src/Core/State/Serialization.antt =====
-- Values that can be stored as JSON (packages/core/src/state/serialization/normalize-values.ts):
-- bigints become their decimal texts.
pub mod Laws
use Prim.Native.Nat.{◌/◌, ◌%◌}
use Prim.Native.String.{◌++◌ as str_append}
use privacy_layer_confidenti.Base.{ℕ, zero, suc, List, [], ◌∷◌, String, Bool, true, false, ltb}
use privacy_layer_confidenti.Js.Value.{
  Value, undefined, null, bool, num, bigint, str, arr, obj, Items, nil, item, Fields, end, field,
}

abbrev nth_text : List String → ℕ → String
nth_text [] n = ""
nth_text (t ∷ ts) zero = t
nth_text (t ∷ ts) (suc n) = nth_text ts n

-- A digit's text.
abbrev digit_text : ℕ → String
digit_text = nth_text ("0" ∷ "1" ∷ "2" ∷ "3" ∷ "4" ∷ "5" ∷ "6" ∷ "7" ∷ "8" ∷ "9" ∷ [])

-- The fuel bounds the number of digits: a number has fewer digits than its successor.
unfoldable pub decimal_with : (fuel n : ℕ) → String
decimal_with zero n = digit_text n
decimal_with (suc fuel) n = elim (ltb n 10) [
  | true ↦ digit_text n
  | false ↦ str_append (decimal_with fuel (n / 10)) (digit_text (n % 10))
]

-- `value.toString()` of a bigint.
unfoldable pub bigint_text : Bool → ℕ → String
unfolding decimal_with
bigint_text false n = decimal_with n n
bigint_text true n = str_append "-" (decimal_with n n)

unfoldable mutual
  pub normalize_value : Value → Value
  normalize_value undefined = undefined
  normalize_value null = null
  normalize_value (bool b) = bool b
  normalize_value (num n) = num n
  normalize_value (bigint s n) = str (bigint_text s n)
  normalize_value (str s) = str s
  normalize_value (arr vs) = arr (normalize_items vs)
  normalize_value (obj fs) = obj (normalize_fields fs)

  pub normalize_items : Items → Items
  normalize_items nil = nil
  normalize_items (item v vs) = item (normalize_value v) (normalize_items vs)

  pub normalize_fields : Fields → Fields
  normalize_fields end = end
  normalize_fields (field k v fs) = field k (normalize_value v) (normalize_fields fs)
