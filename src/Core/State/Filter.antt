-- ===== src/Core/State/Filter.antt =====
-- Filtering arrays by a match (packages/core/src/state/array-filter/match.ts). The schemas are zod
-- values: the registry is a parameter that gives a key's parser, and so is `BigInt(String(value))`.
pub mod Laws
use privacy_layer_confidenti.Base.{
  ℕ, String, Bool, true, false, not, ◌&&◌, ◌||◌, Option, none, some, List, [], ◌∷◌, ◌==◌,
  if◌then◌else◌,
}
use privacy_layer_confidenti.Js.Value.{
  Exponent, up, down, Number, finite, infinite, nan, Value, undefined, null, bool, num, bigint, str,
  arr, obj, Items, nil, item, Fields,
}
use privacy_layer_confidenti.Js.Text.{same_code}
use privacy_layer_confidenti.Js.Fields.{get_field}
use privacy_layer_confidenti.Core.State.Tree.{StateError, unknown_schema_key, Outcome, done, failed}

mutual
  pub data ArrayFilterRejectMatch : Type 0 where
    field_equals : (field_name : String) (value : Value) → ArrayFilterRejectMatch
    field_in : (field_name : String) (candidates : Items) → ArrayFilterRejectMatch
    all_of : Matches → ArrayFilterRejectMatch

  pub data Matches : Type 0 where
    no_match : Matches
    and_match : ArrayFilterRejectMatch → Matches → Matches

-- `BigInt(String(value))`, none when it throws: the sign and the magnitude.
abbrev pub ToBigInt : Type 0
ToBigInt = Value → Option (Bool × ℕ)

-- `registerArrayFilterItemSchema`: the parser under each key, none for an unknown key.
abbrev pub ItemSchemas : Type 0
ItemSchemas = String → Option (Value → Option Fields)

abbrev same_bool : Bool → Bool → Bool
same_bool true b = b
same_bool false b = not b

abbrev same_exponent : Exponent → Exponent → Bool
same_exponent (up a) (up b) = same_code a b
same_exponent (down a) (down b) = same_code a b
same_exponent _ _ = false

abbrev same_number : Number → Number → Bool
same_number (finite s m e) (finite t n f) = same_bool s t && same_code m n && same_exponent e f
same_number (infinite s) (infinite t) = same_bool s t
same_number nan nan = true
same_number _ _ = false

-- `Object.is` of values that are not bigints. An array or a record is the same only as itself: the
-- parsed item and the match share none.
unfoldable pub object_is : Value → Value → Bool
object_is undefined undefined = true
object_is null null = true
object_is (bool a) (bool b) = same_bool a b
object_is (num a) (num b) = same_number a b
object_is (str a) (str b) = a == b
object_is _ _ = false

abbrev is_bigint : Value → Bool
is_bigint (bigint s n) = true
is_bigint _ = false

abbrev same_bigint : Option (Bool × ℕ) → Option (Bool × ℕ) → Bool
same_bigint (some (s, m)) (some (t, n)) = same_bool s t && same_code m n
same_bigint _ _ = false

module _ (to_bigint : ToBigInt) where
  unfoldable pub values_equal : Value → Value → Bool
  unfolding object_is
  values_equal left right =
      if is_bigint left || is_bigint right
      then same_bigint (to_bigint left) (to_bigint right)
      else object_is left right

  unfoldable pub value_in_list : Value → Items → Bool
  value_in_list value nil = false
  value_in_list value (item candidate rest) =
      values_equal value candidate || value_in_list value rest

  unfoldable mutual
    pub should_reject_array_item : Fields → ArrayFilterRejectMatch → Bool
    should_reject_array_item fields (field_equals name value) =
        values_equal (get_field name fields) value
    should_reject_array_item fields (field_in name candidates) =
        value_in_list (get_field name fields) candidates
    should_reject_array_item fields (all_of matches) = every_match fields matches

    pub every_match : Fields → Matches → Bool
    every_match fields no_match = true
    every_match fields (and_match m ms) = should_reject_array_item fields m && every_match fields ms

  -- The test of one item: it parses, and is not rejected.
  unfoldable pub kept : (Value → Option Fields) → ArrayFilterRejectMatch → Value → Bool
  kept parse reject_when v = elim (parse v) [
    | none ↦ false
    | some parsed ↦ not (should_reject_array_item parsed reject_when)
  ]

  unfoldable pub filter_items : (Value → Option Fields) → ArrayFilterRejectMatch → Items → Items
  unfolding kept
  filter_items parse reject_when nil = nil
  filter_items parse reject_when (item v vs) =
      let rest = filter_items parse reject_when vs in
      if kept parse reject_when v then item v rest else rest

  unfoldable pub filter_array_by_reject_match :
      ItemSchemas → Items → String → ArrayFilterRejectMatch → Outcome Items
  unfolding filter_items
  filter_array_by_reject_match schemas array item_schema_key reject_when =
      elim (schemas item_schema_key) [
        | none ↦ failed (unknown_schema_key item_schema_key)
        | some parse ↦ done (filter_items parse reject_when array)
      ]
