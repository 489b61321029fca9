-- ===== src/Js/Fields.antt =====
-- Property access on plain records: `Object.hasOwn` with `Reflect.get`, `Reflect.set`, `delete`, and
-- the order of a record's own keys (array indices first, ascending, then by insertion). Names that
-- `Object.prototype` defines, such as `__proto__` and `constructor`, are not keys here.
pub mod Laws
use Prim.Native.Char.{Char, code}
use Prim.Native.Nat.{◌+◌, ◌-◌, ◌*◌}
use privacy_layer_confidenti.Base.{
  ℕ, String, Bool, true, false, not, ◌&&◌, Option, none, some, List, [], ◌∷◌, ◌==◌, ltb, is_some,
  if◌then◌else◌,
}
use privacy_layer_confidenti.Js.Value.{Value, undefined, Items, nil, item, Fields, end, field}

-- A decimal digit's value.
abbrev digit : Char → Option ℕ
digit c = let n = code c in if not (ltb n b'0') && ltb n (b'9' + 1) then some (n - b'0') else none

digits : ℕ → String → Option ℕ
digits acc String.[] = some acc
digits acc (String.◌∷◌ c s) = elim (digit c) [ none ↦ none | some d ↦ digits (acc * 10 + d) s ]

below_max : Option ℕ → Option ℕ
below_max none = none
below_max (some n) = if ltb n 4294967295 then some n else none

-- The array index that a key spells: decimal, with no leading zero, below 2^32 - 1.
unfoldable pub array_index : String → Option ℕ
unfolding digits below_max
array_index String.[] = none
array_index (String.◌∷◌ c String.[]) = digits 0 (String.◌∷◌ c "")
array_index (String.◌∷◌ c (String.◌∷◌ d s)) = elim (digit c) [
  | none ↦ none
  | some n ↦ if ltb 0 n then below_max (digits n (String.◌∷◌ d s)) else none
]

abbrev index_before : Option ℕ → Option ℕ → Bool
index_before none j = false
index_before (some n) none = true
index_before (some n) (some m) = ltb n m

comes_before : String → String → Bool
unfolding array_index
comes_before k j = index_before (array_index k) (array_index j)

-- A key that is new goes to its place in the order of keys.
place : String → Value → Fields → Fields
place k v end = field k v end
place k v (field j w fs) =
    let rest = place k v fs in if comes_before k j then field k v (field j w fs) else field j w rest

unfoldable pub has_own : String → Fields → Bool
has_own k end = false
has_own k (field j w fs) = if j == k then true else has_own k fs

unfoldable pub overwrite : String → Value → Fields → Fields
overwrite k v end = end
overwrite k v (field j w fs) = if j == k then field j v fs else field j w (overwrite k v fs)

-- `Object.hasOwn(record, key) ? Reflect.get(record, key) : undefined`
unfoldable pub get_field : String → Fields → Value
get_field k end = undefined
get_field k (field j w fs) = if j == k then w else get_field k fs

-- `Reflect.set(record, key, value)`
unfoldable pub put_field : String → Value → Fields → Fields
unfolding place comes_before has_own overwrite
put_field k v fs = if has_own k fs then overwrite k v fs else place k v fs

-- `delete record[key]`
unfoldable pub delete_field : String → Fields → Fields
delete_field k end = end
delete_field k (field j w fs) =
    let rest = delete_field k fs in if j == k then rest else field j w rest

-- `Object.keys`, `Object.values` and `Object.entries`
unfoldable pub keys : Fields → Items
keys end = nil
keys (field j w fs) = item (Value.str j) (keys fs)

unfoldable pub values : Fields → Items
values end = nil
values (field j w fs) = item w (values fs)

unfoldable pub entries : Fields → Items
entries end = nil
entries (field j w fs) = item (Value.arr (item (Value.str j) (item w nil))) (entries fs)

-- `array.push(...items)`
unfoldable pub push_items : Items → Items → Items
push_items nil more = more
push_items (item v vs) more = item v (push_items vs more)
