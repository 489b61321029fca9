-- ===== src/Core/State/Tree/Root.antt =====
-- The root path in packages/core/src/state/json-path/tree.ts: it is set as the property with the empty
-- key, and read as the whole tree.
use privacy_layer_confidenti.Base.{ℕ, suc, ◌+◌, ◌≤◌, ◌≡◌, ◌≢◌, ap, ◌∙◌, String, Bool, [], arith}
use privacy_layer_confidenti.Js.Value.{Value, obj, Fields, end, field}
use privacy_layer_confidenti.Js.Fields.{put_field}
use privacy_layer_confidenti.Core.State.Tree.{
  Outcome, done, failed, parse_json_path, get_json_path_value, set_json_path_value, write_property,
  at_segments,
}
use privacy_layer_confidenti.Core.State.Tree.Laws.{at_json_path-eq, get_json_path_value-eq}

-- How deep and wide the records of a value are.
mutual
  size : Value → ℕ
  size (obj fields) = suc (fields_size fields)
  size _ = 0

  fields_size : Fields → ℕ
  fields_size end = 0
  fields_size (field name v fields) = size v + fields_size fields

size-put_field :
    (key : String) (value : Value) (root : Fields)
    → size value ≤ fields_size (put_field key value root)
unfolding put_field size
size-put_field key value end = omega arith
size-put_field key value (field name v root) = ground (arith, size-put_field key value root)

-- A record that holds a value is not this value.
put_field-differs :
    (key : String) (value : Value) (root : Fields) → obj (put_field key value root) ≢ value
unfolding size
put_field-differs key value root same =
    let held = size-put_field key value root in
    let equal : suc (fields_size (put_field key value root)) ≡ size value = ap size same in
    omega (arith, held, equal)

abbrev value_or : Value → Outcome Value → Value
value_or v (done w) = w
value_or v (failed e) = v

-- Setting a path of the root succeeds for every value, and reading the path afterwards succeeds, but
-- never gives the value that was set.
pub set_root :
    (create : Bool) (json_path : String) (value : Value) (root : Fields)
    → parse_json_path json_path ≡ done []
    → ((set_json_path_value create json_path value root).0 ≡ done tt)
      × ((read : Value) × (get_json_path_value
              (set_json_path_value create json_path value root).1
              json_path
            ≡ done read)
          × (read ≢ value))
unfolding set_json_path_value at_segments
set_root create json_path value root p =
    let sets : set_json_path_value create json_path value root
        ≡ (done tt, put_field "" value root) =
      at_json_path-eq create json_path (write_property value) root p in
    (
      ap (λ r. r.0) sets,
      (
        obj (put_field "" value root),
        ap (λ r. get_json_path_value r.1 json_path) sets
            ∙ get_json_path_value-eq (put_field "" value root) json_path p,
        put_field-differs "" value root,
      ),
    )
