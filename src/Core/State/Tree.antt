-- ===== src/Core/State/Tree.antt =====
-- JSON paths into the state tree (packages/core/src/state/json-path/tree.ts). The tree is mutated in
-- place there; here each function takes a record and returns its result beside the record as it is
-- afterwards, also when it throws half-way. Parts of one tree are not shared with one another.
pub mod Laws
pub mod Root
pub mod Again
pub mod Success
use Prim.Native.Char.{code}
use privacy_layer_confidenti.Base.{
  String, Bool, true, false, Option, none, some, List, [], ◌∷◌, ◌==◌, if◌then◌else◌,
}
use privacy_layer_confidenti.Js.Value.{Value, undefined, Items, nil, Fields, end}
use privacy_layer_confidenti.Js.Text.{same_code, trim, split, without_empty}
use privacy_layer_confidenti.Js.Fields.{get_field, put_field}

-- The messages of `StateJsonPathError`.
pub data PathMessage : Type 0 where
  path_empty : PathMessage
  unsupported_root : (json_path : String) → PathMessage
  segment_not_found : (segment : String) → PathMessage
  container_missing : (segment : String) → PathMessage
  array_path_not_found : (json_path : String) → PathMessage
  not_an_array : (json_path : String) → PathMessage
  record_path_not_found : (json_path : String) → PathMessage
  not_a_record : (json_path : String) → PathMessage

-- What a state operation throws: a `StateJsonPathError`, a `StateOperationError` (of a path error, or
-- of its own), or the plain error of an unknown filter schema.
pub data StateError : Type 0 where
  json_path_error : PathMessage → StateError
  operation_error : PathMessage → StateError
  not_a_read : StateError
  not_allowed_in_read_mode : StateError
  unknown_schema_key : String → StateError

pub data Outcome {ℓ} (A : Type ℓ) : Type ℓ where
  done : A → Outcome A
  failed : StateError → Outcome A

abbrev parts : String → List String
parts s = without_empty (split b'.' s)

-- The path below its root: `$.rest`, `$`, or a path with no root.
abbrev below_root : String → String → Outcome (List String)
below_root json_path String.[] = done []
below_root json_path (String.◌∷◌ c rest) =
    if same_code (code c) b'.'
    then done (parts rest)
    else failed (json_path_error (unsupported_root json_path))

abbrev segments_of : String → String → Outcome (List String)
segments_of json_path String.[] = failed (json_path_error path_empty)
segments_of json_path (String.◌∷◌ c rest) =
    if same_code (code c) b'$' then below_root json_path rest else done (parts (String.◌∷◌ c rest))

unfoldable pub parse_json_path : String → Outcome (List String)
parse_json_path json_path = segments_of json_path (trim json_path)

-- What is done at a record: the result, and the record afterwards.
abbrev pub Update {ℓ} : Type ℓ → Type ℓ
Update A = Fields → Outcome A × Fields

abbrev pub init : String → List String → List String
init segment [] = []
init segment (next ∷ segments) = segment ∷ init next segments

abbrev pub last : String → List String → String
last segment [] = segment
last segment (next ∷ segments) = last next segments

module _ {A : Type 0} (create_missing : Bool) where
  -- The loop of `resolveJsonPathParent` over `segments.slice(0, -1)`, with what its caller does at
  -- the parent.
  unfoldable pub at_parent : List String → Update A → Update A
  at_parent [] update record_ = update record_
  at_parent (segment ∷ segments) update record_ = elim (get_field segment record_) [
    | Value.undefined ↦
        if create_missing
        then (let (result, created) = at_parent segments update end in
            (result, put_field segment (Value.obj created) record_))
        else (failed (json_path_error (segment_not_found segment)), record_)
    | Value.obj next ↦
        (let (result, changed) = at_parent segments update next in
          (result, put_field segment (Value.obj changed) record_))
    | _ ↦ (failed (json_path_error (container_missing segment)), record_)
  ]

  -- The parent and the key of a path: the root and the empty key for the path of the root.
  unfoldable pub at_segments : List String → (String → Update A) → Update A
  at_segments [] update root = update "" root
  at_segments (segment ∷ []) update root = update segment root
  at_segments (segment ∷ next ∷ segments) update root =
      at_parent (init segment (next ∷ segments)) (update (last segment (next ∷ segments))) root

  -- `resolveJsonPathParent`, with what its caller does at the parent and the key.
  unfoldable pub at_json_path : String → (String → Update A) → Update A
  at_json_path json_path update root = elim (parse_json_path json_path) [
    | failed e ↦ (failed e, root)
    | done segments ↦ at_segments segments update root
  ]

abbrev pub read_segments : List String → Value → Value
read_segments [] current = current
read_segments (segment ∷ segments) (Value.obj record_) =
    read_segments segments (get_field segment record_)
read_segments (segment ∷ segments) _ = undefined

unfoldable pub get_json_path_value : Fields → String → Outcome Value
get_json_path_value root json_path = elim (parse_json_path json_path) [
  | failed e ↦ failed e
  | done segments ↦ done (read_segments segments (Value.obj root))
]

-- What `setJsonPathValue` does at the parent.
abbrev pub write_property : Value → String → Update (Unit {0})
write_property value key parent = (done tt, put_field key value parent)

unfoldable pub set_json_path_value : Bool → String → Value → Update (Unit {0})
set_json_path_value create_missing json_path value =
    at_json_path create_missing json_path (write_property value)

module _ {A : Type 0} (create_missing : Bool) (json_path : String) where
  abbrev put_items : String → Fields → Outcome A × Items → Outcome A × Fields
  put_items key parent (result, changed) = (result, put_field key (Value.arr changed) parent)

  abbrev put_record : String → Fields → Outcome A × Fields → Outcome A × Fields
  put_record key parent (result, changed) = (result, put_field key (Value.obj changed) parent)

  -- `ensureArrayAtPath` and what its caller does with the array.
  unfoldable pub array_at : (Items → Outcome A × Items) → String → Update A
  array_at update key parent = elim (get_field key parent) [
    | Value.undefined ↦
        if create_missing
        then put_items key parent (update nil)
        else (failed (json_path_error (array_path_not_found json_path)), parent)
    | Value.arr current ↦ put_items key parent (update current)
    | _ ↦ (failed (json_path_error (not_an_array json_path)), parent)
  ]

  unfoldable pub ensure_array_at_path : (Items → Outcome A × Items) → Update A
  unfolding array_at
  ensure_array_at_path update = at_json_path create_missing json_path (array_at update)

  -- `ensureRecordAtPath` and what its caller does with the record.
  unfoldable pub record_at : Update A → String → Update A
  record_at update key parent = elim (get_field key parent) [
    | Value.undefined ↦
        if create_missing
        then put_record key parent (update end)
        else (failed (json_path_error (record_path_not_found json_path)), parent)
    | Value.obj current ↦ put_record key parent (update current)
    | _ ↦ (failed (json_path_error (not_a_record json_path)), parent)
  ]

  unfoldable pub ensure_record_at_path : Update A → Update A
  unfolding record_at
  ensure_record_at_path update = at_json_path create_missing json_path (record_at update)
