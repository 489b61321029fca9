-- ===== src/Core/State/Operations.antt =====
-- The operations on the state tree (packages/core/src/state/operations): their data, the handlers
-- and their application in order. Double arithmetic is a parameter. `record[key]` is what the record
-- itself has.
pub mod Reads
pub mod Records
use privacy_layer_confidenti.Base.{
  ℕ, String, Bool, true, false, Option, none, some, List, [], ◌∷◌, or_default, if◌then◌else◌,
}
use privacy_layer_confidenti.Js.Value.{
  Number, finite, Exponent, up, Value, undefined, Items, nil, Fields,
}
use privacy_layer_confidenti.Js.Fields.{
  get_field, put_field, delete_field, keys, values, entries, push_items,
}
use privacy_layer_confidenti.Core.State.Tree.{
  Outcome, done, failed, StateError, json_path_error, operation_error, not_a_read,
  not_allowed_in_read_mode, Update, get_json_path_value, set_json_path_value, ensure_array_at_path,
  ensure_record_at_path,
}
use privacy_layer_confidenti.Core.State.Filter.{
  ToBigInt, ItemSchemas, ArrayFilterRejectMatch, filter_array_by_reject_match,
}

pub data StateOperation : Type 0 where
  array_push : (json_path : String) (pushed : Items) → StateOperation
  array_filter :
      (json_path : String) (item_schema_key : String) (reject_when : ArrayFilterRejectMatch)
      → StateOperation
  array_clean : (json_path : String) → StateOperation
  record_get : (json_path : String) (key : String) → StateOperation
  record_set : (json_path : String) (key : String) (value : Value) → StateOperation
  record_delete : (json_path : String) (key : String) → StateOperation
  record_keys record_values record_entries : (json_path : String) → StateOperation
  primitive_get : (json_path : String) → StateOperation
  primitive_set : (json_path : String) (value : Value) → StateOperation
  primitive_increment : (json_path : String) (delta : Option Number) → StateOperation
  primitive_null : (json_path : String) → StateOperation

pub data StateBridgeMode : Type 0 where
  read_mode write_mode : StateBridgeMode

abbrev pub is_read_mode : StateBridgeMode → Bool
is_read_mode read_mode = true
is_read_mode write_mode = false

-- `readOperationTypes.has(operation.opType)`
abbrev pub is_read_operation : StateOperation → Bool
is_read_operation (record_get p k) = true
is_read_operation (record_keys p) = true
is_read_operation (record_values p) = true
is_read_operation (record_entries p) = true
is_read_operation (primitive_get p) = true
is_read_operation _ = false

-- What the handlers rely on from outside: the sum of doubles, `Number(bigint)`, `BigInt(String(_))`
-- and the registered item schemas.
pub record Host : Type 0 where
  pub add : Number → Number → Number
  pub number_of_bigint : Bool → ℕ → Number
  pub to_bigint : ToBigInt
  pub schemas : ItemSchemas

-- A handler that reads the record at its path, and one that changes it and returns nothing.
abbrev pub reading : (Fields → Value) → Update Value
reading f record_ = (done (f record_), record_)

abbrev pub changing : (Fields → Fields) → Update Value
changing f record_ = (done undefined, f record_)

abbrev push_all : Items → Items → Outcome Value × Items
push_all pushed array = (done undefined, push_items array pushed)

-- The array itself, for `applyArrayFilter`.
abbrev same_array : Items → Outcome Items × Items
same_array array = (done array, array)

abbrev returns_nothing : Outcome (Unit {0}) × Fields → Outcome Value × Fields
returns_nothing (done u, tree) = (done undefined, tree)
returns_nothing (failed e, tree) = (failed e, tree)

module _ (host : Host) (create_missing : Bool) where
  abbrev set_value : String → Value → Update Value
  set_value json_path value tree =
      returns_nothing (set_json_path_value create_missing json_path value tree)

  abbrev set_filtered : String → Outcome Items → Update Value
  set_filtered json_path (failed e) tree = (failed e, tree)
  set_filtered json_path (done filtered) tree = set_value json_path (Value.arr filtered) tree

  abbrev filter_at :
      String → String → ArrayFilterRejectMatch → Outcome Items × Fields → Outcome Value × Fields
  filter_at json_path item_schema_key reject_when (failed e, tree) = (failed e, tree)
  filter_at json_path item_schema_key reject_when (done array, tree) =
      set_filtered json_path
        (filter_array_by_reject_match host.to_bigint host.schemas array item_schema_key reject_when)
        tree

  unfoldable pub apply_array_filter : String → String → ArrayFilterRejectMatch → Update Value
  apply_array_filter json_path item_schema_key reject_when tree =
      filter_at json_path item_schema_key reject_when
        (ensure_array_at_path create_missing json_path same_array tree)

  abbrev to_number_value : Value → Number
  to_number_value (Value.num n) = n
  to_number_value (Value.bigint s n) = host.number_of_bigint s n
  to_number_value _ = finite false 0 (up 0)

  abbrev next_number : Value → Option Number → Number
  next_number current delta =
      host.add (to_number_value current) (or_default delta (finite false 1 (up 0)))

  abbrev returning : Value → Outcome (Unit {0}) × Fields → Outcome Value × Fields
  returning v (done u, tree) = (done v, tree)
  returning v (failed e, tree) = (failed e, tree)

  unfoldable pub apply_primitive_increment : String → Option Number → Update Value
  apply_primitive_increment json_path delta tree = elim (get_json_path_value tree json_path) [
    | failed e ↦ (failed e, tree)
    | done current ↦
        (let next = Value.num (next_number current delta) in
          returning next (set_json_path_value create_missing json_path next tree))
  ]

  -- `operationHandlers[operation.opType]`
  unfoldable pub operation_handler : StateOperation → Update Value
  unfolding apply_array_filter apply_primitive_increment
  operation_handler (array_push p pushed) tree =
      ensure_array_at_path create_missing p (push_all pushed) tree
  operation_handler (array_filter p k m) tree = apply_array_filter p k m tree
  operation_handler (array_clean p) tree = set_value p (Value.arr nil) tree
  operation_handler (record_get p k) tree =
      ensure_record_at_path create_missing p (reading (get_field k)) tree
  operation_handler (record_set p k v) tree =
      ensure_record_at_path create_missing p (changing (put_field k v)) tree
  operation_handler (record_delete p k) tree =
      ensure_record_at_path create_missing p (changing (delete_field k)) tree
  operation_handler (record_keys p) tree =
      ensure_record_at_path create_missing p (reading (λ r. Value.arr (keys r))) tree
  operation_handler (record_values p) tree =
      ensure_record_at_path create_missing p (reading (λ r. Value.arr (values r))) tree
  operation_handler (record_entries p) tree =
      ensure_record_at_path create_missing p (reading (λ r. Value.arr (entries r))) tree
  operation_handler (primitive_get p) tree = (get_json_path_value tree p, tree)
  operation_handler (primitive_set p v) tree = set_value p v tree
  operation_handler (primitive_increment p delta) tree = apply_primitive_increment p delta tree
  operation_handler (primitive_null p) tree = set_value p undefined tree

abbrev pub as_operation_error : Outcome Value × Fields → Outcome Value × Fields
as_operation_error (failed (json_path_error m), tree) = (failed (operation_error m), tree)
as_operation_error (failed e, tree) = (failed e, tree)
as_operation_error (done v, tree) = (done v, tree)

-- What follows a step that did not throw.
abbrev pub and_then : (Value → Update Value) → Outcome Value × Fields → Outcome Value × Fields
and_then next (failed e, changed) = (failed e, changed)
and_then next (done v, changed) = next v changed

module _ (host : Host) (mode : StateBridgeMode) where
  unfoldable pub apply_state_operation : StateOperation → Update Value
  unfolding operation_handler
  apply_state_operation operation tree =
      if is_read_mode mode
      then if is_read_operation operation
        then as_operation_error (operation_handler host false operation tree)
        else (failed not_allowed_in_read_mode, tree)
      else as_operation_error (operation_handler host true operation tree)

  -- The loop: the result of the last operation, and the tree as the operations leave it.
  unfoldable pub run_operations : List StateOperation → Value → Update Value
  unfolding apply_state_operation
  run_operations [] read_result tree = (done read_result, tree)
  run_operations (operation ∷ operations) read_result tree =
      and_then (run_operations operations) (apply_state_operation operation tree)

  abbrev pub ends_with_read : List StateOperation → Bool
  ends_with_read [] = false
  ends_with_read (operation ∷ []) = is_read_operation operation
  ends_with_read (operation ∷ next ∷ operations) = ends_with_read (next ∷ operations)

  abbrev read_answer : List StateOperation → Value → Outcome Value
  read_answer operations v =
      if is_read_mode mode
      then if ends_with_read operations then done v else failed not_a_read
      else done undefined

  abbrev pub answer : List StateOperation → Value → Update Value
  answer operations v tree = (read_answer operations v, tree)

  unfoldable pub apply_state_operations : List StateOperation → Update Value
  unfolding run_operations
  apply_state_operations operations tree =
      and_then (answer operations) (run_operations operations undefined tree)
