-- ===== src/Core/State/Redux.antt =====
-- The Redux state adapter (packages/state/redux/src/index.ts). The Redux store is the client's: it is
-- a parameter, its state and its dispatch.
pub mod Laws
use privacy_layer_confidenti.Base.{
  String, Bool, true, false, not, Option, none, some, List, [], ◌∷◌, contains, or_default,
  if◌then◌else◌,
}
use privacy_layer_confidenti.Js.Value.{Value, undefined, obj, Fields, end}
use privacy_layer_confidenti.Js.Fields.{get_field}
use privacy_layer_confidenti.Core.State.Tree.{Outcome, done, failed}
use privacy_layer_confidenti.Core.State.Filter.{
  ArrayFilterRejectMatch, field_equals, field_in, all_of, Matches, no_match, and_match,
}
use privacy_layer_confidenti.Core.State.Operations.{
  Host, read_mode, write_mode, apply_state_operations, StateOperation, array_push, array_filter,
  array_clean, record_get, record_set, record_delete, record_keys, record_values, record_entries,
  primitive_get, primitive_set, primitive_increment, primitive_null,
}
use privacy_layer_confidenti.Core.State.Bridge.{
  StateBridgeCall, StateBridgeDefinition, Answer, gave, raised, unregistered_type, store_not_bound,
  state_error, StateBridgeAdapter,
}
use privacy_layer_confidenti.Core.State.Memory.{answer_of}
use privacy_layer_confidenti.Core.State.Serialization.{
  normalize_value, normalize_items, normalize_fields,
}

pub data ReduxAction : Type 0 where
  apply_write : StateBridgeCall → ReduxAction
  hydrate : Fields → ReduxAction
  other_action : String → ReduxAction

abbrev pub draft_of : Outcome Value × Fields → Outcome Fields
draft_of (failed e, draft) = failed e
draft_of (done v, draft) = done draft

-- `stateBranchReducer`: its outcome, and the object of the state that it was given as it is afterwards.
-- The operations of a write work on a clone.
unfoldable pub state_branch_reducer : Host → Option Fields → ReduxAction → Outcome Fields × Fields
state_branch_reducer host state (hydrate payload) =
    (done (normalize_fields payload), or_default state end)
state_branch_reducer host state (apply_write call) =
    let previous = or_default state end in
    let cloned = previous in
    (draft_of (apply_state_operations host write_mode call.operations cloned), previous)
state_branch_reducer host state (other_action name) =
    (done (or_default state end), or_default state end)

-- `normalizeSerializableStateValues` of a call: of the values in its operations.
unfoldable mutual
  pub normalize_match : ArrayFilterRejectMatch → ArrayFilterRejectMatch
  normalize_match (field_equals name v) = field_equals name (normalize_value v)
  normalize_match (field_in name vs) = field_in name (normalize_items vs)
  normalize_match (all_of ms) = all_of (normalize_matches ms)

  pub normalize_matches : Matches → Matches
  normalize_matches no_match = no_match
  normalize_matches (and_match m ms) = and_match (normalize_match m) (normalize_matches ms)

unfoldable pub normalize_operation : StateOperation → StateOperation
unfolding normalize_match
normalize_operation (array_push p vs) = array_push p (normalize_items vs)
normalize_operation (array_filter p k m) = array_filter p k (normalize_match m)
normalize_operation (record_set p k v) = record_set p k (normalize_value v)
normalize_operation (primitive_set p v) = primitive_set p (normalize_value v)
normalize_operation operation = operation

unfoldable pub normalize_operations : List StateOperation → List StateOperation
unfolding normalize_operation
normalize_operations [] = []
normalize_operations (operation ∷ operations) =
    normalize_operation operation ∷ normalize_operations operations

abbrev pub normalize_call : StateBridgeCall → StateBridgeCall
normalize_call call = record {
  call_type = call.call_type;
  operations = normalize_operations call.operations;
}

-- `readReducerBranch`
abbrev record_or_empty : Value → Fields
record_or_empty (obj branch) = branch
record_or_empty _ = end

unfoldable pub read_reducer_branch : Fields → String → Fields
read_reducer_branch root_state reducer_path = record_or_empty (get_field reducer_path root_state)

pub record ReduxStore (R : Type 0) : Type 0 where
  pub root_state : R → Fields
  pub dispatch : ReduxAction → R → Outcome (Unit {0}) × R

-- The adapter: the path of the branch once it is bound to a store, and the store's own state.
pub record ReduxAdapterState (R : Type 0) : Type 0 where
  pub registered_types : List String
  pub bound_path : Option String
  pub store_state : R

module _ {R : Type 0} where
  abbrev pub create_redux_state_adapter : R → ReduxAdapterState R
  create_redux_state_adapter r = record {
    registered_types = [];
    bound_path = none;
    store_state = r;
  }

  abbrev pub bind_redux_state_adapter : String → ReduxAdapterState R → ReduxAdapterState R
  bind_redux_state_adapter reducer_path s = record {
    registered_types = s.registered_types;
    bound_path = some reducer_path;
    store_state = s.store_state;
  }

  abbrev pub redux_register_definition :
      StateBridgeDefinition → ReduxAdapterState R → ReduxAdapterState R
  redux_register_definition d s = record {
    registered_types =
        if contains s.registered_types d.type_name
        then s.registered_types
        else d.type_name ∷ s.registered_types;
    bound_path = s.bound_path;
    store_state = s.store_state;
  }

  abbrev pub with_store : ReduxAdapterState R → R → ReduxAdapterState R
  with_store s r = record {
    registered_types = s.registered_types;
    bound_path = s.bound_path;
    store_state = r;
  }

  abbrev pub dispatched :
      ReduxAdapterState R → Outcome (Unit {0}) × R → Answer Value × ReduxAdapterState R
  dispatched s (failed e, r) = (raised (state_error e), with_store s r)
  dispatched s (done u, r) = (gave undefined, with_store s r)

module _ {R : Type 0} (host : Host) (store : ReduxStore R) where
  abbrev pub write_bound :
      Option String → StateBridgeCall → ReduxAdapterState R → Answer Value × ReduxAdapterState R
  write_bound none call s = (raised store_not_bound, s)
  write_bound (some path) call s =
      dispatched s (store.dispatch (apply_write (normalize_call call)) s.store_state)

  unfoldable pub redux_write :
      StateBridgeCall → ReduxAdapterState R → Answer Value × ReduxAdapterState R
  redux_write call s =
      if not (contains s.registered_types call.call_type)
      then (raised (unregistered_type call.call_type), s)
      else write_bound s.bound_path call s

  -- The `readState` of an adapter: the empty record before it is bound.
  abbrev pub read_branch : Option String → R → Fields
  read_branch none r = end
  read_branch (some path) r = read_reducer_branch (store.root_state r) path

  unfoldable pub redux_read :
      StateBridgeCall → ReduxAdapterState R → Answer Value × ReduxAdapterState R
  redux_read call s =
      if not (contains s.registered_types call.call_type)
      then (raised (unregistered_type call.call_type), s)
      else (
        answer_of
            (apply_state_operations host read_mode call.operations
              (read_branch s.bound_path s.store_state)).0,
        s,
      )

  abbrev pub redux_adapter : StateBridgeAdapter (ReduxAdapterState R)
  redux_adapter = record {
    register_definition = redux_register_definition;
    write = redux_write;
    read = redux_read;
  }
