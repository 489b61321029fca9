-- ===== src/Core/State/Bridge.antt =====
-- The state bridge (packages/core/src/state/bridge): registered call types, the checks of a call and
-- its way to the adapter. The schemas are zod values: a definition holds its parser.
pub mod Registered
use privacy_layer_confidenti.Base.{
  String, Bool, true, false, not, Option, none, some, List, [], ◌∷◌, ◌++◌, ◌==◌, if◌then◌else◌,
  is_some,
}
use privacy_layer_confidenti.Js.Value.{Value, Fields, field, end}
use privacy_layer_confidenti.Js.Fields.{has_own, get_field}
use privacy_layer_confidenti.Core.State.Tree.{StateError}
use privacy_layer_confidenti.Core.State.Operations.{
  StateOperation, StateBridgeMode, read_mode, write_mode, is_read_mode,
}

pub record StateBridgeCall : Type 0 where
  pub call_type : String
  pub operations : List StateOperation

-- What `safeParse` gives: the message of its error, or the parsed call.
pub data Parsed : Type 0 where
  invalid : String → Parsed
  parsed : StateBridgeCall → Parsed

pub record StateBridgeDefinition : Type 0 where
  pub type_name : String
  pub mode : StateBridgeMode
  pub schema : Value → Parsed

-- What a bridge throws: a `StateBridgeValidationError`, the execution error of an unknown type, or
-- what its adapter throws.
pub data BridgeError : Type 0 where
  already_registered : String → BridgeError
  type_missing : BridgeError
  type_not_a_string : BridgeError
  unknown_type : String → BridgeError
  registered_for : String → StateBridgeMode → BridgeError
  schema_error : String → BridgeError
  unregistered_type : String → BridgeError
  store_not_bound : BridgeError
  state_error : StateError → BridgeError

pub data Answer {ℓ} (A : Type ℓ) : Type ℓ where
  gave : A → Answer A
  raised : BridgeError → Answer A

-- An adapter over its own state.
pub record StateBridgeAdapter (S : Type 0) : Type 0 where
  pub register_definition : StateBridgeDefinition → S → S
  pub write : StateBridgeCall → S → Answer Value × S
  pub read : StateBridgeCall → S → Answer Value × S

-- `definitions.get(type)` of the map of definitions.
unfoldable pub find_definition : String → List StateBridgeDefinition → Option StateBridgeDefinition
find_definition name [] = none
find_definition name (d ∷ ds) =
    let rest = find_definition name ds in if d.type_name == name then some d else rest

abbrev same_mode : StateBridgeMode → StateBridgeMode → Bool
same_mode read_mode m = is_read_mode m
same_mode write_mode m = not (is_read_mode m)

-- The checks of `resolveStateBridgeCall` on the registered definition.
abbrev pub resolve_definition :
    Option StateBridgeDefinition → String → Value → StateBridgeMode → Answer StateBridgeCall
resolve_definition none type_value call expected_mode = raised (unknown_type type_value)
resolve_definition (some d) type_value call expected_mode =
    if not (same_mode d.mode expected_mode)
    then raised (registered_for type_value d.mode)
    else elim (d.schema call) [
      | invalid message ↦ raised (schema_error message)
      | parsed c ↦ gave c
    ]

abbrev pub resolve_type :
    List StateBridgeDefinition → Value → Value → StateBridgeMode → Answer StateBridgeCall
resolve_type definitions (Value.str type_value) call expected_mode =
    if type_value == ""
    then raised type_not_a_string
    else resolve_definition (find_definition type_value definitions) type_value call expected_mode
resolve_type definitions _ call expected_mode = raised type_not_a_string

unfoldable pub resolve_state_bridge_call :
    List StateBridgeDefinition → Value → StateBridgeMode → Answer StateBridgeCall
resolve_state_bridge_call definitions (Value.obj fields) expected_mode =
    if has_own "type" fields
    then resolve_type definitions (get_field "type" fields) (Value.obj fields) expected_mode
    else raised type_missing
resolve_state_bridge_call definitions _ expected_mode = raised type_missing

-- A bridge: its registered definitions and its adapter's state.
pub record StateBridge (S : Type 0) : Type 0 where
  pub definitions : List StateBridgeDefinition
  pub adapter_state : S

abbrev pub create_state_bridge : {S : Type 0} → S → StateBridge S
create_state_bridge s = record { definitions = []; adapter_state = s }

module _ {S : Type 0} (adapter : StateBridgeAdapter S) where
  -- The loop of `registerStateBridgeDefinitions`: what was registered before a duplicate stays.
  unfoldable pub register_state_bridge_definitions :
      List StateBridgeDefinition → StateBridge S → Answer (Unit {0}) × StateBridge S
  register_state_bridge_definitions [] bridge = (gave tt, bridge)
  register_state_bridge_definitions (d ∷ items) bridge =
      let rest = register_state_bridge_definitions items record {
        definitions = bridge.definitions ++ (d ∷ []);
        adapter_state = adapter.register_definition d bridge.adapter_state;
      } in
      if is_some (find_definition d.type_name bridge.definitions)
      then (raised (already_registered d.type_name), bridge)
      else rest

  abbrev pub forward :
      (StateBridgeCall → S → Answer Value × S)
      → Answer StateBridgeCall
      → StateBridge S
      → Answer Value × StateBridge S
  forward handle (raised e) bridge = (raised e, bridge)
  forward handle (gave call) bridge =
      let (answer, changed) = handle call bridge.adapter_state in
      (answer, record { definitions = bridge.definitions; adapter_state = changed })

  unfoldable pub bridge_write : Value → StateBridge S → Answer Value × StateBridge S
  bridge_write call bridge =
      forward adapter.write (resolve_state_bridge_call bridge.definitions call write_mode) bridge

  unfoldable pub bridge_read : Value → StateBridge S → Answer Value × StateBridge S
  bridge_read call bridge =
      forward adapter.read (resolve_state_bridge_call bridge.definitions call read_mode) bridge
