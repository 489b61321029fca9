-- ===== src/Core/Tests/Bridges.antt =====
-- Examples of the bridge's properties.
use privacy_layer_confidenti.Base.{
  String, false, ◌≡◌, ◌≢◌, ◌⊎◌, inl, inr, refl, ap, sym, ◌∙◌, some, List, [], ◌∷◌, arith, eq_iff,
  ◌==◌, Bool-cases,
}
use privacy_layer_confidenti.Js.Value.{Value, undefined, bigint, str, obj, end, field}
use privacy_layer_confidenti.Js.Fields.{get_field, has_own, put_field}
use privacy_layer_confidenti.Js.Text.{trim, split, without_empty}
use privacy_layer_confidenti.Core.State.Tree.{
  parse_json_path, at_json_path, at_segments, at_parent, ensure_record_at_path,
  ensure_array_at_path, operation_error, not_an_array,
}
use privacy_layer_confidenti.Core.State.Operations.{apply_state_operations, write_mode, read_mode}
use privacy_layer_confidenti.Core.State.Bridge.{
  StateBridgeCall, StateBridgeDefinition, parsed, gave, raised, unregistered_type, state_error,
  StateBridge, find_definition, resolve_state_bridge_call, bridge_write, bridge_read,
  create_state_bridge,
}
use privacy_layer_confidenti.Core.State.Bridge.Registered.{
  IsRegistered, KeepsTypes, bridge_call_registered,
}
use privacy_layer_confidenti.Core.State.Memory.{
  MemoryState, create_in_memory_state, memory_write, in_memory_adapter,
}
use privacy_layer_confidenti.Core.State.Memory.Atomic.{
  bridge_write_atomic, bridge_write-bridge_read,
}
use privacy_layer_confidenti.Core.Tests.{
  host, tree, bridge, write_call, read_call, written, set_note, get_note,
}

abbrev fresh : StateBridge MemoryState
fresh = create_state_bridge (create_in_memory_state tree)

fresh-IsRegistered : IsRegistered fresh
unfolding find_definition
fresh-IsRegistered name h = absurd (ground arith)

bridge-IsRegistered : IsRegistered bridge
unfolding find_definition
bridge-IsRegistered name h = ground arith

set_note_keeps :
    (call : Value) (c : StateBridgeCall) → set_note.schema call ≡ parsed c → c.call_type ≡ "setNote"
set_note_keeps (obj (field k v (field k' v' fs))) c h = ground arith
set_note_keeps (obj (field k v end)) c h = ground arith
set_note_keeps (obj end) c h = ground arith
set_note_keeps _ c h = ground arith

get_note_keeps :
    (call : Value) (c : StateBridgeCall) → get_note.schema call ≡ parsed c → c.call_type ≡ "getNote"
get_note_keeps call c h = ground arith

-- A definition that is found is the first one, or found among the others.
found_cons :
    (name : String) (d : StateBridgeDefinition) (ds : List StateBridgeDefinition)
    {e : StateBridgeDefinition}
    → find_definition name (d ∷ ds) ≡ some e
    → ((e ≡ d) × (d.type_name ≡ name)) ⊎ (find_definition name ds ≡ some e)
unfolding find_definition
found_cons name d ds h = elim (Bool-cases (d.type_name == name)) [
  | inl q ↦ inl (ground arith, ground (arith, eq_iff d.type_name name))
  | inr q ↦ inr (ground arith)
]

found_none : (name : String) {e : StateBridgeDefinition} → find_definition name [] ≢ some e
unfolding find_definition
found_none name h = cc

bridge-KeepsTypes : KeepsTypes bridge.definitions
bridge-KeepsTypes name d e call c h = elim (found_cons name set_note (get_note ∷ []) e) [
  | inl (same, q) ↦
      set_note_keeps call c (ap (λ (d : StateBridgeDefinition). d.schema call) (sym same) ∙ h) ∙ q
  | inr later ↦ elim (found_cons name get_note [] later) [
    | inl (same, q) ↦
        get_note_keeps call c (ap (λ (d : StateBridgeDefinition). d.schema call) (sym same) ∙ h) ∙ q
    | inr none_left ↦ absurd (found_none name none_left)
  ]
]

registered_example :
    ((bridge_write (in_memory_adapter host) (written "setNote") bridge).0
      ≢ raised (unregistered_type "setNote"))
    × ((bridge_read (in_memory_adapter host) (written "setNote") bridge).0
        ≢ raised (unregistered_type "setNote"))
registered_example =
    bridge_call_registered host bridge (written "setNote") "setNote" bridge-IsRegistered
      bridge-KeepsTypes

-- A call that the schema parses as the one that fails.
abbrev marked : Value
marked = obj (field "type" (str "setNote") (field "bad" undefined end))

fails :
    bridge_write (in_memory_adapter host) marked bridge
    ≡ (raised (state_error (operation_error (not_an_array "$.owner"))), bridge)
unfolding bridge_write resolve_state_bridge_call find_definition memory_write apply_state_operations
    ensure_record_at_path ensure_array_at_path at_json_path parse_json_path trim without_empty split
    at_segments at_parent get_field put_field
fails = refl

atomic_example : bridge ≡ bridge
atomic_example = bridge_write_atomic host marked bridge fails

abbrev after : StateBridge MemoryState
after = (bridge_write (in_memory_adapter host) (written "setNote") bridge).1

writes : bridge_write (in_memory_adapter host) (written "setNote") bridge ≡ (gave undefined, after)
unfolding bridge_write resolve_state_bridge_call find_definition memory_write apply_state_operations
    ensure_record_at_path at_json_path parse_json_path trim without_empty split at_segments
    at_parent get_field put_field
writes = refl

resolves_write :
    resolve_state_bridge_call bridge.definitions (written "setNote") write_mode ≡ gave write_call
unfolding resolve_state_bridge_call find_definition get_field has_own
resolves_write = refl

resolves_read :
    resolve_state_bridge_call bridge.definitions (written "getNote") read_mode ≡ gave read_call
unfolding resolve_state_bridge_call find_definition get_field has_own
resolves_read = refl

write_read_example :
    bridge_read (in_memory_adapter host) (written "getNote") after ≡ (gave (bigint false 7), after)
write_read_example =
    bridge_write-bridge_read host (written "setNote") (written "getNote") write_call read_call []
      "$.notes" "second" (bigint false 7) bridge {bridge' = after} resolves_write refl resolves_read
      refl refl writes
