-- ===== src/Core/State/Bridge/Registered.antt =====
-- The registered types of a bridge over the in-memory adapter
-- (packages/core/src/state/bridge/validation.ts, packages/state/memory/src/index.ts).
use privacy_layer_confidenti.Base.{
  String, Bool, true, false, ◌≡◌, ◌≢◌, refl, Option, none, some, List, [], ◌∷◌, ◌++◌, ◌==◌, ◌||◌,
  eq_iff, arith, contains, is_some, if◌then◌else◌,
}
use privacy_layer_confidenti.Js.Value.{Value}
use privacy_layer_confidenti.Js.Fields.{get_field}
use privacy_layer_confidenti.Core.State.Operations.{Host, StateBridgeMode, read_mode, write_mode}
use privacy_layer_confidenti.Core.State.Bridge.{
  StateBridgeCall, StateBridgeDefinition, parsed, Answer, gave, raised, unregistered_type,
  find_definition, resolve_definition, resolve_type, forward, StateBridgeAdapter,
  resolve_state_bridge_call, StateBridge, register_state_bridge_definitions, bridge_write,
  bridge_read,
}
use privacy_layer_confidenti.Core.State.Memory.{
  MemoryState, memory_register_definition, memory_write, memory_read, in_memory_adapter,
}

-- Every type that the bridge has a definition of is registered with its adapter.
abbrev pub IsRegistered : StateBridge MemoryState → Type 0
IsRegistered bridge =
    (name : String)
    → is_some (find_definition name bridge.definitions) ≡ true
    → contains bridge.adapter_state.registered_types name ≡ true

-- Every definition's schema keeps the call's type, as those of `createStateBridgeCallSchema` do.
abbrev pub KeepsTypes : List StateBridgeDefinition → Type 0
KeepsTypes definitions =
    (name : String) (d : StateBridgeDefinition)
    → find_definition name definitions ≡ some d
    → (call : Value) (c : StateBridgeCall) → d.schema call ≡ parsed c
    → c.call_type ≡ name

find_definition_append :
    (name : String) (ds : List StateBridgeDefinition) (d : StateBridgeDefinition)
    → is_some (find_definition name (ds ++ (d ∷ [])))
      ≡ (is_some (find_definition name ds) || (d.type_name == name))
unfolding find_definition
find_definition_append name [] d = ground arith
find_definition_append name (x ∷ ds) d = ground (arith, find_definition_append name ds d)

contains-memory_register_definition :
    (name : String) (d : StateBridgeDefinition) (s : MemoryState)
    → contains (memory_register_definition d s).registered_types name
      ≡ (contains s.registered_types name || (d.type_name == name))
unfolding memory_register_definition
contains-memory_register_definition name d s = ground (arith, eq_iff d.type_name name)

resolve_definition_registered :
    (ds : List StateBridgeDefinition) (o : Option StateBridgeDefinition) (name : String)
    (call : Value) (mode : StateBridgeMode) {c : StateBridgeCall}
    → KeepsTypes ds
    → find_definition name ds ≡ o
    → resolve_definition o name call mode ≡ gave c
    → is_some (find_definition c.call_type ds) ≡ true
resolve_definition_registered ds none name call mode k e h = absurd (ground arith)
resolve_definition_registered ds (some d) name call mode {c} k e h =
    let schema : d.schema call ≡ parsed c = ground arith in
    let same = k name d e call c schema in rw (same, e) refl

resolve_type_registered :
    (ds : List StateBridgeDefinition) (v call : Value) (mode : StateBridgeMode)
    {c : StateBridgeCall}
    → KeepsTypes ds
    → resolve_type ds v call mode ≡ gave c
    → is_some (find_definition c.call_type ds) ≡ true
resolve_type_registered ds (Value.str name) call mode {c} k h =
    resolve_definition_registered ds (find_definition name ds) name call mode {c = c} k refl
      (ground arith)
resolve_type_registered ds v call mode k h = absurd (ground arith)

resolve_registered :
    (ds : List StateBridgeDefinition) (call : Value) (mode : StateBridgeMode) {c : StateBridgeCall}
    → KeepsTypes ds
    → resolve_state_bridge_call ds call mode ≡ gave c
    → is_some (find_definition c.call_type ds) ≡ true
unfolding resolve_state_bridge_call
resolve_registered ds (Value.obj fields) mode {c} k h =
    resolve_type_registered ds (get_field "type" fields) (Value.obj fields) mode {c = c} k
      (ground arith)
resolve_registered ds call mode k h = absurd (ground arith)

resolve_refused :
    (ds : List StateBridgeDefinition) (call : Value) (mode : StateBridgeMode) (name : String)
    → resolve_state_bridge_call ds call mode ≢ raised (unregistered_type name)
unfolding resolve_state_bridge_call
resolve_refused ds call mode name h = ground arith

register_step-IsRegistered :
    (d : StateBridgeDefinition) (bridge : StateBridge MemoryState)
    → IsRegistered bridge
    → IsRegistered record {
      definitions = bridge.definitions ++ (d ∷ []);
      adapter_state = memory_register_definition d bridge.adapter_state;
    }
register_step-IsRegistered d bridge h name e = ground (
  arith,
  find_definition_append name bridge.definitions d,
  contains-memory_register_definition name d bridge.adapter_state,
  h name,
)

if-IsRegistered :
    {A : Type 0} (b : Bool) (r s : A × StateBridge MemoryState)
    → IsRegistered r.1
    → IsRegistered s.1
    → IsRegistered (if b then r else s).1
if-IsRegistered true r s h k = h
if-IsRegistered false r s h k = k

-- A call of a registered type is not refused as unregistered.
Handles : (StateBridgeCall → MemoryState → Answer Value × MemoryState) → Type 0
Handles handle =
    (c : StateBridgeCall) (s : MemoryState) (name : String)
    → contains s.registered_types c.call_type ≡ true
    → (handle c s).0 ≢ raised (unregistered_type name)

forward_registered :
    (handle : StateBridgeCall → MemoryState → Answer Value × MemoryState)
    (r : Answer StateBridgeCall) (bridge : StateBridge MemoryState)
    (adapter : StateBridgeAdapter MemoryState) (name : String)
    → Handles handle
    → IsRegistered bridge
    → ((c : StateBridgeCall)
        → r ≡ gave c
        → is_some (find_definition c.call_type bridge.definitions) ≡ true)
    → r ≢ raised (unregistered_type name)
    → (forward adapter handle r bridge).0 ≢ raised (unregistered_type name)
unfolding Handles
forward_registered handle (raised e) bridge a name w h k n q = n (ground arith)
forward_registered handle (gave c) bridge a name w h k n q =
    w c bridge.adapter_state name (h c.call_type (k c refl)) q

module _ (host : Host) where
  -- Registering definitions, one after another, keeps the bridge and its adapter in agreement, also
  -- when a duplicate is refused half-way.
  pub register-IsRegistered :
      (items : List StateBridgeDefinition) (bridge : StateBridge MemoryState)
      → IsRegistered bridge
      → IsRegistered (register_state_bridge_definitions (in_memory_adapter host) items bridge).1
  unfolding register_state_bridge_definitions
  register-IsRegistered [] bridge h = h
  register-IsRegistered (d ∷ items) bridge h =
      if-IsRegistered _ _ (register_state_bridge_definitions (in_memory_adapter host) items _) h
        (register-IsRegistered items _ (register_step-IsRegistered d bridge h))

  -- A bridge whose types are registered, and whose schemas keep the type, never has a call refused
  -- by its adapter as unregistered, neither a write nor a read.
  pub bridge_call_registered :
      (bridge : StateBridge MemoryState) (call : Value) (name : String)
      → IsRegistered bridge
      → KeepsTypes bridge.definitions
      → ((bridge_write (in_memory_adapter host) call bridge).0 ≢ raised (unregistered_type name))
        × ((bridge_read (in_memory_adapter host) call bridge).0 ≢ raised (unregistered_type name))
  unfolding bridge_write bridge_read memory_write memory_read Handles
  bridge_call_registered bridge call name h k = (
    forward_registered (memory_write host) _ bridge (in_memory_adapter host) name
        (λ c s n r. ground arith) h (λ c. resolve_registered bridge.definitions call write_mode k)
        (resolve_refused bridge.definitions call write_mode name),
    forward_registered (memory_read host) _ bridge (in_memory_adapter host) name
        (λ c s n r. ground arith) h (λ c. resolve_registered bridge.definitions call read_mode k)
        (resolve_refused bridge.definitions call read_mode name),
  )
