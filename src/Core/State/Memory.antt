-- ===== src/Core/State/Memory.antt =====
-- The in-memory state adapter (packages/state/memory/src/index.ts). Its tree is cloned before every
-- use, so a draft that fails is dropped.
pub mod Atomic
use privacy_layer_confidenti.Base.{
  String, Bool, true, false, not, List, [], ◌∷◌, ◌==◌, contains, if◌then◌else◌,
}
use privacy_layer_confidenti.Js.Value.{Value, undefined, Fields}
use privacy_layer_confidenti.Core.State.Tree.{Outcome, done, failed}
use privacy_layer_confidenti.Core.State.Operations.{
  Host, read_mode, write_mode, apply_state_operations,
}
use privacy_layer_confidenti.Core.State.Bridge.{
  StateBridgeCall, StateBridgeDefinition, Answer, gave, raised, unregistered_type, state_error,
  StateBridgeAdapter,
}

pub record MemoryState : Type 0 where
  pub state_tree : Fields
  pub registered_types : List String

abbrev pub create_in_memory_state : Fields → MemoryState
create_in_memory_state initial_state = record { state_tree = initial_state; registered_types = [] }

unfoldable pub memory_register_definition : StateBridgeDefinition → MemoryState → MemoryState
memory_register_definition d s = record {
  state_tree = s.state_tree;
  registered_types =
      if contains s.registered_types d.type_name
      then s.registered_types
      else d.type_name ∷ s.registered_types;
}

abbrev pub get_state : MemoryState → Fields
get_state s = s.state_tree

abbrev pub reset_state : Fields → MemoryState → MemoryState
reset_state next_state s = record { state_tree = next_state; registered_types = s.registered_types }

abbrev pub commit : Outcome Value × Fields → MemoryState → Answer Value × MemoryState
commit (failed e, draft) s = (raised (state_error e), s)
commit (done v, draft) s = (gave undefined, reset_state draft s)

abbrev pub answer_of : Outcome Value → Answer Value
answer_of (failed e) = raised (state_error e)
answer_of (done v) = gave v

module _ (host : Host) where
  unfoldable pub memory_write : StateBridgeCall → MemoryState → Answer Value × MemoryState
  memory_write call s =
      if not (contains s.registered_types call.call_type)
      then (raised (unregistered_type call.call_type), s)
      else commit (apply_state_operations host write_mode call.operations s.state_tree) s

  unfoldable pub memory_read : StateBridgeCall → MemoryState → Answer Value × MemoryState
  memory_read call s =
      if not (contains s.registered_types call.call_type)
      then (raised (unregistered_type call.call_type), s)
      else (answer_of (apply_state_operations host read_mode call.operations s.state_tree).0, s)

  abbrev pub in_memory_adapter : StateBridgeAdapter MemoryState
  in_memory_adapter = record {
    register_definition = memory_register_definition;
    write = memory_write;
    read = memory_read;
  }
