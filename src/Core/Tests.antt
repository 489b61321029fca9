-- ===== src/Core/Tests.antt =====
-- Concrete inputs for the core: a state tree, a bridge over it, and adapters.
mod Trees
mod Bridges
mod Preparing
mod Stores
use privacy_layer_confidenti.Base.{
  ℕ, String, Bool, true, false, Option, none, some, List, [], ◌∷◌, ◌==◌, if◌then◌else◌,
}
use privacy_layer_confidenti.Js.Value.{
  Number, Value, undefined, bigint, str, obj, Items, nil, item, Fields, end, field,
}
use privacy_layer_confidenti.Core.Errors.{
  OperationIntent, private_value, public_value, PrivacySdkError, OperationKind, Thrown, foreign,
}
use privacy_layer_confidenti.Core.Operations.{Attempt, answered, raised}
use privacy_layer_confidenti.Core.Prepare.{NetworkAdapter, PolicyAdapter, PrivacyClientAdapters}
use privacy_layer_confidenti.Core.State.Filter.{ToBigInt, ItemSchemas}
use privacy_layer_confidenti.Core.State.Operations.{
  Host, StateBridgeMode, read_mode, write_mode, StateOperation, record_set, record_get, array_push,
}
use privacy_layer_confidenti.Core.State.Bridge.{
  StateBridgeCall, StateBridgeDefinition, Parsed, parsed, invalid, StateBridge,
}
use privacy_layer_confidenti.Core.State.Memory.{MemoryState}

abbrev pub parse_bigint : ToBigInt
parse_bigint (bigint s n) = some (s, n)
parse_bigint _ = none

abbrev pub parse_fields : Value → Option Fields
parse_fields (obj fields) = some fields
parse_fields _ = none

abbrev pub known_schemas : ItemSchemas
known_schemas key = if key == "note" then some parse_fields else none

abbrev pub host : Host
host = record {
  add = λ a b. b;
  number_of_bigint = λ s n. Number.nan;
  to_bigint = parse_bigint;
  schemas = known_schemas;
}

-- { notes: { first: 5n }, owner: 'alice' }
abbrev pub tree : Fields
tree = field "notes" (obj (field "first" (bigint false 5) end)) (field "owner" (str "alice") end)

abbrev pub write_call : StateBridgeCall
write_call = record {
  call_type = "setNote";
  operations = record_set "$.notes" "second" (bigint false 7) ∷ [];
}

abbrev pub read_call : StateBridgeCall
read_call = record { call_type = "getNote"; operations = record_get "$.notes" "second" ∷ [] }

-- A write that fails at its second operation: the owner is no array.
abbrev pub bad_call : StateBridgeCall
bad_call = record {
  call_type = "setNote";
  operations = record_set "$.notes" "second" (bigint false 7) ∷ array_push "$.owner" nil ∷ [];
}

-- A call as it is written: its type, and a mark of the one that fails.
abbrev pub written : String → Value
written name = obj (field "type" (str name) end)

abbrev pub set_note : StateBridgeDefinition
set_note = record {
  type_name = "setNote";
  mode = write_mode;
  schema = λ call. elim call [
    | obj (field k v (field k' v' fs)) ↦ parsed bad_call
    | _ ↦ parsed write_call
  ];
}

abbrev pub get_note : StateBridgeDefinition
get_note = record { type_name = "getNote"; mode = read_mode; schema = λ call. parsed read_call }

abbrev pub bridge : StateBridge MemoryState
bridge = record {
  definitions = set_note ∷ get_note ∷ [];
  adapter_state = record { state_tree = tree; registered_types = "getNote" ∷ "setNote" ∷ [] };
}

-- A world that counts the calls made, and adapters over it.
abbrev pub network_of : NetworkAdapter ℕ String String String String ℕ
network_of = record {
  prepare_deposit = λ intent n. (answered "deposit", ℕ.suc n);
  prepare_transfer = λ intent n. (answered "transfer", ℕ.suc n);
  prepare_withdraw = λ intent n. (raised (foreign undefined), ℕ.suc n);
  submit = λ prepared options n. (answered prepared, ℕ.suc n);
}

abbrev pub policy_of : PolicyAdapter ℕ String String
policy_of = record {
  validate_deposit = λ intent n. (answered [], ℕ.suc n);
  validate_transfer = λ intent n. (answered [], ℕ.suc n);
  validate_withdraw = λ intent n. (answered [], ℕ.suc n);
}

abbrev pub adapters : PrivacyClientAdapters ℕ String String String String ℕ
adapters = record {
  has_wallet = false;
  has_storage = true;
  network_adapter = some network_of;
  policy_adapter = some policy_of;
}

abbrev pub bare_adapters : PrivacyClientAdapters ℕ String String String String ℕ
bare_adapters = record {
  has_wallet = false;
  has_storage = false;
  network_adapter = some network_of;
  policy_adapter = none;
}

abbrev pub intent : OperationIntent String String
intent = record {
  from = "alice";
  to = "bob";
  asset = "usdc";
  amount = bigint false 3;
  disclosure = record {
    sender_address = private_value;
    recipient_address = private_value;
    asset_address = public_value;
    amount = private_value;
  };
}
