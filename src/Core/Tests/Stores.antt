-- ===== src/Core/Tests/Stores.antt =====
-- Examples of the Redux adapter's properties, over a store that runs the reducer under `sdk`.
use privacy_layer_confidenti.Base.{true, false, ◌≡◌, refl, ◌∙◌, none, some, [], ◌∷◌, arith}
use privacy_layer_confidenti.Js.Value.{
  undefined, bigint, num, str, obj, Fields, end, field, finite, up,
}
use privacy_layer_confidenti.Js.Fields.{get_field, put_field}
use privacy_layer_confidenti.Js.Text.{trim, split, without_empty}
use privacy_layer_confidenti.Core.State.Tree.{
  Outcome, StateError, done, failed, operation_error, not_an_array, parse_json_path, at_json_path,
  at_segments, at_parent, ensure_record_at_path, ensure_array_at_path, get_json_path_value,
  set_json_path_value,
}
use privacy_layer_confidenti.Core.State.Tree.Again.{get_put_same}
use privacy_layer_confidenti.Core.State.Operations.{
  apply_state_operations, apply_primitive_increment,
}
use privacy_layer_confidenti.Core.State.Bridge.{gave, raised, state_error}
use privacy_layer_confidenti.Core.State.Serialization.{
  normalize_value, normalize_fields, bigint_text,
}
use privacy_layer_confidenti.Core.State.Redux.{
  state_branch_reducer, normalize_operations, read_reducer_branch, ReduxStore, ReduxAdapterState,
  redux_write, redux_read,
}
use privacy_layer_confidenti.Core.State.Redux.Laws.{
  RunsReducer, increment_restarts, redux_write_atomic, redux_write-redux_read,
}
use privacy_layer_confidenti.Core.Tests.{host, tree, write_call, read_call, bad_call}

reads_first : get_json_path_value tree "notes.first" ≡ done (bigint false 5)
unfolding get_json_path_value parse_json_path trim split without_empty get_field
reads_first = refl

abbrev raised_tree : Fields
raised_tree = (apply_primitive_increment host true "notes.first" none (normalize_fields tree)).1

raises_first :
    apply_primitive_increment host true "notes.first" none (normalize_fields tree)
    ≡ (done (num (finite false 1 (up 0))), raised_tree)
unfolding apply_primitive_increment get_json_path_value set_json_path_value at_json_path at_segments
    at_parent parse_json_path trim split without_empty get_field put_field normalize_value
raises_first = refl

restarts_example :
    num (finite false 1 (up 0)) ≡ num (host.add (finite false 0 (up 0)) (finite false 1 (up 0)))
restarts_example =
    increment_restarts host true "notes.first" none tree {root' = raised_tree} reads_first
      raises_first

abbrev stored : Fields → Outcome Fields × Fields → Outcome (Unit {0}) × Fields
stored root (failed e, previous) = (failed e, put_field "sdk" (obj previous) root)
stored root (done t, previous) = (done tt, put_field "sdk" (obj t) root)

abbrev sdk_store : ReduxStore Fields
sdk_store = record {
  root_state = λ root. root;
  dispatch = λ action root.
      stored root (state_branch_reducer host (some (read_reducer_branch root "sdk")) action);
}

branch_put : (root t : Fields) → read_reducer_branch (put_field "sdk" (obj t) root) "sdk" ≡ t
unfolding read_reducer_branch
branch_put root t = ground (arith, get_put_same "sdk" (obj t) root)

new_branch_kept :
    (root : Fields) (o : Outcome Fields × Fields) (t : Fields)
    → o.0 ≡ done t
    → ((stored root o).0 ≡ done tt) × (read_reducer_branch (stored root o).1 "sdk" ≡ t)
new_branch_kept root (failed f, previous) t h = absurd (ground arith)
new_branch_kept root (done u, previous) t h =
    let same : u ≡ t = ground arith in (refl, branch_put root u ∙ same)

previous_branch_kept :
    (root : Fields) (o : Outcome Fields × Fields) (e : StateError)
    → o.0 ≡ failed e
    → ((stored root o).0 ≡ failed e) × (read_reducer_branch (stored root o).1 "sdk" ≡ o.1)
previous_branch_kept root (failed f, previous) e h = (ground arith, branch_put root previous)
previous_branch_kept root (done u, previous) e h = absurd (ground arith)

sdk_store-RunsReducer : RunsReducer host sdk_store "sdk"
sdk_store-RunsReducer action root = (new_branch_kept root _, previous_branch_kept root _)

abbrev bound : ReduxAdapterState Fields
bound = record {
  registered_types = "getNote" ∷ "setNote" ∷ [];
  bound_path = some "sdk";
  store_state = field "sdk" (obj tree) end;
}

abbrev after : ReduxAdapterState Fields
after = (redux_write host sdk_store write_call bound).1

writes : redux_write host sdk_store write_call bound ≡ (gave undefined, after)
unfolding redux_write state_branch_reducer read_reducer_branch normalize_operations normalize_value
    apply_state_operations ensure_record_at_path at_json_path parse_json_path trim without_empty
    split at_segments at_parent get_field put_field
writes = refl

redux_write_read_example :
    redux_read host sdk_store read_call after ≡ (gave (normalize_value (bigint false 7)), after)
redux_write_read_example =
    redux_write-redux_read host sdk_store "sdk" write_call read_call [] "$.notes" "second"
      (bigint false 7) bound {s' = after} sdk_store-RunsReducer refl refl refl refl writes

-- The dispatch that fails puts the branch back as it was.
fails :
    redux_write host sdk_store bad_call bound
    ≡ (raised (state_error (operation_error (not_an_array "$.owner"))), bound)
unfolding redux_write state_branch_reducer read_reducer_branch normalize_operations normalize_value
    apply_state_operations ensure_record_at_path ensure_array_at_path at_json_path parse_json_path
    trim without_empty split at_segments at_parent get_field put_field
fails = refl

redux_atomic_example :
    (redux_read host sdk_store read_call bound).0 ≡ (redux_read host sdk_store read_call bound).0
redux_atomic_example =
    redux_write_atomic host sdk_store "sdk" bad_call read_call bound sdk_store-RunsReducer refl
      fails

prints : normalize_value (bigint true 40) ≡ str "-40"
unfolding normalize_value bigint_text
prints = refl
