-- ===== src/Core/Tests/Trees.antt =====
-- Examples of the state tree's properties.
use privacy_layer_confidenti.Base.{◌↔◌, true, false, ◌≡◌, ◌≢◌, refl, [], ◌∷◌}
use privacy_layer_confidenti.Js.Value.{
  Value, bigint, str, obj, Items, nil, item, Fields, end, field,
}
use privacy_layer_confidenti.Js.Fields.{get_field, put_field}
use privacy_layer_confidenti.Js.Text.{trim, split, without_empty}
use privacy_layer_confidenti.Core.State.Tree.{
  init, done, parse_json_path, at_json_path, at_segments, at_parent, ensure_record_at_path,
  get_json_path_value, set_json_path_value,
}
use privacy_layer_confidenti.Core.State.Tree.Success.{is_open, set_succeeds_iff}
use privacy_layer_confidenti.Core.State.Tree.Laws.{get-set, set_json_path_value_keeps}
use privacy_layer_confidenti.Core.State.Tree.Root.{set_root}
use mathlib.Core.Logic.{◌≢◌}
use privacy_layer_confidenti.Core.State.Operations.{record_get, read_mode, apply_state_operations}
use privacy_layer_confidenti.Core.State.Operations.Reads.{read_call-all_reads, all_reads}
use privacy_layer_confidenti.Core.Tests.{host, tree}

abbrev deep_tree : Fields
deep_tree = (set_json_path_value true " $.notes.sub.third " (str "x") tree).1

parses_deep : parse_json_path " $.notes.sub.third " ≡ done ("notes" ∷ "sub" ∷ "third" ∷ [])
unfolding parse_json_path trim without_empty split
parses_deep = refl

sets_deep : set_json_path_value true " $.notes.sub.third " (str "x") tree ≡ (done tt, deep_tree)
unfolding set_json_path_value at_json_path parse_json_path trim without_empty split at_segments
    at_parent get_field put_field
sets_deep = refl

parses_owner : parse_json_path "owner" ≡ done ("owner" ∷ [])
unfolding parse_json_path trim without_empty split
parses_owner = refl

parses_root : parse_json_path "$" ≡ done []
unfolding parse_json_path trim without_empty split
parses_root = refl

get-set_example : get_json_path_value deep_tree " $.notes.sub.third " ≡ done (str "x")
get-set_example =
    get-set true " $.notes.sub.third " "notes" ("sub" ∷ "third" ∷ []) (str "x") tree
      {root' = deep_tree} parses_deep sets_deep

set_keeps_example : get_json_path_value deep_tree "owner" ≡ get_json_path_value tree "owner"
set_keeps_example =
    set_json_path_value_keeps true " $.notes.sub.third " "notes" ("sub" ∷ "third" ∷ []) (str "x")
      tree "owner" parses_deep parses_owner refl

set_root_example :
    ((set_json_path_value false "$" (str "x") tree).0 ≡ done tt)
    × ((read : Value) × (get_json_path_value (set_json_path_value false "$" (str "x") tree).1 "$"
          ≡ done read)
        × (read ≢ str "x"))
set_root_example = set_root false "$" (str "x") tree parses_root

abbrev notes : Items
notes = item (obj (field "id" (bigint false 1) end)) (item (str "junk") nil)

reads_first :
    apply_state_operations host read_mode (record_get "notes" "first" ∷ []) tree
    ≡ (done (bigint false 5), tree)
unfolding apply_state_operations ensure_record_at_path at_json_path parse_json_path trim
    without_empty split at_segments at_parent get_field put_field
reads_first = refl

all_reads_example :
    (record_get "notes" "first" ∷ [] ≢ []) × (all_reads (record_get "notes" "first" ∷ []) ≡ true)
all_reads_example = read_call-all_reads host (record_get "notes" "first" ∷ []) tree reads_first

set_succeeds_example :
    ((set_json_path_value true " $.notes.sub.third " (str "x") tree).0 ≡ done tt)
    ↔ (is_open true (init "notes" ("sub" ∷ "third" ∷ [])) tree ≡ true)
set_succeeds_example =
    set_succeeds_iff true " $.notes.sub.third " "notes" ("sub" ∷ "third" ∷ []) (str "x") tree
      parses_deep
