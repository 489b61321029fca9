-- ===== src/Core/State/Tree/Success.antt =====
-- When a value can be set (packages/core/src/state/json-path/tree.ts).
use privacy_layer_confidenti.Base.{
  String, Bool, true, false, ◌≡◌, ◌↔◌, refl, sym, ap, ◌∙◌, List, [], ◌∷◌, arith, if◌then◌else◌,
}
use privacy_layer_confidenti.Js.Value.{Value, undefined, obj, Fields}
use privacy_layer_confidenti.Js.Fields.{get_field}
use privacy_layer_confidenti.Core.State.Tree.{
  Outcome, done, parse_json_path, Update, at_parent, init, last, write_property,
  set_json_path_value,
}
use privacy_layer_confidenti.Core.State.Tree.Laws.{below, set_json_path_value-eq}

-- A value on the way to a parent that can be passed: a record, or nothing where records are created.
abbrev pub passes : Bool → Value → Bool
passes create undefined = create
passes create (obj fields) = true
passes create _ = false

-- Every parent on the way can be passed.
unfoldable pub is_open : Bool → List String → Fields → Bool
is_open create [] root = true
is_open create (segment ∷ segments) root =
    let rest = is_open create segments (below (get_field segment root)) in
    if passes create (get_field segment root) then rest else false

at_parent-is_open :
    (create : Bool) (segments : List String) (update : Update (Unit {0})) (root : Fields)
    → ((record_ : Fields) → (update record_).0 ≡ done tt)
    → ((at_parent create segments update root).0 ≡ done tt) ↔ (is_open create segments root ≡ true)
unfolding at_parent is_open
at_parent-is_open create [] update root total = (λ h. refl, λ h. total root)
at_parent-is_open create (segment ∷ segments) update root total =
    let (to, from) =
      at_parent-is_open create segments update (below (get_field segment root)) total in
    (λ h. ground arith, λ h. ground arith)

-- Setting the value at a path that names a property succeeds exactly when every segment before the
-- last leads to a record, or to nothing where missing records are created.
pub set_succeeds_iff :
    (create : Bool) (json_path : String) (segment : String) (segments : List String) (value : Value)
    (root : Fields)
    → parse_json_path json_path ≡ done (segment ∷ segments)
    → ((set_json_path_value create json_path value root).0 ≡ done tt)
      ↔ (is_open create (init segment segments) root ≡ true)
set_succeeds_iff create json_path segment segments value root p =
    let same =
      ap (λ (r : Outcome (Unit {0}) × Fields). r.0)
        (set_json_path_value-eq create json_path segment segments value root p) in
    let (to, from) =
      at_parent-is_open create (init segment segments)
        (write_property value (last segment segments)) root (λ record_. refl) in
    (λ h. to (sym same ∙ h), λ h. same ∙ from h)
