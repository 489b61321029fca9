-- ===== src/Core/State/Operations/Reads.antt =====
-- Read calls leave the state tree as it is (packages/core/src/state/operations/apply.ts).
use privacy_layer_confidenti.Base.{
  String, Bool, true, false, ◌≡◌, ◌≢◌, refl, ap, ◌∙◌, ◌&&◌, List, [], ◌∷◌, arith,
}
use privacy_layer_confidenti.Js.Value.{Value, undefined, Fields}
use privacy_layer_confidenti.Js.Fields.{get_field, put_field, keys, values, entries}
use privacy_layer_confidenti.Js.Fields.Laws.{put_same}
use privacy_layer_confidenti.Core.State.Tree.{
  Outcome, done, failed, parse_json_path, Update, at_parent, at_segments, at_json_path, init, last,
  record_at, ensure_record_at_path,
}
use privacy_layer_confidenti.Core.State.Tree.Laws.{below}
use privacy_layer_confidenti.Core.State.Operations.{
  StateOperation, read_mode, Host, reading, operation_handler, apply_state_operation,
  run_operations, as_operation_error, and_then, answer, is_read_operation, ends_with_read,
  record_get, record_keys, record_values, record_entries, primitive_get, apply_state_operations,
}

-- What is done leaves the record as it is.
abbrev Leaves : {A : Type 0} → Update A → Type 0
Leaves update = (record_ : Fields) → (update record_).1 ≡ record_

put_obj_same :
    (k : String) (v : Fields) (fs : Fields)
    → get_field k fs ≡ Value.obj v
    → put_field k (Value.obj v) fs ≡ fs
put_obj_same k v fs e = put_same k (Value.obj v) fs e (λ q. cc)

at_parent-Leaves :
    {A : Type 0} (segments : List String) (update : Update A)
    → Leaves update
    → Leaves (at_parent false segments update)
unfolding at_parent
at_parent-Leaves [] update h root = h root
at_parent-Leaves (segment ∷ segments) update h root =
    let next = below (get_field segment root) in
    ground (arith, at_parent-Leaves segments update h next, put_obj_same segment next root)

at_segments-Leaves :
    {A : Type 0} (segments : List String) (update : String → Update A)
    → ((key : String) → Leaves (update key))
    → Leaves (at_segments false segments update)
unfolding at_segments
at_segments-Leaves [] update h root = h "" root
at_segments-Leaves (segment ∷ []) update h root = h segment root
at_segments-Leaves (segment ∷ next ∷ segments) update h root =
    at_parent-Leaves (init segment (next ∷ segments)) (update (last segment (next ∷ segments)))
      (h (last segment (next ∷ segments))) root

at_json_path-Leaves :
    {A : Type 0} (json_path : String) (update : String → Update A)
    → ((key : String) → Leaves (update key))
    → Leaves (at_json_path false json_path update)
unfolding at_json_path
at_json_path-Leaves {A} json_path update h root =
    elim (parse_json_path json_path)
      as (λ x.
        (elim x as (λ _. Outcome A × Fields) [
          | failed e ↦ (failed e, root)
          | done segments ↦ at_segments false segments update root
        ]).1
        ≡ root) [ failed e ↦ refl | done segments ↦ at_segments-Leaves segments update h root ]

record_at-Leaves :
    (json_path : String) (f : Fields → Value) (key : String)
    → Leaves (record_at false json_path (reading f) key)
unfolding record_at
record_at-Leaves json_path f key parent =
    ground (arith, put_obj_same key (below (get_field key parent)) parent)

ensure_record_at_path-Leaves :
    (json_path : String) (f : Fields → Value)
    → Leaves (ensure_record_at_path false json_path (reading f))
unfolding ensure_record_at_path
ensure_record_at_path-Leaves json_path f =
    at_json_path-Leaves json_path (record_at false json_path (reading f))
      (record_at-Leaves json_path f)

as_operation_error_keeps :
    (r : Outcome Value × Fields) {tree : Fields} → r.1 ≡ tree → (as_operation_error r).1 ≡ tree
as_operation_error_keeps r h = ground arith

apply_state_operation-Leaves :
    (host : Host) (operation : StateOperation)
    → Leaves (apply_state_operation host read_mode operation)
unfolding apply_state_operation operation_handler
apply_state_operation-Leaves host (record_get p k) tree =
    as_operation_error_keeps _ (ensure_record_at_path-Leaves p (get_field k) tree)
apply_state_operation-Leaves host (record_keys p) tree =
    as_operation_error_keeps _ (ensure_record_at_path-Leaves p (λ r. Value.arr (keys r)) tree)
apply_state_operation-Leaves host (record_values p) tree =
    as_operation_error_keeps _ (ensure_record_at_path-Leaves p (λ r. Value.arr (values r)) tree)
apply_state_operation-Leaves host (record_entries p) tree =
    as_operation_error_keeps _ (ensure_record_at_path-Leaves p (λ r. Value.arr (entries r)) tree)
apply_state_operation-Leaves host (primitive_get p) tree = as_operation_error_keeps _ refl
apply_state_operation-Leaves host _ tree = refl

and_then_keeps :
    (next : Value → Update Value) (r : Outcome Value × Fields) {tree : Fields}
    → ((v : Value) → Leaves (next v))
    → r.1 ≡ tree
    → (and_then next r).1 ≡ tree
and_then_keeps next (failed e, changed) h p = p
and_then_keeps next (done v, changed) h p = h v changed ∙ p

run_operations-Leaves :
    (host : Host) (operations : List StateOperation) (v : Value)
    → Leaves (run_operations host read_mode operations v)
unfolding run_operations
run_operations-Leaves host [] v tree = refl
run_operations-Leaves host (operation ∷ operations) v tree =
    and_then_keeps (run_operations host read_mode operations) _
      (run_operations-Leaves host operations) (apply_state_operation-Leaves host operation tree)

-- A read call leaves the state tree as it is, whatever its operations are and whether it succeeds.
pub apply_state_operations_keeps :
    (host : Host) (operations : List StateOperation) (tree : Fields)
    → (apply_state_operations host read_mode operations tree).1 ≡ tree
unfolding apply_state_operations
apply_state_operations_keeps host operations tree =
    and_then_keeps (answer host read_mode operations) _ (λ v t. refl)
      (run_operations-Leaves host operations undefined tree)

abbrev pub all_reads : List StateOperation → Bool
all_reads [] = true
all_reads (operation ∷ operations) = is_read_operation operation && all_reads operations

pub and_then-eq-done :
    (next : Value → Update Value) (r : Outcome Value × Fields) {w : Value} {tree' : Fields}
    → and_then next r ≡ (done w, tree')
    → (u : Value) × (t : Fields) × (r ≡ (done u, t)) × (next u t ≡ (done w, tree'))
and_then-eq-done next (failed e, changed) h = absurd (cc)
and_then-eq-done next (done u, changed) h = (u, changed, refl, h)

apply_read :
    (host : Host) (operation : StateOperation) (tree : Fields) {u : Value} {t : Fields}
    → apply_state_operation host read_mode operation tree ≡ (done u, t)
    → is_read_operation operation ≡ true
unfolding apply_state_operation
apply_read host operation tree h = ground arith

run_operations-all_reads :
    (host : Host) (operations : List StateOperation) (v : Value) (tree : Fields) {w : Value}
    {tree' : Fields}
    → run_operations host read_mode operations v tree ≡ (done w, tree')
    → all_reads operations ≡ true
unfolding run_operations
run_operations-all_reads host [] v tree h = refl
run_operations-all_reads host (operation ∷ operations) v tree h =
    let (u, t, e, later) =
      and_then-eq-done (run_operations host read_mode operations)
        (apply_state_operation host read_mode operation tree) h in
    let first = apply_read host operation tree e in
    let rest = run_operations-all_reads host operations u t later in ground arith

-- A read call that gives a result has at least one operation, and read operations only.
pub read_call-all_reads :
    (host : Host) (operations : List StateOperation) (tree : Fields) {v : Value} {tree' : Fields}
    → apply_state_operations host read_mode operations tree ≡ (done v, tree')
    → (operations ≢ []) × (all_reads operations ≡ true)
unfolding apply_state_operations
read_call-all_reads host operations tree h =
    let (u, t, e, later) =
      and_then-eq-done (answer host read_mode operations)
        (run_operations host read_mode operations undefined tree) h in
    (
      λ q. ground (arith, ap (ends_with_read host read_mode) q),
      run_operations-all_reads host operations undefined tree e,
    )
