-- ===== src/Core/State/Operations/Records.antt =====
-- What the record operations do (packages/core/src/state/operations/handlers/record.ts), through
-- the calls of packages/core/src/state/operations/apply.ts.
use privacy_layer_confidenti.Base.{
  String, true, false, ◌≡◌, ap, ◌∙◌, List, [], ◌∷◌, ◌++◌, eq_iff, arith,
}
use privacy_layer_confidenti.Js.Value.{Value, undefined, Fields}
use privacy_layer_confidenti.Js.Fields.{get_field, put_field, delete_field}
use privacy_layer_confidenti.Js.Fields.Laws.{get-delete}
use privacy_layer_confidenti.Core.State.Tree.{Outcome, done, ensure_record_at_path}
use privacy_layer_confidenti.Core.State.Tree.Again.{
  Reads, get_put_same, ensure_record_at_path-again,
}
use privacy_layer_confidenti.Core.State.Operations.{
  StateOperation, record_get, record_set, record_delete, read_mode, write_mode, Host, reading,
  changing, operation_handler, as_operation_error, and_then, answer, apply_state_operation,
  run_operations, apply_state_operations,
}
use privacy_layer_confidenti.Core.State.Operations.Reads.{and_then-eq-done}

module _ (host : Host) where
  -- What a successful run did last.
  run_operations-last :
      (operations : List StateOperation) (last_one : StateOperation) (v : Value) (tree : Fields)
      {w : Value} {tree' : Fields}
      → run_operations host write_mode (operations ++ (last_one ∷ [])) v tree ≡ (done w, tree')
      → (before : Fields) × (apply_state_operation host write_mode last_one before
          ≡ (done w, tree'))
  unfolding run_operations
  run_operations-last [] last_one v tree h =
      let (u, t, e, later) = and_then-eq-done (run_operations host write_mode []) _ h in
      (tree, e ∙ later)
  run_operations-last (operation ∷ operations) last_one v tree h =
      let (u, t, e, later) =
        and_then-eq-done (run_operations host write_mode (operations ++ (last_one ∷ []))) _ h in
      run_operations-last operations last_one u t later

  as_operation_error-done :
      (r : Outcome Value × Fields) {w : Value} {tree' : Fields}
      → as_operation_error r ≡ (done w, tree')
      → r ≡ (done w, tree')
  as_operation_error-done r h = ground arith

  -- What a write call that ends with one operation did last.
  write-last :
      (operations : List StateOperation) (last_one : StateOperation) (tree : Fields) {v : Value}
      {tree' : Fields}
      → apply_state_operations host write_mode (operations ++ (last_one ∷ [])) tree
        ≡ (done v, tree')
      → (before : Fields) × (w : Value) × (operation_handler host true last_one before
          ≡ (done w, tree'))
  unfolding apply_state_operations apply_state_operation
  write-last operations last_one tree {v} {tree'} h =
      let ran = run_operations host write_mode (operations ++ (last_one ∷ [])) undefined tree in
      let (u, t, e, later) =
        and_then-eq-done (answer host write_mode (operations ++ (last_one ∷ []))) ran h in
      let same : t ≡ tree' = ap (λ (r : Outcome Value × Fields). r.1) later in
      let (before, did) =
        run_operations-last operations last_one undefined tree
          (e ∙ ap (λ (t : Fields). (done u, t)) same) in
      (before, u, as_operation_error-done (operation_handler host true last_one before) did)

  -- A read call of one record key, where the record has the value.
  read_record_get :
      (json_path key : String) (v : Value) (tree : Fields)
      → Reads (ensure_record_at_path false json_path (reading (get_field key))) (done v) tree
      → apply_state_operations host read_mode (record_get json_path key ∷ []) tree ≡ (done v, tree)
  unfolding apply_state_operations run_operations apply_state_operation operation_handler
  read_record_get json_path key v tree r =
      let read = record_get json_path key ∷ [] in
      ap
        (λ r.
          and_then (answer host read_mode read)
            (and_then (λ (w : Value) (t : Fields). (done w, t)) (as_operation_error r)))
        r

  -- Reading a record that was just changed.
  read-changed :
      (f : Fields → Fields) (key : String) (value : Value) (record_ : Fields) {w : Value}
      {changed : Fields}
      → changing f record_ ≡ (done w, changed)
      → get_field key (f record_) ≡ value
      → Reads (reading (get_field key)) (done value) changed
  read-changed f key value record_ e g = ground arith

  -- What a read call gives after a change of the record at its path.
  read-change :
      (json_path : String) (f : Fields → Fields) (key : String) (value : Value) (before : Fields)
      {w : Value} {tree' : Fields}
      → ensure_record_at_path true json_path (changing f) before ≡ (done w, tree')
      → ((record_ : Fields) → get_field key (f record_) ≡ value)
      → apply_state_operations host read_mode (record_get json_path key ∷ []) tree'
        ≡ (done value, tree')
  read-change json_path f key value before {w} {tree'} did g =
      let (record_, changed, put, more) =
        ensure_record_at_path-again true json_path (changing f) before did in
      read_record_get json_path key value tree' (
        more false (reading (get_field key)) (done value)
          (read-changed f key value record_ put (g record_)))

  -- After a write call that ends with setting a record's key, when it succeeds, a read call of the
  -- key gives the value.
  pub record_set-record_get :
      (operations : List StateOperation) (json_path key : String) (value : Value) (tree : Fields)
      {v : Value} {tree' : Fields}
      → apply_state_operations host write_mode
          (operations ++ (record_set json_path key value ∷ []))
          tree
        ≡ (done v, tree')
      → apply_state_operations host read_mode (record_get json_path key ∷ []) tree'
        ≡ (done value, tree')
  unfolding operation_handler
  record_set-record_get operations json_path key value tree h =
      let (before, w, did) = write-last operations (record_set json_path key value) tree h in
      read-change json_path (put_field key value) key value before did (get_put_same key value)

  -- After a write call that ends with deleting a record's key, when it succeeds, a read call of the
  -- key gives undefined.
  pub record_delete-record_get :
      (operations : List StateOperation) (json_path key : String) (tree : Fields) {v : Value}
      {tree' : Fields}
      → apply_state_operations host write_mode
          (operations ++ (record_delete json_path key ∷ []))
          tree
        ≡ (done v, tree')
      → apply_state_operations host read_mode (record_get json_path key ∷ []) tree'
        ≡ (done undefined, tree')
  unfolding operation_handler
  record_delete-record_get operations json_path key tree h =
      let (before, w, did) = write-last operations (record_delete json_path key) tree h in
      read-change json_path (delete_field key) key undefined before did
        (λ record_. ground (arith, get-delete key key record_, eq_iff key key))
