-- ===== src/Core/State/Redux/Laws.antt =====
-- What the Redux adapter promises over a store that runs its reducer, and where it differs from the
-- in-memory adapter (packages/state/redux/src/index.ts).
use privacy_layer_confidenti.Base.{
  ℕ, String, Bool, true, false, ◌≡◌, refl, sym, ap, ◌∙◌, Option, some, List, [], ◌∷◌, ◌++◌, arith,
  Bool-cases, inl, inr, contains, or_default,
}
use privacy_layer_confidenti.Js.Value.{Value, bigint, num, Fields, Number, finite, up}
use privacy_layer_confidenti.Core.State.Tree.{
  Outcome, done, failed, StateError, get_json_path_value,
}
use privacy_layer_confidenti.Core.State.Operations.{
  Host, StateOperation, read_mode, write_mode, record_set, record_get, apply_state_operations,
  apply_primitive_increment,
}
use privacy_layer_confidenti.Core.State.Operations.Records.{record_set-record_get}
use privacy_layer_confidenti.Core.State.Bridge.{StateBridgeCall, Answer, gave, raised, BridgeError}
use privacy_layer_confidenti.Core.State.Serialization.{normalize_value, normalize_fields}
use privacy_layer_confidenti.Core.State.Serialization.Laws.{get_json_path_value-normalize_fields}
use privacy_layer_confidenti.Core.State.Redux.{
  ReduxAction, apply_write, draft_of, with_store, dispatched, state_branch_reducer,
  normalize_operation, normalize_operations, normalize_call, read_reducer_branch, ReduxStore,
  ReduxAdapterState, redux_write, redux_read,
}

-- Incrementing the number at a path of a normalised tree, where the tree had a bigint there and the
-- increment succeeds, gives the increment added to zero: the bigint is a text by then.
pub increment_restarts :
    (host : Host) (create : Bool) (json_path : String) (delta : Option Number) (root : Fields)
    {negative : Bool} {magnitude : ℕ} {v : Value} {root' : Fields}
    → get_json_path_value root json_path ≡ done (bigint negative magnitude)
    → apply_primitive_increment host create json_path delta (normalize_fields root)
      ≡ (done v, root')
    → v ≡ num (host.add (finite false 0 (up 0)) (or_default delta (finite false 1 (up 0))))
unfolding apply_primitive_increment normalize_value
increment_restarts host create json_path delta root {negative} {magnitude} h e =
    let read = get_json_path_value-normalize_fields root json_path h in ground arith

module _ {R : Type 0} (host : Host) (store : ReduxStore R) where
  -- The store keeps the adapter's reducer at the path: a dispatch calls it with the branch and puts the
  -- state that it returns in the branch's place. What the reducer throws, the dispatch throws, and the
  -- store keeps the object of the branch, as the reducer has left it.
  abbrev pub RunsReducer : String → Type 0
  RunsReducer path =
      (action : ReduxAction) (r : R)
      → ((t : Fields)
          → (state_branch_reducer host (some (read_reducer_branch (store.root_state r) path))
              action).0
            ≡ done t
          → ((store.dispatch action r).0 ≡ done tt)
            × (read_reducer_branch (store.root_state (store.dispatch action r).1) path ≡ t))
        × ((e : StateError)
            → (state_branch_reducer host (some (read_reducer_branch (store.root_state r) path))
                action).0
              ≡ failed e
            → ((store.dispatch action r).0 ≡ failed e)
              × (read_reducer_branch (store.root_state (store.dispatch action r).1) path
                  ≡ (state_branch_reducer host
                      (some (read_reducer_branch (store.root_state r) path)) action).1))

  normalize_operations_append :
      (operations : List StateOperation) (last_one : StateOperation)
      → normalize_operations (operations ++ (last_one ∷ []))
        ≡ normalize_operations operations ++ (normalize_operation last_one ∷ [])
  unfolding normalize_operations
  normalize_operations_append [] last_one = refl
  normalize_operations_append (operation ∷ operations) last_one =
      ap (λ rest. normalize_operation operation ∷ rest)
        (normalize_operations_append operations last_one)

  branch : String → R → Fields
  branch path r = read_reducer_branch (store.root_state r) path

  -- The adapter is as it was, and so is its branch of the store.
  abbrev IsKept : String → ReduxAdapterState R → ReduxAdapterState R → Type 0
  IsKept path s s' =
      (s'.registered_types ≡ s.registered_types)
      × (s'.bound_path ≡ s.bound_path)
      × (branch path s'.store_state ≡ branch path s.store_state)

  dispatched_to :
      (s : ReduxAdapterState R) (r : Outcome (Unit {0}) × R) {a : Answer Value}
      {s' : ReduxAdapterState R}
      → dispatched s r ≡ (a, s')
      → with_store s r.1 ≡ s'
  dispatched_to s (failed f, r) h = ap (λ (x : Answer Value × ReduxAdapterState R). x.1) h
  dispatched_to s (done u, r) h = ap (λ (x : Answer Value × ReduxAdapterState R). x.1) h

  -- The dispatch of a write, by what its reducer makes.
  dispatched_raised :
      (path : String) (call : StateBridgeCall) (s : ReduxAdapterState R) (o : Outcome Fields)
      {e : BridgeError} {s' : ReduxAdapterState R}
      → RunsReducer path
      → (state_branch_reducer host (some (branch path s.store_state)) (apply_write call)).0 ≡ o
      → dispatched s (store.dispatch (apply_write call) s.store_state) ≡ (raised e, s')
      → IsKept path s s'
  unfolding branch state_branch_reducer
  dispatched_raised path call s (failed f) runs q h =
      let left = ((runs (apply_write call) s.store_state).1 f q).1 in
      let at = dispatched_to s (store.dispatch (apply_write call) s.store_state) h in
      (
        sym (ap (λ (x : ReduxAdapterState R). x.registered_types) at),
        sym (ap (λ (x : ReduxAdapterState R). x.bound_path) at),
        sym (ap (λ (x : ReduxAdapterState R). branch path x.store_state) at) ∙ left,
      )
  dispatched_raised path call s (done t) runs q h =
      let (ok, kept) = (runs (apply_write call) s.store_state).0 t q in absurd (ground arith)

  redux_read_same :
      (path : String) (r : StateBridgeCall) (s s' : ReduxAdapterState R)
      → s.bound_path ≡ some path
      → IsKept path s s'
      → (redux_read host store r s').0 ≡ (redux_read host store r s).0
  unfolding redux_read branch
  redux_read_same path r s s' b (types, bound, same) =
      let known = ap (λ ts. contains ts r.call_type) types in
      let at = bound ∙ b in
      elim (Bool-cases (contains s.registered_types r.call_type)) [
        | inl listed ↦ let there = known ∙ listed in ground arith
        | inr missing ↦ let there = known ∙ missing in ground arith
      ]

  -- A write that the adapter raises, bound to a store that runs its reducer, is seen by no read: each
  -- answers afterwards what it would have answered before.
  pub redux_write_atomic :
      (path : String) (call read : StateBridgeCall) (s : ReduxAdapterState R) {e : BridgeError}
      {s' : ReduxAdapterState R}
      → RunsReducer path
      → s.bound_path ≡ some path
      → redux_write host store call s ≡ (raised e, s')
      → (redux_read host store read s').0 ≡ (redux_read host store read s).0
  unfolding redux_write
  redux_write_atomic path call read s {e} {s'} runs b h =
      redux_read_same path read s s' b
        (elim (Bool-cases (contains s.registered_types call.call_type)) [
          | inl known ↦
              dispatched_raised path (normalize_call call) s _ {e = e} {s' = s'} runs refl
                (ground arith)
          | inr unknown ↦
              let same : s' ≡ s = ground arith in
              (
                ap (λ (x : ReduxAdapterState R). x.registered_types) same,
                ap (λ (x : ReduxAdapterState R). x.bound_path) same,
                ap (λ (x : ReduxAdapterState R). branch path x.store_state) same,
              )
        ])

  dispatched_done :
      (s : ReduxAdapterState R) (r : Outcome (Unit {0}) × R) {u : Value} {s' : ReduxAdapterState R}
      → dispatched s r ≡ (gave u, s')
      → s' ≡ with_store s r.1
  dispatched_done s (failed f, r) h = absurd (ground arith)
  dispatched_done s (done u, r) h = sym (ap (λ (x : Answer Value × ReduxAdapterState R). x.1) h)

  dispatched_gave :
      (path : String) (call : StateBridgeCall) (s : ReduxAdapterState R)
      (o : Outcome Value × Fields) {u : Value} {s' : ReduxAdapterState R}
      → RunsReducer path
      → apply_state_operations host write_mode call.operations (branch path s.store_state) ≡ o
      → dispatched s (store.dispatch (apply_write call) s.store_state) ≡ (gave u, s')
      → (v : Value) × (o ≡ (done v, branch path s'.store_state))
        × (s'.registered_types ≡ s.registered_types)
        × (s'.bound_path ≡ s.bound_path)
  unfolding branch state_branch_reducer
  dispatched_gave path call s (failed f, draft) runs q h =
      let same = ((runs (apply_write call) s.store_state).1 f (ap draft_of q)).0 in
      absurd (ground arith)
  dispatched_gave path call s (done v, draft) runs q h =
      let (ok, kept) = (runs (apply_write call) s.store_state).0 draft (ap draft_of q) in
      let same = dispatched_done s (store.dispatch (apply_write call) s.store_state) h in
      (
        v,
        ap (λ t. (done v, t))
            (sym kept ∙ ap (λ (x : ReduxAdapterState R). branch path x.store_state) (sym same)),
        ap (λ (x : ReduxAdapterState R). x.registered_types) same,
        ap (λ (x : ReduxAdapterState R). x.bound_path) same,
      )

  redux_write_dispatches :
      (path : String) (call : StateBridgeCall) (s : ReduxAdapterState R) {u : Value}
      {s' : ReduxAdapterState R}
      → s.bound_path ≡ some path
      → redux_write host store call s ≡ (gave u, s')
      → dispatched s (store.dispatch (apply_write (normalize_call call)) s.store_state)
        ≡ (gave u, s')
  unfolding redux_write
  redux_write_dispatches path call s b h = ground arith

  redux_read_gave :
      (path : String) (call : StateBridgeCall) (s : ReduxAdapterState R) {v : Value} {t : Fields}
      → contains s.registered_types call.call_type ≡ true
      → s.bound_path ≡ some path
      → apply_state_operations host read_mode call.operations (branch path s.store_state)
        ≡ (done v, t)
      → redux_read host store call s ≡ (gave v, s)
  unfolding redux_read branch
  redux_read_gave path call s k b h = ground arith

  -- Once a write has succeeded whose operations end with setting a record's key, a read of that key
  -- gives the value with its bigints as texts, and leaves the adapter and its store as they are,
  -- where the adapter is bound to a store that runs the reducer and the read's type is registered.
  pub redux_write-redux_read :
      (path : String) (w r : StateBridgeCall) (operations : List StateOperation)
      (json_path key : String) (value : Value) (s : ReduxAdapterState R) {u : Value}
      {s' : ReduxAdapterState R}
      → RunsReducer path
      → s.bound_path ≡ some path
      → w.operations ≡ operations ++ (record_set json_path key value ∷ [])
      → r.operations ≡ record_get json_path key ∷ []
      → contains s.registered_types r.call_type ≡ true
      → redux_write host store w s ≡ (gave u, s')
      → redux_read host store r s' ≡ (gave (normalize_value value), s')
  unfolding normalize_operation
  redux_write-redux_read path w r operations json_path key value s {u} {s'} runs b ow or known h =
      let (v, ran, types, bound) =
        dispatched_gave path (normalize_call w) s _ runs refl
          (redux_write_dispatches path w s b h) in
      let same =
        ap normalize_operations ow
        ∙ normalize_operations_append operations (record_set json_path key value) in
      let stored =
        record_set-record_get host (normalize_operations operations) json_path key
          (normalize_value value) (branch path s.store_state)
          (ap (λ ops. apply_state_operations host write_mode ops (branch path s.store_state))
              (sym same)
            ∙ ran) in
      redux_read_gave path r s' (ap (λ ts. contains ts r.call_type) types ∙ known) (bound ∙ b) (
        ap (λ ops. apply_state_operations host read_mode ops (branch path s'.store_state)) or
        ∙ stored)
