-- ===== src/Core/State/Memory/Atomic.antt =====
-- What a bridge over the in-memory adapter promises (packages/state/memory/src/index.ts).
use privacy_layer_confidenti.Base.{
  String, true, ◌≡◌, sym, ap, ◌∙◌, List, [], ◌∷◌, ◌++◌, arith, contains,
}
use privacy_layer_confidenti.Js.Value.{Value, Fields}
use privacy_layer_confidenti.Core.State.Tree.{Outcome, done, failed}
use privacy_layer_confidenti.Core.State.Operations.{
  Host, StateOperation, read_mode, write_mode, record_set, record_get, apply_state_operations,
}
use privacy_layer_confidenti.Core.State.Operations.Records.{record_set-record_get}
use privacy_layer_confidenti.Core.State.Bridge.{
  StateBridgeCall, Answer, gave, raised, BridgeError, StateBridge, forward,
  resolve_state_bridge_call, bridge_write, bridge_read,
}
use privacy_layer_confidenti.Core.State.Memory.{
  MemoryState, memory_write, memory_read, in_memory_adapter, commit,
}

module _ (host : Host) where
  memory_write_raised :
      (c : StateBridgeCall) (s : MemoryState) {e : BridgeError} {s' : MemoryState}
      → memory_write host c s ≡ (raised e, s')
      → s' ≡ s
  unfolding memory_write
  memory_write_raised c s h = ground arith

  memory_read_keeps : (c : StateBridgeCall) (s : MemoryState) → (memory_read host c s).1 ≡ s
  unfolding memory_read
  memory_read_keeps c s = ground arith

  forward_raised :
      (r : Answer StateBridgeCall) (bridge : StateBridge MemoryState) {e : BridgeError}
      {bridge' : StateBridge MemoryState}
      → forward (in_memory_adapter host) (memory_write host) r bridge ≡ (raised e, bridge')
      → bridge' ≡ bridge
  forward_raised (raised e) bridge h = ground arith
  forward_raised (gave c) bridge {e} {bridge'} h =
      let wrote = memory_write host c bridge.adapter_state in
      let raises : wrote ≡ (raised e, wrote.1) =
        ap (λ (r : Answer Value × StateBridge MemoryState). (r.0, wrote.1)) h in
      sym (ap (λ (r : Answer Value × StateBridge MemoryState). r.1) h)
      ∙ ap (λ s. record { definitions = bridge.definitions; adapter_state = s })
          (memory_write_raised c bridge.adapter_state raises)

  -- A write through the bridge that fails leaves the bridge and its state tree as they were, although its operations
  -- change the draft up to the one that fails.
  pub bridge_write_atomic :
      (call : Value) (bridge : StateBridge MemoryState) {e : BridgeError}
      {bridge' : StateBridge MemoryState}
      → bridge_write (in_memory_adapter host) call bridge ≡ (raised e, bridge')
      → bridge' ≡ bridge
  unfolding bridge_write
  bridge_write_atomic call bridge h =
      forward_raised (resolve_state_bridge_call bridge.definitions call write_mode) bridge h

  commit_gave :
      (r : Outcome Value × Fields) (s : MemoryState) {u : Value} {s' : MemoryState}
      → commit r s ≡ (gave u, s')
      → (v : Value) × (r ≡ (done v, s'.state_tree)) × (s'.registered_types ≡ s.registered_types)
  commit_gave (failed e, draft) s h = absurd (ground arith)
  commit_gave (done v, draft) s h = (
    v,
    ap (λ (q : Answer Value × MemoryState). (done v, q.1.state_tree)) h,
    sym (ap (λ (q : Answer Value × MemoryState). q.1.registered_types) h),
  )

  memory_write_commits :
      (c : StateBridgeCall) (s : MemoryState) {u : Value} {s' : MemoryState}
      → memory_write host c s ≡ (gave u, s')
      → commit (apply_state_operations host write_mode c.operations s.state_tree) s ≡ (gave u, s')
  unfolding memory_write
  memory_write_commits c s h = ground arith

  memory_read_gave :
      (c : StateBridgeCall) (s : MemoryState) {v : Value} {t : Fields}
      → contains s.registered_types c.call_type ≡ true
      → apply_state_operations host read_mode c.operations s.state_tree ≡ (done v, t)
      → memory_read host c s ≡ (gave v, s)
  unfolding memory_read
  memory_read_gave c s r h = ground arith

  forward_gave :
      (r : Answer StateBridgeCall) (bridge : StateBridge MemoryState) (c : StateBridgeCall)
      {u : Value} {bridge' : StateBridge MemoryState}
      → r ≡ gave c
      → forward (in_memory_adapter host) (memory_write host) r bridge ≡ (gave u, bridge')
      → (memory_write host c bridge.adapter_state ≡ (gave u, bridge'.adapter_state))
        × (bridge'.definitions ≡ bridge.definitions)
  forward_gave r bridge c {u} {bridge'} e h =
      let q =
        ap
          (λ (r : Answer StateBridgeCall).
            forward (in_memory_adapter host) (memory_write host) r bridge)
          (sym e)
        ∙ h in
      (
        ap (λ (r : Answer Value × StateBridge MemoryState). (r.0, r.1.adapter_state)) q,
        sym (ap (λ (r : Answer Value × StateBridge MemoryState). r.1.definitions) q),
      )

  forward_read :
      (r : Answer StateBridgeCall) (bridge : StateBridge MemoryState) (c : StateBridgeCall)
      {v : Value}
      → r ≡ gave c
      → memory_read host c bridge.adapter_state ≡ (gave v, bridge.adapter_state)
      → forward (in_memory_adapter host) (memory_read host) r bridge ≡ (gave v, bridge)
  forward_read r bridge c e h =
      ap
        (λ (r : Answer StateBridgeCall).
          forward (in_memory_adapter host) (memory_read host) r bridge)
        e
      ∙ ap
          (λ (q : Answer Value × MemoryState).
            (q.0, record { definitions = bridge.definitions; adapter_state = q.1 }))
          h

  -- Once a write has succeeded whose operations end with setting a record's key, a read of that key
  -- gives the value and leaves the bridge as it is, where the calls resolve to these operations and
  -- the read's type is registered with the adapter.
  pub bridge_write-bridge_read :
      (wrote asked : Value) (w r : StateBridgeCall) (operations : List StateOperation)
      (json_path key : String) (value : Value) (bridge : StateBridge MemoryState) {u : Value}
      {bridge' : StateBridge MemoryState}
      → resolve_state_bridge_call bridge.definitions wrote write_mode ≡ gave w
      → w.operations ≡ operations ++ (record_set json_path key value ∷ [])
      → resolve_state_bridge_call bridge.definitions asked read_mode ≡ gave r
      → r.operations ≡ record_get json_path key ∷ []
      → contains bridge.adapter_state.registered_types r.call_type ≡ true
      → bridge_write (in_memory_adapter host) wrote bridge ≡ (gave u, bridge')
      → bridge_read (in_memory_adapter host) asked bridge' ≡ (gave value, bridge')
  unfolding bridge_write bridge_read
  bridge_write-bridge_read wrote asked w r operations json_path key value bridge {u} {bridge'} ew ow
        er or known h =
      let (did, defs) = forward_gave _ bridge w ew h in
      let (v, ran, types) =
        commit_gave _ bridge.adapter_state (memory_write_commits w bridge.adapter_state did) in
      let stored =
        record_set-record_get host operations json_path key value bridge.adapter_state.state_tree (
          ap (λ ops. apply_state_operations host write_mode ops bridge.adapter_state.state_tree)
            (sym ow)
          ∙ ran) in
      let answered =
        memory_read_gave r bridge'.adapter_state (ap (λ ts. contains ts r.call_type) types ∙ known)
          (ap (λ ops. apply_state_operations host read_mode ops bridge'.adapter_state.state_tree) or
            ∙ stored) in
      forward_read _ bridge' r (ap (λ ds. resolve_state_bridge_call ds asked read_mode) defs ∙ er)
        answered
