-- ===== src/Relay/Completion.antt =====
-- Completing a succeeded operation (packages/relay/src/complete-succeeded-operation.ts).
pub mod Outcome
pub mod Effects
pub mod Repeat
pub mod Crash
use Prim.Native.String.{◌++◌ as str_append}
use privacy_layer_confidenti.Base.{
  String, Bool, true, false, ◌&&◌, Option, none, some, List, [], ◌∷◌, ◌==◌, truthy, if◌then◌else◌,
  or_default,
}
use privacy_layer_confidenti.Relay.Types.{
  RelayLifecycleStatus, PendingOperationPhase, PendingPrivateOperation,
  SubmitPrivateOperationResult,
}
use privacy_layer_confidenti.Relay.Policy.{can_offer_direct_submission, can_retry_relay_attempt}
use privacy_layer_confidenti.Relay.Runtime.{
  Result, ProtocolRelayPorts, Call, Run, pure, fail, call, ◌>>=◌, ◌>>◌,
}

abbrev present : Option String → Option String
present text = if truthy text then text else none

unfoldable pub to_submit_result :
    PendingPrivateOperation → Option String → Option String → SubmitPrivateOperationResult
to_submit_result operation tx_id coin_delivery_warning = record {
  outcome = operation.phase;
  operation = operation;
  tx_id = present tx_id;
  coin_delivery_warning = present coin_delivery_warning;
  fallback_allowed = can_offer_direct_submission operation;
  retry_allowed = can_retry_relay_attempt operation;
}

unfoldable pub success_key : PendingPrivateOperation → String → String
success_key operation tx_id =
    str_append operation.wallet_public_key
      (str_append ":" (str_append operation.id (str_append ":" tx_id)))

unfoldable pub with_succeeded_phase : PendingPrivateOperation → String → PendingPrivateOperation
with_succeeded_phase operation tx_id = record operation {
  phase = PendingOperationPhase.succeeded;
  relay_status = some RelayLifecycleStatus.succeeded;
  transaction_hash = some tx_id;
  retry_allowed = false;
}

unfoldable pub is_already_completed : PendingPrivateOperation → Bool
is_already_completed operation =
    operation.finalized && operation.deliveries_drained && operation.transaction_persisted

module _ {V : Type 0} where
  -- `Map.get`
  unfoldable pub map_get : String → List (String × V) → Option V
  map_get k [] = none
  map_get k ((j, v) ∷ m) = if j == k then some v else map_get k m

  -- `Map.delete`
  unfoldable pub map_delete : String → List (String × V) → List (String × V)
  map_delete k [] = []
  map_delete k ((j, v) ∷ m) = let rest = map_delete k m in if j == k then rest else (j, v) ∷ rest

module _ {W : Type 0} (ports : ProtocolRelayPorts W) where
  abbrev pub save : PendingPrivateOperation → Run W (Unit {0})
  save operation = call (Call.saved operation) (ports.store.save operation)

  abbrev pub read : String → String → Run W (Option PendingPrivateOperation)
  read wallet_public_key operation_id =
      call (Call.looked_up wallet_public_key operation_id)
        (ports.store.read wallet_public_key operation_id)

  abbrev pub found : Option PendingPrivateOperation → Run W PendingPrivateOperation
  found none = fail "Pending private operation was not found."
  found (some operation) = pure operation

  unfoldable pub require_stored_operation : String → String → Run W PendingPrivateOperation
  require_stored_operation wallet_public_key operation_id = do
    operation ← read wallet_public_key operation_id
    found operation

  -- The three guarded blocks of `applySuccessSideEffects`.
  unfoldable pub apply_finalization :
      PendingPrivateOperation → String → Run W PendingPrivateOperation
  apply_finalization current tx_id = if current.finalized then pure current else do
    call (Call.finalized current tx_id) (ports.finalize_local_state current tx_id)
    let next = record current { finalized = true }
    save next
    pure next

  unfoldable pub apply_drain :
      PendingPrivateOperation → String → Run W (PendingPrivateOperation × Option String)
  apply_drain current tx_id = if current.deliveries_drained then pure (current, none) else do
    warning ← call (Call.drained current tx_id) (ports.drain_deliveries current tx_id)
    let next = record current { deliveries_drained = true }
    save next
    pure (next, warning)

  unfoldable pub apply_persistence :
      PendingPrivateOperation → String → Run W PendingPrivateOperation
  apply_persistence current tx_id = if current.transaction_persisted then pure current else do
    call (Call.persisted current tx_id) (ports.persist_user_transaction current tx_id)
    let next = record current { transaction_persisted = true }
    save next
    pure next

  unfoldable pub after_finalization :
      PendingPrivateOperation → String → Run W (PendingPrivateOperation × Option String)
  unfolding apply_drain apply_persistence
  after_finalization finalized tx_id = do
    drained ← apply_drain finalized tx_id
    persisted ← apply_persistence drained.0 tx_id
    pure (persisted, drained.1)

  unfoldable pub apply_success_side_effects :
      PendingPrivateOperation → String → Run W (PendingPrivateOperation × Option String)
  unfolding apply_finalization after_finalization
  apply_success_side_effects operation tx_id = do
    finalized ← apply_finalization operation tx_id
    after_finalization finalized tx_id

  unfoldable pub apply_succeeded_completion :
      PendingPrivateOperation → String → Run W SubmitPrivateOperationResult
  apply_succeeded_completion operation tx_id = do
    applied ← apply_success_side_effects operation tx_id
    save applied.0
    pure (to_submit_result applied.0 (some tx_id) applied.1)

  -- The promise is put into the map when it starts and taken out when it has settled; the ports
  -- do not see the map, so here both are done at the end.
  unfoldable pub register_completion :
      String → Run W SubmitPrivateOperationResult → Run W SubmitPrivateOperationResult
  register_completion key completion s =
      let (r, s') = completion s in
      (r, record s' { in_flight = map_delete key ((key, r) ∷ s'.in_flight) })

  -- An entry of the map is a promise of another caller, written as the result it settles with.
  abbrev pub join_completion :
      String
      → Run W SubmitPrivateOperationResult
      → Option (Result SubmitPrivateOperationResult)
      → Run W SubmitPrivateOperationResult
  join_completion key completion (some existing) s = (existing, s)
  join_completion key completion none s = register_completion key completion s

  unfoldable pub complete_once :
      PendingPrivateOperation → String → Run W SubmitPrivateOperationResult
  complete_once succeeded tx_id s =
      let key = success_key succeeded tx_id in
      join_completion key (apply_succeeded_completion succeeded tx_id) (map_get key s.in_flight) s

  unfoldable pub complete_stored :
      PendingPrivateOperation → String → Run W SubmitPrivateOperationResult
  complete_stored succeeded tx_id =
      if is_already_completed succeeded
      then (do save succeeded; pure (to_submit_result succeeded (some tx_id) none))
      else complete_once succeeded tx_id

  unfoldable pub complete_succeeded_operation :
      PendingPrivateOperation → String → Run W SubmitPrivateOperationResult
  complete_succeeded_operation operation tx_id = do
    stored ← read operation.wallet_public_key operation.id
    complete_stored (with_succeeded_phase (or_default stored operation) tx_id) tx_id
