-- ===== src/Relay/Policy.antt =====
-- Which recovery an operation is offered (packages/relay/src/fallback-policy.ts,
-- is-unfinalized-relay-operation.ts).
pub mod Exclusion
use privacy_layer_confidenti.Base.{
  Bool, true, false, not, ◌&&◌, ◌||◌, Option, none, some, truthy, if◌then◌else◌,
}
use privacy_layer_confidenti.Relay.Types.{
  RelayLifecycleStatus, PendingOperationPhase, PendingPrivateOperation,
}

abbrev pub phase_is_rejected : PendingOperationPhase → Bool
phase_is_rejected PendingOperationPhase.rejected = true
phase_is_rejected _ = false

abbrev pub phase_is_failed : PendingOperationPhase → Bool
phase_is_failed PendingOperationPhase.failed = true
phase_is_failed _ = false

abbrev phase_is_prepared : PendingOperationPhase → Bool
phase_is_prepared PendingOperationPhase.prepared = true
phase_is_prepared _ = false

abbrev phase_is_admission_failed : PendingOperationPhase → Bool
phase_is_admission_failed PendingOperationPhase.admission_failed = true
phase_is_admission_failed _ = false

-- `operation.relayStatus && BLOCKED_DIRECT_STATUSES.has(operation.relayStatus)`
abbrev pub blocks_direct : Option RelayLifecycleStatus → Bool
blocks_direct none = false
blocks_direct (some RelayLifecycleStatus.submitted) = true
blocks_direct (some RelayLifecycleStatus.reconciling) = true
blocks_direct (some RelayLifecycleStatus.rejected) = true
blocks_direct (some RelayLifecycleStatus.succeeded) = true
blocks_direct (some _) = false

unfoldable pub can_offer_direct_submission : PendingPrivateOperation → Bool
can_offer_direct_submission operation =
    if operation.escrow_send
    then false
    else if operation.finalized
    then false
    else if blocks_direct operation.relay_status
    then false
    else if phase_is_rejected operation.phase
    then false
    else if phase_is_failed operation.phase
    then false
    else if truthy operation.relay_request_id
    then false
    else phase_is_prepared operation.phase || phase_is_admission_failed operation.phase

unfoldable pub can_retry_relay_attempt : PendingPrivateOperation → Bool
can_retry_relay_attempt operation =
    if operation.finalized || not (truthy operation.relay_request_id)
    then false
    else phase_is_failed operation.phase && operation.retry_allowed

unfoldable pub is_unfinalized_relay_operation : PendingPrivateOperation → Bool
is_unfinalized_relay_operation operation =
    truthy operation.relay_request_id && not operation.finalized
