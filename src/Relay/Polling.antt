-- ===== src/Relay/Polling.antt =====
-- Polling a pending operation (packages/relay/src/poll-pending-operation.ts).
pub mod Status
use privacy_layer_confidenti.Base.{
  String, Bool, true, false, ◌&&◌, Option, none, some, or_default, ◌==◌, truthy, if◌then◌else◌,
}
use privacy_layer_confidenti.Relay.Types.{
  RelayLifecycleStatus, PendingOperationPhase, PendingPrivateOperation, RelayRequestStatus,
  SubmitPrivateOperationResult,
}
use privacy_layer_confidenti.Relay.Runtime.{ProtocolRelayPorts, Call, Run, pure, call, ◌>>=◌, ◌>>◌}
use privacy_layer_confidenti.Relay.Completion.{
  to_submit_result, save, require_stored_operation, complete_succeeded_operation,
}
use privacy_layer_confidenti.Relay.Submission.{require_relay_api}

-- The values of `RELAY_STATUS`.
unfoldable pub relay_status_text : RelayLifecycleStatus → String
relay_status_text RelayLifecycleStatus.accepted = "accepted"
relay_status_text RelayLifecycleStatus.validating = "validating"
relay_status_text RelayLifecycleStatus.queued = "queued"
relay_status_text RelayLifecycleStatus.submitted = "submitted"
relay_status_text RelayLifecycleStatus.reconciling = "reconciling"
relay_status_text RelayLifecycleStatus.succeeded = "succeeded"
relay_status_text RelayLifecycleStatus.rejected = "rejected"
relay_status_text RelayLifecycleStatus.failed = "failed"

-- `isRelayStatus`, with the status that the text names.
unfoldable pub read_relay_status : String → Option RelayLifecycleStatus
read_relay_status value =
    if value == "accepted"
    then some RelayLifecycleStatus.accepted
    else if value == "validating"
    then some RelayLifecycleStatus.validating
    else if value == "queued"
    then some RelayLifecycleStatus.queued
    else if value == "submitted"
    then some RelayLifecycleStatus.submitted
    else if value == "reconciling"
    then some RelayLifecycleStatus.reconciling
    else if value == "succeeded"
    then some RelayLifecycleStatus.succeeded
    else if value == "rejected"
    then some RelayLifecycleStatus.rejected
    else if value == "failed"
    then some RelayLifecycleStatus.failed
    else none

-- A field that is overwritten when the answer has a value for it.
abbrev overwrite {ℓ} : {A : Type ℓ} → Option A → Option A → Option A
overwrite none old = old
overwrite (some new) old = some new

abbrev overwrite_text : Option String → Option String → Option String
overwrite_text new old = if truthy new then new else old

abbrev phase_after : String → PendingOperationPhase → PendingOperationPhase
phase_after status phase =
    if status == "failed"
    then PendingOperationPhase.failed
    else if status == "rejected"
    then PendingOperationPhase.rejected
    else phase

unfoldable pub apply_status : PendingPrivateOperation → RelayRequestStatus → PendingPrivateOperation
apply_status operation status = record operation {
  phase = phase_after status.status operation.phase;
  retry_allowed = if status.status == "rejected" then false else status.retry_allowed;
  relay_status = overwrite (read_relay_status status.status) operation.relay_status;
  public_reason = overwrite_text status.public_reason operation.public_reason;
  transaction_hash = overwrite_text status.transaction_hash operation.transaction_hash;
}

-- A poll's answer that completes the operation: `succeeded`, with a transaction hash.
abbrev pub settles : RelayRequestStatus → Bool
settles status = status.status == "succeeded" && truthy status.transaction_hash

unfoldable pub is_terminal_relay_status : Option RelayLifecycleStatus → Bool
is_terminal_relay_status (some RelayLifecycleStatus.succeeded) = true
is_terminal_relay_status (some RelayLifecycleStatus.rejected) = true
is_terminal_relay_status (some RelayLifecycleStatus.failed) = true
is_terminal_relay_status (some _) = false
is_terminal_relay_status none = false

module _ {W : Type 0} (ports : ProtocolRelayPorts W) where
  unfoldable pub record_status :
      PendingPrivateOperation → RelayRequestStatus → Run W SubmitPrivateOperationResult
  unfolding apply_status
  record_status operation status = do
    let updated = apply_status operation status
    save ports updated
    if settles status
        then complete_succeeded_operation ports updated (or_default status.transaction_hash "")
        else pure (to_submit_result updated updated.transaction_hash none)

  unfoldable pub poll_request : PendingPrivateOperation → Run W SubmitPrivateOperationResult
  unfolding record_status
  poll_request operation = do
    api ← require_relay_api ports
    let relay_request_id = or_default operation.relay_request_id ""
    status ← call (Call.polled operation relay_request_id) (api.read_status relay_request_id)
    record_status operation status

  unfoldable pub poll_stored : PendingPrivateOperation → Run W SubmitPrivateOperationResult
  unfolding poll_request
  poll_stored operation =
      if truthy operation.relay_request_id
      then poll_request operation
      else pure (to_submit_result operation none none)

  unfoldable pub poll_pending_operation : String → String → Run W SubmitPrivateOperationResult
  unfolding poll_stored
  poll_pending_operation wallet_public_key operation_id = do
    operation ← require_stored_operation ports wallet_public_key operation_id
    poll_stored operation
