-- ===== src/Relay/Recovery.antt =====
-- Retrying and resuming (packages/relay/src/retry-and-resume.ts), and the error that an
-- unsuccessful result is turned into (protocol-relay-client-error.ts).
pub mod Outcomes
use privacy_layer_confidenti.Base.{
  String, Bool, true, false, not, ◌&&◌, ◌||◌, Option, none, some, List, [], ◌∷◌, or_default, truthy,
  if◌then◌else◌,
}
use privacy_layer_confidenti.Relay.Types.{
  RelayLifecycleStatus, PendingOperationPhase, PendingPrivateOperation,
  SubmitPrivateOperationResult,
}
use privacy_layer_confidenti.Relay.Policy.{can_retry_relay_attempt, is_unfinalized_relay_operation}
use privacy_layer_confidenti.Relay.Runtime.{
  ProtocolRelayPorts, Call, Run, pure, fail, call, ◌>>=◌, ◌>>◌,
}
use privacy_layer_confidenti.Relay.Completion.{save, require_stored_operation}
use privacy_layer_confidenti.Relay.Submission.{require_relay_api}
use privacy_layer_confidenti.Relay.Polling.{poll_pending_operation}

-- `{...withoutPublicReason(operation), phase, relayStatus, retryAllowed}`
unfoldable pub retried_operation : PendingPrivateOperation → PendingPrivateOperation
retried_operation operation = record operation {
  public_reason = none;
  phase = PendingOperationPhase.relay_accepted;
  relay_status = some RelayLifecycleStatus.accepted;
  retry_allowed = false;
}

abbrev phase_is_succeeded : PendingOperationPhase → Bool
phase_is_succeeded PendingOperationPhase.succeeded = true
phase_is_succeeded _ = false

pub record ProtocolRelayClientError : Type 0 where
  pub outcome : PendingOperationPhase
  pub fallback_allowed : Bool
  pub retry_allowed : Bool
  pub operation_id : String
  pub public_reason : Option String

pub record RelayReceipt : Type 0 where
  pub tx_id : String
  pub coin_delivery_warning : Option String

pub data ClientResult : Type 0 where
  received : RelayReceipt → ClientResult
  unsuccessful : ProtocolRelayClientError → ClientResult

abbrev pub present : Option String → Option String
present text = if truthy text then text else none

unfoldable pub throw_if_relay_unsuccessful : SubmitPrivateOperationResult → ClientResult
throw_if_relay_unsuccessful result =
    if phase_is_succeeded result.outcome && truthy result.tx_id
    then received (record {
      tx_id = or_default result.tx_id "";
      coin_delivery_warning = present result.coin_delivery_warning;
    })
    else unsuccessful (record {
      outcome = result.outcome;
      fallback_allowed = result.fallback_allowed;
      retry_allowed = result.retry_allowed;
      operation_id = result.operation.id;
      public_reason = present result.operation.public_reason;
    })

-- `listed.filter((operation) => isUnfinalizedRelayOperation(operation))`
unfoldable pub unfinalized : List PendingPrivateOperation → List PendingPrivateOperation
unfinalized [] = []
unfinalized (op ∷ ops) =
    let rest = unfinalized ops in if is_unfinalized_relay_operation op then op ∷ rest else rest

module _ {W : Type 0} (ports : ProtocolRelayPorts W) where
  unfoldable pub retry_request :
      String → String → PendingPrivateOperation → Run W SubmitPrivateOperationResult
  unfolding retried_operation
  retry_request wallet_public_key operation_id operation = do
    api ← require_relay_api ports
    let relay_request_id = or_default operation.relay_request_id ""
    call (Call.retried operation relay_request_id) (api.retry_attempt relay_request_id)
    save ports (retried_operation operation)
    poll_pending_operation ports wallet_public_key operation_id

  unfoldable pub retry_stored :
      String → String → PendingPrivateOperation → Run W SubmitPrivateOperationResult
  unfolding retry_request
  retry_stored wallet_public_key operation_id operation =
      if not (can_retry_relay_attempt operation) || not (truthy operation.relay_request_id)
      then fail "Relay retry is not allowed for this operation."
      else retry_request wallet_public_key operation_id operation

  unfoldable pub retry_failed_relay_attempt : String → String → Run W SubmitPrivateOperationResult
  unfolding retry_stored
  retry_failed_relay_attempt wallet_public_key operation_id = do
    operation ← require_stored_operation ports wallet_public_key operation_id
    retry_stored wallet_public_key operation_id operation

  unfoldable pub poll_all :
      String → List PendingPrivateOperation → Run W (List SubmitPrivateOperationResult)
  poll_all wallet_public_key [] = pure []
  poll_all wallet_public_key (op ∷ ops) = do
    result ← poll_pending_operation ports wallet_public_key op.id
    results ← poll_all wallet_public_key ops
    pure (result ∷ results)

  unfoldable pub resume_pending_operations : String → Run W (List SubmitPrivateOperationResult)
  unfolding unfinalized poll_all
  resume_pending_operations wallet_public_key = do
    all_listed ← call (Call.listed wallet_public_key) (ports.store.list wallet_public_key)
    poll_all wallet_public_key (unfinalized all_listed)
