-- ===== src/Relay/Submission.antt =====
-- Submitting a prepared operation (packages/relay/src/submit-prepared-private-operation.ts) and the
-- direct fallback (submit-direct-fallback.ts).
pub mod Admission
pub mod Submitted
use privacy_layer_confidenti.Base.{
  String, Bool, true, false, not, ◌&&◌, ◌||◌, Option, none, some, if◌then◌else◌,
}
use privacy_layer_confidenti.Relay.Types.{
  SubmissionPath, RelayLifecycleStatus, PendingOperationPhase, PendingPrivateOperation,
  RelayRequestAccepted, NewPrivateOperation, SubmitPrivateOperationResult,
}
use privacy_layer_confidenti.Relay.Reasons.{
  Thrown, relay_api_error, error, infrastructure_failed, escrow_relay_unconfigured,
  is_infrastructure_relay_failure,
}
use privacy_layer_confidenti.Relay.Config.{is_relay_configured}
use privacy_layer_confidenti.Relay.Policy.{can_offer_direct_submission}
use privacy_layer_confidenti.Relay.Runtime.{
  RelayApi, ProtocolRelayPorts, Call, Run, pure, fail, call, catch, ◌>>=◌, ◌>>◌,
}
use privacy_layer_confidenti.Relay.Completion.{
  to_submit_result, save, require_stored_operation, complete_succeeded_operation,
}

unfoldable pub build_prepared_operation : NewPrivateOperation → PendingPrivateOperation
build_prepared_operation input = record {
  id = input.id;
  wallet_public_key = input.wallet_public_key;
  phase = PendingOperationPhase.prepared;
  retry_allowed = false;
  display = input.display;
  snapshot = input.snapshot;
  delivery_outbox = input.delivery_outbox;
  relay_package = input.relay_package;
  finalized = false;
  deliveries_drained = false;
  transaction_persisted = false;
  escrow_send = input.escrow_send;
  relay_request_id = none;
  relay_status = none;
  public_reason = none;
  transaction_hash = none;
}

unfoldable pub admission_failure : PendingPrivateOperation → String → PendingPrivateOperation
admission_failure operation reason = record operation {
  phase = PendingOperationPhase.admission_failed;
  public_reason = some reason;
  retry_allowed = false;
}

unfoldable pub rejection : PendingPrivateOperation → String → PendingPrivateOperation
rejection operation reason = record operation {
  phase = PendingOperationPhase.rejected;
  public_reason = some reason;
  retry_allowed = false;
}

unfoldable pub relay_acceptance :
    PendingPrivateOperation → RelayRequestAccepted → PendingPrivateOperation
relay_acceptance operation accepted = record operation {
  phase = PendingOperationPhase.relay_accepted;
  relay_request_id = some accepted.relay_request_id;
  relay_status = some RelayLifecycleStatus.accepted;
  retry_allowed = false;
}

abbrev path_is_direct : SubmissionPath → Bool
path_is_direct SubmissionPath.direct = true
path_is_direct SubmissionPath.relay = false

module _ {W : Type 0} (ports : ProtocolRelayPorts W) where
  -- `requireRelayApi`
  abbrev pub configured : Option (RelayApi W) → Run W (RelayApi W)
  configured none = fail "Relay API is not configured."
  configured (some api) = pure api

  unfoldable pub require_relay_api : Run W (RelayApi W)
  require_relay_api = configured ports.relay_api

  unfoldable pub submit_direct_path : PendingPrivateOperation → Run W SubmitPrivateOperationResult
  submit_direct_path operation = do
    tx_id ← call (Call.direct operation) (ports.submit_direct operation)
    complete_succeeded_operation ports operation tx_id

  unfoldable pub save_admission_failure :
      PendingPrivateOperation → String → Run W SubmitPrivateOperationResult
  unfolding admission_failure
  save_admission_failure operation reason = do
    save ports (admission_failure operation reason)
    pure (to_submit_result (admission_failure operation reason) none none)

  unfoldable pub save_rejected_without_request :
      PendingPrivateOperation → String → Run W SubmitPrivateOperationResult
  unfolding rejection
  save_rejected_without_request operation reason = do
    save ports (rejection operation reason)
    pure (to_submit_result (rejection operation reason) none none)

  -- The `try` block of `createRelayRequest`: the request, and the save of its acceptance.
  unfoldable pub request_relay :
      RelayApi W → PendingPrivateOperation → Run W SubmitPrivateOperationResult
  unfolding relay_acceptance
  request_relay api operation = do
    accepted ←
        call (Call.created_request operation.relay_package)
          (api.create_request operation.relay_package)
    save ports (relay_acceptance operation accepted)
    pure (to_submit_result (relay_acceptance operation accepted) none none)

  -- Its `catch` block.
  unfoldable pub refuse_admission :
      PendingPrivateOperation → Thrown → Run W SubmitPrivateOperationResult
  unfolding save_admission_failure save_rejected_without_request
  refuse_admission operation (relay_api_error e) =
      if not (is_infrastructure_relay_failure e)
      then save_rejected_without_request operation e.reason
      else save_admission_failure operation e.reason
  refuse_admission operation (error message) =
      save_admission_failure operation infrastructure_failed

  unfoldable pub create_relay_request : PendingPrivateOperation → Run W SubmitPrivateOperationResult
  unfolding require_relay_api request_relay refuse_admission
  create_relay_request operation = do
    api ← require_relay_api
    save ports operation
    catch (request_relay api operation) (refuse_admission operation)

  unfoldable pub should_submit_direct : NewPrivateOperation → Bool
  should_submit_direct operation =
      if operation.escrow_send
      then false
      else path_is_direct operation.submission_path
        || not (is_relay_configured (some ports.relay_config))

  unfoldable pub submit_prepared_private_operation :
      NewPrivateOperation → Run W SubmitPrivateOperationResult
  unfolding build_prepared_operation should_submit_direct
  submit_prepared_private_operation operation =
      let prepared = build_prepared_operation operation in
      if operation.escrow_send && not (is_relay_configured (some ports.relay_config))
      then save_rejected_without_request prepared escrow_relay_unconfigured
      else if should_submit_direct operation
      then submit_direct_path prepared
      else create_relay_request prepared

  unfoldable pub submit_fallback :
      Bool → PendingPrivateOperation → Run W SubmitPrivateOperationResult
  submit_fallback consent operation =
      if not consent || not (can_offer_direct_submission operation)
      then fail "Direct submission fallback is not allowed."
      else submit_direct_path operation

  unfoldable pub submit_direct_fallback :
      String → String → Bool → Run W SubmitPrivateOperationResult
  unfolding submit_fallback
  submit_direct_fallback wallet_public_key operation_id consent = do
    operation ← require_stored_operation ports wallet_public_key operation_id
    submit_fallback consent operation
