-- ===== src/Relay/Polling/Status.antt =====
-- What a status read by packages/relay/src/poll-pending-operation.ts does to an operation.
use privacy_layer_confidenti.Base.{
  String, true, false, ◌≡◌, ◌≢◌, ◌↔◌, some, refl, ap, ◌∙◌, arith, eq_iff, truthy,
}
use privacy_layer_confidenti.Relay.Types.{
  RelayLifecycleStatus, PendingOperationPhase, PendingPrivateOperation, RelayRequestStatus,
}
use privacy_layer_confidenti.Relay.Policy.{can_offer_direct_submission, can_retry_relay_attempt}
use privacy_layer_confidenti.Relay.Polling.{relay_status_text, read_relay_status, apply_status}

read-text :
    (status : RelayLifecycleStatus) → read_relay_status (relay_status_text status) ≡ some status
unfolding read_relay_status relay_status_text
read-text RelayLifecycleStatus.accepted = refl
read-text _ = refl

text_of_read :
    (value : String) (status : RelayLifecycleStatus)
    → read_relay_status value ≡ some status
    → value ≡ relay_status_text status
unfolding read_relay_status relay_status_text
text_of_read value status h = ground (
  arith,
  eq_iff value "accepted",
  eq_iff value "validating",
  eq_iff value "queued",
  eq_iff value "submitted",
  eq_iff value "reconciling",
  eq_iff value "succeeded",
  eq_iff value "rejected",
  eq_iff value "failed",
)

-- A text is read as a relay status exactly if it is the text of that status.
pub read_relay_status_iff :
    (value : String) (status : RelayLifecycleStatus)
    → (read_relay_status value ≡ some status) ↔ (value ≡ relay_status_text status)
read_relay_status_iff value status =
    (text_of_read value status, λ e. ap read_relay_status e ∙ read-text status)

failed_ne_rejected : ◌≢◌ {A = String} "failed" "rejected"
failed_ne_rejected = ground (arith, eq_iff "failed" "rejected")

-- After a status read of an operation with a relay request that is not finalized and has not
-- failed, a retry is offered exactly if the relay answers `failed` and allows one.
pub retry_after_status_iff :
    (op : PendingPrivateOperation) (status : RelayRequestStatus)
    → op.finalized ≡ false
    → truthy op.relay_request_id ≡ true
    → op.phase ≢ PendingOperationPhase.failed
    → (can_retry_relay_attempt (apply_status op status) ≡ true)
      ↔ ((status.status ≡ "failed") × (status.retry_allowed ≡ true))
unfolding apply_status can_retry_relay_attempt
retry_after_status_iff op status f i p =
    ground
      (arith, eq_iff status.status "failed", eq_iff status.status "rejected", failed_ne_rejected)

-- A status read keeps the relay request and the progress flags, moves the phase only to `rejected`
-- or `failed` (exactly on those answers) and never makes direct submission available; and it leaves
-- no operation both rejected and retryable.
pub apply_status_keeps :
    (op : PendingPrivateOperation) (status : RelayRequestStatus)
    → ((apply_status op status).relay_request_id ≡ op.relay_request_id)
      × ((apply_status op status).finalized ≡ op.finalized)
      × ((apply_status op status).deliveries_drained ≡ op.deliveries_drained)
      × ((apply_status op status).transaction_persisted ≡ op.transaction_persisted)
      × (status.status ≡ "rejected"
          → ((apply_status op status).phase ≡ PendingOperationPhase.rejected)
            × ((apply_status op status).retry_allowed ≡ false))
      × (status.status ≡ "failed" → (apply_status op status).phase ≡ PendingOperationPhase.failed)
      × (status.status ≢ "rejected"
          → status.status ≢ "failed"
          → (apply_status op status).phase ≡ op.phase)
      × (truthy op.relay_request_id ≡ true
          → can_offer_direct_submission (apply_status op status) ≡ false)
unfolding apply_status can_offer_direct_submission
apply_status_keeps op status =
    ground
      (arith, eq_iff status.status "failed", eq_iff status.status "rejected", failed_ne_rejected)
