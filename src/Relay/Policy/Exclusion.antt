-- ===== src/Relay/Policy/Exclusion.antt =====
-- What the offers of packages/relay/src/fallback-policy.ts exclude.
use privacy_layer_confidenti.Base.{true, false, ◌≡◌, ◌↔◌, ◌⊎◌, truthy, arith}
use privacy_layer_confidenti.Relay.Types.{PendingOperationPhase, PendingPrivateOperation}
use privacy_layer_confidenti.Relay.Policy.{
  blocks_direct, can_offer_direct_submission, can_retry_relay_attempt,
  is_unfinalized_relay_operation,
}

-- A retry is offered exactly for an operation that is not finalized, has a relay request, is in
-- the phase `failed` and allows a retry.
pub can_retry_iff :
    (op : PendingPrivateOperation)
    → (can_retry_relay_attempt op ≡ true) ↔ (
        (op.finalized ≡ false)
        × (truthy op.relay_request_id ≡ true)
        × (op.phase ≡ PendingOperationPhase.failed)
        × (op.retry_allowed ≡ true))
unfolding can_retry_relay_attempt
can_retry_iff op = ground arith

-- Direct submission is offered exactly for an operation that is no escrow send, is not finalized,
-- has no relay request, has no blocking relay status, and is prepared or failed admission.
pub can_offer_iff :
    (op : PendingPrivateOperation)
    → (can_offer_direct_submission op ≡ true) ↔ (
        (op.escrow_send ≡ false)
        × (op.finalized ≡ false)
        × (truthy op.relay_request_id ≡ false)
        × (blocks_direct op.relay_status ≡ false)
        × ((op.phase ≡ PendingOperationPhase.prepared)
            ⊎ (op.phase ≡ PendingOperationPhase.admission_failed)))
unfolding can_offer_direct_submission
can_offer_iff op = ground arith

-- An operation that the relay may still settle (one that a resume polls) is never offered direct
-- submission, and a retry is offered only for such an operation.
pub offers_exclusive :
    (op : PendingPrivateOperation)
    → (is_unfinalized_relay_operation op ≡ true → can_offer_direct_submission op ≡ false)
      × (can_retry_relay_attempt op ≡ true → is_unfinalized_relay_operation op ≡ true)
unfolding can_offer_direct_submission can_retry_relay_attempt is_unfinalized_relay_operation
offers_exclusive op = ground arith
