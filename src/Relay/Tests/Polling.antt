-- ===== src/Relay/Tests/Polling.antt =====
-- Status reads of a concrete operation (packages/relay/src/poll-pending-operation.ts).
use privacy_layer_confidenti.Base.{true, false, ◌≡◌}
use privacy_layer_confidenti.Relay.Policy.{
  can_offer_direct_submission, can_retry_relay_attempt, is_unfinalized_relay_operation,
}
use privacy_layer_confidenti.Relay.Policy.Exclusion.{offers_exclusive}
use privacy_layer_confidenti.Relay.Tests.{relayed_op}

offers_exclusive_example :
    (is_unfinalized_relay_operation relayed_op ≡ true
      → can_offer_direct_submission relayed_op ≡ false)
    × (can_retry_relay_attempt relayed_op ≡ true → is_unfinalized_relay_operation relayed_op ≡ true)
offers_exclusive_example = offers_exclusive relayed_op
