-- ===== src/Relay/Tests/Awaiting.antt =====
-- An await on a concrete operation (packages/relay/src/await-relay-settlement.ts).
use privacy_layer_confidenti.Base.{ℕ, ◌⊎◌, ◌-◌, ◌≤◌, true, false, ◌≡◌, refl, none, some, [], ◌∷◌}
use privacy_layer_confidenti.Js.Value.{Number, finite, up}
use privacy_layer_confidenti.Relay.Types.{
  RelayLifecycleStatus, PendingOperationPhase, SubmitPrivateOperationResult,
}
use privacy_layer_confidenti.Relay.Runtime.{Result, ok, Port, ProtocolRelayPorts, State}
use privacy_layer_confidenti.Relay.Completion.{require_stored_operation}
use privacy_layer_confidenti.Relay.Polling.{read_relay_status, is_terminal_relay_status}
use privacy_layer_confidenti.Relay.Settlement.{
  PollOptions, poll_until_bound, is_settled, resolve_poll_bounds, await_relay_settlement,
}
use privacy_layer_confidenti.Relay.Settlement.Bounds.{Delays, Delays-await}
use privacy_layer_confidenti.Relay.Settlement.Polls.{
  Polled, IsReported, await_relay_settlement-reports,
}
use privacy_layer_confidenti.Relay.Submission.{require_relay_api}
use privacy_layer_confidenti.Relay.Tests.{
  Memory, answering, status_of, ports_with, ports, runtime, relayed_op, numbers,
}

abbrev three_polls : PollOptions
three_polls = record {
  poll_interval_ms = some (finite false 5 (up 1));
  max_attempts = some 3;
  backoff_multiplier = none;
  max_poll_interval_ms = none;
}

abbrev no_delay : Number → Port Memory (Unit {0})
no_delay ms w = (ok tt, w)

Delays-await_example :
    Delays
      ((resolve_poll_bounds three_polls).max_attempts - 1)
      (await_relay_settlement ports numbers no_delay "GTESTWALLET" "op-1" three_polls)
Delays-await_example = Delays-await ports numbers no_delay "GTESTWALLET" "op-1" three_polls

abbrev queued_ports : ProtocolRelayPorts Memory
queued_ports = ports_with (answering (status_of "queued" none))

abbrev relayed_state : State Memory
relayed_state = record { world = relayed_op ∷ []; calls = []; in_flight = [] }

abbrev awaited : Result SubmitPrivateOperationResult × State Memory
awaited =
    await_relay_settlement queued_ports numbers no_delay "GTESTWALLET" "op-1" three_polls
      relayed_state

abbrev timed_out_result : SubmitPrivateOperationResult
timed_out_result = record {
  outcome = PendingOperationPhase.settlement_timed_out;
  operation = record relayed_op {
    phase = PendingOperationPhase.settlement_timed_out;
    retry_allowed = true;
    relay_status = some RelayLifecycleStatus.queued;
  };
  tx_id = none;
  coin_delivery_warning = none;
  fallback_allowed = false;
  retry_allowed = false;
}

awaits : awaited ≡ (ok timed_out_result, awaited.1)
unfolding runtime await_relay_settlement poll_until_bound require_stored_operation require_relay_api
    resolve_poll_bounds is_settled is_terminal_relay_status read_relay_status
awaits = refl

await_reports_example :
    (j : ℕ) × (x : SubmitPrivateOperationResult) × (t : State Memory) × Polled queued_ports numbers
      no_delay "GTESTWALLET" "op-1"
      (resolve_poll_bounds three_polls)
      relayed_state
      j
      x
      t
    × (j ≤ (resolve_poll_bounds three_polls).max_attempts - 1)
    × ((is_settled x ≡ true) ⊎ (j ≡ (resolve_poll_bounds three_polls).max_attempts - 1))
    × IsReported queued_ports numbers no_delay "GTESTWALLET" "op-1" x t timed_out_result awaited.1
await_reports_example =
    await_relay_settlement-reports queued_ports numbers no_delay "GTESTWALLET" "op-1" three_polls
      relayed_state awaited.1 timed_out_result awaits
