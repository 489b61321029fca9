-- ===== src/Relay/Tests/Completing.antt =====
-- Completions on a concrete operation (packages/relay/src/complete-succeeded-operation.ts).
use privacy_layer_confidenti.Base.{true, false, ◌≡◌, refl, inl, some, ◌∷◌, ◌⊎◌}
use privacy_layer_confidenti.Relay.Types.{
  RelayLifecycleStatus, PendingOperationPhase, PendingPrivateOperation,
  SubmitPrivateOperationResult,
}
use privacy_layer_confidenti.Relay.Reasons.{error}
use privacy_layer_confidenti.Relay.Runtime.{ok, threw, ProtocolRelayPorts, Call, State}
use privacy_layer_confidenti.Relay.Completion.{
  apply_success_side_effects, complete_succeeded_operation,
}
use privacy_layer_confidenti.Relay.Completion.Outcome.{IsComplete, complete-Reports}
use privacy_layer_confidenti.Relay.Completion.Effects.{count, is_drain, effects_exact}
use privacy_layer_confidenti.Relay.Completion.Repeat.{KeepsSaved, complete-again}
use privacy_layer_confidenti.Relay.Completion.Crash.{HoldsFinalized, effects-HoldsFinalized}
use privacy_layer_confidenti.Relay.Tests.{
  Memory, find, answering, status_of, ports, prepared_op, empty_state, find_self, find-keyed,
  memory-KeepsSaved, runtime,
}

abbrev done : PendingPrivateOperation
done = record prepared_op {
  phase = PendingOperationPhase.succeeded;
  relay_status = some RelayLifecycleStatus.succeeded;
  transaction_hash = some "tx";
  finalized = true;
  deliveries_drained = true;
  transaction_persisted = true;
}

abbrev completed : State Memory
completed = (complete_succeeded_operation ports prepared_op "tx" empty_state).1

abbrev done_result : SubmitPrivateOperationResult
done_result = record {
  outcome = PendingOperationPhase.succeeded;
  operation = done;
  tx_id = some "tx";
  coin_delivery_warning = some "late";
  fallback_allowed = false;
  retry_allowed = false;
}

completes :
    complete_succeeded_operation ports prepared_op "tx" empty_state ≡ (ok done_result, completed)
unfolding runtime
completes = refl

complete-Reports_example : IsComplete done "tx"
complete-Reports_example =
    (complete-Reports ports prepared_op "tx" empty_state {r = done_result} {s' = completed} refl
      completes).0.0

complete-again_example :
    (complete_succeeded_operation ports prepared_op "tx" completed).1.calls
    ≡ Call.saved done ∷ Call.looked_up "GTESTWALLET" "op-1" ∷ completed.calls
complete-again_example =
    complete-again ports find (memory-KeepsSaved (answering (status_of "succeeded" (some "tx"))))
      prepared_op prepared_op "tx" empty_state {r = done_result} {s' = completed} refl refl refl
      completes

effects_return : apply_success_side_effects ports prepared_op "tx" empty_state ≡ (
  ok (
    record prepared_op {
      finalized = true;
      deliveries_drained = true;
      transaction_persisted = true;
    },
    some "late",
  ),
  (apply_success_side_effects ports prepared_op "tx" empty_state).1,
)
unfolding runtime
effects_return = refl

effects_exact_example :
    count is_drain (apply_success_side_effects ports prepared_op "tx" empty_state).1.calls ≡ 1
effects_exact_example = (effects_exact ports prepared_op "tx" empty_state effects_return).1

-- Ports that throw when the deliveries are drained.
abbrev failing_ports : ProtocolRelayPorts Memory
failing_ports = record ports { drain_deliveries = λ op tx w. (threw (error "offline"), w) }

failing-KeepsSaved : KeepsSaved failing_ports find
failing-KeepsSaved = record {
  reads = λ wallet id w. refl;
  keyed = find-keyed;
  saves = (memory-KeepsSaved (answering (status_of "succeeded" (some "tx")))).saves;
  save_atomic = λ op w. inl (find_self op w);
  finalize_apart = λ op tx w wallet id. refl;
  drain_apart = λ op tx w wallet id. refl;
  persist_apart = λ op tx w wallet id. refl;
}

effects-HoldsFinalized_example :
    (count is_drain (apply_success_side_effects failing_ports prepared_op "tx" empty_state).1.calls
      ≡ 0)
    ⊎ HoldsFinalized failing_ports find failing-KeepsSaved "GTESTWALLET" "op-1" "tx"
        (apply_success_side_effects failing_ports prepared_op "tx" empty_state).1.world
effects-HoldsFinalized_example =
    effects-HoldsFinalized failing_ports find failing-KeepsSaved "GTESTWALLET" "op-1" "tx"
      prepared_op empty_state (refl, refl) (λ e. cc)
