-- ===== src/Relay/Tests/Submitting.antt =====
-- Submissions of a concrete operation (packages/relay/src/submit-prepared-private-operation.ts).
use privacy_layer_confidenti.Base.{
  String, Bool, true, false, ◌≡◌, refl, Option, none, some, List, [], ◌∷◌,
}
use privacy_layer_confidenti.Js.Value.{Number}
use privacy_layer_confidenti.Relay.Types.{
  RelayLifecycleStatus, PendingOperationPhase, PendingPrivateOperation,
  SubmitPrivateOperationResult,
}
use privacy_layer_confidenti.Relay.Reasons.{relay_api_error, error, is_infrastructure_relay_failure}
use privacy_layer_confidenti.Relay.Runtime.{
  Result, ok, threw, Port, RelayApi, ProtocolRelayPorts, State,
}
use privacy_layer_confidenti.Relay.Completion.{require_stored_operation}
use privacy_layer_confidenti.Relay.Config.{is_relay_configured}
use privacy_layer_confidenti.Relay.Policy.{is_unfinalized_relay_operation}
use privacy_layer_confidenti.Relay.Polling.{read_relay_status}
use privacy_layer_confidenti.Relay.Recovery.{resume_pending_operations}
use privacy_layer_confidenti.Relay.Runtime.Runs.{Journal}
use privacy_layer_confidenti.Relay.Calls.{IsProper}
use privacy_layer_confidenti.Relay.Calls.Sequence.{Request, perform_all, perform_all-IsProper}
use privacy_layer_confidenti.Relay.Submission.{
  build_prepared_operation, require_relay_api, relay_acceptance, create_relay_request,
  submit_prepared_private_operation,
}
use privacy_layer_confidenti.Relay.Submission.Submitted.{IsSubmitted, submit_prepared-IsSubmitted}
use privacy_layer_confidenti.Relay.Submission.Admission.{
  create_relay_request_refused, acceptance_lost,
}
use privacy_layer_confidenti.Js.Text.{trim}
use privacy_layer_confidenti.Relay.Tests.{
  Memory, answering, status_of, ports_with, ports, new_operation, prepared_op, relayed_op,
  empty_state, runtime, numbers,
}

-- A relay whose queue is full.
abbrev full_relay : RelayApi Memory
full_relay = record (answering (status_of "queued" none)) {
  create_request = λ body w.
      (threw (relay_api_error (record { reason = "queue_at_capacity"; http_status = 503 })), w);
}

abbrev refused_op : PendingPrivateOperation
refused_op = record prepared_op {
  phase = PendingOperationPhase.admission_failed;
  public_reason = some "queue_at_capacity";
}

abbrev result_of : PendingPrivateOperation → Bool → SubmitPrivateOperationResult
result_of op fallback = record {
  outcome = op.phase;
  operation = op;
  tx_id = none;
  coin_delivery_warning = none;
  fallback_allowed = fallback;
  retry_allowed = false;
}

abbrev refusal : Result SubmitPrivateOperationResult × State Memory
refusal =
    create_relay_request (ports_with full_relay) (build_prepared_operation (new_operation false))
      empty_state

refuses : refusal ≡ (ok (result_of refused_op true), refusal.1)
unfolding runtime create_relay_request build_prepared_operation is_infrastructure_relay_failure
refuses = refl

create_relay_request_refused_example : (result_of refused_op true).fallback_allowed ≡ true
unfolding is_infrastructure_relay_failure
create_relay_request_refused_example =
    (create_relay_request_refused (ports_with full_relay) (new_operation false) full_relay
      (relay_api_error (record { reason = "queue_at_capacity"; http_status = 503 })) empty_state
      {r = result_of refused_op true} {s' = refusal.1} refl refl refuses).4

-- A store that fails to save an operation with a relay request.
abbrev save_unless_relayed : Option String → PendingPrivateOperation → Port Memory (Unit {0})
save_unless_relayed none op w = (ok tt, op ∷ w)
save_unless_relayed (some id) op w = (threw (error "quota"), w)

abbrev losing_ports : ProtocolRelayPorts Memory
losing_ports = record ports {
  store = record ports.store { save = λ op w. save_unless_relayed op.relay_request_id op w };
}

abbrev lost_op : PendingPrivateOperation
lost_op = record prepared_op {
  phase = PendingOperationPhase.admission_failed;
  public_reason = some "infrastructure_failed";
}

abbrev loss : Result SubmitPrivateOperationResult × State Memory
loss =
    create_relay_request losing_ports (build_prepared_operation (new_operation false)) empty_state

loses : loss ≡ (ok (result_of lost_op true), loss.1)
unfolding runtime create_relay_request build_prepared_operation
loses = refl

acceptance_lost_example : (result_of lost_op true).fallback_allowed ≡ true
unfolding build_prepared_operation relay_acceptance
acceptance_lost_example =
    (acceptance_lost losing_ports (new_operation false)
      (answering (status_of "succeeded" (some "tx")))
      (record {
        relay_request_id = "relay-1";
        status = "accepted";
        created_at = "";
        status_url = "";
      })
      "quota" empty_state {r = result_of lost_op true} {s' = loss.1} refl refl refl loses).3

abbrev submission : Result SubmitPrivateOperationResult × State Memory
submission = submit_prepared_private_operation ports (new_operation false) empty_state

submits : submission ≡ (ok (result_of relayed_op false), submission.1)
unfolding runtime submit_prepared_private_operation create_relay_request is_relay_configured trim
submits = refl

submit_prepared-IsSubmitted_example : IsSubmitted (result_of relayed_op false)
submit_prepared-IsSubmitted_example =
    submit_prepared-IsSubmitted ports (new_operation false) empty_state
      {r = result_of relayed_op false} {s' = submission.1} refl submits

-- One operation that the relay holds, and one that it does not.
abbrev listed_state : State Memory
listed_state = record { world = relayed_op ∷ prepared_op ∷ []; calls = []; in_flight = [] }

abbrev queued_ports : ProtocolRelayPorts Memory
queued_ports = ports_with (answering (status_of "queued" none))

abbrev resumption : Result (List SubmitPrivateOperationResult) × State Memory
resumption = resume_pending_operations queued_ports "GTESTWALLET" listed_state

abbrev polled_op : PendingPrivateOperation
polled_op = record relayed_op {
  retry_allowed = true;
  relay_status = some RelayLifecycleStatus.queued;
}

resumes : resumption ≡ (ok (result_of polled_op false ∷ []), resumption.1)
unfolding runtime resume_pending_operations is_unfinalized_relay_operation require_stored_operation
    require_relay_api read_relay_status
resumes = refl

abbrev requests : List Request
requests =
    Request.submit (new_operation false)
    ∷ Request.poll "GTESTWALLET" "op-1"
    ∷ Request.fallback "GTESTWALLET" "op-1" true
    ∷ Request.resume "GTESTWALLET"
    ∷ []

abbrev no_wait : Number → Port Memory (Unit {0})
no_wait ms w = (ok tt, w)

perform_all-IsProper_example :
    Journal IsProper (perform_all ports numbers no_wait requests empty_state).calls
perform_all-IsProper_example = perform_all-IsProper ports numbers no_wait requests empty_state tt
