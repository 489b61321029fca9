-- ===== src/Relay/Submission/Admission.antt =====
-- How packages/relay/src/submit-prepared-private-operation.ts classifies a submission that the relay
-- refuses.
use privacy_layer_confidenti.Base.{
  String, Bool, false, not, ◌&&◌, ◌≡◌, none, some, arith, if◌then◌else◌,
}
use privacy_layer_confidenti.Relay.Types.{
  PendingOperationPhase, PendingPrivateOperation, RelayRequestAccepted, NewPrivateOperation,
  SubmitPrivateOperationResult,
}
use privacy_layer_confidenti.Relay.Reasons.{
  Thrown, relay_api_error, error, infrastructure_failed, is_infrastructure_relay_failure,
}
use privacy_layer_confidenti.Relay.Policy.{can_offer_direct_submission, can_retry_relay_attempt}
use privacy_layer_confidenti.Relay.Runtime.{
  ok, threw, RelayApi, ProtocolRelayPorts, Call, State, call, catch, ◌>>=◌,
}
use privacy_layer_confidenti.Relay.Completion.{to_submit_result, save}
use privacy_layer_confidenti.Relay.Submission.{
  build_prepared_operation, admission_failure, rejection, relay_acceptance, save_admission_failure,
  save_rejected_without_request, request_relay, refuse_admission, create_relay_request,
}

-- An error that the relay's answer makes final.
abbrev is_final : Thrown → Bool
is_final (relay_api_error e) = not (is_infrastructure_relay_failure e)
is_final (error message) = false

abbrev reason_of : Thrown → String
reason_of (relay_api_error e) = e.reason
reason_of (error message) = infrastructure_failed

module _ {W : Type 0} (ports : ProtocolRelayPorts W) where
  pub refused_result :
      (op : PendingPrivateOperation) (e : Thrown) (s : State W) {r : SubmitPrivateOperationResult}
      {s' : State W}
      → refuse_admission ports op e s ≡ (ok r, s')
      → r
        ≡ to_submit_result
            (if is_final e then rejection op (reason_of e) else admission_failure op (reason_of e))
            none
            none
  unfolding refuse_admission save_admission_failure save_rejected_without_request ◌>>=◌
  refused_result op (relay_api_error e) s h = ground arith
  refused_result op (error m) s h = ground arith

  abbrev requested : RelayApi W → PendingPrivateOperation → State W → State W
  requested api op s =
      (call (Call.created_request op.relay_package) (api.create_request op.relay_package) s).1

  request_threw :
      (api : RelayApi W) (op : PendingPrivateOperation) (e : Thrown) (s : State W)
      → (api.create_request op.relay_package s.world).0 ≡ threw e
      → catch (request_relay ports api op) (refuse_admission ports op) s
        ≡ refuse_admission ports op e (requested api op s)
  unfolding request_relay catch ◌>>=◌
  request_threw api op e s h = rw h

  -- What `createRelayRequest` does once the operation is saved.
  pub create_after_save :
      (api : RelayApi W) (op : PendingPrivateOperation) (s : State W)
      {r : SubmitPrivateOperationResult} {s' : State W}
      → ports.relay_api ≡ some api
      → create_relay_request ports op s ≡ (ok r, s')
      → catch (request_relay ports api op) (refuse_admission ports op) (save ports op s).1
        ≡ (ok r, s')
  unfolding create_relay_request ◌>>=◌
  create_after_save api op s a h = ground arith

  classified :
      (op : NewPrivateOperation) (e : Thrown) (r : SubmitPrivateOperationResult)
      → r
        ≡ to_submit_result
            (if is_final e
              then rejection (build_prepared_operation op) (reason_of e)
              else admission_failure (build_prepared_operation op) (reason_of e))
            none
            none
      → (r.outcome ≡ (
          if is_final e
          then PendingOperationPhase.rejected
          else PendingOperationPhase.admission_failed))
        × (r.operation.public_reason ≡ some (reason_of e))
        × (r.operation.relay_request_id ≡ none)
        × (r.retry_allowed ≡ false)
        × (r.fallback_allowed ≡ (not (is_final e) && not op.escrow_send))
  unfolding build_prepared_operation rejection admission_failure to_submit_result
      can_offer_direct_submission can_retry_relay_attempt
  classified op e r h = ground arith

  -- If the relay refuses a prepared operation with an error, and the run returns, the operation is
  -- rejected when the error is the relay's and no infrastructure failure, and has failed admission
  -- otherwise; it keeps the error's reason and has no relay request; no retry is offered, and
  -- direct submission only after a failed admission of an operation that is no escrow send.
  pub create_relay_request_refused :
      (op : NewPrivateOperation) (api : RelayApi W) (e : Thrown) (s : State W)
      {r : SubmitPrivateOperationResult} {s' : State W}
      → ports.relay_api ≡ some api
      → (api.create_request op.relay_package
          (ports.store.save (build_prepared_operation op) s.world).1).0
        ≡ threw e
      → create_relay_request ports (build_prepared_operation op) s ≡ (ok r, s')
      → (r.outcome ≡ (
          if is_final e
          then PendingOperationPhase.rejected
          else PendingOperationPhase.admission_failed))
        × (r.operation.public_reason ≡ some (reason_of e))
        × (r.operation.relay_request_id ≡ none)
        × (r.retry_allowed ≡ false)
        × (r.fallback_allowed ≡ (not (is_final e) && not op.escrow_send))
  unfolding build_prepared_operation ◌>>=◌
  create_relay_request_refused op api e s {r} a refused h =
      let prepared = build_prepared_operation op in
      classified op e r (
        refused_result prepared e _ (
          rw (request_threw api prepared e (save ports prepared s).1 refused) at
            (create_after_save api prepared s a h)))

  -- If the relay accepts the request and saving that acceptance then fails, a run that returns
  -- reports a failed admission with no relay request and offers direct submission (except for an
  -- escrow send), although the relay holds the request.
  pub acceptance_lost :
      (op : NewPrivateOperation) (api : RelayApi W) (accepted : RelayRequestAccepted)
      (message : String) (s : State W) {r : SubmitPrivateOperationResult} {s' : State W}
      → ports.relay_api ≡ some api
      → (api.create_request op.relay_package
          (ports.store.save (build_prepared_operation op) s.world).1).0
        ≡ ok accepted
      → (ports.store.save
          (relay_acceptance (build_prepared_operation op) accepted)
          (api.create_request op.relay_package
            (ports.store.save (build_prepared_operation op) s.world).1).1).0
        ≡ threw (error message)
      → create_relay_request ports (build_prepared_operation op) s ≡ (ok r, s')
      → (r.outcome ≡ PendingOperationPhase.admission_failed)
        × (r.operation.public_reason ≡ some infrastructure_failed)
        × (r.operation.relay_request_id ≡ none)
        × (r.fallback_allowed ≡ not op.escrow_send)
  unfolding build_prepared_operation relay_acceptance request_relay catch ◌>>=◌
  acceptance_lost op api accepted message s {r} a granted failed h =
      let prepared = build_prepared_operation op in
      let (outcome, reason, request, _, fallback) = classified op (error message) r (
        refused_result prepared (error message) _
          (rw (granted, failed) at (create_after_save api prepared s a h))) in
      (outcome, reason, request, fallback)
