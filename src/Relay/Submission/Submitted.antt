-- ===== src/Relay/Submission/Submitted.antt =====
-- What a submission reports (packages/relay/src/submit-prepared-private-operation.ts).
use privacy_layer_confidenti.Base.{
  String, true, false, not, ◌&&◌, ◌≡◌, ◌⊎◌, inl, inr, Option, none, some, refl, ◌∙◌, [], arith,
  if◌then◌else◌,
}
use privacy_layer_confidenti.Relay.Types.{
  PendingOperationPhase, PendingPrivateOperation, NewPrivateOperation, SubmitPrivateOperationResult,
}
use privacy_layer_confidenti.Relay.Reasons.{Thrown, escrow_relay_unconfigured}
use privacy_layer_confidenti.Relay.Config.{is_relay_configured}
use privacy_layer_confidenti.Relay.Policy.{can_offer_direct_submission, can_retry_relay_attempt}
use privacy_layer_confidenti.Relay.Runtime.{
  ok, RelayApi, ProtocolRelayPorts, State, Run, catch, ◌>>=◌,
}
use privacy_layer_confidenti.Relay.Runtime.Runs.{bind-eq-ok, catch-eq-ok, eta-eq-ok, if-eq-ok}
use privacy_layer_confidenti.Relay.Completion.Outcome.{complete-Reports}
use privacy_layer_confidenti.Relay.Completion.{to_submit_result}
use privacy_layer_confidenti.Relay.Submission.{
  configured, build_prepared_operation, admission_failure, rejection, save_rejected_without_request,
  submit_direct_path, should_submit_direct, submit_prepared_private_operation, request_relay,
  refuse_admission, create_relay_request,
}
use privacy_layer_confidenti.Relay.Submission.Admission.{refused_result, create_after_save}

-- What a submission reports, when it returns: it has been accepted by the relay, has failed
-- admission, has been rejected, or has succeeded; never with a retry, and with a fallback only
-- after a failed admission.
pub record IsSubmitted (r : SubmitPrivateOperationResult) : Type 0 where
  pub phase :
      (r.outcome ≡ PendingOperationPhase.relay_accepted)
      ⊎ (r.outcome ≡ PendingOperationPhase.admission_failed)
      ⊎ (r.outcome ≡ PendingOperationPhase.rejected)
      ⊎ (r.outcome ≡ PendingOperationPhase.succeeded)
  pub no_retry : r.retry_allowed ≡ false
  pub fallback : r.fallback_allowed ≡ true → r.outcome ≡ PendingOperationPhase.admission_failed

module _ {W : Type 0} (ports : ProtocolRelayPorts W) where
  refused-IsSubmitted :
      (op : PendingPrivateOperation) (e : Thrown) (s : State W) {r : SubmitPrivateOperationResult}
      {s' : State W}
      → refuse_admission ports op e s ≡ (ok r, s')
      → IsSubmitted r
  unfolding rejection admission_failure to_submit_result can_offer_direct_submission
      can_retry_relay_attempt
  refused-IsSubmitted op e s {r} h =
      let shape : r ≡ _ = refused_result ports op e s h in ground arith

  request_relay-IsSubmitted :
      (api : RelayApi W) (op : PendingPrivateOperation) (s : State W)
      {r : SubmitPrivateOperationResult} {s' : State W}
      → request_relay ports api op s ≡ (ok r, s')
      → IsSubmitted r
  unfolding request_relay to_submit_result can_offer_direct_submission can_retry_relay_attempt ◌>>=◌
  request_relay-IsSubmitted api op s h = ground arith

  requested-IsSubmitted :
      (api : RelayApi W) (op : PendingPrivateOperation) (s : State W)
      {r : SubmitPrivateOperationResult} {s' : State W}
      → catch (request_relay ports api op) (refuse_admission ports op) s ≡ (ok r, s')
      → IsSubmitted r
  requested-IsSubmitted api op s h = elim (catch-eq-ok _ _ s h) [
    | inl done ↦ request_relay-IsSubmitted api op s (eta-eq-ok (request_relay ports api op) s done)
    | inr (e, refused) ↦ refused-IsSubmitted op e _ refused
  ]

  -- The api that `requireRelayApi` has found when it returned.
  configured-eq-ok :
      (o : Option (RelayApi W)) (f : RelayApi W → Run W SubmitPrivateOperationResult) (s : State W)
      {r : SubmitPrivateOperationResult} {s' : State W}
      → (configured ports o >>= f) s ≡ (ok r, s')
      → (api : RelayApi W) × (o ≡ some api)
  unfolding ◌>>=◌
  configured-eq-ok none f s h = cc
  configured-eq-ok (some api) f s h = (api, refl)

  api_of_created :
      (op : PendingPrivateOperation) (s : State W) {r : SubmitPrivateOperationResult} {s' : State W}
      → create_relay_request ports op s ≡ (ok r, s')
      → (api : RelayApi W) × (ports.relay_api ≡ some api)
  unfolding create_relay_request
  api_of_created op s h = configured-eq-ok ports.relay_api _ s h

  created-IsSubmitted :
      (op : PendingPrivateOperation) (s : State W) {r : SubmitPrivateOperationResult} {s' : State W}
      → create_relay_request ports op s ≡ (ok r, s')
      → IsSubmitted r
  created-IsSubmitted op s h =
      let (api, a) = api_of_created op s h in
      requested-IsSubmitted api op _ (create_after_save ports api op s a h)

  direct-IsSubmitted :
      (op : PendingPrivateOperation) (s : State W) {r : SubmitPrivateOperationResult} {s' : State W}
      → s.in_flight ≡ []
      → submit_direct_path ports op s ≡ (ok r, s')
      → IsSubmitted r
  unfolding submit_direct_path
  direct-IsSubmitted op s {r} e h =
      let (tx, t, sent, k) = bind-eq-ok _ _ s h in
      let kept : t.in_flight ≡ s.in_flight = unfold ◌>>=◌ in ground arith in
      let ((_, outcome, fallback, retry), _) = complete-Reports ports op tx t (kept ∙ e) k in
      ground arith

  unconfigured-IsSubmitted :
      (op : PendingPrivateOperation) (reason : String) (s : State W)
      {r : SubmitPrivateOperationResult} {s' : State W}
      → save_rejected_without_request ports op reason s ≡ (ok r, s')
      → IsSubmitted r
  unfolding save_rejected_without_request to_submit_result can_offer_direct_submission
      can_retry_relay_attempt ◌>>=◌
  unconfigured-IsSubmitted op reason s h = ground arith

  -- A submission that returns, started with no completion in flight, has been accepted by the
  -- relay, has failed admission, has been rejected or has succeeded; it offers no retry, and direct
  -- submission only after a failed admission.
  pub submit_prepared-IsSubmitted :
      (op : NewPrivateOperation) (s : State W) {r : SubmitPrivateOperationResult} {s' : State W}
      → s.in_flight ≡ []
      → submit_prepared_private_operation ports op s ≡ (ok r, s')
      → IsSubmitted r
  unfolding submit_prepared_private_operation
  submit_prepared-IsSubmitted op s e h =
      let prepared = build_prepared_operation op in
      let refused = save_rejected_without_request ports prepared escrow_relay_unconfigured in
      let sent = submit_direct_path ports prepared in
      let created = create_relay_request ports prepared in
      let direct = should_submit_direct ports op in
      let without_relay = op.escrow_send && not (is_relay_configured (some ports.relay_config)) in
      elim (if-eq-ok without_relay refused (if direct then sent else created) s h) [
        | inl k ↦ unconfigured-IsSubmitted prepared escrow_relay_unconfigured s k
        | inr k ↦ elim (if-eq-ok direct sent created s k) [
          | inl l ↦ direct-IsSubmitted prepared s e l
          | inr l ↦ created-IsSubmitted prepared s l
        ]
      ]
