-- ===== src/Relay/Calls/Steps.antt =====
-- Submissions, fallbacks, status reads, retries and resumes make proper calls only.
use privacy_layer_confidenti.Base.{
  String, Bool, true, false, not, ◌||◌, ◌≡◌, refl, Option, none, some, List, [], ◌∷◌, arith, truthy,
  or_default, eq_iff, ◌≢◌,
}
use privacy_layer_confidenti.Relay.Types.{
  PendingPrivateOperation, NewPrivateOperation, RelayRequestStatus,
}
use privacy_layer_confidenti.Relay.Reasons.{Thrown, relay_api_error, error}
use privacy_layer_confidenti.Relay.Policy.{can_offer_direct_submission, can_retry_relay_attempt}
use privacy_layer_confidenti.Relay.Runtime.{ProtocolRelayPorts, RelayApi}
use privacy_layer_confidenti.Relay.Runtime.Runs.{
  Makes, makes_rules, Makes-pure, Makes-fail, Makes-bind, Makes-call, Makes-if,
}
use privacy_layer_confidenti.Relay.Submission.{
  build_prepared_operation, configured, require_relay_api, submit_direct_path, request_relay,
  refuse_admission, create_relay_request, should_submit_direct, submit_prepared_private_operation,
  submit_fallback, submit_direct_fallback, save_admission_failure, save_rejected_without_request,
}
use privacy_layer_confidenti.Relay.Polling.{
  record_status, poll_request, poll_stored, poll_pending_operation,
}
use privacy_layer_confidenti.Relay.Recovery.{
  retry_request, retry_stored, retry_failed_relay_attempt, poll_all, resume_pending_operations,
}
use privacy_layer_confidenti.Relay.Calls.{IsImmediate}
use privacy_layer_confidenti.Relay.Calls.Completions.{
  save-IsImmediate, require-IsImmediate, complete-IsImmediate,
}

module _ {W : Type 0} (ports : ProtocolRelayPorts W) where
  submit_direct-IsImmediate :
      (op : PendingPrivateOperation)
      → can_offer_direct_submission op ≡ true
      → Makes IsImmediate (submit_direct_path ports op)
  unfolding submit_direct_path
  submit_direct-IsImmediate op h = search (makes_rules, (complete-IsImmediate ports))

  configured-IsImmediate : (api : Option (RelayApi W)) → Makes IsImmediate (configured ports api)
  configured-IsImmediate none = search makes_rules
  configured-IsImmediate (some api) = search makes_rules

  require_relay_api-IsImmediate : Makes IsImmediate (require_relay_api ports)
  unfolding require_relay_api
  require_relay_api-IsImmediate = configured-IsImmediate ports.relay_api

  failure-IsImmediate :
      (op : PendingPrivateOperation) (reason : String)
      → Makes IsImmediate (save_admission_failure ports op reason)
  unfolding save_admission_failure
  failure-IsImmediate op reason = search (makes_rules, (save-IsImmediate ports))

  rejection-IsImmediate :
      (op : PendingPrivateOperation) (reason : String)
      → Makes IsImmediate (save_rejected_without_request ports op reason)
  unfolding save_rejected_without_request
  rejection-IsImmediate op reason = search (makes_rules, (save-IsImmediate ports))

  request_relay-IsImmediate :
      (api : RelayApi W) (op : PendingPrivateOperation)
      → Makes IsImmediate (request_relay ports api op)
  unfolding request_relay
  request_relay-IsImmediate api op = search (makes_rules, tt)

  refuse-IsImmediate :
      (op : PendingPrivateOperation) (e : Thrown) → Makes IsImmediate (refuse_admission ports op e)
  unfolding refuse_admission
  refuse-IsImmediate op (relay_api_error e) =
      search (makes_rules, rejection-IsImmediate, failure-IsImmediate)
  refuse-IsImmediate op (error m) = search failure-IsImmediate

  create_relay_request-IsImmediate :
      (op : PendingPrivateOperation) → Makes IsImmediate (create_relay_request ports op)
  unfolding create_relay_request
  create_relay_request-IsImmediate op = search (
    makes_rules,
    require_relay_api-IsImmediate,
    (save-IsImmediate ports),
    request_relay-IsImmediate,
    refuse-IsImmediate,
  )

  prepared-offers_direct :
      (op : NewPrivateOperation)
      → should_submit_direct ports op ≡ true
      → can_offer_direct_submission (build_prepared_operation op) ≡ true
  unfolding should_submit_direct build_prepared_operation can_offer_direct_submission
  prepared-offers_direct op h = ground arith

  pub submit_prepared-IsImmediate :
      (op : NewPrivateOperation) → Makes IsImmediate (submit_prepared_private_operation ports op)
  unfolding submit_prepared_private_operation
  submit_prepared-IsImmediate op = search (
    makes_rules, rejection-IsImmediate, submit_direct-IsImmediate, prepared-offers_direct,
    create_relay_request-IsImmediate,
  )

  fallback_allowed :
      (consent : Bool) (op : PendingPrivateOperation)
      → (not consent || not (can_offer_direct_submission op)) ≡ false
      → can_offer_direct_submission op ≡ true
  fallback_allowed consent op h = ground arith

  submit_fallback-IsImmediate :
      (consent : Bool) (op : PendingPrivateOperation)
      → Makes IsImmediate (submit_fallback ports consent op)
  unfolding submit_fallback
  submit_fallback-IsImmediate consent op =
      Makes-if _ _ _ (λ e. search makes_rules)
        (λ e. submit_direct-IsImmediate op (fallback_allowed consent op e))

  pub submit_direct_fallback-IsImmediate :
      (wallet id : String) (consent : Bool)
      → Makes IsImmediate (submit_direct_fallback ports wallet id consent)
  unfolding submit_direct_fallback
  submit_direct_fallback-IsImmediate wallet id consent =
      search (makes_rules, (require-IsImmediate ports), submit_fallback-IsImmediate)

  record_status-IsImmediate :
      (op : PendingPrivateOperation) (status : RelayRequestStatus)
      → Makes IsImmediate (record_status ports op status)
  unfolding record_status
  record_status-IsImmediate op status =
      search (makes_rules, (save-IsImmediate ports), (complete-IsImmediate ports))

  has_id :
      (id : Option String)
      → truthy id ≡ true
      → (id ≡ some (or_default id "")) × (or_default id "" ≢ "")
  has_id none h = cc
  has_id (some id) h = (refl, ground (arith, eq_iff id ""))

  poll_request-IsImmediate :
      (op : PendingPrivateOperation)
      → truthy op.relay_request_id ≡ true
      → Makes IsImmediate (poll_request ports op)
  unfolding poll_request
  poll_request-IsImmediate op h = Makes-bind _ _ require_relay_api-IsImmediate (λ api.
      Makes-bind _ _ (Makes-call _ _ (λ cs. has_id op.relay_request_id h))
        (record_status-IsImmediate op))

  poll_stored-IsImmediate :
      (op : PendingPrivateOperation) → Makes IsImmediate (poll_stored ports op)
  unfolding poll_stored
  poll_stored-IsImmediate op =
      Makes-if _ _ _ (poll_request-IsImmediate op) (λ e. search makes_rules)

  pub poll-IsImmediate :
      (wallet id : String) → Makes IsImmediate (poll_pending_operation ports wallet id)
  unfolding poll_pending_operation
  poll-IsImmediate wallet id =
      search (makes_rules, (require-IsImmediate ports), poll_stored-IsImmediate)

  retry_request-IsImmediate :
      (wallet id : String) (op : PendingPrivateOperation)
      → can_retry_relay_attempt op ≡ true
      → truthy op.relay_request_id ≡ true
      → Makes IsImmediate (retry_request ports wallet id op)
  unfolding retry_request
  retry_request-IsImmediate wallet id op r h = Makes-bind _ _ require_relay_api-IsImmediate (λ api.
      Makes-bind _ _
        (Makes-call _ _
          (λ cs. let (same, some_id) = has_id op.relay_request_id h in (same, some_id, r)))
        (λ _. search (makes_rules, (save-IsImmediate ports), poll-IsImmediate)))

  retry_offered : (b c : Bool) → (not b || not c) ≡ false → (b ≡ true) × (c ≡ true)
  retry_offered b c h = ground arith

  retry_stored-IsImmediate :
      (wallet id : String) (op : PendingPrivateOperation)
      → Makes IsImmediate (retry_stored ports wallet id op)
  unfolding retry_stored
  retry_stored-IsImmediate wallet id op =
      Makes-if (not (can_retry_relay_attempt op) || not (truthy op.relay_request_id)) _ _
        (λ e. Makes-fail _)
        (λ e. let (r, h) = retry_offered _ _ e in retry_request-IsImmediate wallet id op r h)

  pub retry-IsImmediate :
      (wallet id : String) → Makes IsImmediate (retry_failed_relay_attempt ports wallet id)
  unfolding retry_failed_relay_attempt
  retry-IsImmediate wallet id =
      search (makes_rules, (require-IsImmediate ports), retry_stored-IsImmediate)

  poll_all-IsImmediate :
      (wallet : String) (ops : List PendingPrivateOperation)
      → Makes IsImmediate (poll_all ports wallet ops)
  unfolding poll_all
  poll_all-IsImmediate wallet [] = search makes_rules
  poll_all-IsImmediate wallet (op ∷ ops) =
      Makes-bind _ _ (poll-IsImmediate wallet op.id)
        (λ r. Makes-bind _ _ (poll_all-IsImmediate wallet ops) (λ rs. Makes-pure (r ∷ rs)))

  pub resume-IsImmediate :
      (wallet : String) → Makes IsImmediate (resume_pending_operations ports wallet)
  unfolding resume_pending_operations
  resume-IsImmediate wallet = search (makes_rules, poll_all-IsImmediate, tt)
