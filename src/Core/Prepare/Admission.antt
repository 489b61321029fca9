-- ===== src/Core/Prepare/Admission.antt =====
-- Which operations are prepared, and what a rejected one did
-- (packages/core/src/prepare-privacy-operation.ts).
use privacy_layer_confidenti.Base.{
  Bool, true, false, ◌≡◌, ◌≢◌, refl, ◌↔◌, ◌||◌, not, Option, none, some, List, [], ◌∷◌, arith,
  is_some, if◌then◌else◌,
}
use privacy_layer_confidenti.Core.Errors.{
  OperationKind, deposit, OperationIntent, Thrown, sdk, network, policy, storage,
  missing_dependency_error, invalid_intent_error, PrivacySdkError,
}
use privacy_layer_confidenti.Core.Operations.{
  Attempt, answered, raised, PreparedOperation, prepared_operation, rejected_operation,
  create_prepared_operation,
}
use privacy_layer_confidenti.Core.Prepare.{
  NetworkAdapter, PolicyAdapter, PrivacyClientAdapters, not_positive, collect_missing_dependencies,
  validate_policy, prepare_with_network, validate_operation_request, finalize_prepared_operation,
  finish_prepared, after_policy, prepare_with, prepare_privacy_operation,
}

abbrev pub needs_storage : OperationKind → Bool
needs_storage deposit = false
needs_storage _ = true

abbrev error_unless : Bool → PrivacySdkError → List Thrown → List Thrown
error_unless true e es = es
error_unless false e es = sdk e ∷ es

module _ {W Address Asset Prepared Receipt Options : Type 0} (kind : OperationKind)
    (intent : OperationIntent Address Asset)
    (adapters : PrivacyClientAdapters W Address Asset Prepared Receipt Options) where
  -- A request is let through exactly when its amount is no bigint below one and the network, the
  -- policy and, unless it is a deposit, the storage are there.
  pub validate_operation_request_iff : (validate_operation_request kind intent adapters ≡ none) ↔ (
      (not_positive intent.amount ≡ false)
      × (is_some adapters.network_adapter ≡ true)
      × (is_some adapters.policy_adapter ≡ true)
      × ((adapters.has_storage || not (needs_storage kind)) ≡ true))
  unfolding validate_operation_request collect_missing_dependencies
  validate_operation_request_iff = (λ h. ground arith, λ h. ground arith)

  prepared_by_network :
      (n : NetworkAdapter W Address Asset Prepared Receipt Options) (r : Attempt Prepared × W)
      {w' : W} {op : PreparedOperation W Address Asset Prepared Receipt Options}
      → finish_prepared kind intent n r ≡ (answered (prepared_operation op), w')
      → (prepared : Prepared) × (r ≡ (answered prepared, w'))
        × (op ≡ create_prepared_operation kind intent prepared (n.submit prepared))
  prepared_by_network n (answered p, w) h = (p, ground arith, ground arith)
  prepared_by_network n (raised e, w) h = absurd (ground arith)

  prepared_after_policy :
      (n : NetworkAdapter W Address Asset Prepared Receipt Options)
      (r : Attempt (List PrivacySdkError) × W) {w' : W}
      {op : PreparedOperation W Address Asset Prepared Receipt Options}
      → after_policy kind intent n r ≡ (answered (prepared_operation op), w')
      → (w₁ : W) × (r ≡ (answered [], w₁))
        × (finalize_prepared_operation kind intent n w₁ ≡ (answered (prepared_operation op), w'))
  prepared_after_policy n (answered [], w) h = (w, refl, h)
  prepared_after_policy n (answered (e ∷ es), w) h = absurd (ground arith)
  prepared_after_policy n (raised e, w) h = absurd (ground arith)

  prepared_with :
      (p? : Option (PolicyAdapter W Address Asset))
      (n? : Option (NetworkAdapter W Address Asset Prepared Receipt Options)) (w : W) {w' : W}
      {op : PreparedOperation W Address Asset Prepared Receipt Options}
      → prepare_with kind intent p? n? w ≡ (answered (prepared_operation op), w')
      → (p : PolicyAdapter W Address Asset) × (n : NetworkAdapter W Address Asset Prepared Receipt
          Options)
        × (p? ≡ some p)
        × (n? ≡ some n)
        × (after_policy kind intent n (validate_policy kind intent p w)
            ≡ (answered (prepared_operation op), w'))
  prepared_with (some p) (some n) w h = (p, n, refl, refl, h)
  prepared_with (some p) none w h = absurd (ground arith)
  prepared_with none n? w h = absurd (ground arith)

  validated :
      (w : W) {w' : W} {op : PreparedOperation W Address Asset Prepared Receipt Options}
      → prepare_privacy_operation kind intent adapters w ≡ (answered (prepared_operation op), w')
      → (validate_operation_request kind intent adapters ≡ none)
        × (prepare_with kind intent adapters.policy_adapter adapters.network_adapter w
            ≡ (answered (prepared_operation op), w'))
  unfolding prepare_privacy_operation validate_operation_request
  validated w h = (ground arith, ground arith)

  -- An operation is prepared only when its request is let through, the policy for its kind finds no
  -- error and the network prepares it; it then carries the kind, the intent and what the network
  -- prepared, has not been executed, and submits what was prepared.
  pub prepared_by :
      (w : W) {w' : W} {op : PreparedOperation W Address Asset Prepared Receipt Options}
      → prepare_privacy_operation kind intent adapters w ≡ (answered (prepared_operation op), w')
      → (p : PolicyAdapter W Address Asset) × (n : NetworkAdapter W Address Asset Prepared Receipt
          Options)
        × (w₁ : W) × (prepared : Prepared) × (adapters.policy_adapter ≡ some p)
        × (adapters.network_adapter ≡ some n)
        × (validate_operation_request kind intent adapters ≡ none)
        × (validate_policy kind intent p w ≡ (answered [], w₁))
        × (prepare_with_network kind intent n w₁ ≡ (answered prepared, w'))
        × (op ≡ create_prepared_operation kind intent prepared (n.submit prepared))
  unfolding prepare_privacy_operation finalize_prepared_operation
  prepared_by w {w'} {op} h =
      let (p, n, ep, en, checked) =
        prepared_with adapters.policy_adapter adapters.network_adapter w (validated w h).1 in
      let (w₁, clean, finalized) =
        prepared_after_policy n (validate_policy kind intent p w) checked in
      let (prepared, made, same) =
        prepared_by_network n (prepare_with_network kind intent n w₁) finalized in
      (p, n, w₁, prepared, ep, en, (validated w h).0, clean, made, same)

  -- The errors of a request: a bad amount alone, or else what is missing, in the order of the
  -- network, the policy and the storage.
  unfoldable pub request_errors : List Thrown
  request_errors =
      if not_positive intent.amount
      then sdk (invalid_intent_error "amount" "Amount must be greater than zero.") ∷ []
      else error_unless (is_some adapters.network_adapter)
          (missing_dependency_error network "Missing network adapter.")
          (error_unless (is_some adapters.policy_adapter)
            (missing_dependency_error policy "Missing policy adapter.")
            (error_unless (adapters.has_storage || not (needs_storage kind))
              (missing_dependency_error storage "Missing storage adapter.") []))

  -- A request that is not let through is rejected with exactly its errors, and no adapter is called:
  -- the world is as it was.
  pub refused_untouched :
      (w : W)
      → validate_operation_request kind intent adapters ≢ none
      → prepare_privacy_operation kind intent adapters w
        ≡ (answered (rejected_operation request_errors), w)
  unfolding prepare_privacy_operation validate_operation_request collect_missing_dependencies
      request_errors
  refused_untouched w n = ground arith
