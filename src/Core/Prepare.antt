-- ===== src/Core/Prepare.antt =====
-- Preparing an operation (packages/core/src/prepare-privacy-operation.ts,
-- privacy-operation-validation.ts, adapter-privacy-client.ts, adapters.ts).
pub mod Admission
use privacy_layer_confidenti.Base.{
  String, Bool, true, false, ◌||◌, not, Option, none, some, List, [], ◌∷◌, ◌++◌, is_some,
}
use privacy_layer_confidenti.Js.Value.{Value, bigint}
use privacy_layer_confidenti.Core.Errors.{
  OperationKind, deposit, transfer, withdraw, OperationIntent, Dependency, wallet, storage, network,
  policy, PrivacySdkError, missing_dependency_error, invalid_intent_error, Thrown, sdk,
  is_privacy_sdk_error,
}
use privacy_layer_confidenti.Core.Operations.{
  Attempt, answered, raised, Action, PreparedOperation, OperationResult, prepared_operation,
  create_prepared_operation, create_rejected_operation,
}
use Prim.Native.Nat.{ℕ, suc}

pub record NetworkAdapter (W Address Asset Prepared Receipt Options : Type 0) : Type 0 where
  pub prepare_deposit : OperationIntent Address Asset → Action W Prepared
  pub prepare_transfer : OperationIntent Address Asset → Action W Prepared
  pub prepare_withdraw : OperationIntent Address Asset → Action W Prepared
  pub submit : Prepared → Options → Action W Receipt

pub record PolicyAdapter (W Address Asset : Type 0) : Type 0 where
  pub validate_deposit : OperationIntent Address Asset → Action W (List PrivacySdkError)
  pub validate_transfer : OperationIntent Address Asset → Action W (List PrivacySdkError)
  pub validate_withdraw : OperationIntent Address Asset → Action W (List PrivacySdkError)

-- The preparation calls no wallet and no storage: it asks only whether they are there.
pub record PrivacyClientAdapters (W Address Asset Prepared Receipt Options : Type 0) : Type 0 where
  pub has_wallet : Bool
  pub has_storage : Bool
  pub network_adapter : Option (NetworkAdapter W Address Asset Prepared Receipt Options)
  pub policy_adapter : Option (PolicyAdapter W Address Asset)

-- `typeof amount === 'bigint' && amount <= 0n`
abbrev pub not_positive : Value → Bool
not_positive (bigint true n) = true
not_positive (bigint false ℕ.zero) = true
not_positive _ = false

abbrev pub validate_intent_amount : Value → List PrivacySdkError → List PrivacySdkError
validate_intent_amount amount errors = elim (not_positive amount) [
  | true ↦ errors ++ (invalid_intent_error "amount" "Amount must be greater than zero." ∷ [])
  | false ↦ errors
]

abbrev pub required_adapters : OperationKind → List Dependency
required_adapters deposit = network ∷ policy ∷ []
required_adapters _ = network ∷ policy ∷ storage ∷ []

abbrev missing_if : Bool → PrivacySdkError → Option PrivacySdkError
missing_if true e = none
missing_if false e = some e

abbrev add_error : Option PrivacySdkError → List PrivacySdkError → List PrivacySdkError
add_error none es = es
add_error (some e) es = e ∷ es

abbrev pub sdk_errors : List PrivacySdkError → List Thrown
sdk_errors [] = []
sdk_errors (e ∷ es) = sdk e ∷ sdk_errors es

module _ {W Address Asset : Type 0} where
  abbrev pub validate_policy :
      OperationKind
      → OperationIntent Address Asset
      → PolicyAdapter W Address Asset
      → Action W (List PrivacySdkError)
  validate_policy deposit intent p = p.validate_deposit intent
  validate_policy transfer intent p = p.validate_transfer intent
  validate_policy withdraw intent p = p.validate_withdraw intent

module _ {W Address Asset Prepared Receipt Options : Type 0} where
  abbrev pub missing_dependency_error_of :
      PrivacyClientAdapters W Address Asset Prepared Receipt Options
      → Dependency
      → Option PrivacySdkError
  missing_dependency_error_of adapters wallet =
      missing_if adapters.has_wallet (missing_dependency_error wallet "Missing wallet adapter.")
  missing_dependency_error_of adapters storage =
      missing_if adapters.has_storage (missing_dependency_error storage "Missing storage adapter.")
  missing_dependency_error_of adapters network =
      missing_if (is_some adapters.network_adapter)
        (missing_dependency_error network "Missing network adapter.")
  missing_dependency_error_of adapters policy =
      missing_if (is_some adapters.policy_adapter)
        (missing_dependency_error policy "Missing policy adapter.")
  missing_dependency_error_of adapters _ = none

  unfoldable pub collect_missing_dependencies :
      PrivacyClientAdapters W Address Asset Prepared Receipt Options
      → List Dependency
      → List PrivacySdkError
  collect_missing_dependencies adapters [] = []
  collect_missing_dependencies adapters (key ∷ required) =
      add_error (missing_dependency_error_of adapters key)
        (collect_missing_dependencies adapters required)

  abbrev pub prepare_with_network :
      OperationKind
      → OperationIntent Address Asset
      → NetworkAdapter W Address Asset Prepared Receipt Options
      → Action W Prepared
  prepare_with_network deposit intent n = n.prepare_deposit intent
  prepare_with_network transfer intent n = n.prepare_transfer intent
  prepare_with_network withdraw intent n = n.prepare_withdraw intent

  abbrev pub reject_unless_empty :
      List PrivacySdkError
      → Option (OperationResult W Address Asset Prepared Receipt Options)
      → Option (OperationResult W Address Asset Prepared Receipt Options)
  reject_unless_empty [] next = next
  reject_unless_empty (e ∷ es) next = some (create_rejected_operation (sdk_errors (e ∷ es)))

  unfoldable pub validate_operation_request :
      OperationKind
      → OperationIntent Address Asset
      → PrivacyClientAdapters W Address Asset Prepared Receipt Options
      → Option (OperationResult W Address Asset Prepared Receipt Options)
  unfolding collect_missing_dependencies
  validate_operation_request kind intent adapters =
      reject_unless_empty (validate_intent_amount intent.amount [])
        (reject_unless_empty (collect_missing_dependencies adapters (required_adapters kind)) none)

  abbrev pub finish_prepared :
      OperationKind
      → OperationIntent Address Asset
      → NetworkAdapter W Address Asset Prepared Receipt Options
      → Attempt Prepared × W
      → Attempt (OperationResult W Address Asset Prepared Receipt Options) × W
  finish_prepared kind intent n (answered p, w) =
      (answered (prepared_operation (create_prepared_operation kind intent p (n.submit p))), w)
  finish_prepared kind intent n (raised e, w) = elim (is_privacy_sdk_error e) [
    | true ↦ (answered (create_rejected_operation (e ∷ [])), w)
    | false ↦ (raised e, w)
  ]

  unfoldable pub finalize_prepared_operation :
      OperationKind
      → OperationIntent Address Asset
      → NetworkAdapter W Address Asset Prepared Receipt Options
      → Action W (OperationResult W Address Asset Prepared Receipt Options)
  finalize_prepared_operation kind intent n w =
      finish_prepared kind intent n (prepare_with_network kind intent n w)

  abbrev pub after_policy :
      OperationKind
      → OperationIntent Address Asset
      → NetworkAdapter W Address Asset Prepared Receipt Options
      → Attempt (List PrivacySdkError) × W
      → Attempt (OperationResult W Address Asset Prepared Receipt Options) × W
  after_policy kind intent n (raised e, w) = (raised e, w)
  after_policy kind intent n (answered [], w) = finalize_prepared_operation kind intent n w
  after_policy kind intent n (answered (e ∷ es), w) =
      (answered (create_rejected_operation (sdk_errors (e ∷ es))), w)

  abbrev pub prepare_with :
      OperationKind
      → OperationIntent Address Asset
      → Option (PolicyAdapter W Address Asset)
      → Option (NetworkAdapter W Address Asset Prepared Receipt Options)
      → Action W (OperationResult W Address Asset Prepared Receipt Options)
  prepare_with kind intent (some p) (some n) w =
      after_policy kind intent n (validate_policy kind intent p w)
  prepare_with kind intent _ _ w = (
    answered (
        create_rejected_operation
          (sdk (missing_dependency_error network "Missing network adapter.") ∷ [])),
    w,
  )

  unfoldable pub prepare_privacy_operation :
      OperationKind
      → OperationIntent Address Asset
      → PrivacyClientAdapters W Address Asset Prepared Receipt Options
      → Action W (OperationResult W Address Asset Prepared Receipt Options)
  unfolding validate_operation_request finalize_prepared_operation
  prepare_privacy_operation kind intent adapters w =
      elim (validate_operation_request kind intent adapters) [
        | some rejected ↦ (answered rejected, w)
        | none ↦ prepare_with kind intent adapters.policy_adapter adapters.network_adapter w
      ]
