-- ===== src/Stellar/Policy.antt =====
-- Disclosure rules and the policy adapter (packages/stellar/src/policy/disclosure.ts,
-- disclosure-routes.ts, adapters/policy.ts). The policy's inspection is a parameter.
pub mod Rules
use privacy_layer_confidenti.Base.{
  String, Bool, true, false, ◌||◌, ◌&&◌, Option, none, some, List, [], ◌∷◌, ◌++◌,
}
use privacy_layer_confidenti.Core.Errors.{
  OperationKind, deposit, transfer, withdraw, Disclosure, private_value, public_value,
  DisclosurePolicy, DisclosureField, sender_address_field, recipient_address_field,
  asset_address_field, amount_field, OperationIntent, PrivacySdkError, unsupported_disclosure_error,
  execution_error, Thrown, error_instance,
}
use privacy_layer_confidenti.Core.Operations.{Attempt, answered, raised, Action}
use privacy_layer_confidenti.Core.Prepare.{PolicyAdapter}
use privacy_layer_confidenti.Stellar.Effects.{◌>>=◌, done}
use privacy_layer_confidenti.Stellar.Network.{is_public}

abbrev pub disclosed : DisclosurePolicy → DisclosureField → Disclosure
disclosed d sender_address_field = d.sender_address
disclosed d recipient_address_field = d.recipient_address
disclosed d asset_address_field = d.asset_address
disclosed d amount_field = d.amount

-- An error where the field is private.
abbrev pub reject_private : DisclosureField → String → Disclosure → List PrivacySdkError
reject_private key message private_value =
    unsupported_disclosure_error key private_value (public_value ∷ []) message ∷ []
reject_private key message public_value = []

abbrev route_message : DisclosureField → String
route_message recipient_address_field =
    "Transfers to a public Stellar recipient must publish the recipient address."
route_message asset_address_field =
    "Transfers to a public Stellar recipient must publish the asset identifier."
route_message amount_field =
    "Transfers to a public Stellar recipient must publish the transfer amount."
route_message sender_address_field = "This transfer route requires public disclosure."

abbrev pub reject_fields : DisclosurePolicy → List DisclosureField → List PrivacySdkError
reject_fields d [] = []
reject_fields d (key ∷ keys) =
    reject_private key (route_message key) (disclosed d key) ++ reject_fields d keys

abbrev pub validate_public_recipient_transfer_disclosure : DisclosurePolicy → List PrivacySdkError
validate_public_recipient_transfer_disclosure d =
    reject_fields d (recipient_address_field ∷ asset_address_field ∷ amount_field ∷ [])

abbrev pub is_public_stellar_recipient_transfer : DisclosurePolicy → Bool
is_public_stellar_recipient_transfer d = is_public d.recipient_address

abbrev pub is_public_withdraw_route : DisclosurePolicy → Bool
is_public_withdraw_route d =
    is_public d.recipient_address || is_public d.asset_address || is_public d.amount

abbrev pub reject_private_public_route_fields : DisclosurePolicy → List PrivacySdkError
reject_private_public_route_fields d =
    reject_private asset_address_field "This withdrawal route publishes the asset identifier."
      d.asset_address
    ++ reject_private amount_field "This withdrawal route publishes the withdrawal amount." d.amount

unfoldable pub validate_stellar_disclosure : OperationKind → DisclosurePolicy → List PrivacySdkError
validate_stellar_disclosure transfer d = elim (is_public_stellar_recipient_transfer d) [
  | true ↦ validate_public_recipient_transfer_disclosure d
  | false ↦ []
]
validate_stellar_disclosure withdraw d = elim (is_public_withdraw_route d) [
  | true ↦ reject_private_public_route_fields d
  | false ↦ []
]
validate_stellar_disclosure deposit d =
    reject_private sender_address_field
      "Deposits from a public signer account cannot hide the sender address." d.sender_address

-- `error instanceof Error ? error.message : fallback`. An error of the SDK is no instance of `Error`.
abbrev pub message_or : String → Thrown → String
message_or fallback (error_instance message fields) = message
message_or fallback _ = fallback

abbrev pub policy_check_error : Thrown → PrivacySdkError
policy_check_error thrown =
    execution_error (message_or "Policy inspection failed." thrown) (some "policyCheck") none

-- `policy.inspectOperation(kind, intent)`
abbrev pub Inspection : Type 0 → Type 0
Inspection W = OperationKind → OperationIntent String String → Action W (Unit {0})

module _ {W : Type 0} where
  abbrev pub inspected : Attempt (Unit {0}) × W → Attempt (List PrivacySdkError) × W
  inspected (answered _, w) = (answered [], w)
  inspected (raised thrown, w) = (answered (policy_check_error thrown ∷ []), w)

  abbrev pub run_external_policy :
      OperationKind
      → OperationIntent String String
      → Option (Inspection W)
      → Action W (List PrivacySdkError)
  run_external_policy kind intent none w = (answered [], w)
  run_external_policy kind intent (some inspect) w = inspected (inspect kind intent w)

  unfoldable pub validate_stellar :
      Option (Inspection W)
      → OperationKind
      → OperationIntent String String
      → Action W (List PrivacySdkError)
  unfolding validate_stellar_disclosure
  validate_stellar policy kind intent = do
    errors ← run_external_policy kind intent policy
    done (validate_stellar_disclosure kind intent.disclosure ++ errors)

  abbrev pub create_stellar_policy_adapter : Option (Inspection W) → PolicyAdapter W String String
  create_stellar_policy_adapter policy = record {
    validate_deposit = validate_stellar policy deposit;
    validate_transfer = validate_stellar policy transfer;
    validate_withdraw = validate_stellar policy withdraw;
  }
