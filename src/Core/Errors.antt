-- ===== src/Core/Errors.antt =====
-- Intents, disclosure policies and errors of the core (packages/core/src/intents.ts, disclosure.ts,
-- errors.ts). The `code` of an error is its constructor.
use privacy_layer_confidenti.Base.{String, Bool, true, false, Option, List, [], ◌∷◌}
use privacy_layer_confidenti.Js.Value.{Value, Fields}
use privacy_layer_confidenti.Js.Fields.{get_field}

pub data OperationKind : Type 0 where
  deposit transfer withdraw : OperationKind

pub data Disclosure : Type 0 where
  private_value public_value : Disclosure

pub record DisclosurePolicy : Type 0 where
  pub sender_address : Disclosure
  pub recipient_address : Disclosure
  pub asset_address : Disclosure
  pub amount : Disclosure

-- The keys of a disclosure policy.
pub data DisclosureField : Type 0 where
  sender_address_field recipient_address_field asset_address_field amount_field : DisclosureField

abbrev pub disclosure_policy_fields : List DisclosureField
disclosure_policy_fields =
    sender_address_field ∷ recipient_address_field ∷ asset_address_field ∷ amount_field ∷ []

-- The intents of the three kinds have the same fields. Only the amount is looked at.
pub record OperationIntent (Address Asset : Type 0) : Type 0 where
  pub from : Address
  pub to : Address
  pub asset : Asset
  pub amount : Value
  pub disclosure : DisclosurePolicy

pub data Dependency : Type 0 where
  wallet storage state network crypto policy : Dependency

-- Each with its fields, the message and `recoverable` after them, and `details` where it has some.
pub data PrivacySdkError : Type 0 where
  unsupported_operation :
      (operation message : String) (recoverable : Bool) (details : Option Value) → PrivacySdkError
  unsupported_disclosure :
      (disclosure_field : DisclosureField) (requested : Disclosure) (supported : List Disclosure)
      (message : String) (recoverable : Bool)
      → PrivacySdkError
  missing_dependency :
      (dependency : Dependency) (message : String) (recoverable : Bool) → PrivacySdkError
  invalid_intent : (intent_field message : String) (recoverable : Bool) → PrivacySdkError
  insufficient_state :
      (reason message : String) (recoverable : Bool) (details : Option Value) → PrivacySdkError
  user_rejected : (message : String) (recoverable : Bool) → PrivacySdkError
  execution_failed :
      (message : String) (stage : Option String) (recoverable : Bool) (details : Option Value)
      → PrivacySdkError

abbrev pub unsupported_operation_error : String → String → Option Value → PrivacySdkError
unsupported_operation_error operation message details =
    unsupported_operation operation message false details

abbrev pub unsupported_disclosure_error :
    DisclosureField → Disclosure → List Disclosure → String → PrivacySdkError
unsupported_disclosure_error disclosure_field requested supported message =
    unsupported_disclosure disclosure_field requested supported message true

abbrev pub missing_dependency_error : Dependency → String → PrivacySdkError
missing_dependency_error dependency message = missing_dependency dependency message true

abbrev pub invalid_intent_error : String → String → PrivacySdkError
invalid_intent_error intent_field message = invalid_intent intent_field message true

abbrev pub insufficient_state_error : String → String → Option Value → PrivacySdkError
insufficient_state_error reason message details = insufficient_state reason message true details

abbrev pub user_rejected_error : String → PrivacySdkError
user_rejected_error message = user_rejected message true

abbrev pub execution_error : String → Option String → Option Value → PrivacySdkError
execution_error message stage details = execution_failed message stage false details

-- What code may throw: an error of the SDK, which is a plain object; an instance of `Error`, with its
-- message and further fields; or any other value.
pub data Thrown : Type 0 where
  sdk : PrivacySdkError → Thrown
  error_instance : (message : String) (fields : Fields) → Thrown
  foreign : Value → Thrown

abbrev is_string : Value → Bool
is_string (Value.str s) = true
is_string _ = false

-- An object with a string as its `code`, whoever made it.
abbrev pub is_privacy_sdk_error : Thrown → Bool
is_privacy_sdk_error (sdk e) = true
is_privacy_sdk_error (error_instance message fields) = is_string (get_field "code" fields)
is_privacy_sdk_error (foreign (Value.obj fields)) = is_string (get_field "code" fields)
is_privacy_sdk_error (foreign v) = false
