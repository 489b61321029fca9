-- ===== src/Stellar/Execution.antt =====
-- Executing a prepared operation (packages/stellar/src/transact/engine/execution/submit-prepared.ts),
-- with the events and the abort signal of packages/core/src/events.ts. The listener, the signal, the
-- wallet, the engine and the storage are the ports of an execution.
pub mod Phases
pub mod Order
use privacy_layer_confidenti.Base.{
  String, Bool, true, false, Option, none, some, List, [], ◌∷◌, if◌then◌else◌,
}
use privacy_layer_confidenti.Js.Value.{
  Value, bool, num, str, obj, Number, finite, Exponent, up, Fields, end, field,
}
use privacy_layer_confidenti.Js.Fields.{get_field}
use privacy_layer_confidenti.Core.Errors.{
  PrivacySdkError, execution_error, user_rejected_error, Thrown, sdk, error_instance, foreign,
  is_privacy_sdk_error,
}
use privacy_layer_confidenti.Core.Operations.{Attempt, answered, raised, Action}
use privacy_layer_confidenti.Stellar.Effects.{◌>>=◌, ◌>>◌, done, throw, try_catch}
use privacy_layer_confidenti.Stellar.Records.{PrivateRecord, PrivateRecordStatus, finalized}
use privacy_layer_confidenti.Stellar.Prepared.{
  StellarPreparedOperation, StellarSubmissionPayload, StellarOperationReceipt,
}
use privacy_layer_confidenti.Stellar.Policy.{message_or}

pub data OperationStage : Type 0 where
  validation state_read authorization preparation policy_check : OperationStage
  submission confirmation storage_commit : OperationStage

pub data OperationEventStatus : Type 0 where
  begins progress ends : OperationEventStatus
  fails : Thrown → OperationEventStatus

-- Of an event, what this code fills in; the listener's time stamp is left aside.
pub record OperationEvent : Type 0 where
  pub id : String
  pub stage : OperationStage
  pub status : OperationEventStatus

pub record ExecutionPorts (W : Type 0) : Type 0 where
  pub create_operation_event_id : Action W String
  pub on_event : OperationEvent → Action W (Unit {0})
  pub aborted : Action W Bool
  pub sign_transaction_payload : StellarSubmissionPayload → Action W StellarSubmissionPayload
  pub submit :
      StellarPreparedOperation → StellarSubmissionPayload → Action W StellarOperationReceipt
  pub save_private_records : List PrivateRecord → Action W (Unit {0})
  pub mark_private_records_used : List PrivateRecord → Action W (Unit {0})

-- `DOMException('Operation aborted', 'AbortError')`, whose code is the number 20.
abbrev pub abort_error : Thrown
abort_error = error_instance "Operation aborted" (field "code" (num (finite false 5 (up 2))) end)

abbrev pub pre_submission_stages : List OperationStage
pre_submission_stages = validation ∷ state_read ∷ authorization ∷ preparation ∷ policy_check ∷ []

abbrev status_after :
    StellarOperationReceipt → Option PrivateRecordStatus → Option PrivateRecordStatus
status_after receipt status = if receipt.confirmed then some finalized else status

-- The output records as they are saved: with the receipt's transaction, and final once it is confirmed.
abbrev pub with_receipt : StellarOperationReceipt → List PrivateRecord → List PrivateRecord
with_receipt receipt [] = []
with_receipt receipt (r ∷ rs) =
    record r { tx_hash = some receipt.operation_id; status = status_after receipt r.status }
    ∷ with_receipt receipt rs

abbrev pub to_submission_error : Thrown → Thrown
to_submission_error thrown = elim (is_privacy_sdk_error thrown) [
  | true ↦ thrown
  | false ↦ sdk (execution_error (message_or "Execution failed." thrown) (some "submission") none)
]

-- `error.message` of an object that has a code.
abbrev message_of : Value → String
message_of (str message) = message
message_of _ = "undefined"

-- `error.message`
abbrev sdk_message : PrivacySdkError → String
sdk_message (PrivacySdkError.unsupported_operation operation message recoverable details) = message
sdk_message (PrivacySdkError.unsupported_disclosure key requested supported message recoverable) =
    message
sdk_message (PrivacySdkError.missing_dependency dependency message recoverable) = message
sdk_message (PrivacySdkError.invalid_intent key message recoverable) = message
sdk_message (PrivacySdkError.insufficient_state reason message recoverable details) = message
sdk_message (PrivacySdkError.user_rejected message recoverable) = message
sdk_message (PrivacySdkError.execution_failed message stage recoverable details) = message

abbrev pub storage_commit_failure_message : Thrown → String
storage_commit_failure_message (sdk e) = sdk_message e
storage_commit_failure_message (error_instance message fields) = message
storage_commit_failure_message (foreign (obj fields)) =
    elim (is_privacy_sdk_error (foreign (obj fields))) [
      | true ↦ message_of (get_field "message" fields)
      | false ↦ "Storage commit failed."
    ]
storage_commit_failure_message (foreign v) = "Storage commit failed."

abbrev receipt_details : StellarOperationReceipt → Value
receipt_details receipt = obj (
    field "receipt"
      (obj (
        field "operationId" (str receipt.operation_id)
          (field "confirmed" (bool receipt.confirmed) end)))
      end)

abbrev pub storage_commit_error : StellarOperationReceipt → Thrown → Thrown
storage_commit_error receipt thrown = sdk (
    execution_error (storage_commit_failure_message thrown) (some "storageCommit")
      (some (receipt_details receipt)))

module _ {W : Type 0} (ports : ExecutionPorts W) where
  abbrev pub emit : String → OperationStage → OperationEventStatus → Action W (Unit {0})
  emit id stage status = ports.on_event (record { id = id; stage = stage; status = status })

  abbrev throw_if_aborted : Bool → Action W (Unit {0})
  throw_if_aborted true = throw abort_error
  throw_if_aborted false = done tt

  abbrev pub assert_not_aborted : Action W (Unit {0})
  assert_not_aborted = ports.aborted >>= throw_if_aborted

  unfoldable pub emit_stages : String → List OperationStage → Action W (Unit {0})
  emit_stages id [] = done tt
  emit_stages id (stage ∷ stages) = do
    assert_not_aborted
    emit id stage begins
    emit id stage ends
    emit_stages id stages

  abbrev pub emit_pre_submission_stages : String → Action W (Unit {0})
  emit_pre_submission_stages id = emit_stages id pre_submission_stages

  unfoldable pub sign_submission_payload :
      StellarPreparedOperation → Action W StellarSubmissionPayload
  sign_submission_payload prepared =
      try_catch (ports.sign_transaction_payload prepared.submission_payload) λ thrown.
        throw (sdk (user_rejected_error (message_or "Wallet rejected the transaction." thrown)))

  unfoldable pub submit_and_confirm :
      StellarPreparedOperation
      → String
      → StellarSubmissionPayload
      → Action W StellarOperationReceipt
  submit_and_confirm prepared id signed = do
    assert_not_aborted
    emit id submission begins
    receipt ← ports.submit prepared signed
    emit id submission ends
    emit id confirmation begins
    emit id confirmation ends
    done receipt

  abbrev save_outputs : StellarOperationReceipt → List PrivateRecord → Action W (Unit {0})
  save_outputs receipt [] = done tt
  save_outputs receipt (r ∷ rs) = ports.save_private_records (with_receipt receipt (r ∷ rs))

  abbrev mark_consumed : List PrivateRecord → Action W (Unit {0})
  mark_consumed [] = done tt
  mark_consumed (r ∷ rs) = ports.mark_private_records_used (r ∷ rs)

  unfoldable pub commit_storage_changes :
      StellarPreparedOperation → String → StellarOperationReceipt → Action W (Unit {0})
  commit_storage_changes prepared id receipt = do
    emit id storage_commit begins
    save_outputs receipt prepared.output_records
    mark_consumed prepared.consumed_records
    emit id storage_commit ends

  unfoldable pub handle_storage_commit_failure :
      String → StellarOperationReceipt → Thrown → Action W (Unit {0})
  handle_storage_commit_failure id receipt thrown = do
    emit id storage_commit (fails (storage_commit_error receipt thrown))
    throw (storage_commit_error receipt thrown)

  unfoldable pub handle_submission_failure : String → Thrown → Action W StellarOperationReceipt
  handle_submission_failure id thrown = do
    emit id submission (fails (to_submission_error thrown))
    throw (to_submission_error thrown)

  -- The body of the outer `try`.
  unfoldable pub submit_steps : StellarPreparedOperation → String → Action W StellarOperationReceipt
  unfolding emit_stages sign_submission_payload submit_and_confirm commit_storage_changes
      handle_storage_commit_failure
  submit_steps prepared id = do
    emit_pre_submission_stages id
    signed ← sign_submission_payload prepared
    receipt ← submit_and_confirm prepared id signed
    try_catch (commit_storage_changes prepared id receipt)
        (handle_storage_commit_failure id receipt)
    done receipt

  unfoldable pub submit_prepared_operation :
      StellarPreparedOperation → Action W StellarOperationReceipt
  unfolding submit_steps handle_submission_failure
  submit_prepared_operation prepared = do
    id ← ports.create_operation_event_id
    try_catch (submit_steps prepared id) (handle_submission_failure id)
