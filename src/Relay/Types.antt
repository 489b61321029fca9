-- ===== src/Relay/Types.antt =====
-- The relay runtime's data (packages/relay/src/types.ts): the submission paths, the relay's
-- lifecycle statuses, the phases of a pending operation, and the records that the ports exchange.
use privacy_layer_confidenti.Base.{String, Bool, Option, List}
use privacy_layer_confidenti.Js.Value.{Number}

pub data SubmissionPath : Type 0 where
  direct relay : SubmissionPath

pub data RelayLifecycleStatus : Type 0 where
  accepted validating queued submitted reconciling succeeded rejected failed : RelayLifecycleStatus

pub data PendingOperationPhase : Type 0 where
  prepared relay_accepted admission_failed succeeded rejected failed : PendingOperationPhase
  settlement_timed_out : PendingOperationPhase

pub record RelayPackageJson : Type 0 where
  pub version : Number
  pub pool_selector : String
  pub zk_config_nonce : String
  pub proof_bytes : String
  pub public_signals : String
  pub application_id_hints : List String
  pub ciphertext_bytes : Option String
  pub output_note_ephemeral_scalars : Option (List String)
  pub escrow_authorization : Option String
  pub key_version_hints : Option (List (Option Number))

pub data OperationKind : Type 0 where
  deposit transfer withdraw : OperationKind

pub record SafeDisplayMetadata : Type 0 where
  pub kind : OperationKind
  pub asset_id : String
  pub amount_display : Number
  pub counterparty : String
  pub sender_private_address : String

pub record DeliveryOutboxEntry : Type 0 where
  pub recipient_private_address : String
  pub commitment_hex : String
  pub coin_note : List (String × String)
  pub deposit_scalar_hex : String
  pub precommitement_hex : Option String
  pub asset_id : String
  pub amount_display : Number

pub record SdkFinalizationSnapshot : Type 0 where
  pub consumed_record_ids : List String
  pub output_records : List DeliveryOutboxEntry

-- `escrowSend?: boolean` is read by its truth value only, so `undefined` and `false` are one.
pub record PendingPrivateOperation : Type 0 where
  pub id : String
  pub wallet_public_key : String
  pub phase : PendingOperationPhase
  pub retry_allowed : Bool
  pub display : SafeDisplayMetadata
  pub snapshot : SdkFinalizationSnapshot
  pub delivery_outbox : List DeliveryOutboxEntry
  pub relay_package : RelayPackageJson
  pub finalized : Bool
  pub deliveries_drained : Bool
  pub transaction_persisted : Bool
  pub escrow_send : Bool
  pub relay_request_id : Option String
  pub relay_status : Option RelayLifecycleStatus
  pub public_reason : Option String
  pub transaction_hash : Option String

pub record RelayRequestAccepted : Type 0 where
  pub relay_request_id : String
  pub status : String
  pub created_at : String
  pub status_url : String

pub record RelayRequestStatus : Type 0 where
  pub relay_request_id : String
  pub status : String
  pub created_at : String
  pub updated_at : String
  pub retry_allowed : Bool
  pub attempt_number : Option Number
  pub transaction_hash : Option String
  pub public_reason : Option String

pub record NewPrivateOperation : Type 0 where
  pub id : String
  pub wallet_public_key : String
  pub submission_path : SubmissionPath
  pub display : SafeDisplayMetadata
  pub snapshot : SdkFinalizationSnapshot
  pub delivery_outbox : List DeliveryOutboxEntry
  pub relay_package : RelayPackageJson
  pub escrow_send : Bool

pub record SubmitPrivateOperationResult : Type 0 where
  pub outcome : PendingOperationPhase
  pub operation : PendingPrivateOperation
  pub tx_id : Option String
  pub coin_delivery_warning : Option String
  pub fallback_allowed : Bool
  pub retry_allowed : Bool
