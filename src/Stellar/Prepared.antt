-- ===== src/Stellar/Prepared.antt =====
-- Prepared operations (packages/stellar/src/types.ts).
use privacy_layer_confidenti.Base.{String, Bool, Option, List}
use privacy_layer_confidenti.Core.Errors.{OperationKind}
use privacy_layer_confidenti.Core.Operations.{Action}
use privacy_layer_confidenti.Stellar.Int.{ℤ}
use privacy_layer_confidenti.Stellar.Records.{PrivateRecord, RecordFilter, StellarIntent}

pub record StellarSubmissionPayload : Type 0 where
  pub operation_id : String
  pub signed : Bool
  pub tx_hash : Option String

pub data SpendSource : Type 0 where
  private_address_source escrow_source : SpendSource

pub record StellarTransactArtifacts : Type 0 where
  pub proof_hex : Option String
  pub public_hex : Option String
  pub ciphertext_hex : Option String
  pub output_note_ephemeral_scalars : Option (List String)
  pub token_address : Option String
  pub deposit_scalar_hex : Option String
  pub precommitement_hex : Option String
  pub commitment_hex : Option String
  pub wallet_public_key : Option String
  pub escrow_recipient : Option String
  pub escrow_authorization : Option String
  pub escrow_send : Option Bool
  pub escrow_spend_scalar_hex : Option String
  pub execute_finalize_required : Option Bool
  pub spend_source : Option SpendSource
  pub zk_config_nonce : Option ℤ

pub record StellarPreparedOperation : Type 0 where
  pub kind : OperationKind
  pub intent : StellarIntent
  pub consumed_records : List PrivateRecord
  pub output_records : List PrivateRecord
  pub submission_payload : StellarSubmissionPayload
  pub transact_artifacts : Option StellarTransactArtifacts

pub record StellarOperationReceipt : Type 0 where
  pub operation_id : String
  pub confirmed : Bool

-- Of the wallet, the storage and the engine, what the package's modelled code calls.
pub record StellarWalletAdapter (W : Type 0) : Type 0 where
  pub get_address : Action W String
  pub sign_transaction_payload : StellarSubmissionPayload → Action W StellarSubmissionPayload

pub record StellarStorageAdapter (W : Type 0) : Type 0 where
  pub list_private_records : RecordFilter → Action W (List PrivateRecord)
  pub save_private_records : List PrivateRecord → Action W (Unit {0})
  pub mark_private_records_used : List PrivateRecord → Action W (Unit {0})

pub record StellarTransactEngine (W : Type 0) : Type 0 where
  pub prepare : StellarPreparedOperation → Action W StellarPreparedOperation
  pub submit :
      StellarPreparedOperation → StellarSubmissionPayload → Action W StellarOperationReceipt
