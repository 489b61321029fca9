-- ===== src/Stellar/Records.antt =====
-- Private records (packages/stellar/src/state/domain/types.ts). A `bigint` is an integer, and an
-- optional property an option.
use privacy_layer_confidenti.Base.{String, Bool, Option}
use privacy_layer_confidenti.Js.Value.{Number}
use privacy_layer_confidenti.Core.Errors.{DisclosurePolicy}
use privacy_layer_confidenti.Stellar.Int.{ℤ}

pub data PrivateRecordStatus : Type 0 where
  pending finalized spent : PrivateRecordStatus

pub record PrivateCoinNote : Type 0 where
  pub value : String
  pub nullifier : String
  pub secret : String
  pub commitment : String
  pub asset_hi : String
  pub asset_lo : String
  pub application_id : Option String

pub record PrivateRecord : Type 0 where
  pub id : String
  pub owner : String
  pub asset : String
  pub amount : ℤ
  pub consumed : Bool
  pub status : Option PrivateRecordStatus
  pub pool_contract : Option String
  pub commitment_hex : Option String
  pub nullifier_hex : Option String
  pub amount_display : Option Number
  pub delivery_id : Option Number
  pub private_address : Option String
  pub tx_hash : Option String
  pub coin_note : Option PrivateCoinNote
  pub deposit_scalar_hex : Option String
  pub precommitement_hex : Option String

-- The filter of `listPrivateRecords`.
pub record RecordFilter : Type 0 where
  pub owner : Option String
  pub private_address : Option String
  pub asset : Option String

-- The intents of the three kinds: their `from`, `to`, `asset` and `amount` are texts and a bigint.
pub record StellarIntent : Type 0 where
  pub from : String
  pub to : String
  pub asset : String
  pub amount : ℤ
  pub disclosure : DisclosurePolicy
