-- ===== src/Stellar/Outputs.antt =====
-- The records that an operation creates (packages/stellar/src/adapters/transfer-output-records.ts, and
-- `buildSpendOutputRecords` of adapters/record-selection.ts).
pub mod Laws
use Prim.Native.String.{◌++◌ as str_append}
use privacy_layer_confidenti.Base.{
  String, Bool, true, false, Option, none, some, List, [], ◌∷◌, ◌++◌,
}
use privacy_layer_confidenti.Js.Text.{trim}
use privacy_layer_confidenti.Core.Errors.{
  OperationKind, deposit, Disclosure, private_value, public_value,
}
use privacy_layer_confidenti.Core.State.Serialization.{bigint_text}
use privacy_layer_confidenti.Stellar.Int.{ℤ, pos, negsuc, ◌-ℤ◌, ltb_ℤ}
use privacy_layer_confidenti.Stellar.Records.{PrivateRecord, StellarIntent}
use privacy_layer_confidenti.Stellar.Selection.{non_empty}
use privacy_layer_confidenti.Base.{suc}

-- `${amount}`
abbrev pub int_text : ℤ → String
int_text (pos n) = bigint_text false n
int_text (negsuc n) = bigint_text true (suc n)

unfoldable pub pending_output_record_id : String → String → ℤ → String
unfolding bigint_text
pending_output_record_id owner asset amount =
    str_append "pending-output:"
      (str_append owner (str_append ":" (str_append asset (str_append ":" (int_text amount)))))

unfoldable pub create_output_record : String → Option String → String → ℤ → PrivateRecord
unfolding pending_output_record_id
create_output_record owner private_address asset amount = record {
  id = pending_output_record_id owner asset amount;
  owner = owner;
  asset = asset;
  amount = amount;
  consumed = false;
  status = none;
  pool_contract = none;
  commitment_hex = none;
  nullifier_hex = none;
  amount_display = none;
  delivery_id = none;
  private_address = non_empty private_address;
  tx_hash = none;
  coin_note = none;
  deposit_scalar_hex = none;
  precommitement_hex = none;
}

-- The owner and the private address of a transfer's recipient.
unfoldable pub recipient_output_owner : StellarIntent → String → String × Option String
unfolding trim
recipient_output_owner intent wallet_public_key = elim intent.disclosure.recipient_address [
  | public_value ↦ (trim intent.to, none)
  | private_value ↦ (wallet_public_key, some (trim intent.to))
]

-- The change goes back to the private address that it came from. `from` is a text, so it is taken
-- for a private address.
unfoldable pub with_change :
    (wallet_public_key from asset : String) → ℤ → List PrivateRecord → List PrivateRecord
unfolding create_output_record
with_change wallet_public_key from asset change_amount outputs =
    elim (ltb_ℤ (pos 0) change_amount) [
      | true ↦
          outputs ++ (create_output_record wallet_public_key (some from) asset change_amount ∷ [])
      | false ↦ outputs
    ]

unfoldable pub build_transfer_output_records :
    StellarIntent → (consumed_total : ℤ) → (wallet_public_key : String) → List PrivateRecord
unfolding recipient_output_owner with_change create_output_record
build_transfer_output_records intent consumed_total wallet_public_key =
    let owner = recipient_output_owner intent wallet_public_key in
    with_change wallet_public_key intent.from intent.asset (consumed_total -ℤ intent.amount)
      (create_output_record owner.0 owner.1 intent.asset intent.amount ∷ [])

-- A withdrawal to a disclosed recipient leaves only the change.
unfoldable pub build_withdraw_output_records :
    (from to asset : String) (amount consumed_total : ℤ) (recipient_disclosed_publicly : Bool)
    (wallet_public_key : String)
    → List PrivateRecord
unfolding with_change create_output_record trim
build_withdraw_output_records from to asset amount consumed_total true wallet_public_key =
    with_change wallet_public_key (trim from) asset (consumed_total -ℤ amount) []
build_withdraw_output_records from to asset amount consumed_total false wallet_public_key =
    with_change wallet_public_key from asset (consumed_total -ℤ amount)
      (create_output_record to none asset amount ∷ [])

abbrev pub build_deposit_output_records :
    (owner private_address asset : String) → ℤ → List PrivateRecord
build_deposit_output_records owner private_address asset amount =
    create_output_record owner (some private_address) asset amount ∷ []

abbrev pub build_spend_output_records :
    OperationKind
    → (from to asset : String) (amount consumed_total : ℤ) (recipient_disclosed_publicly : Bool)
      (wallet_public_key : String)
    → List PrivateRecord
build_spend_output_records deposit from to asset amount total disclosed wallet_public_key =
    build_deposit_output_records wallet_public_key to asset amount
build_spend_output_records _ from to asset amount total disclosed wallet_public_key =
    build_withdraw_output_records from to asset amount total disclosed wallet_public_key
