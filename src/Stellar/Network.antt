-- ===== src/Stellar/Network.antt =====
-- Preparing deposits, transfers and withdrawals (packages/stellar/src/adapters/network.ts,
-- transfer-prepare.ts, and `assertPrivateRecordsNullifiersAvailable` of
-- transact/transfer-source/verify-private-records.ts). `crypto.randomUUID()` is a parameter.
pub mod Laws
use Prim.Native.Nat.{Ordering}
use Prim.Native.String.{◌++◌ as str_append}
use privacy_layer_confidenti.Base.{
  String, Bool, true, false, ◌&&◌, Option, none, some, List, [], ◌∷◌,
}
use privacy_layer_confidenti.Js.Value.{str, end, field, obj}
use privacy_layer_confidenti.Js.Text.{trim}
use privacy_layer_confidenti.Core.Errors.{
  OperationKind, deposit, transfer, withdraw, Disclosure, private_value, public_value, sdk,
  insufficient_state_error,
}
use privacy_layer_confidenti.Core.Operations.{Attempt, answered, raised, Action}
use privacy_layer_confidenti.Core.Prepare.{NetworkAdapter}
use privacy_layer_confidenti.Stellar.Int.{ℤ}
use privacy_layer_confidenti.Stellar.Records.{PrivateRecord, PrivateCoinNote, StellarIntent}
use privacy_layer_confidenti.Stellar.Effects.{◌>>=◌, ◌>>◌, done, throw, lift, error_object}
use privacy_layer_confidenti.Stellar.Selection.{
  NullifierCheck, select_private_records, sum_record_amounts, non_empty,
}
use privacy_layer_confidenti.Stellar.Outputs.{
  build_transfer_output_records, build_spend_output_records,
}
use privacy_layer_confidenti.Stellar.Prepared.{
  StellarPreparedOperation, StellarSubmissionPayload, StellarTransactArtifacts, SpendSource,
  private_address_source, StellarStorageAdapter, StellarWalletAdapter, StellarTransactEngine,
}

pub record NetworkDeps (W : Type 0) : Type 0 where
  pub locale_compare : String → String → Ordering
  pub storage : StellarStorageAdapter W
  pub wallet : StellarWalletAdapter W
  pub engine : StellarTransactEngine W
  pub random_uuid : Action W String
  pub check_nullifier_spent : Option (NullifierCheck W)

abbrev pub new_payload : String → StellarSubmissionPayload
new_payload uuid = record { operation_id = uuid; signed = false; tx_hash = none }

abbrev pub spend_artifacts : StellarTransactArtifacts
spend_artifacts = record {
  proof_hex = none;
  public_hex = none;
  ciphertext_hex = none;
  output_note_ephemeral_scalars = none;
  token_address = none;
  deposit_scalar_hex = none;
  precommitement_hex = none;
  commitment_hex = none;
  wallet_public_key = none;
  escrow_recipient = none;
  escrow_authorization = none;
  escrow_send = none;
  escrow_spend_scalar_hex = none;
  execute_finalize_required = none;
  spend_source = some private_address_source;
  zk_config_nonce = none;
}

abbrev pub is_public : Disclosure → Bool
is_public public_value = true
is_public private_value = false

-- `requireCoinNoteFromRecord(record)`
abbrev pub require_coin_note : String → Option PrivateCoinNote → Attempt PrivateCoinNote
require_coin_note id none =
    raised
      (error_object (str_append "Private record " (str_append id " is missing coin note data.")))
require_coin_note id (some note) = answered note

abbrev is_withdraw : OperationKind → Bool
is_withdraw withdraw = true
is_withdraw _ = false

module _ {W : Type 0} where
  abbrev refuse_spent : String → Bool → Action W (Unit {0}) → Action W (Unit {0})
  refuse_spent id true next = throw (
      sdk (
        insufficient_state_error "private_record_nullifier_spent"
          "Private input note nullifier was already spent on-chain."
          (some (obj (field "recordId" (str id) end)))))
  refuse_spent id false next = next

  -- The loop that asks for every record.
  unfoldable pub assert_all_available :
      String → NullifierCheck W → List PrivateRecord → Action W (Unit {0})
  assert_all_available key check [] = done tt
  assert_all_available key check (r ∷ records) = do
    coin ← lift (require_coin_note r.id r.coin_note)
    spent ← check coin.nullifier key (non_empty r.private_address)
    refuse_spent r.id spent (assert_all_available key check records)

  abbrev pub assert_private_records_nullifiers_available :
      String → Option (NullifierCheck W) → List PrivateRecord → Action W (Unit {0})
  assert_private_records_nullifiers_available key none records = done tt
  assert_private_records_nullifiers_available key (some check) records =
      assert_all_available key check records

  -- `resolvePrivateAddressSpend`: the consumed records.
  unfoldable pub resolve_private_address_spend :
      StellarIntent → NetworkDeps W → Action W (List PrivateRecord)
  unfolding select_private_records assert_all_available trim
  resolve_private_address_spend intent deps = do
    address ← deps.wallet.get_address
    consumed ←
        select_private_records deps.locale_compare deps.storage.list_private_records intent
          (some (trim address)) deps.check_nullifier_spent
    assert_private_records_nullifiers_available (trim address) deps.check_nullifier_spent consumed
    done consumed

  -- `prepareTransferOperation` as far as the engine's call.
  unfoldable pub transfer_draft : StellarIntent → NetworkDeps W → Action W StellarPreparedOperation
  unfolding resolve_private_address_spend build_transfer_output_records trim
  transfer_draft intent deps = do
    consumed ← resolve_private_address_spend intent deps
    address ← deps.wallet.get_address
    total ← lift (sum_record_amounts consumed)
    uuid ← deps.random_uuid
    done (record {
      kind = transfer;
      intent = intent;
      consumed_records = consumed;
      output_records = build_transfer_output_records intent total (trim address);
      submission_payload = new_payload uuid;
      transact_artifacts = some spend_artifacts;
    })

  abbrev pub prepare_transfer_operation :
      StellarIntent → NetworkDeps W → Action W StellarPreparedOperation
  prepare_transfer_operation intent deps = do
    prepared ← transfer_draft intent deps
    deps.engine.prepare prepared

  -- A deposit consumes nothing.
  abbrev pub resolve_prepare_consumed_records :
      OperationKind → StellarIntent → NetworkDeps W → Action W (List PrivateRecord)
  resolve_prepare_consumed_records deposit intent deps = done []
  resolve_prepare_consumed_records _ intent deps = do
    address ← deps.wallet.get_address
    select_private_records deps.locale_compare deps.storage.list_private_records intent
        (some (trim address)) deps.check_nullifier_spent

  abbrev pub prepare_wallet_public_key :
      OperationKind → StellarIntent → NetworkDeps W → Action W String
  prepare_wallet_public_key deposit intent deps = done intent.from
  prepare_wallet_public_key _ intent deps = do
    address ← deps.wallet.get_address
    done (trim address)

  -- `prepareOperation` of a deposit or a withdrawal, as far as the engine's call.
  unfoldable pub operation_draft :
      OperationKind → StellarIntent → NetworkDeps W → Action W StellarPreparedOperation
  unfolding select_private_records trim
  operation_draft kind intent deps = do
    consumed ← resolve_prepare_consumed_records kind intent deps
    key ← prepare_wallet_public_key kind intent deps
    total ← lift (sum_record_amounts consumed)
    uuid ← deps.random_uuid
    done (record {
      kind = kind;
      intent = intent;
      consumed_records = consumed;
      output_records =
          build_spend_output_records kind intent.from intent.to intent.asset intent.amount total
            (is_withdraw kind && is_public intent.disclosure.recipient_address) key;
      submission_payload = new_payload uuid;
      transact_artifacts = none;
    })

  abbrev pub prepare_operation :
      OperationKind → StellarIntent → NetworkDeps W → Action W StellarPreparedOperation
  prepare_operation kind intent deps = do
    prepared ← operation_draft kind intent deps
    deps.engine.prepare prepared
