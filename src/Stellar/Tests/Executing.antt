-- ===== src/Stellar/Tests/Executing.antt =====
-- An execution whose storage fails, a policy that is asked, and balances, at concrete inputs.
use Prim.Native.Nat.{Ordering}
use privacy_layer_confidenti.Base.{ℕ, String, true, false, ◌≡◌, refl, Option, some, [], ◌∷◌}
use privacy_layer_confidenti.Js.Value.{nan, bigint}
use privacy_layer_confidenti.Core.Errors.{transfer, OperationIntent}
use privacy_layer_confidenti.Core.Operations.{answered, create_prepared_operation}
use privacy_layer_confidenti.Core.Prepare.{
  PrivacyClientAdapters, NetworkAdapter, prepare_privacy_operation,
}
use privacy_layer_confidenti.Stellar.Int.{pos, ◌+ℤ◌}
use privacy_layer_confidenti.Stellar.Effects.{done, throw, error_object}
use privacy_layer_confidenti.Stellar.Sort.{is_after, insert_by, sort_by}
use privacy_layer_confidenti.Stellar.Records.{spent}
use privacy_layer_confidenti.Stellar.Execution.{ExecutionPorts, submit_prepared_operation}
use privacy_layer_confidenti.Stellar.Execution.Phases.{Phase, idle, journaled}
use privacy_layer_confidenti.Stellar.Execution.Order.{Ended, submit_prepared_operation-Ended}
use privacy_layer_confidenti.Stellar.Policy.{
  create_stellar_policy_adapter, run_external_policy, Inspection, validate_stellar,
  validate_stellar_disclosure,
}
use privacy_layer_confidenti.Stellar.Policy.Rules.{
  IsDisclosable, prepare_privacy_operation-IsDisclosable,
}
use privacy_layer_confidenti.Stellar.Balances.{
  PrivateAssetRow, add_to_rows, rows_from, aggregate_private_asset_rows, balance_in, with_status,
}
use privacy_layer_confidenti.Stellar.Balances.Laws.{
  sum_of_rows, aggregate_private_asset_rows-balance, balance_in-with_status,
}
use privacy_layer_confidenti.Stellar.Upsert.{without_ids}
use privacy_layer_confidenti.Stellar.Tests.{transfer_made, all_private, holdings}

-- The storage saves, but does not mark.
abbrev failing_ports : ExecutionPorts ℕ
failing_ports = record {
  create_operation_event_id = done "e1";
  on_event = λ event. done tt;
  aborted = done false;
  sign_transaction_payload = λ payload. done payload;
  submit = λ prepared payload. done (record { operation_id = "tx"; confirmed = true });
  save_private_records = λ records. done tt;
  mark_private_records_used = λ records. throw (error_object "full");
}

submit_prepared_operation-Ended_example :
    (q : Phase) × ((submit_prepared_operation
        (journaled failing_ports)
        transfer_made
        (some idle, 0)).1.0
      ≡ some q)
    × Ended failing_ports transfer_made
        (submit_prepared_operation (journaled failing_ports) transfer_made (some idle, 0)).0
        q
submit_prepared_operation-Ended_example =
    submit_prepared_operation-Ended failing_ports transfer_made 0

abbrev inspection : Option (Inspection ℕ)
inspection = some (λ kind intent. done tt)

abbrev intent : OperationIntent String String
intent = record {
  from = "stpl1a";
  to = "GB";
  asset = "XLM";
  amount = bigint false 100;
  disclosure = all_private;
}

abbrev network : NetworkAdapter ℕ String String String String String
network = record {
  prepare_deposit = λ intent. done "prepared";
  prepare_transfer = λ intent. done "prepared";
  prepare_withdraw = λ intent. done "prepared";
  submit = λ prepared options. done prepared;
}

abbrev adapters : PrivacyClientAdapters ℕ String String String String String
adapters = record {
  has_wallet = true;
  has_storage = true;
  network_adapter = some network;
  policy_adapter = some (create_stellar_policy_adapter inspection);
}

disclosable_example :
    IsDisclosable transfer intent.disclosure
    × (w₁ : ℕ) × (run_external_policy transfer intent inspection 0 ≡ (answered [], w₁))
unfolding prepare_privacy_operation validate_stellar validate_stellar_disclosure
disclosable_example =
    prepare_privacy_operation-IsDisclosable inspection transfer intent adapters 0
      {op = create_prepared_operation transfer intent "prepared" (network.submit "prepared")} refl
      refl

abbrev row : PrivateAssetRow
row = record {
  asset_id = "XLM";
  pool_contract = "";
  total_amount = pos 120;
  total_amount_display = nan;
}

rows_example : sum_of_rows "XLM" (row ∷ []) ≡ balance_in "GA" "XLM" holdings
unfolding aggregate_private_asset_rows rows_from add_to_rows sort_by insert_by is_after ◌+ℤ◌
rows_example =
    aggregate_private_asset_rows-balance (λ a b. nan) (λ n. nan) (λ left right. Ordering.eq)
      holdings "GA" "XLM" (row ∷ []) refl

marked_example :
    balance_in "GA" "XLM" (with_status ("note" ∷ []) spent holdings)
    ≡ balance_in "GA" "XLM" (without_ids ("note" ∷ []) holdings)
marked_example = balance_in-with_status "GA" "XLM" ("note" ∷ []) holdings
