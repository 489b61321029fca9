-- ===== src/Stellar/Tests.antt =====
-- Spending at concrete inputs: a storage of three records, and a wallet, an engine and a policy that
-- answer.
pub mod Executing
pub mod Waiting
pub mod Trees
use Prim.Native.Nat.{Ordering}
use privacy_layer_confidenti.Base.{
  ℕ, String, Bool, true, false, ◌≡◌, refl, Option, none, some, List, [], ◌∷◌, All, arith, ◌≤◌, ◌<◌,
  ◌+◌, ◌*◌,
}
use privacy_layer_confidenti.Js.Text.{trim, starts_with}
use privacy_layer_confidenti.Core.Errors.{
  transfer, withdraw, private_value, public_value, DisclosurePolicy,
}
use privacy_layer_confidenti.Core.Operations.{Attempt, answered, raised, Action}
use privacy_layer_confidenti.Stellar.Int.{ℤ, pos, ◌+ℤ◌, ◌-ℤ◌}
use privacy_layer_confidenti.Stellar.BigInt.{big_int}
use privacy_layer_confidenti.Stellar.Effects.{done}
use privacy_layer_confidenti.Stellar.Sort.{is_after, insert_by, sort_by}
use privacy_layer_confidenti.Stellar.Records.{PrivateRecord, StellarIntent}
use privacy_layer_confidenti.Stellar.Selection.{
  read_record_spend_amount, compare_records_for_spend_selection, pick_from, sum_from,
  select_private_records, spend_amount_covering_protocol_fee,
}
use privacy_layer_confidenti.Stellar.Selection.Arranged.{worth, is_covered}
use privacy_layer_confidenti.Stellar.Selection.Greedy.{
  has_answered, select_private_records-is_covered,
}
use privacy_layer_confidenti.Stellar.Outputs.{
  create_output_record, pending_output_record_id, with_change, recipient_output_owner,
  build_transfer_output_records, build_withdraw_output_records,
}
use privacy_layer_confidenti.Stellar.Outputs.Laws.{spend_amount_bounds}
use privacy_layer_confidenti.Stellar.Prepared.{StellarPreparedOperation}
use privacy_layer_confidenti.Stellar.Network.{
  NetworkDeps, transfer_draft, operation_draft, resolve_private_address_spend, assert_all_available,
  new_payload, spend_artifacts,
}
use privacy_layer_confidenti.Stellar.Network.Laws.{
  IsTransferDraft, IsWithdrawDraft, transfer_draft-IsTransferDraft, operation_draft-IsWithdrawDraft,
}

abbrev pub note_of : ℕ → PrivateRecord
note_of n = record {
  id = "note";
  owner = "GA";
  asset = "XLM";
  amount = pos n;
  consumed = false;
  status = none;
  pool_contract = none;
  commitment_hex = none;
  nullifier_hex = none;
  amount_display = none;
  delivery_id = none;
  private_address = some "stpl1a";
  tx_hash = none;
  coin_note = none;
  deposit_scalar_hex = none;
  precommitement_hex = none;
}

abbrev pub holdings : List PrivateRecord
holdings = note_of 50 ∷ note_of 10 ∷ note_of 60 ∷ []

abbrev pub all_private : DisclosurePolicy
all_private = record {
  sender_address = private_value;
  recipient_address = private_value;
  asset_address = private_value;
  amount = private_value;
}

abbrev all_public : DisclosurePolicy
all_public = record {
  sender_address = public_value;
  recipient_address = public_value;
  asset_address = public_value;
  amount = public_value;
}

abbrev spend_of : DisclosurePolicy → StellarIntent
spend_of disclosure = record {
  from = "stpl1a";
  to = "GB";
  asset = "XLM";
  amount = pos 100;
  disclosure = disclosure;
}

abbrev pub deps : NetworkDeps ℕ
deps = record {
  locale_compare = λ left right. Ordering.eq;
  storage = record {
    list_private_records = λ filter. done holdings;
    save_private_records = λ records. done tt;
    mark_private_records_used = λ records. done tt;
  };
  wallet = record { get_address = done "GA"; sign_transaction_payload = λ payload. done payload };
  engine = record {
    prepare = λ prepared. done prepared;
    submit = λ prepared payload. done (record { operation_id = "tx"; confirmed = true });
  };
  random_uuid = done "u1";
  check_nullifier_spent = none;
}

abbrev pub transfer_made : StellarPreparedOperation
transfer_made = record {
  kind = transfer;
  intent = spend_of all_private;
  consumed_records = note_of 60 ∷ note_of 50 ∷ [];
  output_records =
      create_output_record "GA" (some "GB") "XLM" (pos 100)
      ∷ create_output_record "GA" (some "stpl1a") "XLM" (pos 10)
      ∷ [];
  submission_payload = new_payload "u1";
  transact_artifacts = some spend_artifacts;
}

abbrev withdrawal_made : StellarPreparedOperation
withdrawal_made = record {
  kind = withdraw;
  intent = spend_of all_public;
  consumed_records = note_of 60 ∷ note_of 50 ∷ [];
  output_records = create_output_record "GA" (some "stpl1a") "XLM" (pos 10) ∷ [];
  submission_payload = new_payload "u1";
  transact_artifacts = none;
}

transfer_draft-made : (transfer_draft (spend_of all_private) deps 0).0 ≡ answered transfer_made
unfolding transfer_draft resolve_private_address_spend select_private_records
    compare_records_for_spend_selection read_record_spend_amount spend_amount_covering_protocol_fee
    pick_from sum_from insert_by sort_by is_after starts_with trim ◌+ℤ◌ ◌-ℤ◌
    build_transfer_output_records recipient_output_owner with_change
transfer_draft-made = refl

withdraw_draft-made :
    (operation_draft withdraw (spend_of all_public) deps 0).0 ≡ answered withdrawal_made
unfolding operation_draft select_private_records compare_records_for_spend_selection
    read_record_spend_amount spend_amount_covering_protocol_fee pick_from sum_from insert_by sort_by
    is_after starts_with trim ◌+ℤ◌ ◌-ℤ◌ build_withdraw_output_records with_change
withdraw_draft-made = refl

transfer_draft-IsTransferDraft_example : IsTransferDraft deps (spend_of all_private) transfer_made
transfer_draft-IsTransferDraft_example =
    transfer_draft-IsTransferDraft deps (spend_of all_private) 0 transfer_made transfer_draft-made

operation_draft-IsWithdrawDraft_example : IsWithdrawDraft deps (spend_of all_public) withdrawal_made
operation_draft-IsWithdrawDraft_example =
    operation_draft-IsWithdrawDraft deps (spend_of all_public) 0 withdrawal_made withdraw_draft-made

is_covered_example :
    has_answered
      (select_private_records deps.locale_compare deps.storage.list_private_records
        (spend_of all_private)
        none
        none
        0).0
    ≡ is_covered (spend_amount_covering_protocol_fee (pos 100)) holdings
unfolding worth read_record_spend_amount
is_covered_example =
    select_private_records-is_covered deps.locale_compare deps.storage.list_private_records
      (spend_of all_private) none 0 0 holdings refl (refl, (refl, (refl, tt)))
