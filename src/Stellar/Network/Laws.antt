-- ===== src/Stellar/Network/Laws.antt =====
-- What prepared transfers and withdrawals hold (packages/stellar/src/adapters/transfer-prepare.ts,
-- network.ts).
use privacy_layer_confidenti.Base.{
  ◌≡◌, sym, ap, ◌∙◌, if◌then◌else◌, String, Option, some, List, arith,
}
use privacy_layer_confidenti.Js.Text.{trim}
use privacy_layer_confidenti.Core.Errors.{withdraw}
use privacy_layer_confidenti.Core.Operations.{answered}
use privacy_layer_confidenti.Stellar.Int.{ℤ, ◌-ℤ◌, ◌≤ℤ◌}
use privacy_layer_confidenti.Stellar.Effects.{
  lift, answered_inj, Ensures, Ensures-bind, Ensures-done,
}
use privacy_layer_confidenti.Stellar.Records.{PrivateRecord, StellarIntent}
use privacy_layer_confidenti.Stellar.Selection.{select_private_records, sum_record_amounts}
use privacy_layer_confidenti.Stellar.Selection.Selected.{IsSpend, select_private_records-IsSpend}
use privacy_layer_confidenti.Stellar.Outputs.Laws.{
  total_amount, total_amount-build_transfer, total_amount-build_withdraw, le-spend_amount,
}
use privacy_layer_confidenti.Stellar.Prepared.{StellarPreparedOperation}
use privacy_layer_confidenti.Stellar.Network.{
  NetworkDeps, transfer_draft, operation_draft, resolve_private_address_spend, is_public,
  resolve_prepare_consumed_records, prepare_wallet_public_key,
}

module _ {W : Type 0} (deps : NetworkDeps W) (intent : StellarIntent) where
  abbrev pub Spends : List PrivateRecord → Type 0
  Spends = IsSpend deps.locale_compare deps.storage.list_private_records intent

  selected :
      (key : Option String)
      → Ensures Spends (
          select_private_records deps.locale_compare deps.storage.list_private_records intent key
            deps.check_nullifier_spent)
  selected key =
      select_private_records-IsSpend deps.locale_compare deps.storage.list_private_records intent
        key deps.check_nullifier_spent

  resolved : Ensures Spends (resolve_private_address_spend intent deps)
  unfolding resolve_private_address_spend
  resolved = Ensures-bind Spends deps.wallet.get_address _ λ _ address _.
      Ensures-bind Spends _ _ λ w consumed found.
        Ensures-bind Spends _ _
          λ _ _ _. Ensures-done Spends consumed (selected (some (trim address)) w consumed found)

  -- The draft of a transfer spends what it consumes, and its outputs are worth as much.
  abbrev pub IsTransferDraft : StellarPreparedOperation → Type 0
  IsTransferDraft p =
      Spends p.consumed_records
      × (sum_record_amounts p.consumed_records ≡ answered (total_amount p.output_records))

  le-total :
      (consumed : List PrivateRecord) (total : ℤ)
      → Spends consumed
      → sum_record_amounts consumed ≡ answered total
      → intent.amount ≤ℤ total
  le-total consumed total s sum =
      let same : s.cover.total ≡ total = answered_inj (sym s.cover.total_lem ∙ sum) in
      rw (← same) (omega (arith, s.cover.covers, le-spend_amount intent.amount))

  transfer_ensures : Ensures IsTransferDraft (transfer_draft intent deps)
  unfolding transfer_draft
  transfer_ensures =
      Ensures-bind IsTransferDraft (resolve_private_address_spend intent deps) _ λ w consumed found.
        Ensures-bind IsTransferDraft deps.wallet.get_address _ λ _ address _.
          Ensures-bind IsTransferDraft (lift (sum_record_amounts consumed)) _ λ _ total sum.
            Ensures-bind IsTransferDraft deps.random_uuid _ λ _ uuid _.
              let spends = resolved w consumed found in
              Ensures-done IsTransferDraft _ (
                spends,
                sum
                    ∙ ap answered (
                        sym (
                          total_amount-build_transfer intent total (trim address)
                            (le-total consumed total spends sum))),
              )

  -- A withdrawal's outputs are worth as much if its recipient is private; otherwise its amount less.
  abbrev pub IsWithdrawDraft : StellarPreparedOperation → Type 0
  IsWithdrawDraft p =
      Spends p.consumed_records
      × (total : ℤ) × (sum_record_amounts p.consumed_records ≡ answered total)
      × (total_amount p.output_records ≡ (
          if is_public intent.disclosure.recipient_address then total -ℤ intent.amount else total))

  consumed_of_withdraw : Ensures Spends (resolve_prepare_consumed_records withdraw intent deps)
  consumed_of_withdraw =
      Ensures-bind Spends deps.wallet.get_address _ λ _ address _. selected (some (trim address))

  withdraw_ensures : Ensures IsWithdrawDraft (operation_draft withdraw intent deps)
  unfolding operation_draft
  withdraw_ensures =
      Ensures-bind IsWithdrawDraft (resolve_prepare_consumed_records withdraw intent deps) _
        λ w consumed found.
          Ensures-bind IsWithdrawDraft (prepare_wallet_public_key withdraw intent deps) _ λ _ key _.
            Ensures-bind IsWithdrawDraft (lift (sum_record_amounts consumed)) _ λ _ total sum.
              Ensures-bind IsWithdrawDraft deps.random_uuid _ λ _ uuid _.
                let spends = consumed_of_withdraw w consumed found in
                Ensures-done IsWithdrawDraft _ (
                  spends,
                  total,
                  sum,
                  total_amount-build_withdraw intent.from intent.to intent.asset intent.amount total
                      (is_public intent.disclosure.recipient_address) key
                      (le-total consumed total spends sum),
                )

  -- A transfer that is prepared as far as the engine consumes one or two records that storage listed
  -- as not consumed, which are worth its amount and the protocol's fee, and the records that it
  -- creates are worth together what the consumed ones are.
  pub transfer_draft-IsTransferDraft :
      (w : W) (p : StellarPreparedOperation)
      → (transfer_draft intent deps w).0 ≡ answered p
      → IsTransferDraft p
  transfer_draft-IsTransferDraft w p h = transfer_ensures w p h

  -- A withdrawal that is prepared as far as the engine consumes one or two records that storage listed
  -- as not consumed, which are worth its amount and the protocol's fee; the records that it creates
  -- are worth what the consumed ones are, less the amount where the recipient is disclosed.
  pub operation_draft-IsWithdrawDraft :
      (w : W) (p : StellarPreparedOperation)
      → (operation_draft withdraw intent deps w).0 ≡ answered p
      → IsWithdrawDraft p
  operation_draft-IsWithdrawDraft w p h = withdraw_ensures w p h
