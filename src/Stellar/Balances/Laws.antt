-- ===== src/Stellar/Balances/Laws.antt =====
-- Balances and rows agree, and marked records leave the balance
-- (packages/stellar/src/state/service/records/private-methods.ts).
use Prim.Native.Nat.{Ordering}
use privacy_layer_confidenti.Base.{
  ◌≡◌, refl, sym, ap, ◌∙◌, Bool, true, false, not, ◌&&◌, String, some, List, [], ◌∷◌, ◌==◌,
  if◌then◌else◌, contains, arith, eq_iff, Bool-cases, inl, inr,
}
use privacy_layer_confidenti.Js.Value.{Number}
use privacy_layer_confidenti.Core.Operations.{answered}
use privacy_layer_confidenti.Stellar.Int.{ℤ, pos, ◌+ℤ◌, int_arith, +ℤ_comm, +ℤ-zero, zero-+ℤ}
use privacy_layer_confidenti.Stellar.Sort.{sum_by, sort_by-sum}
use privacy_layer_confidenti.Stellar.Records.{PrivateRecord, spent}
use privacy_layer_confidenti.Stellar.Upsert.{without_ids}
use privacy_layer_confidenti.Stellar.Balances.{
  PrivateAssetRow, is_available_to, matches_private_record_filter, available_in, balance_filter,
  balance_in, sum_amounts, add_to_rows, rows_from, aggregate_private_asset_rows, compare_rows,
  with_status,
}

abbrev amount_if : Bool → ℤ → ℤ
amount_if true n = n
amount_if false n = pos 0

-- What the rows of an asset are worth together.
abbrev pub sum_of_rows : String → List PrivateAssetRow → ℤ
sum_of_rows asset = sum_by λ row. amount_if (row.asset_id == asset) row.total_amount

sum_amounts-from :
    (total : ℤ) (rs : List PrivateRecord) → sum_amounts total rs ≡ total +ℤ sum_amounts (pos 0) rs
unfolding sum_amounts
sum_amounts-from total [] = sym (+ℤ-zero total)
sum_amounts-from total (r ∷ rs) =
    rw (sum_amounts-from (total +ℤ r.amount) rs, sum_amounts-from (pos 0 +ℤ r.amount) rs)
      (omega int_arith)

matches-balance :
    (owner asset : String) (r : PrivateRecord)
    → matches_private_record_filter r (balance_filter owner asset) false
      ≡ (is_available_to owner r && r.asset == asset)
unfolding matches_private_record_filter
matches-balance owner asset r = ground arith

sum_amounts-cons :
    (r : PrivateRecord) (rs : List PrivateRecord)
    → sum_amounts (pos 0) (r ∷ rs) ≡ r.amount +ℤ sum_amounts (pos 0) rs
unfolding sum_amounts
sum_amounts-cons r rs = rw (sum_amounts-from (pos 0 +ℤ r.amount) rs) (omega int_arith)

amount_if-add :
    (b : Bool) (m n s : ℤ) → amount_if b (m +ℤ n) +ℤ s ≡ (amount_if b m +ℤ s) +ℤ amount_if b n
amount_if-add true m n s = omega int_arith
amount_if-add false m n s = omega int_arith

-- The balance counts a record if it is the owner's, available and of the asset.
balance_in-cons :
    (owner asset : String) (r : PrivateRecord) (rs : List PrivateRecord)
    → balance_in owner asset (r ∷ rs)
      ≡ amount_if (is_available_to owner r && r.asset == asset) r.amount
        +ℤ balance_in owner asset rs
unfolding available_in sum_amounts
balance_in-cons owner asset r rs =
    rw (matches-balance owner asset r) (counted (is_available_to owner r && r.asset == asset))
  where
    counted :
        (b : Bool)
        → sum_amounts (pos 0) (
            if b
            then r ∷ available_in (balance_filter owner asset) rs
            else available_in (balance_filter owner asset) rs)
          ≡ amount_if b r.amount +ℤ balance_in owner asset rs
    counted true = sum_amounts-cons r (available_in (balance_filter owner asset) rs)
    counted false = sym (zero-+ℤ (balance_in owner asset rs))

module _ (add_display : Number → Number → Number) (number_of_bigint : ℤ → Number) where
  sum_of_rows-add :
      (asset : String) (r : PrivateRecord) (rows : List PrivateAssetRow)
      → sum_of_rows asset (add_to_rows add_display number_of_bigint r rows)
        ≡ sum_of_rows asset rows +ℤ amount_if (r.asset == asset) r.amount
  unfolding add_to_rows
  sum_of_rows-add asset r [] = +ℤ_comm (amount_if (r.asset == asset) r.amount) (pos 0)
  sum_of_rows-add asset r (row ∷ rows) = elim (Bool-cases (row.asset_id == r.asset)) [
    | inl same ↦ rw same (
        rw (← (eq_iff row.asset_id r.asset).0 same) (
          amount_if-add (row.asset_id == asset) row.total_amount r.amount (sum_of_rows asset rows)))
    | inr other ↦ rw other (rw (sum_of_rows-add asset r rows) (omega int_arith))
  ]

  added :
      (owner asset : String) (rows : List PrivateAssetRow) (r : PrivateRecord)
      (rs : List PrivateRecord) (b : Bool)
      → sum_of_rows asset (if b then add_to_rows add_display number_of_bigint r rows else rows)
          +ℤ balance_in owner asset rs
        ≡ sum_of_rows asset rows
          +ℤ (amount_if (b && r.asset == asset) r.amount +ℤ balance_in owner asset rs)
  added owner asset rows r rs true = rw (sum_of_rows-add asset r rows) (omega int_arith)
  added owner asset rows r rs false = omega int_arith

  rows_from-sum :
      (owner asset : String) (rows : List PrivateAssetRow) (rs : List PrivateRecord)
      → sum_of_rows asset (rows_from add_display number_of_bigint owner rows rs)
        ≡ sum_of_rows asset rows +ℤ balance_in owner asset rs
  unfolding rows_from available_in sum_amounts
  rows_from-sum owner asset rows [] = sym (+ℤ-zero (sum_of_rows asset rows))
  rows_from-sum owner asset rows (r ∷ rs) =
      rows_from-sum owner asset
        (if is_available_to owner r then add_to_rows add_display number_of_bigint r rows else rows)
        rs
      ∙ rw (balance_in-cons owner asset r rs)
          (added owner asset rows r rs (is_available_to owner r))

  -- The rows of an owner's assets agree with the balances: for each asset, its rows are worth together
  -- what the balance of the owner is for that asset, over the same records.
  pub aggregate_private_asset_rows-balance :
      (locale_compare : String → String → Ordering) (records : List PrivateRecord)
      (owner asset : String) (rows : List PrivateAssetRow)
      → aggregate_private_asset_rows add_display number_of_bigint locale_compare records owner
        ≡ answered rows
      → sum_of_rows asset rows ≡ balance_in owner asset records
  unfolding aggregate_private_asset_rows
  aggregate_private_asset_rows-balance locale_compare records owner asset rows h =
      sort_by-sum (λ row. amount_if (row.asset_id == asset) row.total_amount)
        (compare_rows locale_compare) _ h
      ∙ rows_from-sum owner asset [] records
      ∙ zero-+ℤ (balance_in owner asset records)

abbrev marked_spent : PrivateRecord → PrivateRecord
marked_spent r = record r { status = some spent; consumed = true }

nothing_if : (a b : Bool) (n : ℤ) → amount_if ((a && not true && not true) && b) n ≡ pos 0
nothing_if true b n = refl
nothing_if false b n = refl

spent_counts_nothing :
    (owner asset : String) (r : PrivateRecord) (rs : List PrivateRecord)
    → balance_in owner asset (marked_spent r ∷ rs) ≡ balance_in owner asset rs
spent_counts_nothing owner asset r rs =
    balance_in-cons owner asset (marked_spent r) rs
    ∙ ap (λ n. n +ℤ balance_in owner asset rs)
        (nothing_if (r.owner == owner) (r.asset == asset) r.amount)
    ∙ zero-+ℤ (balance_in owner asset rs)

-- Once records are marked as used, the balances are those of the list without their ids.
pub balance_in-with_status :
    (owner asset : String) (ids : List String) (records : List PrivateRecord)
    → balance_in owner asset (with_status ids spent records)
      ≡ balance_in owner asset (without_ids ids records)
unfolding with_status without_ids available_in
balance_in-with_status owner asset ids [] = refl
balance_in-with_status owner asset ids (r ∷ rs) = elim (Bool-cases (contains ids r.id)) [
  | inl used ↦ rw used (
      spent_counts_nothing owner asset r (with_status ids spent rs)
      ∙ balance_in-with_status owner asset ids rs)
  | inr other ↦ rw other (
      balance_in-cons owner asset r (with_status ids spent rs)
      ∙ rw (balance_in-with_status owner asset ids rs)
          (sym (balance_in-cons owner asset r (without_ids ids rs))))
]
