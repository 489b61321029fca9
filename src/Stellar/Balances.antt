-- ===== src/Stellar/Balances.antt =====
-- Reading and marking private records (packages/stellar/src/state/service/records/private-methods.ts).
-- The stored list, read through the bridge and normalised, and the bridge's writes are ports.
pub mod Laws
use Prim.Native.Nat.{Ordering}
use privacy_layer_confidenti.Base.{
  String, Bool, true, false, not, ◌&&◌, ◌||◌, Option, none, some, List, [], ◌∷◌, ◌==◌,
  if◌then◌else◌, or_default, contains,
}
use privacy_layer_confidenti.Js.Value.{Number}
use privacy_layer_confidenti.Core.Operations.{Attempt, answered, raised, Action}
use privacy_layer_confidenti.Stellar.Int.{ℤ, pos, ◌+ℤ◌}
use privacy_layer_confidenti.Stellar.Effects.{◌>>=◌, done, lift}
use privacy_layer_confidenti.Stellar.Sort.{sort_by}
use privacy_layer_confidenti.Stellar.Records.{
  PrivateRecord, PrivateRecordStatus, pending, finalized, spent, RecordFilter,
}

pub record PrivateAssetRow : Type 0 where
  pub asset_id : String
  pub pool_contract : String
  pub total_amount : ℤ
  pub total_amount_display : Number

abbrev pub is_spent : Option PrivateRecordStatus → Bool
is_spent (some spent) = true
is_spent _ = false

-- `filter.field !== undefined && record.field !== filter.field`
abbrev differs : Option String → String → Bool
differs none value = false
differs (some wanted) value = not (value == wanted)

abbrev same_option : Option String → String → Bool
same_option none wanted = false
same_option (some value) wanted = value == wanted

abbrev differs_option : Option String → Option String → Bool
differs_option none value = false
differs_option (some wanted) value = not (same_option value wanted)

abbrev names_nobody : Option String → Option String → Bool
names_nobody none none = true
names_nobody _ _ = false

unfoldable pub matches_private_record_filter : PrivateRecord → RecordFilter → Bool → Bool
matches_private_record_filter r filter include_consumed =
    if differs filter.owner r.owner
    then false
    else if differs_option filter.private_address r.private_address
    then false
    else if names_nobody filter.owner filter.private_address
    then false
    else if differs filter.asset r.asset
    then false
    else if not include_consumed && (r.consumed || is_spent r.status)
    then false
    else true

unfoldable pub available_in : RecordFilter → List PrivateRecord → List PrivateRecord
available_in filter [] = []
available_in filter (r ∷ rs) =
    let rest = available_in filter rs in
    if matches_private_record_filter r filter false then r ∷ rest else rest

abbrev pub record_ids : List PrivateRecord → List String
record_ids [] = []
record_ids (r ∷ rs) = r.id ∷ record_ids rs

abbrev is_marked_spent : PrivateRecordStatus → Bool → Bool
is_marked_spent spent consumed = true
is_marked_spent _ consumed = consumed

unfoldable pub with_status :
    List String → PrivateRecordStatus → List PrivateRecord → List PrivateRecord
with_status ids status [] = []
with_status ids status (r ∷ rs) =
    (if contains ids r.id
      then record r { status = some status; consumed = is_marked_spent status r.consumed }
      else r)
    ∷ with_status ids status rs

unfoldable pub sum_amounts : ℤ → List PrivateRecord → ℤ
sum_amounts total [] = total
sum_amounts total (r ∷ rs) = sum_amounts (total +ℤ r.amount) rs

-- The records that the rows of an owner are made of.
abbrev pub is_available_to : String → PrivateRecord → Bool
is_available_to owner r = r.owner == owner && not r.consumed && not (is_spent r.status)

abbrev pub compare_rows :
    (String → String → Ordering) → PrivateAssetRow → PrivateAssetRow → Attempt Ordering
compare_rows locale_compare left right = answered (locale_compare left.asset_id right.asset_id)

module _ (add_display : Number → Number → Number) (number_of_bigint : ℤ → Number) where
  abbrev display_of : PrivateRecord → Number
  display_of r = or_default r.amount_display (number_of_bigint r.amount)

  -- `byAsset.get` and `byAsset.set` on a map, which keeps the order of its first insertions.
  unfoldable pub add_to_rows : PrivateRecord → List PrivateAssetRow → List PrivateAssetRow
  add_to_rows r [] =
      record {
        asset_id = r.asset;
        pool_contract = or_default r.pool_contract "";
        total_amount = r.amount;
        total_amount_display = display_of r;
      }
      ∷ []
  add_to_rows r (row ∷ rows) =
      let rest = add_to_rows r rows in
      if row.asset_id == r.asset
      then record row {
        total_amount = row.total_amount +ℤ r.amount;
        total_amount_display = add_display row.total_amount_display (display_of r);
      }
        ∷ rows
      else row ∷ rest

  unfoldable pub rows_from :
      String → List PrivateAssetRow → List PrivateRecord → List PrivateAssetRow
  unfolding add_to_rows
  rows_from owner rows [] = rows
  rows_from owner rows (r ∷ rs) =
      rows_from owner (if is_available_to owner r then add_to_rows r rows else rows) rs

  module _ (locale_compare : String → String → Ordering) where
    unfoldable pub aggregate_private_asset_rows :
        List PrivateRecord → String → Attempt (List PrivateAssetRow)
    unfolding rows_from sort_by
    aggregate_private_asset_rows records owner =
        sort_by (compare_rows locale_compare) (rows_from owner [] records)

abbrev pub balance_filter : String → String → RecordFilter
balance_filter owner asset = record {
  owner = some owner;
  private_address = none;
  asset = some asset;
}

abbrev pub balance_in : String → String → List PrivateRecord → ℤ
balance_in owner asset records =
    sum_amounts (pos 0) (available_in (balance_filter owner asset) records)

module _ {W : Type 0} (read_private_records : Action W (List PrivateRecord))
    (write_replace_private_records : List PrivateRecord → Action W (Unit {0})) where
  abbrev pub read_available_private_records : RecordFilter → Action W (List PrivateRecord)
  read_available_private_records filter = do
    records ← read_private_records
    done (available_in filter records)

  abbrev pub apply_private_records_status :
      List PrivateRecord → PrivateRecordStatus → Action W (Unit {0})
  apply_private_records_status records status = do
    current ← read_private_records
    write_replace_private_records (with_status (record_ids records) status current)

  abbrev pub read_private_balance : String → String → Action W ℤ
  read_private_balance owner asset = do
    records ← read_available_private_records (balance_filter owner asset)
    done (sum_amounts (pos 0) records)

  module _ (add_display : Number → Number → Number) (number_of_bigint : ℤ → Number)
      (locale_compare : String → String → Ordering) where
    abbrev pub read_private_asset_rows : String → Action W (List PrivateAssetRow)
    read_private_asset_rows owner = do
      records ← read_private_records
      lift (aggregate_private_asset_rows add_display number_of_bigint locale_compare records owner)
