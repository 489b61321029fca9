-- ===== src/Stellar/Selection.antt =====
-- Selecting the records that a spend consumes (packages/stellar/src/adapters/record-selection.ts).
-- `localeCompare`, the storage's list and the nullifier check are parameters.
pub mod Laws
pub mod Arranged
pub mod Greedy
pub mod Selected
use Prim.Native.Nat.{Ordering, ◌/◌}
use privacy_layer_confidenti.Base.{
  ℕ, zero, suc, String, Bool, true, false, ◌&&◌, ◌||◌, not, Option, none, some, List, [], ◌∷◌, ◌++◌,
  ◌+◌, ◌==◌, if◌then◌else◌, ltb, length,
}
use privacy_layer_confidenti.Js.Value.{Value, Fields, bigint, end, field, obj}
use privacy_layer_confidenti.Js.Text.{trim, starts_with}
use privacy_layer_confidenti.Core.Errors.{Thrown, sdk, insufficient_state_error}
use privacy_layer_confidenti.Core.Operations.{Attempt, answered, raised, Action}
use privacy_layer_confidenti.Stellar.Int.{ℤ, pos, negsuc, ◌+ℤ◌, ltb_ℤ, leb_ℤ}
use privacy_layer_confidenti.Stellar.BigInt.{big_int}
use privacy_layer_confidenti.Stellar.Records.{
  PrivateRecord, PrivateCoinNote, RecordFilter, StellarIntent,
}
use privacy_layer_confidenti.Stellar.Effects.{attempt_then, ◌>>=◌, done, throw, lift, error_object}
use privacy_layer_confidenti.Stellar.Sort.{sort_by}
use Prim.Native.String.{◌++◌ as str_append}

-- `BigInt(text)`, or the error that it throws.
abbrev pub to_big_int : Option ℤ → String → Attempt ℤ
to_big_int none text =
    raised (error_object (str_append "Cannot convert " (str_append text " to a BigInt")))
to_big_int (some n) text = answered n

abbrev coin_value : Option PrivateCoinNote → Option String
coin_value none = none
coin_value (some note) = if trim note.value == "" then none else some note.value

unfoldable pub read_record_spend_amount : PrivateRecord → Attempt ℤ
read_record_spend_amount entry = elim (coin_value entry.coin_note) [
  | none ↦ answered entry.amount
  | some value ↦ to_big_int (big_int value) value
]

unfoldable pub spend_amount_covering_protocol_fee : ℤ → ℤ
spend_amount_covering_protocol_fee (pos zero) = pos zero
spend_amount_covering_protocol_fee (negsuc n) = negsuc n
spend_amount_covering_protocol_fee (pos (suc n)) =
    let hundredths = (suc n + 99) / 100 in
    pos (suc n) +ℤ pos (if ltb 0 hundredths then hundredths else 1)

abbrev pub bigint_value : ℤ → Value
bigint_value (pos n) = bigint false n
bigint_value (negsuc n) = bigint true (suc n)

abbrev pub missing_private_records : (requested available : ℤ) → Thrown
missing_private_records requested available = sdk (
    insufficient_state_error "missing_private_records"
      "Storage does not contain enough private records for this operation."
      (some (
        obj (
          field "requestedAmount" (bigint_value requested)
            (field "availableAmount" (bigint_value available) end)))))

-- The loop of `pickRecordsForSpendAmount` after the records `selected`, which are worth
-- `selected_total`: it stops at the amount, and at two records.
unfoldable pub pick_from :
    (amount selected_total : ℤ) (selected available : List PrivateRecord)
    → Attempt (List PrivateRecord)
unfolding read_record_spend_amount
pick_from amount selected_total selected [] = raised (missing_private_records amount selected_total)
pick_from amount selected_total selected (entry ∷ available) =
    let picked = selected ++ (entry ∷ []) in
    attempt_then (read_record_spend_amount entry) λ value.
      let total = selected_total +ℤ value in
      elim (leb_ℤ amount total) [
        | true ↦ answered picked
        | false ↦ elim (ltb 1 (length picked)) [
          | true ↦ raised (missing_private_records amount total)
          | false ↦ pick_from amount total picked available
        ]
      ]

-- Both kinds, `transfer` and `withdraw`, have the limit of two records.
abbrev pub pick_records_for_spend_amount : List PrivateRecord → ℤ → Attempt (List PrivateRecord)
pick_records_for_spend_amount available amount = pick_from amount (pos 0) [] available

abbrev pub unconsumed : List PrivateRecord → List PrivateRecord
unconsumed [] = []
unconsumed (entry ∷ records) =
    let rest = unconsumed records in if entry.consumed then rest else entry ∷ rest

unfoldable pub sum_from : ℤ → List PrivateRecord → Attempt ℤ
unfolding read_record_spend_amount
sum_from total [] = answered total
sum_from total (entry ∷ records) =
    attempt_then (read_record_spend_amount entry) (λ value. sum_from (total +ℤ value) records)

-- `sumRecordAmounts(records)`
abbrev pub sum_record_amounts : List PrivateRecord → Attempt ℤ
sum_record_amounts records = sum_from (pos 0) records

-- A nullifier check: the nullifier, the wallet's public key and the record's private address.
abbrev pub NullifierCheck : Type 0 → Type 0
NullifierCheck W = String → String → Option String → Action W Bool

-- `record.privateAddress ? … : {}`
abbrev pub non_empty : Option String → Option String
non_empty none = none
non_empty (some s) = if s == "" then none else some s

module _ (locale_compare : String → String → Ordering) where
  unfoldable pub compare_records_for_spend_selection :
      PrivateRecord → PrivateRecord → Attempt Ordering
  unfolding read_record_spend_amount
  compare_records_for_spend_selection left right =
      attempt_then (read_record_spend_amount left) λ left_value.
        attempt_then (read_record_spend_amount right) λ right_value. answered (
          if ltb_ℤ left_value right_value
          then Ordering.gt
          else if ltb_ℤ right_value left_value
          then Ordering.lt
          else locale_compare left.id right.id)

abbrev pub keep_unspent : Bool → PrivateRecord → List PrivateRecord → List PrivateRecord
keep_unspent true entry unspent = unspent
keep_unspent false entry unspent = unspent ++ (entry ∷ [])

abbrev pub pick_available : ℤ → List PrivateRecord → Attempt (List PrivateRecord)
pick_available amount [] = raised (missing_private_records amount (pos 0))
pick_available amount (entry ∷ records) =
    pick_records_for_spend_amount (entry ∷ records) (spend_amount_covering_protocol_fee amount)

-- `from.trim().startsWith('stpl')` decides whose records are listed.
abbrev pub spend_filter : StellarIntent → RecordFilter
spend_filter intent =
    if starts_with "stpl" (trim intent.from)
    then record { owner = none; private_address = some intent.from; asset = some intent.asset }
    else record { owner = some intent.from; private_address = none; asset = some intent.asset }

module _ {W : Type 0} where
  -- The loop of `filterUnspentPrivateRecords`, after the records that it kept.
  unfoldable pub filter_unspent_from :
      String
      → NullifierCheck W
      → List PrivateRecord
      → List PrivateRecord
      → Action W (List PrivateRecord)
  filter_unspent_from key check unspent [] = done unspent
  filter_unspent_from key check unspent (entry ∷ records) = elim entry.coin_note [
    | none ↦ filter_unspent_from key check (unspent ++ (entry ∷ [])) records
    | some coin ↦
        (check coin.nullifier key (non_empty entry.private_address) >>= λ spent.
        filter_unspent_from key check (keep_unspent spent entry unspent) records)
  ]

  abbrev pub filter_unspent_private_records :
      String → NullifierCheck W → List PrivateRecord → Action W (List PrivateRecord)
  filter_unspent_private_records key check records = filter_unspent_from key check [] records

  -- The check runs if there is one, and a wallet key that is not blank.
  abbrev pub available_records :
      Option String → Option (NullifierCheck W) → List PrivateRecord → Action W (List PrivateRecord)
  available_records (some key) (some check) records = elim (trim key == "") [
    | true ↦ done records
    | false ↦ filter_unspent_private_records (trim key) check records
  ]
  available_records _ _ records = done records

  module _ (locale_compare : String → String → Ordering)
      (list_private_records : RecordFilter → Action W (List PrivateRecord)) where
    -- `from` is a text, so the guard on an invalid source never throws.
    unfoldable pub select_private_records :
        StellarIntent → Option String → Option (NullifierCheck W) → Action W (List PrivateRecord)
    unfolding compare_records_for_spend_selection spend_amount_covering_protocol_fee pick_from
        sort_by filter_unspent_from starts_with trim
    select_private_records intent wallet_public_key check = do
      records ← list_private_records (spend_filter intent)
      locally_available ←
          lift (sort_by (compare_records_for_spend_selection locale_compare) (unconsumed records))
      available ← available_records wallet_public_key check locally_available
      lift (pick_available intent.amount available)
