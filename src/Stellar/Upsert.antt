-- ===== src/Stellar/Upsert.antt =====
-- Merging private records, and the write that is left out when nothing changes
-- (packages/stellar/src/state/service/records/private-record-upsert.ts, private-methods.ts). The stored
-- list and the bridge's writes are ports.
use privacy_layer_confidenti.Base.{
  ℕ, zero, String, Bool, true, false, not, ◌&&◌, Option, none, some, List, [], ◌∷◌, ◌++◌, ◌==◌,
  if◌then◌else◌, contains, ltb,
}
use privacy_layer_confidenti.Js.Value.{Number, finite, infinite, Exponent, up, down}
use privacy_layer_confidenti.Core.Operations.{Action}
use privacy_layer_confidenti.Stellar.Int.{ℤ, pos, negsuc}
use privacy_layer_confidenti.Stellar.Effects.{◌>>=◌, done}
use privacy_layer_confidenti.Stellar.Records.{
  PrivateRecord, PrivateRecordStatus, pending, finalized, spent, PrivateCoinNote,
}
use privacy_layer_confidenti.Stellar.Balances.{record_ids}

-- `===` on the kinds of the fields.
abbrev same_bool : Bool → Bool → Bool
same_bool true b = b
same_bool false b = not b

abbrev same_ℕ : ℕ → ℕ → Bool
same_ℕ m n = not (ltb m n) && not (ltb n m)

abbrev same_int : ℤ → ℤ → Bool
same_int (pos m) (pos n) = same_ℕ m n
same_int (negsuc m) (negsuc n) = same_ℕ m n
same_int _ _ = false

abbrev same_exponent : Exponent → Exponent → Bool
same_exponent (up m) (up n) = same_ℕ m n
same_exponent (down m) (down n) = same_ℕ m n
same_exponent _ _ = false

-- `-0 === 0`, and `NaN !== NaN`.
abbrev pub same_number : Number → Number → Bool
same_number (finite s zero e) (finite t zero f) = true
same_number (finite s m e) (finite t n f) = same_bool s t && same_ℕ m n && same_exponent e f
same_number (infinite s) (infinite t) = same_bool s t
same_number _ _ = false

abbrev same_status : PrivateRecordStatus → PrivateRecordStatus → Bool
same_status pending pending = true
same_status finalized finalized = true
same_status spent spent = true
same_status _ _ = false

abbrev pub same_option : {A : Type 0} → (A → A → Bool) → Option A → Option A → Bool
same_option same none none = true
same_option same (some a) (some b) = same a b
same_option same _ _ = false

abbrev pub same_text : Option String → Option String → Bool
same_text = same_option λ s t. s == t

abbrev same_notes : PrivateCoinNote → PrivateCoinNote → Bool
same_notes left right =
    left.value == right.value
    && left.nullifier == right.nullifier
    && left.secret == right.secret
    && left.commitment == right.commitment
    && left.asset_hi == right.asset_hi
    && left.asset_lo == right.asset_lo
    && same_text left.application_id right.application_id

unfoldable pub private_coin_notes_equal : Option PrivateCoinNote → Option PrivateCoinNote → Bool
private_coin_notes_equal left right = same_option same_notes left right

unfoldable pub private_record_core_fields_equal : PrivateRecord → PrivateRecord → Bool
private_record_core_fields_equal left right =
    left.id == right.id
    && left.owner == right.owner
    && left.asset == right.asset
    && same_int left.amount right.amount
    && same_bool left.consumed right.consumed
    && same_option same_status left.status right.status
    && same_text left.pool_contract right.pool_contract
    && same_option same_number left.amount_display right.amount_display

unfoldable pub private_record_chain_fields_equal : PrivateRecord → PrivateRecord → Bool
private_record_chain_fields_equal left right =
    same_text left.commitment_hex right.commitment_hex
    && same_text left.nullifier_hex right.nullifier_hex
    && same_option same_number left.delivery_id right.delivery_id
    && same_text left.private_address right.private_address
    && same_text left.tx_hash right.tx_hash

unfoldable pub private_record_secret_fields_equal : PrivateRecord → PrivateRecord → Bool
unfolding private_coin_notes_equal
private_record_secret_fields_equal left right =
    same_text left.deposit_scalar_hex right.deposit_scalar_hex
    && same_text left.precommitement_hex right.precommitement_hex
    && private_coin_notes_equal left.coin_note right.coin_note

abbrev pub private_records_equal : PrivateRecord → PrivateRecord → Bool
private_records_equal left right =
    private_record_core_fields_equal left right
    && private_record_chain_fields_equal left right
    && private_record_secret_fields_equal left right

-- The lengths agree, and every record equals the one at its place.
unfoldable pub private_record_arrays_equal : List PrivateRecord → List PrivateRecord → Bool
unfolding private_record_core_fields_equal private_record_chain_fields_equal
    private_record_secret_fields_equal
private_record_arrays_equal [] [] = true
private_record_arrays_equal (l ∷ ls) (r ∷ rs) =
    private_records_equal l r && private_record_arrays_equal ls rs
private_record_arrays_equal _ _ = false

unfoldable pub without_ids : List String → List PrivateRecord → List PrivateRecord
without_ids ids [] = []
without_ids ids (r ∷ rs) =
    let rest = without_ids ids rs in if contains ids r.id then rest else r ∷ rest

unfoldable pub merge_private_records : List PrivateRecord → List PrivateRecord → List PrivateRecord
unfolding without_ids
merge_private_records current records = without_ids (record_ids records) current ++ records

module _ {W : Type 0} (read_private_records : Action W (List PrivateRecord))
    (write_upsert_private_records : List PrivateRecord → Action W (Unit {0})) where
  -- Nothing is written if there are no records, or if the merge changes nothing.
  unfoldable pub upsert_private_records : List PrivateRecord → Action W (Unit {0})
  unfolding merge_private_records private_record_arrays_equal
  upsert_private_records [] = done tt
  upsert_private_records (r ∷ rs) = do
    current ← read_private_records
    (if private_record_arrays_equal current (merge_private_records current (r ∷ rs))
        then done tt
        else write_upsert_private_records (r ∷ rs))
