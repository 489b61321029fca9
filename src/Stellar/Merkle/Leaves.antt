-- ===== src/Stellar/Merkle/Leaves.antt =====
-- Reading the leaves of a pool's tree from the ledger, in batches
-- (packages/stellar/src/transact/merkle/read-tree-leaves.ts). A ledger key is the parts that it is
-- made of; the reader and the decimal text of a commitment's bytes are parameters.
use Prim.Native.String.{◌++◌ as str_append}
use privacy_layer_confidenti.Base.{
  ℕ, zero, suc, ◌-◌, String, true, false, Option, none, some, List, [], ◌∷◌, ◌==◌, if◌then◌else◌,
  ltb, length,
}
use privacy_layer_confidenti.Js.Text.{same_code}
use privacy_layer_confidenti.Core.State.Serialization.{bigint_text}
use privacy_layer_confidenti.Core.Operations.{Attempt, answered, raised, Action}
use privacy_layer_confidenti.Stellar.Effects.{attempt_then, ◌>>=◌, done, lift, error_object}

abbrev pub tree_leaf_ledger_batch_size : ℕ
tree_leaf_ledger_batch_size = 100

-- Of the contract values, the kinds that the code tells apart; bytes are a hexadecimal text.
mutual
  pub data ScVal : Type 0 where
    scv_vec : ScVals → ScVal
    scv_null_vec : ScVal
    scv_symbol : String → ScVal
    scv_u32 : ℕ → ScVal
    scv_bytes : String → ScVal
    scv_other : ScVal

  pub data ScVals : Type 0 where
    no_more : ScVals
    and_then : ScVal → ScVals → ScVals

pub record TreeLeafLedgerEntry : Type 0 where
  pub key : ScVal
  pub val : ScVal

-- `treeLeafLedgerKey(contractId, leafIndex)`
pub record LedgerKey : Type 0 where
  pub contract_id : String
  pub leaf_index : ℕ

abbrev pub tree_leaf_key_sc_value : ℕ → ScVal
tree_leaf_key_sc_value leaf_index =
    scv_vec (and_then (scv_symbol "Leaf") (and_then (scv_u32 leaf_index) no_more))

abbrev index_value : ScVal → Option ℕ
index_value (scv_u32 n) = some n
index_value _ = none

abbrev tagged_index : ScVal → ScVal → Option ℕ
tagged_index (scv_symbol tag) index = if tag == "Leaf" then index_value index else none
tagged_index _ index = none

unfoldable pub leaf_index_from_contract_data_key : ScVal → Option ℕ
leaf_index_from_contract_data_key (scv_vec (and_then tag (and_then index no_more))) =
    tagged_index tag index
leaf_index_from_contract_data_key _ = none

abbrev pub commitment_bytes_from_contract_data_value : ScVal → Option String
commitment_bytes_from_contract_data_value (scv_bytes bytes) = some bytes
commitment_bytes_from_contract_data_value _ = none

-- A map from leaf indexes to bytes: `byIndex.set` and `byIndex.get`.
unfoldable pub set_leaf : ℕ → String → List (ℕ × String) → List (ℕ × String)
set_leaf index bytes [] = (index, bytes) ∷ []
set_leaf index bytes ((i, b) ∷ leaves) =
    let rest = set_leaf index bytes leaves in
    if same_code i index then (index, bytes) ∷ leaves else (i, b) ∷ rest

unfoldable pub get_leaf : ℕ → List (ℕ × String) → Option String
get_leaf index [] = none
get_leaf index ((i, b) ∷ leaves) =
    let rest = get_leaf index leaves in if same_code i index then some b else rest

abbrev pub put_entry : Option ℕ → Option String → List (ℕ × String) → List (ℕ × String)
put_entry (some index) (some bytes) leaves = set_leaf index bytes leaves
put_entry _ _ leaves = leaves

unfoldable pub collect_leaf_buffers :
    List TreeLeafLedgerEntry → List (ℕ × String) → List (ℕ × String)
unfolding set_leaf leaf_index_from_contract_data_key
collect_leaf_buffers [] leaves = leaves
collect_leaf_buffers (entry ∷ entries) leaves = collect_leaf_buffers entries (
    put_entry (leaf_index_from_contract_data_key entry.key)
      (commitment_bytes_from_contract_data_value entry.val) leaves)

-- The indexes from the start on, as many as there are.
unfoldable pub ledger_keys_from : String → (start count : ℕ) → List LedgerKey
ledger_keys_from contract_id start zero = []
ledger_keys_from contract_id start (suc count) =
    record { contract_id = contract_id; leaf_index = start }
    ∷ ledger_keys_from contract_id (suc start) count

abbrev pub ledger_keys_for_range : String → (start_index end_index : ℕ) → List LedgerKey
ledger_keys_for_range contract_id start_index end_index =
    ledger_keys_from contract_id start_index (end_index - start_index)

module _ {A : Type 0} where
  -- `keys.slice(0, count)` and `keys.slice(count)`
  unfoldable pub take : ℕ → List A → List A
  take (suc count) (x ∷ xs) = x ∷ take count xs
  take _ _ = []

  unfoldable pub drop : ℕ → List A → List A
  drop (suc count) (x ∷ xs) = drop count xs
  drop _ xs = xs

  -- The batches, one after the other. The fuel bounds their number.
  unfoldable pub chunk_with : (fuel batch_size : ℕ) → List A → List (List A)
  unfolding take drop
  chunk_with fuel batch_size [] = []
  chunk_with zero batch_size (x ∷ xs) = []
  chunk_with (suc fuel) batch_size (x ∷ xs) =
      take batch_size (x ∷ xs) ∷ chunk_with fuel batch_size (drop batch_size (x ∷ xs))

  abbrev pub chunk_ledger_keys : List A → ℕ → List (List A)
  chunk_ledger_keys keys batch_size = chunk_with (length keys) batch_size keys

module _ {W : Type 0} (get_ledger_entries : List LedgerKey → Action W (List TreeLeafLedgerEntry))
    (commitment_buffer_to_decimal : String → String) where
  unfoldable pub read_batches :
      List (ℕ × String) → List (List LedgerKey) → Action W (List (ℕ × String))
  unfolding collect_leaf_buffers
  read_batches leaves [] = done leaves
  read_batches leaves (batch ∷ batches) = do
    entries ← get_ledger_entries batch
    read_batches (collect_leaf_buffers entries leaves) batches

  abbrev pub read_leaf_buffers_by_index :
      (contract_id : String) (start_index end_index : ℕ) → Action W (List (ℕ × String))
  read_leaf_buffers_by_index contract_id start_index end_index = read_batches [] (
      chunk_ledger_keys (ledger_keys_for_range contract_id start_index end_index)
        tree_leaf_ledger_batch_size)

  abbrev leaf_or_missing : ℕ → Option String → Attempt String
  leaf_or_missing index none = raised (
      error_object (
        str_append "Missing Merkle leaf "
          (str_append (bigint_text false index) " in pool storage.")))
  leaf_or_missing index (some bytes) = answered (commitment_buffer_to_decimal bytes)

  unfoldable pub decimal_commitments_from :
      List (ℕ × String) → (start count : ℕ) → Attempt (List String)
  unfolding get_leaf bigint_text
  decimal_commitments_from leaves start zero = answered []
  decimal_commitments_from leaves start (suc count) =
      attempt_then (leaf_or_missing start (get_leaf start leaves)) λ commitment.
        attempt_then (decimal_commitments_from leaves (suc start) count)
          λ commitments. answered (commitment ∷ commitments)

  unfoldable pub read_tree_leaf_commitments :
      (contract_id : String) (start_index end_index : ℕ) → Action W (List String)
  unfolding read_batches decimal_commitments_from chunk_with ledger_keys_from
  read_tree_leaf_commitments contract_id start_index end_index = elim (ltb start_index end_index) [
    | false ↦ done []
    | true ↦ read_leaf_buffers_by_index contract_id start_index end_index >>= λ leaves.
        lift (decimal_commitments_from leaves start_index (end_index - start_index))
  ]
