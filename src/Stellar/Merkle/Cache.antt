-- ===== src/Stellar/Merkle/Cache.antt =====
-- The cached commitments of a pool's tree, and their completion from the ledger
-- (packages/stellar/src/transact/merkle/reuse-cached-commitments.ts, state-port.ts and
-- fetch-contract.ts).
use privacy_layer_confidenti.Base.{
  ℕ, String, Bool, true, false, Option, none, some, List, [], ◌++◌, ◌==◌, if◌then◌else◌, ltb,
  length,
}
use privacy_layer_confidenti.Js.Text.{same_code}
use privacy_layer_confidenti.Core.Operations.{Action}
use privacy_layer_confidenti.Stellar.Effects.{◌>>=◌, done}
use privacy_layer_confidenti.Stellar.Merkle.Leaves.{
  TreeLeafLedgerEntry, LedgerKey, read_tree_leaf_commitments,
}

pub record StellarLeanImtNode : Type 0 where
  pub level : ℕ
  pub index : ℕ
  pub value : String

pub record CachedPoolMerkleView : Type 0 where
  pub commitments : List String
  pub updated_at : ℕ
  pub merkle_root_hex : Option String
  pub nodes : Option (List StellarLeanImtNode)

abbrev pub complete_cache_root_matches : Option String → String → Bool
complete_cache_root_matches none merkle_root_hex = true
complete_cache_root_matches (some cached_root) merkle_root_hex =
    if cached_root == "" then true else cached_root == merkle_root_hex

unfoldable pub reuse_cached_commitments :
    Option CachedPoolMerkleView → (on_chain_count : ℕ) → (merkle_root_hex : String) → List String
reuse_cached_commitments none on_chain_count merkle_root_hex = []
reuse_cached_commitments (some cached) on_chain_count merkle_root_hex =
    if same_code (length cached.commitments) 0
    then []
    else if ltb on_chain_count (length cached.commitments)
    then []
    else if same_code (length cached.commitments) on_chain_count
    then (if complete_cache_root_matches cached.merkle_root_hex merkle_root_hex
        then cached.commitments
        else [])
    else cached.commitments

module _ {W : Type 0} (get_ledger_entries : List LedgerKey → Action W (List TreeLeafLedgerEntry))
    (commitment_buffer_to_decimal : String → String) where
  unfoldable pub load_commitments :
      Option CachedPoolMerkleView
      → (on_chain_count : ℕ) (merkle_root_hex contract_id : String) → Action W (List String)
  unfolding reuse_cached_commitments read_tree_leaf_commitments
  load_commitments cached_state on_chain_count merkle_root_hex contract_id =
      let reused = reuse_cached_commitments cached_state on_chain_count merkle_root_hex in
      elim (same_code (length reused) on_chain_count) [
        | true ↦ done reused
        | false ↦
            read_tree_leaf_commitments get_ledger_entries commitment_buffer_to_decimal contract_id
              (length reused) on_chain_count
            >>= λ fetched. done (reused ++ fetched)
      ]
