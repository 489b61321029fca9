-- ===== src/Stellar/Merkle/Fetch.antt =====
-- Fetching the commitments of a pool's tree and storing them
-- (packages/stellar/src/transact/merkle: fetch-contract.ts, persist-fetched.ts, write-snapshot.ts,
-- state-port.ts). The pool's client, the stored state and the clock are ports.
use privacy_layer_confidenti.Base.{
  ℕ, String, Bool, true, Option, none, some, List, or_default, length,
}
use privacy_layer_confidenti.Core.Operations.{Attempt, answered, raised, Action}
use privacy_layer_confidenti.Stellar.Effects.{◌>>=◌, done, lift, error_object}
use privacy_layer_confidenti.Stellar.Merkle.Leaves.{TreeLeafLedgerEntry, LedgerKey}
use privacy_layer_confidenti.Stellar.Merkle.Cache.{
  StellarLeanImtNode, CachedPoolMerkleView, load_commitments,
}
use privacy_layer_confidenti.Stellar.Merkle.Sessions.{StellarPoolMerkleState}
use privacy_layer_confidenti.Stellar.Merkle.Trees.{
  MerkleSdkHost, World, cached_unchanged, resolve_extended_merkle_nodes,
}

pub record FetchContractMerkleResult : Type 0 where
  pub commitment_count : ℕ
  pub commitments : List String
  pub merkle_root_hex : String
  pub updated_at : ℕ
  pub nodes : Option (List StellarLeanImtNode)

abbrev pub pool_merkle_state_to_cached_view : StellarPoolMerkleState → CachedPoolMerkleView
pool_merkle_state_to_cached_view state = record {
  commitments = state.commitments;
  updated_at = state.updated_at;
  merkle_root_hex = some state.merkle_root_hex;
  nodes = state.nodes;
}

abbrev pub view_from_cached_merkle :
    CachedPoolMerkleView → (merkle_root_hex : String) → FetchContractMerkleResult
view_from_cached_merkle cached merkle_root_hex = record {
  commitment_count = length cached.commitments;
  commitments = cached.commitments;
  merkle_root_hex = or_default cached.merkle_root_hex merkle_root_hex;
  updated_at = cached.updated_at;
  nodes = cached.nodes;
}

-- The contract's answer is a natural number, or it is something else.
abbrev pub require_commitment_count : Option ℕ → Attempt ℕ
require_commitment_count (some count) = answered count
require_commitment_count none =
    raised (error_object "Pool commitment count is not a non-negative integer.")

pub record PoolMerkleStatePort (V : Type 0) : Type 0 where
  pub get_state : String → Action V (Option StellarPoolMerkleState)
  pub set_state : StellarPoolMerkleState → Action V (Unit {0})

-- What this code reads of one contract.
pub record PoolTransactClient (V : Type 0) : Type 0 where
  pub get_commitment_count : Action V (Option ℕ)
  pub get_merkle_root : Action V String

-- The clients of the contracts by their ids, the ledger's reader and the clock.
pub record FetchPorts (V : Type 0) : Type 0 where
  pub create_pool_client : String → PoolTransactClient V
  pub get_ledger_entries : List LedgerKey → Action V (List TreeLeafLedgerEntry)
  pub date_now : Action V ℕ

abbrev pub merkle_state_for_persist : String → FetchContractMerkleResult → StellarPoolMerkleState
merkle_state_for_persist pool_contract fetched = record {
  pool_contract = pool_contract;
  commitments = fetched.commitments;
  commitment_count = length fetched.commitments;
  merkle_root_hex = fetched.merkle_root_hex;
  updated_at = fetched.updated_at;
  synced_ledger = none;
  nodes = fetched.nodes;
}

abbrev pub view_of : Option StellarPoolMerkleState → Option CachedPoolMerkleView
view_of none = none
view_of (some state) = some (pool_merkle_state_to_cached_view state)

module _ {V : Type 0} where
  abbrev pub set_where_stored :
      Option (PoolMerkleStatePort V) → StellarPoolMerkleState → Action V (Unit {0})
  set_where_stored none state = done tt
  set_where_stored (some port) state = port.set_state state

  abbrev pub read_cached_pool_merkle_view :
      Option (PoolMerkleStatePort V) → String → Action V (Option CachedPoolMerkleView)
  read_cached_pool_merkle_view none pool_contract = done none
  read_cached_pool_merkle_view (some port) pool_contract =
      port.get_state pool_contract >>= λ cached. done (view_of cached)

module _ {W : Type 0} (host : Option (MerkleSdkHost W)) (ports : FetchPorts (World W))
    (port : Option (PoolMerkleStatePort (World W))) where
  abbrev pub store_fetched :
      String → FetchContractMerkleResult → Action (World W) FetchContractMerkleResult
  store_fetched pool_contract fetched =
      set_where_stored port (merkle_state_for_persist pool_contract fetched) >>= λ stored.
      done fetched

  abbrev pub persist_changed :
      (pool_contract : String)
      → List String
      → (merkle_root_hex : String) → Option CachedPoolMerkleView
      → Action (World W) FetchContractMerkleResult
  persist_changed pool_contract commitments merkle_root_hex cached = do
    nodes ← resolve_extended_merkle_nodes host pool_contract cached commitments merkle_root_hex
    updated_at ← ports.date_now
    store_fetched pool_contract (record {
      commitment_count = length commitments;
      commitments = commitments;
      merkle_root_hex = merkle_root_hex;
      updated_at = updated_at;
      nodes = nodes;
    })

  abbrev pub persist_if :
      (pool_contract : String)
      → List String
      → (merkle_root_hex : String) → Option CachedPoolMerkleView
      → (unchanged : Bool) → Action (World W) FetchContractMerkleResult
  persist_if pool_contract commitments merkle_root_hex (some cached) true =
      done (view_from_cached_merkle cached merkle_root_hex)
  persist_if pool_contract commitments merkle_root_hex cached _ =
      persist_changed pool_contract commitments merkle_root_hex cached

  unfoldable pub persist_fetched_merkle_state :
      (pool_contract : String)
      → List String
      → (merkle_root_hex : String) → Option CachedPoolMerkleView
      → Action (World W) FetchContractMerkleResult
  unfolding resolve_extended_merkle_nodes
  persist_fetched_merkle_state pool_contract commitments merkle_root_hex cached =
      persist_if pool_contract commitments merkle_root_hex cached
        (cached_unchanged cached commitments merkle_root_hex)

  -- What follows once the contract's count is known.
  unfoldable pub fetch_counted :
      (commitment_buffer_to_decimal : String → String) (pool_contract : String) (on_chain_count : ℕ)
      → Action (World W) FetchContractMerkleResult
  unfolding persist_fetched_merkle_state load_commitments
  fetch_counted commitment_buffer_to_decimal pool_contract on_chain_count = do
    merkle_root_hex ← (ports.create_pool_client pool_contract).get_merkle_root
    cached ← read_cached_pool_merkle_view port pool_contract
    commitments ←
        load_commitments ports.get_ledger_entries commitment_buffer_to_decimal cached on_chain_count
          merkle_root_hex pool_contract
    persist_fetched_merkle_state pool_contract commitments merkle_root_hex cached

  unfoldable pub fetch_and_merge_merkle_state :
      (commitment_buffer_to_decimal : String → String) (pool_contract : String)
      → Action (World W) FetchContractMerkleResult
  unfolding fetch_counted
  fetch_and_merge_merkle_state commitment_buffer_to_decimal pool_contract = do
    count ← (ports.create_pool_client pool_contract).get_commitment_count
    on_chain_count ← lift (require_commitment_count count)
    fetch_counted commitment_buffer_to_decimal pool_contract on_chain_count
