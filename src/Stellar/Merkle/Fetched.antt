-- ===== src/Stellar/Merkle/Fetched.antt =====
-- What a fetch returns is the ledger's (packages/stellar/src/transact/merkle/fetch-contract.ts).
use mathlib.Core.Path.{subst}
use privacy_layer_confidenti.Base.{
  ℕ, String, Bool, true, false, Option, none, some, List, ◌≡◌, refl, sym, ap, ◌∙◌, ◌&&◌, ◌≤◌,
  length,
}
use privacy_layer_confidenti.Core.Operations.{answered}
use privacy_layer_confidenti.Stellar.Effects.{
  ◌>>=◌, done, lift, Ensures, Ensures-bind, Ensures-done, answered_inj, resume-answer,
}
use privacy_layer_confidenti.Stellar.Merkle.Chain.{same_code-eq}
use privacy_layer_confidenti.Stellar.Merkle.Reading.{Ledger, IsReader, ledger_decimals}
use privacy_layer_confidenti.Stellar.Merkle.Cache.{CachedPoolMerkleView, load_commitments}
use privacy_layer_confidenti.Stellar.Merkle.Reuse.{
  IsLedgerPrefix, IsCoherent, load_commitments-ledger, length-ledger_decimals,
}
use privacy_layer_confidenti.Stellar.Merkle.Sessions.{StellarPoolMerkleState}
use privacy_layer_confidenti.Stellar.Merkle.Trees.{
  MerkleSdkHost, World, cached_unchanged, resolve_extended_merkle_nodes,
}
use privacy_layer_confidenti.Stellar.Merkle.Fetch.{
  FetchContractMerkleResult, store_fetched, view_from_cached_merkle, merkle_state_for_persist,
  PoolMerkleStatePort, FetchPorts, view_of, pool_merkle_state_to_cached_view, set_where_stored,
  persist_changed, persist_if, persist_fetched_merkle_state, require_commitment_count,
  fetch_counted, fetch_and_merge_merkle_state, read_cached_pool_merkle_view,
}

and-left : (a b : Bool) → a && b ≡ true → a ≡ true
and-left true b h = refl
and-left false b h = h

module _ (leaf : ℕ → String) (commitment_buffer_to_decimal : String → String) where
  abbrev decimals : ℕ → List String
  decimals count = ledger_decimals leaf commitment_buffer_to_decimal 0 count

  -- The result has the ledger's first commitments, as many as the count says.
  abbrev pub IsFetched : ℕ → FetchContractMerkleResult → Type 0
  IsFetched count fetched =
      (fetched.commitments ≡ decimals count) × (fetched.commitment_count ≡ count)

-- What is stored of a pool are its contract's first commitments.
abbrev pub StoresLedger :
    {W : Type 0} → Ledger → (String → String) → Option (PoolMerkleStatePort (World W)) → Type 0
StoresLedger ledger commitment_buffer_to_decimal none = Unit
StoresLedger {W = W} ledger commitment_buffer_to_decimal (some stored) =
    (pool : String) (w : World W) (state : StellarPoolMerkleState)
    → (stored.get_state pool w).0 ≡ answered (some state)
    → IsLedgerPrefix (ledger.leaf pool) commitment_buffer_to_decimal state.commitments

-- The contracts have as many leaves as their clients say.
abbrev pub CountsLedger : {W : Type 0} → Ledger → FetchPorts (World W) → Type 0
CountsLedger {W = W} ledger ports =
    (pool : String) (w : World W) (n : ℕ)
    → ((ports.create_pool_client pool).get_commitment_count w).0 ≡ answered (some n)
    → n ≤ ledger.size pool

module _ {W : Type 0} (leaf : ℕ → String) (commitment_buffer_to_decimal : String → String)
    (host : Option (MerkleSdkHost W)) (ports : FetchPorts (World W))
    (port : Option (PoolMerkleStatePort (World W))) where
  abbrev known : ℕ → List String
  known count = decimals leaf commitment_buffer_to_decimal count

  abbrev FetchedAt : ℕ → FetchContractMerkleResult → Type 0
  FetchedAt = IsFetched leaf commitment_buffer_to_decimal

  length-known : (count : ℕ) → length (known count) ≡ count
  length-known count = length-ledger_decimals leaf commitment_buffer_to_decimal 0 count

  store_fetched-IsFetched :
      (n : ℕ) (pool : String) (fetched : FetchContractMerkleResult)
      → FetchedAt n fetched
      → Ensures (FetchedAt n) (store_fetched host ports port pool fetched)
  store_fetched-IsFetched n pool fetched good =
      Ensures-bind (FetchedAt n) (set_where_stored port (merkle_state_for_persist pool fetched)) _
        λ x stored k. Ensures-done (FetchedAt n) fetched good

  persist_changed-IsFetched :
      (n : ℕ) (pool root : String) (cached : Option CachedPoolMerkleView)
      → Ensures (FetchedAt n) (persist_changed host ports port pool (known n) root cached)
  persist_changed-IsFetched n pool root cached =
      Ensures-bind (FetchedAt n) (resolve_extended_merkle_nodes host pool cached (known n) root) _
        λ w nodes found. Ensures-bind (FetchedAt n) ports.date_now _ λ u now m.
          store_fetched-IsFetched n pool
            (record {
              commitment_count = length (known n);
              commitments = known n;
              merkle_root_hex = root;
              updated_at = now;
              nodes = nodes;
            })
            (refl, length-known n)

  view-IsFetched :
      (n : ℕ) (root : String) (cached : CachedPoolMerkleView)
      → cached_unchanged (some cached) (known n) root ≡ true
      → IsLedgerPrefix leaf commitment_buffer_to_decimal cached.commitments
      → FetchedAt n (view_from_cached_merkle cached root)
  view-IsFetched n root cached same good =
      let count : length cached.commitments ≡ n =
        same_code-eq _ _ (and-left _ _ same) ∙ length-known n in
      (good ∙ ap known count, count)

  persist_if-IsFetched :
      (n : ℕ) (pool root : String) (cached : Option CachedPoolMerkleView) (unchanged : Bool)
      → cached_unchanged cached (known n) root ≡ unchanged
      → IsCoherent leaf commitment_buffer_to_decimal cached
      → Ensures (FetchedAt n) (persist_if host ports port pool (known n) root cached unchanged)
  persist_if-IsFetched n pool root none unchanged same good =
      persist_changed-IsFetched n pool root none
  persist_if-IsFetched n pool root (some cached) false same good =
      persist_changed-IsFetched n pool root (some cached)
  persist_if-IsFetched n pool root (some cached) true same good =
      Ensures-done (FetchedAt n) (view_from_cached_merkle cached root)
        (view-IsFetched n root cached same good)

  view_of-IsCoherent :
      (cached : Option StellarPoolMerkleState)
      → ((state : StellarPoolMerkleState)
          → cached ≡ some state
          → IsLedgerPrefix leaf commitment_buffer_to_decimal state.commitments)
      → Ensures {W = World W} (IsCoherent leaf commitment_buffer_to_decimal) (done (view_of cached))
  view_of-IsCoherent none good = Ensures-done (IsCoherent leaf commitment_buffer_to_decimal) none tt
  view_of-IsCoherent (some state) good =
      Ensures-done (IsCoherent leaf commitment_buffer_to_decimal)
        (some (pool_merkle_state_to_cached_view state)) (good state refl)

  persisted-IsFetched :
      (n : ℕ) (pool root : String) (commitments : List String)
      (cached : Option CachedPoolMerkleView)
      → known n ≡ commitments
      → IsCoherent leaf commitment_buffer_to_decimal cached
      → Ensures
          (FetchedAt n)
          (persist_fetched_merkle_state host ports port pool commitments root cached)
  unfolding persist_fetched_merkle_state
  persisted-IsFetched n pool root commitments cached same good =
      subst
        (λ cs.
          Ensures (FetchedAt n) (persist_fetched_merkle_state host ports port pool cs root cached))
        same
        (persist_if-IsFetched n pool root cached (cached_unchanged cached (known n) root) refl good)

module _ {W : Type 0} (ledger : Ledger) (commitment_buffer_to_decimal : String → String)
    (host : Option (MerkleSdkHost W)) (ports : FetchPorts (World W))
    (port : Option (PoolMerkleStatePort (World W))) where
  abbrev FetchedOf : String → ℕ → FetchContractMerkleResult → Type 0
  FetchedOf pool = IsFetched (ledger.leaf pool) commitment_buffer_to_decimal

  abbrev CoherentOf : String → Option CachedPoolMerkleView → Type 0
  CoherentOf pool = IsCoherent (ledger.leaf pool) commitment_buffer_to_decimal

  abbrev all_of : String → ℕ → List String
  all_of pool n = ledger_decimals (ledger.leaf pool) commitment_buffer_to_decimal 0 n

  read_cached-IsCoherent :
      (stored : Option (PoolMerkleStatePort (World W))) (pool : String)
      → StoresLedger ledger commitment_buffer_to_decimal stored
      → Ensures (CoherentOf pool) (read_cached_pool_merkle_view stored pool)
  read_cached-IsCoherent none pool good = Ensures-done (CoherentOf pool) none tt
  read_cached-IsCoherent (some stored) pool good =
      Ensures-bind (CoherentOf pool) (stored.get_state pool) _ λ w cached h.
        view_of-IsCoherent (ledger.leaf pool) commitment_buffer_to_decimal host ports port cached
          λ state same. good pool w state (h ∙ ap answered same)

  loads :
      (reader : IsReader ledger ports.get_ledger_entries) (cached : Option CachedPoolMerkleView)
      (n : ℕ) (root pool : String) (w : World W) (commitments : List String)
      → n ≤ ledger.size pool
      → CoherentOf pool cached
      → (load_commitments ports.get_ledger_entries commitment_buffer_to_decimal cached n root pool
          w).0
        ≡ answered commitments
      → all_of pool n ≡ commitments
  loads reader cached n root pool w commitments low good h =
      let (w', answer) =
        load_commitments-ledger ledger commitment_buffer_to_decimal ports.get_ledger_entries reader
          cached n root pool w low good in
      answered_inj (sym (ap (λ r. r.0) answer) ∙ h)

  counted-IsFetched :
      (reader : IsReader ledger ports.get_ledger_entries)
      (stores : StoresLedger ledger commitment_buffer_to_decimal port) (n : ℕ) (pool : String)
      → n ≤ ledger.size pool
      → Ensures
          (FetchedOf pool n)
          (fetch_counted host ports port commitment_buffer_to_decimal pool n)
  unfolding fetch_counted
  counted-IsFetched reader stores n pool low =
      Ensures-bind (FetchedOf pool n) (ports.create_pool_client pool).get_merkle_root _ λ w root r.
        Ensures-bind (FetchedOf pool n) (read_cached_pool_merkle_view port pool) _ λ u cached c.
          let good = read_cached-IsCoherent port pool stores u cached c in
          Ensures-bind (FetchedOf pool n)
            (load_commitments ports.get_ledger_entries commitment_buffer_to_decimal cached n root
              pool)
            _
            λ x commitments l.
              persisted-IsFetched (ledger.leaf pool) commitment_buffer_to_decimal host ports port n
                pool root commitments cached
                (loads reader cached n root pool x commitments low good l) good

  abbrev CountRead : String → World W → FetchContractMerkleResult → Type 0
  CountRead pool w fetched =
      (n : ℕ) × (((ports.create_pool_client pool).get_commitment_count w).0 ≡ answered (some n))
      × FetchedOf pool n fetched

  required :
      (reader : IsReader ledger ports.get_ledger_entries)
      (stores : StoresLedger ledger commitment_buffer_to_decimal port)
      (counts : CountsLedger ledger ports) (pool : String) (w u : World W) (count : Option ℕ)
      (fetched : FetchContractMerkleResult)
      → ((ports.create_pool_client pool).get_commitment_count w).0 ≡ answered count
      → ((lift (require_commitment_count count)
            >>= fetch_counted host ports port commitment_buffer_to_decimal pool)
          u).0
        ≡ answered fetched
      → CountRead pool w fetched
  required reader stores counts pool w u none fetched read h = cc
  required reader stores counts pool w u (some n) fetched read h =
      (n, read, counted-IsFetched reader stores n pool (counts pool w n read) u fetched h)

  -- With a reader of the ledger, clients that count no more leaves than there are, and a stored state
  -- that has the contracts' first commitments, a fetch that returns has read the pool contract's
  -- count, and returns that number and as many of this contract's commitments, in order.
  pub fetch_and_merge_merkle_state-ledger :
      (reader : IsReader ledger ports.get_ledger_entries)
      (stores : StoresLedger ledger commitment_buffer_to_decimal port)
      (counts : CountsLedger ledger ports) (pool_contract : String) (w : World W)
      (fetched : FetchContractMerkleResult)
      → (fetch_and_merge_merkle_state host ports port commitment_buffer_to_decimal pool_contract
          w).0
        ≡ answered fetched
      → (n : ℕ) × (((ports.create_pool_client pool_contract).get_commitment_count w).0
          ≡ answered (some n))
        × (fetched.commitments
            ≡ ledger_decimals (ledger.leaf pool_contract) commitment_buffer_to_decimal 0 n)
        × (fetched.commitment_count ≡ n)
  unfolding fetch_and_merge_merkle_state
  fetch_and_merge_merkle_state-ledger reader stores counts pool_contract w fetched h =
      let (count, read, rest) =
        resume-answer _ ((ports.create_pool_client pool_contract).get_commitment_count w) h in
      let (n, counted, good) =
        required reader stores counts pool_contract w _ count fetched read rest in
      (n, counted, good.0, good.1)
