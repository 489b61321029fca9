-- ===== src/Stellar/Tests/Trees.antt =====
-- Runs of the tree's cache (packages/stellar/src/transact/merkle): a ledger of two leaves, of which
-- one is stored, and a package that counts its trees.
use mathlib.Core.Bool.{true≢false}
use mathlib.Core.Path.{subst}
use mathlib.Core.Logic.{◌≢◌}
use privacy_layer_confidenti.Stellar.Effects.{answered_inj, error_object}
use privacy_layer_confidenti.Base.{
  ℕ, suc, String, Option, none, some, List, [], ◌∷◌, ◌≡◌, refl, sym, ap, if◌then◌else◌, is_some,
  All, IsIn, Bool, true, false, inl, inr, ltb, ◌==◌, or_default, length, arith,
}
use privacy_layer_confidenti.Js.Text.{same_code}
use privacy_layer_confidenti.Core.Operations.{answered, raised, Action}
use privacy_layer_confidenti.Stellar.Merkle.Leaves.{TreeLeafLedgerEntry, LedgerKey}
use privacy_layer_confidenti.Stellar.Merkle.Reading.{
  Ledger, entry_at, IsAnswer, IsStored, IsReader, ledger_decimals,
}
use privacy_layer_confidenti.Stellar.Merkle.Cache.{CachedPoolMerkleView, load_commitments}
use privacy_layer_confidenti.Stellar.Merkle.Reuse.{load_commitments-ledger}
use privacy_layer_confidenti.Stellar.Merkle.Table.{get}
use privacy_layer_confidenti.Stellar.Merkle.Sessions.{
  StellarPoolMerkleState, MerkleSessions, MerkleTreeSession, remember_handle,
}
use privacy_layer_confidenti.Stellar.Merkle.Live.{IsSound, remember_handle-IsSound}
use privacy_layer_confidenti.Stellar.Merkle.Trees.{
  LeanImtSessionApi, MerkleSdkHost, World, bind_pool_merkle_tree,
}
use privacy_layer_confidenti.Stellar.Merkle.Kept.{
  IsFine, GivesNewHandles, HostGivesNew, bind_pool_merkle_tree-IsFine,
}
use privacy_layer_confidenti.Stellar.Merkle.Fetch.{
  PoolMerkleStatePort, FetchPorts, FetchContractMerkleResult, fetch_and_merge_merkle_state,
}
use privacy_layer_confidenti.Stellar.Merkle.Fetched.{
  StoresLedger, CountsLedger, fetch_and_merge_merkle_state-ledger,
}

-- Two contracts, of which one has two leaves.
abbrev leaf : String → ℕ → String
leaf contract_id index =
    if contract_id == "pool" then (if same_code index 0 then "aa" else "bb") else "cc"

abbrev ledger : Ledger
ledger = record { leaf = leaf; size = λ contract_id. if contract_id == "pool" then 2 else 0 }

abbrev as_decimal : String → String
as_decimal bytes = bytes

-- The reader leaves out what is not on the ledger, and takes no more than 200 keys.
abbrev with_stored : LedgerKey → Bool → List TreeLeafLedgerEntry → List TreeLeafLedgerEntry
with_stored k true entries = entry_at ledger k ∷ entries
with_stored k false entries = entries

unfoldable entries_for : List LedgerKey → List TreeLeafLedgerEntry
entries_for [] = []
entries_for (k ∷ keys) =
    with_stored k (ltb k.leaf_index (ledger.size k.contract_id)) (entries_for keys)

unfoldable answer_all : {W : Type 0} → List LedgerKey → Action W (List TreeLeafLedgerEntry)
unfolding entries_for
answer_all keys w = (
  if ltb 200 (length keys)
      then raised (error_object "too many keys")
      else answered (entries_for keys),
  w,
)

weaken_answers :
    (k : LedgerKey) (keys : List LedgerKey) (entries : List TreeLeafLedgerEntry)
    → All (IsAnswer ledger keys) entries
    → All (IsAnswer ledger (k ∷ keys)) entries
weaken_answers k keys [] h = tt
weaken_answers k keys (e ∷ entries) h =
    let (j, here, same) = h.0 in ((j, inr here, same), weaken_answers k keys entries h.1)

with_stored-asked :
    (k : LedgerKey) (keys : List LedgerKey) (b : Bool) (entries : List TreeLeafLedgerEntry)
    → All (IsAnswer ledger keys) entries
    → All (IsAnswer ledger (k ∷ keys)) (with_stored k b entries)
with_stored-asked k keys true entries h = ((k, inl refl, refl), weaken_answers k keys entries h)
with_stored-asked k keys false entries h = weaken_answers k keys entries h

entries_for-asked : (keys : List LedgerKey) → All (IsAnswer ledger keys) (entries_for keys)
unfolding entries_for
entries_for-asked [] = tt
entries_for-asked (k ∷ keys) =
    with_stored-asked k keys _ (entries_for keys) (entries_for-asked keys)

abbrev HasStored : List TreeLeafLedgerEntry → LedgerKey → Type 0
HasStored entries k = IsStored ledger k → IsIn (entry_at ledger k) entries

with_stored-IsIn :
    (k : LedgerKey) (b : Bool) (e : TreeLeafLedgerEntry) (entries : List TreeLeafLedgerEntry)
    → IsIn e entries
    → IsIn e (with_stored k b entries)
with_stored-IsIn k true e entries h = inr h
with_stored-IsIn k false e entries h = h

with_stored-HasStored :
    (k : LedgerKey) (b : Bool) (entries : List TreeLeafLedgerEntry) (keys : List LedgerKey)
    → All (HasStored entries) keys
    → All (HasStored (with_stored k b entries)) keys
with_stored-HasStored k b entries [] h = tt
with_stored-HasStored k b entries (j ∷ keys) h = (
  (λ stored. with_stored-IsIn k b _ entries (h.0 stored)),
  with_stored-HasStored k b entries keys h.1,
)

entries_for_complete : (keys : List LedgerKey) → All (HasStored (entries_for keys)) keys
unfolding entries_for
entries_for_complete [] = tt
entries_for_complete (k ∷ keys) = (
  (λ stored.
      let present : ltb k.leaf_index (ledger.size k.contract_id) ≡ true = ground arith in
      rw present (inl refl)),
  with_stored-HasStored k _ (entries_for keys) keys (entries_for_complete keys),
)

answer_all-IsReader : (W : Type 0) → IsReader ledger {W = W} answer_all
unfolding answer_all
answer_all-IsReader W = record {
  entries = λ keys w. entries_for keys;
  after = λ keys w. w;
  answers = λ keys w few. let fits : ltb 200 (length keys) ≡ false = ground arith in rw fits refl;
  asked = λ keys w. entries_for-asked keys;
  complete = λ keys w. entries_for_complete keys;
}

abbrev one_cached : Option CachedPoolMerkleView
one_cached =
    some (record {
      commitments = "aa" ∷ [];
      updated_at = 7;
      merkle_root_hex = some "ff";
      nodes = none;
    })

load_commitments-ledger_example :
    (w : Unit {0}) × (load_commitments answer_all as_decimal one_cached 2 "ff" "pool" tt
      ≡ (answered (ledger_decimals (leaf "pool") as_decimal 0 2), w))
unfolding ledger_decimals
load_commitments-ledger_example =
    load_commitments-ledger ledger as_decimal answer_all (answer_all-IsReader Unit) one_cached 2
      "ff" "pool" tt (omega arith) refl

-- No session, and one.
abbrev no_sessions : MerkleSessions
no_sessions = record { sessions_by_pool = []; handles_by_key = [] }

no_sessions-IsSound : IsSound 0 no_sessions
unfolding get
no_sessions-IsSound = record {
  known = λ key handle h. absurd (true≢false (sym (ap is_some h)));
  bounded = λ pool e h. absurd (true≢false (sym (ap is_some h)));
  alone = λ p q e f h k same. absurd (true≢false (sym (ap is_some h)));
}

abbrev one_session : MerkleSessions
one_session = remember_handle "pool" "1:old" 3 no_sessions

one_session-IsSound : IsSound 4 one_session
one_session-IsSound =
    (remember_handle-IsSound "pool" "1:old" 3 0 no_sessions no_sessions-IsSound (omega arith) 4
      (omega arith)).0

remember_handle-IsSound_example :
    IsSound 10 (remember_handle "pool" "2:new" 9 one_session)
    × ((e : MerkleTreeSession) (k : String)
        → get "pool" one_session.sessions_by_pool ≡ some e
        → get k (remember_handle "pool" "2:new" 9 one_session).handles_by_key ≢ some e.handle)
remember_handle-IsSound_example =
    remember_handle-IsSound "pool" "2:new" 9 4 one_session one_session-IsSound (omega arith) 10
      (omega arith)

-- The package's world is the next handle.
abbrev counting : LeanImtSessionApi ℕ
counting = record {
  import_lean_imt_from_state = λ state w. (answered w, suc w);
  insert_two_lean_imt = λ h a b w. (answered "root", w);
  export_lean_imt = λ h w. (answered [], w);
  drop_lean_imt = λ h w. (answered tt, w);
}

abbrev same_next : ℕ → ℕ
same_next w = w

answered_handle : (m n : ℕ) → answered m ≡ answered n → m ≡ n
answered_handle m n h = answered_inj h

counting-GivesNewHandles : GivesNewHandles same_next counting
counting-GivesNewHandles = record {
  new_handle = λ state w h e. let same = answered_handle w h e in (ground arith, ground arith);
  on_import = λ state w. omega arith;
  on_insert = λ h a b w. omega arith;
  on_export = λ h w. omega arith;
  on_drop = λ h w. omega arith;
}

abbrev counting_host : Option (MerkleSdkHost ℕ)
counting_host = some (record { get_initialized_sdk = some (λ w. (answered (some counting), w)) })

counting_host-GivesNew : HostGivesNew same_next counting_host
counting_host-GivesNew = ((λ w. omega arith), λ w. counting-GivesNewHandles)

abbrev two_leaves : StellarPoolMerkleState
two_leaves = record {
  pool_contract = "pool";
  commitments = "11" ∷ "12" ∷ [];
  commitment_count = 2;
  merkle_root_hex = "ff";
  updated_at = 7;
  synced_ledger = none;
  nodes = none;
}

bind_example : IsFine same_next (bind_pool_merkle_tree counting_host two_leaves (4, one_session)).1
bind_example =
    bind_pool_merkle_tree-IsFine same_next counting_host two_leaves (4, one_session)
      counting_host-GivesNew one_session-IsSound

-- The state that is stored of a pool has its contract's first leaf.
abbrev stored_first : String → StellarPoolMerkleState
stored_first pool = record {
  pool_contract = pool;
  commitments = leaf pool 0 ∷ [];
  commitment_count = 1;
  merkle_root_hex = "ff";
  updated_at = 5;
  synced_ledger = none;
  nodes = none;
}

abbrev port : Option (PoolMerkleStatePort (World ℕ))
port = some (record {
  get_state = λ pool v. (answered (some (stored_first pool)), v);
  set_state = λ state v. (answered tt, v);
})

abbrev fetch_ports : FetchPorts (World ℕ)
fetch_ports = record {
  create_pool_client = λ pool. record {
    get_commitment_count = λ v. (answered (some (ledger.size pool)), v);
    get_merkle_root = λ v. (answered "ee", v);
  };
  get_ledger_entries = answer_all;
  date_now = λ v. (answered 9, v);
}

port-StoresLedger : StoresLedger ledger as_decimal port
unfolding ledger_decimals
port-StoresLedger pool v state h =
    let same : stored_first pool ≡ state =
      ap (λ o. or_default o (stored_first pool)) (answered_inj h) in
    subst (λ s. s.commitments ≡ ledger_decimals (leaf pool) as_decimal 0 (length s.commitments))
      same refl

fetch_ports-CountsLedger : CountsLedger ledger fetch_ports
fetch_ports-CountsLedger pool v n h =
    let same : ledger.size pool ≡ n = ap (λ o. or_default o 0) (answered_inj h) in ground arith

abbrev fetched_two : FetchContractMerkleResult
fetched_two = record {
  commitment_count = 2;
  commitments = "aa" ∷ "bb" ∷ [];
  merkle_root_hex = "ee";
  updated_at = 9;
  nodes = none;
}

fetches_two :
    (fetch_and_merge_merkle_state none fetch_ports port as_decimal "pool" (4, one_session)).0
    ≡ answered fetched_two
unfolding fetch_and_merge_merkle_state answer_all
fetches_two = refl

fetch_example :
    (n : ℕ) × (((fetch_ports.create_pool_client "pool").get_commitment_count (4, one_session)).0
      ≡ answered (some n))
    × (fetched_two.commitments ≡ ledger_decimals (ledger.leaf "pool") as_decimal 0 n)
    × (fetched_two.commitment_count ≡ n)
fetch_example =
    fetch_and_merge_merkle_state-ledger ledger as_decimal none fetch_ports port
      (answer_all-IsReader _) port-StoresLedger fetch_ports-CountsLedger "pool" (4, one_session)
      fetched_two fetches_two
