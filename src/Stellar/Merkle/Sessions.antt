-- ===== src/Stellar/Merkle/Sessions.antt =====
-- The trees that are kept in the package that builds them, by pool and by snapshot
-- (packages/stellar/src/transact/merkle: tree-session.ts, extend-snapshot.ts, state-file.ts,
-- lean-imt-api.ts, field-decimal.ts). The package's operations are a record of actions on its world;
-- a member that it lacks is `none`.
use Prim.Native.Nat.{◌%◌}
use Prim.Native.String.{◌++◌ as str_append}
use privacy_layer_confidenti.Base.{
  ℕ, suc, String, false, Option, none, some, List, [], ◌∷◌, ◌==◌, if◌then◌else◌, length,
}
use privacy_layer_confidenti.Js.Text.{same_code, trim}
use privacy_layer_confidenti.Core.State.Serialization.{bigint_text}
use privacy_layer_confidenti.Stellar.BigInt.{digits}
use privacy_layer_confidenti.Stellar.Merkle.Cache.{StellarLeanImtNode}
use privacy_layer_confidenti.Stellar.Merkle.Table.{Table, get, set, delete}

pub record StateFile : Type 0 where
  pub commitments : List String
  pub nodes : Option (List StellarLeanImtNode)
  pub root : Option String

pub record StellarPoolMerkleState : Type 0 where
  pub pool_contract : String
  pub commitments : List String
  pub commitment_count : ℕ
  pub merkle_root_hex : String
  pub updated_at : ℕ
  pub synced_ledger : Option ℕ
  pub nodes : Option (List StellarLeanImtNode)

abbrev bn254 : ℕ
bn254 = 21888242871839275222246405745257275088548364400416034343698204186575808495617

abbrev text_length : String → ℕ
text_length String.[] = 0
text_length (String.◌∷◌ c s) = suc (text_length s)

abbrev reduced : Option ℕ → Option String
reduced none = none
reduced (some n) = some (bigint_text false (n % bn254))

-- A text of 64 hexadecimal digits, as its number in the field.
unfoldable pub merkle_root_hex_to_fr_decimal : String → Option String
unfolding trim bigint_text
merkle_root_hex_to_fr_decimal merkle_root_hex =
    let trimmed = trim merkle_root_hex in
    if same_code (text_length trimmed) 64 then reduced (digits 16 trimmed) else none

abbrev snapshot_with : List String → Option (List StellarLeanImtNode) → Option String → StateFile
snapshot_with commitments (some (node ∷ nodes)) (some root) = record {
  commitments = commitments;
  nodes = some (node ∷ nodes);
  root = some root;
}
snapshot_with commitments _ _ = record { commitments = commitments; nodes = none; root = none }

abbrev pub merkle_snapshot_to_state_file :
    List String → (merkle_root_hex : String) → Option (List StellarLeanImtNode) → StateFile
merkle_snapshot_to_state_file commitments merkle_root_hex nodes =
    snapshot_with commitments nodes (merkle_root_hex_to_fr_decimal merkle_root_hex)

abbrev first_or_empty : List String → String
first_or_empty [] = ""
first_or_empty (c ∷ cs) = c

abbrev last_or_empty : List String → String
last_or_empty [] = ""
last_or_empty (c ∷ []) = c
last_or_empty (c ∷ d ∷ cs) = last_or_empty (d ∷ cs)

abbrev count_text : List String → String
count_text commitments = bigint_text false (length commitments)

abbrev commitments_key : List String → String
commitments_key commitments = str_append (count_text commitments) (
    str_append ":"
      (str_append (first_or_empty commitments) (str_append ":" (last_or_empty commitments))))

unfoldable pub merkle_session_key : StateFile → String
unfolding bigint_text trim
merkle_session_key state = elim state.root [
  | none ↦ commitments_key state.commitments
  | some root ↦
      if trim root == ""
      then commitments_key state.commitments
      else str_append (count_text state.commitments) (str_append ":" (trim root))
]

pub record MerkleTreeSession : Type 0 where
  pub handle : ℕ
  pub key : String

-- `sessionsByPool` and `handlesByKey`
pub record MerkleSessions : Type 0 where
  pub sessions_by_pool : Table MerkleTreeSession
  pub handles_by_key : Table ℕ

abbrev pub forget : Option MerkleTreeSession → ℕ → Table ℕ → Table ℕ
forget none handle handles = handles
forget (some existing) handle handles =
    if same_code existing.handle handle then handles else delete existing.key handles

unfoldable pub remember_handle :
    (pool_contract key : String) (handle : ℕ) → MerkleSessions → MerkleSessions
unfolding get delete
remember_handle pool_contract key handle sessions = record {
  sessions_by_pool =
      set pool_contract (record { handle = handle; key = key }) sessions.sessions_by_pool;
  handles_by_key =
      set key handle
        (forget (get pool_contract sessions.sessions_by_pool) handle sessions.handles_by_key);
}

abbrev pub merkle_tree_handle_for_state : StateFile → MerkleSessions → Option ℕ
merkle_tree_handle_for_state state sessions = get (merkle_session_key state) sessions.handles_by_key
