-- ===== src/Stellar/Merkle/Trees.antt =====
-- Importing, extending and dropping the package's trees
-- (packages/stellar/src/transact/merkle: lean-imt-api.ts, extend-snapshot.ts, tree-session.ts).
use Prim.Native.Nat.{◌%◌}
use privacy_layer_confidenti.Base.{
  ℕ, String, Bool, true, false, ◌&&◌, Option, none, some, List, [], ◌∷◌, ◌==◌, if◌then◌else◌,
  length, or_default, is_some, ltb,
}
use privacy_layer_confidenti.Js.Text.{same_code}
use privacy_layer_confidenti.Core.Operations.{answered, Action}
use privacy_layer_confidenti.Stellar.Effects.{◌>>=◌, ◌>>◌, done, try_catch}
use privacy_layer_confidenti.Stellar.Upsert.{same_text}
use privacy_layer_confidenti.Stellar.Merkle.Leaves.{take, drop}
use privacy_layer_confidenti.Stellar.Merkle.Cache.{StellarLeanImtNode, CachedPoolMerkleView}
use privacy_layer_confidenti.Stellar.Merkle.Table.{get}
use privacy_layer_confidenti.Stellar.Merkle.Sessions.{
  StateFile, StellarPoolMerkleState, MerkleSessions, MerkleTreeSession,
  merkle_snapshot_to_state_file, merkle_root_hex_to_fr_decimal, merkle_session_key, remember_handle,
}

module _ (W : Type 0) where
  -- The members that this code calls, of which only the snapshot's nodes are used.
  pub record LeanImtSessionApi : Type 0 where
    pub import_lean_imt_from_state : StateFile → Action W ℕ
    pub insert_two_lean_imt : ℕ → String → String → Action W String
    pub export_lean_imt : ℕ → Action W (List StellarLeanImtNode)
    pub drop_lean_imt : ℕ → Action W (Unit {0})

  -- The registered host, whose package may lack the members of a session.
  pub record MerkleSdkHost : Type 0 where
    pub get_initialized_sdk : Option (Action W (Option LeanImtSessionApi))

  -- What the outer world and this module's tables are together.
  abbrev pub World : Type 0
  World = W × MerkleSessions

abbrev pub outside : {W A : Type 0} → Action W A → Action (World W) A
outside m w = ((m w.0).0, ((m w.0).1, w.1))

abbrev pub no_value : {W A : Type 0} → Action (World W) (Option A)
no_value = done none

-- `try { return … } catch { return undefined }`
abbrev pub or_undefined : {W A : Type 0} → Action (World W) A → Action (World W) (Option A)
or_undefined m = try_catch (m >>= λ a. done (some a)) λ _. no_value

abbrev prefix_length : Option CachedPoolMerkleView → ℕ
prefix_length none = 0
prefix_length (some cached) = elim cached.nodes [
  | none ↦ 0
  | some nodes ↦ length cached.commitments
]

abbrev cached_root : Option CachedPoolMerkleView → Option String
cached_root none = none
cached_root (some cached) = cached.merkle_root_hex

abbrev pub cached_nodes : Option CachedPoolMerkleView → Option (List StellarLeanImtNode)
cached_nodes none = none
cached_nodes (some cached) = cached.nodes

abbrev pub prefix_snapshot_state :
    Option CachedPoolMerkleView → List String → (merkle_root_hex : String) → StateFile
prefix_snapshot_state cached commitments merkle_root_hex =
    merkle_snapshot_to_state_file (take (prefix_length cached) commitments)
      (or_default (cached_root cached) merkle_root_hex) (cached_nodes cached)

abbrev import_snapshot_state :
    (prefix : StateFile) (commitments : List String) (merkle_root_hex : String) → StateFile
import_snapshot_state prefix commitments merkle_root_hex =
    if is_some prefix.nodes && ltb 0 (length prefix.commitments)
    then prefix
    else merkle_snapshot_to_state_file commitments merkle_root_hex none

abbrev pub is_even_leaf_count : ℕ → Bool
is_even_leaf_count count = same_code (count % 2) 0

-- The nodes and the tree's handle.
abbrev pub ExtendedNodes : Type 0
ExtendedNodes = Option (List StellarLeanImtNode × ℕ)

abbrev pub with_handle : ℕ → Option (List StellarLeanImtNode) → ExtendedNodes
with_handle handle none = none
with_handle handle (some nodes) = some (nodes, handle)

abbrev pub cached_unchanged : Option CachedPoolMerkleView → List String → String → Bool
cached_unchanged none commitments merkle_root_hex = false
cached_unchanged (some cached) commitments merkle_root_hex =
    same_code (length cached.commitments) (length commitments)
    && same_text cached.merkle_root_hex (some merkle_root_hex)

abbrev has_key : Option MerkleTreeSession → String → Bool
has_key none key = false
has_key (some existing) key = existing.key == key

abbrev pub session_handle : Option MerkleTreeSession → Option ℕ
session_handle none = none
session_handle (some existing) = some existing.handle

module _ {W : Type 0} where
  abbrev pub remembering : (pool_contract key : String) (handle : ℕ) → Action (World W) (Unit {0})
  remembering pool_contract key handle w =
      (answered tt, (w.0, remember_handle pool_contract key handle w.1))

  abbrev pub existing_session : String → Action (World W) (Option MerkleTreeSession)
  existing_session pool_contract w = (answered (get pool_contract w.1.sessions_by_pool), w)

  abbrev pub initialized :
      Option (Action W (Option (LeanImtSessionApi W)))
      → Action (World W) (Option (LeanImtSessionApi W))
  initialized none = no_value
  initialized (some get_initialized_sdk) = try_catch (outside get_initialized_sdk) λ _. no_value

  abbrev pub load_session_sdk :
      Option (MerkleSdkHost W) → Action (World W) (Option (LeanImtSessionApi W))
  load_session_sdk none = no_value
  load_session_sdk (some host) = initialized host.get_initialized_sdk

  module _ (sdk : LeanImtSessionApi W) where
    abbrev pub import_handle : StateFile → Action (World W) (Option ℕ)
    import_handle state = or_undefined (outside (sdk.import_lean_imt_from_state state))

    unfoldable pub insert_new_pairs : ℕ → List String → Action (World W) Bool
    insert_new_pairs handle [] = done true
    insert_new_pairs handle (leaf_a ∷ []) = done false
    insert_new_pairs handle (leaf_a ∷ leaf_b ∷ leaves) =
        or_undefined (outside (sdk.insert_two_lean_imt handle leaf_a leaf_b)) >>= λ inserted.
        elim inserted [ none ↦ done false | some root ↦ insert_new_pairs handle leaves ]

    abbrev pub snapshot_nodes : ℕ → Action (World W) (Option (List StellarLeanImtNode))
    snapshot_nodes handle = or_undefined (outside (sdk.export_lean_imt handle))

    abbrev pub dropping : ℕ → Action (World W) (Unit {0})
    dropping handle = outside (sdk.drop_lean_imt handle)

    -- The nodes, or the tree is dropped.
    abbrev pub exported_or_dropped :
        ℕ → Option (List StellarLeanImtNode) → Action (World W) (Option (List StellarLeanImtNode))
    exported_or_dropped handle none = dropping handle >> no_value
    exported_or_dropped handle (some nodes) = done (some nodes)

    -- The leaves after the snapshot's go in, where it has nodes.
    abbrev pub insert_where_nodes :
        ℕ → Option (List StellarLeanImtNode) → List String → Action (World W) Bool
    insert_where_nodes handle none leaves = done true
    insert_where_nodes handle (some nodes) leaves = insert_new_pairs handle leaves

    abbrev pub export_if : ℕ → Bool → Action (World W) (Option (List StellarLeanImtNode))
    export_if handle false = dropping handle >> no_value
    export_if handle true = snapshot_nodes handle >>= exported_or_dropped handle

    abbrev pub export_extended_nodes :
        ℕ → StateFile → List String → Action (World W) (Option (List StellarLeanImtNode))
    export_extended_nodes handle prefix commitments =
        insert_where_nodes handle prefix.nodes (drop (length prefix.commitments) commitments)
        >>= export_if handle

    abbrev pub extend_imported :
        (prefix : StateFile) → List String → Option ℕ → Action (World W) ExtendedNodes
    extend_imported prefix commitments none = done none
    extend_imported prefix commitments (some handle) =
        export_extended_nodes handle prefix commitments >>= λ nodes. done (with_handle handle nodes)

  abbrev pub extend_if :
      LeanImtSessionApi W
      → (prefix : StateFile) → List String
      → (merkle_root_hex : String) → Bool
      → Action (World W) ExtendedNodes
  extend_if sdk prefix commitments merkle_root_hex false = done none
  extend_if sdk prefix commitments merkle_root_hex true =
      import_handle sdk (import_snapshot_state prefix commitments merkle_root_hex)
      >>= extend_imported sdk prefix commitments

  unfoldable pub extend_merkle_snapshot_nodes :
      LeanImtSessionApi W
      → Option CachedPoolMerkleView
      → List String
      → (merkle_root_hex : String) → Action (World W) ExtendedNodes
  unfolding insert_new_pairs merkle_root_hex_to_fr_decimal take drop
  extend_merkle_snapshot_nodes sdk cached commitments merkle_root_hex =
      extend_if sdk (prefix_snapshot_state cached commitments merkle_root_hex) commitments
        merkle_root_hex (is_even_leaf_count (length commitments))

  -- The tree is remembered, and the nodes go back.
  abbrev pub bind_extended :
      (pool_contract : String) (commitments : List String) (merkle_root_hex : String)
      → ExtendedNodes
      → Action (World W) (Option (List StellarLeanImtNode))
  bind_extended pool_contract commitments merkle_root_hex none = done none
  bind_extended pool_contract commitments merkle_root_hex (some (nodes, handle)) =
      remembering pool_contract
        (merkle_session_key
          (merkle_snapshot_to_state_file commitments merkle_root_hex (some nodes)))
        handle
      >>= λ remembered. done (some nodes)

  abbrev pub extend_and_bind :
      (pool_contract : String)
      → Option CachedPoolMerkleView
      → List String
      → (merkle_root_hex : String) → Option (LeanImtSessionApi W)
      → Action (World W) (Option (List StellarLeanImtNode))
  extend_and_bind pool_contract cached commitments merkle_root_hex none = done none
  extend_and_bind pool_contract cached commitments merkle_root_hex (some sdk) =
      extend_merkle_snapshot_nodes sdk cached commitments merkle_root_hex
      >>= bind_extended pool_contract commitments merkle_root_hex

  abbrev pub resolve_if :
      Option (MerkleSdkHost W)
      → (pool_contract : String) → Option CachedPoolMerkleView
      → List String
      → (merkle_root_hex : String) → (unchanged : Bool)
      → Action (World W) (Option (List StellarLeanImtNode))
  resolve_if host pool_contract cached commitments merkle_root_hex true = done (cached_nodes cached)
  resolve_if host pool_contract cached commitments merkle_root_hex false =
      load_session_sdk host >>= extend_and_bind pool_contract cached commitments merkle_root_hex

  unfoldable pub resolve_extended_merkle_nodes :
      Option (MerkleSdkHost W)
      → (pool_contract : String) → Option CachedPoolMerkleView
      → List String
      → (merkle_root_hex : String) → Action (World W) (Option (List StellarLeanImtNode))
  unfolding extend_merkle_snapshot_nodes remember_handle merkle_session_key
  resolve_extended_merkle_nodes host pool_contract cached commitments merkle_root_hex =
      resolve_if host pool_contract cached commitments merkle_root_hex
        (cached_unchanged cached commitments merkle_root_hex)

  abbrev pub drop_existing :
      LeanImtSessionApi W → Option MerkleTreeSession → Action (World W) (Unit {0})
  drop_existing sdk none = done tt
  drop_existing sdk (some existing) = dropping sdk existing.handle

  abbrev pub remember_imported :
      LeanImtSessionApi W
      → (pool_contract key : String) → (existing : Option MerkleTreeSession) → (imported : Option ℕ)
      → Action (World W) (Option ℕ)
  remember_imported sdk pool_contract key existing none = done none
  remember_imported sdk pool_contract key existing (some handle) =
      drop_existing sdk existing >>= λ dropped.
      remembering pool_contract key handle >>= λ remembered. done (some handle)

  abbrev pub bind_if :
      LeanImtSessionApi W
      → (pool_contract : String) → StateFile
      → Option MerkleTreeSession
      → (same_key : Bool) → Action (World W) (Option ℕ)
  bind_if sdk pool_contract snapshot existing true = done (session_handle existing)
  bind_if sdk pool_contract snapshot existing false =
      import_handle sdk snapshot
      >>= remember_imported sdk pool_contract (merkle_session_key snapshot) existing

  abbrev pub bind_loaded :
      (pool_contract : String)
      → StateFile
      → Option (LeanImtSessionApi W)
      → Action (World W) (Option ℕ)
  bind_loaded pool_contract snapshot none = done none
  bind_loaded pool_contract snapshot (some sdk) = existing_session pool_contract >>= λ existing.
      bind_if sdk pool_contract snapshot existing (has_key existing (merkle_session_key snapshot))

  unfoldable pub bind_pool_merkle_tree :
      Option (MerkleSdkHost W) → StellarPoolMerkleState → Action (World W) (Option ℕ)
  unfolding merkle_root_hex_to_fr_decimal merkle_session_key remember_handle get
  bind_pool_merkle_tree host state =
      load_session_sdk host
      >>= bind_loaded state.pool_contract
          (merkle_snapshot_to_state_file state.commitments state.merkle_root_hex state.nodes)
