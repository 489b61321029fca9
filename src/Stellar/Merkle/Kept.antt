-- ===== src/Stellar/Merkle/Kept.antt =====
-- The tables of trees stay sound whatever the package does
-- (packages/stellar/src/transact/merkle/tree-session.ts and extend-snapshot.ts).
use privacy_layer_confidenti.Base.{
  ℕ, String, Bool, true, false, Option, none, some, List, [], ◌∷◌, ◌≡◌, ◌≤◌, ◌<◌, refl, length,
  arith,
}
use privacy_layer_confidenti.Core.Operations.{Attempt, answered, raised, Action}
use privacy_layer_confidenti.Stellar.Effects.{◌>>◌, done, caught}
use privacy_layer_confidenti.Stellar.Merkle.Cache.{StellarLeanImtNode, CachedPoolMerkleView}
use privacy_layer_confidenti.Stellar.Merkle.Sessions.{
  StateFile, StellarPoolMerkleState, MerkleTreeSession, merkle_snapshot_to_state_file,
}
use privacy_layer_confidenti.Stellar.Merkle.Carries.{
  Post, Carries, Carries-bind, Post-caught, Post-same, Post-world, Post-weaken,
}
use privacy_layer_confidenti.Stellar.Merkle.Live.{IsSound, IsSound-mono, remember_handle-IsSound}
use privacy_layer_confidenti.Stellar.Merkle.Trees.{
  LeanImtSessionApi, MerkleSdkHost, World, outside, or_undefined, remembering, no_value, dropping,
  snapshot_nodes, exported_or_dropped, insert_where_nodes, with_handle, bind_extended,
  drop_existing, initialized, cached_unchanged, prefix_snapshot_state, extend_if, bind_if,
  bind_loaded, remember_imported, resolve_if, extend_and_bind, extend_imported, export_if,
  is_even_leaf_count, ExtendedNodes, export_extended_nodes, load_session_sdk, import_handle,
  insert_new_pairs, extend_merkle_snapshot_nodes, resolve_extended_merkle_nodes,
  bind_pool_merkle_tree,
}

module _ {W : Type 0} (next : W → ℕ) where
  -- The tables are sound below the next handle.
  abbrev pub IsFine : World W → Type 0
  IsFine v = IsSound (next v.0) v.1

  -- The handle was given out after the tables' handles.
  abbrev IsReady : ℕ → World W → Type 0
  IsReady h v = (b : ℕ) × IsSound b v.1 × (b ≤ h) × (h < next v.0)

  abbrev Grows : {A : Type 0} → Action W A → Type 0
  Grows m = (w : W) → next w ≤ next (m w).1

  -- Documented behaviour of the package: a tree that is imported has a handle that was not given out
  -- before, and nothing gives handles back.
  pub record GivesNewHandles (sdk : LeanImtSessionApi W) : Type 0 where
    pub new_handle :
        (state : StateFile) (w : W) (h : ℕ)
        → (sdk.import_lean_imt_from_state state w).0 ≡ answered h
        → (next w ≤ h) × (h < next (sdk.import_lean_imt_from_state state w).1)
    pub on_import : (state : StateFile) → Grows (sdk.import_lean_imt_from_state state)
    pub on_insert : (h : ℕ) (a b : String) → Grows (sdk.insert_two_lean_imt h a b)
    pub on_export : (h : ℕ) → Grows (sdk.export_lean_imt h)
    pub on_drop : (h : ℕ) → Grows (sdk.drop_lean_imt h)

  abbrev GivesNew : Attempt (Option (LeanImtSessionApi W)) → Type 0
  GivesNew (answered (some sdk)) = GivesNewHandles sdk
  GivesNew _ = Unit

  abbrev InitializedGivesNew : Option (Action W (Option (LeanImtSessionApi W))) → Type 0
  InitializedGivesNew none = Unit
  InitializedGivesNew (some get) = Grows get × ((w : W) → GivesNew (get w).0)

  abbrev pub HostGivesNew : Option (MerkleSdkHost W) → Type 0
  HostGivesNew none = Unit
  HostGivesNew (some host) = InitializedGivesNew host.get_initialized_sdk

  IsReady-IsFine : (h : ℕ) (v : World W) → IsReady h v → IsFine v
  IsReady-IsFine h v (b, sound, low, high) = IsSound-mono b (next v.0) v.1 (ground arith) sound

  outside-IsFine :
      {A : Type 0} (m : Action W A) → Grows m → Carries IsFine (outside m) (λ _. IsFine) IsFine
  outside-IsFine m grows v fine =
      Post-same IsFine (m v.0).0 ((m v.0).1, v.1)
        (IsSound-mono (next v.0) (next (m v.0).1) v.1 (grows v.0) fine)

  outside-IsReady :
      {A : Type 0} (h : ℕ) (m : Action W A)
      → Grows m
      → Carries (IsReady h) (outside m) (λ _. IsReady h) (IsReady h)
  outside-IsReady h m grows v (b, sound, low, high) =
      let later = grows v.0 in
      Post-same (IsReady h) (m v.0).0 ((m v.0).1, v.1) (b, sound, low, ground arith)

  remembering-IsFine :
      (pool key : String) (h : ℕ) (E : World W → Type 0)
      → Carries (IsReady h) (remembering pool key h) (λ _. IsFine) E
  remembering-IsFine pool key h E v (b, sound, low, high) =
      (remember_handle-IsSound pool key h b v.1 sound low (next v.0) high).0

  -- An action that may throw leaves what holds in either case.
  or_undefined-keeps :
      {A : Type 0} (E F : World W → Type 0) (m : Action (World W) A)
      → Carries E m (λ _. E) E
      → Carries E (or_undefined m) (λ _. E) F
  or_undefined-keeps E F m keeps v h =
      Post-caught (λ _. E) E F none _
        (Carries-bind E (λ _. E) (λ _. E) E m _ keeps (λ a u k. k) v h) (λ u k. k)

  tried-IsReady :
      {A : Type 0} (h : ℕ) (m : Action W A)
      → Grows m
      → Carries (IsReady h) (or_undefined (outside m)) (λ _. IsReady h) IsFine
  tried-IsReady h m grows =
      or_undefined-keeps (IsReady h) IsFine (outside m) (outside-IsReady h m grows)

  abbrev AfterImport : Option ℕ → World W → Type 0
  AfterImport none v = IsFine v
  AfterImport (some h) v = IsReady h v

  import_result :
      (r : Attempt ℕ) (b : ℕ) (v : World W)
      → IsSound b v.1
      → b ≤ next v.0
      → ((h : ℕ) → r ≡ answered h → (b ≤ h) × (h < next v.0))
      → Post IsReady IsFine (r, v)
  import_result (answered h) b v sound low new =
      (let fresh = new h refl in (b, sound, fresh.0, fresh.1))
  import_result (raised e) b v sound low new = IsSound-mono b (next v.0) v.1 low sound

  after_import :
      (m : Action (World W) ℕ)
      → Carries IsFine m IsReady IsFine
      → Carries IsFine (or_undefined m) AfterImport IsFine
  after_import m first v fine =
      Post-caught AfterImport IsFine IsFine none _
        (Carries-bind IsFine IsReady AfterImport IsFine m _ first (λ h u k. k) v fine) (λ u k. k)

  abbrev AfterExtend : ExtendedNodes → World W → Type 0
  AfterExtend none v = IsFine v
  AfterExtend (some (nodes, h)) v = IsReady h v

  module _ (sdk : LeanImtSessionApi W) (new : GivesNewHandles sdk) where
    import_handle-IsReady :
        (state : StateFile) → Carries IsFine (import_handle sdk state) AfterImport IsFine
    import_handle-IsReady state = after_import _ λ v fine.
        import_result _ (next v.0) _ fine (new.on_import state v.0) (new.new_handle state v.0)

    abbrev insert_rest : ℕ → List String → Option String → Action (World W) Bool
    insert_rest h leaves none = done false
    insert_rest h leaves (some root) = insert_new_pairs sdk h leaves

    insert_rest-IsReady :
        (h : ℕ) (leaves : List String)
        → Carries (IsReady h) (insert_new_pairs sdk h leaves) (λ _. IsReady h) IsFine
        → (inserted : Option String)
        → Carries (IsReady h) (insert_rest h leaves inserted) (λ _. IsReady h) IsFine
    insert_rest-IsReady h leaves later none v ready = ready
    insert_rest-IsReady h leaves later (some root) v ready = later v ready

    insert_new_pairs-IsReady :
        (h : ℕ) (leaves : List String)
        → Carries (IsReady h) (insert_new_pairs sdk h leaves) (λ _. IsReady h) IsFine
    unfolding insert_new_pairs
    insert_new_pairs-IsReady h [] v ready = ready
    insert_new_pairs-IsReady h (a ∷ []) v ready = ready
    insert_new_pairs-IsReady h (a ∷ b ∷ leaves) v ready =
        Carries-bind {A = Option String} {B = Bool} (IsReady h) (λ _. IsReady h) (λ _. IsReady h)
          IsFine (or_undefined (outside (sdk.insert_two_lean_imt h a b))) (insert_rest h leaves)
          (tried-IsReady h (sdk.insert_two_lean_imt h a b) (new.on_insert h a b))
          (insert_rest-IsReady h leaves (insert_new_pairs-IsReady h leaves)) v ready

    dropping-IsReady : (h d : ℕ) → Carries (IsReady h) (dropping sdk d) (λ _. IsReady h) IsFine
    dropping-IsReady h d v ready =
        Post-weaken (λ _. IsReady h) (IsReady h) IsFine (dropping sdk d v) (IsReady-IsFine h)
          (outside-IsReady h (sdk.drop_lean_imt d) (new.on_drop d) v ready)

    drop_all :
        (h : ℕ)
        → Carries
            (IsReady h)
            (dropping sdk h >> no_value {A = List StellarLeanImtNode})
            (λ _. IsReady h)
            IsFine
    drop_all h =
        Carries-bind {A = Unit {0}} {B = Option (List StellarLeanImtNode)} (IsReady h)
          (λ _. IsReady h) (λ _. IsReady h) IsFine _ _ (dropping-IsReady h h) (λ a u k. k)

    exported_or_dropped-IsReady :
        (h : ℕ) (nodes : Option (List StellarLeanImtNode))
        → Carries (IsReady h) (exported_or_dropped sdk h nodes) (λ _. IsReady h) IsFine
    exported_or_dropped-IsReady h none v ready = drop_all h v ready
    exported_or_dropped-IsReady h (some nodes) v ready = ready

    export_all :
        (h : ℕ) (inserted : Bool)
        → Carries (IsReady h) (export_if sdk h inserted) (λ _. IsReady h) IsFine
    export_all h false v ready = drop_all h v ready
    export_all h true v ready =
        Carries-bind {A = Option (List StellarLeanImtNode)} (IsReady h) (λ _. IsReady h)
          (λ _. IsReady h) IsFine (snapshot_nodes sdk h) _
          (tried-IsReady h (sdk.export_lean_imt h) (new.on_export h))
          (exported_or_dropped-IsReady h) v ready

    insert_where_nodes-IsReady :
        (h : ℕ) (nodes : Option (List StellarLeanImtNode)) (leaves : List String)
        → Carries (IsReady h) (insert_where_nodes sdk h nodes leaves) (λ _. IsReady h) IsFine
    insert_where_nodes-IsReady h none leaves v ready = ready
    insert_where_nodes-IsReady h (some nodes) leaves v ready =
        insert_new_pairs-IsReady h leaves v ready

    export_extended_nodes-IsReady :
        (h : ℕ) (prefix : StateFile) (commitments : List String)
        → Carries
            (IsReady h)
            (export_extended_nodes sdk h prefix commitments)
            (λ _. IsReady h)
            IsFine
    export_extended_nodes-IsReady h prefix commitments =
        Carries-bind {A = Bool} {B = Option (List StellarLeanImtNode)} (IsReady h) (λ _. IsReady h)
          (λ _. IsReady h) IsFine _ _ (insert_where_nodes-IsReady h prefix.nodes _) (export_all h)

    with_handle-AfterExtend :
        (h : ℕ) (nodes : Option (List StellarLeanImtNode)) (v : World W)
        → IsReady h v
        → AfterExtend (with_handle h nodes) v
    with_handle-AfterExtend h none v ready = IsReady-IsFine h v ready
    with_handle-AfterExtend h (some nodes) v ready = ready

    extend_imported-AfterExtend :
        (prefix : StateFile) (commitments : List String) (imported : Option ℕ)
        → Carries
            (AfterImport imported)
            (extend_imported sdk prefix commitments imported)
            AfterExtend
            IsFine
    extend_imported-AfterExtend prefix commitments none v fine = fine
    extend_imported-AfterExtend prefix commitments (some h) v ready =
        Carries-bind {A = Option (List StellarLeanImtNode)} {B = ExtendedNodes} (IsReady h)
          (λ _. IsReady h) AfterExtend IsFine _ _
          (export_extended_nodes-IsReady h prefix commitments)
          (λ nodes u k. with_handle-AfterExtend h nodes u k) v ready

    extend_if-AfterExtend :
        (prefix : StateFile) (commitments : List String) (merkle_root_hex : String) (even : Bool)
        → Carries IsFine (extend_if sdk prefix commitments merkle_root_hex even) AfterExtend IsFine
    extend_if-AfterExtend prefix commitments merkle_root_hex false v fine = fine
    extend_if-AfterExtend prefix commitments merkle_root_hex true v fine =
        Carries-bind {A = Option ℕ} {B = ExtendedNodes} IsFine AfterImport AfterExtend IsFine
          (import_handle sdk _) _ (import_handle-IsReady _)
          (extend_imported-AfterExtend prefix commitments) v fine

    extend-AfterExtend :
        (cached : Option CachedPoolMerkleView) (commitments : List String)
        (merkle_root_hex : String)
        → Carries IsFine
            (extend_merkle_snapshot_nodes sdk cached commitments merkle_root_hex)
            AfterExtend
            IsFine
    unfolding extend_merkle_snapshot_nodes
    extend-AfterExtend cached commitments merkle_root_hex =
        extend_if-AfterExtend (prefix_snapshot_state cached commitments merkle_root_hex) commitments
          merkle_root_hex (is_even_leaf_count (length commitments))

    drop_existing-IsReady :
        (h : ℕ) (existing : Option MerkleTreeSession)
        → Carries (IsReady h) (drop_existing sdk existing) (λ _. IsReady h) IsFine
    drop_existing-IsReady h none v ready = ready
    drop_existing-IsReady h (some existing) v ready = dropping-IsReady h existing.handle v ready

    remember_imported-IsFine :
        (pool key : String) (existing : Option MerkleTreeSession) (imported : Option ℕ)
        → Carries
            (AfterImport imported)
            (remember_imported sdk pool key existing imported)
            (λ _. IsFine)
            IsFine
    remember_imported-IsFine pool key existing none v fine = fine
    remember_imported-IsFine pool key existing (some h) v ready =
        Carries-bind {A = Unit {0}} {B = Option ℕ} (IsReady h) (λ _. IsReady h) (λ _. IsFine) IsFine
          (drop_existing sdk existing) _ (drop_existing-IsReady h existing)
          (λ dropped. remembering-IsFine pool key h IsFine) v ready

    bind_if-IsFine :
        (pool : String) (snapshot : StateFile) (existing : Option MerkleTreeSession) (same : Bool)
        → Carries IsFine (bind_if sdk pool snapshot existing same) (λ _. IsFine) IsFine
    bind_if-IsFine pool snapshot existing true v fine = fine
    bind_if-IsFine pool snapshot existing false v fine =
        Carries-bind {A = Option ℕ} {B = Option ℕ} IsFine AfterImport (λ _. IsFine) IsFine
          (import_handle sdk snapshot) _ (import_handle-IsReady snapshot)
          (remember_imported-IsFine pool _ existing) v fine

  bind_extended-IsFine :
      (pool : String) (commitments : List String) (merkle_root_hex : String)
      (extended : ExtendedNodes)
      → Carries
          (AfterExtend extended)
          (bind_extended pool commitments merkle_root_hex extended)
          (λ _. IsFine)
          IsFine
  bind_extended-IsFine pool commitments merkle_root_hex none v fine = fine
  bind_extended-IsFine pool commitments merkle_root_hex (some (nodes, h)) v ready =
      remembering-IsFine pool _ h IsFine v ready

  -- A package that is loaded gives new handles.
  abbrev AfterLoad : Option (LeanImtSessionApi W) → World W → Type 0
  AfterLoad none v = IsFine v
  AfterLoad (some sdk) v = GivesNewHandles sdk × IsFine v

  after_load :
      (r : Attempt (Option (LeanImtSessionApi W))) (v : World W)
      → GivesNew r
      → IsFine v
      → Post AfterLoad IsFine (caught (λ _. no_value) (r, v))
  after_load (answered none) v new fine = fine
  after_load (answered (some sdk)) v new fine = (new, fine)
  after_load (raised e) v new fine = fine

  initialized-AfterLoad :
      (get : Option (Action W (Option (LeanImtSessionApi W))))
      → InitializedGivesNew get
      → Carries IsFine (initialized get) AfterLoad IsFine
  initialized-AfterLoad none new v fine = fine
  initialized-AfterLoad (some get) new v fine =
      after_load (get v.0).0 ((get v.0).1, v.1) (new.1 v.0)
        (IsSound-mono (next v.0) (next (get v.0).1) v.1 (new.0 v.0) fine)

  load_session_sdk-AfterLoad :
      (host : Option (MerkleSdkHost W))
      → HostGivesNew host
      → Carries IsFine (load_session_sdk host) AfterLoad IsFine
  load_session_sdk-AfterLoad none new v fine = fine
  load_session_sdk-AfterLoad (some host) new v fine =
      initialized-AfterLoad host.get_initialized_sdk new v fine

  extend_and_bind-IsFine :
      (pool : String) (cached : Option CachedPoolMerkleView) (commitments : List String)
      (merkle_root_hex : String) (loaded : Option (LeanImtSessionApi W))
      → Carries
          (AfterLoad loaded)
          (extend_and_bind pool cached commitments merkle_root_hex loaded)
          (λ _. IsFine)
          IsFine
  extend_and_bind-IsFine pool cached commitments merkle_root_hex none v fine = fine
  extend_and_bind-IsFine pool cached commitments merkle_root_hex (some sdk) v h =
      Carries-bind {A = ExtendedNodes} {B = Option (List StellarLeanImtNode)} IsFine AfterExtend
        (λ _. IsFine) IsFine (extend_merkle_snapshot_nodes sdk cached commitments merkle_root_hex) _
        (extend-AfterExtend sdk h.0 cached commitments merkle_root_hex)
        (bind_extended-IsFine pool commitments merkle_root_hex) v h.1

  resolve_if-IsFine :
      (host : Option (MerkleSdkHost W))
      → HostGivesNew host
      → (pool : String) (cached : Option CachedPoolMerkleView) (commitments : List String)
        (merkle_root_hex : String) (unchanged : Bool)
      → Carries IsFine
          (resolve_if host pool cached commitments merkle_root_hex unchanged)
          (λ _. IsFine)
          IsFine
  resolve_if-IsFine host new pool cached commitments merkle_root_hex true v fine = fine
  resolve_if-IsFine host new pool cached commitments merkle_root_hex false v fine =
      Carries-bind {A = Option (LeanImtSessionApi W)} {B = Option (List StellarLeanImtNode)} IsFine
        AfterLoad (λ _. IsFine) IsFine (load_session_sdk host) _
        (load_session_sdk-AfterLoad host new)
        (extend_and_bind-IsFine pool cached commitments merkle_root_hex) v fine

  bind_loaded-IsFine :
      (pool : String) (snapshot : StateFile) (loaded : Option (LeanImtSessionApi W))
      → Carries (AfterLoad loaded) (bind_loaded pool snapshot loaded) (λ _. IsFine) IsFine
  bind_loaded-IsFine pool snapshot none v fine = fine
  bind_loaded-IsFine pool snapshot (some sdk) v h = bind_if-IsFine sdk h.0 pool snapshot _ _ v h.1

  pub bind_pool_merkle_tree-IsFine :
      (host : Option (MerkleSdkHost W)) (state : StellarPoolMerkleState) (v : World W)
      → HostGivesNew host
      → IsFine v
      → IsFine (bind_pool_merkle_tree host state v).1
  unfolding bind_pool_merkle_tree
  bind_pool_merkle_tree-IsFine host state v new fine =
      Post-world IsFine (bind_pool_merkle_tree host state v) (
        Carries-bind {A = Option (LeanImtSessionApi W)} {B = Option ℕ} IsFine AfterLoad
          (λ _. IsFine) IsFine (load_session_sdk host)
          (bind_loaded state.pool_contract
            (merkle_snapshot_to_state_file state.commitments state.merkle_root_hex state.nodes))
          (load_session_sdk-AfterLoad host new)
          (bind_loaded-IsFine state.pool_contract
            (merkle_snapshot_to_state_file state.commitments state.merkle_root_hex state.nodes))
          v fine)

  pub resolve_extended_merkle_nodes-IsFine :
      (host : Option (MerkleSdkHost W)) (pool : String) (cached : Option CachedPoolMerkleView)
      (commitments : List String) (merkle_root_hex : String) (v : World W)
      → HostGivesNew host
      → IsFine v
      → IsFine (resolve_extended_merkle_nodes host pool cached commitments merkle_root_hex v).1
  unfolding resolve_extended_merkle_nodes
  resolve_extended_merkle_nodes-IsFine host pool cached commitments merkle_root_hex v new fine =
      Post-world IsFine
        (resolve_extended_merkle_nodes host pool cached commitments merkle_root_hex v)
        (resolve_if-IsFine host new pool cached commitments merkle_root_hex
          (cached_unchanged cached commitments merkle_root_hex) v fine)
