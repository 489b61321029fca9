-- ===== src/Stellar/Merkle/Reading.antt =====
-- The leaves that are read are those of the contract on the ledger
-- (packages/stellar/src/transact/merkle/read-tree-leaves.ts).
use privacy_layer_confidenti.Base.{
  ℕ, zero, suc, ◌+◌, ◌-◌, ◌≤◌, ◌<◌, ◌≡◌, refl, sym, ap, ◌∙◌, inl, inr, String, false, List, [], ◌∷◌,
  ltb, length, All, IsIn, Bool-cases, arith,
}
use mathlib.Core.Path.{subst}
use privacy_layer_confidenti.Core.Operations.{answered, Action}
use privacy_layer_confidenti.Stellar.Merkle.Leaves.{
  TreeLeafLedgerEntry, LedgerKey, collect_leaf_buffers, ledger_keys_from, ledger_keys_for_range,
  chunk_ledger_keys, read_batches, decimal_commitments_from, read_tree_leaf_commitments,
  tree_leaf_ledger_batch_size,
}
use privacy_layer_confidenti.Stellar.Merkle.Chain.{
  IsKnown, IsFaithful, entry_of, entry_of-IsFaithful, collect-IsKnown, collect-adds,
}
use privacy_layer_confidenti.Stellar.Merkle.Batches.{chunk-All, chunk-bounded}

-- The ledger: the bytes of a contract's leaf, and how many leaves it has at least.
pub record Ledger : Type 0 where
  pub leaf : String → ℕ → String
  pub size : String → ℕ

module _ {A : Type 0} (P Q : A → Type 0) where
  All-map : ((a : A) → P a → Q a) → (xs : List A) → All P xs → All Q xs
  All-map f [] h = tt
  All-map f (a ∷ xs) h = (f a h.0, All-map f xs h.1)

module _ {A : Type 0} (P : A → Type 0) where
  All-at : (a : A) (xs : List A) → All P xs → IsIn a xs → P a
  All-at a [] h x = elim x [ ]
  All-at a (b ∷ xs) h (inl same) = subst P (sym same) h.0
  All-at a (b ∷ xs) h (inr later) = All-at a xs h.1 later

  All-both :
      (Q R : A → Type 0)
      → ((a : A) → P a → Q a → R a)
      → (xs : List A) → All P xs
      → All Q xs
      → All R xs
  All-both Q R f [] p q = tt
  All-both Q R f (a ∷ xs) p q = (f a p.0 q.0, All-both Q R f xs p.1 q.1)

module _ (ledger : Ledger) where
  abbrev pub entry_at : LedgerKey → TreeLeafLedgerEntry
  entry_at k = entry_of (ledger.leaf k.contract_id) k.leaf_index

  -- The entry is that of one of the keys.
  abbrev pub IsAnswer : List LedgerKey → TreeLeafLedgerEntry → Type 0
  IsAnswer keys entry = (k : LedgerKey) × IsIn k keys × (entry ≡ entry_at k)

  -- The leaf that the key names is on the ledger.
  abbrev pub IsStored : LedgerKey → Type 0
  IsStored k = k.leaf_index < ledger.size k.contract_id

  module _ {W : Type 0}
      (get_ledger_entries : List LedgerKey → Action W (List TreeLeafLedgerEntry)) where
    -- Documented behaviour of `getLedgerEntries`: it takes up to 200 keys, and answers in whatever
    -- order with entries of these keys, leaving out those that are not on the ledger.
    pub record IsReader : Type 0 where
      pub entries : List LedgerKey → W → List TreeLeafLedgerEntry
      pub after : List LedgerKey → W → W
      pub answers :
          (keys : List LedgerKey) (w : W)
          → length keys ≤ 200
          → get_ledger_entries keys w ≡ (answered (entries keys w), after keys w)
      pub asked : (keys : List LedgerKey) (w : W) → All (IsAnswer keys) (entries keys w)
      pub complete :
          (keys : List LedgerKey) (w : W)
          → All (λ k. IsStored k → IsIn (entry_at k) (entries keys w)) keys

    module _ (reader : IsReader) (commitment_buffer_to_decimal : String → String)
        (contract_id : String) where
      abbrev leaf : ℕ → String
      leaf = ledger.leaf contract_id

      -- The key names a leaf of the contract that is on the ledger.
      abbrev IsOwn : LedgerKey → Type 0
      IsOwn k = (k.contract_id ≡ contract_id) × (k.leaf_index < ledger.size contract_id)

      IsAnswer-IsFaithful :
          (keys : List LedgerKey) (entry : TreeLeafLedgerEntry)
          → All IsOwn keys
          → IsAnswer keys entry
          → IsFaithful leaf entry
      IsAnswer-IsFaithful keys entry own (k, i, same) =
          let here = (All-at IsOwn k keys own i).0 in
          subst (IsFaithful leaf)
            (sym (same ∙ ap (λ c. entry_of (ledger.leaf c) k.leaf_index) here))
            (entry_of-IsFaithful leaf k.leaf_index)

      entries-IsFaithful :
          (keys : List LedgerKey) (w : W)
          → All IsOwn keys
          → All (IsFaithful leaf) (reader.entries keys w)
      entries-IsFaithful keys w own =
          All-map (IsAnswer keys) (IsFaithful leaf) (λ e. IsAnswer-IsFaithful keys e own)
            (reader.entries keys w) (reader.asked keys w)

      own_entry :
          (k : LedgerKey) (entries : List TreeLeafLedgerEntry)
          → IsOwn k
          → (IsStored k → IsIn (entry_at k) entries)
          → IsIn (entry_of leaf k.leaf_index) entries
      own_entry k entries (here, low) stored =
          subst (λ c. IsIn (entry_of (ledger.leaf c) k.leaf_index) entries) here
            (stored (subst (λ c. k.leaf_index < ledger.size c) (sym here) low))

      abbrev read : List (ℕ × String) → List (List LedgerKey) → Action W (List (ℕ × String))
      read = read_batches get_ledger_entries commitment_buffer_to_decimal

      -- The batches are read, and what is found has every leaf that was known and every leaf asked for.
      abbrev Reads : List (ℕ × String) → List (List LedgerKey) → W → Type 0
      Reads leaves batches w =
          (found : List (ℕ × String)) × (w' : W) × (read leaves batches w ≡ (answered found, w'))
          × ((index : ℕ) → IsKnown leaf leaves index → IsKnown leaf found index)
          × All (All (λ k. IsKnown leaf found k.leaf_index)) batches

      read_batches-All :
          (leaves : List (ℕ × String)) (batches : List (List LedgerKey)) (w : W)
          → All (λ batch. (length batch ≤ 100) × All IsOwn batch) batches
          → Reads leaves batches w
      unfolding read_batches
      read_batches-All leaves [] w own = (leaves, w, refl, (λ index h. h), tt)
      read_batches-All leaves (batch ∷ batches) w own =
          let entries = reader.entries batch w in
          let faithful = entries-IsFaithful batch w own.0.1 in
          let (found, w', reads, kept, here) =
            read_batches-All (collect_leaf_buffers entries leaves) batches (reader.after batch w)
              own.1 in
          (
            found,
            w',
            rw (reader.answers batch w (omega (arith, own.0.0))) reads,
            (λ index h. kept index (collect-IsKnown leaf entries leaves index faithful h)),
            (
              All-both IsOwn _ _
                  (λ k mine stored. kept k.leaf_index (
                    collect-adds leaf entries leaves k.leaf_index faithful
                      (own_entry k entries mine stored)))
                  batch own.0.1 (reader.complete batch w),
              here,
            ),
          )

      keys-IsOwn :
          (start count : ℕ)
          → start + count ≤ ledger.size contract_id
          → All IsOwn (ledger_keys_from contract_id start count)
      unfolding ledger_keys_from
      keys-IsOwn start zero h = tt
      keys-IsOwn start (suc count) h =
          ((refl, omega (arith, h)), keys-IsOwn (suc start) count (omega (arith, h)))

module _ (leaf : ℕ → String) (commitment_buffer_to_decimal : String → String) where
  -- The decimal texts of the ledger's leaves from the start on.
  unfoldable pub ledger_decimals : (start count : ℕ) → List String
  ledger_decimals start zero = []
  ledger_decimals start (suc count) =
      commitment_buffer_to_decimal (leaf start) ∷ ledger_decimals (suc start) count

  module _ {W : Type 0}
      (get_ledger_entries : List LedgerKey → Action W (List TreeLeafLedgerEntry)) where
    decimals-known :
        (leaves : List (ℕ × String)) (contract_id : String) (start count : ℕ)
        → All (λ k. IsKnown leaf leaves k.leaf_index) (ledger_keys_from contract_id start count)
        → decimal_commitments_from get_ledger_entries commitment_buffer_to_decimal leaves start
            count
          ≡ answered (ledger_decimals start count)
    unfolding decimal_commitments_from ledger_keys_from ledger_decimals
    decimals-known leaves contract_id start zero h = refl
    decimals-known leaves contract_id start (suc count) h =
        rw (h.0, decimals-known leaves contract_id (suc start) count h.1) refl

    empty_range : (start end : ℕ) → ltb start end ≡ false → ledger_decimals start (end - start) ≡ []
    unfolding ledger_decimals
    empty_range start end h = let none_left : end - start ≡ 0 = ground arith in rw none_left refl

module _ (ledger : Ledger) (commitment_buffer_to_decimal : String → String) {W : Type 0}
    (get_ledger_entries : List LedgerKey → Action W (List TreeLeafLedgerEntry)) where
  -- Where the contract has all leaves of the range, the commitments that are read are the decimal
  -- texts of these leaves, in order.
  pub read_tree_leaf_commitments-ledger :
      (reader : IsReader ledger get_ledger_entries) (contract_id : String)
      (start_index end_index : ℕ) (w : W)
      → end_index ≤ ledger.size contract_id
      → (w' : W) × (read_tree_leaf_commitments get_ledger_entries commitment_buffer_to_decimal
            contract_id start_index end_index w
          ≡ (
            answered (
                ledger_decimals
                  (ledger.leaf contract_id)
                  commitment_buffer_to_decimal
                  start_index
                  (end_index - start_index)),
            w',
          ))
  unfolding read_tree_leaf_commitments
  read_tree_leaf_commitments-ledger reader contract_id start_index end_index w low =
      let keys = ledger_keys_for_range contract_id start_index end_index in
      elim (Bool-cases (ltb start_index end_index)) [
        | inl some_leaf ↦
            let own =
              keys-IsOwn ledger get_ledger_entries reader commitment_buffer_to_decimal contract_id
                start_index (end_index - start_index) (ground arith) in
            let (found, w', reads, kept, here) =
              read_batches-All ledger get_ledger_entries reader commitment_buffer_to_decimal
                contract_id [] (chunk_ledger_keys keys tree_leaf_ledger_batch_size) w
                (chunk-bounded _ (length keys) 99 keys own) in
            (
              w',
              rw
                  (
                    read_tree_leaf_commitments,
                    some_leaf,
                    reads,
                    decimals-known (ledger.leaf contract_id) commitment_buffer_to_decimal
                        get_ledger_entries found contract_id start_index _
                        (chunk-All _ (length keys) 99 keys (ground arith) here),
                  )
                  refl,
            )
        | inr no_leaf ↦ (
          w,
          rw
              (
                read_tree_leaf_commitments,
                no_leaf,
                empty_range (ledger.leaf contract_id) commitment_buffer_to_decimal
                    get_ledger_entries start_index end_index no_leaf,
              )
              refl,
        )
      ]
