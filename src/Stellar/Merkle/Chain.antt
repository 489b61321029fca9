-- ===== src/Stellar/Merkle/Chain.antt =====
-- Collecting the entries of leaves, where they have the leaves' bytes
-- (packages/stellar/src/transact/merkle/read-tree-leaves.ts).
use privacy_layer_confidenti.Base.{
  ℕ, ◌≡◌, refl, sym, ap, ◌∙◌, or_default, inl, inr, String, true, Option, none, some, List, [], ◌∷◌,
  All, IsIn, arith,
}
use privacy_layer_confidenti.Js.Text.{same_code}
use privacy_layer_confidenti.Stellar.Merkle.Leaves.{
  scv_bytes, TreeLeafLedgerEntry, tree_leaf_key_sc_value, leaf_index_from_contract_data_key,
  commitment_bytes_from_contract_data_value, put_entry, set_leaf, get_leaf, collect_leaf_buffers,
}

pub same_code-eq : (m n : ℕ) → same_code m n ≡ true → m ≡ n
same_code-eq m n h = ground arith

same_code_self : (n : ℕ) → same_code n n ≡ true
same_code_self n = ground arith

module _ (leaf : ℕ → String) where
  -- The map has the ledger's bytes at the index.
  abbrev pub IsKnown : List (ℕ × String) → ℕ → Type 0
  IsKnown leaves index = get_leaf index leaves ≡ some (leaf index)

  set_leaf-IsKnown_self :
      (index : ℕ) (leaves : List (ℕ × String)) → IsKnown (set_leaf index (leaf index) leaves) index
  unfolding set_leaf get_leaf
  set_leaf-IsKnown_self index [] = rw (same_code_self index) refl
  set_leaf-IsKnown_self index ((i, b) ∷ leaves) =
      ground (arith, same_code_self index, set_leaf-IsKnown_self index leaves)

  set_leaf-IsKnown :
      (index j : ℕ) (leaves : List (ℕ × String))
      → IsKnown leaves index
      → IsKnown (set_leaf j (leaf j) leaves) index
  unfolding set_leaf get_leaf
  set_leaf-IsKnown index j [] h = absurd (ground arith)
  set_leaf-IsKnown index j ((i, b) ∷ leaves) h = ground (arith, set_leaf-IsKnown index j leaves)

  -- An entry of a leaf has the leaf's bytes.
  abbrev pub IsFaithful : TreeLeafLedgerEntry → Type 0
  IsFaithful entry =
      (index : ℕ) (bytes : String)
      → leaf_index_from_contract_data_key entry.key ≡ some index
      → commitment_bytes_from_contract_data_value entry.val ≡ some bytes
      → bytes ≡ leaf index

  abbrev pub entry_of : ℕ → TreeLeafLedgerEntry
  entry_of index = record { key = tree_leaf_key_sc_value index; val = scv_bytes (leaf index) }

  pub entry_of-IsFaithful : (n : ℕ) → IsFaithful (entry_of n)
  unfolding leaf_index_from_contract_data_key
  entry_of-IsFaithful n index bytes h k =
      let same : n ≡ index = ap (λ o. or_default o n) h in
      let found : leaf n ≡ bytes = ap (λ o. or_default o (leaf n)) k in sym found ∙ ap leaf same

  put_entry-IsKnown :
      (i : Option ℕ) (b : Option String) (leaves : List (ℕ × String)) (index : ℕ)
      → ((j : ℕ) (bytes : String) → i ≡ some j → b ≡ some bytes → bytes ≡ leaf j)
      → IsKnown leaves index
      → IsKnown (put_entry i b leaves) index
  put_entry-IsKnown (some j) (some bytes) leaves index f h =
      rw (f j bytes refl refl) (set_leaf-IsKnown index j leaves h)
  put_entry-IsKnown (some j) none leaves index f h = h
  put_entry-IsKnown none b leaves index f h = h

  pub collect-IsKnown :
      (entries : List TreeLeafLedgerEntry) (leaves : List (ℕ × String)) (index : ℕ)
      → All IsFaithful entries
      → IsKnown leaves index
      → IsKnown (collect_leaf_buffers entries leaves) index
  unfolding collect_leaf_buffers
  collect-IsKnown [] leaves index f h = h
  collect-IsKnown (entry ∷ entries) leaves index f h =
      collect-IsKnown entries _ index f.1 (put_entry-IsKnown _ _ leaves index f.0 h)

  pub collect-adds :
      (entries : List TreeLeafLedgerEntry) (leaves : List (ℕ × String)) (index : ℕ)
      → All IsFaithful entries
      → IsIn (entry_of index) entries
      → IsKnown (collect_leaf_buffers entries leaves) index
  unfolding collect_leaf_buffers leaf_index_from_contract_data_key
  collect-adds [] leaves index f x = elim x [ ]
  collect-adds (entry ∷ entries) leaves index f (inl same) = rw (← same) (
      collect-IsKnown entries (set_leaf index (leaf index) leaves) index f.1
        (set_leaf-IsKnown_self index leaves))
  collect-adds (entry ∷ entries) leaves index f (inr later) = collect-adds entries _ index f.1 later
