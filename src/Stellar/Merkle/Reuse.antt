-- ===== src/Stellar/Merkle/Reuse.antt =====
-- The cache of a pool's commitments is transparent: with it, what is loaded is what the ledger has
-- (packages/stellar/src/transact/merkle/fetch-contract.ts).
use privacy_layer_confidenti.Base.{
  ℕ, zero, suc, ◌+◌, ◌-◌, ◌≤◌, ◌≡◌, refl, ap, ◌∙◌, inl, inr, String, Option, none, some, List, [],
  ◌∷◌, ◌++◌, ltb, length, Bool-cases, arith,
}
use privacy_layer_confidenti.Js.Text.{same_code}
use privacy_layer_confidenti.Core.Operations.{answered, Action}
use privacy_layer_confidenti.Stellar.Merkle.Leaves.{TreeLeafLedgerEntry, LedgerKey}
use privacy_layer_confidenti.Stellar.Merkle.Chain.{same_code-eq}
use privacy_layer_confidenti.Stellar.Merkle.Reading.{
  Ledger, IsReader, ledger_decimals, read_tree_leaf_commitments-ledger,
}
use privacy_layer_confidenti.Stellar.Merkle.Cache.{
  CachedPoolMerkleView, complete_cache_root_matches, reuse_cached_commitments, load_commitments,
}

module _ (leaf : ℕ → String) (commitment_buffer_to_decimal : String → String) where
  abbrev decimals : (start count : ℕ) → List String
  decimals = ledger_decimals leaf commitment_buffer_to_decimal

  pub length-ledger_decimals : (start count : ℕ) → length (decimals start count) ≡ count
  unfolding ledger_decimals
  length-ledger_decimals start zero = refl
  length-ledger_decimals start (suc count) = ap suc (length-ledger_decimals (suc start) count)

  ledger_decimals-split :
      (start m k n : ℕ) → k ≡ start + m → decimals start m ++ decimals k n ≡ decimals start (m + n)
  unfolding ledger_decimals
  ledger_decimals-split start zero k n h =
      let at_start : k ≡ start = ground arith in
      let none_before : 0 + n ≡ n = ground arith in rw (at_start, none_before) refl
  ledger_decimals-split start (suc m) k n h =
      let one_later : suc m + n ≡ suc (m + n) = ground arith in
      rw one_later (
        ap (λ rest. commitment_buffer_to_decimal (leaf start) ∷ rest)
          (ledger_decimals-split (suc start) m k n (ground arith)))

  -- The commitments are the ledger's first ones.
  abbrev pub IsLedgerPrefix : List String → Type 0
  IsLedgerPrefix commitments = commitments ≡ decimals 0 (length commitments)

  abbrev pub IsCoherent : Option CachedPoolMerkleView → Type 0
  IsCoherent none = Unit
  IsCoherent (some cached) = IsLedgerPrefix cached.commitments

  empty-IsLedgerPrefix : IsLedgerPrefix []
  unfolding ledger_decimals
  empty-IsLedgerPrefix = refl

  abbrev IsReusable : ℕ → List String → Type 0
  IsReusable on_chain_count reused = IsLedgerPrefix reused × (length reused ≤ on_chain_count)

  empty-IsReusable : (on_chain_count : ℕ) → IsReusable on_chain_count []
  empty-IsReusable on_chain_count = (empty-IsLedgerPrefix, ground arith)

  completes :
      (commitments : List String) (n : ℕ)
      → IsLedgerPrefix commitments
      → length commitments ≤ n
      → commitments ++ decimals (length commitments) (n - length commitments) ≡ decimals 0 n
  completes commitments n prefix short =
      let count = length commitments in
      ap (λ xs. xs ++ decimals count (n - count)) prefix
      ∙ ledger_decimals-split 0 count count (n - count) (ground arith)
      ∙ ap (decimals 0) (ground arith)

  -- What is reused is a prefix of the ledger's commitments, no longer than they are.
  reuse_cached_commitments-IsReusable :
      (cached_state : Option CachedPoolMerkleView) (on_chain_count : ℕ) (merkle_root_hex : String)
      → IsCoherent cached_state
      → IsReusable on_chain_count
          (reuse_cached_commitments cached_state on_chain_count merkle_root_hex)
  unfolding reuse_cached_commitments
  reuse_cached_commitments-IsReusable none n root h = empty-IsReusable n
  reuse_cached_commitments-IsReusable (some cached) n root h =
      let none_cached = same_code (length cached.commitments) 0 in
      let too_long = ltb n (length cached.commitments) in
      let same_length = same_code (length cached.commitments) n in
      elim (Bool-cases none_cached) [
        | inl t ↦ rw t (empty-IsReusable n)
        | inr t ↦ elim (Bool-cases too_long) [
          | inl l ↦ rw (t, l) (empty-IsReusable n)
          | inr l ↦ elim (Bool-cases same_length) [
            | inr s ↦ rw (t, l, s) (h, ground arith)
            | inl s ↦ elim (Bool-cases (complete_cache_root_matches cached.merkle_root_hex root)) [
              | inl m ↦ rw (t, l, s, m) (h, ground arith)
              | inr m ↦ rw (t, l, s, m) (empty-IsReusable n)
            ]
          ]
        ]
      ]

module _ (ledger : Ledger) (commitment_buffer_to_decimal : String → String) {W : Type 0}
    (get_ledger_entries : List LedgerKey → Action W (List TreeLeafLedgerEntry)) where
  -- With a reader of the ledger, over a cache whose commitments are the contract's first ones, whether
  -- a root goes with them or not, the commitments that are loaded are the contract's up to the count,
  -- in order, where the contract has as many leaves.
  pub load_commitments-ledger :
      (reader : IsReader ledger get_ledger_entries) (cached_state : Option CachedPoolMerkleView)
      (on_chain_count : ℕ) (merkle_root_hex contract_id : String) (w : W)
      → on_chain_count ≤ ledger.size contract_id
      → IsCoherent (ledger.leaf contract_id) commitment_buffer_to_decimal cached_state
      → (w' : W) × (load_commitments get_ledger_entries commitment_buffer_to_decimal cached_state
            on_chain_count merkle_root_hex contract_id w
          ≡ (
            answered (
                ledger_decimals
                  (ledger.leaf contract_id)
                  commitment_buffer_to_decimal
                  0
                  on_chain_count),
            w',
          ))
  unfolding load_commitments
  load_commitments-ledger reader cached_state on_chain_count merkle_root_hex contract_id w low h =
      let leaf = ledger.leaf contract_id in
      let all = ledger_decimals leaf commitment_buffer_to_decimal 0 in
      let reused = reuse_cached_commitments cached_state on_chain_count merkle_root_hex in
      let (prefix, short) =
        reuse_cached_commitments-IsReusable leaf commitment_buffer_to_decimal cached_state
          on_chain_count merkle_root_hex h in
      elim (Bool-cases (same_code (length reused) on_chain_count)) [
        | inl full ↦ (
          w,
          rw (load_commitments, full)
              (ap (λ xs. (answered xs, w)) (prefix ∙ ap all (same_code-eq _ _ full))),
        )
        | inr partial ↦
            let (w', reads) =
              read_tree_leaf_commitments-ledger ledger commitment_buffer_to_decimal
                get_ledger_entries reader contract_id (length reused) on_chain_count w low in
            (
              w',
              rw (load_commitments, partial, reads)
                  (ap (λ xs. (answered xs, w'))
                    (completes leaf commitment_buffer_to_decimal reused on_chain_count prefix
                      short)),
            )
      ]
