-- ===== src/Stellar/Merkle/Batches.antt =====
-- The batches of packages/stellar/src/transact/merkle/read-tree-leaves.ts hold every key, and are no
-- longer than the batch size.
use privacy_layer_confidenti.Base.{ℕ, zero, suc, ◌≤◌, List, [], ◌∷◌, length, All, arith}
use privacy_layer_confidenti.Stellar.Merkle.Leaves.{take, drop, chunk_with}

module _ {A : Type 0} (P : A → Type 0) where
  take-drop-All : (n : ℕ) (xs : List A) → All P (take n xs) → All P (drop n xs) → All P xs
  unfolding take drop
  take-drop-All zero xs t d = d
  take-drop-All (suc n) [] t d = tt
  take-drop-All (suc n) (x ∷ xs) t d = (t.0, take-drop-All n xs t.1 d)

  length-drop : (n : ℕ) (xs : List A) → length (drop n xs) ≤ length xs
  unfolding drop
  length-drop zero xs = ground arith
  length-drop (suc n) [] = ground arith
  length-drop (suc n) (x ∷ xs) = ground (arith, length-drop n xs)

  -- As many batches as there are items hold every item.
  pub chunk-All :
      (fuel n : ℕ) (xs : List A)
      → length xs ≤ fuel
      → All (All P) (chunk_with fuel (suc n) xs)
      → All P xs
  unfolding chunk_with take drop
  chunk-All fuel n [] b h = tt
  chunk-All zero n (x ∷ xs) b h = absurd (ground arith)
  chunk-All (suc fuel) n (x ∷ xs) b h = (
    h.0.0,
    take-drop-All n xs h.0.1 (chunk-All fuel n (drop n xs) (ground (arith, length-drop n xs)) h.1),
  )

  take-All : (n : ℕ) (xs : List A) → All P xs → All P (take n xs)
  unfolding take
  take-All zero xs h = tt
  take-All (suc n) [] h = tt
  take-All (suc n) (x ∷ xs) h = (h.0, take-All n xs h.1)

  drop-All : (n : ℕ) (xs : List A) → All P xs → All P (drop n xs)
  unfolding drop
  drop-All zero xs h = h
  drop-All (suc n) [] h = tt
  drop-All (suc n) (x ∷ xs) h = drop-All n xs h.1

  length-take : (n : ℕ) (xs : List A) → length (take n xs) ≤ n
  unfolding take
  length-take zero xs = ground arith
  length-take (suc n) [] = ground arith
  length-take (suc n) (x ∷ xs) = ground (arith, length-take n xs)

  -- A batch is no longer than its size, and has the items' property.
  pub chunk-bounded :
      (fuel n : ℕ) (xs : List A)
      → All P xs
      → All (λ batch. (length batch ≤ suc n) × All P batch) (chunk_with fuel (suc n) xs)
  unfolding chunk_with take drop
  chunk-bounded fuel n [] h = tt
  chunk-bounded zero n (x ∷ xs) h = tt
  chunk-bounded (suc fuel) n (x ∷ xs) h = (
    (ground (arith, length-take n xs), (h.0, take-All n xs h.1)),
    chunk-bounded fuel n (drop n xs) (drop-All n xs h.1),
  )
