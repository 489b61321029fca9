-- ===== src/Stellar/Sort.antt =====
-- `array.toSorted(compare)`: a stable sort by a comparison that may throw. The comparison's sign is an
-- `Ordering`.
use Prim.Native.Nat.{Ordering}
use privacy_layer_confidenti.Base.{◌≡◌, refl, ◌∙◌, Bool, true, false, List, [], ◌∷◌, All}
use privacy_layer_confidenti.Stellar.Int.{ℤ, pos, ◌+ℤ◌, int_arith}
use privacy_layer_confidenti.Core.Operations.{Attempt, answered}
use privacy_layer_confidenti.Stellar.Effects.{attempt_then, attempt_then-eq-answered, answered_inj}

unfoldable pub is_after : Ordering → Bool
is_after Ordering.gt = true
is_after _ = false

module _ {A : Type 0} where
  -- A value goes before the first that it does not come after.
  unfoldable pub insert_by : (A → A → Attempt Ordering) → A → List A → Attempt (List A)
  unfolding is_after
  insert_by compare x [] = answered (x ∷ [])
  insert_by compare x (y ∷ ys) = attempt_then (compare x y) λ sign. elim (is_after sign) [
    | true ↦ attempt_then (insert_by compare x ys) (λ rest. answered (y ∷ rest))
    | false ↦ answered (x ∷ y ∷ ys)
  ]

  unfoldable pub sort_by : (A → A → Attempt Ordering) → List A → Attempt (List A)
  unfolding insert_by
  sort_by compare [] = answered []
  sort_by compare (x ∷ xs) = attempt_then (sort_by compare xs) (insert_by compare x)

  pub insert_by-after :
      (compare : A → A → Attempt Ordering) (x y : A) (ys rest : List A) (sign : Ordering)
      → compare x y ≡ answered sign
      → is_after sign ≡ true
      → insert_by compare x ys ≡ answered rest
      → insert_by compare x (y ∷ ys) ≡ answered (y ∷ rest)
  unfolding insert_by
  insert_by-after compare x y ys rest sign e p r = rw (e, attempt_then, p, r) refl

  pub insert_by-before :
      (compare : A → A → Attempt Ordering) (x y : A) (ys : List A) (sign : Ordering)
      → compare x y ≡ answered sign
      → is_after sign ≡ false
      → insert_by compare x (y ∷ ys) ≡ answered (x ∷ y ∷ ys)
  unfolding insert_by
  insert_by-before compare x y ys sign e p = rw (e, attempt_then, p) refl

module _ {κ} {A : Type 0} (P : A → Type κ) (compare : A → A → Attempt Ordering) where
  insert_step :
      (x y : A) (ys : List A) (sign : Ordering) (out : List A)
      → elim (is_after sign) [
        | true ↦ attempt_then (insert_by compare x ys) (λ rest. answered (y ∷ rest))
        | false ↦ answered (x ∷ y ∷ ys)
      ]
        ≡ answered out
      → P x
      → All P (y ∷ ys)
      → ((rest : List A) → insert_by compare x ys ≡ answered rest → All P rest)
      → All P out
  unfolding is_after
  insert_step x y ys Ordering.gt out e p h rec =
      let (rest, er, e') = attempt_then-eq-answered (insert_by compare x ys) _ e in
      rw (← answered_inj e') (h.0, rec rest er)
  insert_step x y ys _ out e p h rec = rw (← answered_inj e) (p, h)

  insert_by-All :
      (x : A) (l : List A) {out : List A}
      → insert_by compare x l ≡ answered out
      → P x
      → All P l
      → All P out
  unfolding insert_by is_after
  insert_by-All x [] e p h = rw (← answered_inj e) (p, tt)
  insert_by-All x (y ∷ ys) e p h =
      let (sign, es, e') = attempt_then-eq-answered (compare x y) _ e in
      insert_step x y ys sign _ e' p h (λ out e''. insert_by-All x ys e'' p h.1)

  -- A sort's items are the list's.
  pub sort_by-All :
      (l : List A) {out : List A} → sort_by compare l ≡ answered out → All P l → All P out
  unfolding sort_by
  sort_by-All [] e h = rw (← answered_inj e) tt
  sort_by-All (x ∷ xs) e h =
      let (mid, em, e') = attempt_then-eq-answered (sort_by compare xs) _ e in
      insert_by-All x mid e' h.0 (sort_by-All xs em h.1)

abbrev pub sum_by : {A : Type 0} → (A → ℤ) → List A → ℤ
sum_by g [] = pos 0
sum_by g (x ∷ xs) = g x +ℤ sum_by g xs

module _ {A : Type 0} (g : A → ℤ) (compare : A → A → Attempt Ordering) where
  insert_step_sum :
      (x y : A) (ys : List A) (sign : Ordering) (out : List A)
      → elim (is_after sign) [
        | true ↦ attempt_then (insert_by compare x ys) (λ rest. answered (y ∷ rest))
        | false ↦ answered (x ∷ y ∷ ys)
      ]
        ≡ answered out
      → ((rest : List A)
          → insert_by compare x ys ≡ answered rest
          → sum_by g rest ≡ g x +ℤ sum_by g ys)
      → sum_by g out ≡ g x +ℤ sum_by g (y ∷ ys)
  unfolding is_after
  insert_step_sum x y ys Ordering.gt out e rec =
      let (rest, er, e') = attempt_then-eq-answered (insert_by compare x ys) _ e in
      rw (← answered_inj e') (rw (rec rest er) (omega int_arith))
  insert_step_sum x y ys _ out e rec = rw (← answered_inj e) refl

  insert_by-sum :
      (x : A) (l : List A) {out : List A}
      → insert_by compare x l ≡ answered out
      → sum_by g out ≡ g x +ℤ sum_by g l
  unfolding insert_by is_after
  insert_by-sum x [] e = rw (← answered_inj e) refl
  insert_by-sum x (y ∷ ys) e =
      let (sign, es, e') = attempt_then-eq-answered (compare x y) _ e in
      insert_step_sum x y ys sign _ e' (λ rest e''. insert_by-sum x ys e'')

  -- A sort keeps the sums over the items.
  pub sort_by-sum :
      (l : List A) {out : List A} → sort_by compare l ≡ answered out → sum_by g out ≡ sum_by g l
  unfolding sort_by
  sort_by-sum [] e = rw (← answered_inj e) refl
  sort_by-sum (x ∷ xs) e =
      let (mid, em, e') = attempt_then-eq-answered (sort_by compare xs) _ e in
      insert_by-sum x mid e' ∙ rw (sort_by-sum xs em) refl
