-- ===== src/Stellar/Int.antt =====
-- `bigint` values: integers, with the sums, differences and comparisons that the Stellar package
-- makes of amounts.
use privacy_layer_confidenti.Base.{
  ℕ, zero, suc, ◌+◌, ◌-◌, ◌≤◌, ◌≡◌, Bool, not, if◌then◌else◌, ltb, arith,
}

-- `negsuc n` is `-(n + 1)`.
pub data ℤ : Type 0 where
  pos : ℕ → ℤ
  negsuc : ℕ → ℤ

-- An integer is the difference of the two.
abbrev pub above : ℤ → ℕ
above (pos n) = n
above (negsuc n) = 0

abbrev pub below : ℤ → ℕ
below (pos n) = 0
below (negsuc n) = suc n

abbrev pub diff : ℕ → ℕ → ℤ
diff m n = if ltb m n then negsuc (n - suc m) else pos (m - n)

infixl 65 ◌+ℤ◌ ◌-ℤ◌
unfoldable pub ◌+ℤ◌ : ℤ → ℤ → ℤ
x +ℤ y = diff (above x + above y) (below x + below y)

unfoldable pub ◌-ℤ◌ : ℤ → ℤ → ℤ
x -ℤ y = diff (above x + below y) (below x + above y)

infix 50 ◌≤ℤ◌
abbrev pub ◌≤ℤ◌ : ℤ → ℤ → Type 0
x ≤ℤ y = above x + below y ≤ above y + below x

-- `x < y` and `x <= y`
abbrev pub ltb_ℤ : ℤ → ℤ → Bool
ltb_ℤ x y = ltb (above x + below y) (above y + below x)

abbrev pub leb_ℤ : ℤ → ℤ → Bool
leb_ℤ x y = not (ltb_ℤ y x)

pub above-+ℤ :
    (x y : ℤ) → above (x +ℤ y) + (below x + below y) ≡ below (x +ℤ y) + (above x + above y)
unfolding ◌+ℤ◌
above-+ℤ x y = ground arith

pub above--ℤ :
    (x y : ℤ) → above (x -ℤ y) + (below x + above y) ≡ below (x -ℤ y) + (above x + below y)
unfolding ◌-ℤ◌
above--ℤ x y = ground arith

pub eq_of_diff : (x y : ℤ) → above x + below y ≡ above y + below x → x ≡ y
eq_of_diff (pos m) (pos n) h = ground arith
eq_of_diff (pos m) (negsuc n) h = absurd (omega arith)
eq_of_diff (negsuc m) (pos n) h = absurd (omega arith)
eq_of_diff (negsuc m) (negsuc n) h = ground arith

-- With these the sum and the difference stay shut.
pub ruleset int_arith = (arith, above-+ℤ, above--ℤ, eq_of_diff)

pub +ℤ_comm : (x y : ℤ) → x +ℤ y ≡ y +ℤ x
+ℤ_comm x y = omega int_arith

pub +ℤ_assoc : (x y z : ℤ) → (x +ℤ y) +ℤ z ≡ x +ℤ (y +ℤ z)
+ℤ_assoc x y z = omega int_arith

pub +ℤ-zero : (x : ℤ) → x +ℤ pos 0 ≡ x
+ℤ-zero x = omega int_arith

pub zero-+ℤ : (x : ℤ) → pos 0 +ℤ x ≡ x
zero-+ℤ x = omega int_arith

pub +ℤ--ℤ : (x y : ℤ) → x +ℤ (y -ℤ x) ≡ y
+ℤ--ℤ x y = omega int_arith
