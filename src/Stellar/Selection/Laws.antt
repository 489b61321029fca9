-- ===== src/Stellar/Selection/Laws.antt =====
-- What the selection of records guarantees (packages/stellar/src/adapters/record-selection.ts).
use privacy_layer_confidenti.Base.{
  suc, ◌≤◌, ◌≡◌, refl, ap, ◌⊎◌, inl, inr, true, List, [], ◌∷◌, ◌++◌, length, Bool-cases, arith,
}
use privacy_layer_confidenti.Core.Operations.{answered}
use privacy_layer_confidenti.Stellar.Int.{ℤ, pos, ◌+ℤ◌, ◌≤ℤ◌, leb_ℤ}
use privacy_layer_confidenti.Stellar.Effects.{attempt_then-eq-answered}
use privacy_layer_confidenti.Stellar.Records.{PrivateRecord}
use privacy_layer_confidenti.Stellar.Selection.{
  read_record_spend_amount, pick_from, sum_from, sum_record_amounts,
}

pub sum_from-append :
    (total : ℤ) (rs : List PrivateRecord) (r : PrivateRecord) {value s : ℤ}
    → sum_from total rs ≡ answered s
    → read_record_spend_amount r ≡ answered value
    → sum_from total (rs ++ (r ∷ [])) ≡ answered (s +ℤ value)
unfolding sum_from
sum_from-append total [] r h e = rw e (cc)
sum_from-append total (x ∷ rs) r h e =
    let (v, read, rest) = attempt_then-eq-answered (read_record_spend_amount x) _ h in
    rw read (sum_from-append (total +ℤ v) rs r rest e)

pub leb_ℤ-le : (x y : ℤ) → leb_ℤ x y ≡ true → x ≤ℤ y
leb_ℤ-le x y h = ground arith

length-append_one :
    (xs : List PrivateRecord) (r : PrivateRecord) → length (xs ++ (r ∷ [])) ≡ suc (length xs)
length-append_one [] r = refl
length-append_one (x ∷ xs) r = ap suc (length-append_one xs r)

-- The records that were picked are worth the amount, and are no more than two.
pub record IsCover (amount : ℤ) (picked : List PrivateRecord) : Type 0 where
  pub total : ℤ
  pub total_lem : sum_record_amounts picked ≡ answered total
  pub covers : amount ≤ℤ total
  pub at_least_one : 1 ≤ length picked
  pub at_most_two : length picked ≤ 2

-- One round of the loop, once the record's value is read.
pick_round :
    (amount total v : ℤ) (selected rs : List PrivateRecord) (r : PrivateRecord)
    (picked : List PrivateRecord)
    → sum_record_amounts (selected ++ (r ∷ [])) ≡ answered (total +ℤ v)
    → read_record_spend_amount r ≡ answered v
    → length selected ≤ 1
    → pick_from amount total selected (r ∷ rs) ≡ answered picked
    → IsCover amount picked
      ⊎ ((length selected ≡ 0)
          × (pick_from amount (total +ℤ v) (selected ++ (r ∷ [])) rs ≡ answered picked))
unfolding pick_from
pick_round amount total v selected rs r picked sum read n e =
    let len = length-append_one selected r in
    elim (Bool-cases (leb_ℤ amount (total +ℤ v))) [
      | inl enough ↦ inl (
          let same : selected ++ (r ∷ []) ≡ picked = ground arith in
          rw (← same) (record {
            total = total +ℤ v;
            total_lem = sum;
            covers = leb_ℤ-le amount (total +ℤ v) enough;
            at_least_one = omega arith;
            at_most_two = omega arith;
          }))
      | inr short ↦ inr (ground arith)
    ]

pub pick_from-IsCover :
    (amount total : ℤ) (selected rs : List PrivateRecord) {picked : List PrivateRecord}
    → sum_record_amounts selected ≡ answered total
    → length selected ≤ 1
    → pick_from amount total selected rs ≡ answered picked
    → IsCover amount picked
unfolding pick_from
pick_from-IsCover amount total selected [] h n e = absurd (ground arith)
pick_from-IsCover amount total selected (r ∷ rs) h n e =
    let (v, read, rest) = attempt_then-eq-answered (read_record_spend_amount r) _ e in
    let sum = sum_from-append (pos 0) selected r h read in
    elim (pick_round amount total v selected rs r _ sum read n e) [
      | inl cover ↦ cover
      | inr again ↦
          pick_from-IsCover amount (total +ℤ v) (selected ++ (r ∷ [])) rs sum
            (omega (arith, length-append_one selected r)) again.1
    ]
