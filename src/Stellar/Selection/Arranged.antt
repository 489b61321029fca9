-- ===== src/Stellar/Selection/Arranged.antt =====
-- What records are worth, the search through all records and pairs, and the sort
-- (packages/stellar/src/adapters/record-selection.ts).
use Prim.Native.Nat.{Ordering}
use privacy_layer_confidenti.Base.{
  ◌≡◌, refl, ◌∙◌, if◌then◌else◌, ◌⊎◌, inl, inr, Bool, true, false, ◌||◌, String, List, [], ◌∷◌, All,
  arith,
}
use privacy_layer_confidenti.Core.Operations.{Attempt, answered, raised}
use privacy_layer_confidenti.Stellar.Int.{ℤ, pos, ◌+ℤ◌, ◌≤ℤ◌, ltb_ℤ, leb_ℤ, +ℤ_comm}
use privacy_layer_confidenti.Stellar.Sort.{
  is_after, insert_by, insert_by-after, insert_by-before, sort_by,
}
use privacy_layer_confidenti.Stellar.Records.{PrivateRecord}
use privacy_layer_confidenti.Stellar.Selection.{
  read_record_spend_amount, compare_records_for_spend_selection,
}

abbrev value_or_zero : Attempt ℤ → ℤ
value_or_zero (answered v) = v
value_or_zero (raised e) = pos 0

-- What a record is worth to a spend, where its amount can be read.
unfoldable pub worth : PrivateRecord → ℤ
worth r = value_or_zero (read_record_spend_amount r)

abbrev pub Readable : PrivateRecord → Type 0
Readable r = read_record_spend_amount r ≡ answered (worth r)

-- Some record, on top of what is there already, is worth the amount.
abbrev pub covered_by_one : (amount base : ℤ) → List PrivateRecord → Bool
covered_by_one amount base [] = false
covered_by_one amount base (r ∷ rs) =
    leb_ℤ amount (base +ℤ worth r) || covered_by_one amount base rs

-- Two records at different places together are worth the amount.
abbrev pub covered_by_two : ℤ → List PrivateRecord → Bool
covered_by_two amount [] = false
covered_by_two amount (r ∷ rs) = covered_by_one amount (worth r) rs || covered_by_two amount rs

-- The search through all records and all pairs.
abbrev pub is_covered : ℤ → List PrivateRecord → Bool
is_covered amount rs = covered_by_one amount (pos 0) rs || covered_by_two amount rs

abbrev pub IsBelow : ℤ → List PrivateRecord → Type 0
IsBelow top = All λ r. worth r ≤ℤ top

abbrev pub IsDescending : List PrivateRecord → Type 0
IsDescending [] = Unit
IsDescending (r ∷ rs) = IsBelow (worth r) rs × IsDescending rs

-- `out` is a sorted arrangement of `rs`.
pub record Arranged (rs out : List PrivateRecord) : Type 0 where
  pub readable : All Readable out
  pub descending : IsDescending out
  pub bounds : (top : ℤ) → IsBelow top rs → IsBelow top out
  pub ones : (amount base : ℤ) → covered_by_one amount base out ≡ covered_by_one amount base rs
  pub twos : (amount : ℤ) → covered_by_two amount out ≡ covered_by_two amount rs

IsBelow-trans :
    (top low : ℤ) (rs : List PrivateRecord) → low ≤ℤ top → IsBelow low rs → IsBelow top rs
IsBelow-trans top low [] h b = tt
IsBelow-trans top low (r ∷ rs) h b = (omega arith, IsBelow-trans top low rs h b.1)

abbrev sign_of : ℤ → ℤ → Ordering → Ordering
sign_of v w ids = if ltb_ℤ v w then Ordering.gt else if ltb_ℤ w v then Ordering.lt else ids

sign_of-cases :
    (v w : ℤ) (ids : Ordering)
    → ((is_after (sign_of v w ids) ≡ true) × (v ≤ℤ w))
      ⊎ ((is_after (sign_of v w ids) ≡ false) × (w ≤ℤ v))
unfolding is_after
sign_of-cases v w Ordering.lt = ground arith
sign_of-cases v w Ordering.eq = ground arith
sign_of-cases v w Ordering.gt = ground arith

-- Adding the same record in front keeps an arrangement, if the record is worth the most.
Arranged-cons :
    (y : PrivateRecord) (rs out : List PrivateRecord)
    → Readable y
    → IsBelow (worth y) rs
    → Arranged rs out
    → Arranged (y ∷ rs) (y ∷ out)
Arranged-cons y rs out h b a = record {
  readable = (h, a.readable);
  descending = (a.bounds (worth y) b, a.descending);
  bounds = λ top below_top. (below_top.0, a.bounds top below_top.1);
  ones = λ amount base. rw (a.ones amount base) refl;
  twos = λ amount. rw (a.ones amount (worth y), a.twos amount) refl;
}

or_swap : (a b c : Bool) → a || (b || c) ≡ b || (a || c)
or_swap true true c = refl
or_swap true false c = refl
or_swap false b c = refl

or_regroup : (p a b c : Bool) → (p || a) || (b || c) ≡ (p || b) || (a || c)
or_regroup true a b c = refl
or_regroup false a b c = or_swap a b c

-- Two records may change places.
Arranged-swap :
    (x y : PrivateRecord) (rs out : List PrivateRecord)
    → Arranged (y ∷ x ∷ rs) out
    → Arranged (x ∷ y ∷ rs) out
Arranged-swap x y rs out a = record {
  readable = a.readable;
  descending = a.descending;
  bounds = λ top b. a.bounds top (b.1.0, (b.0, b.1.1));
  ones = λ amount base.
      a.ones amount base
      ∙ or_swap (leb_ℤ amount (base +ℤ worth y)) (leb_ℤ amount (base +ℤ worth x)) _;
  twos = λ amount.
      a.twos amount
      ∙ rw (+ℤ_comm (worth y) (worth x)) (
          or_regroup (leb_ℤ amount (worth x +ℤ worth y)) (covered_by_one amount (worth y) rs)
            (covered_by_one amount (worth x) rs) _);
}

Arranged-self : (rs : List PrivateRecord) → All Readable rs → IsDescending rs → Arranged rs rs
Arranged-self rs h d = record {
  readable = h;
  descending = d;
  bounds = λ top b. b;
  ones = λ amount base. refl;
  twos = λ amount. refl;
}

Arranged-trans :
    (r : PrivateRecord) (rs mid out : List PrivateRecord)
    → Arranged rs mid
    → Arranged (r ∷ mid) out
    → Arranged (r ∷ rs) out
Arranged-trans r rs mid out a b = record {
  readable = b.readable;
  descending = b.descending;
  bounds = λ top h. b.bounds top (h.0, a.bounds top h.1);
  ones = λ amount base. b.ones amount base ∙ rw (a.ones amount base) refl;
  twos = λ amount. b.twos amount ∙ rw (a.ones amount (worth r), a.twos amount) refl;
}

module _ (locale_compare : String → String → Ordering) where
  abbrev pub compare : PrivateRecord → PrivateRecord → Attempt Ordering
  compare = compare_records_for_spend_selection locale_compare

  compare-cases :
      (x y : PrivateRecord)
      → Readable x
      → Readable y
      → (sign : Ordering) × (compare x y ≡ answered sign)
        × (((is_after sign ≡ true) × (worth x ≤ℤ worth y))
            ⊎ ((is_after sign ≡ false) × (worth y ≤ℤ worth x)))
  unfolding compare_records_for_spend_selection
  compare-cases x y hx hy = (
    sign_of (worth x) (worth y) (locale_compare x.id y.id),
    rw (hx, hy) refl,
    sign_of-cases (worth x) (worth y) (locale_compare x.id y.id),
  )

  insert-Arranged :
      (x : PrivateRecord) (rs : List PrivateRecord)
      → Readable x
      → All Readable rs
      → IsDescending rs
      → (out : List PrivateRecord) × (insert_by compare x rs ≡ answered out) × Arranged (x ∷ rs) out
  unfolding insert_by
  insert-Arranged x [] hx h d = (x ∷ [], refl, Arranged-self (x ∷ []) (hx, tt) (tt, tt))
  insert-Arranged x (y ∷ ys) hx h d =
      let (sign, e, after) = compare-cases x y hx h.0 in
      let (rest, er, ar) = insert-Arranged x ys hx h.1 d.1 in
      elim after [
        | inl p ↦ (
          y ∷ rest,
          insert_by-after compare x y ys rest sign e p.0 er,
          Arranged-swap x y ys (y ∷ rest) (Arranged-cons y (x ∷ ys) rest h.0 (p.1, d.0) ar),
        )
        | inr p ↦ (
          x ∷ y ∷ ys,
          insert_by-before compare x y ys sign e p.0,
          Arranged-self (x ∷ y ∷ ys) (hx, h)
              ((p.1, IsBelow-trans (worth x) (worth y) ys p.1 d.0), d),
        )
      ]

  -- The sort arranges readable records, and throws nothing.
  pub sort-Arranged :
      (rs : List PrivateRecord)
      → All Readable rs
      → (out : List PrivateRecord) × (sort_by compare rs ≡ answered out) × Arranged rs out
  unfolding sort_by
  sort-Arranged [] h = ([], refl, Arranged-self [] tt tt)
  sort-Arranged (r ∷ rs) h =
      let (mid, em, am) = sort-Arranged rs h.1 in
      let (out, eo, ao) = insert-Arranged r mid h.0 am.readable am.descending in
      (out, rw (em, eo) refl, Arranged-trans r rs mid out am ao)
