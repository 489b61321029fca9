-- ===== src/Stellar/Selection/Greedy.antt =====
-- The sort and the loop of two records against a search through all records and all pairs
-- (packages/stellar/src/adapters/record-selection.ts).
use Prim.Native.Nat.{Ordering}
use privacy_layer_confidenti.Base.{
  ◌≡◌, refl, ap, sym, ◌∙◌, inl, inr, Bool, true, false, String, List, [], ◌∷◌, All, Bool-cases,
  Option, none, some, arith,
}
use privacy_layer_confidenti.Core.Operations.{Attempt, answered, raised, Action}
use privacy_layer_confidenti.Stellar.Int.{ℤ, pos, ◌+ℤ◌, ◌≤ℤ◌, leb_ℤ, int_arith}
use privacy_layer_confidenti.Stellar.Effects.{attempt_then, ◌>>=◌, lift}
use privacy_layer_confidenti.Stellar.Records.{PrivateRecord, RecordFilter, StellarIntent}
use privacy_layer_confidenti.Stellar.Selection.Arranged.{
  worth, Readable, covered_by_one, covered_by_two, is_covered, IsBelow, IsDescending, Arranged,
  sort-Arranged,
}
use privacy_layer_confidenti.Stellar.Selection.{
  pick_from, pick_records_for_spend_amount, select_private_records, spend_filter, unconsumed,
  spend_amount_covering_protocol_fee, pick_available, available_records,
}

leb_ℤ-false : (amount x y : ℤ) → x ≤ℤ y → leb_ℤ amount y ≡ false → leb_ℤ amount x ≡ false
leb_ℤ-false amount x y h e = ground arith

-- In descending order the first record decides for one, and the first two for two.
covered_by_one-below :
    (amount base top : ℤ) (rs : List PrivateRecord)
    → IsBelow top rs
    → leb_ℤ amount (base +ℤ top) ≡ false
    → covered_by_one amount base rs ≡ false
covered_by_one-below amount base top [] b h = refl
covered_by_one-below amount base top (r ∷ rs) b h =
    rw (leb_ℤ-false amount (base +ℤ worth r) (base +ℤ top) (omega (int_arith, b.0)) h)
      (covered_by_one-below amount base top rs b.1 h)

covered_by_two-below :
    (amount low top : ℤ) (rs : List PrivateRecord)
    → low ≤ℤ top
    → IsBelow low rs
    → IsDescending rs
    → leb_ℤ amount (top +ℤ low) ≡ false
    → covered_by_two amount rs ≡ false
covered_by_two-below amount low top [] l b d h = refl
covered_by_two-below amount low top (r ∷ rs) l b d h =
    rw
      (covered_by_one-below amount (worth r) (worth r) rs d.0
        (leb_ℤ-false amount (worth r +ℤ worth r) (top +ℤ low) (omega (int_arith, b.0)) h))
      (covered_by_two-below amount low top rs l b.1 d.1 h)

covered_by_one-first :
    (amount base : ℤ) (r : PrivateRecord) (rs : List PrivateRecord)
    → IsBelow (worth r) rs
    → covered_by_one amount base (r ∷ rs) ≡ leb_ℤ amount (base +ℤ worth r)
covered_by_one-first amount base r rs b = elim (Bool-cases (leb_ℤ amount (base +ℤ worth r))) [
  | inl enough ↦ rw enough refl
  | inr short ↦ rw (short, covered_by_one-below amount base (worth r) rs b short) refl
]

is_covered-short :
    (amount : ℤ) (x y : PrivateRecord) (rs : List PrivateRecord)
    → IsDescending (x ∷ y ∷ rs)
    → leb_ℤ amount (pos 0 +ℤ worth x) ≡ false
    → is_covered amount (x ∷ y ∷ rs) ≡ leb_ℤ amount (worth x +ℤ worth y)
is_covered-short amount x y rs d short = elim (Bool-cases (leb_ℤ amount (worth x +ℤ worth y))) [
  | inl pair ↦
      rw
        (
          covered_by_one-first amount (pos 0) x (y ∷ rs) d.0,
          short,
          covered_by_one-first amount (worth x) y rs d.1.0,
          pair,
        )
        refl
  | inr neither ↦
      rw
        (
          covered_by_one-first amount (pos 0) x (y ∷ rs) d.0,
          short,
          covered_by_one-first amount (worth x) y rs d.1.0,
          neither,
          covered_by_two-below amount (worth y) (worth x) (y ∷ rs) d.0.0 (omega arith, d.1.0) d.1
              neither,
        )
        refl
]

-- The loop over a descending list answers exactly if one or two of its records are worth the amount.
abbrev pub has_answered : Attempt (List PrivateRecord) → Bool
has_answered (answered rs) = true
has_answered (raised e) = false

pick_two :
    (amount : ℤ) (x y : PrivateRecord) (rs : List PrivateRecord)
    → All Readable (x ∷ y ∷ rs)
    → leb_ℤ amount (pos 0 +ℤ worth x) ≡ false
    → has_answered (pick_records_for_spend_amount (x ∷ y ∷ rs) amount)
      ≡ leb_ℤ amount (worth x +ℤ worth y)
unfolding pick_from
pick_two amount x y rs h short =
    let same : (pos 0 +ℤ worth x) +ℤ worth y ≡ worth x +ℤ worth y = omega int_arith in
    elim (Bool-cases (leb_ℤ amount (worth x +ℤ worth y))) [
      | inl pair ↦ rw (h.0, attempt_then, short, h.1.0, attempt_then, same, pair) refl
      | inr neither ↦ rw (h.0, attempt_then, short, h.1.0, attempt_then, same, neither) refl
    ]

pick-is_covered :
    (amount : ℤ) (rs : List PrivateRecord)
    → All Readable rs
    → IsDescending rs
    → has_answered (pick_records_for_spend_amount rs amount) ≡ is_covered amount rs
unfolding pick_from
pick-is_covered amount [] h d = refl
pick-is_covered amount (x ∷ []) h d = elim (Bool-cases (leb_ℤ amount (pos 0 +ℤ worth x))) [
  | inl enough ↦ rw (h.0, attempt_then, enough) refl
  | inr short ↦ rw (h.0, attempt_then, short) refl
]
pick-is_covered amount (x ∷ y ∷ rs) h d = elim (Bool-cases (leb_ℤ amount (pos 0 +ℤ worth x))) [
  | inl enough ↦ rw (h.0, attempt_then, enough) refl
  | inr short ↦ pick_two amount x y rs h short ∙ sym (is_covered-short amount x y rs d short)
]

after_sort :
    {W : Type 0} (key : Option String) (amount : ℤ) (rs : List PrivateRecord) (w : W)
    → ((available_records key none rs >>= λ available. lift (pick_available amount available)) w).0
      ≡ pick_available amount rs
after_sort none amount rs w = refl
after_sort (some key) amount rs w = refl

pick_available-is_covered :
    (amount : ℤ) (rs : List PrivateRecord)
    → All Readable rs
    → IsDescending rs
    → has_answered (pick_available amount rs)
      ≡ is_covered (spend_amount_covering_protocol_fee amount) rs
pick_available-is_covered amount [] h d = refl
pick_available-is_covered amount (r ∷ rs) h d =
    pick-is_covered (spend_amount_covering_protocol_fee amount) (r ∷ rs) h d

is_covered-Arranged :
    (amount : ℤ) (rs out : List PrivateRecord)
    → Arranged rs out
    → is_covered amount out ≡ is_covered amount rs
is_covered-Arranged amount rs out a = rw (a.ones amount (pos 0), a.twos amount) refl

module _ {W : Type 0} (locale_compare : String → String → Ordering)
    (list_private_records : RecordFilter → Action W (List PrivateRecord)) where
  -- Without a nullifier check, where storage answers and the amounts of the records that it lists as
  -- not consumed can be read, the selection answers exactly if one of these records, or two of them,
  -- are worth the intent's amount with the protocol's fee.
  pub select_private_records-is_covered :
      (intent : StellarIntent) (key : Option String) (w w' : W) (records : List PrivateRecord)
      → list_private_records (spend_filter intent) w ≡ (answered records, w')
      → All Readable (unconsumed records)
      → has_answered
          (select_private_records locale_compare list_private_records intent key none w).0
        ≡ is_covered (spend_amount_covering_protocol_fee intent.amount) (unconsumed records)
  unfolding select_private_records
  select_private_records-is_covered intent key w w' records listed readable =
      let (out, sorted, a) = sort-Arranged locale_compare (unconsumed records) readable in
      rw (listed, sorted)
        (ap has_answered (after_sort key intent.amount out w')
          ∙ pick_available-is_covered intent.amount out a.readable a.descending
          ∙ is_covered-Arranged _ (unconsumed records) out a)
