-- ===== src/Stellar/Selection/Selected.antt =====
-- What a selection that answers holds (packages/stellar/src/adapters/record-selection.ts).
use Prim.Native.Nat.{Ordering}
use privacy_layer_confidenti.Base.{
  ◌==◌, ◌≡◌, refl, Bool, true, false, String, Option, none, some, List, [], ◌∷◌, ◌++◌, All, IsIn,
  IsIn-self, arith, length, ltb,
}
use privacy_layer_confidenti.Js.Text.{trim}
use privacy_layer_confidenti.Core.Operations.{Attempt, answered, raised, Action}
use privacy_layer_confidenti.Stellar.Int.{ℤ, pos, ◌+ℤ◌, leb_ℤ}
use privacy_layer_confidenti.Stellar.Effects.{
  attempt_then-eq-answered, ◌>>=◌, lift, done, Ensures, Ensures-bind, Ensures-done, Ensures-lift,
}
use privacy_layer_confidenti.Stellar.Sort.{sort_by, sort_by-All}
use privacy_layer_confidenti.Stellar.Records.{
  PrivateRecord, PrivateCoinNote, RecordFilter, StellarIntent,
}
use privacy_layer_confidenti.Stellar.Selection.{
  read_record_spend_amount, compare_records_for_spend_selection, pick_from, pick_available,
  sum_from, select_private_records, spend_filter, unconsumed, spend_amount_covering_protocol_fee,
  sum_from, NullifierCheck, filter_unspent_from, available_records, missing_private_records,
  keep_unspent, non_empty,
}
use privacy_layer_confidenti.Stellar.Selection.Laws.{IsCover, pick_from-IsCover}

module _ {κ} (P : PrivateRecord → Type κ) where
  All-append_one :
      (rs : List PrivateRecord) (r : PrivateRecord) → All P rs → P r → All P (rs ++ (r ∷ []))
  All-append_one [] r h p = (p, tt)
  All-append_one (x ∷ rs) r h p = (h.0, All-append_one rs r h.1 p)

  pick_step-All :
      (amount total : ℤ) (selected rs : List PrivateRecord) (r : PrivateRecord)
      (picked : List PrivateRecord)
      → All P (selected ++ (r ∷ []))
      → (pick_from amount total (selected ++ (r ∷ [])) rs ≡ answered picked → All P picked)
      → elim (leb_ℤ amount total) [
        | true ↦ answered (selected ++ (r ∷ []))
        | false ↦ elim (ltb 1 (length (selected ++ (r ∷ [])))) [
          | true ↦ raised (missing_private_records amount total)
          | false ↦ pick_from amount total (selected ++ (r ∷ [])) rs
        ]
      ]
        ≡ answered picked
      → All P picked
  pick_step-All amount total selected rs r picked more rest e = ground arith

  -- The loop picks from the records that it is given.
  pick_from-All :
      (amount total : ℤ) (selected rs picked : List PrivateRecord)
      → All P selected
      → All P rs
      → pick_from amount total selected rs ≡ answered picked
      → All P picked
  unfolding pick_from
  pick_from-All amount total selected [] picked s h e = absurd (ground arith)
  pick_from-All amount total selected (r ∷ rs) picked s h e =
      let (v, read, e') = attempt_then-eq-answered (read_record_spend_amount r) _ e in
      let more = All-append_one selected r s h.0 in
      let rest = pick_from-All amount (total +ℤ v) (selected ++ (r ∷ [])) rs picked more h.1 in
      pick_step-All amount (total +ℤ v) selected rs r picked more rest e'

  keep_unspent-All :
      (spent : Bool) (r : PrivateRecord) (rs : List PrivateRecord)
      → All P rs
      → P r
      → All P (keep_unspent spent r rs)
  keep_unspent-All true r rs h p = h
  keep_unspent-All false r rs h p = All-append_one rs r h p

  unconsumed-All : (rs : List PrivateRecord) → All P rs → All P (unconsumed rs)
  unconsumed-All [] h = tt
  unconsumed-All (r ∷ rs) h = ground (arith, unconsumed-All rs h.1)

  module _ {W : Type 0} (key : String) (check : NullifierCheck W) where
    filter_round :
        (note : Option PrivateCoinNote) (unspent rs : List PrivateRecord) (r : PrivateRecord)
        → All P unspent
        → P r
        → ((kept : List PrivateRecord)
            → All P kept
            → Ensures (All P) (filter_unspent_from key check kept rs))
        → Ensures (All P) (elim note [
          | none ↦ filter_unspent_from key check (unspent ++ (r ∷ [])) rs
          | some coin ↦
              (check coin.nullifier key (non_empty r.private_address) >>= λ spent.
              filter_unspent_from key check (keep_unspent spent r unspent) rs)
        ])
    filter_round none unspent rs r u p rest =
        rest (unspent ++ (r ∷ [])) (All-append_one unspent r u p)
    filter_round (some coin) unspent rs r u p rest =
        Ensures-bind (All P) (check coin.nullifier key (non_empty r.private_address)) _
          λ w spent answer.
            rest (keep_unspent spent r unspent) (keep_unspent-All spent r unspent u p)

    filter_unspent_from-All :
        (unspent rs : List PrivateRecord)
        → All P unspent
        → All P rs
        → Ensures (All P) (filter_unspent_from key check unspent rs)
    unfolding filter_unspent_from
    filter_unspent_from-All unspent [] u h = Ensures-done (All P) unspent u
    filter_unspent_from-All unspent (r ∷ rs) u h =
        filter_round r.coin_note unspent rs r u h.0 λ kept k. filter_unspent_from-All kept rs k h.1

    blank_or_filtered :
        (blank : Bool) (rs : List PrivateRecord)
        → All P rs
        → Ensures
            (All P)
            (elim blank [ true ↦ done rs | false ↦ filter_unspent_from key check [] rs ])
    blank_or_filtered true rs h = Ensures-done (All P) rs h
    blank_or_filtered false rs h = filter_unspent_from-All [] rs tt h

  available_records-All :
      {W : Type 0} (key : Option String) (check : Option (NullifierCheck W))
      (rs : List PrivateRecord)
      → All P rs
      → Ensures (All P) (available_records key check rs)
  available_records-All (some key) (some check) rs h =
      blank_or_filtered (trim key) check (trim key == "") rs h
  available_records-All none check rs h = Ensures-done (All P) rs h
  available_records-All (some key) none rs h = Ensures-done (All P) rs h

pick_available-IsCover :
    (amount : ℤ) (rs picked : List PrivateRecord)
    → pick_available amount rs ≡ answered picked
    → IsCover (spend_amount_covering_protocol_fee amount) picked
unfolding sum_from
pick_available-IsCover amount [] picked e = absurd (ground arith)
pick_available-IsCover amount (r ∷ rs) picked e =
    pick_from-IsCover (spend_amount_covering_protocol_fee amount) (pos 0) [] (r ∷ rs) refl
      (omega arith) e

pick_available-All {κ} :
    (P : PrivateRecord → Type κ) (amount : ℤ) (rs picked : List PrivateRecord)
    → pick_available amount rs ≡ answered picked
    → All P rs
    → All P picked
pick_available-All P amount [] picked e h = absurd (ground arith)
pick_available-All P amount (r ∷ rs) picked e h =
    pick_from-All P (spend_amount_covering_protocol_fee amount) (pos 0) [] (r ∷ rs) picked tt h e

module _ {W : Type 0} (locale_compare : String → String → Ordering)
    (list_private_records : RecordFilter → Action W (List PrivateRecord)) where
  abbrev compare : PrivateRecord → PrivateRecord → Attempt Ordering
  compare = compare_records_for_spend_selection locale_compare

  -- The records are worth the amount and the fee, are no more than two, and stand in the list that
  -- storage gave, as not consumed.
  pub record IsSpend (intent : StellarIntent) (consumed : List PrivateRecord) : Type 0 where
    pub before : W
    pub listed : List PrivateRecord
    pub listed_lem : (list_private_records (spend_filter intent) before).0 ≡ answered listed
    pub cover : IsCover (spend_amount_covering_protocol_fee intent.amount) consumed
    pub members : All (λ r. IsIn r (unconsumed listed)) consumed

  pub select_private_records-IsSpend :
      (intent : StellarIntent) (key : Option String) (check : Option (NullifierCheck W))
      → Ensures
          (IsSpend intent)
          (select_private_records locale_compare list_private_records intent key check)
  unfolding select_private_records
  select_private_records-IsSpend intent key check =
      Ensures-bind (IsSpend intent) (list_private_records (spend_filter intent)) _ λ w listed el.
        Ensures-bind (IsSpend intent) (lift (sort_by compare (unconsumed listed))) _ λ _ sorted es.
          Ensures-bind (IsSpend intent) (available_records key check sorted) _ λ u available ea.
            Ensures-lift (IsSpend intent) (pick_available intent.amount available) λ picked ep.
              record {
                before = w;
                listed = listed;
                listed_lem = el;
                cover = pick_available-IsCover intent.amount available picked ep;
                members = pick_available-All _ intent.amount available picked ep (
                    available_records-All _ key check sorted
                      (sort_by-All _ compare (unconsumed listed) es (IsIn-self (unconsumed listed)))
                      u available ea);
              }
