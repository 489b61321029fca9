-- ===== src/Stellar/Outputs/Laws.antt =====
-- What the created records are worth (packages/stellar/src/adapters/transfer-output-records.ts).
use Prim.Native.Nat.{◌/◌}
use privacy_layer_confidenti.Base.{
  ℕ, zero, suc, ◌+◌, ◌*◌, ◌≤◌, ◌<◌, ◌≡◌, refl, ◌∙◌, Bool, true, false, String, some, List, [], ◌∷◌,
  ◌++◌, arith, Bool-cases, if◌then◌else◌, inl, inr,
}
use privacy_layer_confidenti.Stellar.Int.{ℤ, pos, negsuc, ◌+ℤ◌, ◌-ℤ◌, ◌≤ℤ◌, ltb_ℤ, int_arith}
use privacy_layer_confidenti.Stellar.Records.{PrivateRecord, StellarIntent}
use privacy_layer_confidenti.Stellar.Selection.{spend_amount_covering_protocol_fee}
use privacy_layer_confidenti.Stellar.Outputs.{
  create_output_record, with_change, build_transfer_output_records, build_withdraw_output_records,
}

-- What records say that they are worth together.
abbrev pub total_amount : List PrivateRecord → ℤ
total_amount [] = pos 0
total_amount (r ∷ rs) = r.amount +ℤ total_amount rs

total_amount-append_one :
    (rs : List PrivateRecord) (r : PrivateRecord)
    → total_amount (rs ++ (r ∷ [])) ≡ total_amount rs +ℤ r.amount
total_amount-append_one [] r = omega int_arith
total_amount-append_one (x ∷ rs) r = rw (total_amount-append_one rs r) (omega int_arith)

ltb_ℤ-ge : (x y : ℤ) → ltb_ℤ x y ≡ false → y ≤ℤ x
ltb_ℤ-ge x y h = ground arith

-- The change is added, where there is any to add.
total_amount-with_change :
    (key from asset : String) (change : ℤ) (outputs : List PrivateRecord)
    → pos 0 ≤ℤ change
    → total_amount (with_change key from asset change outputs) ≡ total_amount outputs +ℤ change
unfolding with_change create_output_record
total_amount-with_change key from asset change outputs h =
    elim (Bool-cases (ltb_ℤ (pos 0) change)) [
      | inl some_change ↦
          rw (with_change, some_change)
            (total_amount-append_one outputs (create_output_record key (some from) asset change))
      | inr no_change ↦
          rw (with_change, no_change) (omega (int_arith, h, ltb_ℤ-ge (pos 0) change no_change))
    ]

-- The amount with the fee: one hundredth more, rounded up.
pub spend_amount_bounds :
    (n : ℕ)
    → (fee : ℕ) × (spend_amount_covering_protocol_fee (pos n) ≡ pos (n + fee))
      × (n ≤ 100 * fee)
      × (100 * fee < n + 100)
unfolding spend_amount_covering_protocol_fee ◌+ℤ◌
spend_amount_bounds zero = (0, refl, omega arith, omega arith)
spend_amount_bounds (suc n) = ((suc n + 99) / 100, ground arith, omega arith, omega arith)

pub le-spend_amount : (amount : ℤ) → amount ≤ℤ spend_amount_covering_protocol_fee amount
unfolding spend_amount_covering_protocol_fee
le-spend_amount (pos zero) = omega arith
le-spend_amount (pos (suc n)) = let b = spend_amount_bounds (suc n) in rw (b.1) (omega arith)
le-spend_amount (negsuc n) = omega arith

-- A transfer's outputs are worth what it consumes, which is at least its amount.
pub total_amount-build_transfer :
    (intent : StellarIntent) (total : ℤ) (key : String)
    → intent.amount ≤ℤ total
    → total_amount (build_transfer_output_records intent total key) ≡ total
unfolding build_transfer_output_records create_output_record
total_amount-build_transfer intent total key h =
    total_amount-with_change key intent.from intent.asset (total -ℤ intent.amount) _
      (omega (int_arith, h))
    ∙ omega int_arith

-- A withdrawal's outputs are worth what it consumes, less its amount if the recipient is disclosed.
pub total_amount-build_withdraw :
    (from to asset : String) (amount total : ℤ) (disclosed : Bool) (key : String)
    → amount ≤ℤ total
    → total_amount (build_withdraw_output_records from to asset amount total disclosed key)
      ≡ (if disclosed then total -ℤ amount else total)
unfolding build_withdraw_output_records create_output_record
total_amount-build_withdraw from to asset amount total true key h =
    total_amount-with_change key _ asset (total -ℤ amount) [] (omega (int_arith, h))
    ∙ omega int_arith
total_amount-build_withdraw from to asset amount total false key h =
    total_amount-with_change key from asset (total -ℤ amount) _ (omega (int_arith, h))
    ∙ omega int_arith
