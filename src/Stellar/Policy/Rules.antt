-- ===== src/Stellar/Policy/Rules.antt =====
-- Which disclosures an operation may have (packages/stellar/src/policy, adapters/policy.ts).
use privacy_layer_confidenti.Base.{
  ◌≡◌, refl, sym, ap, ◌∙◌, ◌↔◌, ◌⊎◌, inl, inr, String, Option, none, some, List, [], ◌∷◌, ◌++◌,
  arith,
}
use privacy_layer_confidenti.Core.Errors.{
  OperationKind, deposit, transfer, withdraw, Disclosure, private_value, public_value,
  DisclosurePolicy, OperationIntent, PrivacySdkError,
}
use privacy_layer_confidenti.Core.Operations.{
  Attempt, answered, raised, PreparedOperation, prepared_operation,
}
use privacy_layer_confidenti.Core.Prepare.{
  PrivacyClientAdapters, validate_policy, prepare_privacy_operation,
}
use privacy_layer_confidenti.Core.Prepare.Admission.{prepared_by}
use privacy_layer_confidenti.Stellar.Effects.{resume, done}
use privacy_layer_confidenti.Stellar.Policy.{
  validate_stellar_disclosure, validate_stellar, run_external_policy, create_stellar_policy_adapter,
  Inspection,
}

abbrev IsPublic : Disclosure → Type 0
IsPublic d = d ≡ public_value

-- A transfer to a disclosed recipient discloses the asset and the amount; a withdrawal discloses these
-- as soon as it discloses anything but the sender; a deposit discloses its sender.
unfoldable pub IsDisclosable : OperationKind → DisclosurePolicy → Type 0
IsDisclosable transfer d =
    (d.recipient_address ≡ private_value) ⊎ (IsPublic d.asset_address × IsPublic d.amount)
IsDisclosable withdraw d =
    ((d.recipient_address ≡ private_value)
      × (d.asset_address ≡ private_value)
      × (d.amount ≡ private_value))
    ⊎ (IsPublic d.asset_address × IsPublic d.amount)
IsDisclosable deposit d = IsPublic d.sender_address

Disclosure-cases : (d : Disclosure) → (d ≡ private_value) ⊎ (d ≡ public_value)
Disclosure-cases private_value = inl refl
Disclosure-cases public_value = inr refl

accepted :
    (kind : OperationKind) (d : DisclosurePolicy)
    → validate_stellar_disclosure kind d ≡ []
    → IsDisclosable kind d
unfolding validate_stellar_disclosure IsDisclosable
accepted transfer d h = ground (
  arith,
  Disclosure-cases d.recipient_address,
  Disclosure-cases d.asset_address,
  Disclosure-cases d.amount,
)
accepted withdraw d h = ground (
  arith,
  Disclosure-cases d.recipient_address,
  Disclosure-cases d.asset_address,
  Disclosure-cases d.amount,
)
accepted deposit d h = ground (arith, Disclosure-cases d.sender_address)

permitted :
    (kind : OperationKind) (d : DisclosurePolicy)
    → IsDisclosable kind d
    → validate_stellar_disclosure kind d ≡ []
unfolding validate_stellar_disclosure IsDisclosable
permitted transfer d h = ground arith
permitted withdraw d h = ground arith
permitted deposit d h = ground arith

-- The rules find no error exactly where the disclosure is one of these.
pub validate_stellar_disclosure_iff :
    (kind : OperationKind) (d : DisclosurePolicy)
    → (validate_stellar_disclosure kind d ≡ []) ↔ IsDisclosable kind d
validate_stellar_disclosure_iff kind d = (accepted kind d, permitted kind d)

value_of {ℓ} : {A : Type ℓ} → A → Option A → A
value_of a none = a
value_of a (some b) = b

some_inj {ℓ} : {A : Type ℓ} {a b : A} → some a ≡ some b → a ≡ b
unfolding value_of
some_inj {a = a} h = ap (value_of a) h

module _ {W : Type 0} (inspection : Option (Inspection W)) where
  after_inspection :
      (es : List PrivacySdkError) (r : Attempt (List PrivacySdkError) × W) {w' : W}
      → resume (λ errors. done (es ++ errors)) r ≡ (answered [], w')
      → (es ≡ []) × (r ≡ (answered [], w'))
  after_inspection [] (answered errors, w) h = (refl, h)
  after_inspection (e ∷ es) (answered errors, w) h = absurd (ground arith)
  after_inspection es (raised e, w) h = absurd (ground arith)

  inspected-by :
      (kind : OperationKind) (intent : OperationIntent String String) (w : W) {w' : W}
      → validate_policy kind intent (create_stellar_policy_adapter inspection) w ≡ (answered [], w')
      → (validate_stellar_disclosure kind intent.disclosure ≡ [])
        × (run_external_policy kind intent inspection w ≡ (answered [], w'))
  unfolding validate_stellar
  inspected-by deposit intent w h =
      after_inspection _ (run_external_policy deposit intent inspection w) h
  inspected-by transfer intent w h =
      after_inspection _ (run_external_policy transfer intent inspection w) h
  inspected-by withdraw intent w h =
      after_inspection _ (run_external_policy withdraw intent inspection w) h

  module _ {Prepared Receipt Options : Type 0} where
    -- With the Stellar policy adapter, an operation is prepared only if its disclosure is one that the
    -- rules allow and the inspection, where there is one, did not throw.
    pub prepare_privacy_operation-IsDisclosable :
        (kind : OperationKind) (intent : OperationIntent String String)
        (adapters : PrivacyClientAdapters W String String Prepared Receipt Options) (w : W) {w' : W}
        {op : PreparedOperation W String String Prepared Receipt Options}
        → adapters.policy_adapter ≡ some (create_stellar_policy_adapter inspection)
        → prepare_privacy_operation kind intent adapters w ≡ (answered (prepared_operation op), w')
        → IsDisclosable kind intent.disclosure
          × (w₁ : W) × (run_external_policy kind intent inspection w ≡ (answered [], w₁))
    prepare_privacy_operation-IsDisclosable kind intent adapters w own h =
        let (p, n, w₁, prepared, ep, en, let_through, clean, made, same) =
          prepared_by kind intent adapters w h in
        let checked = inspected-by kind intent w (rw (some_inj (sym own ∙ ep)) clean) in
        (accepted kind intent.disclosure checked.0, w₁, checked.1)
