-- ===== src/Stellar/Merkle/Table.antt =====
-- `Map`s with text keys, for the sessions of packages/stellar/src/transact/merkle/tree-session.ts: an
-- entry that is set stands first, and the entries that it hides are dropped.
use text.Mathlib.TextPositions.{eq_refl}
use privacy_layer_confidenti.Base.{
  String, true, false, Option, none, some, List, [], ◌∷◌, ◌==◌, ◌≡◌, refl, ap, ◌∙◌, inl, inr,
  if◌then◌else◌, Bool-cases, eq_iff,
}

abbrev pub Table : Type 0 → Type 0
Table A = List (String × A)

pub same_key : (key : String) → (key == key) ≡ true
same_key key = eq_refl key

module _ {A : Type 0} where
  unfoldable pub get : String → Table A → Option A
  get key [] = none
  get key ((k, a) ∷ rest) = let later = get key rest in if k == key then some a else later

  unfoldable pub delete : String → Table A → Table A
  delete key [] = []
  delete key ((k, a) ∷ rest) =
      let later = delete key rest in if k == key then later else (k, a) ∷ later

  abbrev pub set : String → A → Table A → Table A
  set key a table = (key, a) ∷ delete key table

  pub get-delete-same : (key : String) (table : Table A) → get key (delete key table) ≡ none
  unfolding get delete
  get-delete-same key [] = refl
  get-delete-same key ((k, a) ∷ rest) = elim (Bool-cases (k == key)) [
    | inl h ↦ rw h (get-delete-same key rest)
    | inr h ↦ rw (h, h) (get-delete-same key rest)
  ]

  pub get-delete-other :
      (key other : String) (table : Table A)
      → (other == key) ≡ false
      → get key (delete other table) ≡ get key table
  unfolding get delete
  get-delete-other key other [] h = refl
  get-delete-other key other ((k, a) ∷ rest) h =
      let later = get-delete-other key other rest h in
      elim (Bool-cases (k == other)) [
        | inl gone ↦
            let hidden : (k == key) ≡ false = ap (λ t. t == key) ((eq_iff k other).0 gone) ∙ h in
            rw (gone, hidden) later
        | inr kept ↦ rw (kept, later) refl
      ]

  pub get-set-same : (key : String) (a : A) (table : Table A) → get key (set key a table) ≡ some a
  unfolding get
  get-set-same key a table = rw (same_key key) refl

  pub get-set-other :
      (key other : String) (a : A) (table : Table A)
      → (other == key) ≡ false
      → get key (set other a table) ≡ get key table
  unfolding get
  get-set-other key other a table h = rw h (get-delete-other key other table h)
