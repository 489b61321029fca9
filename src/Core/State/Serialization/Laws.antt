-- ===== src/Core/State/Serialization/Laws.antt =====
-- What normalisation keeps (packages/core/src/state/serialization/normalize-values.ts).
use privacy_layer_confidenti.Base.{
  String, Bool, true, false, ◌||◌, ◌≡◌, ◌≢◌, refl, sym, ap, ◌∙◌, List, [], ◌∷◌, arith,
}
use privacy_layer_confidenti.Js.Value.{
  Value, undefined, null, bool, num, bigint, str, arr, obj, Items, nil, item, Fields, end, field,
}
use privacy_layer_confidenti.Js.Fields.{get_field}
use privacy_layer_confidenti.Core.State.Tree.Laws.{get_json_path_value-eq}
use privacy_layer_confidenti.Core.State.Tree.{
  StateError, Outcome, done, failed, parse_json_path, read_segments, get_json_path_value,
}
use privacy_layer_confidenti.Core.State.Serialization.{
  normalize_value, normalize_items, normalize_fields,
}

-- A value with a bigint anywhere in it.
unfoldable mutual
  pub has_bigint : Value → Bool
  has_bigint (bigint s n) = true
  has_bigint (arr vs) = has_bigint_items vs
  has_bigint (obj fs) = has_bigint_fields fs
  has_bigint _ = false

  pub has_bigint_items : Items → Bool
  has_bigint_items nil = false
  has_bigint_items (item v vs) = has_bigint v || has_bigint_items vs

  pub has_bigint_fields : Fields → Bool
  has_bigint_fields end = false
  has_bigint_fields (field k v fs) = has_bigint v || has_bigint_fields fs

or_false : (x y : Bool) → (x || y) ≡ false → (x ≡ false) × (y ≡ false)
or_false x y h = (ground arith, ground arith)

or_falses : {x y : Bool} → x ≡ false → y ≡ false → (x || y) ≡ false
or_falses p q = ground arith

mutual
  unfolding normalize_value has_bigint

  value_clean :
      (v : Value)
      → (has_bigint (normalize_value v) ≡ false) × (has_bigint v ≡ false → normalize_value v ≡ v)
  value_clean undefined = (refl, λ h. refl)
  value_clean null = (refl, λ h. refl)
  value_clean (bool b) = (refl, λ h. refl)
  value_clean (num n) = (refl, λ h. refl)
  value_clean (bigint s n) = (refl, λ h. cc)
  value_clean (str s) = (refl, λ h. refl)
  value_clean (arr vs) = let (a, b) = items_clean vs in (a, λ h. ap Value.arr (b h))
  value_clean (obj fs) = let (a, b) = fields_clean fs in (a, λ h. ap Value.obj (b h))

  items_clean :
      (vs : Items)
      → (has_bigint_items (normalize_items vs) ≡ false)
        × (has_bigint_items vs ≡ false → normalize_items vs ≡ vs)
  items_clean nil = (refl, λ h. refl)
  items_clean (item v vs) =
      let (a, b) = value_clean v in
      let (c, d) = items_clean vs in
      (
        or_falses a c,
        λ h.
            let (x, y) = or_false (has_bigint v) (has_bigint_items vs) h in
            ap (λ w. item w (normalize_items vs)) (b x) ∙ ap (item v) (d y),
      )

  fields_clean :
      (fs : Fields)
      → (has_bigint_fields (normalize_fields fs) ≡ false)
        × (has_bigint_fields fs ≡ false → normalize_fields fs ≡ fs)
  fields_clean end = (refl, λ h. refl)
  fields_clean (field k v fs) =
      let (a, b) = value_clean v in
      let (c, d) = fields_clean fs in
      (
        or_falses a c,
        λ h.
            let (x, y) = or_false (has_bigint v) (has_bigint_fields fs) h in
            ap (λ w. field k w (normalize_fields fs)) (b x) ∙ ap (field k v) (d y),
      )

-- Normalising a record leaves no bigint anywhere in it, and doing it again changes nothing.
pub normalize_fields_clean :
    (fs : Fields)
    → (has_bigint_fields (normalize_fields fs) ≡ false)
      × (normalize_fields (normalize_fields fs) ≡ normalize_fields fs)
normalize_fields_clean fs =
    let (a, b) = fields_clean fs in let (c, d) = fields_clean (normalize_fields fs) in (a, d a)

get_field-normalize_fields :
    (k : String) (fs : Fields)
    → get_field k (normalize_fields fs) ≡ normalize_value (get_field k fs)
unfolding get_field normalize_value
get_field-normalize_fields k end = refl
get_field-normalize_fields k (field j v fs) = ground (arith, get_field-normalize_fields k fs)

read_segments-normalize_value :
    (segments : List String) (v : Value)
    → read_segments segments (normalize_value v) ≡ normalize_value (read_segments segments v)
unfolding normalize_value
read_segments-normalize_value [] v = refl
read_segments-normalize_value (s ∷ ss) (obj fs) =
    ap (read_segments ss) (get_field-normalize_fields s fs)
    ∙ read_segments-normalize_value ss (get_field s fs)
read_segments-normalize_value (s ∷ ss) undefined = refl
read_segments-normalize_value (s ∷ ss) null = refl
read_segments-normalize_value (s ∷ ss) (bool b) = refl
read_segments-normalize_value (s ∷ ss) (num n) = refl
read_segments-normalize_value (s ∷ ss) (bigint b n) = refl
read_segments-normalize_value (s ∷ ss) (str t) = refl
read_segments-normalize_value (s ∷ ss) (arr vs) = refl

get_json_path_value_parses :
    (root : Fields) (json_path : String) {v : Value} (f : StateError)
    → get_json_path_value root json_path ≡ done v
    → parse_json_path json_path ≢ failed f
unfolding get_json_path_value
get_json_path_value_parses root json_path f h e = ground arith

normalized :
    (root : Fields) (segments : List String) {v : Value}
    → read_segments segments (obj root) ≡ v
    → read_segments segments (obj (normalize_fields root)) ≡ normalize_value v
unfolding normalize_value
normalized root segments q =
    read_segments-normalize_value segments (obj root) ∙ ap normalize_value q

-- What a path reads in a normalised tree is the normalised value that it reads in the tree.
pub get_json_path_value-normalize_fields :
    (root : Fields) (json_path : String) {v : Value}
    → get_json_path_value root json_path ≡ done v
    → get_json_path_value (normalize_fields root) json_path ≡ done (normalize_value v)
get_json_path_value-normalize_fields root json_path {v} h = pick (parse_json_path json_path) refl
  where
    pick :
        (o : Outcome (List String))
        → parse_json_path json_path ≡ o
        → get_json_path_value (normalize_fields root) json_path ≡ done (normalize_value v)
    pick (done segments) e =
        let read : done (read_segments segments (obj root)) ≡ done v =
          sym (get_json_path_value-eq root json_path e) ∙ h in
        get_json_path_value-eq (normalize_fields root) json_path e
        ∙ ap done (normalized root segments (ground arith))
    pick (failed f) e = absurd (get_json_path_value_parses root json_path f h e)
