-- ===== src/Relay/Wire/RoundTrip.antt =====
-- What a receiver reads of a package that was sent (packages/relay/src/serialize.ts).
use privacy_layer_confidenti.Base.{
  zero, suc, String, Bool, true, false, ◌&&◌, ◌≡◌, ◌≢◌, refl, ap, ◌∙◌, Option, none, some, List, [],
  ◌∷◌, ◌==◌, eq_iff, arith,
}
use privacy_layer_confidenti.Js.Value.{Number, finite, Value, undefined, Fields, end}
use privacy_layer_confidenti.Js.Fields.{get_field}
use privacy_layer_confidenti.Relay.Types.{RelayPackageJson}
use privacy_layer_confidenti.Relay.Wire.{
  RelayPackageSerializable, text_of, all_texts, read_string_array, read_hints, read_hints_of,
  number_of, serialize_relay_package, deserialize_relay_package,
}
use privacy_layer_confidenti.Relay.Wire.Json.{
  json_number, json_hints, json_texts, texts_value, hints_value, or_undefined, opt_field,
  optional_fields, through_json, plain, all_plain, are_plain, IsSendable,
}

get_opt_same :
    {A : Type 0} (key : String) (f : A → Value) (o : Option A) (fs : Fields)
    → get_field key fs ≡ undefined
    → get_field key (opt_field key f o fs) ≡ or_undefined f o
unfolding get_field
get_opt_same key f none fs h = h
get_opt_same key f (some a) fs h = ground (arith, eq_iff key key)

get_opt_other :
    {A : Type 0} (key other : String) (f : A → Value) (o : Option A) (fs : Fields)
    → (other == key) ≡ false
    → get_field key (opt_field other f o fs) ≡ get_field key fs
unfolding get_field
get_opt_other key other f none fs h = refl
get_opt_other key other f (some a) fs h = ground arith

all_texts-json_texts : (ss : List String) → all_texts (json_texts ss) ≡ some ss
all_texts-json_texts [] = refl
all_texts-json_texts (s ∷ ss) = rw (all_texts-json_texts ss) refl

read_texts : (ss : List String) → ss ≢ [] → read_string_array (texts_value ss) ≡ some ss
read_texts [] h = absurd (h refl)
read_texts (s ∷ ss) h = all_texts-json_texts (s ∷ ss)

and_true : (x y : Bool) → (x && y) ≡ true → (x ≡ true) × (y ≡ true)
and_true x y h = (ground arith, ground arith)

number_back : (n : Number) → plain (some n) ≡ true → number_of (json_number n) ≡ some n
number_back (finite false m e) h = refl
number_back (finite true zero e) h = absurd (ground arith)
number_back (finite true (suc m) e) h = refl
number_back n h = absurd (ground arith)

read_hints_back :
    (hs : List (Option Number)) → all_plain hs ≡ true → read_hints_of (json_hints hs) ≡ hs
read_hints_back [] h = refl
read_hints_back (none ∷ hs) h = ap (λ rest. none ∷ rest) (read_hints_back hs h)
read_hints_back (some n ∷ hs) h =
    let (first, rest) = and_true (plain (some n)) (all_plain hs) h in
    ap (λ x. x ∷ read_hints_of (json_hints hs)) (number_back n first)
    ∙ ap (λ rest. some n ∷ rest) (read_hints_back hs rest)

read_optional_hints :
    (o : Option (List (Option Number)))
    → are_plain o ≡ true
    → read_hints (or_undefined hints_value o) ≡ o
read_optional_hints none h = refl
read_optional_hints (some hs) h = ap some (read_hints_back hs h)

read_optional_texts :
    (o : Option (List String)) → o ≢ some [] → read_string_array (or_undefined texts_value o) ≡ o
read_optional_texts none h = refl
read_optional_texts (some ss) h = read_texts ss (λ e. h (ap some e))

read_optional_text : (o : Option String) → text_of (or_undefined Value.str o) ≡ o
read_optional_text none = refl
read_optional_text (some s) = refl

-- What is read under an optional key.
hints_field :
    (p : RelayPackageJson)
    → get_field "keyVersionHints" (optional_fields p) ≡ or_undefined hints_value p.key_version_hints
unfolding get_field
hints_field p =
    get_opt_other "keyVersionHints" "ciphertextBytes" Value.str p.ciphertext_bytes _ refl
    ∙ get_opt_other "keyVersionHints" "outputNoteEphemeralScalars" texts_value
        p.output_note_ephemeral_scalars _ refl
    ∙ get_opt_other "keyVersionHints" "escrowAuthorization" Value.str p.escrow_authorization _ refl
    ∙ get_opt_same "keyVersionHints" hints_value p.key_version_hints end refl

escrow_field :
    (p : RelayPackageJson)
    → get_field "escrowAuthorization" (optional_fields p)
      ≡ or_undefined Value.str p.escrow_authorization
unfolding get_field
escrow_field p =
    get_opt_other "escrowAuthorization" "ciphertextBytes" Value.str p.ciphertext_bytes _ refl
    ∙ get_opt_other "escrowAuthorization" "outputNoteEphemeralScalars" texts_value
        p.output_note_ephemeral_scalars _ refl
    ∙ get_opt_same "escrowAuthorization" Value.str p.escrow_authorization _ (
        get_opt_other "escrowAuthorization" "keyVersionHints" hints_value p.key_version_hints end
          refl)

scalars_field :
    (p : RelayPackageJson)
    → get_field "outputNoteEphemeralScalars" (optional_fields p)
      ≡ or_undefined texts_value p.output_note_ephemeral_scalars
unfolding get_field
scalars_field p =
    get_opt_other "outputNoteEphemeralScalars" "ciphertextBytes" Value.str p.ciphertext_bytes _ refl
    ∙ get_opt_same "outputNoteEphemeralScalars" texts_value p.output_note_ephemeral_scalars _ (
        get_opt_other "outputNoteEphemeralScalars" "escrowAuthorization" Value.str
          p.escrow_authorization _ refl
        ∙ get_opt_other "outputNoteEphemeralScalars" "keyVersionHints" hints_value
            p.key_version_hints end refl)

ciphertext_field :
    (p : RelayPackageJson)
    → get_field "ciphertextBytes" (optional_fields p) ≡ or_undefined Value.str p.ciphertext_bytes
unfolding get_field
ciphertext_field p = get_opt_same "ciphertextBytes" Value.str p.ciphertext_bytes _ (
    get_opt_other "ciphertextBytes" "outputNoteEphemeralScalars" texts_value
      p.output_note_ephemeral_scalars _ refl
    ∙ get_opt_other "ciphertextBytes" "escrowAuthorization" Value.str p.escrow_authorization _ refl
    ∙ get_opt_other "ciphertextBytes" "keyVersionHints" hints_value p.key_version_hints end refl)

module _ (number_text : Number → String) where
  deserialize-through_json :
      (p : RelayPackageJson)
      → IsSendable p
      → deserialize_relay_package number_text (through_json p) ≡ some p
  unfolding deserialize_relay_package through_json get_field
  deserialize-through_json p h =
      let nonce : (p.zk_config_nonce == "") ≡ false =
        ground (arith, eq_iff p.zk_config_nonce "", h.has_nonce) in
      let c = ap text_of (ciphertext_field p) ∙ read_optional_text p.ciphertext_bytes in
      let s =
        ap read_string_array (scalars_field p)
        ∙ read_optional_texts p.output_note_ephemeral_scalars h.has_scalars in
      let e = ap text_of (escrow_field p) ∙ read_optional_text p.escrow_authorization in
      let k =
        ap read_hints (hints_field p) ∙ read_optional_hints p.key_version_hints h.keeps_hints in
      let hints = read_texts p.application_id_hints h.has_hints in
      rw (h.version_1, hints, nonce, c, s, e, k) refl

  -- What a receiver reads of a serialized package that went through JSON is that package, where it
  -- has version 1, a nonce, an application hint, no empty list of scalars, and key hints that JSON
  -- keeps.
  pub deserialize-serialize :
      (source : RelayPackageSerializable)
      → IsSendable (serialize_relay_package number_text source)
      → deserialize_relay_package number_text
          (through_json (serialize_relay_package number_text source))
        ≡ some (serialize_relay_package number_text source)
  deserialize-serialize source h =
      deserialize-through_json (serialize_relay_package number_text source) h
