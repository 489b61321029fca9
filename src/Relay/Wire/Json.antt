-- ===== src/Relay/Wire/Json.antt =====
-- A package as JSON text carries it (packages/relay/src/relay-api.ts sends `JSON.stringify(body)`):
-- an entry that is undefined, no finite number or -0 does not survive.
use privacy_layer_confidenti.Base.{
  zero, suc, String, Bool, true, false, ◌&&◌, ◌≡◌, ◌≢◌, Option, none, some, List, [], ◌∷◌,
}
use privacy_layer_confidenti.Js.Value.{
  Number, finite, up, Value, undefined, null, num, str, arr, obj, Items, nil, item, Fields, end,
  field,
}
use privacy_layer_confidenti.Relay.Types.{RelayPackageJson}
use privacy_layer_confidenti.Relay.Wire.{relay_package_version_v1}

abbrev pub json_number : Number → Value
json_number (finite false m e) = num (finite false m e)
json_number (finite true zero e) = num (finite false 0 (up 0))
json_number (finite true (suc m) e) = num (finite true (suc m) e)
json_number _ = null

abbrev json_hint : Option Number → Value
json_hint none = null
json_hint (some n) = json_number n

abbrev pub json_hints : List (Option Number) → Items
json_hints [] = nil
json_hints (h ∷ hs) = item (json_hint h) (json_hints hs)

abbrev pub json_texts : List String → Items
json_texts [] = nil
json_texts (s ∷ ss) = item (str s) (json_texts ss)

abbrev pub texts_value : List String → Value
texts_value ss = arr (json_texts ss)

abbrev pub hints_value : List (Option Number) → Value
hints_value hs = arr (json_hints hs)

abbrev pub or_undefined : {A : Type 0} → (A → Value) → Option A → Value
or_undefined f none = undefined
or_undefined f (some a) = f a

-- A key that is left out where its value is undefined.
abbrev pub opt_field : {A : Type 0} → String → (A → Value) → Option A → Fields → Fields
opt_field key f none fs = fs
opt_field key f (some a) fs = field key (f a) fs

abbrev pub optional_fields : RelayPackageJson → Fields
optional_fields p = opt_field "ciphertextBytes" Value.str p.ciphertext_bytes (
    opt_field "outputNoteEphemeralScalars" texts_value p.output_note_ephemeral_scalars (
      opt_field "escrowAuthorization" Value.str p.escrow_authorization
        (opt_field "keyVersionHints" hints_value p.key_version_hints end)))

-- `JSON.parse(JSON.stringify(body))`
unfoldable pub through_json : RelayPackageJson → Value
through_json p = obj (
    field "version" (json_number p.version) (
      field "poolSelector" (str p.pool_selector) (
        field "zkConfigNonce" (str p.zk_config_nonce) (
          field "proofBytes" (str p.proof_bytes) (
            field "publicSignals" (str p.public_signals) (
              field "applicationIdHints" (texts_value p.application_id_hints)
                (optional_fields p)))))))

-- A hint that JSON keeps.
abbrev pub plain : Option Number → Bool
plain (some (finite true zero e)) = false
plain (some (finite s m e)) = true
plain (some n) = false
plain none = true

abbrev pub all_plain : List (Option Number) → Bool
all_plain [] = true
all_plain (h ∷ hs) = plain h && all_plain hs

abbrev pub are_plain : Option (List (Option Number)) → Bool
are_plain none = true
are_plain (some hs) = all_plain hs

-- What a package has to be for its receiver to read it whole.
pub record IsSendable (p : RelayPackageJson) : Type 0 where
  pub version_1 : p.version ≡ relay_package_version_v1
  pub has_nonce : p.zk_config_nonce ≢ ""
  pub has_hints : p.application_id_hints ≢ []
  pub has_scalars : p.output_note_ephemeral_scalars ≢ some []
  pub keeps_hints : are_plain p.key_version_hints ≡ true
