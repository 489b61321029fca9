-- ===== src/Relay/Wire.antt =====
-- The relay's package on the wire (packages/relay/src/serialize.ts). `number.toString()` is a
-- parameter.
pub mod Json
pub mod RoundTrip
use privacy_layer_confidenti.Base.{
  zero, suc, String, Bool, true, false, Option, none, some, List, [], ◌∷◌, ◌==◌, if◌then◌else◌,
}
use privacy_layer_confidenti.Js.Value.{
  Number, finite, Exponent, up, Value, undefined, null, num, bigint, str, arr, obj, Items, nil,
  item, Fields, end, field,
}
use privacy_layer_confidenti.Js.Fields.{get_field}
use privacy_layer_confidenti.Relay.Types.{RelayPackageJson}
use privacy_layer_confidenti.Core.State.Serialization.{bigint_text}

abbrev pub relay_package_version_v1 : Number
relay_package_version_v1 = finite false 1 (up 0)

-- A nonce: a text, a number, or an object with what its `toString` gives.
pub data NonceSource : Type 0 where
  text_nonce : String → NonceSource
  number_nonce : Number → NonceSource
  object_nonce : String → NonceSource

pub data KeyVersionHint : Type 0 where
  hint : Number → KeyVersionHint
  undefined_hint null_hint : KeyVersionHint

pub record RelayPackageSerializable : Type 0 where
  pub version : Number
  pub pool_selector : String
  pub zk_config_nonce : NonceSource
  pub proof_bytes : String
  pub public_signals : String
  pub application_id_hints : List String
  pub ciphertext_bytes : Option String
  pub output_note_ephemeral_scalars : Option (List String)
  pub escrow_authorization : Option String
  pub key_version_hints : Option (List KeyVersionHint)

abbrev pub hint_number : KeyVersionHint → Option Number
hint_number (hint n) = some n
hint_number _ = none

abbrev copy_key_version_hints : List KeyVersionHint → List (Option Number)
copy_key_version_hints [] = []
copy_key_version_hints (h ∷ hs) = hint_number h ∷ copy_key_version_hints hs

abbrev pub copy_hints : Option (List KeyVersionHint) → Option (List (Option Number))
copy_hints none = none
copy_hints (some hs) = some (copy_key_version_hints hs)

abbrev pub number_of : Value → Option Number
number_of (num n) = some n
number_of _ = none

abbrev pub read_hints_of : Items → List (Option Number)
read_hints_of nil = []
read_hints_of (item v vs) = number_of v ∷ read_hints_of vs

abbrev pub read_hints : Value → Option (List (Option Number))
read_hints (arr vs) = some (read_hints_of vs)
read_hints _ = none

abbrev pub text_of : Value → Option String
text_of (str s) = some s
text_of _ = none

abbrev cons_text : Option String → Option (List String) → Option (List String)
cons_text (some s) (some ss) = some (s ∷ ss)
cons_text _ _ = none

-- The entries, if every one is a string.
abbrev pub all_texts : Items → Option (List String)
all_texts nil = some []
all_texts (item v vs) = cons_text (text_of v) (all_texts vs)

abbrev pub read_string_array : Value → Option (List String)
read_string_array (arr nil) = none
read_string_array (arr (item v vs)) = all_texts (item v vs)
read_string_array _ = none

-- `record.version !== RELAY_PACKAGE_VERSION_V1` is false.
abbrev is_one : Number → Bool
is_one (finite false (suc zero) (up zero)) = true
is_one _ = false

abbrev pub is_version_1 : Value → Bool
is_version_1 (num n) = is_one n
is_version_1 _ = false

module _ (number_text : Number → String) where
  abbrev pub nonce_to_string : NonceSource → String
  nonce_to_string (text_nonce s) = s
  nonce_to_string (number_nonce n) = number_text n
  nonce_to_string (object_nonce s) = s

  unfoldable pub serialize_relay_package : RelayPackageSerializable → RelayPackageJson
  serialize_relay_package source = record {
    version = source.version;
    pool_selector = source.pool_selector;
    zk_config_nonce = nonce_to_string source.zk_config_nonce;
    proof_bytes = source.proof_bytes;
    public_signals = source.public_signals;
    application_id_hints = source.application_id_hints;
    ciphertext_bytes = source.ciphertext_bytes;
    output_note_ephemeral_scalars = source.output_note_ephemeral_scalars;
    escrow_authorization = source.escrow_authorization;
    key_version_hints = copy_hints source.key_version_hints;
  }

  abbrev pub read_nonce : Value → Option String
  read_nonce (str s) = some s
  read_nonce (num n) = some (number_text n)
  read_nonce (bigint s n) = some (bigint_text s n)
  read_nonce _ = none

  -- The body, once the five required texts and the hints have been read.
  abbrev pub read_body :
      Fields
      → Option String
      → Option String
      → Option String
      → Option String
      → Option (List String)
      → Option RelayPackageJson
  read_body fields (some proof) (some pool) (some signals) (some nonce) (some hints) =
      if nonce == ""
      then none
      else some record {
        version = relay_package_version_v1;
        pool_selector = pool;
        zk_config_nonce = nonce;
        proof_bytes = proof;
        public_signals = signals;
        application_id_hints = hints;
        ciphertext_bytes = text_of (get_field "ciphertextBytes" fields);
        output_note_ephemeral_scalars =
            read_string_array (get_field "outputNoteEphemeralScalars" fields);
        escrow_authorization = text_of (get_field "escrowAuthorization" fields);
        key_version_hints = read_hints (get_field "keyVersionHints" fields);
      }
  read_body fields _ _ _ _ _ = none

  unfoldable pub deserialize_relay_package : Value → Option RelayPackageJson
  deserialize_relay_package (obj fields) =
      if is_version_1 (get_field "version" fields)
      then read_body fields (text_of (get_field "proofBytes" fields))
          (text_of (get_field "poolSelector" fields)) (text_of (get_field "publicSignals" fields))
          (read_nonce (get_field "zkConfigNonce" fields))
          (read_string_array (get_field "applicationIdHints" fields))
      else none
  deserialize_relay_package _ = none
