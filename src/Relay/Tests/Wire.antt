-- ===== src/Relay/Tests/Wire.antt =====
-- Examples of the wire format's and the HTTP client's properties.
use privacy_layer_confidenti.Base.{ℕ, String, true, ◌≡◌, refl, none, some, [], ◌∷◌}
use privacy_layer_confidenti.Js.Value.{Number, Value, str, bool, obj, Fields, end, field}
use privacy_layer_confidenti.Js.Text.{trim, split, without_empty, join}
use privacy_layer_confidenti.Relay.Types.{RelayRequestStatus}
use privacy_layer_confidenti.Relay.Config.{
  join_relay_api_url, resolve_relay_origin, require_relay_origin,
}
use privacy_layer_confidenti.Relay.Runtime.{ok}
use privacy_layer_confidenti.Relay.Wire.{
  relay_package_version_v1, number_nonce, hint, null_hint, RelayPackageSerializable,
  serialize_relay_package, deserialize_relay_package,
}
use privacy_layer_confidenti.Relay.Wire.Json.{IsSendable, through_json}
use privacy_layer_confidenti.Relay.Wire.RoundTrip.{deserialize-serialize}
use privacy_layer_confidenti.Relay.Api.{Fetch, get, post, require_ok_status, api_at, map_status}

abbrev number_text : Number → String
number_text n = "1"

abbrev source : RelayPackageSerializable
source = record {
  version = relay_package_version_v1;
  pool_selector = "pool";
  zk_config_nonce = number_nonce relay_package_version_v1;
  proof_bytes = "p";
  public_signals = "s";
  application_id_hints = "a" ∷ "b" ∷ [];
  ciphertext_bytes = some "c";
  output_note_ephemeral_scalars = none;
  escrow_authorization = none;
  key_version_hints = some (hint relay_package_version_v1 ∷ null_hint ∷ []);
}

source-IsSendable : IsSendable (serialize_relay_package number_text source)
unfolding serialize_relay_package
source-IsSendable = record {
  version_1 = refl;
  has_nonce = λ h. cc;
  has_hints = λ h. cc;
  has_scalars = λ h. cc;
  keeps_hints = refl;
}

deserialize_example :
    deserialize_relay_package number_text
      (through_json (serialize_relay_package number_text source))
    ≡ some (serialize_relay_package number_text source)
deserialize_example = deserialize-serialize number_text source source-IsSendable

abbrev busy : Value
busy = obj (field "reason" (str "rate_limited") end)

abbrev to_text : Value → String
to_text (str s) = s
to_text _ = ""

abbrev answer_fields : Fields
answer_fields = field "relayRequestId" (str "r1") (field "retryAllowed" (bool true) end)

-- A relay that accepts every request and answers every read, and counts them.
abbrev fetch : Fetch ℕ
fetch url post body n =
    (ok record { http_status = 202; payload = some (obj answer_fields) }, ℕ.suc n)
fetch url get body n =
    (ok record { http_status = 200; payload = some (obj answer_fields) }, ℕ.suc n)

abbrev status : RelayRequestStatus
status = map_status to_text answer_fields

answers : (api_at to_text fetch "https://relay").read_status "r1" 0 ≡ (ok status, 1)
unfolding join_relay_api_url resolve_relay_origin require_relay_origin trim split without_empty join
    require_ok_status
answers = refl
