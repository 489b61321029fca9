-- ===== src/Relay/Api.antt =====
-- The relay's HTTP client (packages/relay/src/relay-api.ts). `fetch` is the client's: a port that
-- answers with a status and the JSON payload, none where it is no JSON. `String(value)` is a
-- parameter.
pub mod Answers
use privacy_layer_confidenti.Base.{
  ℕ, String, Bool, true, false, not, ◌||◌, Option, none, some, List, [], ◌∷◌, ◌==◌, if◌then◌else◌,
}
use privacy_layer_confidenti.Js.Value.{
  Number, Value, undefined, null, bool, num, str, obj, Fields, end,
}
use privacy_layer_confidenti.Js.Fields.{get_field}
use privacy_layer_confidenti.Js.Text.{same_code, trim}
use privacy_layer_confidenti.Relay.Types.{
  RelayPackageJson, RelayRequestAccepted, RelayRequestStatus,
}
use privacy_layer_confidenti.Relay.Reasons.{
  infrastructure_failed, RelayApiError, Thrown, relay_api_error, error,
}
use privacy_layer_confidenti.Relay.Config.{require_relay_origin, join_relay_api_url}
use privacy_layer_confidenti.Relay.Runtime.{Result, ok, threw, Port, RelayApi}
use privacy_layer_confidenti.Relay.Wire.{text_of, number_of}

pub data Method : Type 0 where
  get post : Method

pub record Response : Type 0 where
  pub http_status : ℕ
  pub payload : Option Value

abbrev pub Fetch : Type 0 → Type 0
Fetch W = (url : String) (method : Method) (body : Option RelayPackageJson) → Port W Response

abbrev pub as_record : Value → Fields
as_record (obj fields) = fields
as_record _ = end

abbrev pub reason_of : Value → String → String
reason_of (str reason) fallback = if trim reason == "" then fallback else reason
reason_of _ fallback = fallback

unfoldable pub read_reason : Value → String → String
read_reason payload fallback = reason_of (get_field "reason" (as_record payload)) fallback

-- `allowed.includes(httpStatus)`
abbrev pub includes : List ℕ → ℕ → Bool
includes [] n = false
includes (m ∷ ms) n = same_code m n || includes ms n

unfoldable pub require_ok_status : ℕ → Value → List ℕ → Result Fields
unfolding read_reason
require_ok_status http_status payload allowed =
    if includes allowed http_status
    then ok (as_record payload)
    else threw (
        relay_api_error
          record { reason = read_reason payload infrastructure_failed; http_status = http_status })

-- The payload of a response, the empty record where it is no JSON.
abbrev pub parse_json : Option Value → Value
parse_json none = obj end
parse_json (some v) = v

abbrev is_true : Value → Bool
is_true (bool b) = b
is_true _ = false

module _ (to_text : Value → String) where
  -- `String(value ?? fallback)`
  abbrev text_or : String → Value → String
  text_or fallback undefined = fallback
  text_or fallback null = fallback
  text_or fallback v = to_text v

  unfoldable pub map_accepted : Fields → RelayRequestAccepted
  map_accepted fields = record {
    relay_request_id = text_or "" (get_field "relayRequestId" fields);
    status = text_or "accepted" (get_field "status" fields);
    created_at = text_or "" (get_field "createdAt" fields);
    status_url = text_or "" (get_field "statusUrl" fields);
  }

  unfoldable pub map_status : Fields → RelayRequestStatus
  map_status fields = record {
    relay_request_id = text_or "" (get_field "relayRequestId" fields);
    status = text_or "" (get_field "status" fields);
    created_at = text_or "" (get_field "createdAt" fields);
    updated_at = text_or "" (get_field "updatedAt" fields);
    retry_allowed = is_true (get_field "retryAllowed" fields);
    attempt_number = number_of (get_field "attemptNumber" fields);
    transaction_hash = text_of (get_field "transactionHash" fields);
    public_reason = text_of (get_field "publicReason" fields);
  }

  abbrev pub map_result : {A : Type 0} → (Fields → A) → Result Fields → Result A
  map_result f (ok fields) = ok (f fields)
  map_result f (threw e) = threw e

  module _ {W : Type 0} (fetch : Fetch W) where
    abbrev pub answer : {A : Type 0} → (Fields → A) → List ℕ → Result Response × W → Result A × W
    answer f allowed (threw e, w) = (threw e, w)
    answer f allowed (ok r, w) =
        (map_result f (require_ok_status r.http_status (parse_json r.payload) allowed), w)

    -- `requestJson`, `requireOkStatus` and the reading of the record, at a joined URL.
    abbrev pub request :
        {A : Type 0}
        → Option String
        → Method
        → Option RelayPackageJson
        → (Fields → A)
        → List ℕ
        → Port W A
    request none method body f allowed w = (threw (error "Relay API origin is not configured."), w)
    request (some url) method body f allowed w = answer f allowed (fetch url method body w)

    abbrev pub api_at : String → RelayApi W
    api_at origin = record {
      create_request =
          λ body. request (join_relay_api_url origin []) post (some body) map_accepted (202 ∷ []);
      read_status = λ relay_request_id.
          request (join_relay_api_url origin (relay_request_id ∷ [])) get none map_status
            (200 ∷ []);
      retry_attempt = λ relay_request_id.
          request (join_relay_api_url origin (relay_request_id ∷ "attempts" ∷ [])) post none
            map_status (200 ∷ []);
    }

    unfoldable pub create_relay_api : Option String → Option (RelayApi W)
    create_relay_api origin = elim (require_relay_origin origin) [
      | none ↦ none
      | some resolved ↦ some (api_at resolved)
    ]
