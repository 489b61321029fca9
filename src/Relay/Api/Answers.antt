-- ===== src/Relay/Api/Answers.antt =====
-- What the relay's answers become (packages/relay/src/relay-api.ts).
use privacy_layer_confidenti.Base.{
  ℕ, String, true, false, ◌≡◌, ◌≢◌, ◌⊎◌, inl, inr, Bool-cases, refl, ap, ◌∙◌, Option, none, some,
  List, [], ◌∷◌, ◌==◌, eq_iff, arith,
}
use privacy_layer_confidenti.Js.Value.{Value, Fields}
use privacy_layer_confidenti.Js.Fields.{get_field}
use privacy_layer_confidenti.Js.Text.{trim}
use privacy_layer_confidenti.Relay.Reasons.{RelayApiError, relay_api_error, infrastructure_failed}
use privacy_layer_confidenti.Relay.Runtime.{Result, ok, threw}
use privacy_layer_confidenti.Relay.Api.{
  as_record, includes, reason_of, read_reason, require_ok_status, Fetch, Method, get, post,
  Response, answer, request, parse_json, api_at, map_accepted, map_status, map_result,
}
use privacy_layer_confidenti.Relay.Types.{
  RelayPackageJson, RelayRequestAccepted, RelayRequestStatus,
}
use privacy_layer_confidenti.Relay.Config.{join_relay_api_url}

reason_of_filled :
    (v : Value) (fallback : String) → trim fallback ≢ "" → trim (reason_of v fallback) ≢ ""
reason_of_filled (Value.str reason) fallback h e = elim (Bool-cases (trim reason == "")) [
  | inl blank ↦ h (ap trim (ground arith) ∙ e)
  | inr filled ↦ ground (arith, eq_iff (trim reason) "")
]
reason_of_filled v fallback h e = ground arith

read_reason_filled :
    (payload : Value) (fallback : String)
    → trim fallback ≢ ""
    → trim (read_reason payload fallback) ≢ ""
unfolding read_reason
read_reason_filled payload fallback h =
    reason_of_filled (get_field "reason" (as_record payload)) fallback h

fallback_filled : trim infrastructure_failed ≢ ""
unfolding trim
fallback_filled h = cc

-- A response is taken exactly when its status is allowed, as its record; otherwise the client throws
-- a relay error with the status and a reason that is not blank.
pub require_ok_status_cases :
    (http_status : ℕ) (payload : Value) (allowed : List ℕ)
    → ((includes allowed http_status ≡ true)
        × (require_ok_status http_status payload allowed ≡ ok (as_record payload)))
      ⊎ ((includes allowed http_status ≡ false)
          × ((e : RelayApiError) × (require_ok_status http_status payload allowed
                ≡ threw (relay_api_error e))
              × (e.http_status ≡ http_status)
              × (trim e.reason ≢ "")))
unfolding require_ok_status
require_ok_status_cases http_status payload allowed =
    elim (Bool-cases (includes allowed http_status)) [
      | inl taken ↦ inl (taken, ground arith)
      | inr refused ↦ inr (
        refused,
        (
          record { reason = read_reason payload infrastructure_failed; http_status = http_status },
          ground arith,
          refl,
          read_reason_filled payload infrastructure_failed fallback_filled,
        ),
      )
    ]

taken :
    (http_status : ℕ) (payload : Value) (allowed : ℕ) {fields : Fields}
    → require_ok_status http_status payload (allowed ∷ []) ≡ ok fields
    → (http_status ≡ allowed) × (fields ≡ as_record payload)
unfolding require_ok_status
taken http_status payload allowed h = (ground arith, ground arith)

module _ {W : Type 0} (to_text : Value → String) (fetch : Fetch W) where
  mapped :
      {A : Type 0} (f : Fields → A) (r : Result Fields) {a : A}
      → map_result to_text f r ≡ ok a
      → (fields : Fields) × (r ≡ ok fields) × (a ≡ f fields)
  mapped f (ok fields) h = (fields, refl, ground arith)
  mapped f (threw e) h = absurd (ground arith)

  answer_ok :
      {A : Type 0} (f : Fields → A) (allowed : ℕ) (r : Result Response × W) {a : A} {w' : W}
      → answer to_text fetch f (allowed ∷ []) r ≡ (ok a, w')
      → (response : Response) × (r ≡ (ok response, w'))
        × (response.http_status ≡ allowed)
        × (a ≡ f (as_record (parse_json response.payload)))
  answer_ok f allowed (threw e, w) h = absurd (ground arith)
  answer_ok {A} f allowed (ok response, w) h =
      let (fields, e, q) =
        mapped f
          (require_ok_status response.http_status (parse_json response.payload) (allowed ∷ []))
          (ap (λ (r : Result A × W). r.0) h) in
      let (same, p) = taken response.http_status (parse_json response.payload) allowed e in
      (response, ap (λ (r : Result A × W). (ok response, r.1)) h, same, q ∙ ap f p)

  request_ok :
      {A : Type 0} (url? : Option String) (method : Method) (body : Option RelayPackageJson)
      (f : Fields → A) (allowed : ℕ) (w : W) {a : A} {w' : W}
      → request to_text fetch url? method body f (allowed ∷ []) w ≡ (ok a, w')
      → (url : String) × (response : Response) × (url? ≡ some url)
        × (fetch url method body w ≡ (ok response, w'))
        × (response.http_status ≡ allowed)
        × (a ≡ f (as_record (parse_json response.payload)))
  request_ok none method body f allowed w h = absurd (ground arith)
  request_ok (some url) method body f allowed w h =
      let (response, e, s, a) = answer_ok f allowed (fetch url method body w) h in
      (url, response, refl, e, s, a)

  -- A request that is accepted was posted with the package to the relay's address and answered with
  -- the status 202; what is accepted is read from the answer's record.
  create_request_accepted :
      (origin : String) (body : RelayPackageJson) (w : W) {a : RelayRequestAccepted} {w' : W}
      → (api_at to_text fetch origin).create_request body w ≡ (ok a, w')
      → (url : String) × (response : Response) × (join_relay_api_url origin [] ≡ some url)
        × (fetch url post (some body) w ≡ (ok response, w'))
        × (response.http_status ≡ 202)
        × (a ≡ map_accepted to_text (as_record (parse_json response.payload)))
  create_request_accepted origin body w h =
      request_ok (join_relay_api_url origin []) post (some body) (map_accepted to_text) 202 w h

  -- A status that is read was got from the address of the request and answered with the status 200;
  -- it is read from the answer's record.
  pub read_status_answered :
      (origin relay_request_id : String) (w : W) {s : RelayRequestStatus} {w' : W}
      → (api_at to_text fetch origin).read_status relay_request_id w ≡ (ok s, w')
      → (url : String) × (response : Response) × (join_relay_api_url origin (relay_request_id ∷ [])
          ≡ some url)
        × (fetch url get none w ≡ (ok response, w'))
        × (response.http_status ≡ 200)
        × (s ≡ map_status to_text (as_record (parse_json response.payload)))
  read_status_answered origin relay_request_id w h =
      request_ok (join_relay_api_url origin (relay_request_id ∷ [])) get none (map_status to_text)
        200 w h
