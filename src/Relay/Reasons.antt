-- ===== src/Relay/Reasons.antt =====
-- The relay's reason codes and errors (packages/relay/src/reasons.ts, relay-api-error.ts), and what
-- an awaited port call may throw.
use privacy_layer_confidenti.Base.{
  ℕ, String, Bool, false, Option, none, some, List, [], ◌∷◌, contains, ◌==◌, if◌then◌else◌,
}

abbrev pub infrastructure_failed : String
infrastructure_failed = "infrastructure_failed"

abbrev pub escrow_relay_unconfigured : String
escrow_relay_unconfigured = "escrow_relay_unconfigured"

abbrev pub rejection_reasons : List String
rejection_reasons =
    "invalid_package" ∷ "unsupported_signal_shape" ∷ "positive_public_deposit" ∷ "zk_config_missing"
    ∷ "zk_config_deprecated" ∷ "zk_config_incompatible" ∷ "invalid_proof" ∷ "kyt_rejected"
    ∷ "kyt_authorization_mismatch" ∷ "escrow_relay_unconfigured" ∷ "escrow_authorization_mismatch"
    ∷ "nullifiers_spent" ∷ "simulation_failed" ∷ "resource_fee_exceeded" ∷ "resource_limit_exceeded"
    ∷ []

abbrev pub retryable_failure_reasons : List String
retryable_failure_reasons = "send_failed" ∷ "transaction_failed" ∷ "infrastructure_failed" ∷ []

abbrev pub relay_infrastructure_http_reasons : List String
relay_infrastructure_http_reasons =
    "rate_limited" ∷ "queue_at_capacity" ∷ "low_balance" ∷ "relayer_unavailable"
    ∷ "payload_too_large" ∷ []

unfoldable pub is_retryable_failure_reason : Option String → Bool
is_retryable_failure_reason none = false
is_retryable_failure_reason (some reason) =
    if reason == "" then false else contains retryable_failure_reasons reason

unfoldable pub is_rejection_reason : String → Bool
is_rejection_reason reason = contains rejection_reasons reason

pub record RelayApiError : Type 0 where
  pub reason : String
  pub http_status : ℕ

-- A thrown value: a `RelayApiError`, or any other error with its message.
pub data Thrown : Type 0 where
  relay_api_error : RelayApiError → Thrown
  error : String → Thrown

unfoldable pub is_infrastructure_relay_failure : RelayApiError → Bool
is_infrastructure_relay_failure e = contains relay_infrastructure_http_reasons e.reason

-- `error instanceof RelayApiError`
unfoldable pub is_relay_api_error : Thrown → Bool
is_relay_api_error (relay_api_error e) = Bool.true
is_relay_api_error (error m) = false
