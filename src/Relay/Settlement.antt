-- ===== src/Relay/Settlement.antt =====
-- Awaiting the settlement of a relayed operation (packages/relay/src/await-relay-settlement.ts).
-- The number of attempts is a whole number here; intervals and the multiplier are doubles, whose
-- operations are a parameter. The caller's `delay` is a port.
pub mod Bounds
pub mod Polls
use privacy_layer_confidenti.Base.{
  ℕ, zero, suc, ◌+◌, ◌-◌, String, Bool, true, false, ◌||◌, Option, none, or_default, if◌then◌else◌,
}
use privacy_layer_confidenti.Js.Value.{Number, finite, up}
use privacy_layer_confidenti.Relay.Types.{
  PendingOperationPhase, PendingPrivateOperation, NewPrivateOperation, SubmitPrivateOperationResult,
}
use privacy_layer_confidenti.Relay.Runtime.{
  Port, ProtocolRelayPorts, Call, Run, pure, call, ◌>>=◌, ◌>>◌,
}
use privacy_layer_confidenti.Relay.Completion.{to_submit_result, save}
use privacy_layer_confidenti.Relay.Submission.{submit_prepared_private_operation}
use privacy_layer_confidenti.Relay.Polling.{is_terminal_relay_status, poll_pending_operation}

-- 2000
abbrev pub default_settlement_poll_interval_ms : Number
default_settlement_poll_interval_ms = finite false 125 (up 4)

abbrev pub default_settlement_max_attempts : ℕ
default_settlement_max_attempts = 15

-- 2
abbrev pub default_settlement_backoff_multiplier : Number
default_settlement_backoff_multiplier = finite false 1 (up 1)

-- 30000
abbrev pub default_settlement_max_interval_ms : Number
default_settlement_max_interval_ms = finite false 1875 (up 4)

abbrev phase_is_settled : PendingOperationPhase → Bool
phase_is_settled PendingOperationPhase.prepared = false
phase_is_settled PendingOperationPhase.relay_accepted = false
phase_is_settled PendingOperationPhase.succeeded = true
phase_is_settled PendingOperationPhase.rejected = true
phase_is_settled PendingOperationPhase.failed = true
phase_is_settled PendingOperationPhase.admission_failed = true
phase_is_settled PendingOperationPhase.settlement_timed_out = true

unfoldable pub is_settled : SubmitPrivateOperationResult → Bool
is_settled result =
    phase_is_settled result.outcome || is_terminal_relay_status result.operation.relay_status

-- What the caller may set, and what `resolvePollBounds` makes of it.
pub record PollOptions : Type 0 where
  pub poll_interval_ms : Option Number
  pub max_attempts : Option ℕ
  pub backoff_multiplier : Option Number
  pub max_poll_interval_ms : Option Number

pub record SettlementPollBounds : Type 0 where
  pub poll_interval_ms : Number
  pub max_attempts : ℕ
  pub backoff_multiplier : Number
  pub max_poll_interval_ms : Number

unfoldable pub resolve_poll_bounds : PollOptions → SettlementPollBounds
resolve_poll_bounds input = record {
  poll_interval_ms = or_default input.poll_interval_ms default_settlement_poll_interval_ms;
  max_attempts = or_default input.max_attempts default_settlement_max_attempts;
  backoff_multiplier = or_default input.backoff_multiplier default_settlement_backoff_multiplier;
  max_poll_interval_ms = or_default input.max_poll_interval_ms default_settlement_max_interval_ms;
}

-- The operations of doubles that the delay is computed with: `*`, `**`, `Math.min`, and the double of
-- a whole number.
pub record Arithmetic : Type 0 where
  pub times : Number → Number → Number
  pub power : Number → Number → Number
  pub minimum : Number → Number → Number
  pub whole : ℕ → Number

unfoldable pub next_poll_delay_ms : Arithmetic → ℕ → SettlementPollBounds → Number
next_poll_delay_ms numbers attempt_index input =
    numbers.minimum
      (numbers.times input.poll_interval_ms
        (numbers.power input.backoff_multiplier (numbers.whole attempt_index)))
      input.max_poll_interval_ms

unfoldable pub timed_out : PendingPrivateOperation → PendingPrivateOperation
timed_out operation = record operation { phase = PendingOperationPhase.settlement_timed_out }

module _ {W : Type 0} (ports : ProtocolRelayPorts W) (numbers : Arithmetic)
    (delay : Number → Port W (Unit {0})) where
  unfoldable pub mark_settlement_timed_out :
      PendingPrivateOperation → Run W SubmitPrivateOperationResult
  unfolding timed_out
  mark_settlement_timed_out operation = do
    save ports (timed_out operation)
    pure (to_submit_result (timed_out operation) none none)

  module _ (wallet_public_key operation_id : String) (bounds : SettlementPollBounds) where
    -- The `while` loop, by the attempts that are left: `maxAttempts - (attemptIndex + 1)`.
    unfoldable pub poll_again :
        ℕ → ℕ → SubmitPrivateOperationResult → Run W SubmitPrivateOperationResult
    poll_again zero attempt_index result = pure result
    poll_again (suc left) attempt_index result = if is_settled result then pure result else do
      let ms = next_poll_delay_ms numbers attempt_index bounds
      call (Call.delayed ms) (delay ms)
      next ← poll_pending_operation ports wallet_public_key operation_id
      poll_again left (attempt_index + 1) next

    unfoldable pub poll_until_bound : Run W SubmitPrivateOperationResult
    unfolding poll_again
    poll_until_bound = do
      result ← poll_pending_operation ports wallet_public_key operation_id
      poll_again (bounds.max_attempts - 1) 0 result

  unfoldable pub settle_or_time_out :
      SubmitPrivateOperationResult → Run W SubmitPrivateOperationResult
  unfolding mark_settlement_timed_out
  settle_or_time_out result =
      if is_settled result then pure result else mark_settlement_timed_out result.operation

  unfoldable pub await_relay_settlement :
      String → String → PollOptions → Run W SubmitPrivateOperationResult
  unfolding settle_or_time_out
  await_relay_settlement wallet_public_key operation_id input = do
    result ← poll_until_bound wallet_public_key operation_id (resolve_poll_bounds input)
    settle_or_time_out result

  -- The wait that follows an accepted submission.
  unfoldable pub await_accepted :
      NewPrivateOperation
      → PollOptions
      → SubmitPrivateOperationResult
      → PendingOperationPhase
      → Run W SubmitPrivateOperationResult
  await_accepted operation input submitted PendingOperationPhase.relay_accepted =
      await_relay_settlement operation.wallet_public_key operation.id input
  await_accepted operation input submitted _ = pure submitted

  -- Only the interval and the number of attempts are passed on.
  unfoldable pub submit_and_await_private_operation :
      NewPrivateOperation
      → (poll_interval_ms : Option Number) (max_attempts : Option ℕ)
      → Run W SubmitPrivateOperationResult
  unfolding await_accepted
  submit_and_await_private_operation operation poll_interval_ms max_attempts = do
    submitted ← submit_prepared_private_operation ports operation
    await_accepted operation
        (record {
          poll_interval_ms = poll_interval_ms;
          max_attempts = max_attempts;
          backoff_multiplier = none;
          max_poll_interval_ms = none;
        })
        submitted submitted.outcome
