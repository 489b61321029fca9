-- ===== src/Relay/Calls/Awaiting.antt =====
-- Awaiting a settlement makes proper calls only.
use privacy_layer_confidenti.Base.{ℕ, zero, suc, ◌+◌, String, Option}
use privacy_layer_confidenti.Js.Value.{Number}
use privacy_layer_confidenti.Relay.Types.{
  PendingPrivateOperation, SubmitPrivateOperationResult, NewPrivateOperation, PendingOperationPhase,
}
use privacy_layer_confidenti.Relay.Runtime.{Port, ProtocolRelayPorts}
use privacy_layer_confidenti.Relay.Runtime.Runs.{Makes, makes_rules, Makes-bind, Makes-weaken}
use privacy_layer_confidenti.Relay.Submission.{submit_prepared_private_operation}
use privacy_layer_confidenti.Relay.Polling.{poll_pending_operation}
use privacy_layer_confidenti.Relay.Settlement.{
  Arithmetic, SettlementPollBounds, PollOptions, poll_again, poll_until_bound, settle_or_time_out,
  await_relay_settlement, await_accepted, submit_and_await_private_operation,
  mark_settlement_timed_out,
}
use privacy_layer_confidenti.Relay.Calls.{IsProper, IsImmediate-IsProper}
use privacy_layer_confidenti.Relay.Calls.Steps.{poll-IsImmediate, submit_prepared-IsImmediate}

module _ {W : Type 0} (ports : ProtocolRelayPorts W) (numbers : Arithmetic)
    (delay : Number → Port W (Unit {0})) where
  poll_any-IsProper : (wallet id : String) → Makes IsProper (poll_pending_operation ports wallet id)
  poll_any-IsProper wallet id =
      Makes-weaken _ IsImmediate-IsProper (poll-IsImmediate ports wallet id)

  submit_any-IsProper :
      (op : NewPrivateOperation) → Makes IsProper (submit_prepared_private_operation ports op)
  submit_any-IsProper op =
      Makes-weaken _ IsImmediate-IsProper (submit_prepared-IsImmediate ports op)

  timed_out-IsProper :
      (op : PendingPrivateOperation)
      → Makes IsProper (mark_settlement_timed_out ports numbers delay op)
  unfolding mark_settlement_timed_out
  timed_out-IsProper op = search (makes_rules, tt)

  settle-IsProper :
      (r : SubmitPrivateOperationResult) → Makes IsProper (settle_or_time_out ports numbers delay r)
  unfolding settle_or_time_out
  settle-IsProper r = search (makes_rules, timed_out-IsProper)

  poll_again-IsProper :
      (wallet id : String) (bounds : SettlementPollBounds) (left index : ℕ)
      (r : SubmitPrivateOperationResult)
      → Makes IsProper (poll_again ports numbers delay wallet id bounds left index r)
  unfolding poll_again
  poll_again-IsProper wallet id bounds zero index r = search makes_rules
  poll_again-IsProper wallet id bounds (suc left) index r =
      search
        (makes_rules, tt, poll_any-IsProper, poll_again-IsProper wallet id bounds left (index + 1))

  poll_until_bound-IsProper :
      (wallet id : String) (bounds : SettlementPollBounds)
      → Makes IsProper (poll_until_bound ports numbers delay wallet id bounds)
  unfolding poll_until_bound
  poll_until_bound-IsProper wallet id bounds =
      Makes-bind _ _ (poll_any-IsProper wallet id) (poll_again-IsProper wallet id bounds _ _)

  pub await-IsProper :
      (wallet id : String) (input : PollOptions)
      → Makes IsProper (await_relay_settlement ports numbers delay wallet id input)
  unfolding await_relay_settlement
  await-IsProper wallet id input = search (makes_rules, poll_until_bound-IsProper, settle-IsProper)

  await_accepted-IsProper :
      (op : NewPrivateOperation) (input : PollOptions) (r : SubmitPrivateOperationResult)
      (phase : PendingOperationPhase)
      → Makes IsProper (await_accepted ports numbers delay op input r phase)
  unfolding await_accepted
  await_accepted-IsProper op input r PendingOperationPhase.relay_accepted =
      await-IsProper op.wallet_public_key op.id input
  await_accepted-IsProper op input r _ = search makes_rules

  pub submit_and_await-IsProper :
      (op : NewPrivateOperation) (interval : Option Number) (attempts : Option ℕ)
      → Makes IsProper (submit_and_await_private_operation ports numbers delay op interval attempts)
  unfolding submit_and_await_private_operation
  submit_and_await-IsProper op interval attempts =
      search (makes_rules, submit_any-IsProper, await_accepted-IsProper)
