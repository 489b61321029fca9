-- ===== src/Relay/Calls/Sequence.antt =====
-- The runtime's operations in any order, as an application makes them: an error that one throws
-- ends that one only.
use privacy_layer_confidenti.Base.{ℕ, String, Bool, Option, List, [], ◌∷◌}
use privacy_layer_confidenti.Js.Value.{Number}
use privacy_layer_confidenti.Relay.Types.{NewPrivateOperation}
use privacy_layer_confidenti.Relay.Runtime.{Port, ProtocolRelayPorts, State, Run}
use privacy_layer_confidenti.Relay.Runtime.Runs.{Journal, Makes, Makes-Journal, Makes-weaken}
use privacy_layer_confidenti.Relay.Submission.{
  submit_prepared_private_operation, submit_direct_fallback,
}
use privacy_layer_confidenti.Relay.Polling.{poll_pending_operation}
use privacy_layer_confidenti.Relay.Settlement.{
  Arithmetic, PollOptions, await_relay_settlement, submit_and_await_private_operation,
}
use privacy_layer_confidenti.Relay.Recovery.{retry_failed_relay_attempt, resume_pending_operations}
use privacy_layer_confidenti.Relay.Calls.{IsImmediate, IsProper, IsImmediate-IsProper}
use privacy_layer_confidenti.Relay.Calls.Steps.{
  submit_prepared-IsImmediate, submit_direct_fallback-IsImmediate, poll-IsImmediate,
  retry-IsImmediate, resume-IsImmediate,
}
use privacy_layer_confidenti.Relay.Calls.Awaiting.{submit_and_await-IsProper, await-IsProper}

pub data Request : Type 0 where
  submit : NewPrivateOperation → Request
  submit_and_await :
      NewPrivateOperation → (interval : Option Number) (attempts : Option ℕ) → Request
  fallback : (wallet id : String) → Bool → Request
  poll : (wallet id : String) → Request
  await : (wallet id : String) → PollOptions → Request
  retry : (wallet id : String) → Request
  resume : (wallet : String) → Request

module _ {W : Type 0} (ports : ProtocolRelayPorts W) (numbers : Arithmetic)
    (delay : Number → Port W (Unit {0})) where
  unfoldable pub perform : Request → State W → State W
  perform (submit op) s = (submit_prepared_private_operation ports op s).1
  perform (submit_and_await op interval attempts) s =
      (submit_and_await_private_operation ports numbers delay op interval attempts s).1
  perform (fallback wallet id consent) s = (submit_direct_fallback ports wallet id consent s).1
  perform (poll wallet id) s = (poll_pending_operation ports wallet id s).1
  perform (await wallet id input) s =
      (await_relay_settlement ports numbers delay wallet id input s).1
  perform (retry wallet id) s = (retry_failed_relay_attempt ports wallet id s).1
  perform (resume wallet) s = (resume_pending_operations ports wallet s).1

  unfoldable pub perform_all : List Request → State W → State W
  unfolding perform
  perform_all [] s = s
  perform_all (r ∷ rs) s = perform_all rs (perform r s)

  proper : {A : Type 0} (m : Run W A) → Makes IsImmediate m → Makes IsProper m
  proper m = Makes-weaken m IsImmediate-IsProper

  perform-IsProper :
      (r : Request) (s : State W) → Journal IsProper s.calls → Journal IsProper (perform r s).calls
  unfolding perform
  perform-IsProper (submit op) s =
      Makes-Journal _ (proper _ (submit_prepared-IsImmediate ports op)) s
  perform-IsProper (submit_and_await op interval attempts) s =
      Makes-Journal _ (submit_and_await-IsProper ports numbers delay op interval attempts) s
  perform-IsProper (fallback wallet id consent) s =
      Makes-Journal _ (proper _ (submit_direct_fallback-IsImmediate ports wallet id consent)) s
  perform-IsProper (poll wallet id) s =
      Makes-Journal _ (proper _ (poll-IsImmediate ports wallet id)) s
  perform-IsProper (await wallet id input) s =
      Makes-Journal _ (await-IsProper ports numbers delay wallet id input) s
  perform-IsProper (retry wallet id) s =
      Makes-Journal _ (proper _ (retry-IsImmediate ports wallet id)) s
  perform-IsProper (resume wallet) s =
      Makes-Journal _ (proper _ (resume-IsImmediate ports wallet)) s

-- Whatever the ports answer or throw, over any sequence of submissions, awaits, fallbacks, polls,
-- retries and resumes every port call is proper. Local finalization, the draining of deliveries and
-- persistence are called only with an operation marked succeeded with its transaction, whose own flag
-- is unset and the flags of the earlier ones set, and only if the last call before was the save of
-- this very record or a read of the store: no two of them without a save or a read between. A direct
-- submission is made only for an operation that is offered one, a status is read only with the
-- operation's request id, and a retry is asked for only with that id and for an operation that is
-- offered one.
pub perform_all-IsProper :
    {W : Type 0} (ports : ProtocolRelayPorts W) (numbers : Arithmetic)
    (delay : Number → Port W (Unit {0})) (rs : List Request) (s : State W)
    → Journal IsProper s.calls
    → Journal IsProper (perform_all ports numbers delay rs s).calls
unfolding perform_all
perform_all-IsProper ports numbers delay [] s h = h
perform_all-IsProper ports numbers delay (r ∷ rs) s h =
    perform_all-IsProper ports numbers delay rs (perform ports numbers delay r s)
      (perform-IsProper ports numbers delay r s h)
