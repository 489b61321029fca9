-- ===== src/Relay/Settlement/Bounds.antt =====
-- Bounds on an await of packages/relay/src/await-relay-settlement.ts: the number of its delays, and
-- what it reports.
use privacy_layer_confidenti.Base.{
  ℕ, zero, suc, ◌+◌, ◌-◌, ◌≤◌, String, Bool, true, false, ◌≡◌, refl, List, arith, if◌then◌else◌,
}
use privacy_layer_confidenti.Js.Value.{Number}
use privacy_layer_confidenti.Relay.Types.{SubmitPrivateOperationResult}
use privacy_layer_confidenti.Relay.Runtime.{
  Result, ok, threw, continue, Port, ProtocolRelayPorts, Call, State, Run, pure, call, ◌>>=◌,
}
use privacy_layer_confidenti.Relay.Runtime.Runs.{Makes}
use privacy_layer_confidenti.Relay.Completion.Effects.{count}
use privacy_layer_confidenti.Relay.Polling.{poll_pending_operation}
use privacy_layer_confidenti.Relay.Calls.{IsImmediate}
use privacy_layer_confidenti.Relay.Calls.Steps.{poll-IsImmediate}
use privacy_layer_confidenti.Relay.Settlement.{
  Arithmetic, SettlementPollBounds, PollOptions, resolve_poll_bounds, is_settled, poll_again,
  poll_until_bound, mark_settlement_timed_out, settle_or_time_out, await_relay_settlement,
}

abbrev is_delay : Call → ℕ
is_delay (Call.delayed ms) = 1
is_delay _ = 0

immediate-no_delay : (c : Call) (cs : List Call) → IsImmediate c cs → is_delay c ≡ 0
immediate-no_delay (Call.delayed ms) cs h = absurd h
immediate-no_delay _ cs h = refl

-- The run `m` makes at most `n` delays, whether it returns or throws.
pub record Delays {W A : Type 0} (n : ℕ) (m : Run W A) : Type 0 where
  pub at : (s : State W) → count is_delay (m s).1.calls ≤ n + count is_delay s.calls

module _ {W A : Type 0} where
  Delays-pure : (n : ℕ) (a : A) → Delays {W = W} n (pure a)
  unfolding pure
  Delays-pure n a = record { at = λ s. omega arith }

  Delays-if :
      (b : Bool) (n : ℕ) (m k : Run W A) → Delays n m → Delays n k → Delays n (if b then m else k)
  Delays-if true n m k h l = h
  Delays-if false n m k h l = l

  Delays-immediate : (m : Run W A) → Makes IsImmediate m → Delays 0 m
  Delays-immediate m h = record {
    at = λ s.
        h.at (λ cs. count is_delay cs ≤ 0 + count is_delay s.calls)
          (λ c cs p q. omega (arith, immediate-no_delay c cs p)) s (omega arith);
  }

module _ {W A B : Type 0} where
  Delays-continue :
      (n : ℕ) (r : Result A) (f : A → Run W B)
      → ((a : A) → Delays n (f a))
      → Delays n (continue r f)
  Delays-continue n (ok a) f h = h a
  Delays-continue n (threw e) f h = record { at = λ s. omega arith }

  Delays-bind :
      (total n k : ℕ) (m : Run W A) (f : A → Run W B)
      → n + k ≤ total
      → Delays n m
      → ((a : A) → Delays k (f a))
      → Delays total (m >>= f)
  unfolding ◌>>=◌
  Delays-bind total n k m f fits h l = record {
    at =
        λ s. let after = (Delays-continue k (m s).0 f l).at (m s).1 in omega (arith, h.at s, after);
  }

module _ {W : Type 0} (ports : ProtocolRelayPorts W) (numbers : Arithmetic)
    (delay : Number → Port W (Unit {0})) where
  Delays-delay : (ms : Number) → Delays 1 (call (Call.delayed ms) (delay ms))
  unfolding call
  Delays-delay ms = record { at = λ s. omega arith }

  Delays-poll : (wallet id : String) → Delays 0 (poll_pending_operation ports wallet id)
  Delays-poll wallet id =
      Delays-immediate (poll_pending_operation ports wallet id) (poll-IsImmediate ports wallet id)

  Delays-poll_again :
      (wallet id : String) (bounds : SettlementPollBounds) (left index : ℕ)
      (r : SubmitPrivateOperationResult)
      → Delays left (poll_again ports numbers delay wallet id bounds left index r)
  unfolding poll_again
  Delays-poll_again wallet id bounds zero index r = Delays-pure 0 r
  Delays-poll_again wallet id bounds (suc left) index r =
      Delays-if (is_settled r) (suc left) _ _ (Delays-pure (suc left) r) (
        Delays-bind (suc left) 1 left _ _ (omega arith) (Delays-delay _) (λ _.
          Delays-bind left 0 left _ _ (omega arith) (Delays-poll wallet id)
            (λ next. Delays-poll_again wallet id bounds left (index + 1) next)))

  Delays-settle :
      (r : SubmitPrivateOperationResult) → Delays 0 (settle_or_time_out ports numbers delay r)
  unfolding settle_or_time_out mark_settlement_timed_out call pure ◌>>=◌
  Delays-settle r = record { at = λ s. ground arith }

  -- An await makes at most one delay less than the attempts that it is given, whatever the ports
  -- answer or throw.
  pub Delays-await :
      (wallet id : String) (input : PollOptions)
      → Delays
          ((resolve_poll_bounds input).max_attempts - 1)
          (await_relay_settlement ports numbers delay wallet id input)
  unfolding await_relay_settlement poll_until_bound
  Delays-await wallet id input =
      let bounds = resolve_poll_bounds input in
      let left = bounds.max_attempts - 1 in
      Delays-bind left left 0 _ _ (omega arith)
        (Delays-bind left 0 left _ _ (omega arith) (Delays-poll wallet id)
          (λ result. Delays-poll_again wallet id bounds left 0 result))
        Delays-settle
