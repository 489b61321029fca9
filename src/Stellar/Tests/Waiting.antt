-- ===== src/Stellar/Tests/Waiting.antt =====
-- Waiting, at concrete inputs: the world is the clock.
use privacy_layer_confidenti.Base.{ℕ, ◌+◌, ltb, if◌then◌else◌, ◌≡◌, refl, none, some, arith}
use privacy_layer_confidenti.Core.Operations.{answered, Action}
use privacy_layer_confidenti.Stellar.Polling.{
  success_status, not_found_reject, PollPorts, wait_from, wait_for_stellar_transaction_confirmation,
  RegistrationStatus, registration_success, registration_unknown, wait_for_kyt_registration,
}
use privacy_layer_confidenti.Stellar.Polling.Ends.{
  Ends, IsClock, at_once, later, wait_for_stellar_transaction_confirmation-Ends,
  wait_for_kyt_registration-Confirms,
}

-- The transaction is found after two seconds.
abbrev ports : PollPorts ℕ
ports = record {
  read_status = λ w. (
    (if ltb 2000 w then success_status "tx" 7 none else not_found_reject "Transaction not found"),
    w,
  );
  now = λ w. w;
  sleep = λ ms w. w + ms;
}

ports-IsClock : IsClock ports
ports-IsClock = record { read_keeps = λ w. omega arith; sleep_waits = λ ms w. omega arith }

ends_example : Ends (wait_for_stellar_transaction_confirmation ports none none 41 5)
ends_example =
    wait_for_stellar_transaction_confirmation-Ends ports none none 41 5 ports-IsClock (omega arith)
      (omega arith) (omega arith)

waits_two_rounds :
    wait_for_stellar_transaction_confirmation ports none none 41 0
    ≡ some (answered (success_status "tx" 7 none), 3000)
unfolding wait_from
waits_two_rounds = refl

-- The registration is confirmed when the clock is past half a second.
abbrev server : Action ℕ RegistrationStatus
server w = (answered (if ltb 500 w then registration_success else registration_unknown), w)

abbrev timer : ℕ → Action ℕ (Unit {0})
timer ms w = (answered tt, w + ms)

confirms_example : (wait_for_kyt_registration server timer 0).0 ≡ answered tt
confirms_example =
    wait_for_kyt_registration-Confirms server timer 1 0 (later refl refl (at_once refl))
      (omega arith)
