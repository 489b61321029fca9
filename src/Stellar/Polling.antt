-- ===== src/Stellar/Polling.antt =====
-- Waiting for a transaction (packages/stellar/src/rpc/polling.ts, with the status read of
-- rpc/transactions.ts) and for a KYT registration (transact/kyt/passage/poll.ts). The server, the
-- clock and the timer are parameters.
pub mod Ends
use privacy_layer_confidenti.Base.{
  ℕ, zero, suc, ◌-◌, String, Bool, true, false, Option, none, some, List, [], ◌∷◌, ◌==◌, ltb,
  if◌then◌else◌, or_default,
}
use privacy_layer_confidenti.Js.Text.{trim}
use privacy_layer_confidenti.Core.Errors.{Thrown}
use privacy_layer_confidenti.Core.Operations.{Attempt, answered, raised, Action}
use privacy_layer_confidenti.Stellar.Effects.{◌>>=◌, ◌>>◌, done, throw, error_object}
use privacy_layer_confidenti.Stellar.Policy.{message_or}

-- What the server answers, with the details that it gives of a success.
pub data TransactionResponse : Type 0 where
  not_found_response : TransactionResponse
  failed_response success_response : (ledger : ℕ) (created_at : Option String) → TransactionResponse

pub data TransactionStatus : Type 0 where
  success_status failed_status :
      (tx_hash : String) (ledger : ℕ) (created_at : Option String) → TransactionStatus
  not_found_reject rpc_error_reject : (message : String) → TransactionStatus

abbrev pub status_of_response : String → TransactionResponse → TransactionStatus
status_of_response hash not_found_response = not_found_reject "Transaction not found"
status_of_response hash (failed_response ledger created_at) = failed_status hash ledger none
status_of_response hash (success_response ledger created_at) = success_status hash ledger created_at

module _ {W : Type 0} where
  abbrev status_of_attempt :
      String → Attempt TransactionResponse × W → Attempt TransactionStatus × W
  status_of_attempt hash (answered response, w) = (answered (status_of_response hash response), w)
  status_of_attempt hash (raised thrown, w) =
      (answered (rpc_error_reject (message_or "Soroban request failed" thrown)), w)

  -- `readStellarTransactionStatus(server, txHash)`: never throws.
  unfoldable pub read_stellar_transaction_status :
      (String → Action W TransactionResponse) → String → Action W TransactionStatus
  unfolding trim
  read_stellar_transaction_status get_transaction tx_hash w =
      if trim tx_hash == ""
      then (answered (rpc_error_reject "Missing tx hash"), w)
      else status_of_attempt (trim tx_hash) (get_transaction (trim tx_hash) w)

-- What a round makes of the status that it read.
pub data Verdict : Type 0 where
  settled : TransactionStatus → Verdict
  refused : Thrown → Verdict
  again : Verdict

abbrev pub verdict_of : TransactionStatus → Verdict
verdict_of (success_status hash ledger created_at) = settled (success_status hash ledger created_at)
verdict_of (failed_status hash ledger created_at) =
    refused (error_object "Transaction failed on network")
verdict_of (rpc_error_reject message) = refused (error_object message)
verdict_of (not_found_reject message) = again

abbrev pub default_poll_interval_ms : ℕ
default_poll_interval_ms = 1500

abbrev pub default_timeout_ms : ℕ
default_timeout_ms = 60000

-- The waiting loop's surroundings: a read of the status, the clock, and the timer.
pub record PollPorts (W : Type 0) : Type 0 where
  pub read_status : W → TransactionStatus × W
  pub now : W → ℕ
  pub sleep : ℕ → W → W

module _ {W : Type 0} (ports : PollPorts W) (interval timeout started_at : ℕ) where
  -- The loop. The fuel counts its rounds; `none` means that it ran out.
  unfoldable pub wait_from : ℕ → W → Option (Attempt TransactionStatus × W)
  wait_from zero w = none
  wait_from (suc fuel) w = elim (ltb (ports.now w - started_at) timeout) [
    | false ↦ some (raised (error_object "Transaction was not confirmed in time"), w)
    | true ↦
        (let (status, w') = ports.read_status w in
          elim (verdict_of status) [
            | settled final ↦ some (answered final, w')
            | refused thrown ↦ some (raised thrown, w')
            | again ↦ wait_from fuel (ports.sleep interval w')
          ])
  ]

abbrev pub wait_for_stellar_transaction_confirmation :
    {W : Type 0}
    → PollPorts W
    → (poll_interval_ms timeout_ms : Option ℕ) (fuel : ℕ) → W
    → Option (Attempt TransactionStatus × W)
wait_for_stellar_transaction_confirmation ports poll_interval_ms timeout_ms fuel w =
    wait_from ports (or_default poll_interval_ms default_poll_interval_ms)
      (or_default timeout_ms default_timeout_ms) (ports.now w) fuel w

-- The registration's poll has a bound of its own.
pub data RegistrationStatus : Type 0 where
  registration_success registration_failed registration_unknown : RegistrationStatus

abbrev pub kyt_register_max_polls : ℕ
kyt_register_max_polls = 60

abbrev pub kyt_register_poll_interval_ms : ℕ
kyt_register_poll_interval_ms = 1000

module _ {W : Type 0} (get_transaction : Action W RegistrationStatus)
    (sleep : ℕ → Action W (Unit {0})) where
  -- The rounds that are left.
  unfoldable pub poll_registration : ℕ → Action W (Unit {0})
  poll_registration zero = throw (error_object "KYT passage registration was not confirmed in time")
  poll_registration (suc left) = get_transaction >>= λ status. elim status [
    | registration_success ↦ done tt
    | registration_failed ↦ throw (error_object "KYT passage registration failed on-chain")
    | registration_unknown ↦ sleep kyt_register_poll_interval_ms >> poll_registration left
  ]

  abbrev pub wait_for_kyt_registration : Action W (Unit {0})
  wait_for_kyt_registration = poll_registration kyt_register_max_polls
