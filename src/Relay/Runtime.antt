-- ===== src/Relay/Runtime.antt =====
-- The runtime's effects. The ports of types.ts (`ProtocolRelayPorts`) are supplied by the caller:
-- they are parameters, each an action on an outer world `W` that answers or throws. An `async`
-- function of the runtime is an action on the world, the record of the port calls made so far
-- (newest first), and the module's map of completions in flight.
pub mod Runs
use privacy_layer_confidenti.Base.{ℕ, String, Bool, Option, none, some, List, [], ◌∷◌, ◌≡◌}
use privacy_layer_confidenti.Js.Value.{Number}
use privacy_layer_confidenti.Relay.Types.{
  PendingPrivateOperation, RelayPackageJson, RelayRequestAccepted, RelayRequestStatus,
  SubmitPrivateOperationResult,
}
use privacy_layer_confidenti.Relay.Reasons.{Thrown, error}

pub data Result {ℓ} (A : Type ℓ) : Type ℓ where
  ok : A → Result A
  threw : Thrown → Result A

abbrev pub Port : Type 0 → Type 0 → Type 0
Port W A = W → Result A × W

pub record RelayApi (W : Type 0) : Type 0 where
  pub create_request : RelayPackageJson → Port W RelayRequestAccepted
  pub read_status : String → Port W RelayRequestStatus
  pub retry_attempt : String → Port W RelayRequestStatus

pub record PendingPrivateOperationStore (W : Type 0) : Type 0 where
  pub save : PendingPrivateOperation → Port W (Unit {0})
  pub list : String → Port W (List PendingPrivateOperation)
  pub read : (wallet_public_key operation_id : String) → Port W (Option PendingPrivateOperation)

-- `relayConfig?: { origin: string }`; `submitDirect` answers with the transaction's id.
pub record ProtocolRelayPorts (W : Type 0) : Type 0 where
  pub relay_api : Option (RelayApi W)
  pub relay_config : Option String
  pub store : PendingPrivateOperationStore W
  pub submit_direct : PendingPrivateOperation → Port W String
  pub finalize_local_state : PendingPrivateOperation → String → Port W (Unit {0})
  pub drain_deliveries : PendingPrivateOperation → String → Port W (Option String)
  pub persist_user_transaction : PendingPrivateOperation → String → Port W (Unit {0})

-- A port call as it is made, whether it answers or throws; a status read and a retry are written
-- with the operation that they are made for.
pub data Call : Type 0 where
  saved : PendingPrivateOperation → Call
  listed : String → Call
  looked_up : (wallet_public_key operation_id : String) → Call
  created_request : RelayPackageJson → Call
  polled : PendingPrivateOperation → (relay_request_id : String) → Call
  retried : PendingPrivateOperation → (relay_request_id : String) → Call
  direct : PendingPrivateOperation → Call
  finalized drained persisted : PendingPrivateOperation → String → Call
  delayed : Number → Call

pub record State (W : Type 0) : Type 0 where
  pub world : W
  pub calls : List Call
  pub in_flight : List (String × Result SubmitPrivateOperationResult)

abbrev pub Run {ℓ} : Type 0 → Type ℓ → Type ℓ
Run W A = State W → Result A × State W

module _ {W A : Type 0} where
  unfoldable pub pure : A → Run W A
  pure a s = (ok a, s)

  -- `throw new Error(message)`
  unfoldable pub fail : String → Run W A
  fail message s = (threw (error message), s)

  -- Awaiting a port.
  unfoldable pub call : Call → Port W A → Run W A
  call c port s = let (r, w) = port s.world in (r, record s { world = w; calls = c ∷ s.calls })

module _ {W A B : Type 0} where
  abbrev pub continue : Result A → (A → Run W B) → Run W B
  continue (ok a) f s = f a s
  continue (threw e) f s = (threw e, s)

  infixl 10 ◌>>=◌ ◌>>◌
  unfoldable pub ◌>>=◌ : Run W A → (A → Run W B) → Run W B
  unfolding pure fail call
  ◌>>=◌ m f s = let (r, s') = m s in continue r f s'

  abbrev pub ◌>>◌ : Run W A → Run W B → Run W B
  m >> n = m >>= λ _. n

module _ {W A : Type 0} where
  -- `try { m } catch (error) { handler(error) }`
  abbrev pub handle : Result A → (Thrown → Run W A) → Run W A
  handle (ok a) h s = (ok a, s)
  handle (threw e) h s = h e s

  unfoldable pub catch : Run W A → (Thrown → Run W A) → Run W A
  catch m h s = let (r, s') = m s in handle r h s'
