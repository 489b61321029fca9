-- ===== src/Relay/Calls.antt =====
-- The discipline of the port calls, over any sequence of the runtime's operations.
pub mod Completions
pub mod Steps
pub mod Awaiting
pub mod Sequence
use privacy_layer_confidenti.Base.{
  ℕ, String, Bool, true, false, ◌≡◌, ◌≢◌, some, List, [], ◌∷◌, truthy, Option,
}
use privacy_layer_confidenti.Relay.Types.{
  PendingPrivateOperation, NewPrivateOperation, PendingOperationPhase,
}
use privacy_layer_confidenti.Relay.Policy.{can_offer_direct_submission, can_retry_relay_attempt}
use privacy_layer_confidenti.Relay.Runtime.{Call, Port, ProtocolRelayPorts, State, Run}

-- `op` has been marked as settled by the transaction `tx`.
pub record IsSucceeded (op : PendingPrivateOperation) (tx : String) : Type 0 where
  pub phase : op.phase ≡ PendingOperationPhase.succeeded
  pub hash : op.transaction_hash ≡ some tx

-- The last call before this one saved this record, or read the store.
abbrev pub Follows : PendingPrivateOperation → List Call → Type 0
Follows op (Call.saved saved ∷ cs) = saved ≡ op
Follows op (Call.looked_up wallet id ∷ cs) = Unit
Follows op _ = ⊥

-- What must hold of a port call when it is made after the calls `cs`, other than a delay between
-- polls: the success side effects are called only right after the record that they are given was
-- saved or an operation was read from the store, while their own flag is unset and after the earlier
-- ones' flags are set; a direct submission only for an operation that is offered one; a status is read
-- only with the operation's request id; and a retry is asked for only with that id and for an
-- operation that is offered one.
abbrev pub IsImmediate : Call → List Call → Type 0
IsImmediate (Call.finalized op tx) cs = IsSucceeded op tx × (op.finalized ≡ false) × Follows op cs
IsImmediate (Call.drained op tx) cs =
    IsSucceeded op tx × (op.finalized ≡ true) × (op.deliveries_drained ≡ false) × Follows op cs
IsImmediate (Call.persisted op tx) cs =
    IsSucceeded op tx
    × (op.finalized ≡ true)
    × (op.deliveries_drained ≡ true)
    × (op.transaction_persisted ≡ false)
    × Follows op cs
IsImmediate (Call.direct op) cs = can_offer_direct_submission op ≡ true
IsImmediate (Call.polled op id) cs = (op.relay_request_id ≡ some id) × (id ≢ "")
IsImmediate (Call.retried op id) cs =
    (op.relay_request_id ≡ some id) × (id ≢ "") × (can_retry_relay_attempt op ≡ true)
IsImmediate (Call.saved op) cs = Unit
IsImmediate (Call.listed wallet) cs = Unit
IsImmediate (Call.looked_up wallet id) cs = Unit
IsImmediate (Call.created_request body) cs = Unit
IsImmediate (Call.delayed ms) cs = ⊥

-- A delay may be made too.
abbrev pub IsProper : Call → List Call → Type 0
IsProper (Call.delayed ms) cs = Unit
IsProper c cs = IsImmediate c cs

pub IsImmediate-IsProper : (c : Call) (cs : List Call) → IsImmediate c cs → IsProper c cs
IsImmediate-IsProper (Call.delayed ms) cs h = tt
IsImmediate-IsProper _ cs h = h
