-- ===== src/Relay/Tests.antt =====
-- The relay runtime over a store in memory (as in packages/relay/test/relay-runtime.harness.ts):
-- runs on concrete operations, and the theorems at inputs that meet their hypotheses.
mod Completing
mod Polling
mod Awaiting
mod Submitting
mod Wire
use mathlib.Core.Path.{subst}
use privacy_layer_confidenti.Base.{
  ℕ, zero, suc, ◌+◌, ◌-◌, ◌≤◌, String, Bool, true, false, ◌≡◌, ◌≢◌, refl, inl, inr, Option, none,
  some, List, [], ◌∷◌, ◌==◌, ◌&&◌, if◌then◌else◌, arith, eq_iff, ap, ◌↔◌, truthy, length, ◌⊎◌, not,
}
use privacy_layer_confidenti.Js.Value.{Number, finite, up}
use privacy_layer_confidenti.Relay.Types.{
  SubmissionPath, RelayLifecycleStatus, PendingOperationPhase, OperationKind, RelayPackageJson,
  SafeDisplayMetadata, SdkFinalizationSnapshot, PendingPrivateOperation, RelayRequestAccepted,
  RelayRequestStatus, NewPrivateOperation, SubmitPrivateOperationResult,
}
use privacy_layer_confidenti.Relay.Reasons.{Thrown, relay_api_error, error, RelayApiError}
use privacy_layer_confidenti.Relay.Runtime.{
  Result, ok, threw, Port, RelayApi, PendingPrivateOperationStore, ProtocolRelayPorts, Call, State,
  ◌>>=◌, catch,
}
use privacy_layer_confidenti.Relay.Completion.{
  to_submit_result, with_succeeded_phase, is_already_completed, map_get, map_delete,
  apply_success_side_effects, complete_stored, complete_once, register_completion,
  apply_succeeded_completion, complete_succeeded_operation,
}
use privacy_layer_confidenti.Relay.Completion.Outcome.{IsComplete, complete-Reports}
use privacy_layer_confidenti.Relay.Completion.Effects.{
  count, is_finalization, is_drain, effects_bounded, effects_exact,
}
use privacy_layer_confidenti.Relay.Completion.Repeat.{KeepsSaved, complete-again}
use privacy_layer_confidenti.Relay.Completion.Crash.{HoldsFinalized, effects-HoldsFinalized}
use privacy_layer_confidenti.Relay.Config.{is_relay_configured}
use privacy_layer_confidenti.Relay.Policy.{
  can_offer_direct_submission, can_retry_relay_attempt, is_unfinalized_relay_operation,
}
use privacy_layer_confidenti.Relay.Policy.Exclusion.{offers_exclusive}
use privacy_layer_confidenti.Relay.Polling.{
  relay_status_text, read_relay_status, apply_status, poll_pending_operation,
}
use privacy_layer_confidenti.Relay.Polling.Status.{
  read_relay_status_iff, retry_after_status_iff, apply_status_keeps,
}
use privacy_layer_confidenti.Relay.Settlement.{
  Arithmetic, PollOptions, is_settled, resolve_poll_bounds, await_relay_settlement,
}
use privacy_layer_confidenti.Relay.Settlement.Bounds.{Delays, Delays-await}
use privacy_layer_confidenti.Relay.Recovery.{
  unfinalized, throw_if_relay_unsuccessful, received, resume_pending_operations,
}
use privacy_layer_confidenti.Relay.Recovery.Outcomes.{receipt_iff, resume-length}
use privacy_layer_confidenti.Relay.Runtime.Runs.{Journal}
use privacy_layer_confidenti.Relay.Calls.{IsProper}
use privacy_layer_confidenti.Relay.Calls.Sequence.{Request, perform_all, perform_all-IsProper}
use privacy_layer_confidenti.Relay.Submission.{
  build_prepared_operation, create_relay_request, submit_prepared_private_operation,
}
use privacy_layer_confidenti.Relay.Submission.Admission.{
  create_relay_request_refused, acceptance_lost,
}

abbrev Memory : Type 0
Memory = List PendingPrivateOperation

-- The newest save comes first.
find : Memory → String → String → Option PendingPrivateOperation
find [] wallet id = none
find (op ∷ ops) wallet id =
    if op.wallet_public_key == wallet && op.id == id then some op else find ops wallet id

abbrev memory_store : PendingPrivateOperationStore Memory
memory_store = record {
  save = λ op w. (ok tt, op ∷ w);
  list = λ wallet w. (ok w, w);
  read = λ wallet id w. (ok (find w wallet id), w);
}

abbrev answering : RelayRequestStatus → RelayApi Memory
answering status = record {
  create_request = λ body w. (
    ok (record {
      relay_request_id = "relay-1";
      status = "accepted";
      created_at = "";
      status_url = "";
    }),
    w,
  );
  read_status = λ id w. (ok status, w);
  retry_attempt = λ id w. (ok status, w);
}

abbrev status_of : String → Option String → RelayRequestStatus
status_of status hash = record {
  relay_request_id = "relay-1";
  status = status;
  created_at = "";
  updated_at = "";
  retry_allowed = true;
  attempt_number = none;
  transaction_hash = hash;
  public_reason = none;
}

abbrev ports_with : RelayApi Memory → ProtocolRelayPorts Memory
ports_with api = record {
  relay_api = some api;
  relay_config = some "https://relay.example/";
  store = memory_store;
  submit_direct = λ op w. (ok "tx", w);
  finalize_local_state = λ op tx w. (ok tt, w);
  drain_deliveries = λ op tx w. (ok (some "late"), w);
  persist_user_transaction = λ op tx w. (ok tt, w);
}

abbrev ports : ProtocolRelayPorts Memory
ports = ports_with (answering (status_of "succeeded" (some "tx")))

abbrev one : Number
one = finite false 1 (up 0)

-- An arithmetic for which every delay is the maximal one.
abbrev numbers : Arithmetic
numbers = record { times = λ x y. x; power = λ x y. x; minimum = λ x y. y; whole = λ n. one }

abbrev new_operation : Bool → NewPrivateOperation
new_operation escrow = record {
  id = "op-1";
  wallet_public_key = "GTESTWALLET";
  submission_path = SubmissionPath.relay;
  display = record {
    kind = OperationKind.withdraw;
    asset_id = "USDC";
    amount_display = one;
    counterparty = "GTESTWALLET";
    sender_private_address = "stpl1sender";
  };
  snapshot = record { consumed_record_ids = "note-1" ∷ []; output_records = [] };
  delivery_outbox = [];
  relay_package = record {
    version = one;
    pool_selector = "CPOOL";
    zk_config_nonce = "0";
    proof_bytes = "aa";
    public_signals = "bb";
    application_id_hints = "1" ∷ [];
    ciphertext_bytes = none;
    output_note_ephemeral_scalars = none;
    escrow_authorization = none;
    key_version_hints = none;
  };
  escrow_send = escrow;
}

abbrev prepared_op : PendingPrivateOperation
prepared_op =
    let input = new_operation false in
    record {
      id = input.id;
      wallet_public_key = input.wallet_public_key;
      phase = PendingOperationPhase.prepared;
      retry_allowed = false;
      display = input.display;
      snapshot = input.snapshot;
      delivery_outbox = [];
      relay_package = input.relay_package;
      finalized = false;
      deliveries_drained = false;
      transaction_persisted = false;
      escrow_send = false;
      relay_request_id = none;
      relay_status = none;
      public_reason = none;
      transaction_hash = none;
    }

abbrev empty_state : State Memory
empty_state = record { world = []; calls = []; in_flight = [] }

find_self :
    (op : PendingPrivateOperation) (w : Memory) → find (op ∷ w) op.wallet_public_key op.id ≡ some op
unfolding find
find_self op w =
    ground (arith, eq_iff op.wallet_public_key op.wallet_public_key, eq_iff op.id op.id)

find-keyed :
    (wallet id : String) (w : Memory) (op : PendingPrivateOperation)
    → find w wallet id ≡ some op
    → (op.wallet_public_key ≡ wallet) × (op.id ≡ id)
unfolding find
find-keyed wallet id [] op h = cc
find-keyed wallet id (o ∷ w) op h =
    ground (arith, eq_iff o.wallet_public_key wallet, eq_iff o.id id, find-keyed wallet id w op)

memory-KeepsSaved : (api : RelayApi Memory) → KeepsSaved (ports_with api) find
memory-KeepsSaved api = record {
  reads = λ wallet id w. refl;
  keyed = find-keyed;
  saves = λ op w w' h.
      subst (λ m. find m op.wallet_public_key op.id ≡ some op) (ap (λ p. p.1) h) (find_self op w);
  save_atomic = λ op w. inl (find_self op w);
  finalize_apart = λ op tx w wallet id. refl;
  drain_apart = λ op tx w wallet id. refl;
  persist_apart = λ op tx w wallet id. refl;
}

-- What a run on these ports computes with.
runtime : Unit {0}
unfolding complete_succeeded_operation complete_stored complete_once register_completion
    apply_succeeded_completion apply_success_side_effects is_already_completed with_succeeded_phase
    to_submit_result map_get map_delete can_offer_direct_submission can_retry_relay_attempt find
    poll_pending_operation ◌>>=◌ catch
runtime = tt

abbrev relayed_op : PendingPrivateOperation
relayed_op = record prepared_op {
  phase = PendingOperationPhase.relay_accepted;
  relay_request_id = some "relay-1";
  relay_status = some RelayLifecycleStatus.accepted;
}
