-- ===== src/Relay/Completion/Outcome.antt =====
-- What a completion that returns has recorded.
use text.Mathlib.TextPositions.{eq_refl}
use privacy_layer_confidenti.Base.{
  String, true, false, ◌≡◌, Option, none, some, List, [], ◌∷◌, arith, or_default, Bool-cases, inl,
  inr, ◌∙◌,
}
use privacy_layer_confidenti.Relay.Types.{
  RelayLifecycleStatus, PendingOperationPhase, PendingPrivateOperation,
  SubmitPrivateOperationResult,
}
use privacy_layer_confidenti.Relay.Policy.{can_offer_direct_submission, can_retry_relay_attempt}
use privacy_layer_confidenti.Relay.Runtime.{ok, ProtocolRelayPorts, State, Run, pure, ◌>>=◌, ◌>>◌}
use privacy_layer_confidenti.Relay.Runtime.Runs.{bind-eq-ok}
use privacy_layer_confidenti.Relay.Completion.{
  save, read, to_submit_result, with_succeeded_phase, is_already_completed, map_get, map_delete,
  apply_success_side_effects, apply_succeeded_completion, register_completion, complete_once,
  complete_stored, success_key, complete_succeeded_operation,
}

-- Everything about an operation that the transaction `tx` has completed.
pub record IsComplete (op : PendingPrivateOperation) (tx : String) : Type 0 where
  pub phase : op.phase ≡ PendingOperationPhase.succeeded
  pub status : op.relay_status ≡ some RelayLifecycleStatus.succeeded
  pub hash : op.transaction_hash ≡ some tx
  pub no_retry : op.retry_allowed ≡ false
  pub finalized : op.finalized ≡ true
  pub drained : op.deliveries_drained ≡ true
  pub persisted : op.transaction_persisted ≡ true

map_get-nil : {V : Type 0} (k : String) (m : List (String × V)) → m ≡ [] → map_get k m ≡ none
unfolding map_get
map_get-nil k m e = rw e

map_delete_self :
    {V : Type 0} (k : String) (v : V) (m : List (String × V))
    → m ≡ []
    → map_delete k ((k, v) ∷ m) ≡ []
unfolding map_delete
map_delete_self k v m e = rw e (rw eq_refl)

module _ {W : Type 0} (ports : ProtocolRelayPorts W) where
  pub effects-eq-ok :
      (op : PendingPrivateOperation) (tx : String) (s : State W) {c : PendingPrivateOperation}
      {w : Option String} {s' : State W}
      → apply_success_side_effects ports op tx s ≡ (ok (c, w), s')
      → (c
          ≡ record op { finalized = true; deliveries_drained = true; transaction_persisted = true })
        × (s'.in_flight ≡ s.in_flight)
  unfolding apply_success_side_effects ◌>>=◌
  effects-eq-ok op tx s h = ground arith

  read-in_flight :
      (op : PendingPrivateOperation) (s : State W) {o : Option PendingPrivateOperation}
      {s' : State W}
      → read ports op.wallet_public_key op.id s ≡ (ok o, s')
      → s'.in_flight ≡ s.in_flight
  unfolding ◌>>=◌
  read-in_flight op s h = ground arith

  -- What is returned about an operation that is complete.
  abbrev pub Reports : SubmitPrivateOperationResult → String → Type 0
  Reports r tx =
      IsComplete r.operation tx
      × (r.outcome ≡ PendingOperationPhase.succeeded)
      × (r.fallback_allowed ≡ false)
      × (r.retry_allowed ≡ false)

  to_submit_result-Reports :
      (op : PendingPrivateOperation) (tx : String) (warning : Option String)
      → IsComplete op tx
      → Reports (to_submit_result op (some tx) warning) tx
  unfolding to_submit_result can_offer_direct_submission can_retry_relay_attempt
  to_submit_result-Reports op tx warning c = (c, c.phase, ground arith, ground arith)

  with_succeeded_phase-IsComplete :
      (op : PendingPrivateOperation) (tx : String)
      → is_already_completed (with_succeeded_phase op tx) ≡ true
      → IsComplete (with_succeeded_phase op tx) tx
  unfolding with_succeeded_phase is_already_completed
  with_succeeded_phase-IsComplete op tx h = ground arith

  save_pure-eq-ok :
      (op : PendingPrivateOperation) (x : SubmitPrivateOperationResult) (s : State W)
      {r : SubmitPrivateOperationResult} {s' : State W}
      → (save ports op >> pure x) s ≡ (ok r, s')
      → (r ≡ x) × (s'.in_flight ≡ s.in_flight)
  unfolding ◌>>=◌
  save_pure-eq-ok op x s h = ground arith

  applied-IsComplete :
      (op c : PendingPrivateOperation) (tx : String)
      → c ≡ record (with_succeeded_phase op tx) {
        finalized = true;
        deliveries_drained = true;
        transaction_persisted = true;
      }
      → IsComplete c tx
  unfolding with_succeeded_phase
  applied-IsComplete op c tx h = ground arith

  completion-Reports :
      (op : PendingPrivateOperation) (tx : String) (s : State W) {r : SubmitPrivateOperationResult}
      {s' : State W}
      → apply_succeeded_completion ports (with_succeeded_phase op tx) tx s ≡ (ok r, s')
      → Reports r tx × (s'.in_flight ≡ s.in_flight)
  unfolding apply_succeeded_completion
  completion-Reports op tx s h =
      let ((c, w), t, e, k) = bind-eq-ok _ _ s h in
      let (applied, kept) = effects-eq-ok (with_succeeded_phase op tx) tx s e in
      let (result, same) = save_pure-eq-ok c _ t k in
      (
        rw result (to_submit_result-Reports c tx w (applied-IsComplete op c tx applied)),
        same ∙ kept,
      )

  pub register-eq-ok :
      (key : String) (m : Run W SubmitPrivateOperationResult) (s : State W)
      {r : SubmitPrivateOperationResult} {s' : State W}
      → register_completion ports key m s ≡ (ok r, s')
      → (t : State W) × (m s ≡ (ok r, t))
        × (t.world ≡ s'.world)
        × (t.calls ≡ s'.calls)
        × (s'.in_flight ≡ map_delete key ((key, ok r) ∷ t.in_flight))
  unfolding register_completion
  register-eq-ok key m s h = ((m s).1, ground arith, ground arith, ground arith, ground arith)

  pub once-eq-register :
      (op : PendingPrivateOperation) (tx : String) (s : State W)
      → s.in_flight ≡ []
      → complete_once ports op tx s
        ≡ register_completion ports (success_key op tx) (apply_succeeded_completion ports op tx) s
  unfolding complete_once
  once-eq-register op tx s e = rw (map_get-nil (success_key op tx) s.in_flight e)

  once-Reports :
      (op : PendingPrivateOperation) (tx : String) (s : State W) {r : SubmitPrivateOperationResult}
      {s' : State W}
      → s.in_flight ≡ []
      → complete_once ports (with_succeeded_phase op tx) tx s ≡ (ok r, s')
      → Reports r tx × (s'.in_flight ≡ [])
  once-Reports op tx s e h =
      let key = success_key (with_succeeded_phase op tx) tx in
      let (t, settled, _, _, cleared) =
        register-eq-ok key (apply_succeeded_completion ports (with_succeeded_phase op tx) tx) s
          (rw (once-eq-register (with_succeeded_phase op tx) tx s e) at h) in
      let (reports, kept) = completion-Reports op tx s settled in
      (reports, cleared ∙ map_delete_self key _ t.in_flight (kept ∙ e))

  stored-Reports :
      (op : PendingPrivateOperation) (tx : String) (s : State W) {r : SubmitPrivateOperationResult}
      {s' : State W}
      → s.in_flight ≡ []
      → complete_stored ports (with_succeeded_phase op tx) tx s ≡ (ok r, s')
      → Reports r tx × (s'.in_flight ≡ [])
  unfolding complete_stored ◌>>=◌
  stored-Reports op tx s e h =
      elim (Bool-cases (is_already_completed (with_succeeded_phase op tx))) [
        | inl done ↦
            let (result, kept) = save_pure-eq-ok _ _ s (rw done at h) in
            (
              rw result
                  (to_submit_result-Reports _ tx none (with_succeeded_phase-IsComplete op tx done)),
              kept ∙ e,
            )
        | inr more ↦ once-Reports op tx s e (rw more at h)
      ]

  -- A completion that returns, started with no completion in flight, reports the phase `succeeded`,
  -- offers neither fallback nor retry, leaves no completion in flight, and its operation is
  -- complete: succeeded with the transaction's id, finalized, drained and persisted.
  pub complete-Reports :
      (op : PendingPrivateOperation) (tx : String) (s : State W) {r : SubmitPrivateOperationResult}
      {s' : State W}
      → s.in_flight ≡ []
      → complete_succeeded_operation ports op tx s ≡ (ok r, s')
      → Reports r tx × (s'.in_flight ≡ [])
  unfolding complete_succeeded_operation
  complete-Reports op tx s e h =
      let (stored, t, found, k) = bind-eq-ok _ _ s h in
      stored-Reports (or_default stored op) tx t (read-in_flight op s found ∙ e) k
