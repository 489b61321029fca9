-- ===== src/Relay/Completion/Repeat.antt =====
-- Completing an operation again, over a store that keeps what is saved.
use privacy_layer_confidenti.Base.{
  ◌≡◌, ◌⊎◌, Option, some, String, arith, [], refl, ◌∷◌, or_default, none, ap, Bool-cases, inl, inr,
}
use privacy_layer_confidenti.Relay.Types.{PendingPrivateOperation, SubmitPrivateOperationResult}
use privacy_layer_confidenti.Relay.Runtime.{ok, Call, ProtocolRelayPorts, State, pure, ◌>>=◌, ◌>>◌}
use privacy_layer_confidenti.Relay.Runtime.Runs.{bind-eq-ok}
use privacy_layer_confidenti.Relay.Completion.{
  save, complete_succeeded_operation, apply_succeeded_completion, complete_stored, complete_once,
  is_already_completed, with_succeeded_phase, to_submit_result, success_key,
}
use privacy_layer_confidenti.Relay.Completion.Outcome.{
  effects-eq-ok, once-eq-register, register-eq-ok, complete-Reports, IsComplete,
}
use mathlib.Core.Path.{subst, subst₂, ◌∙◌}

-- What the runtime relies on in the caller's store: `view w wallet id` is the operation that the
-- store holds in the world `w`. A read answers with it and changes nothing; a save that returns is
-- seen by the next read, one that throws has either written the operation or not; the success side
-- effects leave the store alone.
pub record KeepsSaved {W : Type 0} (ports : ProtocolRelayPorts W)
    (view : W → String → String → Option PendingPrivateOperation) : Type 0 where
  pub reads :
      (wallet id : String) (w : W) → ports.store.read wallet id w ≡ (ok (view w wallet id), w)
  pub keyed :
      (wallet id : String) (w : W) (op : PendingPrivateOperation)
      → view w wallet id ≡ some op
      → (op.wallet_public_key ≡ wallet) × (op.id ≡ id)
  pub saves :
      (op : PendingPrivateOperation) (w w' : W)
      → ports.store.save op w ≡ (ok tt, w')
      → view w' op.wallet_public_key op.id ≡ some op
  pub save_atomic :
      (op : PendingPrivateOperation) (w : W)
      → (view (ports.store.save op w).1 op.wallet_public_key op.id ≡ some op)
        ⊎ (view (ports.store.save op w).1 op.wallet_public_key op.id
            ≡ view w op.wallet_public_key op.id)
  pub finalize_apart :
      (op : PendingPrivateOperation) (tx : String) (w : W) (wallet id : String)
      → view (ports.finalize_local_state op tx w).1 wallet id ≡ view w wallet id
  pub drain_apart :
      (op : PendingPrivateOperation) (tx : String) (w : W) (wallet id : String)
      → view (ports.drain_deliveries op tx w).1 wallet id ≡ view w wallet id
  pub persist_apart :
      (op : PendingPrivateOperation) (tx : String) (w : W) (wallet id : String)
      → view (ports.persist_user_transaction op tx w).1 wallet id ≡ view w wallet id

module _ {W : Type 0} (ports : ProtocolRelayPorts W)
    (view : W → String → String → Option PendingPrivateOperation)
    (keeps : KeepsSaved ports view) where
  -- The store holds `op`, which is kept under the key `wallet`, `id`.
  abbrev Holds : State W → PendingPrivateOperation → String → String → Type 0
  Holds s op wallet id =
      (view s.world wallet id ≡ some op) × (op.wallet_public_key ≡ wallet) × (op.id ≡ id)

  call_saved :
      (op : PendingPrivateOperation) (s : State W) {u : Unit {0}} {t : State W}
      → save ports op s ≡ (ok u, t)
      → ports.store.save op s.world ≡ (ok tt, t.world)
  unfolding ◌>>=◌
  call_saved op s h = ground arith

  save_pure-Holds :
      (op : PendingPrivateOperation) (x : SubmitPrivateOperationResult) (s : State W)
      {r : SubmitPrivateOperationResult} {s' : State W}
      → (save ports op >> pure x) s ≡ (ok r, s')
      → Holds s' op op.wallet_public_key op.id × (r ≡ x)
  save_pure-Holds op x s {s'} h =
      let (u, t, e, k) = bind-eq-ok (save ports op) _ s h in
      let same : t.world ≡ s'.world = unfold ◌>>=◌ in ap (λ p. p.1.world) k in
      (
        (
          subst (λ w. view w op.wallet_public_key op.id ≡ some op) same
              (keeps.saves op s.world t.world (call_saved op s e)),
          refl,
          refl,
        ),
        unfold ◌>>=◌ in ground arith,
      )

  completion-Holds :
      (op : PendingPrivateOperation) (tx : String) (s : State W) {r : SubmitPrivateOperationResult}
      {s' : State W}
      → apply_succeeded_completion ports op tx s ≡ (ok r, s')
      → Holds s' r.operation op.wallet_public_key op.id
  unfolding apply_succeeded_completion to_submit_result
  completion-Holds op tx s h =
      let ((c, w), t, e, k) = bind-eq-ok _ _ s h in
      let (applied, _) = effects-eq-ok ports op tx s e in
      let (held, result) = save_pure-Holds c _ t k in ground arith

  stored-Holds :
      (op : PendingPrivateOperation) (tx : String) (s : State W) {r : SubmitPrivateOperationResult}
      {s' : State W}
      → s.in_flight ≡ []
      → complete_stored ports op tx s ≡ (ok r, s')
      → Holds s' r.operation op.wallet_public_key op.id
  unfolding complete_stored complete_once to_submit_result
  stored-Holds op tx s {s'} e h = elim (Bool-cases (is_already_completed op)) [
    | inl done ↦ let (held, result) = save_pure-Holds op _ s (rw done at h) in ground arith
    | inr more ↦
        let (t, settled, same, _, _) =
          register-eq-ok ports (success_key op tx) (apply_succeeded_completion ports op tx) s
            (rw (once-eq-register ports op tx s e) at (rw more at h)) in
        let (held, w, i) = completion-Holds op tx s settled in
        (rw (ap (λ w. view w op.wallet_public_key op.id) same) at held, w, i)
  ]

  keyed-or_default :
      (op : PendingPrivateOperation) (o : Option PendingPrivateOperation) (w : W)
      → view w op.wallet_public_key op.id ≡ o
      → ((or_default o op).wallet_public_key ≡ op.wallet_public_key)
        × ((or_default o op).id ≡ op.id)
  keyed-or_default op none w h = (refl, refl)
  keyed-or_default op (some stored) w h = keeps.keyed _ _ w stored h

  -- The state after the read that a completion starts with, and the operation that it works on.
  abbrev looked : PendingPrivateOperation → State W → State W
  looked op s = record s { calls = Call.looked_up op.wallet_public_key op.id ∷ s.calls }

  abbrev current : PendingPrivateOperation → State W → PendingPrivateOperation
  current op s = or_default (view s.world op.wallet_public_key op.id) op

  complete-eq-stored :
      (op : PendingPrivateOperation) (tx : String) (s : State W)
      → complete_succeeded_operation ports op tx s
        ≡ complete_stored ports (with_succeeded_phase (current op s) tx) tx (looked op s)
  unfolding complete_succeeded_operation ◌>>=◌
  complete-eq-stored op tx s = rw (keeps.reads op.wallet_public_key op.id s.world)

  complete-Holds :
      (op : PendingPrivateOperation) (tx : String) (s : State W) {r : SubmitPrivateOperationResult}
      {s' : State W}
      → s.in_flight ≡ []
      → complete_succeeded_operation ports op tx s ≡ (ok r, s')
      → Holds s' r.operation op.wallet_public_key op.id
  unfolding with_succeeded_phase
  complete-Holds op tx s {r} {s'} e h =
      let (wallet, id) = keyed-or_default op _ s.world refl in
      let (held, w, i) =
        stored-Holds (with_succeeded_phase (current op s) tx) tx (looked op s) e
          (rw (complete-eq-stored op tx s) at h) in
      (subst₂ (λ a b. view s'.world a b ≡ some r.operation) wallet id held, w ∙ wallet, i ∙ id)

  complete_stored-again :
      (op : PendingPrivateOperation) (tx : String) (s : State W)
      → IsComplete op tx
      → (complete_stored ports (with_succeeded_phase op tx) tx s).1.calls ≡ Call.saved op ∷ s.calls
  unfolding complete_stored with_succeeded_phase is_already_completed ◌>>=◌
  complete_stored-again op tx s c = ground arith

  -- Over a store that keeps what is saved: once a completion with no other in flight has returned,
  -- completing an operation with the same wallet, id and transaction again only reads the store and
  -- saves the completed operation once more. No success side effect is called a second time.
  pub complete-again :
      (op again : PendingPrivateOperation) (tx : String) (s : State W)
      {r : SubmitPrivateOperationResult} {s' : State W}
      → s.in_flight ≡ []
      → again.wallet_public_key ≡ op.wallet_public_key
      → again.id ≡ op.id
      → complete_succeeded_operation ports op tx s ≡ (ok r, s')
      → (complete_succeeded_operation ports again tx s').1.calls
        ≡ Call.saved r.operation ∷ Call.looked_up op.wallet_public_key op.id ∷ s'.calls
  complete-again op again tx s {r} {s'} e same_wallet same_id h =
      let (reports, _) = complete-Reports ports op tx s e h in
      let (held, _, _) = complete-Holds op tx s e h in
      rw (complete-eq-stored again tx s', same_wallet, same_id, held)
        (complete_stored-again r.operation tx (looked op s') reports.0)
