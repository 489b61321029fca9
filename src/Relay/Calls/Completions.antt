-- ===== src/Relay/Calls/Completions.antt =====
-- The completion of an operation makes proper calls only
-- (packages/relay/src/complete-succeeded-operation.ts).
use privacy_layer_confidenti.Base.{
  String, true, ◌≡◌, refl, Option, none, some, List, or_default, arith,
}
use privacy_layer_confidenti.Relay.Types.{PendingPrivateOperation, SubmitPrivateOperationResult}
use privacy_layer_confidenti.Relay.Runtime.{
  Call, ProtocolRelayPorts, Run, State, call, pure, ◌>>=◌, Result, ok,
}
use privacy_layer_confidenti.Relay.Runtime.Runs.{
  Makes, makes_rules, Makes-pure, Makes-bind, MakesFrom, MakesFrom-any, MakesFrom-if,
  MakesFrom-call, MakesFrom-all, MakesFrom-bind,
}
use privacy_layer_confidenti.Relay.Completion.{
  apply_finalization, apply_drain, apply_persistence, after_finalization,
  apply_success_side_effects, apply_succeeded_completion, with_succeeded_phase, save, found,
  require_stored_operation, register_completion, join_completion, complete_once, complete_stored,
  complete_succeeded_operation, success_key, map_get, read, is_already_completed,
}
use privacy_layer_confidenti.Relay.Calls.{IsSucceeded, Follows, IsImmediate}

module _ {W : Type 0} (ports : ProtocolRelayPorts W) where
  pub save-IsImmediate : (op : PendingPrivateOperation) → Makes IsImmediate (save ports op)
  save-IsImmediate op = search (makes_rules, tt)

  read-IsImmediate : (wallet id : String) → Makes IsImmediate (read ports wallet id)
  read-IsImmediate wallet id = search (makes_rules, tt)

  found-IsImmediate : (o : Option PendingPrivateOperation) → Makes IsImmediate (found ports o)
  found-IsImmediate none = search makes_rules
  found-IsImmediate (some op) = search makes_rules

  pub require-IsImmediate :
      (wallet id : String) → Makes IsImmediate (require_stored_operation ports wallet id)
  unfolding require_stored_operation
  require-IsImmediate wallet id = search (makes_rules, read-IsImmediate, found-IsImmediate)

  finalization-IsImmediate :
      (op : PendingPrivateOperation) (tx : String)
      → IsSucceeded op tx
      → MakesFrom (Follows op) IsImmediate (apply_finalization ports op tx)
  unfolding apply_finalization
  finalization-IsImmediate op tx h =
      MakesFrom-if op.finalized _ _ (λ e. MakesFrom-any _ (Makes-pure op))
        (λ e.
          MakesFrom-bind (λ _ _. Unit)
            (call (Call.finalized op tx) (ports.finalize_local_state op tx)) _
            (MakesFrom-call (Call.finalized op tx) _ (λ cs f. (h, e, f))) (λ s a f k. tt)
            (λ a. MakesFrom-any _ (search (makes_rules, save-IsImmediate))))

  drain-IsImmediate :
      (op : PendingPrivateOperation) (tx : String)
      → IsSucceeded op tx
      → op.finalized ≡ true
      → MakesFrom (Follows op) IsImmediate (apply_drain ports op tx)
  unfolding apply_drain
  drain-IsImmediate op tx h d =
      MakesFrom-if op.deliveries_drained _ _ (λ e. MakesFrom-any _ (Makes-pure (op, none)))
        (λ e.
          MakesFrom-bind (λ _ _. Unit) (call (Call.drained op tx) (ports.drain_deliveries op tx)) _
            (MakesFrom-call (Call.drained op tx) _ (λ cs f. (h, d, e, f))) (λ s a f k. tt)
            (λ a. MakesFrom-any _ (search (makes_rules, save-IsImmediate))))

  persistence-IsImmediate :
      (op : PendingPrivateOperation) (tx : String)
      → IsSucceeded op tx
      → op.finalized ≡ true
      → op.deliveries_drained ≡ true
      → MakesFrom (Follows op) IsImmediate (apply_persistence ports op tx)
  unfolding apply_persistence
  persistence-IsImmediate op tx h d p =
      MakesFrom-if op.transaction_persisted _ _ (λ e. MakesFrom-any _ (Makes-pure op))
        (λ e.
          MakesFrom-bind (λ _ _. Unit)
            (call (Call.persisted op tx) (ports.persist_user_transaction op tx)) _
            (MakesFrom-call (Call.persisted op tx) _ (λ cs f. (h, d, p, e, f))) (λ s a f k. tt)
            (λ a. MakesFrom-any _ (search (makes_rules, save-IsImmediate))))

  finalization-returns :
      (op c : PendingPrivateOperation) (tx : String) (s : State W)
      → IsSucceeded op tx
      → Follows op s.calls
      → (apply_finalization ports op tx s).0 ≡ ok c
      → IsSucceeded c tx
        × (c.finalized ≡ true)
        × Follows c (apply_finalization ports op tx s).1.calls
  unfolding apply_finalization ◌>>=◌
  finalization-returns op c tx s h f e = ground (arith, f)

  drain-returns :
      (op : PendingPrivateOperation) (c : PendingPrivateOperation × Option String) (tx : String)
      (s : State W)
      → IsSucceeded op tx
      → op.finalized ≡ true
      → Follows op s.calls
      → (apply_drain ports op tx s).0 ≡ ok c
      → IsSucceeded c.0 tx
        × (c.0.finalized ≡ true)
        × (c.0.deliveries_drained ≡ true)
        × Follows c.0 (apply_drain ports op tx s).1.calls
  unfolding apply_drain ◌>>=◌
  drain-returns op c tx s h d f e = ground (arith, f)

  -- What holds after a drain lets the persistence be called.
  persistence_after :
      (c : PendingPrivateOperation × Option String) (tx : String)
      → MakesFrom {A = PendingPrivateOperation × Option String}
          (λ cs.
            IsSucceeded c.0 tx
            × (c.0.finalized ≡ true)
            × (c.0.deliveries_drained ≡ true)
            × Follows c.0 cs)
          IsImmediate
          (apply_persistence ports c.0 tx >>= λ persisted. pure (persisted, c.1))
  persistence_after c tx =
      MakesFrom-bind (λ _ _. Unit) (apply_persistence ports c.0 tx) _
        (record {
          at = λ I keep s (h, d, p, f) q. (persistence-IsImmediate c.0 tx h d p).at I keep s f q;
        })
        (λ s a f k. tt) (λ a. MakesFrom-any _ (Makes-pure (a, c.1)))

  after_finalization-IsImmediate :
      (c : PendingPrivateOperation) (tx : String)
      → IsSucceeded c tx
      → c.finalized ≡ true
      → MakesFrom (Follows c) IsImmediate (after_finalization ports c tx)
  unfolding after_finalization
  after_finalization-IsImmediate c tx h d =
      MakesFrom-bind _ (apply_drain ports c tx) _ (drain-IsImmediate c tx h d)
        (λ s a f e. drain-returns c a tx s h d f e) (λ a. persistence_after a tx)

  effects-IsImmediate :
      (op : PendingPrivateOperation) (tx : String)
      → IsSucceeded op tx
      → MakesFrom (Follows op) IsImmediate (apply_success_side_effects ports op tx)
  unfolding apply_success_side_effects
  effects-IsImmediate op tx h =
      MakesFrom-bind (λ c cs. IsSucceeded c tx × (c.finalized ≡ true) × Follows c cs)
        (apply_finalization ports op tx) _ (finalization-IsImmediate op tx h)
        (λ s c f e. finalization-returns op c tx s h f e)
        (λ c. record {
          at = λ I keep s (k, d, f) q. (after_finalization-IsImmediate c tx k d).at I keep s f q;
        })

  completion-IsImmediate :
      (op : PendingPrivateOperation) (tx : String)
      → IsSucceeded op tx
      → MakesFrom (Follows op) IsImmediate (apply_succeeded_completion ports op tx)
  unfolding apply_succeeded_completion
  completion-IsImmediate op tx h =
      MakesFrom-bind (λ _ _. Unit) (apply_success_side_effects ports op tx) _
        (effects-IsImmediate op tx h) (λ s a f e. tt)
        (λ a. MakesFrom-any _ (search (makes_rules, save-IsImmediate)))

  register-IsImmediate :
      {F : List Call → Type 0} (key : String) (m : Run W SubmitPrivateOperationResult)
      → MakesFrom F IsImmediate m
      → MakesFrom F IsImmediate (register_completion ports key m)
  unfolding register_completion
  register-IsImmediate key m h = record { at = λ I keep s f q. h.at I keep s f q }

  join-IsImmediate :
      {F : List Call → Type 0} (key : String) (m : Run W SubmitPrivateOperationResult)
      (existing : Option (Result SubmitPrivateOperationResult))
      → MakesFrom F IsImmediate m
      → MakesFrom F IsImmediate (join_completion ports key m existing)
  join-IsImmediate key m none h = register-IsImmediate key m h
  join-IsImmediate key m (some r) h = record { at = λ I keep s f q. q }

  complete_once-IsImmediate :
      (op : PendingPrivateOperation) (tx : String)
      → IsSucceeded op tx
      → MakesFrom (Follows op) IsImmediate (complete_once ports op tx)
  unfolding complete_once
  complete_once-IsImmediate op tx h = record {
    at = λ I keep s f q.
        (join-IsImmediate (success_key op tx) (apply_succeeded_completion ports op tx)
            (map_get (success_key op tx) s.in_flight) (completion-IsImmediate op tx h)).at
          I keep s f q;
  }

  complete_stored-IsImmediate :
      (op : PendingPrivateOperation) (tx : String)
      → IsSucceeded op tx
      → MakesFrom (Follows op) IsImmediate (complete_stored ports op tx)
  unfolding complete_stored
  complete_stored-IsImmediate op tx h =
      MakesFrom-if (is_already_completed op) _ _
        (λ e. MakesFrom-any _ (Makes-bind _ _ (save-IsImmediate op) (λ saved. Makes-pure _)))
        (λ e. complete_once-IsImmediate op tx h)

  with_succeeded_phase-IsSucceeded :
      (op : PendingPrivateOperation) (tx : String) → IsSucceeded (with_succeeded_phase op tx) tx
  unfolding with_succeeded_phase
  with_succeeded_phase-IsSucceeded op tx = record { phase = refl; hash = refl }

  pub complete-IsImmediate :
      (op : PendingPrivateOperation) (tx : String)
      → Makes IsImmediate (complete_succeeded_operation ports op tx)
  unfolding complete_succeeded_operation call
  complete-IsImmediate op tx = MakesFrom-all _ (
      MakesFrom-bind (λ _ cs. (c : PendingPrivateOperation) → Follows c cs)
        (read ports op.wallet_public_key op.id) _
        (MakesFrom-any _ (read-IsImmediate op.wallet_public_key op.id)) (λ s a f e c. tt)
        (λ stored.
          let succeeded = with_succeeded_phase (or_default stored op) tx in
          record {
            at = λ I keep s f q.
                (complete_stored-IsImmediate succeeded tx
                    (with_succeeded_phase-IsSucceeded (or_default stored op) tx)).at
                  I keep s (f succeeded) q;
          }))
