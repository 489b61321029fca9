-- ===== src/Relay/Completion/Crash.antt =====
-- A completion that is interrupted: what the store holds when a port has thrown half-way.
use mathlib.Core.Path.{subst, subst₂}
use privacy_layer_confidenti.Base.{
  String, Bool, true, false, ◌≡◌, ◌⊎◌, inl, inr, Option, none, some, ◌∙◌, ap, sym, arith, refl,
  if◌then◌else◌,
}
use privacy_layer_confidenti.Relay.Types.{PendingPrivateOperation}
use privacy_layer_confidenti.Relay.Runtime.{
  Result, ok, threw, ProtocolRelayPorts, Call, State, Run, Port, pure, call, continue, ◌>>=◌,
}
use privacy_layer_confidenti.Relay.Completion.{
  save, apply_finalization, apply_drain, apply_persistence, after_finalization,
  apply_success_side_effects,
}
use privacy_layer_confidenti.Relay.Completion.Effects.{count, is_drain}
use privacy_layer_confidenti.Relay.Completion.Repeat.{KeepsSaved}

-- However the run `m` ends, `P` still holds of the world if it held before.
record Preserves {W A : Type 0} (P : W → Type 0) (m : Run W A) : Type 0 where
  at : (s : State W) → P s.world → P (m s).1.world

module _ {W A : Type 0} {P : W → Type 0} where
  Preserves-pure : (a : A) → Preserves P (pure a)
  unfolding pure
  Preserves-pure a = record { at = λ s h. h }

  Preserves-call :
      (c : Call) (port : Port W A) → ((w : W) → P w → P (port w).1) → Preserves P (call c port)
  unfolding call
  Preserves-call c port k = record { at = λ s h. k s.world h }

  Preserves-if :
      (b : Bool) (m n : Run W A) → Preserves P m → Preserves P n → Preserves P (if b then m else n)
  Preserves-if true m n k l = k
  Preserves-if false m n k l = l

module _ {W A B : Type 0} {P : W → Type 0} where
  Preserves-continue :
      (r : Result A) (f : A → Run W B)
      → ((a : A) → r ≡ ok a → Preserves P (f a))
      → Preserves P (continue r f)
  Preserves-continue (ok a) f k = k a refl
  Preserves-continue (threw e) f k = record { at = λ s h. h }

  Preserves-bind :
      (m : Run W A) (f : A → Run W B)
      → Preserves P m
      → ((a : A) (s : State W) → (m s).0 ≡ ok a → Preserves P (f a))
      → Preserves P (m >>= f)
  unfolding ◌>>=◌
  Preserves-bind m f k l = record {
    at = λ s h. (Preserves-continue (m s).0 f (λ a e. l a s e)).at (m s).1 (k.at s h);
  }

module _ {W : Type 0} (ports : ProtocolRelayPorts W)
    (view : W → String → String → Option PendingPrivateOperation) (keeps : KeepsSaved ports view)
    (wallet id tx : String) where
  abbrev IsKey : PendingPrivateOperation → Type 0
  IsKey op = (op.wallet_public_key ≡ wallet) × (op.id ≡ id)

  -- The store holds the operation as finalized.
  abbrev pub HoldsFinalized : W → Type 0
  HoldsFinalized w =
      (o : PendingPrivateOperation) × (view w wallet id ≡ some o) × (o.finalized ≡ true)

  saved-HoldsFinalized :
      (op : PendingPrivateOperation) (w : W)
      → IsKey op
      → op.finalized ≡ true
      → HoldsFinalized w
      → HoldsFinalized (ports.store.save op w).1
  saved-HoldsFinalized op w (a, b) f (o, h, g) =
      let seen = λ (x : PendingPrivateOperation) (t : String) (i : String).
        view (ports.store.save op w).1 t i ≡ some x in
      elim (keeps.save_atomic op w) [
        | inl new ↦ (op, subst₂ (seen op) a b new, f)
        | inr old ↦
            (o, subst₂ (λ t i. view (ports.store.save op w).1 t i ≡ view w t i) a b old ∙ h, g)
      ]

  save-Preserves :
      (op : PendingPrivateOperation)
      → IsKey op
      → op.finalized ≡ true
      → Preserves HoldsFinalized (save ports op)
  save-Preserves op k f = Preserves-call _ _ (λ w. saved-HoldsFinalized op w k f)

  drain-Preserves :
      (op : PendingPrivateOperation)
      → IsKey op
      → op.finalized ≡ true
      → Preserves HoldsFinalized (apply_drain ports op tx)
  unfolding apply_drain
  drain-Preserves op k f = Preserves-if op.deliveries_drained _ _ (Preserves-pure (op, none)) (
      Preserves-bind _ _
        (Preserves-call _ _ (λ w (o, h, g). (o, keeps.drain_apart op tx w wallet id ∙ h, g)))
        (λ warning _ _. Preserves-bind _ _ (save-Preserves _ k f) (λ _ _ _. Preserves-pure _)))

  persistence-Preserves :
      (op : PendingPrivateOperation)
      → IsKey op
      → op.finalized ≡ true
      → Preserves HoldsFinalized (apply_persistence ports op tx)
  unfolding apply_persistence
  persistence-Preserves op k f = Preserves-if op.transaction_persisted _ _ (Preserves-pure op) (
      Preserves-bind _ _
        (Preserves-call _ _ (λ w (o, h, g). (o, keeps.persist_apart op tx w wallet id ∙ h, g)))
        (λ _ _ _. Preserves-bind _ _ (save-Preserves _ k f) (λ _ _ _. Preserves-pure _)))

  drain-keeps :
      (op : PendingPrivateOperation) (d : PendingPrivateOperation × Option String) (s : State W)
      → IsKey op
      → op.finalized ≡ true
      → (apply_drain ports op tx s).0 ≡ ok d
      → IsKey d.0 × (d.0.finalized ≡ true)
  unfolding apply_drain ◌>>=◌
  drain-keeps op d s k f e = ground arith

  after_finalization-Preserves :
      (op : PendingPrivateOperation)
      → IsKey op
      → op.finalized ≡ true
      → Preserves HoldsFinalized (after_finalization ports op tx)
  unfolding after_finalization
  after_finalization-Preserves op k f = Preserves-bind _ _ (drain-Preserves op k f) (λ d s e.
      let (kd, fd) = drain-keeps op d s k f e in
      Preserves-bind _ _ (persistence-Preserves d.0 kd fd) (λ _ _ _. Preserves-pure _))

  abbrev finalized_op : PendingPrivateOperation → PendingPrivateOperation
  finalized_op op = record op { finalized = true }

  saved_ok :
      (op : PendingPrivateOperation) (w : W) {u : Unit {0}}
      → (ports.store.save op w).0 ≡ ok u
      → view (ports.store.save op w).1 op.wallet_public_key op.id ≡ some op
  saved_ok op w e =
      keeps.saves op w (ports.store.save op w).1 (ap (λ r. (r, (ports.store.save op w).1)) e)

  -- What a finalization that returns has gone through.
  finalization-eq-ok :
      (op c : PendingPrivateOperation) (s : State W)
      → (apply_finalization ports op tx s).0 ≡ ok c
      → ((op.finalized ≡ true) × (c ≡ op) × ((apply_finalization ports op tx s).1.world ≡ s.world))
        ⊎ ((c ≡ finalized_op op)
            × ((ports.store.save (finalized_op op) (ports.finalize_local_state op tx s.world).1).0
                ≡ ok tt)
            × ((apply_finalization ports op tx s).1.world
                ≡ (ports.store.save
                    (finalized_op op)
                    (ports.finalize_local_state op tx s.world).1).1))
  unfolding apply_finalization ◌>>=◌
  finalization-eq-ok op c s e = ground arith

  finalization-HoldsFinalized :
      (op c : PendingPrivateOperation) (s : State W)
      → IsKey op
      → (op.finalized ≡ true → HoldsFinalized s.world)
      → (apply_finalization ports op tx s).0 ≡ ok c
      → IsKey c × (c.finalized ≡ true) × HoldsFinalized (apply_finalization ports op tx s).1.world
  finalization-HoldsFinalized op c s (a, b) h e = elim (finalization-eq-ok op c s e) [
    | inl (f, same, world) ↦ (rw same (a, b), rw same f, subst HoldsFinalized (sym world) (h f))
    | inr (same, saved, world) ↦ (
      rw same (a, b),
      rw same refl,
      subst HoldsFinalized (sym world) (
        finalized_op op,
        subst₂
            (λ t i.
              view
                (ports.store.save (finalized_op op) (ports.finalize_local_state op tx s.world).1).1
                t i
              ≡ some (finalized_op op))
            a b (saved_ok (finalized_op op) (ports.finalize_local_state op tx s.world).1 saved),
        refl,
      ),
    )
  ]

  -- A finalization makes no drain call.
  drains-finalization :
      (op : PendingPrivateOperation) (s : State W)
      → count is_drain (apply_finalization ports op tx s).1.calls ≡ count is_drain s.calls
  unfolding apply_finalization ◌>>=◌
  drains-finalization op s = ground arith

  continued-HoldsFinalized :
      (r : Result PendingPrivateOperation) (s t : State W)
      → ((c : PendingPrivateOperation)
          → r ≡ ok c
          → IsKey c × (c.finalized ≡ true) × HoldsFinalized t.world)
      → count is_drain t.calls ≡ count is_drain s.calls
      → (count is_drain (continue r (λ c. after_finalization ports c tx) t).1.calls
          ≡ count is_drain s.calls)
        ⊎ HoldsFinalized (continue r (λ c. after_finalization ports c tx) t).1.world
  continued-HoldsFinalized (threw e) s t k same = inl same
  continued-HoldsFinalized (ok c) s t k same =
      let (key, f, held) = k c refl in inr ((after_finalization-Preserves c key f).at t held)

  -- Over a store that keeps what is saved, started with an operation that the store holds as
  -- finalized if it is marked so: however the side effects of a completion end, whether they return
  -- or a port throws half-way, either no delivery has been drained or the store holds the operation
  -- as finalized.
  pub effects-HoldsFinalized :
      (op : PendingPrivateOperation) (s : State W)
      → IsKey op
      → (op.finalized ≡ true → HoldsFinalized s.world)
      → (count is_drain (apply_success_side_effects ports op tx s).1.calls ≡ count is_drain s.calls)
        ⊎ HoldsFinalized (apply_success_side_effects ports op tx s).1.world
  unfolding apply_success_side_effects ◌>>=◌
  effects-HoldsFinalized op s k h =
      continued-HoldsFinalized (apply_finalization ports op tx s).0 s
        (apply_finalization ports op tx s).1 (λ c e. finalization-HoldsFinalized op c s k h e)
        (drains-finalization op s)
