-- ===== src/Relay/Completion/Effects.antt =====
-- How often a completion calls each success side effect.
use privacy_layer_confidenti.Base.{
  ℕ, ◌+◌, ◌≤◌, String, Bool, true, false, ◌≡◌, Option, List, [], ◌∷◌, arith,
}
use privacy_layer_confidenti.Relay.Types.{PendingPrivateOperation}
use privacy_layer_confidenti.Relay.Runtime.{ok, ProtocolRelayPorts, Call, State, ◌>>=◌}
use privacy_layer_confidenti.Relay.Completion.{apply_success_side_effects}

abbrev pub is_finalization : Call → ℕ
is_finalization (Call.finalized op tx) = 1
is_finalization _ = 0

abbrev pub is_drain : Call → ℕ
is_drain (Call.drained op tx) = 1
is_drain _ = 0

abbrev pub is_persistence : Call → ℕ
is_persistence (Call.persisted op tx) = 1
is_persistence _ = 0

abbrev pub count : (Call → ℕ) → List Call → ℕ
count kind [] = 0
count kind (c ∷ cs) = kind c + count kind cs

abbrev pub due : Bool → ℕ
due true = 0
due false = 1

module _ {W : Type 0} (ports : ProtocolRelayPorts W) (op : PendingPrivateOperation) (tx : String)
    (s : State W) where
  -- However the side effects of a completion end, each is called at most once, and not at all if the
  -- operation's flag for it is already set.
  pub effects_bounded :
      (count is_finalization (apply_success_side_effects ports op tx s).1.calls
        ≤ due op.finalized + count is_finalization s.calls)
      × (count is_drain (apply_success_side_effects ports op tx s).1.calls
          ≤ due op.deliveries_drained + count is_drain s.calls)
      × (count is_persistence (apply_success_side_effects ports op tx s).1.calls
          ≤ due op.transaction_persisted + count is_persistence s.calls)
  unfolding apply_success_side_effects ◌>>=◌
  effects_bounded = ground arith

  -- When the side effects of a completion return, each has been called exactly once if its flag was
  -- not set, and not at all otherwise.
  pub effects_exact :
      {c : PendingPrivateOperation} {w : Option String} {s' : State W}
      → apply_success_side_effects ports op tx s ≡ (ok (c, w), s')
      → (count is_finalization s'.calls ≡ due op.finalized + count is_finalization s.calls)
        × (count is_drain s'.calls ≡ due op.deliveries_drained + count is_drain s.calls)
        × (count is_persistence s'.calls
            ≡ due op.transaction_persisted + count is_persistence s.calls)
  unfolding apply_success_side_effects ◌>>=◌
  effects_exact h = ground arith
