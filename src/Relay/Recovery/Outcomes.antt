-- ===== src/Relay/Recovery/Outcomes.antt =====
-- What retrying and resuming do (packages/relay/src/retry-and-resume.ts), and which results the
-- caller receives as a receipt (protocol-relay-client-error.ts).
use privacy_layer_confidenti.Base.{
  String, true, ◌≡◌, ◌↔◌, Option, some, List, [], ◌∷◌, ap, ◌∙◌, arith, truthy, length,
}
use privacy_layer_confidenti.Relay.Types.{
  PendingOperationPhase, PendingPrivateOperation, SubmitPrivateOperationResult,
}
use privacy_layer_confidenti.Relay.Runtime.{ok, ProtocolRelayPorts, State, pure, ◌>>=◌}
use privacy_layer_confidenti.Relay.Runtime.Runs.{bind-eq-ok}
use privacy_layer_confidenti.Relay.Recovery.{
  received, throw_if_relay_unsuccessful, unfinalized, poll_all, resume_pending_operations, present,
}

-- A result is turned into a receipt for the transaction `tx` with a warning exactly if it reports
-- success, has that transaction id, which is not empty, and has that warning, an empty one counting
-- as none.
pub receipt_iff :
    (result : SubmitPrivateOperationResult) (tx : String) (warning : Option String)
    → (throw_if_relay_unsuccessful result
        ≡ received (record { tx_id = tx; coin_delivery_warning = warning }))
      ↔ ((result.outcome ≡ PendingOperationPhase.succeeded)
          × (result.tx_id ≡ some tx)
          × (truthy (some tx) ≡ true)
          × (present result.coin_delivery_warning ≡ warning))
unfolding throw_if_relay_unsuccessful
receipt_iff result tx warning = ground arith

module _ {W : Type 0} (ports : ProtocolRelayPorts W) where
  poll_all-length :
      (wallet : String) (ops : List PendingPrivateOperation) (s : State W)
      {rs : List SubmitPrivateOperationResult} {s' : State W}
      → poll_all ports wallet ops s ≡ (ok rs, s')
      → length rs ≡ length ops
  unfolding poll_all pure
  poll_all-length wallet [] s h = ground arith
  poll_all-length wallet (op ∷ ops) s h =
      let (r, t, _, k) = bind-eq-ok _ _ s h in
      let (later, u, l, e) = bind-eq-ok _ _ t k in ground (arith, poll_all-length wallet ops t l)

  -- A resume that returns has one result for each listed operation that has a relay request and is not
  -- finalized.
  pub resume-length :
      (wallet : String) (s : State W) (ops : List PendingPrivateOperation)
      {rs : List SubmitPrivateOperationResult} {s' : State W}
      → (ports.store.list wallet s.world).0 ≡ ok ops
      → resume_pending_operations ports wallet s ≡ (ok rs, s')
      → length rs ≡ length (unfinalized ops)
  unfolding resume_pending_operations
  resume-length wallet s ops listed h =
      let (found, t, e, k) = bind-eq-ok _ _ s h in
      let same : found ≡ ops = unfold ◌>>=◌ in ground arith in
      poll_all-length wallet (unfinalized found) t k ∙ ap (λ l. length (unfinalized l)) same
