-- ===== src/Relay/Settlement/Polls.antt =====
-- What an await of packages/relay/src/await-relay-settlement.ts reports, by the polls that it makes.
use mathlib.Core.Bool.{true≢false}
use mathlib.Core.Path.{subst}
use privacy_layer_confidenti.Base.{
  ℕ, zero, suc, ◌+◌, ◌-◌, ◌≤◌, ◌≡◌, sym, ap, ◌∙◌, ◌⊎◌, inl, inr, String, Bool, true, false, none,
  arith, Bool-cases, if◌then◌else◌,
}
use privacy_layer_confidenti.Js.Value.{Number}
use privacy_layer_confidenti.Relay.Types.{SubmitPrivateOperationResult}
use privacy_layer_confidenti.Relay.Runtime.{
  Result, ok, threw, Port, ProtocolRelayPorts, Call, State, Run, pure, call,
}
use privacy_layer_confidenti.Relay.Runtime.Runs.{bind-eq-ok}
use privacy_layer_confidenti.Relay.Completion.{to_submit_result, save}
use privacy_layer_confidenti.Relay.Polling.{poll_pending_operation}
use privacy_layer_confidenti.Relay.Settlement.{
  Arithmetic, SettlementPollBounds, PollOptions, resolve_poll_bounds, next_poll_delay_ms,
  is_settled, timed_out, poll_again, poll_until_bound, mark_settlement_timed_out,
  settle_or_time_out, await_relay_settlement,
}

abbrev result_or : {A : Type 0} → A → Result A → A
result_or x (ok y) = y
result_or x (threw e) = x

ok-inj : {A : Type 0} (x y : A) → ok x ≡ ok y → x ≡ y
ok-inj x y h = ap (result_or x) h

module _ {W A : Type 0} where
  then-eq :
      (b : Bool) (m n : Run W A) (t : State W) {o : Result A × State W}
      → b ≡ true
      → (if b then m else n) t ≡ o
      → m t ≡ o
  then-eq true m n t e h = h
  then-eq false m n t e h = absurd (true≢false (sym e))

  else-eq :
      (b : Bool) (m n : Run W A) (t : State W) {o : Result A × State W}
      → b ≡ false
      → (if b then m else n) t ≡ o
      → n t ≡ o
  else-eq true m n t e h = absurd (true≢false e)
  else-eq false m n t e h = h

returned : {W A : Type 0} (x r : A) (t t' : State W) → pure x t ≡ (ok r, t') → (r ≡ x) × (t' ≡ t)
unfolding pure
returned {W = W} {A = A} x r t t' h = (
  sym (ok-inj x r (ap (λ (o : Result A × State W). o.0) h)),
  sym (ap (λ (o : Result A × State W). o.1) h),
)

-- The last attempt of those that are left is the last of all.
later_end :
    (index left j : ℕ) (b : Bool)
    → (b ≡ true) ⊎ (j ≡ index + 1 + left)
    → (b ≡ true) ⊎ (j ≡ index + suc left)
later_end index left j b (inl h) = inl h
later_end index left j b (inr h) = inr (omega (arith, h))

module _ {W : Type 0} (ports : ProtocolRelayPorts W) (numbers : Arithmetic)
    (delay : Number → Port W (Unit {0})) (wallet id : String) where
  abbrev pause : SettlementPollBounds → ℕ → Run W (Unit {0})
  pause bounds index =
      let ms = next_poll_delay_ms numbers index bounds in call (Call.delayed ms) (delay ms)

  -- From the state `s`, a first poll and then as many as the number says, each after a result that is
  -- not settled and after its delay, have led to the result and the state.
  pub data Polled (bounds : SettlementPollBounds) (s : State W)
      : ℕ → SubmitPrivateOperationResult → State W → Type 0 where
    once :
        {x : SubmitPrivateOperationResult} {t : State W}
        → poll_pending_operation ports wallet id s ≡ (ok x, t)
        → Polled bounds s 0 x t
    again :
        {i : ℕ} {x y : SubmitPrivateOperationResult} {t u v : State W}
        → Polled bounds s i x t
        → is_settled x ≡ false
        → pause bounds i t ≡ (ok tt, u)
        → poll_pending_operation ports wallet id u ≡ (ok y, v)
        → Polled bounds s (i + 1) y v

  module _ (bounds : SettlementPollBounds) (s : State W) where
    -- The polls end with a settled result, or with the last one that is allowed.
    abbrev PolledUpTo : ℕ → SubmitPrivateOperationResult → State W → Type 0
    PolledUpTo most x t =
        (j : ℕ) × Polled bounds s j x t × (j ≤ most) × ((is_settled x ≡ true) ⊎ (j ≡ most))

    moved :
        (most : ℕ) (x r : SubmitPrivateOperationResult) (t t' : State W)
        → PolledUpTo most x t
        → pure x t ≡ (ok r, t')
        → PolledUpTo most r t'
    moved most x r t t' p h =
        let (same, here) = returned x r t t' h in
        subst (λ u. PolledUpTo most r u) (sym here) (subst (λ y. PolledUpTo most y t) (sym same) p)

    poll_again-PolledUpTo :
        (left index : ℕ) (x r : SubmitPrivateOperationResult) (t t' : State W)
        → Polled bounds s index x t
        → poll_again ports numbers delay wallet id bounds left index x t ≡ (ok r, t')
        → PolledUpTo (index + left) r t'
    unfolding poll_again
    poll_again-PolledUpTo zero index x r t t' p h =
        moved (index + zero) x r t t' (index, p, omega arith, inr (omega arith)) h
    poll_again-PolledUpTo (suc left) index x r t t' p h = elim (Bool-cases (is_settled x)) [
      | inl settled ↦
          moved (index + suc left) x r t t' (index, p, omega arith, inl settled)
            (then-eq (is_settled x) _ _ t settled h)
      | inr unsettled ↦
          let (w, u, paused, polls) = bind-eq-ok _ _ t (else-eq (is_settled x) _ _ t unsettled h) in
          let (y, v, polled, rest) = bind-eq-ok _ _ u polls in
          let (j, q, few, last) =
            poll_again-PolledUpTo left (index + 1) y r v t' (again p unsettled paused polled)
              rest in
          (j, q, omega (arith, few), later_end index left j (is_settled r) last)
    ]

  poll_until_bound-PolledUpTo :
      (bounds : SettlementPollBounds) (s : State W) (x : SubmitPrivateOperationResult) (t : State W)
      → poll_until_bound ports numbers delay wallet id bounds s ≡ (ok x, t)
      → PolledUpTo bounds s (bounds.max_attempts - 1) x t
  unfolding poll_until_bound
  poll_until_bound-PolledUpTo bounds s x t h =
      let (y, u, polled, rest) = bind-eq-ok _ _ s h in
      let left = bounds.max_attempts - 1 in
      let none_before : 0 + left ≡ left = ground arith in
      subst (λ most. PolledUpTo bounds s most x t) none_before
        (poll_again-PolledUpTo bounds s left 0 y x u t (once polled) rest)

  -- With a settled result, that result and nothing more; otherwise the operation is saved as timed
  -- out, and reported so.
  abbrev pub IsReported :
      SubmitPrivateOperationResult → State W → SubmitPrivateOperationResult → State W → Type 0
  IsReported x t r t' =
      ((is_settled x ≡ true) × (r ≡ x) × (t' ≡ t))
      ⊎ ((is_settled x ≡ false)
          × (save ports (timed_out x.operation) t ≡ (ok tt, t'))
          × (r ≡ to_submit_result (timed_out x.operation) none none))

  reported :
      (x r : SubmitPrivateOperationResult) (t t' : State W)
      → settle_or_time_out ports numbers delay x t ≡ (ok r, t')
      → IsReported x t r t'
  unfolding settle_or_time_out mark_settlement_timed_out
  reported x r t t' h = elim (Bool-cases (is_settled x)) [
    | inl settled ↦
        let (same, here) = returned x r t t' (then-eq (is_settled x) _ _ t settled h) in
        inl (settled, same, here)
    | inr unsettled ↦
        let (u, w, saved, rest) = bind-eq-ok _ _ t (else-eq (is_settled x) _ _ t unsettled h) in
        let (same, here) = returned _ r w t' rest in
        inr (unsettled, saved ∙ ap (λ v. (ok tt, v)) (sym here), same)
  ]

  -- An await that returns has polled at most as often as it may, at least once, each time after the
  -- first one because the result was not settled and after the delay of that poll. If the last result
  -- is settled, it is what the await returns, and nothing was done after that poll. Otherwise all the
  -- attempts were made, the operation is saved as timed out, and that is what the await returns.
  pub await_relay_settlement-reports :
      (input : PollOptions) (s s' : State W) (r : SubmitPrivateOperationResult)
      → await_relay_settlement ports numbers delay wallet id input s ≡ (ok r, s')
      → (j : ℕ) × (x : SubmitPrivateOperationResult) × (t : State W) × Polled
          (resolve_poll_bounds input)
          s
          j
          x
          t
        × (j ≤ (resolve_poll_bounds input).max_attempts - 1)
        × ((is_settled x ≡ true) ⊎ (j ≡ (resolve_poll_bounds input).max_attempts - 1))
        × IsReported x t r s'
  unfolding await_relay_settlement
  await_relay_settlement-reports input s s' r h =
      let (x, t, polls, rest) = bind-eq-ok _ _ s h in
      let (j, polled, few, last) =
        poll_until_bound-PolledUpTo (resolve_poll_bounds input) s x t polls in
      (j, x, t, polled, few, last, reported x r t s' rest)
