-- ===== src/Stellar/Polling/Ends.antt =====
-- The waiting loops end (packages/stellar/src/rpc/polling.ts, transact/kyt/passage/poll.ts).
use privacy_layer_confidenti.Base.{
  ℕ, zero, suc, ◌+◌, ◌-◌, ◌*◌, ◌≤◌, ◌<◌, ◌≡◌, refl, ap, ◌∙◌, inl, inr, true, Option, some, ltb,
  arith, Bool-cases, or_default,
}
use privacy_layer_confidenti.Core.Operations.{Attempt, answered, raised, Action}
use privacy_layer_confidenti.Stellar.Effects.{error_object, >>=-at}
use privacy_layer_confidenti.Stellar.Polling.{
  TransactionStatus, PollPorts, Verdict, settled, refused, again, verdict_of, wait_from,
  wait_for_stellar_transaction_confirmation, default_poll_interval_ms, default_timeout_ms,
  RegistrationStatus, registration_success, registration_unknown, kyt_register_max_polls,
  kyt_register_poll_interval_ms, poll_registration, wait_for_kyt_registration,
}

-- Documented behaviour of the clock and the timer: reading the status does not turn the clock back, and
-- the timer waits at least as long as it is asked to.
pub record IsClock {W : Type 0} (ports : PollPorts W) : Type 0 where
  pub read_keeps : (w : W) → ports.now w ≤ ports.now (ports.read_status w).1
  pub sleep_waits : (ms : ℕ) (w : W) → ports.now w + ms ≤ ports.now (ports.sleep ms w)

abbrev pub Ends {ℓ} : {A : Type ℓ} → Option A → Type ℓ
Ends {A = A} o = (r : A) × (o ≡ some r)

ltb-lt : (m n : ℕ) → ltb m n ≡ true → m < n
ltb-lt m n h = ground arith

one_more : (fuel n : ℕ) → suc fuel * n ≡ fuel * n + n
one_more fuel n = omega arith

-- A round that may still wait is not the last.
more_left :
    (fuel interval timeout elapsed : ℕ)
    → elapsed < timeout
    → timeout + interval ≤ suc fuel * interval + elapsed
    → 1 ≤ fuel
more_left zero interval timeout elapsed l h = absurd (omega (arith, one_more 0 interval))
more_left (suc fuel) interval timeout elapsed l h = omega arith

module _ {W : Type 0} (ports : PollPorts W) (interval timeout started_at : ℕ) where
  verdict-Ends :
      (fuel : ℕ) (v : Verdict) (w : W)
      → Ends (wait_from ports interval timeout started_at fuel (ports.sleep interval w))
      → Ends (elim v as (λ _. Option (Attempt TransactionStatus × W)) [
        | settled final ↦ some (answered final, w)
        | refused thrown ↦ some (raised thrown, w)
        | again ↦ wait_from ports interval timeout started_at fuel (ports.sleep interval w)
      ])
  verdict-Ends fuel (settled final) w h = (_, refl)
  verdict-Ends fuel (refused thrown) w h = (_, refl)
  verdict-Ends fuel again w h = h

  module _ (clock : IsClock ports) where
    wait_from-Ends :
        (fuel : ℕ) (w : W)
        → 1 ≤ interval
        → started_at ≤ ports.now w
        → 1 ≤ fuel
        → timeout + interval ≤ fuel * interval + (ports.now w - started_at)
        → Ends (wait_from ports interval timeout started_at fuel w)
    unfolding wait_from
    wait_from-Ends zero w i s one h = absurd (omega arith)
    wait_from-Ends (suc fuel) w i s one h =
        let status = ports.read_status w in
        let later = clock.read_keeps w in
        let slept = clock.sleep_waits interval status.1 in
        elim (Bool-cases (ltb (ports.now w - started_at) timeout)) [
          | inl more ↦
              rw (wait_from, more)
                (verdict-Ends fuel (verdict_of status.0) status.1 (
                  wait_from-Ends fuel (ports.sleep interval status.1) i (omega arith)
                    (more_left fuel interval timeout (ports.now w - started_at) (ltb-lt _ _ more) h)
                    (omega (arith, one_more fuel interval))))
          | inr over ↦ (
            (raised (error_object "Transaction was not confirmed in time"), w),
            rw (wait_from, over) refl,
          )
        ]

-- Waiting for a confirmation ends: with a positive interval, a clock that reading the status does not
-- turn back and a timer that waits as long as it is asked to, the loop returns or throws within as many
-- rounds as there are intervals in the timeout, and one more.
pub wait_for_stellar_transaction_confirmation-Ends :
    {W : Type 0} (ports : PollPorts W) (poll_interval_ms timeout_ms : Option ℕ) (fuel : ℕ) (w : W)
    → IsClock ports
    → 1 ≤ or_default poll_interval_ms default_poll_interval_ms
    → 1 ≤ fuel
    → or_default timeout_ms default_timeout_ms
        + or_default poll_interval_ms default_poll_interval_ms
      ≤ fuel * or_default poll_interval_ms default_poll_interval_ms
    → Ends (wait_for_stellar_transaction_confirmation ports poll_interval_ms timeout_ms fuel w)
wait_for_stellar_transaction_confirmation-Ends ports poll_interval_ms timeout_ms fuel w clock i one
      h =
    wait_from-Ends ports (or_default poll_interval_ms default_poll_interval_ms)
      (or_default timeout_ms default_timeout_ms) (ports.now w) clock fuel w i (omega arith) one
      (omega (arith, h))

module _ {W : Type 0} (get_transaction : Action W RegistrationStatus)
    (sleep : ℕ → Action W (Unit {0})) where
  -- The server confirms the registration after so many rounds in which it knows nothing of it.
  pub data Confirms : ℕ → W → Type 0 where
    at_once : {w : W} → (get_transaction w).0 ≡ answered registration_success → Confirms zero w
    later :
        {n : ℕ} {w : W}
        → (get_transaction w).0 ≡ answered registration_unknown
        → (sleep kyt_register_poll_interval_ms (get_transaction w).1).0 ≡ answered tt
        → Confirms n (sleep kyt_register_poll_interval_ms (get_transaction w).1).1
        → Confirms (suc n) w

  polled :
      (n left : ℕ) (w : W)
      → Confirms n w
      → n < left
      → (poll_registration get_transaction sleep left w).0 ≡ answered tt
  unfolding poll_registration
  polled n zero w c l = absurd (omega arith)
  polled zero (suc left) w (at_once e) l =
      ap (λ r. r.0) (>>=-at get_transaction _ w registration_success e)
  polled (suc n) (suc left) w (later e s c) l =
      ap (λ r. r.0) (>>=-at get_transaction _ w registration_unknown e)
      ∙ ap (λ r. r.0) (>>=-at (sleep kyt_register_poll_interval_ms) _ (get_transaction w).1 tt s)
      ∙ polled n left _ c (omega arith)

  -- A registration that the server confirms within the sixty rounds is waited for to the end.
  pub wait_for_kyt_registration-Confirms :
      (n : ℕ) (w : W)
      → Confirms n w
      → n < kyt_register_max_polls
      → (wait_for_kyt_registration get_transaction sleep w).0 ≡ answered tt
  wait_for_kyt_registration-Confirms n w c l = polled n kyt_register_max_polls w c l
