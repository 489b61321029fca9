-- ===== src/Stellar/Execution/Phases.antt =====
-- The order in which an execution calls its ports
-- (packages/stellar/src/transact/engine/execution/submit-prepared.ts), as a state machine that reads
-- the journal of the calls.
use privacy_layer_confidenti.Base.{◌≡◌, refl, Option, none, some, List}
use privacy_layer_confidenti.Core.Errors.{Thrown}
use privacy_layer_confidenti.Core.Operations.{Attempt, answered, raised, Action}
use privacy_layer_confidenti.Stellar.Effects.{◌>>=◌, try_catch, resume, caught}
use privacy_layer_confidenti.Stellar.Records.{PrivateRecord}
use privacy_layer_confidenti.Stellar.Execution.{ExecutionPorts}

-- A call of a port, with the records that are saved or marked. Events and reads of the signal do not
-- move the machine.
pub data Call : Type 0 where
  observed signed submitted : Call
  saved marked : List PrivateRecord → Call

-- What has been done: after the submission, the records that were saved, those that were marked, or
-- those that were saved and then those that were marked.
pub data Phase : Type 0 where
  idle authorized sent : Phase
  stored only_marked : List PrivateRecord → Phase
  finished : (outputs consumed : List PrivateRecord) → Phase

-- Signing comes first, and once; then one submission; then the outputs are saved, if there are any;
-- then the consumed records are marked, if there are any.
abbrev pub step : Phase → Call → Option Phase
step phase observed = some phase
step idle signed = some authorized
step authorized submitted = some sent
step sent (saved records) = some (stored records)
step sent (marked records) = some (only_marked records)
step (stored outputs) (marked records) = some (finished outputs records)
step _ _ = none

-- A world that keeps the phase which the calls so far have led to: `none` after a call out of order.
abbrev pub Journaled : Type 0 → Type 0
Journaled W = Option Phase × W

abbrev advance : Option Phase → Call → Option Phase
advance none call = none
advance (some phase) call = step phase call

module _ {W : Type 0} where
  abbrev pub journal {ℓ} : {A : Type ℓ} → Call → Action W A → Action (Journaled W) A
  journal call m (phase, w) = let (r, w') = m w in (r, (advance phase call, w'))

  -- The ports, with each call entered in the journal before its answer is known.
  abbrev pub journaled : ExecutionPorts W → ExecutionPorts (Journaled W)
  journaled ports = record {
    create_operation_event_id = journal observed ports.create_operation_event_id;
    on_event = λ event. journal observed (ports.on_event event);
    aborted = journal observed ports.aborted;
    sign_transaction_payload = λ payload. journal signed (ports.sign_transaction_payload payload);
    submit = λ prepared payload. journal submitted (ports.submit prepared payload);
    save_private_records = λ records. journal (saved records) (ports.save_private_records records);
    mark_private_records_used =
        λ records. journal (marked records) (ports.mark_private_records_used records);
  }

  -- From the phase, the action ends in a phase that `Q` allows with its outcome.
  abbrev pub Leads {ℓ} :
      {A : Type ℓ} → Phase → Action (Journaled W) A → (Attempt A → Phase → Type 0) → Type 0
  Leads p m Q = (w : W) → (q : Phase) × ((m (some p, w)).1.0 ≡ some q) × Q (m (some p, w)).0 q

  -- The rules for a bind, for a `try`, and for the ends of an action.
  module _ {ℓ κ} {A : Type ℓ} {B : Type κ} (Q : Attempt B → Phase → Type 0) where
    Leads-resume :
        (f : A → Action (Journaled W) B) (P : Attempt A → Phase → Type 0) (r : Attempt A)
        (phase : Option Phase) (w : W) (q : Phase)
        → phase ≡ some q
        → P r q
        → ((a : A) (q : Phase) → P (answered a) q → Leads q (f a) Q)
        → ((e : Thrown) (q : Phase) → P (raised e) q → Q (raised e) q)
        → (q' : Phase) × ((resume f (r, (phase, w))).1.0 ≡ some q')
          × Q (resume f (r, (phase, w))).0 q'
    Leads-resume f P (answered a) phase w q e h next stop = rw e (next a q h w)
    Leads-resume f P (raised t) phase w q e h next stop = (q, e, stop t q h)

    pub Leads-bind :
        (p : Phase) (m : Action (Journaled W) A) (f : A → Action (Journaled W) B)
        (P : Attempt A → Phase → Type 0)
        → Leads p m P
        → ((a : A) (q : Phase) → P (answered a) q → Leads q (f a) Q)
        → ((e : Thrown) (q : Phase) → P (raised e) q → Q (raised e) q)
        → Leads p (m >>= f) Q
    Leads-bind p m f P first next stop w =
        let (q, e, h) = first w in
        Leads-resume f P (m (some p, w)).0 (m (some p, w)).1.0 (m (some p, w)).1.1 q e h next stop

  module _ {ℓ} {A : Type ℓ} (Q : Attempt A → Phase → Type 0) where
    Leads-caught :
        (handler : Thrown → Action (Journaled W) A) (P : Attempt A → Phase → Type 0) (r : Attempt A)
        (phase : Option Phase) (w : W) (q : Phase)
        → phase ≡ some q
        → P r q
        → ((a : A) (q : Phase) → P (answered a) q → Q (answered a) q)
        → ((e : Thrown) (q : Phase) → P (raised e) q → Leads q (handler e) Q)
        → (q' : Phase) × ((caught handler (r, (phase, w))).1.0 ≡ some q')
          × Q (caught handler (r, (phase, w))).0 q'
    Leads-caught handler P (answered a) phase w q e h keep catch = (q, e, keep a q h)
    Leads-caught handler P (raised t) phase w q e h keep catch = rw e (catch t q h w)

    pub Leads-try :
        (p : Phase) (m : Action (Journaled W) A) (handler : Thrown → Action (Journaled W) A)
        (P : Attempt A → Phase → Type 0)
        → Leads p m P
        → ((a : A) (q : Phase) → P (answered a) q → Q (answered a) q)
        → ((e : Thrown) (q : Phase) → P (raised e) q → Leads q (handler e) Q)
        → Leads p (try_catch m handler) Q
    Leads-try p m handler P first keep catch w =
        let (q, e, h) = first w in
        Leads-caught handler P (m (some p, w)).0 (m (some p, w)).1.0 (m (some p, w)).1.1 q e h keep
          catch

  -- One call of a port.
  pub Leads-journal {ℓ} :
      {A : Type ℓ} (call : Call) (p q : Phase) (m : Action W A)
      → step p call ≡ some q
      → Leads p (journal call m) (λ r q'. q' ≡ q)
  Leads-journal call p q m e w = (q, e, refl)
