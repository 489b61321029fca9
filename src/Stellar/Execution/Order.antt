-- ===== src/Stellar/Execution/Order.antt =====
-- An execution keeps to the order of its phases
-- (packages/stellar/src/transact/engine/execution/submit-prepared.ts).
use privacy_layer_confidenti.Base.{◌≡◌, refl, Bool, true, false, String, some, List, [], ◌∷◌}
use privacy_layer_confidenti.Core.Errors.{Thrown}
use privacy_layer_confidenti.Core.Operations.{Attempt, answered, raised, Action}
use privacy_layer_confidenti.Stellar.Effects.{◌>>=◌, ◌>>◌, done, try_catch}
use privacy_layer_confidenti.Stellar.Records.{PrivateRecord}
use privacy_layer_confidenti.Stellar.Prepared.{
  StellarPreparedOperation, StellarSubmissionPayload, StellarOperationReceipt,
}
use privacy_layer_confidenti.Stellar.Execution.{
  ExecutionPorts, OperationStage, OperationEventStatus, begins, submission, confirmation,
  storage_commit, emit, assert_not_aborted, throw_if_aborted, emit_stages,
  emit_pre_submission_stages, sign_submission_payload, submit_and_confirm, commit_storage_changes,
  handle_storage_commit_failure, handle_submission_failure, submit_steps, submit_prepared_operation,
  with_receipt, save_outputs, mark_consumed, pre_submission_stages,
}
use privacy_layer_confidenti.Stellar.Execution.Phases.{
  Phase, idle, authorized, sent, stored, only_marked, finished, Journaled, journaled, Leads,
  Leads-bind, Leads-try,
}

-- The phase with which an execution that returned its receipt ends: the outputs were saved with the
-- receipt, where there are any, and the consumed records were marked after that, where there are any.
unfoldable pub final_phase :
    StellarOperationReceipt → (outputs consumed : List PrivateRecord) → Phase
final_phase receipt [] [] = sent
final_phase receipt (r ∷ rs) [] = stored (with_receipt receipt (r ∷ rs))
final_phase receipt [] (c ∷ cs) = only_marked (c ∷ cs)
final_phase receipt (r ∷ rs) (c ∷ cs) = finished (with_receipt receipt (r ∷ rs)) (c ∷ cs)

abbrev Stay {ℓ} : {A : Type ℓ} → Phase → Attempt A → Phase → Type 0
Stay p r q = q ≡ p

module _ {W : Type 0} where
  then_from {ℓ κ} :
      {A : Type ℓ} {B : Type κ} (Q : Attempt B → Phase → Type 0) (p q : Phase)
      (m : Action (Journaled W) A) (f : A → Action (Journaled W) B)
      → Leads p m (Stay q)
      → ((a : A) → Leads q (f a) Q)
      → ((e : Thrown) → Q (raised e) q)
      → Leads p (m >>= f) Q
  then_from Q p q m f first next stop =
      Leads-bind Q p m f (Stay q) first (λ a q' e. rw e (next a)) (λ t q' e. rw e (stop t))

module _ {W : Type 0} (ports : ExecutionPorts W) where
  abbrev own : ExecutionPorts (Journaled W)
  own = journaled ports

  emit_stays :
      (p : Phase) (id : String) (stage : OperationStage) (status : OperationEventStatus)
      → Leads p (emit own id stage status) (Stay p)
  emit_stays p id stage status w = (p, refl, refl)

  -- An event, and then the rest.
  emit_then {ℓ} :
      {B : Type ℓ} (Q : Attempt B → Phase → Type 0) (p : Phase) (id : String)
      (stage : OperationStage) (status : OperationEventStatus) (next : Action (Journaled W) B)
      → ((e : Thrown) → Q (raised e) p)
      → Leads p next Q
      → Leads p (emit own id stage status >> next) Q
  emit_then Q p id stage status next stop h =
      then_from Q p p (emit own id stage status) (λ _. next) (emit_stays p id stage status) (λ _. h)
        stop

  throw_stays : (p : Phase) (stop : Bool) → Leads p (throw_if_aborted own stop) (Stay p)
  throw_stays p true w = (p, refl, refl)
  throw_stays p false w = (p, refl, refl)

  abort_stays : (p : Phase) → Leads p (assert_not_aborted own) (Stay p)
  abort_stays p =
      then_from (Stay p) p p own.aborted (throw_if_aborted own) (λ w. (p, refl, refl))
        (throw_stays p) (λ _. refl)

  emit_stages-Stay :
      (p : Phase) (id : String) (stages : List OperationStage)
      → Leads p (emit_stages own id stages) (Stay p)
  unfolding emit_stages
  emit_stages-Stay p id [] = λ w. (p, refl, refl)
  emit_stages-Stay p id (stage ∷ stages) =
      then_from (Stay p) p p (assert_not_aborted own) _ (abort_stays p)
        (λ _.
          emit_then (Stay p) p id stage begins _ (λ _. refl)
            (emit_then (Stay p) p id stage OperationEventStatus.ends _ (λ _. refl)
              (emit_stages-Stay p id stages)))
        (λ _. refl)

  sign_leads :
      (prepared : StellarPreparedOperation)
      → Leads idle (sign_submission_payload own prepared) (Stay authorized)
  unfolding sign_submission_payload
  sign_leads prepared =
      Leads-try (Stay authorized) idle (own.sign_transaction_payload prepared.submission_payload) _
        (Stay authorized) (λ w. (authorized, refl, refl)) (λ a q e. e) (λ t q e w. (q, refl, e))

  -- Until the engine has answered, the machine is in the phase before or has sent; with a receipt, it
  -- has sent.
  abbrev Sent : Attempt StellarOperationReceipt → Phase → Type 0
  Sent (answered receipt) q = q ≡ sent
  Sent (raised e) q = Unit

  submit_leads :
      (prepared : StellarPreparedOperation) (id : String) (payload : StellarSubmissionPayload)
      → Leads authorized (submit_and_confirm own prepared id payload) Sent
  unfolding submit_and_confirm
  submit_leads prepared id payload =
      then_from Sent authorized authorized (assert_not_aborted own) _ (abort_stays authorized)
        (λ _.
          emit_then Sent authorized id submission begins _ (λ _. tt)
            (then_from Sent authorized sent (own.submit prepared payload) _
              (λ w. (sent, refl, refl))
              (λ receipt.
                emit_then Sent sent id submission OperationEventStatus.ends _ (λ _. tt)
                  (emit_then Sent sent id confirmation begins _ (λ _. tt)
                    (emit_then Sent sent id confirmation OperationEventStatus.ends _ (λ _. tt)
                      (λ w. (sent, refl, refl)))))
              (λ _. tt)))
        (λ _. tt)

  -- With a receipt, every change of the storage was made.
  abbrev pub Ended : StellarPreparedOperation → Attempt StellarOperationReceipt → Phase → Type 0
  Ended prepared (answered receipt) q =
      q ≡ final_phase receipt prepared.output_records prepared.consumed_records
  Ended prepared (raised e) q = Unit

  -- The same of the commit alone, whose receipt is known.
  abbrev Committed :
      StellarPreparedOperation → StellarOperationReceipt → Attempt (Unit {0}) → Phase → Type 0
  Committed prepared receipt (answered a) q =
      q ≡ final_phase receipt prepared.output_records prepared.consumed_records
  Committed prepared receipt (raised e) q = Unit

  abbrev after_outputs : StellarOperationReceipt → List PrivateRecord → Phase
  after_outputs receipt [] = sent
  after_outputs receipt (r ∷ rs) = stored (with_receipt receipt (r ∷ rs))

  save_leads :
      (receipt : StellarOperationReceipt) (outputs : List PrivateRecord)
      → Leads sent (save_outputs own receipt outputs) (Stay (after_outputs receipt outputs))
  save_leads receipt [] w = (sent, refl, refl)
  save_leads receipt (r ∷ rs) w = (stored (with_receipt receipt (r ∷ rs)), refl, refl)

  mark_leads :
      (receipt : StellarOperationReceipt) (outputs consumed : List PrivateRecord)
      → Leads
          (after_outputs receipt outputs)
          (mark_consumed own consumed)
          (Stay (final_phase receipt outputs consumed))
  unfolding final_phase
  mark_leads receipt [] [] w = (sent, refl, refl)
  mark_leads receipt (r ∷ rs) [] w = (stored (with_receipt receipt (r ∷ rs)), refl, refl)
  mark_leads receipt [] (c ∷ cs) w = (only_marked (c ∷ cs), refl, refl)
  mark_leads receipt (r ∷ rs) (c ∷ cs) w =
      (finished (with_receipt receipt (r ∷ rs)) (c ∷ cs), refl, refl)

  Committed-final :
      (prepared : StellarPreparedOperation) (receipt : StellarOperationReceipt)
      (r : Attempt (Unit {0}))
      → Committed prepared receipt r
          (final_phase receipt prepared.output_records prepared.consumed_records)
  Committed-final prepared receipt (answered a) = refl
  Committed-final prepared receipt (raised e) = tt

  last_event :
      (prepared : StellarPreparedOperation) (id : String) (receipt : StellarOperationReceipt)
      → Leads
          (final_phase receipt prepared.output_records prepared.consumed_records)
          (emit own id storage_commit OperationEventStatus.ends)
          (Committed prepared receipt)
  last_event prepared id receipt w = (_, refl, Committed-final prepared receipt _)

  commit_leads :
      (prepared : StellarPreparedOperation) (id : String) (receipt : StellarOperationReceipt)
      → Leads sent (commit_storage_changes own prepared id receipt) (Committed prepared receipt)
  unfolding commit_storage_changes
  commit_leads prepared id receipt =
      emit_then (Committed prepared receipt) sent id storage_commit begins _ (λ _. tt)
        (then_from (Committed prepared receipt) sent (after_outputs receipt prepared.output_records)
          (save_outputs own receipt prepared.output_records) _
          (save_leads receipt prepared.output_records)
          (λ _.
            then_from (Committed prepared receipt) _ _ (mark_consumed own prepared.consumed_records)
              _ (mark_leads receipt prepared.output_records prepared.consumed_records)
              (λ _. last_event prepared id receipt) (λ _. tt))
          (λ _. tt))

  commit_failure_leads :
      (prepared : StellarPreparedOperation) (id : String) (receipt : StellarOperationReceipt)
      (thrown : Thrown) (q : Phase)
      → Leads q (handle_storage_commit_failure own id receipt thrown) (Committed prepared receipt)
  unfolding handle_storage_commit_failure
  commit_failure_leads prepared id receipt thrown q =
      emit_then (Committed prepared receipt) q id storage_commit _ _ (λ _. tt) (λ w. (q, refl, tt))

  failure_leads :
      (prepared : StellarPreparedOperation) (id : String) (thrown : Thrown) (q : Phase)
      → Leads q (handle_submission_failure own id thrown) (Ended prepared)
  unfolding handle_submission_failure
  failure_leads prepared id thrown q =
      emit_then (Ended prepared) q id submission _ _ (λ _. tt) (λ w. (q, refl, tt))

  committed_leads :
      (prepared : StellarPreparedOperation) (id : String) (receipt : StellarOperationReceipt)
      → Leads sent
          (try_catch
              (commit_storage_changes own prepared id receipt)
              (handle_storage_commit_failure own id receipt)
            >> done receipt)
          (Ended prepared)
  committed_leads prepared id receipt =
      Leads-bind (Ended prepared) sent
        (try_catch (commit_storage_changes own prepared id receipt)
          (handle_storage_commit_failure own id receipt))
        (λ _. done receipt) (Committed prepared receipt)
        (Leads-try (Committed prepared receipt) sent
          (commit_storage_changes own prepared id receipt)
          (handle_storage_commit_failure own id receipt) (Committed prepared receipt)
          (commit_leads prepared id receipt) (λ a q e. e)
          (λ t q e. commit_failure_leads prepared id receipt t q))
        (λ a q e w. (q, refl, e)) (λ t q e. tt)

  committed_from :
      (prepared : StellarPreparedOperation) (id : String) (receipt : StellarOperationReceipt)
      (q : Phase)
      → q ≡ sent
      → Leads q
          (try_catch
              (commit_storage_changes own prepared id receipt)
              (handle_storage_commit_failure own id receipt)
            >> done receipt)
          (Ended prepared)
  committed_from prepared id receipt q e = rw e (committed_leads prepared id receipt)

  steps_lead :
      (prepared : StellarPreparedOperation) (id : String)
      → Leads idle (submit_steps own prepared id) (Ended prepared)
  unfolding submit_steps
  steps_lead prepared id =
      then_from (Ended prepared) idle idle (emit_pre_submission_stages own id) _
        (emit_stages-Stay idle id pre_submission_stages)
        (λ _.
          then_from (Ended prepared) idle authorized (sign_submission_payload own prepared) _
            (sign_leads prepared)
            (λ payload.
              Leads-bind (Ended prepared) authorized (submit_and_confirm own prepared id payload) _
                Sent (submit_leads prepared id payload)
                (λ receipt q e. committed_from prepared id receipt q e) (λ t q e. tt))
            (λ _. tt))
        (λ _. tt)

  execution_leads :
      (prepared : StellarPreparedOperation)
      → Leads idle (submit_prepared_operation own prepared) (Ended prepared)
  unfolding submit_prepared_operation
  execution_leads prepared =
      then_from (Ended prepared) idle idle own.create_operation_event_id _ (λ w. (idle, refl, refl))
        (λ id.
          Leads-try (Ended prepared) idle (submit_steps own prepared id)
            (handle_submission_failure own id) (Ended prepared) (steps_lead prepared id)
            (λ a q e. e) (λ t q e. failure_leads prepared id t q))
        (λ _. tt)

  -- Whatever its ports do, an execution calls them in order: it signs once before it submits, submits
  -- once, saves only after that, and marks only last. If it returns a receipt, then it has submitted,
  -- has saved exactly the operation's outputs with that receipt, where there are any, and has marked
  -- exactly its consumed records, where there are any.
  pub submit_prepared_operation-Ended :
      (prepared : StellarPreparedOperation) (w : W)
      → (q : Phase) × ((submit_prepared_operation own prepared (some idle, w)).1.0 ≡ some q)
        × Ended prepared (submit_prepared_operation own prepared (some idle, w)).0 q
  submit_prepared_operation-Ended prepared w = execution_leads prepared w
