-- ===== src/Saga/Examples.antt =====
-- Runs of small sagas, and the theorems at them.
use sannad.Prelude.{
  ◌≢◌, inl, String, none, some, List, [], ◌∷◌, ◌++◌, ◌≡◌, refl, ℕ, zero, suc, ◌<◌, arith, true,
}
use sannad.Saga.{
  SagaStatus, StepStatus, SagaRecord, SagaStepRecord, SagaStep, Definition, Reply, fine, refused,
  saga_compensated, holds_effect, duplicate,
}
use sannad.Saga.Exec.{State, err}
use sannad.Saga.Run.{run_saga, compensate}
use sannad.Saga.Validate.{validate}
use sannad.Saga.Views.{status_at, head_at}
use sannad.Saga.Recover.{recover_saga}
use sannad.Saga.Driving.{outcome, Refines}
use sannad.Saga.Refusals.{recover_saga-terminal, run_saga-duplicate, compensate_idle}
use sannad.Saga.Spec.{perform}
use sannad.Saga.Begin.{Fresh, run_saga-perform}

-- A world that keeps what was called.
abbrev Trace : Type 0
Trace = List String

abbrev step : String → SagaStep Trace
step n = record {
  name = n;
  forward = some (λ w. (fine, w ++ n ∷ []));
  compensate = some (λ w. (fine, w ++ n ∷ "undone" ∷ []));
}

abbrev broken : SagaStep Trace
broken = record { name = "book"; forward = some (λ w. (refused "full", w)); compensate = none }

abbrev order : Definition Trace
order = record { name = "order"; steps = step "reserve" ∷ step "charge" ∷ broken ∷ [] }

abbrev empty : State Trace
empty = record { tables = record { sagas = []; steps = [] }; world = []; faults = [] }

order_unwinds :
    (run_saga order "o-1" empty).1.world
    ≡ "reserve" ∷ "charge" ∷ "charge" ∷ "undone" ∷ "reserve" ∷ "undone" ∷ []
unfolding run_saga
order_unwinds = refl

order_declined : (run_saga order "o-1" empty).0 ≡ err (saga_compensated "step book failed: full")
unfolding run_saga
order_declined = refl

empty-Fresh : Fresh "o-1" empty
unfolding sannad.Saga.Tables.first
empty-Fresh = record { calm = refl; head = refl; rows = λ j. refl }

order-validate : validate order ≡ true
unfolding validate
order-validate = refl

run_saga-perform_example : Refines "o-1" (perform [] order.steps []) (run_saga order "o-1" empty)
run_saga-perform_example =
    run_saga-perform order "o-1" empty empty-Fresh order-validate (λ h. absurd (cc))

abbrev row : ℕ → String → StepStatus → SagaStepRecord
row i name status = record {
  saga_id = "o-1";
  position = i;
  name = name;
  status = status;
  attempts = 1;
  failure_reason = "";
}

abbrev found_at : SagaStatus → State Trace
found_at status = record {
  tables = record {
    sagas =
        record { saga_id = "o-1"; name = "order"; status = status; failure_reason = "full" } ∷ [];
    steps =
        row 0 "reserve" StepStatus.compensating
        ∷ row 1 "charge" StepStatus.compensated
        ∷ row 2 "book" StepStatus.failed
        ∷ [];
  };
  world = "reserve" ∷ "charge" ∷ [];
  faults = [];
}

recover_saga-terminal_example :
    ((recover_saga order "o-1" (found_at SagaStatus.completed)).1.world ≡ "reserve" ∷ "charge" ∷ [])
    × ((recover_saga order "o-1" (found_at SagaStatus.completed)).1.tables
        ≡ (found_at SagaStatus.completed).tables)
unfolding sannad.Saga.Tables.first
recover_saga-terminal_example =
    recover_saga-terminal order "o-1"
      (record {
        saga_id = "o-1";
        name = "order";
        status = SagaStatus.completed;
        failure_reason = "full";
      })
      (found_at SagaStatus.completed) refl (inl refl)

run_saga-duplicate_example :
    run_saga order "o-1" (found_at SagaStatus.running)
    ≡ (err duplicate, found_at SagaStatus.running)
unfolding sannad.Saga.Tables.first
run_saga-duplicate_example =
    run_saga-duplicate order "o-1"
      (record {
        saga_id = "o-1";
        name = "order";
        status = SagaStatus.running;
        failure_reason = "full";
      })
      (found_at SagaStatus.running) refl refl order-validate (λ h. absurd (cc))

none_held :
    (j : ℕ)
    → j < 3
    → (st : StepStatus) × (status_at (found_at SagaStatus.compensating).tables "o-1" j ≡ some st)
      × (st ≢ StepStatus.completed)
      × (st ≢ StepStatus.running)
unfolding sannad.Saga.Tables.first
none_held zero lt = (StepStatus.compensating, refl, (λ h. absurd (cc)), (λ h. absurd (cc)))
none_held (suc zero) lt = (StepStatus.compensated, refl, (λ h. absurd (cc)), (λ h. absurd (cc)))
none_held (suc (suc zero)) lt = (StepStatus.failed, refl, (λ h. absurd (cc)), (λ h. absurd (cc)))
none_held (suc (suc (suc j))) lt = absurd (omega arith)

compensate_idle_example :
    let r = compensate order "o-1" 3 "full" (found_at SagaStatus.compensating) in
    (r.0 ≡ err (saga_compensated "full"))
    × (r.1.world ≡ "reserve" ∷ "charge" ∷ [])
    × (outcome (head_at r.1.tables "o-1") ≡ some SagaStatus.compensated)
unfolding sannad.Saga.Tables.first
compensate_idle_example =
    compensate_idle order "o-1" "full" (found_at SagaStatus.compensating) refl
      (
        record {
          saga_id = "o-1";
          name = "order";
          status = SagaStatus.compensating;
          failure_reason = "full";
        },
        refl,
      )
      none_held
