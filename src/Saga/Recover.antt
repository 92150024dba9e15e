-- ===== src/Saga/Recover.antt =====
-- RecoverSaga, InFlightSagas, SagaState and the reading of recorded steps in
-- pkg/modulekit/saga.go.
use sannad.Prelude.{
  ℕ, zero, suc, String, Bool, true, false, Option, none, some, List, [], ◌∷◌, ◌==◌, ltb, length,
  drop, str_eq, if◌then◌else◌, not, ◌&&◌, ◌||◌,
}
use sannad.Saga.{
  SagaStatus, StepStatus, SagaRecord, SagaStepRecord, SagaStep, Definition, Error, invalid_saga,
  saga_not_found, not_found,
}
use sannad.Saga.Exec.{State, Result, err, Exec, pure, raise, ◌>>=◌}
use sannad.Saga.Tables.{first_saga, find_steps, find_sagas, has_status}
use sannad.Saga.Validate.{validate}
use sannad.Saga.Run.{drive_saga, compensate}

-- A slot of the slice that `recordedSteps` fills; `none` is the zero record.
abbrev pub Slot : Type 0
Slot = Option SagaStepRecord

abbrev blank : ℕ → List Slot
blank zero = []
blank (suc n) = none ∷ blank n

-- ordered[row.Position] = row
unfoldable pub put : List Slot → ℕ → SagaStepRecord → List Slot
put [] i row = []
put (slot ∷ slots) zero row = some row ∷ slots
put (slot ∷ slots) (suc i) row = slot ∷ put slots i row

-- The loop of `recordedSteps`; `none` is its error.
unfoldable pub place : ℕ → List Slot → List SagaStepRecord → Option (List Slot)
unfolding put
place n ordered [] = some ordered
place n ordered (row ∷ rows) =
    let next = place n (put ordered row.position row) rows in
    if ltb row.position n then next else none

abbrev name_of : Slot → String
name_of none = ""
name_of (some row) = row.name

abbrev is_completed : Slot → Bool
is_completed (some row) = elim row.status [ StepStatus.completed ↦ true | _ ↦ false ]
is_completed none = false

-- The first position that is not completed, or the number of steps.
unfoldable pub resume_at : ℕ → List Slot → ℕ
resume_at i [] = i
resume_at i (slot ∷ slots) =
    let later = resume_at (suc i) slots in if is_completed slot then later else i

abbrev pub is_terminal : SagaStatus → Bool
is_terminal SagaStatus.completed = true
is_terminal SagaStatus.compensated = true
is_terminal SagaStatus.failed = true
is_terminal _ = false

module _ {W : Type 0} where
  abbrev lift_place : Option (List Slot) → Exec W (List Slot)
  lift_place none = raise invalid_saga
  lift_place (some slots) = pure slots

  unfoldable pub recorded_steps : String → Exec W (List Slot)
  unfolding find_steps place
  recorded_steps id = do
    rows ← find_steps id
    lift_place (place (length rows) (blank (length rows)) rows)

  unfoldable pub names_agree : List Slot → List (SagaStep W) → Bool
  names_agree [] steps = true
  names_agree (slot ∷ slots) [] = true
  names_agree (slot ∷ slots) (step ∷ steps) =
      str_eq (name_of slot) step.name && names_agree slots steps

  abbrev not_found_as : {A : Type 0} → Error → Result A × State W → Result A × State W
  not_found_as e (err not_found, s) = (err e, s)
  not_found_as e (r, s) = (r, s)

  -- The head record, read with `ErrNotFound` turned into `ErrSagaNotFound`.
  unfoldable pub read_head : String → Exec W SagaRecord
  unfolding first_saga
  read_head id s = not_found_as saga_not_found (first_saga id s)

  -- The end of `RecoverSaga`, once the recorded steps match the definition.
  unfoldable pub resume : Definition W → String → SagaRecord → List Slot → Exec W (Unit {0})
  unfolding compensate drive_saga resume_at
  resume saga id head slots =
      if has_status head.status SagaStatus.compensating
      then compensate saga id (length saga.steps) head.failure_reason
      else (let from = resume_at 0 slots in drive_saga saga id (drop from saga.steps) from)

  -- `RecoverSaga` from the recorded steps on: they must match the definition.
  unfoldable pub match_steps : Definition W → String → SagaRecord → List Slot → Exec W (Unit {0})
  unfolding names_agree resume
  match_steps saga id head slots =
      if not (length slots == length saga.steps)
      then raise invalid_saga
      else if not (names_agree slots saga.steps)
      then raise invalid_saga
      else resume saga id head slots

  -- `RecoverSaga` from the head record on.
  unfoldable pub match_head : Definition W → String → SagaRecord → Exec W (Unit {0})
  unfolding recorded_steps match_steps
  match_head saga id head =
      if not (str_eq head.name saga.name)
      then raise invalid_saga
      else if is_terminal head.status
      then pure tt
      else (do slots ← recorded_steps id; match_steps saga id head slots)

  unfoldable pub recover_saga : Definition W → String → Exec W (Unit {0})
  unfolding read_head match_head validate
  recover_saga saga id =
      if not (validate saga)
      then raise invalid_saga
      else (do head ← read_head id; match_head saga id head)

  unfoldable pub in_flight_sagas : Exec W (List SagaRecord)
  unfolding find_sagas
  in_flight_sagas =
      find_sagas
        (λ r. has_status r.status SagaStatus.running || has_status r.status SagaStatus.compensating)

  unfoldable pub saga_state : String → Exec W (SagaRecord × List Slot)
  unfolding read_head recorded_steps
  saga_state id = do head ← read_head id; slots ← recorded_steps id; pure (head, slots)
