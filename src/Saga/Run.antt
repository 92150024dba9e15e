-- ===== src/Saga/Run.antt =====
-- RunSaga and RecoverSaga of pkg/modulekit/saga.go.
use Prim.Native.String.{◌++◌ as str_append}
use sannad.Prelude.{
  ℕ, zero, suc, String, none, some, List, [], ◌∷◌, ◌++◌, ◌+◌, get_elem?, str_eq, if◌then◌else◌, not,
}
use sannad.Saga.{
  SagaStatus, StepStatus, SagaStep, Definition, invalid_saga, saga_compensated, saga_failed,
  holds_effect,
}
use sannad.Saga.Exec.{Exec, pure, raise, panic, call, ◌>>=◌, ◌>>◌}
use sannad.Saga.Validate.{validate}
use sannad.Saga.Tables.{first_step, update_saga, update_step, create_saga, create_step, transact}

infixr 65 ◌⧺◌
abbrev pub ◌⧺◌ : String → String → String
s ⧺ t = str_append s t

-- The text of `errors.Join`.
abbrev pub joined : List String → String
joined [] = ""
joined (text ∷ []) = text
joined (text ∷ rest) = text ⧺ "\n" ⧺ joined rest

module _ {W : Type 0} where
  unfoldable pub mark_saga : String → SagaStatus → String → Exec W (Unit {0})
  unfolding update_saga
  mark_saga id status reason =
      update_saga id (λ r. record r { status = status; failure_reason = reason })

  unfoldable pub mark_step : String → ℕ → StepStatus → String → Exec W (Unit {0})
  unfolding update_step
  mark_step id position status reason =
      update_step id position (λ r. record r { status = status; failure_reason = reason })

  unfoldable pub mark_step_running : String → ℕ → Exec W (Unit {0})
  unfolding update_step first_step
  mark_step_running id position = do
    rec ← first_step id position
    update_step id position
        (λ r. record r { status = StepStatus.running; attempts = rec.attempts + 1 })

  unfoldable pub step_status : String → ℕ → Exec W StepStatus
  unfolding first_step
  step_status id position = do rec ← first_step id position; pure rec.status

  -- The texts of `fmt.Errorf` and `fmt.Sprintf` that are recorded.
  abbrev pub failed_text : SagaStep W → String → String
  failed_text step text = "step " ⧺ step.name ⧺ " failed: " ⧺ text

  abbrev pub compensating_text : SagaStep W → String → String
  compensating_text step text = "compensating " ⧺ step.name ⧺ ": " ⧺ text

  -- One round of the loop of `compensate`, on a step that holds an effect.
  unfoldable pub undo : SagaStep W → String → ℕ → List String → Exec W (List String)
  unfolding mark_step call
  undo step id i failures = elim step.compensate [
    | none ↦ (do mark_step id i StepStatus.compensated ""; pure failures)
    | some body ↦ (do
      mark_step id i StepStatus.compensating ""
      reply ← call (some body)
      elim reply [
        | none ↦ (do mark_step id i StepStatus.compensated ""; pure failures)
        | some text ↦ (do
          let failure = compensating_text step text
          mark_step id i StepStatus.compensation_failed failure
          pure (failures ++ failure ∷ []))
      ])
  ]

  -- The loop from position `count - 1` down to 0, with the failures so far.
  unfoldable pub unwind : Definition W → String → ℕ → List String → Exec W (List String)
  unfolding undo step_status
  unwind saga id zero failures = pure failures
  unwind saga id (suc i) failures = elim (get_elem? saga.steps i) [
    | none ↦ panic
    | some step ↦ (do
      status ← step_status id i
      failures' ← if holds_effect status then undo step id i failures else pure failures
      unwind saga id i failures')
  ]

  abbrev pub conclude : String → String → List String → Exec W (Unit {0})
  conclude id reason [] = do
    mark_saga id SagaStatus.compensated reason
    raise (saga_compensated reason)
  conclude id reason (f ∷ fs) = do
    let detail = reason ⧺ "; compensation failed: " ⧺ joined (f ∷ fs)
    mark_saga id SagaStatus.failed detail
    raise (saga_failed detail)

  -- `count` is `from + 1`.
  unfoldable pub compensate : Definition W → String → ℕ → String → Exec W (Unit {0})
  unfolding unwind mark_saga
  compensate saga id count reason = do
    mark_saga id SagaStatus.compensating reason
    failures ← unwind saga id count []
    conclude id reason failures

  -- The loop from position `i` on, over the steps that are left.
  unfoldable pub drive_saga : Definition W → String → List (SagaStep W) → ℕ → Exec W (Unit {0})
  unfolding compensate mark_step_running mark_step call mark_saga
  drive_saga saga id [] i = mark_saga id SagaStatus.completed ""
  drive_saga saga id (step ∷ rest) i = do
    mark_step_running id i
    reply ← call step.forward
    elim reply [
      | none ↦ (do mark_step id i StepStatus.completed ""; drive_saga saga id rest (suc i))
      | some text ↦ (do
        let reason = failed_text step text
        mark_step id i StepStatus.failed reason
        compensate saga id i reason)
    ]

  unfoldable pub create_steps : String → List (SagaStep W) → ℕ → Exec W (Unit {0})
  unfolding create_step
  create_steps id [] i = pure tt
  create_steps id (step ∷ rest) i = do
    create_step (record {
      saga_id = id;
      position = i;
      name = step.name;
      status = StepStatus.pending;
      attempts = 0;
      failure_reason = "";
    })
    create_steps id rest (suc i)

  unfoldable pub begin_saga : Definition W → String → Exec W (Unit {0})
  unfolding create_steps create_saga transact
  begin_saga saga id = transact (do
    create_saga (record {
      saga_id = id;
      name = saga.name;
      status = SagaStatus.running;
      failure_reason = "";
    })
    create_steps id saga.steps 0)

  unfoldable pub run_saga : Definition W → String → Exec W (Unit {0})
  unfolding begin_saga drive_saga validate
  run_saga saga id =
      if not (validate saga)
      then raise invalid_saga
      else if str_eq id ""
      then raise invalid_saga
      else (do begin_saga saga id; drive_saga saga id saga.steps 0)
