-- ===== src/Saga/Calm.antt =====
-- What each action does when no fault meets it.
use sannad.Prelude.{ℕ, String, some, [], ◌≡◌, refl, ◌+◌, ◌==◌, if◌then◌else◌}
use sannad.Saga.{SagaStatus, StepStatus, SagaStepRecord}
use sannad.Saga.Exec.{State, ok}
use sannad.Saga.Tables.{update, is_step, is_saga, with_steps, with_sagas}
use sannad.Saga.Views.{row_at, status_at, over, status-update}
use sannad.Saga.Run.{mark_step, mark_saga, mark_step_running, step_status}

module _ {W : Type 0} (id : String) (i : ℕ) (s : State W) where
  abbrev pub marked : StepStatus → String → State W
  marked st text =
      with_steps s (
        update (is_step id i) (λ r. record r { status = st; failure_reason = text }) s.tables.steps)

  abbrev pub entered : SagaStepRecord → State W
  entered rec = with_steps s (
      update (is_step id i)
        (λ r. record r { status = StepStatus.running; attempts = rec.attempts + 1 }) s.tables.steps)

  pub mark_step-calm :
      (st : StepStatus) (text : String)
      → s.faults ≡ []
      → mark_step id i st text s ≡ (ok tt, marked st text)
  unfolding mark_step
  mark_step-calm st text calm = rw calm

  pub mark_step_running-calm :
      (rec : SagaStepRecord)
      → s.faults ≡ []
      → row_at s.tables id i ≡ some rec
      → mark_step_running id i s ≡ (ok tt, entered rec)
  unfolding mark_step_running
  mark_step_running-calm rec calm found = rw (calm, found)

  pub step_status-calm :
      (rec : SagaStepRecord)
      → s.faults ≡ []
      → row_at s.tables id i ≡ some rec
      → step_status id i s ≡ (ok rec.status, s)
  unfolding step_status
  step_status-calm rec calm found = rw (calm, found)

  pub status_at-marked :
      (j : ℕ) (st : StepStatus) (text : String)
      → status_at (marked st text).tables id j
        ≡ (if i == j then over st (status_at s.tables id j) else status_at s.tables id j)
  status_at-marked j st text =
      status-update id i j st _ s.tables.steps (λ r. (refl, refl)) (λ r. refl)

  pub status_at-entered :
      (j : ℕ) (rec : SagaStepRecord)
      → status_at (entered rec).tables id j ≡ (
          if i == j
          then over StepStatus.running (status_at s.tables id j)
          else status_at s.tables id j)
  status_at-entered j rec =
      status-update id i j StepStatus.running _ s.tables.steps (λ r. (refl, refl)) (λ r. refl)

module _ {W : Type 0} (id : String) (s : State W) where
  abbrev pub headed : SagaStatus → String → State W
  headed st reason =
      with_sagas s (
        update (is_saga id) (λ r. record r { status = st; failure_reason = reason }) s.tables.sagas)

  pub mark_saga-calm :
      (st : SagaStatus) (reason : String)
      → s.faults ≡ []
      → mark_saga id st reason s ≡ (ok tt, headed st reason)
  unfolding mark_saga
  mark_saga-calm st reason calm = rw calm
