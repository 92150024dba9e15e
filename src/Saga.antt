-- ===== src/Saga.antt =====
-- The records of a saga (pkg/modulekit/saga.go): durable state, definitions and errors.
pub mod Exec
pub mod Tables
pub mod Validate
pub mod Views
pub mod Spec
pub mod Calm
pub mod Unwinding
pub mod Driving
pub mod Forward
pub mod Begin
pub mod Run
pub mod Recover
pub mod Refusals
mod Examples
use sannad.Prelude.{ℕ, String, Option, List, Bool, true, false, ◌≡◌, ◌⊎◌, inl, inr, refl}

pub data SagaStatus : Type 0 where
  running completed compensating compensated failed : SagaStatus

pub data StepStatus : Type 0 where
  pending running completed failed compensating compensated compensation_failed : StepStatus

-- The times of a record are written and never read by the coordinator, and are left out.
pub record SagaRecord : Type 0 where
  pub saga_id : String
  pub name : String
  pub status : SagaStatus
  pub failure_reason : String

pub record SagaStepRecord : Type 0 where
  pub saga_id : String
  pub position : ℕ
  pub name : String
  pub status : StepStatus
  pub attempts : ℕ
  pub failure_reason : String

-- What a step's body answers: `nil`, an error with its text, or nothing since the process died.
pub data Reply : Type 0 where
  fine : Reply
  refused : String → Reply
  died : Reply

-- A step over a world of the modules that it touches. `nil` functions are `none`.
pub record SagaStep (W : Type 0) : Type 0 where
  pub name : String
  pub forward : Option (W → Reply × W)
  pub compensate : Option (W → Reply × W)

pub record Definition (W : Type 0) : Type 0 where
  pub name : String
  pub steps : List (SagaStep W)

-- The errors of the package, by what `errors.Is` sees, with the text that a saga records.
pub data Error : Type 0 where
  invalid_saga saga_not_found duplicate not_found : Error
  saga_compensated : String → Error
  saga_failed : String → Error
  storage : String → Error

-- `status != StepCompleted && status != StepRunning` is the negation.
abbrev pub holds_effect : StepStatus → Bool
holds_effect StepStatus.completed = true
holds_effect StepStatus.running = true
holds_effect _ = false

pub Reply-cases : (r : Reply) → (r ≡ fine) ⊎ (((text : String) × (r ≡ refused text)) ⊎ (r ≡ died))
Reply-cases fine = inl refl
Reply-cases (refused text) = inr (inl (text, refl))
Reply-cases died = inr (inr refl)
