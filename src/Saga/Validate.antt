-- ===== src/Saga/Validate.antt =====
-- Saga.Validate of pkg/modulekit/saga.go.
use sannad.Prelude.{
  String, Bool, true, false, Option, none, some, List, [], ◌∷◌, ◌||◌, not, str_eq, if◌then◌else◌,
}
use sannad.Saga.{SagaStep, Definition}

-- `_, dup := seen[name]`
unfoldable pub contains : String → List String → Bool
contains s [] = false
contains s (t ∷ ts) = str_eq t s || contains s ts

abbrev pub is_some {ℓ} : {A : Type ℓ} → Option A → Bool
is_some none = false
is_some (some _) = true

abbrev is_empty {ℓ} : {A : Type ℓ} → List A → Bool
is_empty [] = true
is_empty (_ ∷ _) = false

module _ {W : Type 0} where
  -- The loop over the steps; `seen` holds the names before.
  unfoldable pub valid_steps : List String → List (SagaStep W) → Bool
  unfolding contains
  valid_steps seen [] = true
  valid_steps seen (step ∷ rest) =
      let later = valid_steps (step.name ∷ seen) rest in
      if str_eq step.name ""
      then false
      else if not (is_some step.forward)
      then false
      else if contains step.name seen
      then false
      else later

  -- `true` for `nil`; every error is `ErrInvalidSaga`.
  unfoldable pub validate : Definition W → Bool
  unfolding valid_steps
  validate saga =
      if str_eq saga.name ""
      then false
      else if is_empty saga.steps
      then false
      else valid_steps [] saga.steps
