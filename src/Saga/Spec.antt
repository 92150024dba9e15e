-- ===== src/Saga/Spec.antt =====
-- A saga in memory: what its steps do to the world of the modules, with no tables. The durable
-- coordinator is compared with this.
use sannad.Prelude.{String, none, some, List, [], ◌∷◌, ◌++◌, inl, inr, Option-cases}
use sannad.Saga.{SagaStep, Reply-cases, fine, refused, died, saga_compensated, saga_failed}
use sannad.Saga.Exec.{Result, ok, err, crashed}
use sannad.Saga.Run.{◌⧺◌, failed_text, compensating_text, joined}

-- What a saga reports after its unwinding, for the reason given and the failures met.
abbrev pub verdict : String → Result (List String) → Result (Unit {0})
verdict reason (ok []) = err (saga_compensated reason)
verdict reason (ok (f ∷ fs)) =
    err (saga_failed (reason ⧺ "; compensation failed: " ⧺ joined (f ∷ fs)))
verdict reason (err e) = err e
verdict reason crashed = crashed

module _ {W : Type 0} where
  -- Undo the steps given, collecting the texts of the undos that fail. A step with no
  -- compensation has nothing to undo.
  unfoldable pub undo_all : List (SagaStep W) → List String → W → Result (List String) × W
  undo_all [] failures w = (ok failures, w)
  undo_all (step ∷ earlier) failures w = elim step.compensate [
    | none ↦ undo_all earlier failures w
    | some body ↦ elim (body w).0 [
      | fine ↦ undo_all earlier failures (body w).1
      | refused text ↦ undo_all earlier (failures ++ compensating_text step text ∷ []) (body w).1
      | died ↦ (crashed, (body w).1)
    ]
  ]

  -- Run the steps given in order; `done` holds those before, the latest first. The first step
  -- that refuses is not undone, and all before it are, the latest first.
  unfoldable pub perform : List (SagaStep W) → List (SagaStep W) → W → Result (Unit {0}) × W
  unfolding undo_all
  perform done [] w = (ok tt, w)
  perform done (step ∷ rest) w = elim step.forward [
    | none ↦ (crashed, w)
    | some body ↦ elim (body w).0 [
      | fine ↦ perform (step ∷ done) rest (body w).1
      | refused text ↦ (
        verdict (failed_text step text) (undo_all done [] (body w).1).0,
        (undo_all done [] (body w).1).1,
      )
      | died ↦ (crashed, (body w).1)
    ]
  ]

abbrev pub NoErr {ℓ} : {A : Type ℓ} → Result A → Type 0
NoErr (err _) = ⊥
NoErr _ = Unit

pub undo_all-NoErr :
    {W : Type 0} (steps : List (SagaStep W)) (failures : List String) (w : W)
    → NoErr (undo_all steps failures w).0
unfolding undo_all
undo_all-NoErr [] failures w = tt
undo_all-NoErr (step ∷ steps) failures w = elim (Option-cases step.compensate) [
  | inl e ↦ rw (e, undo_all) (undo_all-NoErr steps failures w)
  | inr (body, e) ↦
      rw (e, undo_all)
        (elim (Reply-cases (body w).0) [
          | inl f ↦ rw f (undo_all-NoErr steps failures (body w).1)
          | inr (inl (text, f)) ↦
              rw f (undo_all-NoErr steps (failures ++ compensating_text step text ∷ []) (body w).1)
          | inr (inr f) ↦ rw f tt
        ])
]
