-- ===== src/Saga/Unwinding.antt =====
-- Compensation with no faults: the loop of `compensate` does to the world what undoing the
-- committed steps in memory does.
use sannad.Prelude.{
  ℕ, zero, suc, ◌≤◌, ◌<◌, String, Option, none, some, List, [], ◌∷◌, ◌++◌, ◌≡◌, refl, arith, length,
  get_elem?, inl, inr, Option-cases,
}
use sannad.Saga.{
  StepStatus, SagaRecord, SagaStepRecord, SagaStep, Definition, Reply, fine, refused, died,
}
use sannad.Saga.Exec.{State, Result, ok, crashed, continue}
use sannad.Saga.Views.{row_at, status_at, status_of}
use sannad.Saga.Run.{undo, unwind, compensating_text}
use sannad.Saga.Spec.{undo_all}
use sannad.Saga.Calm.{marked, status_at-marked}

module _ {ℓ} {A : Type ℓ} where
  -- The first `n` of a list, the latest first.
  abbrev pub before : List A → ℕ → List A
  before xs zero = []
  before xs (suc i) = elim (get_elem? xs i) [ none ↦ before xs i | some x ↦ x ∷ before xs i ]

  pub get_elem?-some : (xs : List A) (i : ℕ) → i < length xs → (x : A) × (get_elem? xs i ≡ some x)
  get_elem?-some [] i h = elim h [ ]
  get_elem?-some (x ∷ xs) zero h = (x, refl)
  get_elem?-some (x ∷ xs) (suc i) h = get_elem?-some xs i (omega arith)

module _ {W : Type 0} where
  -- No faults are to come, and the steps below `n` are recorded as completed.
  pub record Settled (id : String) (n : ℕ) (s : State W) : Type 0 where
    pub calm : s.faults ≡ []
    pub done : (j : ℕ) → j < n → status_at s.tables id j ≡ some StepStatus.completed

  -- An outcome, the world and the heads that a run ends in.
  pub record Ends {X : Type 0} (rows : List SagaRecord) (o : Result X × W) (r : Result X × State W)
      : Type 0 where
    pub result : r.0 ≡ o.0
    pub world : r.1.world ≡ o.1
    pub calm : r.1.faults ≡ []
    pub heads : r.1.tables.sagas ≡ rows

  abbrev pub ran : State W → W → State W
  ran s w = record s { world = w }

  Settled-marked :
      (id : String) (i : ℕ) (s : State W) (w : W) (st : StepStatus) (text : String)
      → Settled id i s
      → Settled id i (marked id i (ran s w) st text)
  Settled-marked id i s w st text h = record {
    calm = h.calm;
    done = λ j lt. rw (status_at-marked id i s j st text) (ground (arith, h.done j));
  }

  Settled-pred : (id : String) (i : ℕ) (s : State W) → Settled id (suc i) s → Settled id i s
  Settled-pred id i s h = record { calm = h.calm; done = λ j lt. h.done j (omega arith) }

  pub row_of_status :
      (s : State W) (id : String) (i : ℕ) (st : StepStatus)
      → status_at s.tables id i ≡ some st
      → (r : SagaStepRecord) × (row_at s.tables id i ≡ some r) × (r.status ≡ st)
  row_of_status s id i st h = go (row_at s.tables id i) h
    where
      go :
          (o : Option SagaStepRecord)
          → status_of o ≡ some st
          → (r : SagaStepRecord) × (o ≡ some r) × (r.status ≡ st)
      go none e = absurd (cc)
      go (some r) e = (r, refl, cc)

  module _ (step : SagaStep W) (id : String) (i : ℕ) (fails : List String) (s : State W)
      (calm : s.faults ≡ []) where
    undo-none :
        step.compensate ≡ none
        → undo step id i fails s ≡ (ok fails, marked id i s StepStatus.compensated "")
    unfolding undo
    undo-none e = rw (e, undo, calm)

    undo-fine :
        (body : W → Reply × W)
        → step.compensate ≡ some body
        → (body s.world).0 ≡ fine
        → undo step id i fails s ≡ (
          ok fails,
          marked id i
              (ran (marked id i s StepStatus.compensating "") (body s.world).1)
              StepStatus.compensated
              "",
        )
    unfolding undo
    undo-fine body e f = rw (e, undo, calm, f)

    undo-refused :
        (body : W → Reply × W) (text : String)
        → step.compensate ≡ some body
        → (body s.world).0 ≡ refused text
        → undo step id i fails s ≡ (
          ok (fails ++ compensating_text step text ∷ []),
          marked id i
              (ran (marked id i s StepStatus.compensating "") (body s.world).1)
              StepStatus.compensation_failed
              (compensating_text step text),
        )
    unfolding undo
    undo-refused body text e f = ground arith

    undo-died :
        (body : W → Reply × W)
        → step.compensate ≡ some body
        → (body s.world).0 ≡ died
        → undo step id i fails s
          ≡ (crashed, ran (marked id i s StepStatus.compensating "") (body s.world).1)
    unfolding undo
    undo-died body e f = ground arith

  -- One round of the loop, at a step that is recorded as completed.
  unwind-suc :
      (saga : Definition W) (step : SagaStep W) (id : String) (i : ℕ) (fails : List String)
      (s : State W)
      → get_elem? saga.steps i ≡ some step
      → s.faults ≡ []
      → status_at s.tables id i ≡ some StepStatus.completed
      → unwind saga id (suc i) fails s
        ≡ continue (λ fs. unwind saga id i fs) (undo step id i fails s).0 (undo step id i fails s).1
  unfolding unwind
  unwind-suc saga step id i fails s found calm st =
      let (r, at, is) = row_of_status s id i StepStatus.completed st in
      rw (found, unwind) (rw (calm, at, is))

  abbrev Unwinds : Definition W → String → ℕ → Type 0
  Unwinds saga id i =
      (fails : List String) (s : State W)
      → Settled id i s
      → Ends s.tables.sagas (undo_all (before saga.steps i) fails s.world)
          (unwind saga id i fails s)

  module _ (saga : Definition W) (step : SagaStep W) (id : String) (i : ℕ) (fails : List String)
      (s : State W) (found : get_elem? saga.steps i ≡ some step) (h : Settled id (suc i) s)
      (ih : Unwinds saga id i) where
    twice :
        (body : W → Reply × W) (st : StepStatus) (text : String)
        → Settled id i
            (marked id i (ran (marked id i s StepStatus.compensating "") (body s.world).1) st text)
    twice body st text =
        Settled-marked id i (marked id i s StepStatus.compensating "") (body s.world).1 st text
          (Settled-marked id i s s.world StepStatus.compensating "" (Settled-pred id i s h))

    round-body :
        (body : W → Reply × W)
        → step.compensate ≡ some body
        → (reply : Reply) → (body s.world).0 ≡ reply
        → Ends s.tables.sagas (undo_all (step ∷ before saga.steps i) fails s.world) (
            continue
              (λ fs. unwind saga id i fs)
              (undo step id i fails s).0
              (undo step id i fails s).1)
    unfolding undo_all
    round-body body e fine f =
        rw (undo-fine step id i fails s h.calm body e f)
          (rw (e, undo_all) (rw f (ih fails _ (twice body StepStatus.compensated ""))))
    round-body body e (refused text) f =
        rw (undo-refused step id i fails s h.calm body text e f)
          (rw (e, undo_all) (rw f (ih _ _ (twice body StepStatus.compensation_failed _))))
    round-body body e died f = rw (undo-died step id i fails s h.calm body e f) (
        rw (e, undo_all)
          (rw f (record { result = refl; world = refl; calm = h.calm; heads = refl })))

    round :
        Ends s.tables.sagas (undo_all (step ∷ before saga.steps i) fails s.world) (
          continue
            (λ fs. unwind saga id i fs)
            (undo step id i fails s).0
            (undo step id i fails s).1)
    unfolding undo_all
    round = elim (Option-cases step.compensate) [
      | inl e ↦ rw (undo-none step id i fails s h.calm e) (
          rw (e, undo_all)
            (ih fails _
              (Settled-marked id i s s.world StepStatus.compensated "" (Settled-pred id i s h))))
      | inr (body, e) ↦ round-body body e (body s.world).0 refl
    ]

  -- Unwinding from position `i - 1` down undoes the steps below `i`, the latest first.
  pub unwind-undo_all :
      (saga : Definition W) (id : String) (i : ℕ) → i ≤ length saga.steps → Unwinds saga id i
  unwind-undo_all saga id zero le fails s h =
      unfold unwind undo_all in record { result = refl; world = refl; calm = h.calm; heads = refl }
  unwind-undo_all saga id (suc i) le fails s h =
      let (step, found) = get_elem?-some saga.steps i (omega arith) in
      rw (unwind-suc saga step id i fails s found h.calm (h.done i (omega arith))) (
        rw (found, before)
          (round saga step id i fails s found h (unwind-undo_all saga id i (omega arith))))
