-- ===== src/Saga/Forward.antt =====
-- The forward loop with no faults: it does to the world what performing the steps in memory
-- does, and ends as that ends.
use sannad.Prelude.{
  ℕ, zero, suc, ◌≤◌, ◌<◌, String, some, List, [], ◌∷◌, ◌≡◌, refl, arith, ◌==◌, if◌then◌else◌,
  length, get_elem?, drop, inl, inr, Option-cases,
}
use sannad.Saga.{SagaStatus, StepStatus, SagaStepRecord, SagaStep, Definition, Reply, Reply-cases}
use sannad.Saga.Exec.{State}
use sannad.Saga.Views.{row_at, status_at, over}
use sannad.Saga.Run.{drive_saga, failed_text}
use sannad.Saga.Spec.{perform}
use sannad.Saga.Calm.{
  marked, entered, mark_step-calm, mark_saga-calm, mark_step_running-calm, status_at-marked,
  status_at-entered,
}
use sannad.Saga.Unwinding.{before, Settled, ran, row_of_status}
use sannad.Saga.Driving.{Refines, HasHead, outcome-headed, compensate-undo_all}

module _ {ℓ} {A : Type ℓ} where
  drop-cons :
      (xs : List A) (i : ℕ) (x : A) (rest : List A)
      → drop i xs ≡ x ∷ rest
      → (get_elem? xs i ≡ some x) × (drop (suc i) xs ≡ rest) × (i < length xs)
  drop-cons [] zero x rest h = absurd (cc)
  drop-cons [] (suc i) x rest h = absurd (cc)
  drop-cons (y ∷ xs) zero x rest h = (cc, cc, omega arith)
  drop-cons (y ∷ xs) (suc i) x rest h =
      let (a, b, c) = drop-cons xs i x rest h in (a, b, omega arith)

module _ {W : Type 0} where
  -- The steps from `i` on, below `n`, have rows.
  pub record Ready (id : String) (i n : ℕ) (s : State W) : Type 0 where
    pub settled : Settled id i s
    pub rows : (j : ℕ) → i ≤ j → j < n → (st : StepStatus) × (status_at s.tables id j ≡ some st)
    pub head : HasHead id s

  module _ (id : String) (i n : ℕ) (s : State W) (h : Ready id i n s) (rec : SagaStepRecord)
      (w : W) where
    abbrev after : StepStatus → String → State W
    after st text = marked id i (ran (entered id i s rec) w) st text

    status_at-after :
        (st : StepStatus) (text : String) (j : ℕ)
        → status_at (after st text).tables id j ≡ (
            if i == j
            then over st (over StepStatus.running (status_at s.tables id j))
            else status_at s.tables id j)
    status_at-after st text j =
        rw (status_at-marked id i (ran (entered id i s rec) w) j st text)
          (ground (arith, status_at-entered id i s j rec))

    Settled-after : (st : StepStatus) (text : String) → Settled id i (after st text)
    Settled-after st text = record {
      calm = h.settled.calm;
      done = λ j lt. rw (status_at-after st text j) (ground (arith, h.settled.done j));
    }

    Ready-after : i < n → Ready id (suc i) n (after StepStatus.completed "")
    Ready-after lt = record {
      settled = record {
        calm = h.settled.calm;
        done = λ j below.
            rw (status_at-after StepStatus.completed "" j)
              (ground (arith, h.settled.done j, h.rows j));
      };
      rows = λ j from to. (
        (h.rows j (omega arith) to).0,
        rw (status_at-after StepStatus.completed "" j)
            (ground (arith, (h.rows j (omega arith) to).1)),
      );
      head = h.head;
    }

  abbrev Performs : Definition W → String → List (SagaStep W) → ℕ → Type 0
  Performs saga id rest i =
      (s : State W)
      → Ready id i (length saga.steps) s
      → Refines id (perform (before saga.steps i) rest s.world) (drive_saga saga id rest i s)

  module _ (saga : Definition W) (id : String) (step : SagaStep W) (rest : List (SagaStep W))
      (i : ℕ) (lt : i < length saga.steps) (at : get_elem? saga.steps i ≡ some step)
      (ih : Performs saga id rest (suc i)) (s : State W) (h : Ready id i (length saga.steps) s)
      (rec : SagaStepRecord) (found : row_at s.tables id i ≡ some rec) where
    drive-body :
        (body : W → Reply × W)
        → step.forward ≡ some body
        → Refines id
            (perform (before saga.steps i) (step ∷ rest) s.world)
            (drive_saga saga id (step ∷ rest) i s)
    unfolding perform drive_saga
    drive-body body e =
        rw (mark_step_running-calm id i s rec h.settled.calm found, e)
          (elim (Reply-cases (body s.world).0) [
            | inl f ↦ rw f (
                rw
                  (mark_step-calm id i (ran (entered id i s rec) (body s.world).1)
                    StepStatus.completed "" h.settled.calm)
                  (rw (at, before) at
                    (ih
                      (after id i (length saga.steps) s h rec (body s.world).1 StepStatus.completed
                        "")
                      (Ready-after id i (length saga.steps) s h rec (body s.world).1 lt))))
            | inr (inl (text, f)) ↦ rw f (
                let reason = failed_text step text in
                rw
                  (mark_step-calm id i (ran (entered id i s rec) (body s.world).1) StepStatus.failed
                    reason h.settled.calm)
                  (compensate-undo_all saga id i reason
                    (after id i (length saga.steps) s h rec (body s.world).1 StepStatus.failed
                      reason)
                    (omega arith)
                    (Settled-after id i (length saga.steps) s h rec (body s.world).1
                      StepStatus.failed reason)
                    h.head))
            | inr (inr f) ↦ rw f (record { result = refl; world = refl; recorded = tt })
          ])

    drive-step :
        Refines id
          (perform (before saga.steps i) (step ∷ rest) s.world)
          (drive_saga saga id (step ∷ rest) i s)
    unfolding perform drive_saga
    drive-step = elim (Option-cases step.forward) [
      | inl e ↦
          rw (mark_step_running-calm id i s rec h.settled.calm found, e)
            (record { result = refl; world = refl; recorded = tt })
      | inr (body, e) ↦ drive-body body e
    ]

  -- From position `i` on, with the steps below recorded as completed.
  pub drive-perform :
      (saga : Definition W) (id : String) (rest : List (SagaStep W)) (i : ℕ)
      → drop i saga.steps ≡ rest
      → Performs saga id rest i
  drive-perform saga id [] i left s h =
      unfold drive_saga perform in
      rw (mark_saga-calm id s SagaStatus.completed "" h.settled.calm) (record {
        result = refl;
        world = refl;
        recorded = outcome-headed id s SagaStatus.completed "" h.head.0 h.head.1;
      })
  drive-perform saga id (step ∷ rest) i left s h =
      let (at, later, lt) = drop-cons saga.steps i step rest left in
      let (rec, found, _) =
        row_of_status s id i (h.rows i (omega arith) lt).0 (h.rows i (omega arith) lt).1 in
      drive-step saga id step rest i lt at (drive-perform saga id rest (suc i) later) s h rec found
