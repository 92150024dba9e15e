-- ===== src/Saga/Driving.antt =====
-- The forward loop with no faults: it does to the world what performing the steps in memory
-- does, and ends as that ends.
use sannad.Prelude.{ℕ, ◌≤◌, String, Option, none, some, List, [], ◌∷◌, ◌≡◌, refl, length}
use sannad.Saga.{SagaStatus, SagaRecord, Definition, saga_compensated, saga_failed}
use sannad.Saga.Exec.{State, Result, ok, err, crashed, continue}
use sannad.Saga.Views.{head_at, head_at-update_self}
use sannad.Saga.Run.{unwind, compensate, conclude}
use sannad.Saga.Spec.{undo_all, verdict, NoErr, undo_all-NoErr}
use sannad.Saga.Calm.{headed, mark_saga-calm}
use sannad.Saga.Unwinding.{before, Settled, Ends, unwind-undo_all}

abbrev pub outcome : Option SagaRecord → Option SagaStatus
outcome none = none
outcome (some r) = some r.status

-- The status that a head must have when a saga has ended so; nothing is said of a crash.
abbrev pub RecordedAs : Result (Unit {0}) → Option SagaStatus → Type 0
RecordedAs (ok _) st = st ≡ some SagaStatus.completed
RecordedAs (err (saga_compensated _)) st = st ≡ some SagaStatus.compensated
RecordedAs (err (saga_failed _)) st = st ≡ some SagaStatus.failed
RecordedAs _ st = Unit

module _ {W : Type 0} where
  -- The run has the outcome and the world of the specification, and has recorded the outcome.
  pub record Refines (id : String) (o : Result (Unit {0}) × W) (r : Result (Unit {0}) × State W)
      : Type 0 where
    pub result : r.0 ≡ o.0
    pub world : r.1.world ≡ o.1
    pub recorded : RecordedAs r.0 (outcome (head_at r.1.tables id))

  abbrev pub HasHead : String → State W → Type 0
  HasHead id s = (r : SagaRecord) × (head_at s.tables id ≡ some r)

  pub outcome-headed :
      (id : String) (s : State W) (st : SagaStatus) (reason : String) (r : SagaRecord)
      → head_at s.tables id ≡ some r
      → outcome (head_at (headed id s st reason).tables id) ≡ some st
  outcome-headed id s st reason r h = rw (
    head_at-update_self id (λ r. record r { status = st; failure_reason = reason }) s.tables.sagas
        (λ _. refl),
    h,
  )

  conclude-verdict :
      (id reason : String) (r : Result (List String)) (s : State W)
      → s.faults ≡ []
      → NoErr r
      → (head : SagaRecord) → head_at s.tables id ≡ some head
      → Refines id (verdict reason r, s.world) (continue (conclude id reason) r s)
  conclude-verdict id reason (ok []) s calm fair head h =
      rw (mark_saga-calm id s SagaStatus.compensated reason calm)
        (record { result = refl; world = refl; recorded = outcome-headed id s _ _ head h })
  conclude-verdict id reason (ok (f ∷ fs)) s calm fair head h =
      rw (mark_saga-calm id s SagaStatus.failed _ calm)
        (record { result = refl; world = refl; recorded = outcome-headed id s _ _ head h })
  conclude-verdict id reason (err e) s calm fair head h = absurd fair
  conclude-verdict id reason crashed s calm fair head h = record {
    result = refl;
    world = refl;
    recorded = tt;
  }

  -- `compensate` where the steps below `i` are recorded as completed.
  pub compensate-undo_all :
      (saga : Definition W) (id : String) (i : ℕ) (reason : String) (s : State W)
      → i ≤ length saga.steps
      → Settled id i s
      → HasHead id s
      → Refines id
          (
            verdict reason (undo_all (before saga.steps i) [] s.world).0,
            (undo_all (before saga.steps i) [] s.world).1,
          )
          (compensate saga id i reason s)
  unfolding compensate
  compensate-undo_all saga id i reason s le h (head, at) =
      let s1 = headed id s SagaStatus.compensating reason in
      let ends : Ends s1.tables.sagas (undo_all (before saga.steps i) [] s.world)
          (unwind saga id i [] s1) =
        unwind-undo_all saga id i le [] s1 (record { calm = h.calm; done = h.done }) in
      rw (mark_saga-calm id s SagaStatus.compensating reason h.calm) (
        rw (← ends.result, ← ends.world)
          (conclude-verdict id reason (unwind saga id i [] s1).0 (unwind saga id i [] s1).1
            ends.calm (rw ends.result (undo_all-NoErr (before saga.steps i) [] s.world))
            (record head { status = SagaStatus.compensating; failure_reason = reason })
            (rw ends.heads (
              rw
                (head_at-update_self id
                  (λ r. record r { status = SagaStatus.compensating; failure_reason = reason })
                  s.tables.sagas (λ _. refl))
                (rw at)))))
