-- ===== src/Saga/Refusals.antt =====
-- Where the coordinator does nothing: a saga that is over, a second start, and an unwinding that
-- finds no effect on record.
use sannad.Prelude.{
  ℕ, zero, suc, ◌≤◌, ◌<◌, String, true, false, some, List, [], ◌∷◌, ◌≡◌, ◌≢◌, refl, arith, ◌∙◌, ◌⊎◌,
  Bool-cases, inl, inr, str_eq, eq_iff, length,
}
use sannad.Saga.{
  SagaStatus, StepStatus, SagaRecord, Definition, duplicate, storage, saga_compensated,
  holds_effect,
}
use sannad.Saga.Exec.{State, Fault, pass, fail, crash, ok, err, crashed, faulty}
use sannad.Saga.Tables.{first_saga, create_saga, transact}
use sannad.Saga.Views.{head_at, status_at, head_at-update_self}
use sannad.Saga.Validate.{validate}
use sannad.Saga.Run.{unwind, compensate, begin_saga, run_saga}
use sannad.Saga.Recover.{is_terminal, read_head, match_head, recover_saga}
use sannad.Saga.Calm.{headed, mark_saga-calm, step_status-calm}
use sannad.Saga.Unwinding.{get_elem?-some, row_of_status}
use sannad.Saga.Driving.{outcome, HasHead, outcome-headed}

is_terminal-over :
    (status : SagaStatus)
    → (status ≡ SagaStatus.completed)
      ⊎ ((status ≡ SagaStatus.compensated) ⊎ (status ≡ SagaStatus.failed))
    → is_terminal status ≡ true
is_terminal-over status (inl e) = rw e refl
is_terminal-over status (inr (inl e)) = rw e refl
is_terminal-over status (inr (inr e)) = rw e refl

holds_effect-none :
    (st : StepStatus)
    → st ≢ StepStatus.completed
    → st ≢ StepStatus.running
    → holds_effect st ≡ false
holds_effect-none StepStatus.completed c r = absurd (c refl)
holds_effect-none StepStatus.running c r = absurd (r refl)
holds_effect-none StepStatus.pending c r = refl
holds_effect-none StepStatus.failed c r = refl
holds_effect-none StepStatus.compensating c r = refl
holds_effect-none StepStatus.compensated c r = refl
holds_effect-none StepStatus.compensation_failed c r = refl

module _ {W : Type 0} where
  match_head-terminal :
      (saga : Definition W) (id : String) (r : SagaRecord) (s : State W)
      → is_terminal r.status ≡ true
      → ((match_head saga id r s).1.world ≡ s.world)
        × ((match_head saga id r s).1.tables ≡ s.tables)
  unfolding match_head
  match_head-terminal saga id r s over = elim (Bool-cases (str_eq r.name saga.name)) [
    | inl e ↦ rw (e, over) (refl, refl)
    | inr e ↦ rw e (refl, refl)
  ]

  -- A read of a head that is there: the head, an error of the engine, or the end of the process.
  Read : String → SagaRecord → State W → Type 0
  Read id r s =
      (t : State W) × (t.world ≡ s.world)
      × (t.tables ≡ s.tables)
      × ((first_saga id s ≡ (ok r, t))
          ⊎ (((text : String) × (first_saga id s ≡ (err (storage text), t)))
              ⊎ (first_saga id s ≡ (crashed, t))))

  first_saga-Read :
      (id : String) (r : SagaRecord) (s : State W) → head_at s.tables id ≡ some r → Read id r s
  unfolding Read first_saga faulty
  first_saga-Read id r s found = go s.faults refl
    where
      go : (fs : List Fault) → s.faults ≡ fs → Read id r s
      go [] e = (s, refl, refl, inl (rw (e, found) refl))
      go (pass ∷ fs) e = (record s { faults = fs }, refl, refl, inl (rw (e, found) refl))
      go (fail text ∷ fs) e = (record s { faults = fs }, refl, refl, inr (inl (text, rw e refl)))
      go (crash ∷ fs) e = (record s { faults = fs }, refl, refl, inr (inr (rw e refl)))

  -- Recovering a saga that is completed, compensated or failed runs no step and writes nothing,
  -- also where a call of the store fails or the process ends.
  pub recover_saga-terminal :
      (saga : Definition W) (id : String) (r : SagaRecord) (s : State W)
      → head_at s.tables id ≡ some r
      → (r.status ≡ SagaStatus.completed)
        ⊎ ((r.status ≡ SagaStatus.compensated) ⊎ (r.status ≡ SagaStatus.failed))
      → ((recover_saga saga id s).1.world ≡ s.world)
        × ((recover_saga saga id s).1.tables ≡ s.tables)
  unfolding recover_saga read_head Read
  recover_saga-terminal saga id r s found over = elim (Bool-cases (validate saga)) [
    | inl e ↦
        let (t, world, tables, read) = first_saga-Read id r s found in
        rw e (elim read [
          | inl got ↦
              let (same_world, same_tables) =
                match_head-terminal saga id r t (is_terminal-over r.status over) in
              rw got (same_world ∙ world, same_tables ∙ tables)
          | inr (inl (text, got)) ↦ rw got (world, tables)
          | inr (inr got) ↦ rw got (world, tables)
        ])
    | inr e ↦ rw e (refl, refl)
  ]

  -- With no faults, a second start under the identity of a recorded saga is refused, runs no step
  -- and leaves the tables as they are.
  pub run_saga-duplicate :
      (saga : Definition W) (id : String) (r : SagaRecord) (s : State W)
      → s.faults ≡ []
      → head_at s.tables id ≡ some r
      → validate saga ≡ true
      → id ≢ ""
      → run_saga saga id s ≡ (err duplicate, s)
  unfolding run_saga begin_saga create_saga transact faulty
  run_saga-duplicate saga id r s calm found valid named = rw (valid, unnamed, calm, found) refl
    where
      unnamed : str_eq id "" ≡ false
      unnamed = ground (arith, eq_iff id "")

  unwind_idle :
      (saga : Definition W) (id : String) (n : ℕ) (failures : List String) (s : State W)
      → s.faults ≡ []
      → n ≤ length saga.steps
      → ((j : ℕ)
          → j < n
          → (st : StepStatus) × (status_at s.tables id j ≡ some st) × (holds_effect st ≡ false))
      → unwind saga id n failures s ≡ (ok failures, s)
  unfolding unwind
  unwind_idle saga id zero failures s calm le idle = refl
  unwind_idle saga id (suc n) failures s calm le idle =
      let (step, at) = get_elem?-some saga.steps n (omega arith) in
      let (st, recorded, none_held) = idle n (omega arith) in
      let (row, found, status) = row_of_status s id n st recorded in
      rw (at, unwind)
        (rw (step_status-calm id n s row calm found) (
          rw (status, none_held)
            (unwind_idle saga id n failures s calm (omega arith) (λ j lt. idle j (omega arith)))))

  -- With no faults, a saga whose steps are all recorded, none of them as completed or running,
  -- ends as compensated with no compensation called, with the reason that was given.
  pub compensate_idle :
      (saga : Definition W) (id reason : String) (s : State W)
      → s.faults ≡ []
      → HasHead id s
      → ((j : ℕ)
          → j < length saga.steps
          → (st : StepStatus) × (status_at s.tables id j ≡ some st)
            × (st ≢ StepStatus.completed)
            × (st ≢ StepStatus.running))
      → let r = compensate saga id (length saga.steps) reason s in
        (r.0 ≡ err (saga_compensated reason))
        × (r.1.world ≡ s.world)
        × (outcome (head_at r.1.tables id) ≡ some SagaStatus.compensated)
  unfolding compensate
  compensate_idle saga id reason s calm (head, at) idle =
      let idles : (j : ℕ)
          → j < length saga.steps
          → (st : StepStatus) × (status_at s.tables id j ≡ some st) × (holds_effect st ≡ false) =
        λ j lt. let (st, at_j, c, r) = idle j lt in (st, at_j, holds_effect-none st c r) in
      let s1 = headed id s SagaStatus.compensating reason in
      rw (mark_saga-calm id s SagaStatus.compensating reason calm) (
        rw (unwind_idle saga id (length saga.steps) [] s1 calm (omega arith) idles) (
          rw (mark_saga-calm id s1 SagaStatus.compensated reason calm) (
            refl,
            refl,
            outcome-headed id s1 SagaStatus.compensated reason
                (record head { status = SagaStatus.compensating; failure_reason = reason })
                (rw
                  (
                    head_at-update_self id
                        (λ r. record r {
                          status = SagaStatus.compensating;
                          failure_reason = reason;
                        })
                        s.tables.sagas (λ _. refl),
                    at,
                  )
                  refl),
          )))
