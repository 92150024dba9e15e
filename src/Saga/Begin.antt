-- ===== src/Saga/Begin.antt =====
-- RunSaga on an identity that is not in the tables.
use sannad.Prelude.{
  ℕ, suc, ◌≤◌, ◌<◌, ◌+◌, String, Bool, true, false, none, some, List, [], ◌∷◌, ◌++◌, ◌≡◌, ◌≢◌, refl,
  arith, ◌==◌, str_eq, str_eq_self, eq_iff, if◌then◌else◌, length, Bool-cases, inl, inr, ap, ◌∙◌,
}
use mathlib.Core.Path.{subst}
use sannad.Saga.{SagaStatus, StepStatus, SagaRecord, SagaStepRecord, SagaStep, Definition}
use sannad.Saga.Exec.{State, Result, ok, Exec, pure, meet, faulty, continue, ◌>>=◌, ◌>>◌}
use sannad.Saga.Tables.{
  first, is_step, is_saga, with_steps, with_sagas, rollback, transact, insert_saga, create_saga,
}
use sannad.Saga.Views.{head_at, row_at, status_at}
use sannad.Saga.Validate.{validate}
use sannad.Saga.Run.{create_steps, begin_saga, drive_saga, run_saga}
use sannad.Saga.Spec.{perform}
use sannad.Saga.Driving.{Refines}
use sannad.Saga.Forward.{Ready, drive-perform}

first-snoc :
    {A : Type 0} (p : A → Bool) (xs : List A) (y : A)
    → first p xs ≡ none
    → first p (xs ++ y ∷ []) ≡ (if p y then some y else none)
unfolding first
first-snoc p [] y h = refl
first-snoc p (x ∷ xs) y h = elim (Bool-cases (p x)) [
  | inl e ↦ absurd (cc (rw e at h))
  | inr e ↦ rw e (first-snoc p xs y (rw e at h))
]

first-snoc_some :
    {A : Type 0} (p : A → Bool) (xs : List A) (y z : A)
    → first p xs ≡ some z
    → first p (xs ++ y ∷ []) ≡ some z
unfolding first
first-snoc_some p [] y z h = absurd (cc)
first-snoc_some p (x ∷ xs) y z h = elim (Bool-cases (p x)) [
  | inl e ↦ rw e (rw e at h)
  | inr e ↦ rw e (first-snoc_some p xs y z (rw e at h))
]

module _ {W : Type 0} where
  -- No saga of this name, no fault to come.
  pub record Fresh (id : String) (s : State W) : Type 0 where
    pub calm : s.faults ≡ []
    pub head : head_at s.tables id ≡ none
    pub rows : (j : ℕ) → row_at s.tables id j ≡ none

  record Created (id : String) (i n : ℕ) (s : State W) (r : Result (Unit {0}) × State W)
      : Type 0 where
    pub result : r.0 ≡ ok tt
    pub world : r.1.world ≡ s.world
    pub calm : r.1.faults ≡ []
    pub sagas : r.1.tables.sagas ≡ s.tables.sagas
    pub kept :
        (j : ℕ) (row : SagaStepRecord)
        → row_at s.tables id j ≡ some row
        → row_at r.1.tables id j ≡ some row
    pub rows : (j : ℕ) → i ≤ j → j < i + n → status_at r.1.tables id j ≡ some StepStatus.pending

  abbrev new_row : String → ℕ → SagaStep W → SagaStepRecord
  new_row id i step = record {
    saga_id = id;
    position = i;
    name = step.name;
    status = StepStatus.pending;
    attempts = 0;
    failure_reason = "";
  }

  abbrev inserted : String → ℕ → SagaStep W → State W → State W
  inserted id i step s = with_steps s (s.tables.steps ++ new_row id i step ∷ [])

  create_steps-cons :
      (id : String) (step : SagaStep W) (rest : List (SagaStep W)) (i : ℕ) (s : State W)
      → s.faults ≡ []
      → row_at s.tables id i ≡ none
      → create_steps id (step ∷ rest) i s ≡ create_steps id rest (suc i) (inserted id i step s)
  unfolding create_steps
  create_steps-cons id step rest i s calm free = rw (calm, free)

  module _ (id : String) (step : SagaStep W) (rest : List (SagaStep W)) (i : ℕ) (s : State W)
      (calm : s.faults ≡ []) (free : (j : ℕ) → i ≤ j → row_at s.tables id j ≡ none) where
    here : row_at (inserted id i step s).tables id i ≡ some (new_row id i step)
    here =
        rw
          (
            first-snoc (is_step id i) s.tables.steps (new_row id i step) (free i (omega arith)),
            str_eq_self id,
          )
          (ground arith)

    absent : (j : ℕ) → suc i ≤ j → row_at (inserted id i step s).tables id j ≡ none
    absent j lo =
        rw
          (
            first-snoc (is_step id j) s.tables.steps (new_row id i step) (free j (omega arith)),
            str_eq_self id,
          )
          (ground arith)

    Created-cons :
        (r : Result (Unit {0}) × State W)
        → Created id (suc i) (length rest) (inserted id i step s) r
        → Created id i (suc (length rest)) s r
    Created-cons r later = record {
      result = later.result;
      world = later.world;
      calm = later.calm;
      sagas = later.sagas;
      kept = λ j row h.
          later.kept j row
            (first-snoc_some (is_step id j) s.tables.steps (new_row id i step) row h);
      rows = λ j lo hi. elim (Bool-cases (i == j)) [
        | inl e ↦
            let same : i ≡ j = ground arith in
            rw (← same) (rw (later.kept i (new_row id i step) here))
        | inr e ↦ later.rows j (ground arith) (omega arith)
      ];
    }

  create_steps-Created :
      (id : String) (steps : List (SagaStep W)) (i : ℕ) (s : State W)
      → s.faults ≡ []
      → ((j : ℕ) → i ≤ j → row_at s.tables id j ≡ none)
      → Created id i (length steps) s (create_steps id steps i s)
  create_steps-Created id [] i s calm free =
      unfold create_steps in
      record {
        result = refl;
        world = refl;
        calm = calm;
        sagas = refl;
        kept = λ j row h. h;
        rows = λ j lo hi. absurd (omega arith);
      }
  create_steps-Created id (step ∷ rest) i s calm free =
      rw (create_steps-cons id step rest i s calm (free i (omega arith))) (
        Created-cons id step rest i s calm free
          (create_steps id rest (suc i) (inserted id i step s))
          (create_steps-Created id rest (suc i) (inserted id i step s) calm
            (absent id step rest i s calm free)))

  abbrev head_row : Definition W → String → SagaRecord
  head_row saga id = record {
    saga_id = id;
    name = saga.name;
    status = SagaStatus.running;
    failure_reason = "";
  }

  faulty-calm : {A : Type 0} (m : Exec W A) (s : State W) → s.faults ≡ [] → faulty m s ≡ m s
  unfolding faulty
  faulty-calm m s calm = ap (λ fs. meet m fs s) calm

  transact-calm :
      {A : Type 0} (m : Exec W A) (s t : State W) (a : A)
      → s.faults ≡ []
      → m s ≡ (ok a, t)
      → t.faults ≡ []
      → transact m s ≡ (ok a, t)
  unfolding transact
  transact-calm m s t a calm e calm' =
      ap (λ r. rollback s.tables (continue (λ _. m >>= λ b. faulty (pure b)) r.0 r.1))
        (faulty-calm (pure tt) s calm)
      ∙ (ap (λ r. rollback s.tables (continue (λ b. faulty (pure b)) r.0 r.1)) e
          ∙ ap (rollback s.tables) (faulty-calm (pure a) t calm'))

  create_saga-calm :
      (r : SagaRecord) (s : State W)
      → s.faults ≡ []
      → head_at s.tables r.saga_id ≡ none
      → create_saga r s ≡ (ok tt, with_sagas s (s.tables.sagas ++ r ∷ []))
  unfolding create_saga
  create_saga-calm r s calm free =
      faulty-calm (λ u. insert_saga (first (is_saga r.saga_id) u.tables.sagas) r u) s calm ∙ rw free

  module _ (saga : Definition W) (id : String) (s : State W) (fresh : Fresh id s) where
    abbrev headed_in : State W
    headed_in = with_sagas s (s.tables.sagas ++ head_row saga id ∷ [])

    created : Created id 0 (length saga.steps) headed_in (create_steps id saga.steps 0 headed_in)
    created = create_steps-Created id saga.steps 0 headed_in fresh.calm (λ j _. fresh.rows j)

    -- A new saga is recorded as running, with each of its steps pending, before any step runs.
    begin_saga-calm : begin_saga saga id s ≡ (ok tt, (create_steps id saga.steps 0 headed_in).1)
    unfolding begin_saga
    begin_saga-calm =
        transact-calm (create_saga (head_row saga id) >> create_steps id saga.steps 0) s
          (create_steps id saga.steps 0 headed_in).1 tt fresh.calm
          (ap (λ r. continue (λ _. create_steps id saga.steps 0) r.0 r.1)
              (create_saga-calm (head_row saga id) s fresh.calm fresh.head)
            ∙ ap (λ r. (r, (create_steps id saga.steps 0 headed_in).1)) created.result)
          created.calm

    begun-Ready : Ready id 0 (length saga.steps) (create_steps id saga.steps 0 headed_in).1
    begun-Ready = record {
      settled = record { calm = created.calm; done = λ j lt. elim lt [ ] };
      rows = λ j lo hi. (StepStatus.pending, created.rows j lo (omega arith));
      head = (
        head_row saga id,
        rw created.sagas (
            rw (
              first-snoc (is_saga id) s.tables.sagas (head_row saga id) fresh.head,
              str_eq_self id,
            )),
      );
    }

    -- With no faults, a saga started under a fresh identity ends as its steps do in memory: the
    -- same result, the same world of the modules, and a head that records that result.
    pub run_saga-perform :
        validate saga ≡ true
        → id ≢ ""
        → Refines id (perform [] saga.steps s.world) (run_saga saga id s)
    unfolding run_saga
    run_saga-perform valid named =
        rw (valid, unnamed)
          (rw begin_saga-calm (
            subst
              (λ w. Refines id (perform [] saga.steps w) (drive_saga saga id saga.steps 0 after))
              created.world (drive-perform saga id saga.steps 0 refl after begun-Ready)))
      where
        after : State W
        after = (create_steps id saga.steps 0 headed_in).1

        unnamed : str_eq id "" ≡ false
        unnamed = ground (arith, eq_iff id "")
